-- ===== src/Lib.antt =====
-- Dinero Stratum V2: the wire codecs of the mining protocol and the state and arithmetic of the
-- mining pool.
--
-- The program. A pool server keeps sessions with miners. Messages reach it as frames, which the
-- codecs turn into structs and back (crates/dinero-sv2-codec, crates/dinero-sv2-jd). A share that a
-- miner submits is compared with its target, weighed, checked against the filter of accepted shares
-- and recorded in the PPLNS window; the window's weights decide how the reward of the next block is
-- split over the outputs of its coinbase; a block that is found goes through a gate before it is
-- submitted to the nodes; an operator can ban a script for a while (crates/dinero-sv2-pool).
--
-- The files.
--   Base, Words, Bytestring: results, lists over the native numbers, fixed-width arithmetic, and
--   byte strings with the equality and the order of `Vec<u8>` and `[u8; 32]`. A byte is a number, an
--   integer of w bits is a number below 2^w, and an array of 32 bytes is a list of that length.
--   Wire: the cursor of both variable-size codecs (`Cursor` of sv2.rs and of the codec of
--   crates/dinero-sv2-jd) as a state-passing parser, little-endian integers, and the rules that the
--   round trips are derived by: what a parser reads back (Wire.Accepts) and what it leaves unread
--   (Wire.Ends). Wire.Limits has the caps and the length-prefixed blobs and paths.
--   Messages: the structs of crates/dinero-sv2-common.
--   Sv2: crates/dinero-sv2-codec/src/sv2.rs, one file per group of messages, `encode_*` and
--   `decode_*` named as there. Fixed: crates/dinero-sv2-codec/src/lib.rs.
--   Jd: crates/dinero-sv2-jd/src/codec.rs.
--   Utreexo: crates/dinero-sv2-jd/src/utreexo.rs, adding leaves; Utreexo.Slots has the binary
--   counter behind it and Utreexo.Trees the forest, Utreexo.Leaf the leaf hashes, Utreexo.Positions
--   the places of leaves, Utreexo.Commitment the commitment in the header.
--   Merkle: compute_root of crates/dinero-sv2-jd/src/merkle.rs, and the two loops over all leaves of
--   the pool's mapper.rs. Varint: the compact size, which the source writes and reads in several
--   places. Extranonce: the pool's extranonce.rs. Coinbase: the assembly of
--   crates/dinero-sv2-jd/src/coinbase.rs and the wrapping of the pool's block.rs.
--   Pool.Split: compute_split and merge_duplicate_outputs of split.rs, cut at its comments.
--   Pool.Window: PplnsWindow of accounting.rs; `record` is `record_share` here.
--   Pool.Target: target.rs, and share_weight of accounting.rs.
--   Compact: nbits_to_target of crates/dinero-sv2-common/src/lib.rs.
--   Header: HeaderAssembly of the same file, up to the hash.
--   Dnrf, Dnrw: filter_commitment.rs and witness_commitment.rs of crates/dinero-sv2-jd/src, and
--   Gcs: block_filter.rs there.
--   Pool.Dedup: dedup.rs. Pool.Bans: bans.rs. Pool.Hashes: sets and queues of hashes as lists.
--   Pool.Journal: journal.rs and the start of main.rs, over the bytes of the file; Pool.Journal.Recovery
--   has what a file gives back, Pool.Journal.Restart what is in it after any credits.
--   Pool.Mapper: what mapper.rs reads of a coinbase's bytes; Pool.Mapper.Walk is the cursor over
--   them. Pool.Commitment: the state commitment of the same file.
--   Pool.Backend: the choice among the nodes' templates by chain work, of backend.rs.
--   Pool.Block: the serialized block of block.rs, and its parent as backend.rs reads it.
--   Pool.Gate: SubmitGate of backend.rs. A task's critical sections are functions, and a run of the
--   server is any interleaving of them; Pool.Gate.Won has what a poll of the nodes leaves of it.
--   Pool.Ledger: Ledger of accounting.rs. Pool.Telemetry: the telemetry of ops.rs and the block log
--   of stats.rs as far as shares write them.
--   Pool.Work: the structs of templates (mapper.rs, shared_template.rs, orchard.rs), the hash of a
--   header, and what a share and a block need of them (job_generation.rs, orchard.rs, block.rs).
--   Pool.Solo, Pool.Shared and Pool.Extended: handle_share, handle_shared_share and
--   handle_extended_share of main.rs, each cut where a check has passed. What they share is in
--   Pool.Session (the state, the frames, a refusal) and Pool.Accept (the filter, the credit, the
--   submission). Pool.Rebuild: the header that an extended share leads to.
--   Pool.Calls: the handlers called one after another for any connections. A call is taken as a
--   whole; of what the connections share only the filter is followed through other calls.
--   Pool.Template: build_shared_template of shared_template.rs and add_transaction_outputs of
--   mempool.rs.
--   Examples: the theorems at concrete inputs.
--
-- Conventions. Arithmetic wraps or saturates as in the release build (Words). A panic of the source
-- is `none` (the assertion of compute_split, a slice out of range in Pool.Mapper, a shift by the
-- width of a word). A hash map is a list of entries in some order. SHA-256, serde_json and the hex
-- crate are parameters of what uses them; serde_json with the laws of Pool.Journal.Recovery.IsJson.
-- Loops are structural on a list or a count, but for three: `add_leaf` climbs one level in a round
-- and has 64 rounds, the width of its word, and the two Merkle loops have as many rounds as there
-- are leaves, since a level is at most half of the one below it, rounded up. A share handler takes
-- the state before the call and gives the state after it: what the mutexes hold (Ledger, telemetry,
-- block log, filter, window, journal), the frames that were sent and the blocks that were handed to
-- submit_found_block, which sends a block or skips it, in order. What happens outside of the call is an argument, the record Outside: the times that the
-- clock gives, whether frames are delivered, whether the journal is written, what the nodes answer.
--
-- Not modelled: sockets, tasks and the command line (of main.rs the loop that calls the handlers,
-- vardiff and the pushing of jobs; rpc.rs, the routes of ops.rs, the files and the rate limiter of
-- stats.rs), the mempool but for add_transaction_outputs, the JSON of templates (map_template), the
-- probing of the nodes, deletions from the accumulator (apply_deletions), the derivation of sealed
-- shared templates (derive_shared of orchard.rs), the Noise transport, the miners and their display,
-- the template provider, immutable.rs, and f64 (target_for_hashrate). In the journal, directories,
-- permissions and failing reads.
pub mod Base
pub mod Wire
pub mod Messages
pub mod Fixed
pub mod Sv2
pub mod Jd
pub mod Utreexo
mod Words
mod Bytestring
pub mod Varint
pub mod Coinbase
pub mod Extranonce
pub mod Header
pub mod Merkle
pub mod Dnrf
pub mod Dnrw
pub mod Gcs
pub mod Pool
pub mod Compact
mod Examples
