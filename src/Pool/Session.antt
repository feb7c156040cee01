-- ===== src/Pool/Session.antt =====
-- What a call of a share handler of the pool server touches: the state that the connections share,
-- the channel's own counters, and the frames that go out to the miner
-- (crates/dinero-sv2-pool/src/main.rs). What happens outside of a call is one of its arguments.
pub mod Refusal
use dinero_sv.Base.{ℕ, String, List, [], ◌∷◌, ◌++◌, Result, ok, err, if◌then◌else◌, Bool}
use Prim.Native.Char.{code}
use dinero_sv.Words.{add64}
use dinero_sv.Bytestring.{Bytes}
use dinero_sv.Messages.{SubmitSharesSuccess, SubmitSharesError}
use dinero_sv.Sv2.{Sv2CodecError}
use dinero_sv.Sv2.Shares.{encode_submit_shares_success, encode_submit_shares_error}
use dinero_sv.Pool.Bans.{BanList}
use dinero_sv.Pool.Dedup.{ShareDedup}
use dinero_sv.Pool.Window.{PplnsWindow}
use dinero_sv.Pool.Journal.{WindowJournal, JournalError, Write, Replace}
use dinero_sv.Pool.Ledger.{Ledger, reject}
use dinero_sv.Pool.Telemetry.{TelemetryState, BlockLog, record_rejection}
use dinero_sv.Pool.Work.{WorkError}
use dinero_sv.Pool.Mapper.{MapperError}
use dinero_sv.Pool.Commitment.{CommitmentError}

-- The bytes of an ASCII text.
abbrev pub codes : String → Bytes
codes String.[] = []
codes (String.◌∷◌ c s) = code c ∷ codes s

pub record Frame : Type 0 where
  pub msg_type : ℕ
  pub payload : Bytes

abbrev pub msg_submit_shares_success : ℕ
msg_submit_shares_success = 0x1C

abbrev pub msg_submit_shares_error : ℕ
msg_submit_shares_error = 0x1D

-- The answer to the submission of a block.
pub data BlockSubmission : Type 0 where
  accepted : BlockSubmission
  rejected : Bytes → BlockSubmission
  skipped : BlockSubmission
  failed : Bytes → BlockSubmission

-- The readings of the clock, in the order in which a handler takes them; whether the frame that it
-- writes goes out; how far the journal gets; and what the nodes answer to a block.
pub record Outside : Type 0 where
  pub ban_time : ℕ
  pub credit_time : ℕ
  pub share_time : ℕ
  pub block_time : ℕ
  pub found_time : ℕ
  pub delivered : Bool
  pub journal_write : Write
  pub journal_replace : Replace
  pub submit_found_block : Bytes → BlockSubmission

-- `sent` has the frames that went out to the miner, and `offered` the blocks that were handed to
-- submit_found_block, which may skip one, the first ones first.
pub record State : Type 0 where
  pub ledger : Ledger
  pub telemetry : TelemetryState
  pub blocks : BlockLog
  pub dedup : ShareDedup
  pub window : PplnsWindow
  pub journal : WindowJournal
  pub last_sequence_number : ℕ
  pub accepted_in_window : ℕ
  pub sent : List Frame
  pub offered : List Bytes

-- What ends a session.
pub data ServeError : Type 0 where
  disconnected : ServeError
  encoding : Sv2CodecError → ServeError
  persisting : JournalError → ServeError
  assembling : WorkError → ServeError
  coinbase_digits : ServeError
  coinbase_bytes : MapperError → ServeError
  coinbase_commitment : CommitmentError → ServeError
  panicked : ServeError

abbrev pub Served : Type 0
Served = Result ServeError (Unit {0}) × State

-- `step?` and what follows it.
abbrev pub and_serve : Served → (State → Served) → Served
and_serve (ok _, s) f = f s
and_serve (err e, s) f = (err e, s)

unfoldable pub write_frame : Outside → ℕ → Bytes → State → Served
write_frame out msg_type payload s =
    if out.delivered
    then (
      ok tt,
      record s { sent = s.sent ++ (record { msg_type = msg_type; payload = payload } ∷ []) },
    )
    else (err disconnected, s)

unfoldable pub write_encoded : Outside → ℕ → Result Sv2CodecError Bytes → State → Served
write_encoded out msg_type (ok payload) s = write_frame out msg_type payload s
write_encoded out msg_type (err e) s = (err (encoding e), s)

unfoldable pub send_share_error : Outside → ℕ → ℕ → Bytes → State → Served
send_share_error out channel_id sequence_number error_code s =
    write_encoded out msg_submit_shares_error
      (encode_submit_shares_error (record {
        channel_id = channel_id;
        sequence_number = sequence_number;
        error_code = error_code;
      }))
      (record s { telemetry = record_rejection s.telemetry error_code })

-- `ledger.reject(miner_key)` and the error.
unfoldable pub refuse : Outside → Bytes → ℕ → ℕ → Bytes → State → Served
refuse out miner channel_id sequence_number error_code s =
    send_share_error out channel_id sequence_number error_code
      (record s { ledger = reject s.ledger miner })

unfoldable pub send_share_success : Outside → ℕ → ℕ → State → Served
send_share_success out channel_id sequence_number s =
    write_frame out msg_submit_shares_success
      (encode_submit_shares_success (record {
        channel_id = channel_id;
        last_sequence_number = sequence_number;
        new_submits_accepted_count = 1;
        new_shares_sum = 1;
      }))
      s
