-- ===== src/Pool/Accept.antt =====
-- What the three share handlers of the pool server have in common, behind their checks: the filter of
-- accepted shares, the credit in the ledger and the answer, and the bookkeeping of a found block
-- (crates/dinero-sv2-pool/src/main.rs).
pub mod Fresh
pub mod Found
use dinero_sv.Base.{ℕ, String, [], ◌∷◌, ◌++◌, if◌then◌else◌, not}
use dinero_sv.Words.{add64}
use dinero_sv.Bytestring.{Bytes}
use dinero_sv.Pool.Block.{Hex}
use dinero_sv.Pool.Dedup.{insert}
use dinero_sv.Pool.Ledger.{credit_share, credit_block}
use dinero_sv.Pool.Telemetry.{FoundBlock, record_accepted_share, record_block, record_found}
use dinero_sv.Pool.Session.{
  codes, BlockSubmission, accepted, rejected, skipped, failed, Outside, State, Served, and_serve,
  refuse, send_share_success,
}

-- A channel as its handlers see it.
pub record Channel : Type 0 where
  pub channel_id : ℕ
  pub share_target : Bytes
  pub miner_key : Bytes

-- A hash that is new to the filter goes on; another is refused.
unfoldable pub deduplicated : Outside → Channel → ℕ → Bytes → (State → Served) → State → Served
deduplicated out ch sequence_number hash next s =
    let (dedup, fresh) = insert s.dedup hash in
    if fresh
    then next (record s { dedup = dedup })
    else refuse out ch.miner_key ch.channel_id sequence_number (codes "duplicate-share")
        (record s { dedup = dedup })

module _ (hex : Hex) where
  unfoldable pub accept_share : Outside → Channel → String → ℕ → Bytes → State → Served
  accept_share out ch kind sequence_number hash s =
      send_share_success out ch.channel_id sequence_number (record s {
        ledger = credit_share s.ledger ch.miner_key;
        telemetry = record_accepted_share s.telemetry out.share_time (codes kind) (hex.encode hash);
        accepted_in_window = add64 s.accepted_in_window 1;
      })

  -- The error arm: a block that could not be assembled or sent.
  unfoldable pub note_failure : Outside → Bytes → Bytes → State → State
  note_failure out hash reason s = record s {
    telemetry = record_block s.telemetry out.block_time (codes "error") (hex.encode hash) reason;
  }

  -- What is noted of the answer of the nodes.
  unfoldable pub note_answer :
      Outside → Channel → Bytes → FoundBlock → BlockSubmission → State → State
  note_answer out ch hash found accepted s = record s {
    ledger = credit_block s.ledger ch.miner_key;
    telemetry = record_block s.telemetry out.block_time (codes "accepted") (hex.encode hash) [];
    blocks = record_found s.blocks found;
  }
  note_answer out ch hash found (rejected reason) s = record s {
    telemetry = record_block s.telemetry out.block_time (codes "rejected") (hex.encode hash) reason;
  }
  note_answer out ch hash found skipped s = s
  note_answer out ch hash found (failed reason) s = note_failure out hash reason s

  unfoldable pub submit_block : Outside → Channel → Bytes → FoundBlock → Bytes → State → State
  submit_block out ch hash found block s =
      note_answer out ch hash found (out.submit_found_block block)
        (record s { offered = s.offered ++ (block ∷ []) })
