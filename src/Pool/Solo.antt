-- ===== src/Pool/Solo.antt =====
-- Shares of solo channels (handle_share of crates/dinero-sv2-pool/src/main.rs). The functions are the
-- parts of the handler between its early returns, from the last to the first.
pub mod Credit
use dinero_sv.Base.{[], Option, none, some, ok, err, if◌then◌else◌, Bool, false, not}
use dinero_sv.Bytestring.{Bytes}
use dinero_sv.Messages.{NewTemplateDinero, SubmitSharesDinero}
use dinero_sv.Fixed.Submit.{decode_submit_shares}
use dinero_sv.Pool.Block.{Hex}
use dinero_sv.Pool.Target.{hash_meets_target}
use dinero_sv.Pool.Telemetry.{FoundBlock}
use dinero_sv.Pool.Work.{
  PoolTemplate, Origin, SharedTemplate, WorkError, is_current_job, accepts_header, block_hex,
  assemble_block_hex, data_of, header_hash,
}
use dinero_sv.Pool.Session.{
  codes, Outside, State, ServeError, assembling, Served, and_serve, refuse,
}
use dinero_sv.Pool.Accept.{Channel, deduplicated, accept_share, note_failure, submit_block}

unfoldable pub origin_of : Option SharedTemplate → Option Origin
origin_of none = none
origin_of (some job) = job.orchard

-- `is_some_and(|origin| !origin.accepts_header(..))`
unfoldable pub is_modified : Option Origin → NewTemplateDinero → SubmitSharesDinero → Bool
is_modified none wire share = false
is_modified (some origin) wire share = not (accepts_header origin wire share)

-- The template with the wire message and the coinbase of the channel's own job.
unfoldable pub derived : Option PoolTemplate → Option SharedTemplate → Option PoolTemplate
derived none immutable = none
derived (some base) none = some base
derived (some base) (some job) =
    some (record base { wire = job.wire; coinbase_full_hex = job.coinbase_full_hex })

-- What the log of blocks keeps of a block of this handler.
unfoldable pub solo_found : Hex → Outside → PoolTemplate → Bytes → FoundBlock
solo_found hex out pt hash = record {
  height = pt.height;
  hash = hex.encode hash;
  time = out.found_time;
  reward_una = pt.coinbase_value_una;
  status = codes "accepted";
  outputs = [];
}

module _ (sha256 : Bytes → Bytes) (hex : Hex) where
  -- A sealed job's block ends the session where it cannot be assembled; another's is noted.
  unfoldable pub solo_block :
      Outside → Channel → SubmitSharesDinero → Option Origin → PoolTemplate → Bytes → State → Served
  solo_block out ch share (some origin) pt hash s = elim (block_hex hex origin share) [
    | err e ↦ (err (assembling e), s)
    | ok block ↦ (ok tt, submit_block hex out ch hash (solo_found hex out pt hash) block s)
  ]
  solo_block out ch share none pt hash s =
      elim (assemble_block_hex hex pt.wire share pt.coinbase_full_hex (data_of pt.mempool_txs)) [
        | err e ↦ (ok tt, note_failure hex out hash (codes "coinbase hex") s)
        | ok block ↦ (ok tt, submit_block hex out ch hash (solo_found hex out pt hash) block s)
      ]

  -- A share whose hash is new.
  unfoldable pub solo_fresh :
      Outside → Channel → SubmitSharesDinero → Option Origin → PoolTemplate → Bytes → State → Served
  solo_fresh out ch share origin pt hash s =
      and_serve (accept_share hex out ch "standard" share.sequence_number hash s) λ t.
        if hash_meets_target hash pt.block_target
        then solo_block out ch share origin pt hash t
        else (ok tt, t)

  unfoldable pub solo_hashed :
      Outside → Channel → SubmitSharesDinero → Option Origin → PoolTemplate → Bytes → State → Served
  solo_hashed out ch share origin pt hash s =
      if not (hash_meets_target hash ch.share_target)
      then refuse out ch.miner_key ch.channel_id share.sequence_number (codes "under-target") s
      else deduplicated out ch share.sequence_number hash (solo_fresh out ch share origin pt hash) s

  unfoldable pub solo_decoded :
      Outside → Channel → SubmitSharesDinero → Option Origin → Option PoolTemplate → State → Served
  solo_decoded out ch share origin none s =
      refuse out ch.miner_key ch.channel_id share.sequence_number (codes "no-template") s
  solo_decoded out ch share origin (some pt) s =
      if not (is_current_job share.job_id pt.wire.template_id)
      then refuse out ch.miner_key ch.channel_id share.sequence_number (codes "stale-share") s
      else if is_modified origin pt.wire share
      then refuse out ch.miner_key ch.channel_id share.sequence_number
          (codes "immutable-header-modified") s
      else solo_hashed out ch share origin pt (header_hash sha256 pt.wire share) s

  unfoldable pub handle_share :
      Outside → Channel → Bytes → Option PoolTemplate → Option SharedTemplate → State → Served
  handle_share out ch payload current immutable s = elim (decode_submit_shares payload) [
    | err e ↦
        refuse out ch.miner_key ch.channel_id s.last_sequence_number (codes "invalid-payload") s
    | ok share ↦
        solo_decoded out ch share (origin_of immutable) (derived current immutable)
          (record s { last_sequence_number = share.sequence_number })
  ]
