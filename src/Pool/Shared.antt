-- ===== src/Pool/Shared.antt =====
-- Shares of channels in shared mode (handle_shared_share of crates/dinero-sv2-pool/src/main.rs), part
-- by part between its early returns, from the last to the first. serde_json is a parameter.
pub mod Admitted
pub mod Credit
pub mod Effect
pub mod Found
pub mod Again
use dinero_sv.Base.{ℕ, List, [], ◌∷◌, map, Option, none, some, ok, err, if◌then◌else◌, not}
use dinero_sv.Words.{add64}
use dinero_sv.Bytestring.{Bytes}
use dinero_sv.Coinbase.{CoinbaseOutput}
use dinero_sv.Messages.{SubmitSharesDinero}
use dinero_sv.Fixed.Submit.{decode_submit_shares}
use dinero_sv.Pool.Bans.{BanList, share_refusal}
use dinero_sv.Pool.Block.{Hex}
use dinero_sv.Pool.Journal.{Json, WindowJournal, Outcome, credit}
use dinero_sv.Pool.Target.{hash_meets_target, share_weight}
use dinero_sv.Pool.Telemetry.{FoundBlock, record_rejection}
use dinero_sv.Pool.Window.{WindowEntry, PplnsWindow}
use dinero_sv.Pool.Work.{
  PoolTemplate, Origin, SharedTemplate, is_current_job, accepts_header, block_hex,
  assemble_block_hex, header_hash,
}
use dinero_sv.Pool.Session.{
  codes, Outside, State, persisting, assembling, Served, and_serve, send_share_error, refuse,
}
use dinero_sv.Pool.Accept.{Channel, deduplicated, accept_share, note_failure, submit_block}
use dinero_sv.Pool.Solo.{is_modified}

-- `st.outputs.iter().map(|o| o.value_una).sum()`
unfoldable pub total_value : ℕ → List CoinbaseOutput → ℕ
total_value acc [] = acc
total_value acc (o ∷ outs) = total_value (add64 acc o.value_una) outs

unfoldable pub hex_outputs : Hex → List CoinbaseOutput → List (Bytes × ℕ)
hex_outputs hex outs = map (λ (o : CoinbaseOutput). (hex.encode o.script_pubkey, o.value_una)) outs

unfoldable pub shared_found : Hex → Outside → SharedTemplate → Bytes → FoundBlock
shared_found hex out st hash = record {
  height = st.height;
  hash = hex.encode hash;
  time = out.found_time;
  reward_una = total_value 0 st.outputs;
  status = codes "accepted";
  outputs = hex_outputs hex st.outputs;
}

unfoldable pub entry_of_share : Outside → Bytes → Bytes → WindowEntry
entry_of_share out share_target payout_script = record {
  payout_script = payout_script;
  weight = share_weight share_target;
  unix_ts = out.credit_time;
}

unfoldable pub miner_key_for_payout_script : (Bytes → Bytes) → Bytes → Bytes
miner_key_for_payout_script sha256 payout_script = sha256 payout_script

module _ (sha256 : Bytes → Bytes) (hex : Hex) (json : Json) where
  unfoldable pub shared_block :
      Outside
      → Channel
      → SubmitSharesDinero
      → Option Origin
      → SharedTemplate
      → Bytes
      → State
      → Served
  shared_block out ch share (some origin) st hash s = elim (block_hex hex origin share) [
    | err e ↦ (err (assembling e), s)
    | ok block ↦ (ok tt, submit_block hex out ch hash (shared_found hex out st hash) block s)
  ]
  shared_block out ch share none st hash s =
      elim (assemble_block_hex hex st.wire share st.coinbase_full_hex st.mempool_tx_data) [
        | err e ↦ (ok tt, note_failure hex out hash (codes "coinbase hex") s)
        | ok block ↦ (ok tt, submit_block hex out ch hash (shared_found hex out st hash) block s)
      ]

  -- What the credit leaves of the journal and the window; a failure ends the session.
  unfoldable pub persisted : Outcome × WindowJournal × PplnsWindow → State → Served
  persisted (ok _, journal, window) s = (ok tt, record s { journal = journal; window = window })
  persisted (err e, journal, window) s =
      (err (persisting e), record s { journal = journal; window = window })

  unfoldable pub persist : Outside → Channel → Bytes → State → Served
  persist out ch payout_script s =
      persisted
        (credit json s.journal s.window (entry_of_share out ch.share_target payout_script)
          out.journal_write out.journal_replace)
        s

  unfoldable pub shared_fresh :
      Outside
      → Channel
      → Bytes
      → SubmitSharesDinero
      → PoolTemplate
      → SharedTemplate
      → Bytes
      → State
      → Served
  shared_fresh out ch payout_script share pt st hash s =
      and_serve (persist out ch payout_script s) λ t.
        and_serve (accept_share hex out ch "shared" share.sequence_number hash t) λ u.
          if hash_meets_target hash pt.block_target
          then shared_block out ch share st.orchard st hash u
          else (ok tt, u)

  unfoldable pub shared_hashed :
      Outside
      → Channel
      → Bytes
      → SubmitSharesDinero
      → PoolTemplate
      → SharedTemplate
      → Bytes
      → State
      → Served
  shared_hashed out ch payout_script share pt st hash s =
      if not (hash_meets_target hash ch.share_target)
      then send_share_error out ch.channel_id share.sequence_number (codes "under-target") s
      else deduplicated out ch share.sequence_number hash
          (shared_fresh out ch payout_script share pt st hash) s

  unfoldable pub shared_decoded :
      Outside
      → Channel
      → Bytes
      → SubmitSharesDinero
      → Option PoolTemplate
      → Option SharedTemplate
      → State
      → Served
  shared_decoded out ch payout_script share none current_shared s =
      refuse out ch.miner_key ch.channel_id share.sequence_number (codes "no-template") s
  shared_decoded out ch payout_script share (some pt) none s =
      refuse out ch.miner_key ch.channel_id share.sequence_number (codes "no-shared-template") s
  shared_decoded out ch payout_script share (some pt) (some st) s =
      if not (is_current_job share.job_id st.wire.template_id)
      then refuse out ch.miner_key ch.channel_id share.sequence_number (codes "stale-share") s
      else if is_modified st.orchard st.wire share
      then refuse out ch.miner_key ch.channel_id share.sequence_number
          (codes "immutable-header-modified") s
      else shared_hashed out ch payout_script share pt st (header_hash sha256 st.wire share) s

  -- `ch.miner_key` is the key of the payout script.
  unfoldable pub shared_admitted :
      Outside
      → Channel
      → Bytes
      → Bytes
      → Option PoolTemplate
      → Option SharedTemplate
      → State
      → Served
  shared_admitted out ch payout_script payload current current_shared s =
      elim (decode_submit_shares payload) [
        | err e ↦
            refuse out ch.miner_key ch.channel_id s.last_sequence_number (codes "invalid-payload") s
        | ok share ↦
            shared_decoded out ch payout_script share current current_shared
              (record s { last_sequence_number = share.sequence_number })
      ]

  unfoldable pub handle_shared_share :
      Outside
      → ℕ
      → Bytes
      → BanList
      → Bytes
      → Bytes
      → Option PoolTemplate
      → Option SharedTemplate
      → State
      → Served
  handle_shared_share out channel_id share_target bans payout_script payload current current_shared
        s =
      let ch : Channel = record {
        channel_id = channel_id;
        share_target = share_target;
        miner_key = miner_key_for_payout_script sha256 payout_script;
      } in
      elim (share_refusal bans payout_script out.ban_time) [
        | some error_code ↦
            refuse out ch.miner_key channel_id s.last_sequence_number (codes error_code)
              (record s { telemetry = record_rejection s.telemetry (codes error_code) })
        | none ↦ shared_admitted out ch payout_script payload current current_shared s
      ]
