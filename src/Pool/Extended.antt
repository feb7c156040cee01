-- ===== src/Pool/Extended.antt =====
-- Shares with a coinbase of the miner's own (handle_extended_share of
-- crates/dinero-sv2-pool/src/main.rs), part by part between its early returns, from the last to the
-- first. Pool.Rebuild has the checks of the coinbase.
pub mod Admitted
pub mod Stages
pub mod Credit
use dinero_sv.Base.{ℕ, Option, none, some, ok, err, if◌then◌else◌, not}
use dinero_sv.Words.{add64}
use dinero_sv.Bytestring.{Bytes, bytes_eq}
use dinero_sv.Coinbase.{
  CoinbaseOutput, assemble_stripped_coinbase, wrap_stripped_with_segwit_witness,
}
use dinero_sv.Dnrf.{requires_filter_commitment, is_dnrf_script}
use dinero_sv.Dnrw.{
  requires_witness_commitment, wtxid_from_tx_bytes, witness_merkle_root, build_dnrw_script,
}
use dinero_sv.Merkle.{compute_root}
use dinero_sv.Messages.{
  NewTemplateDinero, SubmitSharesDinero, SubmitSharesExtendedDinero, CoinbaseOutputWire,
}
use dinero_sv.Sv2.Shares.{decode_submit_shares_extended}
use dinero_sv.Utreexo.{UtreexoAccumulatorState, add_leaf}
use dinero_sv.Utreexo.Commitment.{commitment}
use dinero_sv.Utreexo.Leaf.{leaf_hash_for_height}
use dinero_sv.Pool.Block.{Hex, assemble_block_hex_raw}
use dinero_sv.Pool.Commitment.{state_commitment_root, valid_state_commitment_outputs}
use dinero_sv.Pool.Mapper.{coinbase_outputs}
use dinero_sv.Pool.Target.{hash_meets_target}
use dinero_sv.Pool.Work.{PoolTemplate, MempoolTx, is_current_job, data_of, sha256d, header_hash}
use dinero_sv.Pool.Session.{
  codes, Outside, State, ServeError, coinbase_digits, coinbase_bytes, coinbase_commitment, panicked,
  Served, and_serve, send_share_error, refuse,
}
use dinero_sv.Pool.Accept.{Channel, deduplicated, accept_share, submit_block}
use dinero_sv.Pool.Shared.{total_value}
use dinero_sv.Pool.Rebuild.{
  miner_outputs, usable_state, plain_share, check_outputs, expected_dnrs, rebuild,
}
use dinero_sv.Pool.Solo.{solo_found}

module _ (sha256 : Bytes → Bytes) (hex : Hex) where
  unfoldable pub extended_block :
      Outside
      → Channel
      → SubmitSharesExtendedDinero
      → PoolTemplate
      → NewTemplateDinero
      → Bytes
      → Bytes
      → State
      → Served
  extended_block out ch ext pt template stripped hash s =
      elim (wrap_stripped_with_segwit_witness stripped pt.coinbase_witness_bytes
        pt.coinbase_suffix) [
          | none ↦ (err panicked, s)
          | some coinbase ↦ (
            ok tt,
            submit_block hex out ch hash (solo_found hex out pt hash)
                (assemble_block_hex_raw hex template (plain_share ext) coinbase
                  (data_of pt.mempool_txs))
                s,
          )
        ]

  unfoldable pub extended_fresh :
      Outside
      → Channel
      → SubmitSharesExtendedDinero
      → PoolTemplate
      → NewTemplateDinero
      → Bytes
      → Bytes
      → State
      → Served
  extended_fresh out ch ext pt template stripped hash s =
      and_serve (accept_share hex out ch "extended" ext.sequence_number hash s) λ t.
        if hash_meets_target hash pt.block_target
        then extended_block out ch ext pt template stripped hash t
        else (ok tt, t)

  unfoldable pub extended_hashed :
      Outside
      → Channel
      → SubmitSharesExtendedDinero
      → PoolTemplate
      → NewTemplateDinero
      → Bytes
      → Bytes
      → State
      → Served
  extended_hashed out ch ext pt template stripped hash s =
      if not (hash_meets_target hash ch.share_target)
      then send_share_error out ch.channel_id ext.sequence_number (codes "under-target") s
      else deduplicated out ch ext.sequence_number hash
          (extended_fresh out ch ext pt template stripped hash) s

  unfoldable pub extended_checked :
      ℕ
      → Outside
      → Channel
      → SubmitSharesExtendedDinero
      → PoolTemplate
      → UtreexoAccumulatorState
      → State
      → Served
  extended_checked activation out ch ext pt pre_block s =
      elim (rebuild sha256 hex activation ext pt pre_block) [
        | none ↦ (err panicked, s)
        | some (err code) ↦ refuse out ch.miner_key ch.channel_id ext.sequence_number (codes code) s
        | some (ok (template, stripped)) ↦
            extended_hashed out ch ext pt template stripped
              (header_hash sha256 template (plain_share ext)) s
      ]

  unfoldable pub extended_committed :
      ℕ
      → Outside
      → Channel
      → SubmitSharesExtendedDinero
      → PoolTemplate
      → UtreexoAccumulatorState
      → State
      → Served
  extended_committed activation out ch ext pt pre_block s = elim (expected_dnrs sha256 hex pt) [
    | err e ↦ (err e, s)
    | ok root ↦
        if not (valid_state_commitment_outputs root (miner_outputs ext.coinbase_outputs))
        then refuse out ch.miner_key ch.channel_id ext.sequence_number
            (codes "bad-dnrs-upgrade-miner") s
        else extended_checked activation out ch ext pt pre_block s
  ]

  unfoldable pub extended_usable :
      ℕ
      → Outside
      → Channel
      → SubmitSharesExtendedDinero
      → PoolTemplate
      → UtreexoAccumulatorState
      → State
      → Served
  extended_usable activation out ch ext pt pre_block s =
      elim (check_outputs sha256 hex pt (miner_outputs ext.coinbase_outputs)) [
        | none ↦ (err panicked, s)
        | some (some code) ↦
            refuse out ch.miner_key ch.channel_id ext.sequence_number (codes code) s
        | some none ↦ extended_committed activation out ch ext pt pre_block s
      ]

  unfoldable pub extended_decoded :
      ℕ → Outside → Channel → SubmitSharesExtendedDinero → Option PoolTemplate → State → Served
  extended_decoded activation out ch ext none s =
      refuse out ch.miner_key ch.channel_id ext.sequence_number (codes "no-template") s
  extended_decoded activation out ch ext (some pt) s =
      if not (is_current_job ext.job_id pt.wire.template_id)
      then refuse out ch.miner_key ch.channel_id ext.sequence_number (codes "stale-share") s
      else elim (usable_state pt) [
        | none ↦
            refuse out ch.miner_key ch.channel_id ext.sequence_number (codes "no-utreexo-state") s
        | some pre_block ↦ extended_usable activation out ch ext pt pre_block s
      ]

  -- `activation` is the height from which the leaves of the forest have their second form.
  unfoldable pub handle_extended_share :
      ℕ → Outside → Channel → Bytes → Option PoolTemplate → State → Served
  handle_extended_share activation out ch payload current s =
      elim (decode_submit_shares_extended payload) [
        | err e ↦
            refuse out ch.miner_key ch.channel_id s.last_sequence_number (codes "invalid-payload") s
        | ok ext ↦
            extended_decoded activation out ch ext current
              (record s { last_sequence_number = ext.sequence_number })
      ]
