-- ===== src/Pool/Rebuild.antt =====
-- The checks of a miner's own coinbase and the header that it leads to (handle_extended_share of
-- crates/dinero-sv2-pool/src/main.rs, its steps 1 to 5). SHA-256 and the hex crate are parameters.
use dinero_sv.Base.{
  ℕ, suc, String, List, [], ◌∷◌, map, Option, none, some, Result, ok, err, replicate, ◌==◌,
  if◌then◌else◌, Bool, true, false, ◌&&◌, ◌||◌, not,
}
use dinero_sv.Bytestring.{Bytes, bytes_eq}
use dinero_sv.Coinbase.{CoinbaseOutput, assemble_stripped_coinbase}
use dinero_sv.Dnrf.{requires_filter_commitment, is_dnrf_script}
use dinero_sv.Dnrw.{
  requires_witness_commitment, wtxid_from_tx_bytes, witness_merkle_root, build_dnrw_script,
}
use dinero_sv.Merkle.{compute_root}
use dinero_sv.Messages.{
  NewTemplateDinero, SubmitSharesDinero, SubmitSharesExtendedDinero, CoinbaseOutputWire,
}
use dinero_sv.Utreexo.{UtreexoAccumulatorState, add_leaf}
use dinero_sv.Utreexo.Commitment.{commitment}
use dinero_sv.Utreexo.Leaf.{leaf_hash_for_height}
use dinero_sv.Pool.Block.{Hex}
use dinero_sv.Pool.Commitment.{state_commitment_root}
use dinero_sv.Pool.Mapper.{coinbase_outputs}
use dinero_sv.Pool.Work.{PoolTemplate, data_of, sha256d}
use dinero_sv.Pool.Session.{
  ServeError, coinbase_digits, coinbase_bytes, coinbase_commitment, panicked,
}
use dinero_sv.Pool.Shared.{total_value}

-- The wire structs as the outputs that a coinbase is assembled from.
unfoldable pub miner_outputs : List CoinbaseOutputWire → List CoinbaseOutput
miner_outputs outs =
    map
      (λ (w : CoinbaseOutputWire). record {
        value_una = w.value_una;
        script_pubkey = w.script_pubkey;
      })
      outs

unfoldable pub any_output : (Bytes → Bool) → List CoinbaseOutput → Bool
any_output p [] = false
any_output p (o ∷ outs) = p o.script_pubkey || any_output p outs

-- `utreexo_pre_block.as_ref().filter(|_| pt.mempool_txs.is_empty())`
unfoldable pub usable_state : PoolTemplate → Option UtreexoAccumulatorState
usable_state pt = elim pt.mempool_txs [ [] ↦ pt.utreexo_pre_block | _ ∷ _ ↦ none ]

-- The header's template as the handler puts it together.
unfoldable pub reconstructed :
    PoolTemplate → SubmitSharesExtendedDinero → Bytes → Bytes → NewTemplateDinero
reconstructed pt ext merkle_root utreexo_root = record {
  template_id = pt.wire.template_id;
  future_template = false;
  version = ext.version;
  prev_block_hash = pt.wire.prev_block_hash;
  merkle_root = merkle_root;
  utreexo_root = utreexo_root;
  timestamp = ext.timestamp;
  difficulty = pt.wire.difficulty;
  coinbase_outputs_commitment = replicate 32 0;
}

unfoldable pub plain_share : SubmitSharesExtendedDinero → SubmitSharesDinero
plain_share ext = record {
  channel_id = ext.channel_id;
  sequence_number = ext.sequence_number;
  job_id = ext.job_id;
  nonce = ext.nonce;
  timestamp = ext.timestamp;
  version = ext.version;
}

-- What the coinbase's outputs lead to, or the code of the refusal.
abbrev pub Applied : Type 0
Applied = Result String UtreexoAccumulatorState

module _ (sha256 : Bytes → Bytes) (hex : Hex) where
  -- The loop over the outputs from number `i` on; `none` is a panic.
  unfoldable pub apply_outputs :
      Bytes → ℕ → ℕ → ℕ → List CoinbaseOutput → UtreexoAccumulatorState → Option Applied
  apply_outputs txid height activation i [] state = some (ok state)
  apply_outputs txid height activation i (out ∷ outs) state =
      elim (add_leaf sha256 state (
        leaf_hash_for_height sha256
          (record {
            txid = txid;
            vout = i;
            amount = out.value_una;
            script_pubkey = out.script_pubkey;
            created_height = height;
            is_coinbase = true;
          })
          activation)) [
            | none ↦ none
            | some (err e, _) ↦ some (err "utreexo-apply")
            | some (ok _, state') ↦ apply_outputs txid height activation (suc i) outs state'
          ]

  -- The forest's root after the coinbase.
  unfoldable pub utreexo_root_after : Option Applied → Option (Result String Bytes)
  utreexo_root_after none = none
  utreexo_root_after (some (err code)) = some (err code)
  utreexo_root_after (some (ok state)) = elim (commitment sha256 state) [
    | err e ↦ some (err "utreexo-commit")
    | ok root ↦ some (ok root)
  ]

  unfoldable pub has_witness_commitment : PoolTemplate → List CoinbaseOutput → Option Bool
  has_witness_commitment pt outs =
      elim (witness_merkle_root (sha256d sha256)
        (map (wtxid_from_tx_bytes (sha256d sha256)) (data_of pt.mempool_txs))) [
          | none ↦ none
          | some root ↦ some (
              any_output (λ script. bytes_eq script (build_dnrw_script (sha256d sha256) root)) outs)
        ]

  -- The checks 1, 1b and 1c: the code of the first that fails.
  unfoldable pub check_outputs : PoolTemplate → List CoinbaseOutput → Option (Option String)
  check_outputs pt outs =
      if not (total_value 0 outs == pt.coinbase_value_una)
      then some (some "value-mismatch")
      else if requires_filter_commitment pt.height && not (any_output is_dnrf_script outs)
      then some (some "missing-dnrf")
      else if requires_witness_commitment pt.height
      then elim (has_witness_commitment pt outs) [
        | none ↦ none
        | some true ↦ some none
        | some false ↦ some (some "missing-dnrw")
      ]
      else some none

  -- `mapper::state_commitment_root` on the hex digits of the daemon's coinbase.
  unfoldable pub expected_dnrs : PoolTemplate → Result ServeError (Option Bytes)
  expected_dnrs pt = elim (hex.decode pt.coinbase_full_hex) [
    | none ↦ err coinbase_digits
    | some bytes ↦ elim (coinbase_outputs bytes) [
      | none ↦ err panicked
      | some (err e) ↦ err (coinbase_bytes e)
      | some (ok outs) ↦ elim (state_commitment_root outs) [
        | err e ↦ err (coinbase_commitment e)
        | ok root ↦ ok root
      ]
    ]
  ]

  -- The template that the miner's coinbase leads to, with that coinbase, or the code of the refusal.
  unfoldable pub rebuild :
      ℕ
      → SubmitSharesExtendedDinero
      → PoolTemplate
      → UtreexoAccumulatorState
      → Option (Result String (NewTemplateDinero × Bytes))
  rebuild activation ext pt pre_block =
      let outs = miner_outputs ext.coinbase_outputs in
      let stripped = assemble_stripped_coinbase pt.coinbase_prefix outs pt.coinbase_suffix in
      let txid = sha256d sha256 stripped in
      elim (utreexo_root_after (apply_outputs txid pt.height activation 0 outs pre_block)) [
        | none ↦ none
        | some (err code) ↦ some (err code)
        | some (ok root) ↦ some (
            ok (
              reconstructed pt ext (compute_root (sha256d sha256) txid pt.merkle_path) root,
              stripped,
            ))
      ]
