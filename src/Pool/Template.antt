-- ===== src/Pool/Template.antt =====
-- The template that the pool assembles for shared channels (build_shared_template of
-- crates/dinero-sv2-pool/src/shared_template.rs, and add_transaction_outputs of mempool.rs beside it).
-- `none` is a panic.
pub mod Appended
pub mod Complete
use dinero_sv.Base.{
  ℕ, suc, List, [], ◌∷◌, ◌++◌, map, Option, none, some, Result, ok, err, ◌==◌, if◌then◌else◌, Bool,
  true, false, ◌&&◌, ◌||◌, not,
}
use dinero_sv.Bytestring.{Bytes, bytes_eq}
use dinero_sv.Coinbase.{
  CoinbaseOutput, assemble_stripped_coinbase, wrap_stripped_with_segwit_witness,
  state_commitment_output,
}
use dinero_sv.Dnrf.{requires_filter_commitment, build_dnrf_script}
use dinero_sv.Dnrw.{requires_witness_commitment, witness_merkle_root, build_dnrw_script}
use dinero_sv.Extranonce.{InjectError, inject_scriptsig_extranonce}
use dinero_sv.Gcs.{gcs_build}
use dinero_sv.Merkle.{compute_root}
use dinero_sv.Utreexo.{UtreexoAccumulatorState, add_leaf}
use dinero_sv.Utreexo.Commitment.{commitment}
use dinero_sv.Utreexo.Leaf.{leaf_hash_for_height}
use dinero_sv.Pool.Block.{Hex}
use dinero_sv.Pool.Rebuild.{Applied, apply_outputs, expected_dnrs}
use dinero_sv.Pool.Session.{ServeError}
use dinero_sv.Pool.Shared.{total_value}
use dinero_sv.Pool.Work.{PoolTemplate, MempoolTx, SharedTemplate, sha256d, data_of}

pub data BuildError : Type 0 where
  sum_mismatch : ℕ → ℕ → BuildError
  no_state : BuildError
  not_payouts : BuildError
  daemon_coinbase : ServeError → BuildError
  extranonce : InjectError → BuildError
  accumulator : BuildError

abbrev pub Built : Type 0 → Type 0
Built A = Option (Result BuildError A)

-- `step?`, or a panic, and what follows it.
abbrev pub and_build : {A B : Type 0} → Built A → (A → Built B) → Built B
and_build none f = none
and_build (some (err e)) f = some (err e)
and_build (some (ok a)) f = f a

-- `script.first() == Some(&0x6a)`
unfoldable pub is_op_return : Bytes → Bool
is_op_return [] = false
is_op_return (b ∷ script) = b == 0x6A

unfoldable pub all_payouts : List CoinbaseOutput → Bool
all_payouts [] = true
all_payouts (o ∷ outs) = not (is_op_return o.script_pubkey) && all_payouts outs

-- The scripts among them that are not empty and do not begin with OP_RETURN.
unfoldable pub spendable : List Bytes → List Bytes
spendable [] = []
spendable ([] ∷ scripts) = spendable scripts
spendable ((b ∷ s) ∷ scripts) =
    let rest = spendable scripts in if b == 0x6A then rest else (b ∷ s) ∷ rest

unfoldable pub not_op_returns : List CoinbaseOutput → List Bytes
not_op_returns [] = []
not_op_returns (o ∷ outs) =
    let rest = not_op_returns outs in
    if is_op_return o.script_pubkey then rest else o.script_pubkey ∷ rest

unfoldable pub not_empty : List Bytes → List Bytes
not_empty [] = []
not_empty ([] ∷ scripts) = not_empty scripts
not_empty ((b ∷ s) ∷ scripts) = (b ∷ s) ∷ not_empty scripts

unfoldable pub scripts_of : List MempoolTx → List Bytes
scripts_of [] = []
scripts_of (tx ∷ txs) = map (λ (o : ℕ × Bytes). o.1) tx.outputs ++ scripts_of txs

unfoldable pub commitment_output : Bytes → CoinbaseOutput
commitment_output script = record { value_una = 0; script_pubkey = script }

-- The outpoints that transactions of the block spend.
unfoldable pub is_spent : Bytes → ℕ → List (Bytes × ℕ) → Bool
is_spent txid vout [] = false
is_spent txid vout ((t, v) ∷ inputs) = bytes_eq t txid && v == vout || is_spent txid vout inputs

unfoldable pub inputs_of : List MempoolTx → List (Bytes × ℕ)
inputs_of [] = []
inputs_of (tx ∷ txs) = tx.inputs ++ inputs_of txs

module _ (sha256 : Bytes → Bytes) (hex : Hex) where
  -- The outputs of one transaction from number `vout` on.
  unfoldable pub add_outputs :
      List (Bytes × ℕ)
      → ℕ
      → ℕ
      → Bytes
      → ℕ
      → List (ℕ × Bytes)
      → UtreexoAccumulatorState
      → Option Applied
  add_outputs spent height maturity txid vout [] state = some (ok state)
  add_outputs spent height maturity txid vout ((value, script) ∷ outs) state =
      let skip = add_outputs spent height maturity txid (suc vout) outs state in
      if is_spent txid vout spent
      then skip
      else elim (add_leaf sha256 state (
          leaf_hash_for_height sha256
            (record {
              txid = txid;
              vout = vout;
              amount = value;
              script_pubkey = script;
              created_height = height;
              is_coinbase = false;
            })
            maturity)) [
              | none ↦ none
              | some (err e, _) ↦ some (err "utreexo-apply")
              | some (ok _, state') ↦ add_outputs spent height maturity txid (suc vout) outs state'
            ]

  unfoldable pub add_all :
      List (Bytes × ℕ) → ℕ → ℕ → List MempoolTx → UtreexoAccumulatorState → Option Applied
  add_all spent height maturity [] state = some (ok state)
  add_all spent height maturity (tx ∷ txs) state =
      elim (add_outputs spent height maturity tx.txid_raw 0 tx.outputs state) [
        | none ↦ none
        | some (err e) ↦ some (err e)
        | some (ok state') ↦ add_all spent height maturity txs state'
      ]

  unfoldable pub add_transaction_outputs :
      List MempoolTx → ℕ → ℕ → UtreexoAccumulatorState → Option Applied
  add_transaction_outputs txs height maturity state =
      add_all (inputs_of txs) height maturity txs state

  unfoldable pub with_dnrs : Option Bytes → List CoinbaseOutput → List CoinbaseOutput
  with_dnrs none outs = outs
  with_dnrs (some root) outs = outs ++ (state_commitment_output root ∷ [])

  unfoldable pub with_dnrw : PoolTemplate → List CoinbaseOutput → Option (List CoinbaseOutput)
  with_dnrw pt outs =
      if requires_witness_commitment pt.height
      then elim (witness_merkle_root (sha256d sha256)
          (map (sha256d sha256) (data_of pt.mempool_txs))) [
            | none ↦ none
            | some root ↦
                some (outs ++ (commitment_output (build_dnrw_script (sha256d sha256) root) ∷ []))
          ]
      else some outs

  unfoldable pub with_dnrf : PoolTemplate → List CoinbaseOutput → List CoinbaseOutput
  with_dnrf pt outs =
      if requires_filter_commitment pt.height
      then outs
        ++ (commitment_output (
              build_dnrf_script (
                sha256d sha256
                  (gcs_build pt.wire.prev_block_hash (
                    not_op_returns outs
                    ++ (spendable (scripts_of pt.mempool_txs)
                        ++ not_empty pt.spent_input_scripts))).0))
            ∷ [])
      else outs

  unfoldable pub prefix_with : PoolTemplate → Option ℕ → Result BuildError Bytes
  prefix_with pt none = ok pt.coinbase_prefix
  prefix_with pt (some n) = elim (inject_scriptsig_extranonce pt.coinbase_prefix n) [
    | err e ↦ err (extranonce e)
    | ok prefix ↦ ok prefix
  ]

  unfoldable pub applied : Option Applied → Built UtreexoAccumulatorState
  applied none = none
  applied (some (err e)) = some (err accumulator)
  applied (some (ok state)) = some (ok state)

  unfoldable pub root_of : UtreexoAccumulatorState → Result BuildError Bytes
  root_of state = elim (commitment sha256 state) [ err e ↦ err accumulator | ok root ↦ ok root ]

  -- The template, from the coinbase with its witness.
  unfoldable pub sealed :
      PoolTemplate → List CoinbaseOutput → Bytes → Bytes → Option Bytes → Built SharedTemplate
  sealed pt outputs txid utreexo_root none = none
  sealed pt outputs txid utreexo_root (some coinbase) = some (
      ok (record {
        orchard = none;
        mempool_tx_data = data_of pt.mempool_txs;
        height = pt.height;
        wire = record pt.wire {
          merkle_root = compute_root (sha256d sha256) txid pt.merkle_path;
          utreexo_root = utreexo_root;
          coinbase_outputs_commitment = sha256d sha256 coinbase;
        };
        coinbase_full_hex = hex.encode coinbase;
        outputs = outputs;
      }))

  -- From the outputs to the template.
  unfoldable pub seal :
      PoolTemplate
      → List CoinbaseOutput
      → Option ℕ
      → ℕ
      → UtreexoAccumulatorState
      → Built SharedTemplate
  seal pt outputs n maturity pre_block = and_build (some (prefix_with pt n)) λ prefix.
      let stripped = assemble_stripped_coinbase prefix outputs pt.coinbase_suffix in
      let txid = sha256d sha256 stripped in
      and_build (applied (apply_outputs sha256 hex txid pt.height maturity 0 outputs pre_block))
        λ with_coinbase.
          and_build
            (applied (add_transaction_outputs pt.mempool_txs pt.height maturity with_coinbase))
            λ state. and_build (some (root_of state)) λ utreexo_root.
              sealed pt outputs txid utreexo_root (
                wrap_stripped_with_segwit_witness stripped pt.coinbase_witness_bytes
                  pt.coinbase_suffix)

  unfoldable pub outputs_for : PoolTemplate → List CoinbaseOutput → Built (List CoinbaseOutput)
  outputs_for pt split_outputs =
      and_build
        (some (elim (expected_dnrs sha256 hex pt) [
          | err e ↦ err (daemon_coinbase e)
          | ok root ↦ ok root
        ]))
        λ root. elim (with_dnrw pt (with_dnrs root split_outputs)) [
          | none ↦ none
          | some outs ↦ some (ok (with_dnrf pt outs))
        ]

  unfoldable pub build_shared_template :
      PoolTemplate → List CoinbaseOutput → Option ℕ → ℕ → Built SharedTemplate
  build_shared_template pt split_outputs n maturity =
      let value_sum = total_value 0 split_outputs in
      if not (value_sum == pt.coinbase_value_una)
      then some (err (sum_mismatch value_sum pt.coinbase_value_una))
      else elim pt.utreexo_pre_block [
        | none ↦ some (err no_state)
        | some pre_block ↦
            if not (all_payouts split_outputs)
            then some (err not_payouts)
            else and_build (outputs_for pt split_outputs)
                λ outputs. seal pt outputs n maturity pre_block
      ]
