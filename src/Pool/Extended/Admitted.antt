-- ===== src/Pool/Extended/Admitted.antt =====
-- What a share with a coinbase of the miner's own has to pass.
use dinero_sv.Base.{
  ℕ, ◌≡◌, refl, String, List, Option, none, some, ok, ◌==◌, ==→eq, Bool-cases, inl, inr, Bool, true,
  false, ◌&&◌, not,
}
use dinero_sv.Bytestring.{Bytes}
use dinero_sv.Coinbase.{CoinbaseOutput}
use dinero_sv.Dnrf.{requires_filter_commitment, is_dnrf_script}
use dinero_sv.Dnrw.{requires_witness_commitment}
use dinero_sv.Messages.{NewTemplateDinero, SubmitSharesExtendedDinero}
use dinero_sv.Sv2.Shares.{decode_submit_shares_extended}
use dinero_sv.Utreexo.{UtreexoAccumulatorState}
use dinero_sv.Pool.Block.{Hex}
use dinero_sv.Pool.Commitment.{valid_state_commitment_outputs}
use dinero_sv.Pool.Hashes.{contains}
use dinero_sv.Pool.Target.{hash_meets_target}
use dinero_sv.Pool.Work.{PoolTemplate, header_hash}
use dinero_sv.Pool.Session.{State}
use dinero_sv.Pool.Accept.{Channel}
use dinero_sv.Pool.Shared.{total_value}
use dinero_sv.Pool.Rebuild.{
  miner_outputs, any_output, usable_state, plain_share, has_witness_commitment, check_outputs,
  expected_dnrs, rebuild,
}

-- The outputs of the coinbase pay out its value and carry the commitments that the height asks for.
pub record AreComplete (sha256 : Bytes → Bytes) (hex : Hex) (pt : PoolTemplate)
    (outs : List CoinbaseOutput) : Type 0 where
  pub value : total_value 0 outs ≡ pt.coinbase_value_una
  pub filter : requires_filter_commitment pt.height ≡ true → any_output is_dnrf_script outs ≡ true
  pub witness :
      requires_witness_commitment pt.height ≡ true
      → has_witness_commitment sha256 hex pt outs ≡ some true

-- The payload is a share of the channel's job, over a template without transactions whose forest is
-- known; its outputs are complete and carry the daemon's state commitment; and the header that they
-- lead to is under the target and new to the filter.
pub record IsAdmitted (sha256 : Bytes → Bytes) (hex : Hex) (activation : ℕ) (ch : Channel)
    (payload : Bytes) (pt : PoolTemplate) (s : State) (ext : SubmitSharesExtendedDinero)
    (template : NewTemplateDinero) (stripped : Bytes) : Type 0 where
  pub pre_block : UtreexoAccumulatorState
  pub root : Option Bytes
  pub decoded : decode_submit_shares_extended payload ≡ ok ext
  pub current : ext.job_id ≡ pt.wire.template_id
  pub usable : usable_state pt ≡ some pre_block
  pub complete : AreComplete sha256 hex pt (miner_outputs ext.coinbase_outputs)
  pub expected : expected_dnrs sha256 hex pt ≡ ok root
  pub committed : valid_state_commitment_outputs root (miner_outputs ext.coinbase_outputs) ≡ true
  pub rebuilt : rebuild sha256 hex activation ext pt pre_block ≡ some (ok (template, stripped))
  pub meets :
      hash_meets_target (header_hash sha256 template (plain_share ext)) ch.share_target ≡ true
  pub fresh : contains s.dedup.seen (header_hash sha256 template (plain_share ext)) ≡ false

module _ (sha256 : Bytes → Bytes) (hex : Hex) where
  pub complete :
      (pt : PoolTemplate) (outs : List CoinbaseOutput)
      → check_outputs sha256 hex pt outs ≡ some none
      → AreComplete sha256 hex pt outs
  unfolding check_outputs
  complete pt outs h = elim (Bool-cases (total_value 0 outs == pt.coinbase_value_una)) [
    | inr n ↦ absurd (cc (rw n at h))
    | inl v ↦
        let h1 = rw v at h in
        elim (Bool-cases
          (requires_filter_commitment pt.height && not (any_output is_dnrf_script outs))) [
            | inl m ↦ absurd (cc (rw m at h1))
            | inr f ↦
                let h2 = rw f at h1 in
                record {
                  value = ==→eq _ _ v;
                  filter = λ r. there (requires_filter_commitment pt.height) _ f r;
                  witness = λ r. witnessed (has_witness_commitment sha256 hex pt outs) (rw r at h2);
                }
          ]
  ]
    where
      there : (a b : Bool) → (a && not b) ≡ false → a ≡ true → b ≡ true
      there true true f r = refl
      there true false f r = cc
      there false b f r = cc

      witnessed :
          (o : Option Bool)
          → ◌≡◌ {A = Option (Option String)}
              (elim o [
                | none ↦ none
                | some true ↦ some none
                | some false ↦ some (some "missing-dnrw")
              ])
              (some none)
          → o ≡ some true
      witnessed none h = cc
      witnessed (some true) h = refl
      witnessed (some false) h = cc
