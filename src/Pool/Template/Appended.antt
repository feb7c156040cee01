-- ===== src/Pool/Template/Appended.antt =====
-- What the commitments that the pool appends to the outputs of a split do to their checks.
use dinero_sv.Base.{
  ℕ, ◌^◌, ◌≡◌, ◌<◌, refl, ap, ◌∙◌, arith, List, [], ◌∷◌, ◌++◌, map, Option, none, some, append-nil,
  length, ◌==◌, Bool-cases, Option-cases, inl, inr, Bool, true, false, not, both_true,
}
use dinero_sv.Words.{add64}
use dinero_sv.Bytestring.{Bytes, bytes_eq, bytes_eq_refl}
use dinero_sv.Coinbase.{CoinbaseOutput, state_commitment_output}
use dinero_sv.Dnrf.{
  requires_filter_commitment, is_dnrf_script, build_dnrf_script, is_dnrf_script_iff,
}
use dinero_sv.Dnrw.{requires_witness_commitment, witness_merkle_root, build_dnrw_script}
use dinero_sv.Pool.Block.{Hex}
use dinero_sv.Pool.Commitment.{is_candidate, candidates, is_only, valid_state_commitment_outputs}
use dinero_sv.Pool.Rebuild.{any_output}
use dinero_sv.Pool.Shared.{total_value}
use dinero_sv.Pool.Work.{PoolTemplate, sha256d, data_of}
use dinero_sv.Pool.Template.{
  is_op_return, all_payouts, commitment_output, with_dnrs, with_dnrw, with_dnrf,
}

any_output-last :
    (p : Bytes → Bool) (xs : List CoinbaseOutput) (o : CoinbaseOutput)
    → p o.script_pubkey ≡ true
    → any_output p (xs ++ (o ∷ [])) ≡ true
unfolding any_output
any_output-last p [] o h = rw h refl
any_output-last p (x ∷ xs) o h = ground (arith, any_output-last p xs o h)

any_output-append :
    (p : Bytes → Bool) (xs ys : List CoinbaseOutput)
    → any_output p xs ≡ true
    → any_output p (xs ++ ys) ≡ true
unfolding any_output
any_output-append p [] ys h = absurd (cc h)
any_output-append p (x ∷ xs) ys h = ground (arith, any_output-append p xs ys)

-- An output without value does not change the sum.
total_value-append :
    (acc : ℕ) (xs : List CoinbaseOutput) (script : Bytes)
    → acc < 2 ^ 64
    → total_value acc (xs ++ (commitment_output script ∷ [])) ≡ total_value acc xs
unfolding total_value commitment_output
total_value-append acc [] script h = omega arith
total_value-append acc (x ∷ xs) script h =
    total_value-append (add64 acc x.value_una) xs script (omega arith)

candidates-append :
    (xs ys : List CoinbaseOutput) → candidates (xs ++ ys) ≡ candidates xs ++ candidates ys
unfolding candidates
candidates-append [] ys = refl
candidates-append (x ∷ xs) ys = ground (arith, candidates-append xs ys)

-- A payout is no candidate.
not_candidate :
    (v : ℕ) (s : Bytes)
    → is_op_return s ≡ false
    → is_candidate (record { value_una = v; script_pubkey = s }) ≡ false
unfolding is_candidate is_op_return
not_candidate v [] h = refl
not_candidate v (b ∷ s) h = rw h (ground arith)

payouts-candidates : (outs : List CoinbaseOutput) → all_payouts outs ≡ true → candidates outs ≡ []
unfolding candidates all_payouts
payouts-candidates [] h = refl
payouts-candidates (o ∷ outs) h =
    let (a, b) = both_true (not (is_op_return o.script_pubkey)) _ h in
    rw
      (not_candidate o.value_una o.script_pubkey (elim (Bool-cases (is_op_return o.script_pubkey)) [
        | inl y ↦ absurd (cc (rw y at a))
        | inr n ↦ n
      ]))
      (payouts-candidates outs b)

-- Neither are the other two commitments.
other_candidate :
    (b : ℕ) (hash : Bytes)
    → (b == b'S') ≡ false
    → candidates (commitment_output (0x6A ∷ 37 ∷ 0x44 ∷ 0x4E ∷ 0x52 ∷ b ∷ 1 ∷ hash) ∷ []) ≡ []
unfolding candidates is_candidate commitment_output bytes_eq
other_candidate b hash h = ground arith

candidates-dnrs :
    (root : Bytes)
    → candidates (state_commitment_output root ∷ []) ≡ state_commitment_output root ∷ []
unfolding candidates is_candidate state_commitment_output bytes_eq
candidates-dnrs root = ground arith

-- The candidates that the daemon's commitment is.
abbrev pub dnrs_of : Option Bytes → List CoinbaseOutput
dnrs_of none = []
dnrs_of (some root) = state_commitment_output root ∷ []

pub valid_lem :
    (root : Option Bytes) (outs : List CoinbaseOutput)
    → candidates outs ≡ dnrs_of root
    → valid_state_commitment_outputs root outs ≡ true
unfolding valid_state_commitment_outputs is_only state_commitment_output
valid_lem none outs h = rw (h, valid_state_commitment_outputs) refl
valid_lem (some root) outs h =
    rw h (rw (bytes_eq_refl (state_commitment_output root).script_pubkey) refl)

-- An appended commitment that is no candidate.
same_candidates :
    (outs : List CoinbaseOutput) (b : ℕ) (hash : Bytes)
    → (b == b'S') ≡ false
    → candidates (outs ++ (commitment_output (0x6A ∷ 37 ∷ 0x44 ∷ 0x4E ∷ 0x52 ∷ b ∷ 1 ∷ hash) ∷ []))
      ≡ candidates outs
same_candidates outs b hash h =
    candidates-append outs _
    ∙ ap (λ l. candidates outs ++ l) (other_candidate b hash h)
    ∙ append-nil (candidates outs)

module _ (sha256 : Bytes → Bytes) (hex : Hex) where
  -- What the three steps that append a commitment do to the sum and to the candidates.
  pub dnrs_lem :
      (root : Option Bytes) (outs : List CoinbaseOutput)
      → all_payouts outs ≡ true
      → (total_value 0 (with_dnrs sha256 hex root outs) ≡ total_value 0 outs)
        × (candidates (with_dnrs sha256 hex root outs) ≡ dnrs_of root)
  unfolding with_dnrs state_commitment_output commitment_output
  dnrs_lem none outs h = (refl, payouts-candidates outs h)
  dnrs_lem (some root) outs h = (
    total_value-append 0 outs (state_commitment_output root).script_pubkey (omega arith),
    candidates-append outs (state_commitment_output root ∷ [])
        ∙ ap (λ l. l ++ candidates (state_commitment_output root ∷ [])) (payouts-candidates outs h)
        ∙ candidates-dnrs root,
  )

  pub dnrw_lem :
      (pt : PoolTemplate) (outs outs' : List CoinbaseOutput)
      → with_dnrw sha256 hex pt outs ≡ some outs'
      → (total_value 0 outs' ≡ total_value 0 outs)
        × (candidates outs' ≡ candidates outs)
        × (requires_witness_commitment pt.height ≡ true
            → (root : Bytes) × (witness_merkle_root
                  (sha256d sha256)
                  (map (sha256d sha256) (data_of pt.mempool_txs))
                ≡ some root)
              × (any_output
                    (λ script. bytes_eq script (build_dnrw_script (sha256d sha256) root))
                    outs'
                  ≡ true))
  unfolding with_dnrw build_dnrw_script commitment_output
  dnrw_lem pt outs outs' h = elim (Bool-cases (requires_witness_commitment pt.height)) [
    | inr n ↦
        let e : outs ≡ outs' = cc (rw n at h) in rw (← e) (refl, refl, λ y. absurd (cc (n, y)))
    | inl y ↦
        elim (Option-cases
          (witness_merkle_root (sha256d sha256) (map (sha256d sha256) (data_of pt.mempool_txs)))) [
            | inl m ↦ absurd (cc (rw (y, m) at h))
            | inr (root, m) ↦
                let script = build_dnrw_script (sha256d sha256) root in
                let e : outs ++ (commitment_output script ∷ []) ≡ outs' = cc (rw (y, m) at h) in
                rw (← e) (
                  total_value-append 0 outs script (omega arith),
                  same_candidates outs 0x57 _ refl,
                  λ q. (
                    root,
                    m,
                    any_output-last _ outs (commitment_output script) (bytes_eq_refl script),
                  ),
                )
          ]
  ]

  pub dnrf_lem :
      (pt : PoolTemplate) (outs : List CoinbaseOutput)
      → ((b : Bytes) → length (sha256 b) ≡ 32)
      → (total_value 0 (with_dnrf sha256 hex pt outs) ≡ total_value 0 outs)
        × (candidates (with_dnrf sha256 hex pt outs) ≡ candidates outs)
        × ((p : Bytes → Bool)
            → any_output p outs ≡ true
            → any_output p (with_dnrf sha256 hex pt outs) ≡ true)
        × (requires_filter_commitment pt.height ≡ true
            → any_output is_dnrf_script (with_dnrf sha256 hex pt outs) ≡ true)
  unfolding with_dnrf build_dnrf_script commitment_output sha256d
  dnrf_lem pt outs hash = elim (Bool-cases (requires_filter_commitment pt.height)) [
    | inr n ↦ rw n (refl, refl, λ p h. h, λ y. absurd (cc y))
    | inl y ↦ rw y (
      total_value-append 0 outs _ (omega arith),
      same_candidates outs 0x46 _ refl,
      λ p h. any_output-append p outs _ h,
      λ q.
          any_output-last is_dnrf_script outs _
            ((is_dnrf_script_iff _).1 (sha256 (sha256 _), hash _, refl)),
    )
  ]
