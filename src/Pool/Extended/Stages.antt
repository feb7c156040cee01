-- ===== src/Pool/Extended/Stages.antt =====
-- The last stages of the handler: each refuses, or all that it checks holds.
use dinero_sv.Base.{
  ℕ, ◌≡◌, ◌⊎◌, refl, sym, ap, subst, ◌∙◌, Option, some, ok, err, Bool-cases, Option-cases,
  Result-cases, inl, inr, true, false,
}
use dinero_sv.Bytestring.{Bytes}
use dinero_sv.Coinbase.{wrap_stripped_with_segwit_witness}
use dinero_sv.Messages.{NewTemplateDinero, SubmitSharesExtendedDinero}
use dinero_sv.Utreexo.{UtreexoAccumulatorState}
use dinero_sv.Pool.Block.{Hex}
use dinero_sv.Pool.Commitment.{valid_state_commitment_outputs}
use dinero_sv.Pool.Dedup.{insert}
use dinero_sv.Pool.Hashes.{contains}
use dinero_sv.Pool.Target.{hash_meets_target}
use dinero_sv.Pool.Work.{PoolTemplate, header_hash}
use dinero_sv.Pool.Session.{codes, Outside, State, ServeError, panicked, Served}
use dinero_sv.Pool.Session.Refusal.{
  IsRefusal, refuse-IsRefusal, send_share_error-IsRefusal, IsUntouched-number,
}
use dinero_sv.Pool.Accept.{Channel}
use dinero_sv.Pool.Accept.Fresh.{
  IsQuiet, IsAccepted, deduplicated-cases, accept_share-IsAccepted, submit_block-IsQuiet,
}
use dinero_sv.Pool.Rebuild.{miner_outputs, plain_share, expected_dnrs, rebuild}
use dinero_sv.Pool.Extended.{
  extended_block, extended_fresh, extended_hashed, extended_checked, extended_committed,
}

-- A call that ends where the pool cannot go on.
pub fails : (s : State) (e : ServeError) → IsRefusal s (err e, s)
fails s e = record {
  untouched = IsUntouched-number s s.last_sequence_number;
  answers = inr (e, refl, refl);
}

module _ (sha256 : Bytes → Bytes) (hex : Hex) where
  extended_block-IsQuiet :
      (out : Outside) (ch : Channel) (ext : SubmitSharesExtendedDinero) (pt : PoolTemplate)
      (template : NewTemplateDinero) (stripped hash : Bytes) (s : State)
      → IsQuiet s (extended_block sha256 hex out ch ext pt template stripped hash s).1
  unfolding extended_block
  extended_block-IsQuiet out ch ext pt template stripped hash s =
      elim (Option-cases
        (wrap_stripped_with_segwit_witness stripped pt.coinbase_witness_bytes pt.coinbase_suffix)) [
          | inl n ↦
              rw (n, extended_block)
                (record {
                  keeps = record { window = refl; journal = refl; dedup = refl };
                  counted = refl;
                  sent = refl;
                })
          | inr (coinbase, c) ↦ rw (c, extended_block) (submit_block-IsQuiet hex out ch hash _ _ s)
        ]

  extended_fresh-IsAccepted :
      (out : Outside) (ch : Channel) (ext : SubmitSharesExtendedDinero) (pt : PoolTemplate)
      (template : NewTemplateDinero) (stripped hash : Bytes) (s : State)
      → IsAccepted hex hash s (
          extended_fresh sha256 hex out ch ext pt template stripped hash
            (record s { dedup = (insert s.dedup hash).0 }))
  unfolding extended_fresh
  extended_fresh-IsAccepted out ch ext pt template stripped hash s =
      accept_share-IsAccepted hex out ch "extended" ext.sequence_number hash s _ λ u.
        elim (Bool-cases (hash_meets_target hash pt.block_target)) [
          | inl y ↦ rw y (extended_block-IsQuiet out ch ext pt template stripped hash u)
          | inr n ↦ rw n (record {
            keeps = record { window = refl; journal = refl; dedup = refl };
            counted = refl;
            sent = refl;
          })
        ]

  hashed_cases :
      (out : Outside) (ch : Channel) (ext : SubmitSharesExtendedDinero) (pt : PoolTemplate)
      (template : NewTemplateDinero) (stripped hash : Bytes) (s : State)
      → IsRefusal s (extended_hashed sha256 hex out ch ext pt template stripped hash s)
        ⊎ ((hash_meets_target hash ch.share_target ≡ true)
            × (contains s.dedup.seen hash ≡ false)
            × IsAccepted hex hash s
                (extended_hashed sha256 hex out ch ext pt template stripped hash s))
  unfolding extended_hashed
  hashed_cases out ch ext pt template stripped hash s =
      elim (Bool-cases (hash_meets_target hash ch.share_target)) [
        | inr n ↦ inl (
            rw n (
              send_share_error-IsRefusal out ch.channel_id ext.sequence_number
                (codes "under-target") s))
        | inl y ↦
            rw y
              (elim (deduplicated-cases out ch ext.sequence_number hash
                (extended_fresh sha256 hex out ch ext pt template stripped hash) s) [
                  | inl r ↦ inl r
                  | inr (f, e) ↦ inr (
                    refl,
                    f,
                    subst (IsAccepted hex hash s) (sym e)
                        (extended_fresh-IsAccepted out ch ext pt template stripped hash s),
                  )
                ])
      ]

  -- The stages of the handler, from the last to the first: each refuses, or all that it checks holds.
  checked_cases :
      (activation : ℕ) (out : Outside) (ch : Channel) (ext : SubmitSharesExtendedDinero)
      (pt : PoolTemplate) (pre_block : UtreexoAccumulatorState) (s : State)
      → let x = extended_checked sha256 hex activation out ch ext pt pre_block s in
        IsRefusal s x
        ⊎ ((template : NewTemplateDinero) × (stripped : Bytes) × (rebuild sha256 hex activation ext
                pt pre_block
              ≡ some (ok (template, stripped)))
            × (hash_meets_target (header_hash sha256 template (plain_share ext)) ch.share_target
                ≡ true)
            × (contains s.dedup.seen (header_hash sha256 template (plain_share ext)) ≡ false)
            × IsAccepted hex (header_hash sha256 template (plain_share ext)) s x)
  unfolding extended_checked
  checked_cases activation out ch ext pt pre_block s =
      elim (Option-cases (rebuild sha256 hex activation ext pt pre_block)) [
        | inl n ↦ inl (rw (n, extended_checked) (fails s panicked))
        | inr (r, e) ↦ elim (Result-cases r) [
          | inr (code, c) ↦
              let f = e ∙ ap some c in
              inl (
                rw (f, extended_checked)
                  (refuse-IsRefusal out ch.miner_key ch.channel_id ext.sequence_number (codes code)
                    s))
          | inl ((template, stripped), c) ↦
              let f = e ∙ ap some c in
              rw (f, extended_checked)
                (elim (hashed_cases out ch ext pt template stripped
                  (header_hash sha256 template (plain_share ext)) s) [
                    | inl q ↦ inl q
                    | inr (m, g, a) ↦ inr (template, stripped, refl, m, g, a)
                  ])
        ]
      ]

  -- What a share has to pass after its outputs are complete.
  abbrev pub IsPassed :
      ℕ
      → Channel
      → SubmitSharesExtendedDinero
      → PoolTemplate
      → UtreexoAccumulatorState
      → State
      → Served
      → Type 0
  IsPassed activation ch ext pt pre_block s x =
      (root : Option Bytes) × (template : NewTemplateDinero) × (stripped : Bytes) × (expected_dnrs
          sha256 hex pt
        ≡ ok root)
      × (valid_state_commitment_outputs root (miner_outputs ext.coinbase_outputs) ≡ true)
      × (rebuild sha256 hex activation ext pt pre_block ≡ some (ok (template, stripped)))
      × (hash_meets_target (header_hash sha256 template (plain_share ext)) ch.share_target ≡ true)
      × (contains s.dedup.seen (header_hash sha256 template (plain_share ext)) ≡ false)
      × IsAccepted hex (header_hash sha256 template (plain_share ext)) s x

  pub committed_cases :
      (activation : ℕ) (out : Outside) (ch : Channel) (ext : SubmitSharesExtendedDinero)
      (pt : PoolTemplate) (pre_block : UtreexoAccumulatorState) (s : State)
      → let x = extended_committed sha256 hex activation out ch ext pt pre_block s in
        IsRefusal s x ⊎ IsPassed activation ch ext pt pre_block s x
  unfolding extended_committed
  committed_cases activation out ch ext pt pre_block s =
      elim (Result-cases (expected_dnrs sha256 hex pt)) [
        | inr (e, h) ↦ inl (rw (h, extended_committed) (fails s e))
        | inl (root, h) ↦
            elim (Bool-cases
              (valid_state_commitment_outputs root (miner_outputs ext.coinbase_outputs))) [
                | inr n ↦ inl (
                    rw (h, extended_committed)
                      (rw n (
                        refuse-IsRefusal out ch.miner_key ch.channel_id ext.sequence_number
                          (codes "bad-dnrs-upgrade-miner") s)))
                | inl v ↦
                    rw (h, extended_committed)
                      (rw v (elim (checked_cases activation out ch ext pt pre_block s) [
                        | inl q ↦ inl q
                        | inr (template, stripped, r, m, g, a) ↦
                            inr (root, template, stripped, refl, v, r, m, g, a)
                      ]))
              ]
      ]
