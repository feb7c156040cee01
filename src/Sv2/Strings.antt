-- ===== src/Sv2/Strings.antt =====
-- `write_str0_255` writes the length and the bytes, and refuses more than 255 of them.
use dinero_sv.Base.{
  ℕ, ◌≡◌, ◌<◌, arith, List, ◌∷◌, ok, length, ltb, ge→ltb, Bool-cases, ok_inj, inl, inr, sym,
}
use dinero_sv.Sv2.{write_str0_255}

pub str_written : (s t : List ℕ) → write_str0_255 s ≡ ok t → t ≡ length s ∷ s
unfolding write_str0_255
str_written s t h = elim (Bool-cases (ltb 255 (length s))) [
  | inl e ↦ cc (rw e at h)
  | inr e ↦ sym (ok_inj (rw e at h))
]

pub str_fits : (s : List ℕ) → length s < 256 → write_str0_255 s ≡ ok (length s ∷ s)
unfolding write_str0_255
str_fits s h = rw (ge→ltb 255 (length s) (omega arith))
