-- ===== src/Wire/Limits.antt =====
-- Caps on lengths, length-prefixed byte strings and merkle paths, as the codecs check, write and read them.
use dinero_sv.Base.{
  ℕ, ◌≡◌, ◌≤◌, refl, sym, ap, ◌∙◌, arith, String, List, ◌++◌, Result, ok, err, length, concat, All,
  ltb, if◌then◌else◌, ge→ltb, ltb→ge, Bool-cases, inl, inr,
}
use dinero_sv.Wire.{Parser, lift, ◌>>=◌, read_u16, read_u32, read_array32, read_many, take_bytes}
use dinero_sv.Wire.Bytes.{IsU16, IsU32, IsArray32, AreBytes, to_le}
use dinero_sv.Wire.Accepts.{
  Reads, Reads-u16, Reads-u32, Reads-array32, Reads-take, Reads-many, Reads-bind, Reads-lift,
  Reads-eq,
}
use dinero_sv.Wire.Ends.{
  Consumes, Consumes-IsU16, Consumes-IsU32, Consumes-IsArray32, Consumes-take, Consumes-many,
  Consumes-steps, Steps-bind, Steps-lift, Steps-of,
}
use dinero_sv.Wire.{CursorError, lift}
use mathlib.Core.List.{map-id}

-- The bytes of `(b.len() as u32).to_le_bytes()` and `b`. The cast keeps the four low bytes, and
-- those are what `to_le 4` writes.
abbrev pub write_blob : List ℕ → List ℕ
write_blob b = to_le 4 (length b) ++ b

-- `(path.len() as u16).to_le_bytes()` and the entries.
abbrev pub write_path : List (List ℕ) → List ℕ
write_path path = to_le 2 (length path) ++ concat path

module _ {E : Type 0} ⦃w : CursorError E⦄ where
  -- `if got > cap { return Err(TooLarge { field, got, cap }) }`
  unfoldable pub check_cap : String → ℕ → ℕ → Result E (Unit {0})
  check_cap field got cap = if ltb cap got then err (w.too_large field got cap) else ok tt

  pub check_cap-le :
      (field : String) (got cap : ℕ) {u : Unit {0}} → check_cap field got cap ≡ ok u → got ≤ cap
  unfolding check_cap
  check_cap-le field got cap h = elim (Bool-cases (ltb cap got)) [
    | inl e ↦ cc (rw e at h)
    | inr e ↦ ltb→ge cap got e
  ]

  pub check_cap_fits : (field : String) (got cap : ℕ) → got ≤ cap → check_cap field got cap ≡ ok tt
  unfolding check_cap
  check_cap_fits field got cap h = rw (ge→ltb cap got h)

  unfoldable pub read_blob : String → ℕ → Parser E (List ℕ)
  read_blob field cap = read_u32 >>= λ n. lift (check_cap field n cap) >>= λ _. take_bytes n

  unfoldable pub read_path : String → ℕ → Parser E (List (List ℕ))
  read_path field cap =
      read_u16 >>= λ n. lift (check_cap field n cap) >>= λ _. read_many read_array32 n

  pub Reads-blob :
      (field : String) (cap : ℕ) (b : List ℕ)
      → IsU32 cap
      → length b ≤ cap
      → Reads {E = E} (read_blob field cap) (write_blob b) b
  unfolding read_blob
  Reads-blob field cap b hc h =
      Reads-bind _ (Reads-u32 (length b) (omega arith))
        (Reads-lift _ (check_cap_fits field (length b) cap h) (Reads-take (length b) b refl))

  pub Consumes-blob :
      (field : String) (cap : ℕ)
      → Consumes {E = E} (read_blob field cap) write_blob (λ b. (length b ≤ cap) × AreBytes b)
  unfolding read_blob
  Consumes-blob field cap = Consumes-steps (
      Steps-bind _ _ Consumes-IsU32 λ n hn. Steps-lift _ (check_cap field n cap) λ _ fits.
        Steps-of _ (Consumes-take n) λ b hb.
          ((rw hb.0 (check_cap-le field n cap fits), hb.1), ap (λ k. to_le 4 k ++ b) (sym hb.0)))

  pub Reads-path :
      (field : String) (cap : ℕ) (path : List (List ℕ))
      → IsU16 cap
      → All IsArray32 path
      → length path ≤ cap
      → Reads {E = E} (read_path field cap) (write_path path) path
  unfolding read_path
  Reads-path field cap path hc hp h = Reads-bind _ (Reads-u16 (length path) (omega arith)) (
      Reads-lift _ (check_cap_fits field (length path) cap h)
        (Reads-eq (ap concat (map-id path)) (Reads-many (λ x. x) IsArray32 path Reads-array32 hp)))

  pub Consumes-path :
      (field : String) (cap : ℕ)
      → Consumes {E = E} (read_path field cap) write_path (λ p. length p ≤ cap)
  unfolding read_path
  Consumes-path field cap = Consumes-steps (
      Steps-bind _ _ Consumes-IsU16 λ n hn. Steps-lift _ (check_cap field n cap) λ _ fits.
        Steps-of _ (Consumes-many (λ x. x) _ Consumes-IsArray32 n) λ p hp. (
          rw hp.1 (check_cap-le field n cap fits),
          ap (λ t. to_le 2 n ++ concat t) (map-id p) ∙ ap (λ k. to_le 2 k ++ concat p) (sym hp.1),
        ))
