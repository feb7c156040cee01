-- ===== src/Wire/Ends.antt =====
-- From what is read to what was written: the bytes that a successful decoder has consumed are the
-- encoding of what it returned. `Q b s` says of a result `b` that it was read from `s`.
use dinero_sv.Base.{
  ℕ, zero, suc, ◌+◌, ◌^◌, ◌<◌, ◌≤◌, ◌≡◌, refl, sym, ap, subst, ◌∙◌, arith, List, [], ◌∷◌, ◌++◌,
  append-nil, append_assoc, Result, ok, err, length, take, drop, get_or, All, All-left, All-right,
  concat, map, length-take, take-append-drop, drop-drop, ltb, ltb→ge, Bool-cases, inl, inr,
}
use dinero_sv.Wire.{
  Cursor, CursorError, Parser, continue, value, new, remaining, pure, lift, ◌>>=◌, ◌>>◌, take_bytes,
  read_u8, read_u16, read_u32, read_u64, read_array32, read_str0_255, finish, read_many, parse,
}
use dinero_sv.Wire.Accepts.{unread, length-unread}
use dinero_sv.Wire.Bytes.{
  AreBytes, IsByte, IsU8, IsU16, IsU32, IsU64, IsArray32, to_le, from_le, to_le-from_le, from_le-lt,
}

-- Whatever `m` reads, it consumes the encoding of it, and `P` holds of it.
pub record Consumes {E A : Type 0} (m : Parser E A) (enc : A → List ℕ) (P : A → Type 0)
    : Type 0 where
  pub at :
      (c : Cursor) (a : A) (d : Cursor)
      → AreBytes (unread c)
      → m c ≡ ok (a, d)
      → P a × (unread c ≡ enc a ++ unread d)

-- Whatever `m` reads, it consumes some bytes that are related to it by `Q`.
pub record Steps {E A : Type 0} (m : Parser E A) (Q : A → List ℕ → Type 0) : Type 0 where
  pub at :
      (c : Cursor) (a : A) (d : Cursor)
      → AreBytes (unread c)
      → m c ≡ ok (a, d)
      → (s : List ℕ) × Q a s × (unread c ≡ s ++ unread d)

-- Whatever `m` reads, it consumes all that is left, and that is related to it by `Q`.
pub record Ends {E A : Type 0} (m : Parser E A) (Q : A → List ℕ → Type 0) : Type 0 where
  pub at :
      (c : Cursor) (a : A) (d : Cursor) → AreBytes (unread c) → m c ≡ ok (a, d) → Q a (unread c)

continue_inv :
    {E A B : Type 0} (r : Result E (A × Cursor)) (f : A → Parser E B) {b : B} {d : Cursor}
    → continue r f ≡ ok (b, d)
    → (a : A) × (c : Cursor) × (r ≡ ok (a, c)) × (f a c ≡ ok (b, d))
continue_inv (ok (a, c)) f h = (a, c, refl, h)
continue_inv (err e) f h = cc

bind_inv :
    {E A B : Type 0} (m : Parser E A) (f : A → Parser E B) (c : Cursor) {b : B} {d : Cursor}
    → (m >>= f) c ≡ ok (b, d)
    → (a : A) × (c' : Cursor) × (m c ≡ ok (a, c')) × (f a c' ≡ ok (b, d))
unfolding ◌>>=◌
bind_inv m f c h = continue_inv (m c) f h

module _ {E A B : Type 0} {enc : A → List ℕ} {P : A → Type 0} where
  pub Ends-bind :
      (m : Parser E A) (f : A → Parser E B) {Q : B → List ℕ → Type 0}
      → Consumes m enc P
      → ((a : A) → P a → Ends (f a) (λ b t. Q b (enc a ++ t)))
      → Ends (m >>= f) Q
  Ends-bind m f {Q} r k = record {
    at = λ c b d hc h.
        let (a, c', e, e') = bind_inv m f c h in
        let (p, l) = r.at c a c' hc e in
        subst (λ s. Q b s) (sym l)
          ((k a p).at c' b d (All-right IsByte (enc a) (unread c') (subst AreBytes l hc)) e');
  }

  pub Steps-bind :
      (m : Parser E A) (f : A → Parser E B) {Q : B → List ℕ → Type 0}
      → Consumes m enc P
      → ((a : A) → P a → Steps (f a) (λ b t. Q b (enc a ++ t)))
      → Steps (m >>= f) Q
  Steps-bind m f {Q} r k = record {
    at = λ c b d hc h.
        let (a, c', e, e') = bind_inv m f c h in
        let (p, l) = r.at c a c' hc e in
        let (t, q, l') =
          (k a p).at c' b d (All-right IsByte (enc a) (unread c') (subst AreBytes l hc)) e' in
        (enc a ++ t, q, l ∙ ap (λ u. enc a ++ u) l' ∙ sym (append_assoc (enc a) t (unread d)));
  }

module _ {E A : Type 0} where
  pub Steps-pure : (a : A) {Q : A → List ℕ → Type 0} → Q a [] → Steps (pure {E = E} a) Q
  unfolding pure
  Steps-pure a {Q} q = record {
    at = λ c b d hc h. ([], subst (λ x. Q x []) (same h).0 q, ap unread (same h).1);
  }
    where
      same :
          {b : A} {c d : Cursor}
          → ◌≡◌ {A = Result E (A × Cursor)} (ok (a, c)) (ok (b, d))
          → (a ≡ b) × (c ≡ d)
      same h = (cc, cc)

  pub Consumes-steps :
      {m : Parser E A} {enc : A → List ℕ} {P : A → Type 0}
      → Steps m (λ a s. P a × (s ≡ enc a))
      → Consumes m enc P
  Consumes-steps r = record {
    at = λ c a d hc h. let (s, q, l) = r.at c a d hc h in (q.0, l ∙ ap (λ u. u ++ unread d) q.1);
  }

  pub Steps-of :
      (m : Parser E A) {enc : A → List ℕ} {P : A → Type 0} {Q : A → List ℕ → Type 0}
      → Consumes m enc P
      → ((a : A) → P a → Q a (enc a))
      → Steps m Q
  Steps-of m {enc} r k = record {
    at = λ c a d hc h. let (p, l) = r.at c a d hc h in (enc a, k a p, l);
  }

module _ {E A B : Type 0} (k : A → Parser E B) {Q : B → List ℕ → Type 0} where
  pub Ends-lift : (r : Result E A) → ((a : A) → r ≡ ok a → Ends (k a) Q) → Ends (lift r >>= k) Q
  unfolding lift ◌>>=◌
  Ends-lift (ok a) q = record { at = (q a refl).at }
  Ends-lift (err e) q = record { at = λ c a d hc h. cc }

  pub Steps-lift : (r : Result E A) → ((a : A) → r ≡ ok a → Steps (k a) Q) → Steps (lift r >>= k) Q
  unfolding lift ◌>>=◌
  Steps-lift (ok a) q = record { at = (q a refl).at }
  Steps-lift (err e) q = record { at = λ c a d hc h. cc }

one_byte : (s : List ℕ) → length s ≡ 1 → AreBytes s → IsU8 (get_or s 0 0) × (s ≡ get_or s 0 0 ∷ [])
one_byte [] h b = absurd (omega arith)
one_byte (x ∷ []) h b = (b.0, refl)
one_byte (x ∷ y ∷ s) h b = absurd (omega arith)

eq_nil : (s : List ℕ) → length s ≡ 0 → s ≡ []
eq_nil [] h = refl
eq_nil (x ∷ s) h = absurd (omega arith)

value_inv :
    {E A : Type 0} (r : Result E (A × Cursor)) {a : A}
    → value r ≡ ok a
    → (d : Cursor) × (r ≡ ok (a, d))
value_inv (ok (a, d)) h = (d, cc h)
value_inv (err e) h = cc

module _ {E : Type 0} ⦃w : CursorError E⦄ where
  take_inv :
      (n : ℕ) (c : Cursor) (a : List ℕ) (d : Cursor)
      → take_bytes {E = E} n c ≡ ok (a, d)
      → (n ≤ remaining c) × (a ≡ take n (drop c.pos c.buf)) × (d ≡ record c { pos = c.pos + n })
  unfolding take_bytes
  take_inv n c a d h = elim (Bool-cases (ltb (remaining c) n)) [
    | inl e ↦ cc (rw e at h)
    | inr e ↦ (ltb→ge _ _ e, cc (rw e at h), cc (rw e at h))
  ]

  pub Consumes-take :
      (n : ℕ) → Consumes {E = E} (take_bytes n) (λ s. s) (λ s. (length s ≡ n) × AreBytes s)
  Consumes-take n = record {
    at = λ c a d hc h.
        let (le, ea, ed) = take_inv n c a d h in
        let whole : unread c ≡ a ++ unread d =
          rw (ea, ed, drop-drop c.pos n c.buf) (sym (take-append-drop n (unread c))) in
        (
          (
            rw ea (omega (arith, length-take n (drop c.pos c.buf), length-unread c)),
            All-left IsByte a (unread d) (subst AreBytes whole hc),
          ),
          whole,
        );
  }

  finish_inv :
      {A : Type 0} (a b : A) (c d : Cursor)
      → (finish {E = E} >> pure a) c ≡ ok (b, d)
      → (remaining c ≡ 0) × (a ≡ b)
  unfolding finish pure ◌>>=◌
  finish_inv a b c d h = elim (Bool-cases (ltb 0 (remaining c))) [
    | inl e ↦ cc (rw e at h)
    | inr e ↦ (omega (arith, ltb→ge _ _ e), cc (rw e at h))
  ]

  pub Ends-finish :
      {A : Type 0} (a : A) {Q : A → List ℕ → Type 0} → Q a [] → Ends {E = E} (finish >> pure a) Q
  Ends-finish a {Q} q = record {
    at = λ c b d hc h.
        let (e, l) = finish_inv a b c d h in rw (eq_nil (unread c) (length-unread c ∙ e), ← l) q;
  }

  pub Consumes-IsU8 : Consumes {E = E} read_u8 (λ n. n ∷ []) IsU8
  unfolding read_u8
  Consumes-IsU8 = Consumes-steps (
      Steps-bind _ _ (Consumes-take 1)
        λ s h. let (lt, e) = one_byte s h.0 h.1 in Steps-pure _ (lt, append-nil s ∙ e))

  Consumes-le :
      (k : ℕ)
      → Consumes {E = E} (take_bytes k >>= λ s. pure (from_le s)) (to_le k) (λ n. n < 256 ^ k)
  Consumes-le k = Consumes-steps (
      Steps-bind _ _ (Consumes-take k) λ s h. Steps-pure _ (
        from_le-lt k s h.0 h.1,
        append-nil s ∙ sym (ap (λ j. to_le j (from_le s)) (sym h.0) ∙ to_le-from_le s h.1),
      ))

  pub Consumes-IsU16 : Consumes {E = E} read_u16 (to_le 2) IsU16
  unfolding read_u16
  Consumes-IsU16 = Consumes-le 2

  pub Consumes-IsU32 : Consumes {E = E} read_u32 (to_le 4) IsU32
  unfolding read_u32
  Consumes-IsU32 = Consumes-le 4

  pub Consumes-IsU64 : Consumes {E = E} read_u64 (to_le 8) IsU64
  unfolding read_u64
  Consumes-IsU64 = Consumes-le 8

  pub Consumes-IsArray32 : Consumes {E = E} read_array32 (λ h. h) (λ h. IsArray32 h × AreBytes h)
  unfolding read_array32
  Consumes-IsArray32 = Consumes-take 32

  pub Consumes-str0_255 : Consumes {E = E} read_str0_255 (λ s. length s ∷ s) (λ s. length s < 256)
  unfolding read_str0_255
  Consumes-str0_255 = Consumes-steps (
      Steps-bind _ _ Consumes-IsU8
        λ n hn. Steps-of _ (Consumes-take n) λ s h. (omega (arith, h.0), ap (λ l. l ∷ s) (sym h.0)))

pub Consumes-many :
    {E A : Type 0} {m : Parser E A} (enc : A → List ℕ) (P : A → Type 0)
    → Consumes m enc P
    → (n : ℕ)
    → Consumes (read_many m n) (λ xs. concat (map enc xs)) (λ xs. All P xs × (length xs ≡ n))
unfolding read_many
Consumes-many enc P r zero = Consumes-steps (Steps-pure [] ((tt, refl), refl))
Consumes-many enc P r (suc n) = Consumes-steps (
    Steps-bind _ _ r λ x hx. Steps-bind _ _ (Consumes-many enc P r n) λ xs hxs.
      Steps-pure (x ∷ xs) (((hx, hxs.0), ap suc hxs.1), ap (λ t. enc x ++ t) (append-nil _)))

module _ {E A : Type 0} {m : Parser E A} {Q : A → List ℕ → Type 0} where
  -- What a decoder returns is related to the whole of its input.
  pub parse-Ends : Ends m Q → (s : List ℕ) (a : A) → AreBytes s → parse m s ≡ ok a → Q a s
  unfolding parse
  parse-Ends r s a hs h = let (d, e) = value_inv (m (new s)) h in r.at (new s) a d hs e
