-- ===== src/Wire/Accepts.antt =====
-- From what was written to what is read: parsers that read a value back from its encoding. The
-- rules follow the decoder's chain of reads, and hide the cursor.
use dinero_sv.Base.{
  ℕ, ◌+◌, ◌^◌, ◌<◌, ◌≤◌, ◌≡◌, refl, ap, ◌∙◌, arith, List, [], ◌∷◌, ◌++◌, append-nil, append_assoc,
  ok, Result, length, drop, All, concat, map, length-append, length-drop, take-append_length,
  drop-append_length, drop-drop, ge→ltb,
}
use dinero_sv.Wire.{
  Cursor, CursorError, Parser, new, remaining, pure, lift, ◌>>=◌, ◌>>◌, take_bytes, read_u8,
  read_u16, read_u32, read_u64, read_array32, read_str0_255, finish, read_many, parse,
}
use dinero_sv.Wire.Bytes.{
  IsU16, IsU32, IsU64, IsArray32, to_le, from_le, length-to_le, from_le-to_le,
}

abbrev pub unread : Cursor → List ℕ
unread c = drop c.pos c.buf

-- `m` reads `a` where `s` stands, and leaves what follows.
pub record Reads {E A : Type 0} (m : Parser E A) (s : List ℕ) (a : A) : Type 0 where
  pub at :
      (c : Cursor) (rest : List ℕ)
      → unread c ≡ s ++ rest
      → (d : Cursor) × (m c ≡ ok (a, d)) × (unread d ≡ rest)

-- `m` reads `a` where `s` stands and nothing follows.
pub record Accepts {E A : Type 0} (m : Parser E A) (s : List ℕ) (a : A) : Type 0 where
  pub at : (c : Cursor) → unread c ≡ s → (d : Cursor) × (m c ≡ ok (a, d))

module _ {E A : Type 0} where
  pub Reads-pure : (a : A) → Reads (pure {E = E} a) [] a
  unfolding pure
  Reads-pure a = record { at = λ c rest h. (c, refl, h) }

  pub Reads-eq : {m : Parser E A} {s t : List ℕ} {a : A} → s ≡ t → Reads m s a → Reads m t a
  Reads-eq e r = record { at = λ c rest h. r.at c rest (rw e h) }

module _ {E A B : Type 0} {m : Parser E A} {s t : List ℕ} {a : A} {b : B} where
  pub Reads-bind : (f : A → Parser E B) → Reads m s a → Reads (f a) t b → Reads (m >>= f) (s ++ t) b
  unfolding ◌>>=◌
  Reads-bind f r q = record {
    at = λ c rest h.
        let (d, e, l) = r.at c (t ++ rest) (h ∙ append_assoc s t rest) in
        let (d', e', l') = q.at d rest l in (d', rw e e', l');
  }

  pub Accepts-bind :
      (f : A → Parser E B) → Reads m s a → Accepts (f a) t b → Accepts (m >>= f) (s ++ t) b
  unfolding ◌>>=◌
  Accepts-bind f r q = record {
    at = λ c h. let (d, e, l) = r.at c t h in let (d', e') = q.at d l in (d', rw e e');
  }

module _ {E A B : Type 0} {s : List ℕ} {b : B} (k : A → Parser E B) {r : Result E A} {a : A} where
  -- What is lifted reads nothing.
  pub Reads-lift : r ≡ ok a → Reads (k a) s b → Reads (lift r >>= k) s b
  unfolding lift ◌>>=◌
  Reads-lift h q = rw h (record { at = q.at })

  pub Accepts-lift : r ≡ ok a → Accepts (k a) s b → Accepts (lift r >>= k) s b
  unfolding lift ◌>>=◌
  Accepts-lift h q = rw h (record { at = q.at })

pub length-unread : (c : Cursor) → length (unread c) ≡ remaining c
unfolding remaining
length-unread c = length-drop c.pos c.buf

module _ {E : Type 0} ⦃w : CursorError E⦄ where
  pub Reads-take : (n : ℕ) (s : List ℕ) → length s ≡ n → Reads {E = E} (take_bytes n) s s
  unfolding take_bytes
  Reads-take n s e = record {
    at = λ c rest h. (
      record c { pos = c.pos + n },
      rw (ge→ltb (remaining c) n (enough c rest h), h, ← e, take-append_length s rest),
      rw (drop-drop c.pos n c.buf, h, ← e) (drop-append_length s rest),
    );
  }
    where
      enough : (c : Cursor) (rest : List ℕ) → unread c ≡ s ++ rest → n ≤ remaining c
      enough c rest h = omega (arith, length-unread c, ap length h, length-append s rest)

  pub Reads-u8 : (n : ℕ) → Reads {E = E} read_u8 (n ∷ []) n
  unfolding read_u8
  Reads-u8 n = Reads-bind _ (Reads-take 1 (n ∷ []) refl) (Reads-pure n)

  Reads-le :
      (k n : ℕ) → n < 256 ^ k → Reads {E = E} (take_bytes k >>= λ s. pure (from_le s)) (to_le k n) n
  Reads-le k n h = Reads-eq (append-nil _) (
      Reads-bind _ (Reads-take k (to_le k n) (length-to_le k n))
        (rw (from_le-to_le k n h) (Reads-pure n)))

  pub Reads-u16 : (n : ℕ) → IsU16 n → Reads {E = E} read_u16 (to_le 2 n) n
  unfolding read_u16
  Reads-u16 = Reads-le 2

  pub Reads-u32 : (n : ℕ) → IsU32 n → Reads {E = E} read_u32 (to_le 4 n) n
  unfolding read_u32
  Reads-u32 = Reads-le 4

  pub Reads-u64 : (n : ℕ) → IsU64 n → Reads {E = E} read_u64 (to_le 8 n) n
  unfolding read_u64
  Reads-u64 = Reads-le 8

  pub Reads-array32 : (h : List ℕ) → IsArray32 h → Reads {E = E} read_array32 h h
  unfolding read_array32
  Reads-array32 h e = Reads-take 32 h e

  pub Reads-str0_255 : (s : List ℕ) → Reads {E = E} read_str0_255 (length s ∷ s) s
  unfolding read_str0_255
  Reads-str0_255 s = Reads-bind _ (Reads-u8 (length s)) (Reads-take (length s) s refl)

  pub Accepts-finish : {A : Type 0} (a : A) → Accepts {E = E} (finish >> pure a) [] a
  unfolding finish pure ◌>>=◌
  Accepts-finish a = record {
    at = λ c h. (c, rw (ge→ltb 0 (remaining c) (omega (arith, length-unread c, ap length h))));
  }

-- A counted loop reads the concatenation of what its rounds read.
pub Reads-many :
    {E A : Type 0} {m : Parser E A} (enc : A → List ℕ) (P : A → Type 0) (xs : List A)
    → ((a : A) → P a → Reads m (enc a) a)
    → All P xs
    → Reads (read_many m (length xs)) (concat (map enc xs)) xs
unfolding read_many
Reads-many enc P [] r h = Reads-pure []
Reads-many enc P (x ∷ xs) r (hx, hxs) =
    Reads-bind _ (r x hx)
      (Reads-eq (append-nil _) (Reads-bind _ (Reads-many enc P xs r hxs) (Reads-pure (x ∷ xs))))

module _ {E A : Type 0} {m : Parser E A} {s : List ℕ} {a : A} where
  pub parse-Accepts : Accepts m s a → parse m s ≡ ok a
  unfolding parse
  parse-Accepts r = let (d, e) = r.at (new s) refl in rw e
