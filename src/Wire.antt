-- ===== src/Wire.antt =====
-- Bytes on the wire and the cursor that the decoders walk with
-- (crates/dinero-sv2-codec/src/sv2.rs and crates/dinero-sv2-jd/src/codec.rs have the same one).
pub mod Bytes
pub mod Accepts
pub mod Ends
pub mod Limits
use dinero_sv.Base.{ℕ, zero, suc, ◌+◌, ◌-◌, List, [], ◌∷◌, Result, ok, err, String}
use dinero_sv.Base.{length, take, drop, get_or, ltb, if◌then◌else◌}
use dinero_sv.Wire.Bytes.{from_le}

-- How an error type of a codec spells the errors of the cursor and of the caps.
pub record CursorError (E : Type 0) : Type 0 where
  pub short : ℕ → ℕ → E
  pub trailing : ℕ → E
  pub too_large : String → ℕ → ℕ → E

pub record Cursor : Type 0 where
  pub buf : List ℕ
  pub pos : ℕ

-- A method of the cursor: it moves the cursor and answers, or it ends the decoder.
abbrev pub Parser : Type 0 → Type 0 → Type 0
Parser E A = Cursor → Result E (A × Cursor)

abbrev pub new : List ℕ → Cursor
new buf = record { buf = buf; pos = 0 }

unfoldable pub remaining : Cursor → ℕ
remaining c = length c.buf - c.pos

module _ {E A : Type 0} where
  unfoldable pub pure : A → Parser E A
  pure a c = ok (a, c)

  -- `r?`, which does not move the cursor.
  unfoldable pub lift : Result E A → Parser E A
  lift (ok a) c = ok (a, c)
  lift (err e) c = err e

module _ {E A B : Type 0} where
  abbrev continue : Result E (A × Cursor) → (A → Parser E B) → Result E (B × Cursor)
  continue (ok (a, c)) f = f a c
  continue (err e) f = err e

  infixl 10 ◌>>=◌ ◌>>◌
  unfoldable pub ◌>>=◌ : Parser E A → (A → Parser E B) → Parser E B
  ◌>>=◌ m f c = continue (m c) f

  abbrev pub ◌>>◌ : Parser E A → Parser E B → Parser E B
  m >> n = m >>= λ _. n

module _ {E : Type 0} ⦃w : CursorError E⦄ where
  unfoldable pub take_bytes : ℕ → Parser E (List ℕ)
  unfolding remaining
  take_bytes n c =
      if ltb (remaining c) n
      then err (w.short c.pos (n - remaining c))
      else ok (take n (drop c.pos c.buf), record c { pos = c.pos + n })

  unfoldable pub read_u8 : Parser E ℕ
  read_u8 = take_bytes 1 >>= λ s. pure (get_or s 0 0)

  unfoldable pub read_u16 : Parser E ℕ
  read_u16 = take_bytes 2 >>= λ s. pure (from_le s)

  unfoldable pub read_u32 : Parser E ℕ
  read_u32 = take_bytes 4 >>= λ s. pure (from_le s)

  unfoldable pub read_u64 : Parser E ℕ
  read_u64 = take_bytes 8 >>= λ s. pure (from_le s)

  unfoldable pub read_array32 : Parser E (List ℕ)
  read_array32 = take_bytes 32

  unfoldable pub read_str0_255 : Parser E (List ℕ)
  read_str0_255 = read_u8 >>= take_bytes

  unfoldable pub finish : Parser E (Unit {0})
  unfolding remaining
  finish c = if ltb 0 (remaining c) then err (w.trailing (remaining c)) else ok (tt, c)

-- `for _ in 0..n { v.push(p()?) }`
unfoldable pub read_many : {E A : Type 0} → Parser E A → ℕ → Parser E (List A)
read_many p zero = pure []
read_many p (suc n) = p >>= λ a. read_many p n >>= λ as_. pure (a ∷ as_)

module _ {E A : Type 0} where
  abbrev value : Result E (A × Cursor) → Result E A
  value (ok (a, c)) = ok a
  value (err e) = err e

  -- A decoder: its cursor starts at the front of the buffer, and is dropped at the end.
  unfoldable pub parse : Parser E A → List ℕ → Result E A
  parse p buf = value (p (new buf))
