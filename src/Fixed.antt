-- ===== src/Fixed.antt =====
-- The codec of the messages of fixed size (crates/dinero-sv2-codec/src/lib.rs).
pub mod Template
pub mod Submit
use dinero_sv.Base.{
  ℕ, ◌≡◌, refl, arith, List, Result, ok, err, length, ltb, if◌then◌else◌, ge→ltb, ltb→ge,
  Bool-cases, inl, inr, false,
}
use dinero_sv.Wire.{CursorError, Parser, parse}

pub data CodecError : Type 0 where
  short_frame : ℕ → ℕ → CodecError
  trailing_bytes : ℕ → ℕ → CodecError
  invalid_bool : ℕ → CodecError

-- The length of the buffer is checked before the first field is read, so the slices that the fields
-- are copied from lie within it, and the offset ends at the size, as `debug_assert_eq!` says.
instance abbrev pub codec_cursor : CursorError CodecError
codec_cursor = record {
  short = short_frame;
  trailing = trailing_bytes 0;
  too_large = λ _. short_frame;
}

-- The checks of the length that both decoders begin with.
unfoldable pub parse_frame : {A : Type 0} → ℕ → Parser CodecError A → List ℕ → Result CodecError A
parse_frame size p buf =
    if ltb (length buf) size
    then err (short_frame size (length buf))
    else if ltb size (length buf)
    then err (trailing_bytes size (length buf))
    else parse p buf

pub parse_frame_fits :
    {A : Type 0} (size : ℕ) (p : Parser CodecError A) (buf : List ℕ)
    → length buf ≡ size
    → parse_frame size p buf ≡ parse p buf
unfolding parse_frame
parse_frame_fits size p buf h =
    let a : ltb (length buf) size ≡ false = ge→ltb (length buf) size (omega arith) in
    let b : ltb size (length buf) ≡ false = ge→ltb size (length buf) (omega arith) in rw (a, b) refl

pub parse_frame-eq-ok :
    {A : Type 0} (size : ℕ) (p : Parser CodecError A) (buf : List ℕ) {a : A}
    → parse_frame size p buf ≡ ok a
    → (length buf ≡ size) × (parse p buf ≡ ok a)
unfolding parse_frame
parse_frame-eq-ok size p buf {a} h = elim (Bool-cases (ltb (length buf) size)) [
  | inl y ↦ absurd (cc (h, y))
  | inr n ↦ elim (Bool-cases (ltb size (length buf))) [
    | inl y ↦ absurd (cc (h, n, y))
    | inr m ↦
        (omega (arith, ltb→ge (length buf) size n, ltb→ge size (length buf) m), rw (n, m) at h)
  ]
]
