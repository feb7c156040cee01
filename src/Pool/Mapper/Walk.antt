-- ===== src/Pool/Mapper/Walk.antt =====
-- The cursor over the bytes of a transaction.
use dinero_sv.Base.{
  ℕ, suc, ◌+◌, ◌-◌, ◌≡◌, refl, sym, ap, subst, ◌∙◌, arith, List, [], ◌∷◌, ◌++◌, some, ok, and_then,
  ok_inj, append_assoc, length, length-append, drop, All, get_elem?, take-append_length,
  drop-append_length, ltb, ◌==◌, ge→ltb, Bool-cases, Option-cases, inl, inr,
}
use dinero_sv.Words.{wrap64}
use dinero_sv.Wire.Bytes.{IsU64, to_le, from_le, length-to_le}
use dinero_sv.Varint.{write_varint, read_varint, varint_of, take_after}
use dinero_sv.Varint.RoundTrip.{read_varint-write_varint}
use dinero_sv.Coinbase.{CoinbaseOutput, output_bytes, outputs_bytes}
use dinero_sv.Pool.Mapper.{
  MapperError, Read, slice, wide, read_compact_size, skip_sized, walk_inputs, walk_outputs,
  walk_items, walk_stacks,
}

-- The pool's two readers of compact sizes agree where the extranonce's succeeds.
wide_lem :
    (buf : List ℕ) (off n : ℕ) (e : MapperError) (r : ℕ × ℕ)
    → and_then (take_after buf off n) (λ s. ok (from_le s, suc n)) ≡ ok r
    → wide buf off n e ≡ ok r
unfolding wide take_after
wide_lem buf off n e r h = elim (Bool-cases (ltb (length buf) (off + 1 + n))) [
  | inl y ↦ absurd (cc (h, y))
  | inr z ↦ rw z (cc (ok_inj (rw z at h)))
]

pub read_compact_size-read_varint :
    (buf : List ℕ) (off : ℕ) (r : ℕ × ℕ)
    → read_varint buf off ≡ ok r
    → read_compact_size buf off ≡ ok r
unfolding read_varint read_compact_size varint_of
read_compact_size-read_varint buf off r h = elim (Option-cases (get_elem? buf off)) [
  | inl z ↦ absurd (cc (rw (z, read_varint) at h))
  | inr (b, y) ↦
      let h1 = rw (y, read_varint) at h in
      rw (y, read_compact_size)
        (elim (Bool-cases (ltb b 0xFD)) [
          | inl a ↦ rw a (cc (ok_inj (rw a at h1)))
          | inr a ↦ elim (Bool-cases (b == 0xFD)) [
            | inl c ↦ rw (a, c) (wide_lem buf off 2 _ r (rw (a, c) at h1))
            | inr c ↦ elim (Bool-cases (b == 0xFE)) [
              | inl d ↦ rw (a, c, d) (wide_lem buf off 4 _ r (rw (a, c, d) at h1))
              | inr d ↦ rw (a, c, d) (wide_lem buf off 8 _ r (rw (a, c, d) at h1))
            ]
          ]
        ])
]

-- The cursor stands before the rest.
unfoldable pub IsAt : List ℕ → ℕ → List ℕ → Type 0
IsAt buf cur rest = (pre : List ℕ) × (buf ≡ pre ++ rest) × (length pre ≡ cur)

pub IsAt-length :
    (buf : List ℕ) (cur : ℕ) (rest : List ℕ) → IsAt buf cur rest → length buf ≡ cur + length rest
unfolding IsAt
IsAt-length buf cur rest (pre, e, l) =
    let a = length-append pre rest in omega (arith, a, l, ap length e)

pub IsAt-append :
    (buf : List ℕ) (cur : ℕ) (s rest : List ℕ)
    → IsAt buf cur (s ++ rest)
    → IsAt buf (cur + length s) rest
unfolding IsAt
IsAt-append buf cur s rest (pre, e, l) =
    (pre ++ s, e ∙ sym (append_assoc pre s rest), omega (arith, length-append pre s, l))

pub slice_at :
    (buf : List ℕ) (cur last : ℕ) (s rest : List ℕ)
    → IsAt buf cur (s ++ rest)
    → IsAt buf last rest
    → slice buf cur last ≡ some s
unfolding slice IsAt
slice_at buf cur last s rest h k =
    let (pre, e, l) = h in
    let a = IsAt-length buf cur (s ++ rest) h in
    let b = IsAt-length buf last rest k in
    let c = length-append s rest in
    let n : last - cur ≡ length s = omega arith in
    let behind : drop cur buf ≡ s ++ rest =
      ap (drop cur) e ∙ ap (λ i. drop i (pre ++ (s ++ rest))) (sym l) ∙ drop-append_length pre _ in
    rw (ge→ltb last cur (omega arith), ge→ltb (length buf) last (omega arith), behind, n)
      (ap some (take-append_length s rest))

module _ (buf : List ℕ) (small : IsU64 (length buf)) where
  pub IsAt-wrap :
      (cur : ℕ) (s rest : List ℕ)
      → IsAt buf cur (s ++ rest)
      → IsAt buf (wrap64 (cur + length s)) rest
  IsAt-wrap cur s rest h =
      let after = IsAt-append buf cur s rest h in
      let fits : wrap64 (cur + length s) ≡ cur + length s =
        omega (arith, IsAt-length buf (cur + length s) rest after, small) in
      subst (λ c. IsAt buf c rest) (sym fits) after

  pub IsAt-field :
      (cur k : ℕ) (s rest : List ℕ)
      → length s ≡ k
      → IsAt buf cur (s ++ rest)
      → IsAt buf (wrap64 (cur + k)) rest
  IsAt-field cur k s rest e h =
      subst (λ k. IsAt buf (wrap64 (cur + k)) rest) e (IsAt-wrap cur s rest h)

  pub read_at :
      (cur n : ℕ) (rest : List ℕ)
      → IsU64 n
      → IsAt buf cur (write_varint n ++ rest)
      → read_compact_size buf cur ≡ ok (n, length (write_varint n))
  unfolding IsAt
  read_at cur n rest h (pre, e, l) = read_compact_size-read_varint buf cur _ (
      ap (λ b. read_varint b cur) e
      ∙ ap (read_varint (pre ++ (write_varint n ++ rest))) (sym l)
      ∙ read_varint-write_varint n pre rest h)

  -- A walk that ends before the rest.
  abbrev pub IsWalk : Read ℕ → List ℕ → Type 0
  IsWalk r rest = (c : ℕ) × (r ≡ ok c) × IsAt buf c rest

  pub skip_sized_lem :
      (cur : ℕ) (s t rest : List ℕ)
      → IsU64 (length s)
      → IsAt buf cur (write_varint (length s) ++ (s ++ (t ++ rest)))
      → IsWalk (skip_sized buf cur (length t)) rest
  unfolding skip_sized
  skip_sized_lem cur s t rest n h =
      let one = IsAt-append buf cur (write_varint (length s)) _ h in
      let two = IsAt-append buf _ s _ one in
      let three = IsAt-wrap _ t rest two in
      (
        wrap64 (cur + length (write_varint (length s)) + length s + length t),
        rw (read_at cur (length s) _ n h) refl,
        three,
      )

-- An input, an output and the items of a stack, as they are written.
pub record TxInput : Type 0 where
  pub prevout : List ℕ
  pub script_sig : List ℕ
  pub sequence : List ℕ

abbrev pub IsInput : TxInput → Type 0
IsInput i = (length i.prevout ≡ 36) × IsU64 (length i.script_sig) × (length i.sequence ≡ 4)

unfoldable pub inputs_bytes : List TxInput → List ℕ → List ℕ
inputs_bytes [] rest = rest
inputs_bytes (i ∷ is) rest =
    i.prevout
    ++ (write_varint (length i.script_sig)
        ++ (i.script_sig ++ (i.sequence ++ inputs_bytes is rest)))

unfoldable pub items_bytes : List (List ℕ) → List ℕ → List ℕ
items_bytes [] rest = rest
items_bytes (s ∷ ss) rest = write_varint (length s) ++ (s ++ items_bytes ss rest)

unfoldable pub stacks_bytes : List (List (List ℕ)) → List ℕ → List ℕ
stacks_bytes [] rest = rest
stacks_bytes (ss ∷ sss) rest = write_varint (length ss) ++ items_bytes ss (stacks_bytes sss rest)

module _ (buf : List ℕ) (small : IsU64 (length buf)) where
  pub walk_inputs_lem :
      (cur : ℕ) (is : List TxInput) (rest : List ℕ)
      → All IsInput is
      → IsAt buf cur (inputs_bytes is rest)
      → IsWalk buf small (walk_inputs buf cur (length is)) rest
  unfolding walk_inputs inputs_bytes
  walk_inputs_lem cur [] rest h at = (cur, refl, at)
  walk_inputs_lem cur (i ∷ is) rest ((p, n, q), hs) at =
      let one = IsAt-field buf small cur 36 i.prevout _ p at in
      let (c, e, two) =
        skip_sized_lem buf small (wrap64 (cur + 36)) i.script_sig i.sequence _ n one in
      let step : skip_sized buf (wrap64 (cur + 36)) 4 ≡ ok c =
        ap (skip_sized buf (wrap64 (cur + 36))) (sym q) ∙ e in
      let (d, f, three) = walk_inputs_lem c is rest hs two in (d, rw step f, three)

  pub walk_outputs_lem :
      (cur : ℕ) (outs : List CoinbaseOutput) (rest : List ℕ)
      → All (λ o. IsU64 (length o.script_pubkey)) outs
      → IsAt buf cur (outputs_bytes outs rest)
      → IsWalk buf small (walk_outputs buf cur (length outs)) rest
  unfolding walk_outputs outputs_bytes output_bytes
  walk_outputs_lem cur [] rest h at = (cur, refl, at)
  walk_outputs_lem cur (o ∷ outs) rest (n, hs) at =
      let value = to_le 8 o.value_una in
      let size = write_varint (length o.script_pubkey) in
      let split : output_bytes o ++ outputs_bytes outs rest
          ≡ value ++ (size ++ (o.script_pubkey ++ outputs_bytes outs rest)) =
        append_assoc value (size ++ o.script_pubkey) _
        ∙ ap (λ l. value ++ l) (append_assoc size o.script_pubkey _) in
      let one =
        IsAt-field buf small cur 8 value _ (length-to_le 8 o.value_una)
          (subst (IsAt buf cur) split at) in
      let (c, e, two) = skip_sized_lem buf small (wrap64 (cur + 8)) o.script_pubkey [] _ n one in
      let (d, f, three) = walk_outputs_lem c outs rest hs two in (d, rw e f, three)

  pub walk_items_lem :
      (cur : ℕ) (ss : List (List ℕ)) (rest : List ℕ)
      → All (λ s. IsU64 (length s)) ss
      → IsAt buf cur (items_bytes ss rest)
      → IsWalk buf small (walk_items buf cur (length ss)) rest
  unfolding walk_items items_bytes
  walk_items_lem cur [] rest h at = (cur, refl, at)
  walk_items_lem cur (s ∷ ss) rest (n, hs) at =
      let (c, e, two) = skip_sized_lem buf small cur s [] _ n at in
      let (d, f, three) = walk_items_lem c ss rest hs two in (d, rw e f, three)

  pub walk_stacks_lem :
      (cur : ℕ) (sss : List (List (List ℕ))) (rest : List ℕ)
      → All (λ ss. IsU64 (length ss) × All (λ s. IsU64 (length s)) ss) sss
      → IsAt buf cur (stacks_bytes sss rest)
      → IsWalk buf small (walk_stacks buf cur (length sss)) rest
  unfolding walk_stacks stacks_bytes
  walk_stacks_lem cur [] rest h at = (cur, refl, at)
  walk_stacks_lem cur (ss ∷ sss) rest ((n, hi), hs) at =
      let one = IsAt-wrap buf small cur (write_varint (length ss)) _ at in
      let (c, e, two) = walk_items_lem _ ss _ hi one in
      let (d, f, three) = walk_stacks_lem c sss rest hs two in
      (d, rw (read_at buf small cur (length ss) _ n at, e) f, three)
