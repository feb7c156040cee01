-- ===== src/Pool/Mapper.antt =====
-- What the pool reads of a transaction's bytes (crates/dinero-sv2-pool/src/mapper.rs), behind the hex
-- digits in which the daemon sends them. Cursors are 64-bit words that wrap around; a panic is
-- `none`.
pub mod Walk
pub mod Bytes
pub mod Split
pub mod Outputs
use dinero_sv.Base.{
  ℕ, zero, suc, ◌+◌, ◌-◌, ◌*◌, ◌^◌, List, [], ◌∷◌, ◌++◌, Option, none, some, Result, ok, err,
  and_then, length, take, drop, get_elem?, ltb, ◌==◌, if◌then◌else◌, Bool, false, ◌&&◌, ◌||◌, not,
}
use dinero_sv.Words.{wrap64}
use dinero_sv.Wire.Bytes.{from_le}
use dinero_sv.Coinbase.{CoinbaseOutput}

pub data MapperError : Type 0 where
  out_of_range : ℕ → ℕ → MapperError
  truncated_u16 : MapperError
  truncated_u32 : MapperError
  truncated_u64 : MapperError
  tx_too_short : ℕ → MapperError
  prevout_overflow : MapperError
  value_overflow : MapperError
  script_overflow : MapperError
  trailing_mismatch : ℕ → ℕ → MapperError

abbrev pub Read : Type 0 → Type 0
Read A = Result MapperError A

-- What a reader answers, or a panic.
abbrev pub Run : Type 0 → Type 0
Run A = Option (Read A)

abbrev pub continue : {A B : Type 0} → Read A → (A → Run B) → Run B
continue (ok a) f = f a
continue (err e) f = some (err e)

-- `buf[first..last]` and what follows it.
abbrev pub with_slice : {B : Type 0} → Option (List ℕ) → (List ℕ → Run B) → Run B
with_slice none f = none
with_slice (some s) f = f s

unfoldable pub slice : List ℕ → ℕ → ℕ → Option (List ℕ)
slice buf first last =
    if ltb last first || ltb (length buf) last
    then none
    else some (take (last - first) (drop first buf))

unfoldable pub wide : List ℕ → ℕ → ℕ → MapperError → Read (ℕ × ℕ)
wide buf off n e =
    if ltb (length buf) (off + 1 + n)
    then err e
    else ok (from_le (take n (drop (off + 1) buf)), suc n)

-- The value and the number of bytes read.
unfoldable pub read_compact_size : List ℕ → ℕ → Read (ℕ × ℕ)
read_compact_size buf off = elim (get_elem? buf off) [
  | none ↦ err (out_of_range off (length buf))
  | some first ↦
      if ltb first 0xFD
      then ok (first, 1)
      else if first == 0xFD
      then wide buf off 2 truncated_u16
      else if first == 0xFE
      then wide buf off 4 truncated_u32
      else wide buf off 8 truncated_u64
]

-- A compact size and as many bytes behind it, and `more` bytes.
unfoldable pub skip_sized : List ℕ → ℕ → ℕ → Read ℕ
skip_sized buf cur more =
    and_then (read_compact_size buf cur) λ size. ok (wrap64 (cur + size.1 + size.0 + more))

-- The loops of `split_coinbase_segwit`: over the inputs, the outputs, the items of one witness
-- stack, and the stacks.
unfoldable pub walk_inputs : List ℕ → ℕ → ℕ → Read ℕ
walk_inputs buf cur zero = ok cur
walk_inputs buf cur (suc count) =
    and_then (skip_sized buf (wrap64 (cur + 36)) 4) λ c. walk_inputs buf c count

unfoldable pub walk_outputs : List ℕ → ℕ → ℕ → Read ℕ
walk_outputs buf cur zero = ok cur
walk_outputs buf cur (suc count) =
    and_then (skip_sized buf (wrap64 (cur + 8)) 0) λ c. walk_outputs buf c count

unfoldable pub walk_items : List ℕ → ℕ → ℕ → Read ℕ
walk_items buf cur zero = ok cur
walk_items buf cur (suc count) = and_then (skip_sized buf cur 0) λ c. walk_items buf c count

unfoldable pub walk_stacks : List ℕ → ℕ → ℕ → Read ℕ
walk_stacks buf cur zero = ok cur
walk_stacks buf cur (suc count) =
    and_then (read_compact_size buf cur) λ items.
      and_then (walk_items buf (wrap64 (cur + items.1)) items.0) λ c. walk_stacks buf c count

-- `bytes.get(4) == Some(&0x00) && bytes.get(5) == Some(&0x01)`
unfoldable pub has_witness : List ℕ → Bool
has_witness buf = elim (get_elem? buf 4) [
  | none ↦ false
  | some marker ↦ elim (get_elem? buf 5) [
    | none ↦ false
    | some flag ↦ marker == 0x00 && flag == 0x01
  ]
]

unfoldable pub after_marker : List ℕ → ℕ
after_marker buf = if has_witness buf then 6 else 4

-- The number of inputs, and where they end.
unfoldable pub inputs_end : List ℕ → Read (ℕ × ℕ)
inputs_end buf = and_then (read_compact_size buf (after_marker buf)) λ inputs.
    and_then (walk_inputs buf (wrap64 (after_marker buf + inputs.1)) inputs.0)
      λ cur. ok (inputs.0, cur)

unfoldable pub outputs_end : List ℕ → ℕ → Read ℕ
outputs_end buf cur =
    and_then (read_compact_size buf cur)
      λ outputs. walk_outputs buf (wrap64 (cur + outputs.1)) outputs.0

unfoldable pub witness_end : List ℕ → ℕ → ℕ → Read ℕ
witness_end buf cur in_count = if has_witness buf then walk_stacks buf cur in_count else ok cur

unfoldable pub suffix_at : List ℕ → ℕ → List ℕ → List ℕ → Run (List ℕ × List ℕ × List ℕ)
suffix_at buf cur prefix witness_bytes =
    if not (cur + 4 == length buf)
    then some (err (trailing_mismatch cur (length buf)))
    else with_slice (slice buf cur (cur + 4)) λ suffix. some (ok (prefix, suffix, witness_bytes))

-- The prefix, the suffix and the bytes of the witness.
unfoldable pub split_coinbase_segwit : List ℕ → Run (List ℕ × List ℕ × List ℕ)
split_coinbase_segwit bytes = continue (inputs_end bytes) λ inputs.
    with_slice (slice bytes 0 4) λ version.
      with_slice (slice bytes (after_marker bytes) inputs.1) λ vin.
        continue (outputs_end bytes inputs.1) λ witness_start.
          continue (witness_end bytes witness_start inputs.0) λ cur.
            with_slice (slice bytes witness_start cur)
              λ witness_bytes. suffix_at bytes cur (version ++ vin) witness_bytes

-- `Vec::with_capacity(count as usize)` of elements of `size` bytes, which panics above the largest
-- allocation; a machine that has less memory is not modelled.
unfoldable pub with_capacity : {A : Type 0} → ℕ → ℕ → Run A → Run A
with_capacity count size rest = if ltb (2 ^ 63 - 1) (count * size) then none else rest

-- The loop over the inputs, with what follows it: the previous outputs that they spend.
unfoldable pub parse_inputs :
    {A : Type 0} → List ℕ → ℕ → ℕ → List (List ℕ × ℕ) → (List (List ℕ × ℕ) → ℕ → Run A) → Run A
parse_inputs bytes cur zero inputs next = next inputs cur
parse_inputs bytes cur (suc count) inputs next =
    if ltb (length bytes) (wrap64 (cur + 36))
    then some (err prevout_overflow)
    else with_slice (slice bytes cur (wrap64 (cur + 32))) λ prev_txid.
      with_slice (slice bytes (wrap64 (cur + 32)) (wrap64 (cur + 36))) λ vout.
        continue (skip_sized bytes (wrap64 (cur + 36)) 4)
          λ c. parse_inputs bytes c count (inputs ++ ((prev_txid, from_le vout) ∷ [])) next

-- The script at the cursor, behind its length.
unfoldable pub parse_script : {A : Type 0} → List ℕ → ℕ → (List ℕ → ℕ → Run A) → Run A
parse_script bytes cur next = continue (read_compact_size bytes cur) λ size.
    if ltb (length bytes) (wrap64 (cur + size.1 + size.0))
    then some (err script_overflow)
    else with_slice (slice bytes (wrap64 (cur + size.1)) (wrap64 (cur + size.1 + size.0)))
        λ spk. next spk (wrap64 (cur + size.1 + size.0))

unfoldable pub parse_outputs :
    {A : Type 0} → List ℕ → ℕ → ℕ → List CoinbaseOutput → (List CoinbaseOutput → Run A) → Run A
parse_outputs bytes cur zero outputs next = next outputs
parse_outputs bytes cur (suc count) outputs next =
    if ltb (length bytes) (wrap64 (cur + 8))
    then some (err value_overflow)
    else with_slice (slice bytes cur (wrap64 (cur + 8))) λ value.
      parse_script bytes (wrap64 (cur + 8)) λ spk c.
        parse_outputs bytes c count
          (outputs ++ (record { value_una = from_le value; script_pubkey = spk } ∷ [])) next

-- The pairs of value and script as the records that `coinbase_outputs` makes of them.
unfoldable pub parse_segwit_tx_inputs_outputs :
    List ℕ → Run (List (List ℕ × ℕ) × List CoinbaseOutput)
parse_segwit_tx_inputs_outputs bytes =
    if ltb (length bytes) 10
    then some (err (tx_too_short (length bytes)))
    else continue (read_compact_size bytes (after_marker bytes)) λ in_count.
      with_capacity in_count.0 36 (
        parse_inputs bytes (wrap64 (after_marker bytes + in_count.1)) in_count.0 [] λ inputs cur.
          continue (read_compact_size bytes cur) λ out_count. with_capacity out_count.0 32 (
            parse_outputs bytes (wrap64 (cur + out_count.1)) out_count.0 []
              λ outputs. some (ok (inputs, outputs))))

unfoldable pub coinbase_outputs : List ℕ → Run (List CoinbaseOutput)
coinbase_outputs bytes = elim (parse_segwit_tx_inputs_outputs bytes) [
  | none ↦ none
  | some r ↦ continue r λ parsed. some (ok parsed.1)
]
