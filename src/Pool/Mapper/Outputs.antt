-- ===== src/Pool/Mapper/Outputs.antt =====
-- The pool reads back the outputs of the coinbase that was put together.
use dinero_sv.Base.{
  ℕ, ◌+◌, ◌-◌, ◌*◌, ◌^◌, ◌≡◌, ◌≤◌, ◌<◌, refl, sym, ap, subst, ◌∙◌, arith, List, [], ◌∷◌, ◌++◌, map,
  some, ok, append-nil, append_assoc, length, length-append, take, drop, All, take-append-drop,
  length-take, ltb, ge→ltb, true, false,
}
use dinero_sv.Words.{wrap64}
use dinero_sv.Wire.Bytes.{IsU64, to_le, from_le, length-to_le, from_le-to_le}
use dinero_sv.Varint.{write_varint}
use dinero_sv.Coinbase.{
  CoinbaseOutput, output_bytes, outputs_bytes, assemble_stripped_coinbase,
  wrap_stripped_with_segwit_witness,
}
use dinero_sv.Pool.Mapper.{
  Run, slice, skip_sized, has_witness, after_marker, with_capacity, parse_inputs, parse_script,
  parse_outputs, parse_segwit_tx_inputs_outputs, coinbase_outputs,
}
use dinero_sv.Pool.Mapper.Split.{
  IsStack, prefix_of, vin, vout, buf, length-buf, IsAt-counted, after_inputs_lem, marked, assembled,
  wrap_lem,
}
use dinero_sv.Pool.Mapper.Walk.{
  IsAt, IsAt-length, IsAt-wrap, IsAt-field, slice_at, read_at, skip_sized_lem, TxInput, IsInput,
  inputs_bytes, stacks_bytes,
}

-- What an input spends.
abbrev spent : TxInput → List ℕ × ℕ
spent i = (take 32 i.prevout, from_le (drop 32 i.prevout))

module _ (buf : List ℕ) (small : IsU64 (length buf)) where
  -- A field of `k` bytes passes the check of its end, and is sliced.
  field-IsAt :
      (cur k : ℕ) (s rest : List ℕ)
      → length s ≡ k
      → IsAt buf cur (s ++ rest)
      → (ltb (length buf) (wrap64 (cur + k)) ≡ false)
        × (slice buf cur (wrap64 (cur + k)) ≡ some s)
        × IsAt buf (wrap64 (cur + k)) rest
  field-IsAt cur k s rest e h =
      let after = IsAt-field buf small cur k s rest e h in
      (
        ge→ltb (length buf) (wrap64 (cur + k))
            (omega (arith, IsAt-length buf (wrap64 (cur + k)) rest after)),
        slice_at buf cur (wrap64 (cur + k)) s rest h after,
        after,
      )

  parse_script_lem :
      {A : Type 0} (cur : ℕ) (s rest : List ℕ)
      → IsU64 (length s)
      → IsAt buf cur (write_varint (length s) ++ (s ++ rest))
      → (c : ℕ) × IsAt buf c rest
        × ((next : List ℕ → ℕ → Run A) → parse_script buf cur next ≡ next s c)
  unfolding parse_script
  parse_script_lem cur s rest n at =
      let size = write_varint (length s) in
      let one = IsAt-wrap buf small cur size _ at in
      let joined = subst (IsAt buf cur) (sym (append_assoc size s rest)) at in
      let sum : cur + length size + length s ≡ cur + (length size + length s) = omega arith in
      let (fits, _, two) =
        field-IsAt cur (length size + length s) (size ++ s) rest (length-append size s) joined in
      let last = wrap64 (cur + (length size + length s)) in
      let script = slice_at buf (wrap64 (cur + length size)) last s rest one two in
      (
        last,
        two,
        λ next. rw (read_at buf small cur (length s) _ n at) (rw (sum, fits, script) refl),
      )

  parse_outputs_lem :
      {A : Type 0} (cur : ℕ) (outs : List CoinbaseOutput) (acc : List CoinbaseOutput)
      (next : List CoinbaseOutput → Run A) (rest : List ℕ)
      → All (λ o. IsU64 o.value_una × IsU64 (length o.script_pubkey)) outs
      → IsAt buf cur (outputs_bytes outs rest)
      → parse_outputs buf cur (length outs) acc next ≡ next (acc ++ outs)
  unfolding parse_outputs outputs_bytes output_bytes
  parse_outputs_lem cur [] acc next rest h at = ap next (sym (append-nil acc))
  parse_outputs_lem cur (o ∷ outs) acc next rest ((u, n), hs) at =
      let value = to_le 8 o.value_una in
      let size = write_varint (length o.script_pubkey) in
      let split : output_bytes o ++ outputs_bytes outs rest
          ≡ value ++ (size ++ (o.script_pubkey ++ outputs_bytes outs rest)) =
        append_assoc value (size ++ o.script_pubkey) _
        ∙ ap (λ l. value ++ l) (append_assoc size o.script_pubkey _) in
      let (fits, v, one) =
        field-IsAt cur 8 value _ (length-to_le 8 o.value_una) (subst (IsAt buf cur) split at) in
      let (c, two, script) = parse_script_lem (wrap64 (cur + 8)) o.script_pubkey _ n one in
      let ih = parse_outputs_lem c outs (acc ++ (o ∷ [])) next rest hs two in
      rw (fits, v)
        (script _
          ∙ rw (from_le-to_le 8 o.value_una u) (ih ∙ ap next (append_assoc acc (o ∷ []) outs)))

  parse_inputs_lem :
      (A : Type 0) (cur : ℕ) (is : List TxInput) (rest : List ℕ)
      → All IsInput is
      → IsAt buf cur (inputs_bytes is rest)
      → (c : ℕ) × IsAt buf c rest
        × ((acc : List (List ℕ × ℕ)) (next : List (List ℕ × ℕ) → ℕ → Run A)
            → parse_inputs buf cur (length is) acc next ≡ next (acc ++ map spent is) c)
  unfolding parse_inputs inputs_bytes
  parse_inputs_lem A cur [] rest h at =
      (cur, at, λ acc next. ap (λ l. next l cur) (sym (append-nil acc)))
  parse_inputs_lem A cur (i ∷ is) rest ((p, n, q), hs) at =
      let txid = take 32 i.prevout in
      let vout = drop 32 i.prevout in
      let tail =
        write_varint (length i.script_sig)
        ++ (i.script_sig ++ (i.sequence ++ inputs_bytes is rest)) in
      let parts : i.prevout ++ tail ≡ txid ++ (vout ++ tail) =
        ap (λ l. l ++ tail) (sym (take-append-drop 32 i.prevout)) ∙ append_assoc txid vout tail in
      let len : length txid ≡ 32 = omega (arith, length-take 32 i.prevout, p) in
      let (_, first, one) =
        field-IsAt cur 32 txid (vout ++ tail) len (subst (IsAt buf cur) parts at) in
      let (fits, _, two) = field-IsAt cur 36 i.prevout tail p at in
      let second = slice_at buf (wrap64 (cur + 32)) (wrap64 (cur + 36)) vout tail one two in
      let (c, e, three) =
        skip_sized_lem buf small (wrap64 (cur + 36)) i.script_sig i.sequence _ n two in
      let step : skip_sized buf (wrap64 (cur + 36)) 4 ≡ ok c =
        ap (skip_sized buf (wrap64 (cur + 36))) (sym q) ∙ e in
      let (d, four, ih) = parse_inputs_lem A c is rest hs three in
      (
        d,
        four,
        λ acc next.
            rw (fits, first)
              (rw (second, step)
                (ih (acc ++ (spent i ∷ [])) next
                  ∙ ap (λ l. next l d) (append_assoc acc (spent i ∷ []) (map spent is)))),
      )

  -- The whole read, from the cursor behind the marker.
  parse_at :
      (is : List TxInput) (outs : List CoinbaseOutput) (rest : List ℕ)
      → has_witness buf ≡ true
      → All IsInput is
      → All (λ o. IsU64 o.value_una × IsU64 (length o.script_pubkey)) outs
      → length is * 36 < 2 ^ 63
      → length outs * 32 < 2 ^ 63
      → 10 ≤ length buf
      → IsAt buf 6 (
          write_varint (length is)
          ++ inputs_bytes is (write_varint (length outs) ++ outputs_bytes outs rest))
      → parse_segwit_tx_inputs_outputs buf ≡ some (ok (map spent is, outs))
  unfolding parse_segwit_tx_inputs_outputs after_marker with_capacity
  parse_at is outs rest marked his hos ci co long at =
      let one = IsAt-wrap buf small 6 (write_varint (length is)) _ at in
      let read_is = read_at buf small 6 (length is) _ (omega arith) at in
      let (c, two, walk) =
        parse_inputs_lem (List (List ℕ × ℕ) × List CoinbaseOutput)
          (wrap64 (6 + length (write_varint (length is)))) is _ his one in
      let read_os = read_at buf small c (length outs) _ (omega arith) two in
      let three = IsAt-wrap buf small c (write_varint (length outs)) _ two in
      let room : ltb (2 ^ 63 - 1) (length is * 36) ≡ false = ge→ltb _ _ (omega arith) in
      let room' : ltb (2 ^ 63 - 1) (length outs * 32) ≡ false = ge→ltb _ _ (omega arith) in
      let outputs =
        parse_outputs_lem _ outs [] (λ os. some (ok (map spent is, os))) rest hos three in
      rw (ge→ltb (length buf) 10 long, marked)
        (rw (read_is, room) (walk [] _ ∙ rw (read_os, room') outputs))

scripts_of :
    (outs : List CoinbaseOutput)
    → All (λ o. IsU64 o.value_una × IsU64 (length o.script_pubkey)) outs
    → All (λ o. IsU64 (length o.script_pubkey)) outs
scripts_of [] h = tt
scripts_of (o ∷ outs) ((u, n), hs) = (n, scripts_of outs hs)

-- The outputs of the coinbase that a miner assembles from outputs with `u64` values, and the pool
-- wraps with the witness, are read back by the pool in their order, where its length fits a `u64`
-- and the lists of inputs and outputs fit an allocation.
pub coinbase_outputs-wrap :
    (version : List ℕ) (is : List TxInput) (outs : List CoinbaseOutput)
    (witness : List (List (List ℕ))) (locktime : List ℕ)
    → length version ≡ 4
    → length locktime ≡ 4
    → All IsInput is
    → All (λ o. IsU64 o.value_una × IsU64 (length o.script_pubkey)) outs
    → All IsStack witness
    → length is * 36 < 2 ^ 63
    → length outs * 32 < 2 ^ 63
    → length witness ≡ length is
    → IsU64 (
        length (assemble_stripped_coinbase (prefix_of version is) outs locktime)
        + length (stacks_bytes witness [])
        + 2)
    → (full : List ℕ) × (wrap_stripped_with_segwit_witness
          (assemble_stripped_coinbase (prefix_of version is) outs locktime)
          (stacks_bytes witness [])
          locktime
        ≡ some full)
      × (coinbase_outputs full ≡ some (ok outs))
unfolding coinbase_outputs
coinbase_outputs-wrap version is outs witness locktime v l his hos hws ci co nw small =
    let scripts = scripts_of outs hos in
    let ci' : IsU64 (length is) = omega arith in
    let co' : IsU64 (length outs) = omega arith in
    let w = stacks_bytes witness [] in
    let whole = buf version is outs witness locktime v l his scripts hws ci' co' nw in
    let len = length-buf version is outs witness locktime v l his scripts hws ci' co' nw in
    let fits : IsU64 (length whole) = subst IsU64 (sym len) small in
    let counted =
      IsAt-counted version is outs witness locktime v l his scripts hws ci' co' nw fits in
    let nested =
      subst (λ b. IsAt whole 6 (write_varint (length is) ++ inputs_bytes is b))
        (after_inputs_lem version is outs witness locktime v l his scripts hws ci' co' nw)
        counted in
    let mid = vin is ++ vout outs in
    let a = length-append version (0x00 ∷ 0x01 ∷ (mid ++ (w ++ locktime))) in
    let b = length-append mid (w ++ locktime) in
    let c = length-append w locktime in
    let long : 10 ≤ length whole = omega (arith, a, b, c, v, l) in
    let parsed =
      parse_at whole fits is outs (w ++ locktime)
        (marked version is outs witness locktime v l his scripts hws ci' co' nw) his hos ci co long
        nested in
    (
      whole,
      ap (λ s. wrap_stripped_with_segwit_witness s w locktime)
            (assembled version is outs witness locktime v l his scripts hws ci' co' nw)
          ∙ wrap_lem version (vin is ++ vout outs) w locktime v,
      rw (parsed, coinbase_outputs) refl,
    )
