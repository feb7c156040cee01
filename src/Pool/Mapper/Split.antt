-- ===== src/Pool/Mapper/Split.antt =====
-- The pool takes a coinbase apart into what it was put together from.
use dinero_sv.Base.{
  ℕ, ◌+◌, ◌-◌, ◌≡◌, refl, sym, ap, subst, ◌∙◌, arith, List, [], ◌∷◌, ◌++◌, some, ok, append-nil,
  append_assoc, length, length-append, take, drop, All, get_elem?, take_part, drop_part,
  take-append_length, drop-append_length, ◌==◌, ge→ltb, ==_refl, true,
}
use dinero_sv.Wire.Bytes.{IsU64}
use dinero_sv.Varint.{write_varint}
use dinero_sv.Varint.RoundTrip.{get_elem?-append}
use dinero_sv.Coinbase.{
  CoinbaseOutput, outputs_bytes, assemble_stripped_coinbase, wrap_stripped_with_segwit_witness,
}
use dinero_sv.Pool.Mapper.{
  slice, walk_stacks, has_witness, after_marker, inputs_end, outputs_end, witness_end, suffix_at,
  split_coinbase_segwit,
}
use dinero_sv.Pool.Mapper.Bytes.{inputs_bytes-append, outputs_bytes-append, stacks_bytes-append}
use dinero_sv.Pool.Mapper.Walk.{
  IsAt, IsAt-length, IsAt-append, IsAt-wrap, slice_at, read_at, TxInput, IsInput, inputs_bytes,
  stacks_bytes, walk_inputs_lem, walk_outputs_lem, walk_stacks_lem,
}

-- The inputs and outputs of a coinbase, with their counts.
abbrev pub vin : List TxInput → List ℕ
vin is = write_varint (length is) ++ inputs_bytes is []

abbrev pub vout : List CoinbaseOutput → List ℕ
vout outs = write_varint (length outs) ++ outputs_bytes outs []

abbrev pub prefix_of : List ℕ → List TxInput → List ℕ
prefix_of version is = version ++ vin is

abbrev pub IsStack : List (List ℕ) → Type 0
IsStack ss = IsU64 (length ss) × All (λ s. IsU64 (length s)) ss

-- The form with the witness.
abbrev pub broadcast : List ℕ → List ℕ → List ℕ → List ℕ → List ℕ
broadcast version mid witness locktime = version ++ (0x00 ∷ 0x01 ∷ (mid ++ (witness ++ locktime)))

pub wrap_lem :
    (version mid witness locktime : List ℕ)
    → length version ≡ 4
    → wrap_stripped_with_segwit_witness (version ++ (mid ++ locktime)) witness locktime
      ≡ some (broadcast version mid witness locktime)
unfolding wrap_stripped_with_segwit_witness
wrap_lem version mid witness locktime v =
    let a = length-append version (mid ++ locktime) in
    let b = length-append mid locktime in
    let whole = version ++ (mid ++ locktime) in
    let n : length whole - length locktime - 4 ≡ length mid = omega arith in
    let front : take 4 whole ≡ version = take_part 4 version _ v in
    let middle : drop 4 whole ≡ mid ++ locktime = drop_part 4 0 version _ v in
    let end : drop (length whole - length locktime) whole ≡ locktime =
      ap (λ k. drop k whole) (omega (arith, a, b, v))
      ∙ drop_part 4 (length mid) version _ v
      ∙ drop-append_length mid locktime in
    rw
      (
        ge→ltb (length whole) (4 + length locktime) (omega arith),
        front,
        middle,
        end,
        n,
        append-nil locktime,
      )
      (rw (take-append_length mid locktime) refl)

marked_at : (pre post : List ℕ) → length pre ≡ 4 → has_witness (pre ++ (0x00 ∷ 0x01 ∷ post)) ≡ true
unfolding has_witness
marked_at pre post e =
    let whole = pre ++ (0x00 ∷ 0x01 ∷ post) in
    let marker : get_elem? whole 4 ≡ some 0x00 =
      ap (get_elem? whole) (sym e) ∙ get_elem?-append pre (0x01 ∷ post) 0x00 in
    let five : length (pre ++ (0x00 ∷ [])) ≡ 5 = omega (arith, e, length-append pre (0x00 ∷ [])) in
    let flag : get_elem? whole 5 ≡ some 0x01 =
      ap (λ b. get_elem? b 5) (sym (append_assoc pre (0x00 ∷ []) (0x01 ∷ post)))
      ∙ ap (get_elem? ((pre ++ (0x00 ∷ [])) ++ (0x01 ∷ post))) (sym five)
      ∙ get_elem?-append (pre ++ (0x00 ∷ [])) post 0x01 in
    rw (marker, has_witness) (rw flag refl)

module _ (version : List ℕ) (is : List TxInput) (outs : List CoinbaseOutput)
    (witness : List (List (List ℕ))) (locktime : List ℕ) (v : length version ≡ 4)
    (l : length locktime ≡ 4) (his : All IsInput is)
    (hos : All (λ o. IsU64 (length o.script_pubkey)) outs) (hws : All IsStack witness)
    (ci : IsU64 (length is)) (co : IsU64 (length outs)) (nw : length witness ≡ length is) where
  -- The coinbase in a block.
  abbrev pub buf : List ℕ
  buf = broadcast version (vin is ++ vout outs) (stacks_bytes witness []) locktime

  pub marked : has_witness buf ≡ true
  marked = marked_at version _ v

  unfoldable pub after_inputs : List ℕ
  after_inputs = vout outs ++ (stacks_bytes witness [] ++ locktime)

  pub after_inputs_lem :
      after_inputs
      ≡ write_varint (length outs) ++ outputs_bytes outs (stacks_bytes witness [] ++ locktime)
  unfolding after_inputs
  after_inputs_lem =
      append_assoc (write_varint (length outs)) _ _
      ∙ ap (λ b. write_varint (length outs) ++ b)
          (sym (outputs_bytes-append outs (stacks_bytes witness [] ++ locktime)))

  module _ (small : IsU64 (length buf)) where
    IsAt-inputs : IsAt buf 6 (vin is ++ after_inputs)
    unfolding IsAt after_inputs
    IsAt-inputs =
        let tail : (vin is ++ vout outs) ++ (stacks_bytes witness [] ++ locktime)
            ≡ vin is ++ after_inputs =
          append_assoc (vin is) (vout outs) _ in
        let same : buf ≡ (version ++ (0x00 ∷ 0x01 ∷ [])) ++ (vin is ++ after_inputs) =
          ap (λ l. version ++ (0x00 ∷ 0x01 ∷ l)) tail
          ∙ sym (append_assoc version (0x00 ∷ 0x01 ∷ []) _) in
        (
          version ++ (0x00 ∷ 0x01 ∷ []),
          same,
          omega (arith, v, length-append version (0x00 ∷ 0x01 ∷ [])),
        )

    pub IsAt-counted : IsAt buf 6 (write_varint (length is) ++ inputs_bytes is after_inputs)
    IsAt-counted =
        subst (IsAt buf 6)
          (append_assoc (write_varint (length is)) _ _
            ∙ ap (λ l. write_varint (length is) ++ l) (sym (inputs_bytes-append is after_inputs)))
          IsAt-inputs

    inputs_end_lem : (c : ℕ) × (inputs_end buf ≡ ok (length is, c)) × IsAt buf c after_inputs
    unfolding inputs_end after_marker
    inputs_end_lem =
        let one = IsAt-wrap buf small 6 (write_varint (length is)) _ IsAt-counted in
        let (c, e, two) = walk_inputs_lem buf small _ is after_inputs his one in
        (c, rw marked (rw (read_at buf small 6 (length is) _ ci IsAt-counted, e) refl), two)

    outputs_end_lem :
        (cur : ℕ)
        → IsAt buf cur after_inputs
        → (c : ℕ) × (outputs_end buf cur ≡ ok c) × IsAt buf c (stacks_bytes witness [] ++ locktime)
    unfolding outputs_end
    outputs_end_lem cur h =
        let rest = stacks_bytes witness [] ++ locktime in
        let at = subst (IsAt buf cur) after_inputs_lem h in
        let one = IsAt-wrap buf small cur (write_varint (length outs)) _ at in
        let (c, e, two) = walk_outputs_lem buf small _ outs rest hos one in
        (c, rw (read_at buf small cur (length outs) _ co at) e, two)

    witness_end_lem :
        (cur : ℕ)
        → IsAt buf cur (stacks_bytes witness [] ++ locktime)
        → (c : ℕ) × (witness_end buf cur (length is) ≡ ok c) × IsAt buf c locktime
    unfolding witness_end
    witness_end_lem cur h =
        let at = subst (IsAt buf cur) (sym (stacks_bytes-append witness locktime)) h in
        let (c, e, two) = walk_stacks_lem buf small cur witness locktime hws at in
        (c, rw marked (ap (walk_stacks buf cur) (sym nw) ∙ e), two)

    suffix_at_lem :
        (cur : ℕ) (p w : List ℕ)
        → IsAt buf cur locktime
        → suffix_at buf cur p w ≡ some (ok (p, locktime, w))
    unfolding suffix_at
    suffix_at_lem cur p w h =
        let whole : (cur + 4 == length buf) ≡ true =
          ap (λ k. cur + k == length buf) (sym l)
          ∙ ap (λ k. k == length buf) (sym (IsAt-length buf cur locktime h))
          ∙ ==_refl (length buf) in
        let at = subst (IsAt buf cur) (sym (append-nil locktime)) h in
        let last = subst (λ k. IsAt buf (cur + k) []) l (IsAt-append buf cur locktime [] at) in
        rw whole (rw (slice_at buf cur (cur + 4) locktime [] at last) refl)

    split_lem :
        split_coinbase_segwit buf
        ≡ some (ok (prefix_of version is, locktime, stacks_bytes witness []))
    unfolding split_coinbase_segwit after_marker after_inputs IsAt
    split_lem =
        let (a, ea, ha) = inputs_end_lem in
        let (b, eb, hb) = outputs_end_lem a ha in
        let (c, ec, hc) = witness_end_lem b hb in
        let four_bytes : slice buf 0 4 ≡ some version =
          slice_at buf 0 4 version _ ([], refl, refl) (version, refl, v) in
        let inputs : slice buf (after_marker buf) a ≡ some (vin is) =
          rw marked (slice_at buf 6 a (vin is) after_inputs IsAt-inputs ha) in
        let stacks = slice_at buf b c (stacks_bytes witness []) locktime hb hc in
        rw ea (rw (four_bytes, inputs) (rw eb (rw ec (rw stacks (suffix_at_lem c _ _ hc)))))

  pub assembled :
      assemble_stripped_coinbase (prefix_of version is) outs locktime
      ≡ version ++ ((vin is ++ vout outs) ++ locktime)
  unfolding assemble_stripped_coinbase
  assembled =
      let tail : write_varint (length outs) ++ outputs_bytes outs locktime ≡ vout outs ++ locktime =
        ap (λ b. write_varint (length outs) ++ b) (outputs_bytes-append outs locktime)
        ∙ sym (append_assoc (write_varint (length outs)) _ locktime) in
      append_assoc version (vin is) _
      ∙ ap (λ b. version ++ (vin is ++ b)) tail
      ∙ ap (λ b. version ++ b) (sym (append_assoc (vin is) (vout outs) locktime))

  pub length-buf :
      length buf
      ≡ length (assemble_stripped_coinbase (prefix_of version is) outs locktime)
        + length (stacks_bytes witness [])
        + 2
  length-buf =
      let mid = vin is ++ vout outs in
      let w = stacks_bytes witness [] in
      let a = ap length assembled in
      let b = length-append version (mid ++ locktime) in
      let c = length-append mid locktime in
      let d = length-append version (0x00 ∷ 0x01 ∷ (mid ++ (w ++ locktime))) in
      let e = length-append mid (w ++ locktime) in let f = length-append w locktime in omega arith

  -- A coinbase assembled from a prefix of the version and the inputs, from outputs and a lock time,
  -- and wrapped with one witness stack for each input, is taken apart into that prefix, the lock
  -- time and the bytes of those stacks, where its length fits a `u64`.
  pub split_coinbase_segwit-wrap :
      IsU64 (
        length (assemble_stripped_coinbase (prefix_of version is) outs locktime)
        + length (stacks_bytes witness [])
        + 2)
      → (full : List ℕ) × (wrap_stripped_with_segwit_witness
            (assemble_stripped_coinbase (prefix_of version is) outs locktime)
            (stacks_bytes witness [])
            locktime
          ≡ some full)
        × (split_coinbase_segwit full
            ≡ some (ok (prefix_of version is, locktime, stacks_bytes witness [])))
  split_coinbase_segwit-wrap small = (
    buf,
    ap (λ s. wrap_stripped_with_segwit_witness s (stacks_bytes witness []) locktime) assembled
        ∙ wrap_lem version (vin is ++ vout outs) (stacks_bytes witness []) locktime v,
    split_lem (subst IsU64 (sym length-buf) small),
  )
