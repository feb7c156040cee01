-- ===== src/Extranonce/Layout.antt =====
-- What the injection does to a prefix of the layout that the daemon writes.
use dinero_sv.Base.{
  ℕ, suc, ◌+◌, ◌%◌, ◌≡◌, ◌≤◌, refl, sym, ap, subst, ◌∙◌, arith, List, [], ◌∷◌, ◌++◌, ok, err,
  and_then, append-nil, append_assoc, length, length-append, take, drop, drop-drop, take_part,
  drop_part, take-append_length, drop-append_length, ltb, ◌==◌, if◌then◌else◌, ge→ltb, ltb→ge,
  ==_refl, Bool-cases, inl, inr, true,
}
use dinero_sv.Wire.Bytes.{IsU64, to_le, length-to_le}
use dinero_sv.Varint.{write_varint}
use dinero_sv.Varint.RoundTrip.{read_varint-write_varint}
use dinero_sv.Extranonce.{
  script_too_long, need, varint_at, rewrite, grow_script, find_script, inject_scriptsig_extranonce,
}

-- Version, one input with its script, and sequence.
unfoldable pub prefix_of : List ℕ → List ℕ → List ℕ → List ℕ → List ℕ
prefix_of version prevout script sequence =
    version ++ (1 ∷ (prevout ++ (write_varint (length script) ++ (script ++ sequence))))

need_fits : (p : List ℕ) (i n : ℕ) → i + n ≤ length p → need p i n ≡ ok tt
unfolding need
need_fits p i n h = rw (ge→ltb (length p) (i + n) h) refl

varint_found :
    (pre post : List ℕ) (k n : ℕ)
    → length pre ≡ k
    → IsU64 n
    → varint_at (pre ++ (write_varint n ++ post)) k ≡ ok (n, length (write_varint n))
unfolding varint_at
varint_found pre post k n e h =
    subst (λ i. varint_at (pre ++ (write_varint n ++ post)) i ≡ ok (n, length (write_varint n))) e
      (rw (read_varint-write_varint n pre post h, varint_at) refl)

write_short : (n : ℕ) → n ≤ 100 → write_varint n ≡ n % 256 ∷ []
unfolding write_varint
write_short n h = ground arith

module _ (version prevout script sequence : List ℕ) (v : length version ≡ 4)
    (o : length prevout ≡ 36) (q : length sequence ≡ 4) (small : IsU64 (length script)) where
  abbrev whole : List ℕ
  whole = prefix_of version prevout script sequence

  -- What stands before the script's length.
  abbrev front : List ℕ
  front = version ++ (1 ∷ prevout)

  length-front : length front ≡ 41
  length-front = let e = length-append version (1 ∷ prevout) in omega (arith, e, v, o)

  whole_split : whole ≡ front ++ (write_varint (length script) ++ (script ++ sequence))
  unfolding prefix_of
  whole_split =
      sym
        (append_assoc version (1 ∷ prevout) (write_varint (length script) ++ (script ++ sequence)))

  length-whole : length whole ≡ 41 + length (write_varint (length script)) + length script + 4
  length-whole =
      let a = ap length whole_split in
      let b = length-append front (write_varint (length script) ++ (script ++ sequence)) in
      let c = length-append (write_varint (length script)) (script ++ sequence) in
      let d = length-append script sequence in let e = length-front in omega arith

  varint_inputs : varint_at whole 4 ≡ ok (1, 1)
  unfolding prefix_of write_varint
  varint_inputs = varint_found version _ 4 1 v (ground arith)

  varint_script : varint_at whole 41 ≡ ok (length script, length (write_varint (length script)))
  varint_script =
      subst (λ l. varint_at l 41 ≡ ok (length script, length (write_varint (length script))))
        (sym whole_split)
        (varint_found front (script ++ sequence) 41 (length script) length-front small)

  find_script_lem :
      find_script whole ≡ ok (41, length (write_varint (length script)), length script)
  unfolding find_script
  find_script_lem =
      let l = length-whole in
      rw
        (
          need_fits whole 0 4 (omega arith),
          varint_inputs,
          need_fits whole 5 36 (omega arith),
          varint_script,
        )
        refl

  -- What stands behind the script's length.
  behind : drop (41 + length (write_varint (length script))) whole ≡ script ++ sequence
  behind =
      ap (drop (41 + length (write_varint (length script)))) whole_split
      ∙ drop_part 41 (length (write_varint (length script))) front _ length-front
      ∙ drop-append_length (write_varint (length script)) (script ++ sequence)

  take_append_script : take (length script) (script ++ sequence) ≡ script
  take_append_script = take-append_length script sequence

  rewrite_lem :
      (e : ℕ)
      → length script + 5 ≤ 100
      → rewrite whole e 41 (length (write_varint (length script))) (length script)
        ≡ prefix_of version prevout (script ++ (4 ∷ to_le 4 e)) sequence
  unfolding rewrite prefix_of
  rewrite_lem e h =
      let n = length (write_varint (length script)) in
      let grown : List ℕ = script ++ (4 ∷ to_le 4 e) in
      let short : length grown ≡ length script + 5 =
        length-append script (4 ∷ to_le 4 e) ∙ ap (λ k. length script + suc k) (length-to_le 4 e) in
      let byte : write_varint (length grown) ≡ (length script + 5) % 256 ∷ [] =
        ap write_varint short ∙ write_short (length script + 5) (omega arith) in
      let before : take 41 whole ≡ front =
        ap (take 41) whole_split ∙ take_part 41 front _ length-front in
      let old : take (length script) (drop (41 + n) whole) ≡ script =
        ap (take (length script)) behind ∙ take_append_script in
      let after : drop (41 + n + length script) whole ≡ sequence =
        drop-drop (41 + n) (length script) whole
        ∙ ap (drop (length script)) behind
        ∙ drop-append_length script sequence in
      let tail : (length script + 5) % 256 ∷ (script ++ (4 ∷ (to_le 4 e ++ sequence)))
          ≡ write_varint (length grown) ++ (grown ++ sequence) =
        ap (λ l. (length script + 5) % 256 ∷ l) (sym (append_assoc script (4 ∷ to_le 4 e) sequence))
        ∙ ap (λ w. w ++ (grown ++ sequence)) (sym byte) in
      rw (before, old, after, append-nil sequence)
        (append_assoc version (1 ∷ prevout) _ ∙ ap (λ l. version ++ (1 ∷ (prevout ++ l))) tail)

  -- On a prefix with one input whose outpoint has 36 bytes, the extranonce is appended to the
  -- script as a push of four bytes, with the script's length adapted, if the script stays within
  -- 100 bytes; else nothing but the error with its new length comes back.
  pub inject_scriptsig_extranonce_lem :
      (e : ℕ)
      → inject_scriptsig_extranonce whole e ≡ (
          if ltb 100 (length script + 5)
          then err (script_too_long (length script + 5))
          else ok (prefix_of version prevout (script ++ (4 ∷ to_le 4 e)) sequence))
  unfolding inject_scriptsig_extranonce grow_script
  inject_scriptsig_extranonce_lem e =
      let n = length (write_varint (length script)) in
      let l = length-whole in
      let end : (41 + n + length script + 4 == length whole) ≡ true =
        ap (λ k. k == length whole) (sym l) ∙ ==_refl (length whole) in
      rw (find_script_lem, and_then)
        (rw
          (
            need_fits whole (41 + n) (length script) (omega arith),
            need_fits whole (41 + n + length script) 4 (omega arith),
            end,
          )
          (elim (Bool-cases (ltb 100 (length script + 5))) [
            | inl y ↦ rw y refl
            | inr z ↦ rw (z, rewrite_lem e (ltb→ge 100 (length script + 5) z)) refl
          ]))
