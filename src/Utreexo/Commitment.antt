-- ===== src/Utreexo/Commitment.antt =====
-- The commitment to the forest that the header carries (`commitment` of
-- crates/dinero-sv2-jd/src/utreexo.rs), in terms of the slots of the binary counter.
use dinero_sv.Base.{
  ℕ, zero, suc, ◌+◌, ◌*◌, ◌/◌, ◌%◌, ◌^◌, ◌≡◌, ◌<◌, refl, sym, ap, subst, ◌∙◌, arith, List, [], ◌∷◌,
  ◌++◌, none, some, Result, ok, err, and_then, ok_inj, append-nil, append_assoc, length,
  length-append, drop, All, get_or, append_inj, append_cancel, replicate, leb, ◌==◌, if◌then◌else◌,
  true, false,
}
use native.Mathlib.Nat.{pow-suc, div-div-eq-div-mul}
use dinero_sv.Wire.Bytes.{to_le, from_le, from_le-to_le, length-to_le}
use dinero_sv.Utreexo.{
  Hash, UtreexoAccumulatorState, UtreexoError, root_count_mismatch, bit, count_ones, validate,
}
use dinero_sv.Utreexo.Slots.{
  Slots, roots, number, number_zero, state_of, validate_slots, validate-slots,
}

-- The bytes of the slot of height `h`, and the next root.
unfoldable pub slot_at : UtreexoAccumulatorState → ℕ → ℕ → Result UtreexoError (List ℕ × ℕ)
slot_at state h next_root =
    if bit state.num_leaves h
    then if leb (length state.forest_roots) next_root
      then err (
          root_count_mismatch (length state.forest_roots) state.num_leaves
            (count_ones state.num_leaves))
      else ok (get_or state.forest_roots next_root [], suc next_root)
    else ok (replicate 32 0, next_root)

-- The loop over the heights from `h` on, `count` of them.
unfoldable pub fill_slots :
    ℕ → UtreexoAccumulatorState → ℕ → ℕ → List ℕ → Result UtreexoError (List ℕ)
fill_slots zero state h next_root preimage = ok preimage
fill_slots (suc count) state h next_root preimage =
    and_then (slot_at state h next_root)
      λ slot. fill_slots count state (suc h) slot.1 (preimage ++ slot.0)

unfoldable pub commitment_preimage : UtreexoAccumulatorState → Result UtreexoError (List ℕ)
commitment_preimage state =
    and_then (validate state) λ _. fill_slots 64 state 0 0 (to_le 8 state.num_leaves)

unfoldable pub commitment : (List ℕ → Hash) → UtreexoAccumulatorState → Result UtreexoError Hash
commitment sha256 state = and_then (commitment_preimage state) λ preimage. ok (sha256 preimage)

abbrev zeros : Hash
zeros = replicate 32 0

-- What the first slots hold.
unfoldable slot_bytes : ℕ → Slots → List ℕ
slot_bytes zero s = []
slot_bytes (suc count) [] = zeros ++ slot_bytes count []
slot_bytes (suc count) (none ∷ s) = zeros ++ slot_bytes count s
slot_bytes (suc count) (some r ∷ s) = r ++ slot_bytes count s

-- The counter whose lowest slot stands at height `h`, and whose first root is the next one.
abbrev IsAt : UtreexoAccumulatorState → ℕ → ℕ → Slots → Type 0
IsAt state h next s =
    (state.num_leaves / 2 ^ h ≡ number s) × (drop next state.forest_roots ≡ roots s)

up : (n h m : ℕ) → n / 2 ^ h ≡ m → n / 2 ^ suc h ≡ m / 2
up n h m e = rw (pow-suc 2 h) (sym (div-div-eq-div-mul n (2 ^ h) 2) ∙ ap (λ k. k / 2) e)

drop_some :
    (xs rest : List Hash) (r : Hash) (i : ℕ)
    → drop i xs ≡ r ∷ rest
    → (leb (length xs) i ≡ false) × (get_or xs i [] ≡ r) × (drop (suc i) xs ≡ rest)
drop_some [] rest r zero e = absurd (cc e)
drop_some [] rest r (suc i) e = absurd (cc e)
drop_some (x ∷ xs) rest r zero e = (ground arith, cc e, cc e)
drop_some (x ∷ xs) rest r (suc i) e =
    let (a, b, c) = drop_some xs rest r i e in (ground arith, b, c)

slot_none :
    (state : UtreexoAccumulatorState) (h next m : ℕ)
    → state.num_leaves / 2 ^ h ≡ 2 * m
    → slot_at state h next ≡ ok (zeros, next)
unfolding slot_at bit
slot_none state h next m e = let even : (2 * m % 2 == 1) ≡ false = ground arith in rw (e, even) refl

slot_some :
    (state : UtreexoAccumulatorState) (h next : ℕ) (r : Hash) (m : ℕ)
    → state.num_leaves / 2 ^ h ≡ 1 + 2 * m
    → leb (length state.forest_roots) next ≡ false
    → get_or state.forest_roots next [] ≡ r
    → slot_at state h next ≡ ok (r, suc next)
unfolding slot_at bit
slot_some state h next r m e within here =
    let odd : ((1 + 2 * m) % 2 == 1) ≡ true = ground arith in rw (e, odd) (rw (within, here) refl)

fill_slots_lem :
    (count h next : ℕ) (state : UtreexoAccumulatorState) (s : Slots) (preimage : List ℕ)
    → IsAt state h next s
    → fill_slots count state h next preimage ≡ ok (preimage ++ slot_bytes count s)
unfolding fill_slots slot_bytes number roots
fill_slots_lem zero h next state s preimage at = ap ok (sym (append-nil preimage))
fill_slots_lem (suc count) h next state [] preimage (n, r) = rw (slot_none state h next 0 n) (
    fill_slots_lem count (suc h) next state [] (preimage ++ zeros) (up state.num_leaves h 0 n, r)
    ∙ ap ok (append_assoc preimage zeros (slot_bytes count [])))
fill_slots_lem (suc count) h next state (none ∷ s) preimage (n, r) =
    let half : 2 * number s / 2 ≡ number s = omega arith in
    rw (slot_none state h next (number s) n) (
      fill_slots_lem count (suc h) next state s (preimage ++ zeros)
        (up state.num_leaves h (2 * number s) n ∙ half, r)
      ∙ ap ok (append_assoc preimage zeros (slot_bytes count s)))
fill_slots_lem (suc count) h next state (some x ∷ s) preimage (n, r) =
    let half : (1 + 2 * number s) / 2 ≡ number s = omega arith in
    let (within, here, rest) = drop_some state.forest_roots (roots s) x next r in
    rw (slot_some state h next x (number s) n within here) (
      fill_slots_lem count (suc h) (suc next) state s (preimage ++ x)
        (up state.num_leaves h (1 + 2 * number s) n ∙ half, rest)
      ∙ ap ok (append_assoc preimage x (slot_bytes count s)))

same_slots :
    (count : ℕ) (s t : Slots)
    → number s ≡ number t
    → number s < 2 ^ count
    → All (λ r. length r ≡ 32) (roots s)
    → All (λ r. length r ≡ 32) (roots t)
    → slot_bytes count s ≡ slot_bytes count t
    → roots s ≡ roots t
unfolding slot_bytes number roots
same_slots zero s t n w hs ht e = number_zero s (omega arith) ∙ sym (number_zero t (omega arith))
same_slots (suc count) [] t n w hs ht e = sym (number_zero t (sym n))
same_slots (suc count) (x ∷ s) [] n w hs ht e = number_zero (x ∷ s) n
same_slots (suc count) (none ∷ s) (none ∷ t) n w hs ht e =
    same_slots count s t (omega arith) (omega (arith, pow-suc 2 count)) hs ht
      (append_cancel zeros _ _ e)
same_slots (suc count) (none ∷ s) (some r ∷ t) n w hs ht e = absurd (omega arith)
same_slots (suc count) (some r ∷ s) (none ∷ t) n w hs ht e = absurd (omega arith)
same_slots (suc count) (some r ∷ s) (some q ∷ t) n w hs ht e =
    let (a, b) = append_inj r q _ _ (hs.0 ∙ sym ht.0) e in
    let more = same_slots count s t (omega arith) (omega (arith, pow-suc 2 count)) hs.1 ht.1 b in
    cc (a, more)

length-slot_bytes :
    (count : ℕ) (s : Slots)
    → All (λ r. length r ≡ 32) (roots s)
    → length (slot_bytes count s) ≡ 32 * count
unfolding slot_bytes roots
length-slot_bytes zero s h = refl
length-slot_bytes (suc count) [] h =
    omega (arith, length-append zeros (slot_bytes count []), length-slot_bytes count [] h)
length-slot_bytes (suc count) (none ∷ s) h =
    omega (arith, length-append zeros (slot_bytes count s), length-slot_bytes count s h)
length-slot_bytes (suc count) (some r ∷ s) h =
    let a = length-append r (slot_bytes count s) in
    let b = length-slot_bytes count s h.1 in let c = h.0 in omega arith

preimage_lem :
    (s : Slots)
    → number s < 2 ^ 64
    → commitment_preimage (state_of s) ≡ ok (to_le 8 (number s) ++ slot_bytes 64 s)
unfolding commitment_preimage state_of
preimage_lem s w =
    let one : number s / 2 ^ 0 ≡ number s = omega arith in
    rw (validate_slots s w, and_then)
      (fill_slots_lem 64 0 0 (state_of s) s (to_le 8 (number s)) (one, refl))

-- A state as the daemon describes it: it passes the check, and its roots have 32 bytes each.
unfoldable pub IsAccumulator : UtreexoAccumulatorState → Type 0
IsAccumulator state =
    (state.num_leaves < 2 ^ 64)
    × (validate state ≡ ok tt)
    × All (λ r. length r ≡ 32) state.forest_roots

slots_of :
    (state : UtreexoAccumulatorState)
    → IsAccumulator state
    → (s : Slots) × (state_of s ≡ state) × (number s < 2 ^ 64) × All (λ r. length r ≡ 32) (roots s)
unfolding IsAccumulator state_of
slots_of state (w, v, h) =
    let (s, e) = validate-slots state w v in
    let n : number s ≡ state.num_leaves = ap (λ (t : UtreexoAccumulatorState). t.num_leaves) e in
    let r : roots s ≡ state.forest_roots = ap (λ (t : UtreexoAccumulatorState). t.forest_roots) e in
    (s, e, omega (arith, n), subst (All (λ q. length q ≡ 32)) (sym r) h)

same_state :
    (s t : Slots)
    → number s < 2 ^ 64
    → All (λ r. length r ≡ 32) (roots s)
    → All (λ r. length r ≡ 32) (roots t)
    → to_le 8 (number s) ++ slot_bytes 64 s ≡ to_le 8 (number t) ++ slot_bytes 64 t
    → number t < 2 ^ 64
    → state_of s ≡ state_of t
unfolding state_of
same_state s t w r q e v =
    let lengths = length-to_le 8 (number s) ∙ sym (length-to_le 8 (number t)) in
    let (a, b) = append_inj (to_le 8 (number s)) (to_le 8 (number t)) _ _ lengths e in
    let n : number s ≡ number t =
      sym (from_le-to_le 8 (number s) (omega (arith, w)))
      ∙ ap from_le a
      ∙ from_le-to_le 8 (number t) (omega (arith, v)) in
    let rs = same_slots 64 s t n w r q b in cc (n, rs)

-- The commitment to a well-formed state hashes 2,056 bytes and raises no error, whatever the hash
-- function.
pub commitment_total :
    (sha256 : List ℕ → Hash) (state : UtreexoAccumulatorState)
    → IsAccumulator state
    → (preimage : List ℕ) × (commitment sha256 state ≡ ok (sha256 preimage))
      × (length preimage ≡ 2056)
unfolding commitment
commitment_total sha256 state h =
    let (s, e, w, r) = slots_of state h in
    let a = length-append (to_le 8 (number s)) (slot_bytes 64 s) in
    let b = length-slot_bytes 64 s r in
    let c = length-to_le 8 (number s) in
    (
      to_le 8 (number s) ++ slot_bytes 64 s,
      ap (commitment sha256) (sym e) ∙ rw (preimage_lem s w) refl,
      omega (arith, a, b, c),
    )

-- Two well-formed states with one commitment are the same, unless the two byte strings that are
-- hashed for them are a collision of the hash function.
pub commitment_binds :
    (sha256 : List ℕ → Hash) (a b : UtreexoAccumulatorState)
    → IsAccumulator a
    → IsAccumulator b
    → ((x y : List ℕ)
        → commitment_preimage a ≡ ok x
        → commitment_preimage b ≡ ok y
        → sha256 x ≡ sha256 y
        → x ≡ y)
    → commitment sha256 a ≡ commitment sha256 b
    → a ≡ b
unfolding commitment
commitment_binds sha256 a b ha hb no_collision h =
    let (s, e, w, r) = slots_of a ha in
    let (t, f, v, q) = slots_of b hb in
    let x = to_le 8 (number s) ++ slot_bytes 64 s in
    let y = to_le 8 (number t) ++ slot_bytes 64 t in
    let px : commitment_preimage a ≡ ok x = ap commitment_preimage (sym e) ∙ preimage_lem s w in
    let py : commitment_preimage b ≡ ok y = ap commitment_preimage (sym f) ∙ preimage_lem t v in
    let hash : sha256 x ≡ sha256 y = ok_inj (rw (px, py, and_then) at h) in
    sym e ∙ same_state s t w r q (no_collision x y px py hash) v ∙ f
