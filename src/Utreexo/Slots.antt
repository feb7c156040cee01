-- ===== src/Utreexo/Slots.antt =====
-- The accumulator as a binary counter: one slot for each level, empty or with a root. Adding a leaf
-- is an increment whose carries are hashes.
use dinero_sv.Base.{
  ℕ, zero, suc, ◌+◌, ◌-◌, ◌*◌, ◌/◌, ◌%◌, ◌^◌, ◌≡◌, ◌<◌, refl, sym, ap, subst, ◌∙◌, arith, List, [],
  ◌∷◌, Option, none, some, ok, length, ltb, leb, ◌==◌, ==→eq, ==_refl, Bool-cases, inl, inr, true,
  false,
}
use native.Mathlib.Nat.{one-le-pow, mul-mod_right, mul-div_cancel_left, pow-suc}
use dinero_sv.Words.{u64_max}
use dinero_sv.Utreexo.{
  Hash, UtreexoAccumulatorState, bit, ones, count_ones_below, clear_bit, set_bit, validate,
  insert_at, remove_at, pop_root_at_level, insert_root_at_level, node_hash, place_carry,
  add_leaf_loop, add_leaf,
}

abbrev pub Slots : Type 0
Slots = List (Option Hash)

unfoldable pub roots : Slots → List Hash
roots [] = []
roots (none ∷ s) = roots s
roots (some r ∷ s) = r ∷ roots s

unfoldable pub number : Slots → ℕ
number [] = 0
number (none ∷ s) = 2 * number s
number (some r ∷ s) = 1 + 2 * number s

unfoldable pub state_of : Slots → UtreexoAccumulatorState
state_of s = record { forest_roots = roots s; num_leaves = number s }

module _ (sha256 : List ℕ → Hash) where
  unfoldable pub increment : Slots → Hash → Slots
  increment [] c = some c ∷ []
  increment (none ∷ s) c = some c ∷ s
  increment (some r ∷ s) c = none ∷ increment s (node_hash sha256 r c)

  pub number-increment : (s : Slots) (c : Hash) → number (increment s c) ≡ suc (number s)
  unfolding increment number
  number-increment [] c = refl
  number-increment (none ∷ s) c = omega arith
  number-increment (some r ∷ s) c = omega (arith, number-increment s (node_hash sha256 r c))

pub number_zero : (s : Slots) → number s ≡ 0 → roots s ≡ []
unfolding number roots
number_zero [] h = refl
number_zero (none ∷ s) h = number_zero s (omega arith)
number_zero (some r ∷ s) h = absurd (omega arith)

ones-number :
    (width : ℕ) (s : Slots) → number s < 2 ^ width → ones width (number s) ≡ length (roots s)
unfolding ones number roots
ones-number zero s h = rw (number_zero s (omega arith)) refl
ones-number (suc width) [] h = ones_zero width
  where
    ones_zero : (w : ℕ) → 0 + ones w 0 ≡ 0
    ones_zero zero = refl
    ones_zero (suc w) = ap (λ n. 0 + n) (ones_zero w)
ones-number (suc width) (none ∷ s) h =
    let fits : number s < 2 ^ width = omega (arith, pow-suc 2 width) in
    let half : 2 * number s / 2 ≡ number s = omega arith in
    rw half (omega (arith, ones-number width s fits))
ones-number (suc width) (some r ∷ s) h =
    let fits : number s < 2 ^ width = omega (arith, pow-suc 2 width) in
    let half : (1 + 2 * number s) / 2 ≡ number s = omega arith in
    rw half (omega (arith, ones-number width s fits))

pub validate_slots : (s : Slots) → number s < 2 ^ 64 → validate (state_of s) ≡ ok tt
unfolding validate state_of
validate_slots s h = rw (ones-number 64 s h, ==_refl (length (roots s))) refl

pow_pos : (k : ℕ) → 0 < 2 ^ k
pow_pos k = one-le-pow k 2 (omega arith)

-- Nothing stands below the level that the counter has climbed to.
below_level : (k m : ℕ) → k < 64 → count_ones_below (2 ^ k * m) k ≡ 0
unfolding count_ones_below ones
below_level k m h =
    let small : leb 64 k ≡ false = ground arith in rw (small, mul-mod_right (2 ^ k) m) refl

bit_level : (k m : ℕ) → bit (2 ^ k * m) k ≡ (m % 2 == 1)
unfolding bit
bit_level k m = ap (λ n. n % 2 == 1) (mul-div_cancel_left m (pow_pos k))

bit_even : (k m : ℕ) → bit (2 ^ k * (2 * m)) k ≡ false
bit_even k m = bit_level k (2 * m) ∙ ground arith

bit_odd : (k m : ℕ) → bit (2 ^ k * (1 + 2 * m)) k ≡ true
bit_odd k m = bit_level k (1 + 2 * m) ∙ ground arith

-- The state of a counter whose lowest slot stands at level `k`.
abbrev at_level : ℕ → Slots → UtreexoAccumulatorState
at_level k s = record { forest_roots = roots s; num_leaves = 2 ^ k * number s }

pop_lem :
    (k : ℕ) (r : Hash) (s : Slots)
    → k < 64
    → pop_root_at_level (at_level k (some r ∷ s)) k
      ≡ (ok r, record { forest_roots = roots s; num_leaves = 2 ^ k * (1 + 2 * number s) })
unfolding pop_root_at_level roots number remove_at
pop_lem k r s h =
    let there : leb (suc (length (roots s))) 0 ≡ false = ground arith in
    rw (below_level k (1 + 2 * number s) h, there) refl

insert_lem :
    (k m : ℕ) (rs : List Hash) (c : Hash)
    → k < 64
    → insert_root_at_level (record { forest_roots = rs; num_leaves = 2 ^ k * (2 * m) }) k c
      ≡ (ok tt, record { forest_roots = c ∷ rs; num_leaves = 2 ^ k * (2 * m) })
unfolding insert_root_at_level insert_at
insert_lem k m rs c h =
    let fits : ltb (length rs) 0 ≡ false = ground arith in rw (below_level k (2 * m) h, fits) refl

module _ (sha256 : List ℕ → Hash) where
  place_lem :
      (k m : ℕ) (rs : List Hash) (c : Hash)
      → k < 64
      → place_carry sha256 (record { forest_roots = rs; num_leaves = 2 ^ k * (2 * m) }) k c
        ≡ some (ok tt, record { forest_roots = c ∷ rs; num_leaves = 2 ^ k * (1 + 2 * m) })
  unfolding place_carry set_bit
  place_lem k m rs c h =
      let sum : 2 ^ k * (2 * m) + 2 ^ k ≡ 2 ^ k * (1 + 2 * m) = omega arith in
      rw (insert_lem k m rs c h) (rw (bit_even k m, sum) refl)

  add_leaf_loop_lem :
      (rounds k : ℕ) (s : Slots) (c : Hash)
      → rounds + k ≡ 64
      → 2 ^ k * suc (number s) < 2 ^ 64
      → add_leaf_loop sha256 rounds (at_level k s) k c
        ≡ some (ok tt, at_level k (increment sha256 s c))
  unfolding add_leaf_loop number roots increment clear_bit
  add_leaf_loop_lem zero k s c e h =
      let top : k ≡ 64 = omega arith in
      let h' : 2 ^ 64 * suc (number s) < 2 ^ 64 =
        subst (λ j. 2 ^ j * suc (number s) < 2 ^ 64) top h in
      absurd (omega (arith, h'))
  add_leaf_loop_lem (suc rounds) k [] c e h =
      rw (bit_even k 0, add_leaf_loop) (rw (place_lem k 0 [] c (omega arith)) refl)
  add_leaf_loop_lem (suc rounds) k (none ∷ s) c e h =
      rw (bit_even k (number s), add_leaf_loop)
        (rw (place_lem k (number s) (roots s) c (omega arith)) refl)
  add_leaf_loop_lem (suc rounds) k (some r ∷ s) c e h =
      let up : 2 ^ k * 2 ≡ 2 ^ suc k = sym (pow-suc 2 k) in
      let cleared : 2 ^ k * (1 + 2 * number s) - 2 ^ k ≡ 2 ^ suc k * number s =
        rw (pow-suc 2 k) (omega arith) in
      let fits : 2 ^ suc k * suc (number s) < 2 ^ 64 = omega (arith, up) in
      let t = increment sha256 s (node_hash sha256 r c) in
      let lifted : 2 ^ suc k * number t ≡ 2 ^ k * (2 * number t) = rw (pow-suc 2 k) (omega arith) in
      let ih = add_leaf_loop_lem rounds (suc k) s (node_hash sha256 r c) (omega arith) fits in
      rw (bit_odd k (number s), add_leaf_loop)
        (rw (pop_lem k r s (omega arith)) (
          rw (bit_odd k (number s), cleared)
            (ih
              ∙ ap (λ n. some (ok tt, record { forest_roots = roots t; num_leaves = n })) lifted)))

  -- `add_leaf` increments the counter while it has room.
  pub add_leaf-increment :
      (s : Slots) (leaf : Hash)
      → number s < u64_max
      → add_leaf sha256 (state_of s) leaf ≡ some (ok tt, state_of (increment sha256 s leaf))
  unfolding add_leaf state_of
  add_leaf-increment s leaf h =
      let room : (number s == u64_max) ≡ false = ground arith in
      let one : 1 * number s ≡ number s = omega arith in
      let one' : 1 * number (increment sha256 s leaf) ≡ number (increment sha256 s leaf) =
        omega arith in
      rw (validate_slots s (omega arith), room, add_leaf)
        (subst
          (λ n.
            add_leaf_loop sha256 64 (record { forest_roots = roots s; num_leaves = n }) 0 leaf
            ≡ some (ok tt, state_of (increment sha256 s leaf)))
          one
          (add_leaf_loop_lem 64 0 s leaf (omega arith) (omega arith)
            ∙ ap
                (λ n. some (
                  ok tt,
                  record { forest_roots = roots (increment sha256 s leaf); num_leaves = n },
                ))
                one'))

slots_exist :
    (width n : ℕ) (rs : List Hash)
    → n < 2 ^ width
    → length rs ≡ ones width n
    → (s : Slots) × (roots s ≡ rs) × (number s ≡ n)
unfolding roots number ones
slots_exist zero n [] w h = ([], refl, omega arith)
slots_exist zero n (r ∷ rs) w h = absurd (omega arith)
slots_exist (suc width) n [] w h =
    let (s, a, b) = slots_exist width (n / 2) [] (omega (arith, pow-suc 2 width)) (omega arith) in
    (none ∷ s, a, omega arith)
slots_exist (suc width) n (r ∷ rs) w h = elim (Bool-cases (n % 2 == 0)) [
  | inl y ↦
      let even : n % 2 ≡ 0 = ==→eq (n % 2) 0 y in
      let (s, a, b) =
        slots_exist width (n / 2) (r ∷ rs) (omega (arith, pow-suc 2 width)) (omega arith) in
      (none ∷ s, a, omega arith)
  | inr z ↦
      let odd : n % 2 ≡ 1 = ground arith in
      let (s, a, b) = slots_exist width (n / 2) rs (omega (arith, pow-suc 2 width)) (omega arith) in
      (some r ∷ s, ap (λ l. r ∷ l) a, omega arith)
]

-- Every valid state is that of some counter.
pub validate-slots :
    (state : UtreexoAccumulatorState)
    → state.num_leaves < 2 ^ 64
    → validate state ≡ ok tt
    → (s : Slots) × (state_of s ≡ state)
unfolding validate state_of
validate-slots state w h =
    let fits : length state.forest_roots ≡ ones 64 state.num_leaves = ground arith in
    let (s, a, b) = slots_exist 64 state.num_leaves state.forest_roots w fits in (s, cc (a, b))

-- Adding a leaf to a valid state that has room for it succeeds, whatever the hash function: no index
-- of a root is out of bounds, and the state left behind is valid and counts one leaf more.
pub add_leaf-validate :
    (sha256 : List ℕ → Hash) (state : UtreexoAccumulatorState) (leaf : Hash)
    → state.num_leaves < u64_max
    → validate state ≡ ok tt
    → (next : UtreexoAccumulatorState) × (add_leaf sha256 state leaf ≡ some (ok tt, next))
      × (validate next ≡ ok tt)
      × (next.num_leaves ≡ suc state.num_leaves)
unfolding state_of
add_leaf-validate sha256 state leaf w h =
    let (s, e) = validate-slots state (omega arith) h in
    let n : number s ≡ state.num_leaves = ap (λ (t : UtreexoAccumulatorState). t.num_leaves) e in
    let more = number-increment sha256 s leaf in
    (
      state_of (increment sha256 s leaf),
      ap (λ t. add_leaf sha256 t leaf) (sym e)
          ∙ add_leaf-increment sha256 s leaf (omega (arith, n)),
      validate_slots (increment sha256 s leaf) (omega (arith, n, more)),
      more ∙ ap suc n,
    )
