-- ===== src/Utreexo/Positions.antt =====
-- Where a leaf stands in the forest (crates/dinero-sv2-jd/src/utreexo.rs): the trees are laid out
-- with the largest first. The levels of the loops are counted from 1, so that 0 is the source's -1.
use dinero_sv.Base.{
  ℕ, zero, suc, ◌+◌, ◌*◌, ◌/◌, ◌%◌, ◌^◌, ◌≡◌, ◌≤◌, ◌<◌, refl, sym, ap, ◌∙◌, arith, ltb, ◌==◌,
  if◌then◌else◌, ge→ltb, ltb→ge, lt→ltb, ltb→lt, ==→eq, ==_refl, Bool-cases, inl, inr, true, false,
}
use native.Mathlib.Nat.{pow-suc, div-div-eq-div-mul, mod-add-div}
use dinero_sv.Utreexo.{bit}

-- The highest level with a tree, counting down from `level`.
unfoldable pub max_bit : ℕ → ℕ → ℕ
max_bit num_leaves zero = zero
max_bit num_leaves (suc level) = elim (bit num_leaves level) [
  | true ↦ suc level
  | false ↦ max_bit num_leaves level
]

unfoldable pub height_loop : ℕ → ℕ → ℕ → ℕ → ℕ
height_loop num_leaves position zero offset = 0
height_loop num_leaves position (suc h) offset = elim (bit num_leaves h) [
  | false ↦ height_loop num_leaves position h offset
  | true ↦ elim (ltb position (offset + 2 ^ h)) [
    | true ↦ h
    | false ↦ height_loop num_leaves position h (offset + 2 ^ h)
  ]
]

unfoldable pub tree_height_for_position : ℕ → ℕ → ℕ
tree_height_for_position num_leaves position =
    if num_leaves == 0 then 0 else height_loop num_leaves position (max_bit num_leaves 64) 0

unfoldable pub start_loop : ℕ → ℕ → ℕ → ℕ → ℕ
start_loop num_leaves height zero offset = 0
start_loop num_leaves height (suc h) offset = elim (bit num_leaves h) [
  | false ↦ start_loop num_leaves height h offset
  | true ↦ elim (h == height) [
    | true ↦ offset
    | false ↦ start_loop num_leaves height h (offset + 2 ^ h)
  ]
]

unfoldable pub tree_start_position : ℕ → ℕ → ℕ
tree_start_position num_leaves height =
    if num_leaves == 0 then 0 else start_loop num_leaves height (max_bit num_leaves 64) 0

-- The loops pass over the levels without a tree.
height_loop-max_bit : (n p k : ℕ) → height_loop n p (max_bit n k) 0 ≡ height_loop n p k 0
unfolding height_loop max_bit
height_loop-max_bit n p zero = refl
height_loop-max_bit n p (suc k) = elim (Bool-cases (bit n k)) [
  | inl y ↦ rw (y, max_bit) (rw (y, height_loop) refl)
  | inr z ↦ rw (z, max_bit) (rw (z, height_loop) (height_loop-max_bit n p k))
]

start_loop-max_bit : (n h k : ℕ) → start_loop n h (max_bit n k) 0 ≡ start_loop n h k 0
unfolding start_loop max_bit
start_loop-max_bit n h zero = refl
start_loop-max_bit n h (suc k) = elim (Bool-cases (bit n k)) [
  | inl y ↦ rw (y, max_bit) (rw (y, start_loop) refl)
  | inr z ↦ rw (z, max_bit) (rw (z, start_loop) (start_loop-max_bit n h k))
]

low_bits : (n k : ℕ) → n % 2 ^ suc k ≡ n % 2 ^ k + 2 ^ k * (n / 2 ^ k % 2)
low_bits n k =
    let q = n / 2 ^ k in
    let whole = mod-add-div n (2 ^ k) in
    let wider = mod-add-div n (2 ^ suc k) in
    let half : n / 2 ^ suc k ≡ q / 2 =
      ap (λ d. n / d) (pow-suc 2 k) ∙ sym (div-div-eq-div-mul n (2 ^ k) 2) in
    let split : 2 ^ k * q ≡ 2 ^ k * (2 * (q / 2) + q % 2) = ap (λ d. 2 ^ k * d) (omega arith) in
    let both : 2 ^ suc k * (n / 2 ^ suc k) ≡ 2 ^ k * 2 * (q / 2) = rw (half, pow-suc 2 k) refl in
    omega (arith, whole, wider, split, both)

low_bits_set : (n k : ℕ) → bit n k ≡ true → n % 2 ^ suc k ≡ n % 2 ^ k + 2 ^ k
unfolding bit
low_bits_set n k h =
    let one : n / 2 ^ k % 2 ≡ 1 = ==→eq (n / 2 ^ k % 2) 1 h in
    low_bits n k ∙ ap (λ b. n % 2 ^ k + 2 ^ k * b) one ∙ omega arith

low_bits_clear : (n k : ℕ) → bit n k ≡ false → n % 2 ^ suc k ≡ n % 2 ^ k
unfolding bit
low_bits_clear n k h =
    let none : n / 2 ^ k % 2 ≡ 0 = ground arith in
    low_bits n k ∙ ap (λ b. n % 2 ^ k + 2 ^ k * b) none ∙ omega arith

-- The position lies in the tree of height `h` that starts at `o`.
abbrev pub IsIn : ℕ → ℕ → ℕ → ℕ → Type 0
IsIn n p h o = (bit n h ≡ true) × (o ≤ p) × (p < o + 2 ^ h)

height_clear :
    (n p k offset : ℕ) → bit n k ≡ false → height_loop n p (suc k) offset ≡ height_loop n p k offset
unfolding height_loop
height_clear n p k offset z = rw (z, height_loop) refl

height_here :
    (n p k offset : ℕ) → bit n k ≡ true → p < offset + 2 ^ k → height_loop n p (suc k) offset ≡ k
unfolding height_loop
height_here n p k offset y h = rw (y, height_loop) (rw (lt→ltb p (offset + 2 ^ k) h) refl)

height_below :
    (n p k offset : ℕ)
    → bit n k ≡ true
    → offset + 2 ^ k ≤ p
    → height_loop n p (suc k) offset ≡ height_loop n p k (offset + 2 ^ k)
unfolding height_loop
height_below n p k offset y h = rw (y, height_loop) (rw (ge→ltb p (offset + 2 ^ k) h) refl)

start_clear :
    (n h k offset : ℕ) → bit n k ≡ false → start_loop n h (suc k) offset ≡ start_loop n h k offset
unfolding start_loop
start_clear n h k offset z = rw (z, start_loop) refl

start_here : (n k offset : ℕ) → bit n k ≡ true → start_loop n k (suc k) offset ≡ offset
unfolding start_loop
start_here n k offset y = rw (y, start_loop) (rw (==_refl k) refl)

start_below :
    (n h k offset : ℕ)
    → bit n k ≡ true
    → h < k
    → start_loop n h (suc k) offset ≡ start_loop n h k (offset + 2 ^ k)
unfolding start_loop
start_below n h k offset y l =
    let other : (k == h) ≡ false = ground arith in rw (y, start_loop) (rw other refl)

loops_lem :
    (n p k offset : ℕ)
    → offset ≤ p
    → p < offset + n % 2 ^ k
    → (height_loop n p k offset < k)
      × IsIn n p (height_loop n p k offset) (start_loop n (height_loop n p k offset) k offset)
loops_lem n p zero offset a b = absurd (omega arith)
loops_lem n p (suc k) offset a b = elim (Bool-cases (bit n k)) [
  | inr z ↦
      let (l, (i, o, u)) = loops_lem n p k offset a (omega (arith, low_bits_clear n k z)) in
      rw (height_clear n p k offset z, start_clear n (height_loop n p k offset) k offset z)
        (omega arith, (i, o, u))
  | inl y ↦ elim (Bool-cases (ltb p (offset + 2 ^ k))) [
    | inl w ↦
        let here = ltb→lt p (offset + 2 ^ k) w in
        rw (height_here n p k offset y here, start_here n k offset y) (omega arith, (y, a, here))
    | inr w ↦
        let past = ltb→ge p (offset + 2 ^ k) w in
        let (l, (i, o, u)) =
          loops_lem n p k (offset + 2 ^ k) past (omega (arith, low_bits_set n k y)) in
        rw
          (
            height_below n p k offset y past,
            start_below n (height_loop n p k (offset + 2 ^ k)) k offset y l,
          )
          (omega arith, (i, o, u))
  ]
]

-- The position of a leaf that was added lies in the tree that `tree_height_for_position` finds: the
-- forest has a tree of that height, and the position is one of the 2^height behind the start that
-- `tree_start_position` gives for it.
pub tree_height_for_position_lem :
    (num_leaves position : ℕ)
    → num_leaves < 2 ^ 64
    → position < num_leaves
    → (tree_height_for_position num_leaves position < 64)
      × IsIn num_leaves position
          (tree_height_for_position num_leaves position)
          (tree_start_position num_leaves (tree_height_for_position num_leaves position))
unfolding tree_height_for_position tree_start_position
tree_height_for_position_lem num_leaves position w h =
    let some_leaf : (num_leaves == 0) ≡ false = ground arith in
    rw
      (
        some_leaf,
        height_loop-max_bit num_leaves position 64,
        start_loop-max_bit num_leaves (height_loop num_leaves position 64 0) 64,
      )
      (loops_lem num_leaves position 64 0 (omega arith) (omega arith))
