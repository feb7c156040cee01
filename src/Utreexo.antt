-- ===== src/Utreexo.antt =====
-- The Utreexo accumulator (crates/dinero-sv2-jd/src/utreexo.rs). A method with `&mut self` answers
-- with its result and the state that it leaves behind. SHA-256, of a third-party crate, is a
-- parameter.
pub mod Slots
pub mod Trees
pub mod Leaf
pub mod Commitment
pub mod Positions
use dinero_sv.Base.{
  ℕ, zero, suc, ◌+◌, ◌-◌, ◌/◌, ◌%◌, ◌^◌, String, List, [], ◌∷◌, ◌++◌, Option, none, some, Result,
  ok, err, length, take, drop, get_or, ltb, leb, ◌==◌, if◌then◌else◌, Bool, true, false,
}
use dinero_sv.Words.{u64_max, wrap64}
use dinero_sv.Wire.Bytes.{to_le}

abbrev pub Hash : Type 0
Hash = List ℕ

pub record UtreexoAccumulatorState : Type 0 where
  pub forest_roots : List Hash
  pub num_leaves : ℕ

pub data UtreexoError : Type 0 where
  root_count_mismatch : ℕ → ℕ → ℕ → UtreexoError
  num_leaves_overflow : ℕ → ℕ → UtreexoError
  position_out_of_range : ℕ → ℕ → UtreexoError
  root_index_out_of_bounds : String → ℕ → ℕ → ℕ → UtreexoError

abbrev pub node_domain_tag : List ℕ
node_domain_tag =
    (b'D' ∷ b'I' ∷ b'N' ∷ b'E' ∷ b'R' ∷ b'O' ∷ b'-' ∷ b'U' ∷ b'T' ∷ b'R' ∷ b'E' ∷ b'E' ∷ b'X' ∷ b'O'
      ∷ b'-' ∷ b'N' ∷ b'O' ∷ b'D' ∷ b'E' ∷ b'-' ∷ b'v' ∷ b'1' ∷ [])

-- `(n >> level) & 1 == 1`
unfoldable pub bit : ℕ → ℕ → Bool
bit n level = n / 2 ^ level % 2 == 1

-- The ones among the lowest `width` bits.
unfoldable pub ones : ℕ → ℕ → ℕ
ones zero n = 0
ones (suc width) n = n % 2 + ones width (n / 2)

abbrev pub count_ones : ℕ → ℕ
count_ones n = ones 64 n

-- The mask `(1 << level) - 1` keeps the bits below `level`.
unfoldable pub count_ones_below : ℕ → ℕ → ℕ
count_ones_below n level = if leb 64 level then count_ones n else count_ones (n % 2 ^ level)

-- `n &= !(1 << level)` and `n |= 1 << level`
unfoldable pub clear_bit : ℕ → ℕ → ℕ
clear_bit n level = if bit n level then n - 2 ^ level else n

unfoldable pub set_bit : ℕ → ℕ → ℕ
set_bit n level = if bit n level then n else n + 2 ^ level

abbrev pub empty : UtreexoAccumulatorState
empty = record { forest_roots = []; num_leaves = 0 }

unfoldable pub validate : UtreexoAccumulatorState → Result UtreexoError (Unit {0})
validate state =
    let popcount = count_ones state.num_leaves in
    if length state.forest_roots == popcount
    then ok tt
    else err (root_count_mismatch (length state.forest_roots) state.num_leaves popcount)

-- `Vec::insert`
unfoldable pub insert_at : ℕ → Hash → List Hash → List Hash
insert_at idx root roots = take idx roots ++ (root ∷ drop idx roots)

-- `Vec::remove`, without what it returns.
unfoldable pub remove_at : ℕ → List Hash → List Hash
remove_at idx roots = take idx roots ++ drop (suc idx) roots

abbrev pub Method : Type 0 → Type 0
Method A = Result UtreexoError A × UtreexoAccumulatorState

-- A method that may end in a panic.
abbrev pub Run : Type 0 → Type 0
Run A = Option (Method A)

-- `method()?` and what follows it.
abbrev pub continue : {A B : Type 0} → Method A → (A → UtreexoAccumulatorState → Run B) → Run B
continue (ok a, s) f = f a s
continue (err e, s) f = some (err e, s)

unfoldable pub pop_root_at_level : UtreexoAccumulatorState → ℕ → Method Hash
pop_root_at_level state level =
    let idx = count_ones_below state.num_leaves level in
    if leb (length state.forest_roots) idx
    then (err (root_index_out_of_bounds "remove" level idx (length state.forest_roots)), state)
    else (
      ok (get_or state.forest_roots idx []),
      record state { forest_roots = remove_at idx state.forest_roots },
    )

unfoldable pub insert_root_at_level : UtreexoAccumulatorState → ℕ → Hash → Method (Unit {0})
insert_root_at_level state level root =
    let idx = count_ones_below state.num_leaves level in
    if ltb (length state.forest_roots) idx
    then (err (root_index_out_of_bounds "insert" level idx (length state.forest_roots)), state)
    else (ok tt, record state { forest_roots = insert_at idx root state.forest_roots })

module _ (sha256 : List ℕ → Hash) where
  unfoldable pub node_hash : Hash → Hash → Hash
  node_hash left right = sha256 (node_domain_tag ++ (left ++ right))

  -- The end of `add_leaf`, after its loop.
  unfoldable pub place_carry : UtreexoAccumulatorState → ℕ → Hash → Run (Unit {0})
  place_carry state level carry =
      continue (insert_root_at_level state level carry)
        λ _ s. some (ok tt, record s { num_leaves = set_bit s.num_leaves level })

  -- The loop of `add_leaf`, and what follows it. It climbs one level in a round, so that 64 rounds
  -- pass the width of the word; `none` is a shift by that width.
  unfoldable pub add_leaf_loop : ℕ → UtreexoAccumulatorState → ℕ → Hash → Run (Unit {0})
  add_leaf_loop zero state level carry = none
  add_leaf_loop (suc rounds) state level carry = elim (bit state.num_leaves level) [
    | false ↦ place_carry state level carry
    | true ↦ continue (pop_root_at_level state level) λ existing s.
        add_leaf_loop rounds (record s { num_leaves = clear_bit s.num_leaves level }) (suc level)
          (node_hash existing carry)
  ]

  unfoldable pub add_leaf : UtreexoAccumulatorState → Hash → Run (Unit {0})
  add_leaf state leaf = elim (validate state) [
    | err e ↦ some (err e, state)
    | ok _ ↦
        if state.num_leaves == u64_max
        then some (err (num_leaves_overflow state.num_leaves 1), state)
        else add_leaf_loop 64 state 0 leaf
  ]

  -- The loop of `add_leaves`.
  unfoldable pub add_each : UtreexoAccumulatorState → List Hash → Run (Unit {0})
  add_each state [] = some (ok tt, state)
  add_each state (l ∷ ls) = elim (add_leaf state l) [
    | none ↦ none
    | some m ↦ continue m λ _ s. add_each s ls
  ]

  unfoldable pub add_leaves : UtreexoAccumulatorState → List Hash → Run (Unit {0})
  add_leaves state leaves =
      if ltb (u64_max - state.num_leaves) (length leaves)
      then some (err (num_leaves_overflow state.num_leaves (length leaves)), state)
      else add_each state leaves
