-- ===== src/Utreexo/Trees.antt =====
-- The forest behind the roots: perfect trees over the leaves in the order in which they were added,
-- the largest tree first.
use dinero_sv.Base.{
  ℕ, zero, suc, ◌+◌, ◌-◌, ◌≡◌, ◌≤◌, refl, sym, ap, ◌∙◌, arith, List, [], ◌∷◌, ◌++◌, map, Option,
  none, some, ok, append-nil, append_assoc, length, ltb, false,
}
use dinero_sv.Words.{u64_max}
use dinero_sv.Utreexo.{Hash, UtreexoAccumulatorState, node_hash, add_each, add_leaves}
use dinero_sv.Utreexo.Slots.{
  Slots, number, state_of, increment, number-increment, add_leaf-increment,
}

pub data Tree : Type 0 where
  leaf : Hash → Tree
  node : Tree → Tree → Tree

abbrev pub Forest : Type 0
Forest = List (Option Tree)

unfoldable pub leaves_of : Tree → List Hash
leaves_of (leaf h) = h ∷ []
leaves_of (node l r) = leaves_of l ++ leaves_of r

unfoldable pub leaves : Forest → List Hash
leaves [] = []
leaves (none ∷ f) = leaves f
leaves (some t ∷ f) = leaves f ++ leaves_of t

-- A tree of the given height with all its leaves at the bottom.
unfoldable pub IsPerfect : ℕ → Tree → Type 0
IsPerfect zero (leaf h) = Unit {0}
IsPerfect zero (node l r) = ⊥
IsPerfect (suc k) (leaf h) = ⊥
IsPerfect (suc k) (node l r) = IsPerfect k l × IsPerfect k r

-- The tree in the slot of a level has that height.
unfoldable pub IsForest : ℕ → Forest → Type 0
IsForest k [] = Unit {0}
IsForest k (none ∷ f) = IsForest (suc k) f
IsForest k (some t ∷ f) = IsPerfect k t × IsForest (suc k) f

unfoldable pub grow : Forest → Tree → Forest
grow [] c = some c ∷ []
grow (none ∷ f) c = some c ∷ f
grow (some t ∷ f) c = none ∷ grow f (node t c)

leaves-grow : (f : Forest) (c : Tree) → leaves (grow f c) ≡ leaves f ++ leaves_of c
unfolding leaves grow leaves_of
leaves-grow [] c = refl
leaves-grow (none ∷ f) c = refl
leaves-grow (some t ∷ f) c =
    leaves-grow f (node t c) ∙ sym (append_assoc (leaves f) (leaves_of t) (leaves_of c))

grow-IsForest :
    (k : ℕ) (f : Forest) (c : Tree) → IsForest k f → IsPerfect k c → IsForest k (grow f c)
unfolding IsForest IsPerfect grow
grow-IsForest k [] c h p = (p, tt)
grow-IsForest k (none ∷ f) c h p = (p, h)
grow-IsForest k (some t ∷ f) c h p = grow-IsForest (suc k) f (node t c) h.1 (h.0, p)

unfoldable pub grow_all : Forest → List Hash → Forest
grow_all f [] = f
grow_all f (h ∷ hs) = grow_all (grow f (leaf h)) hs

leaves-grow_all : (f : Forest) (hs : List Hash) → leaves (grow_all f hs) ≡ leaves f ++ hs
unfolding grow_all leaves_of
leaves-grow_all f [] = sym (append-nil (leaves f))
leaves-grow_all f (h ∷ hs) =
    leaves-grow_all (grow f (leaf h)) hs
    ∙ ap (λ l. l ++ hs) (leaves-grow f (leaf h))
    ∙ append_assoc (leaves f) (h ∷ []) hs

grow_all-IsForest : (f : Forest) (hs : List Hash) → IsForest 0 f → IsForest 0 (grow_all f hs)
unfolding grow_all IsPerfect
grow_all-IsForest f [] p = p
grow_all-IsForest f (h ∷ hs) p =
    grow_all-IsForest (grow f (leaf h)) hs (grow-IsForest 0 f (leaf h) p tt)

module _ (sha256 : List ℕ → Hash) where
  -- The Merkle root of a tree.
  unfoldable pub root_of : Tree → Hash
  root_of (leaf h) = h
  root_of (node l r) = node_hash sha256 (root_of l) (root_of r)

  abbrev root_slot : Option Tree → Option Hash
  root_slot none = none
  root_slot (some t) = some (root_of t)

  unfoldable pub slots : Forest → Slots
  slots f = map root_slot f

  -- The state that keeps only the roots of the forest.
  unfoldable pub state : Forest → UtreexoAccumulatorState
  state f = state_of (slots f)

  slots-grow : (f : Forest) (c : Tree) → slots (grow f c) ≡ increment sha256 (slots f) (root_of c)
  unfolding slots grow increment root_of
  slots-grow [] c = refl
  slots-grow (none ∷ f) c = refl
  slots-grow (some t ∷ f) c = ap (λ s. none ∷ s) (slots-grow f (node t c))

  add_each-grow_all :
      (f : Forest) (hs : List Hash)
      → number (slots f) + length hs ≤ u64_max
      → add_each sha256 (state f) hs ≡ some (ok tt, state (grow_all f hs))
  unfolding add_each grow_all state root_of
  add_each-grow_all f [] w = refl
  add_each-grow_all f (h ∷ hs) w =
      let step = add_leaf-increment sha256 (slots f) h (omega arith) in
      let same : slots (grow f (leaf h)) ≡ increment sha256 (slots f) h = slots-grow f (leaf h) in
      let more : number (slots (grow f (leaf h))) ≡ suc (number (slots f)) =
        ap number same ∙ number-increment sha256 (slots f) h in
      let ih = add_each-grow_all (grow f (leaf h)) hs (omega (arith, more)) in
      rw (step, add_each) (ap (λ s. add_each sha256 (state_of s) hs) (sym same) ∙ ih)

-- Adding leaves to the state of a forest of perfect trees leaves the state of a forest of perfect
-- trees, whose leaves are those of the first and the new ones behind them, in their order, while the
-- count of leaves stays within a `u64`.
pub add_leaves-Forest :
    (sha256 : List ℕ → Hash) (f : Forest) (hs : List Hash)
    → IsForest 0 f
    → (state sha256 f).num_leaves + length hs ≤ u64_max
    → (g : Forest) × IsForest 0 g
      × (leaves g ≡ leaves f ++ hs)
      × (add_leaves sha256 (state sha256 f) hs ≡ some (ok tt, state sha256 g))
unfolding add_leaves state state_of
add_leaves-Forest sha256 f hs p w =
    let room : ltb (u64_max - (state sha256 f).num_leaves) (length hs) ≡ false = ground arith in
    (
      grow_all f hs,
      grow_all-IsForest f hs p,
      leaves-grow_all f hs,
      rw room (add_each-grow_all sha256 f hs w),
    )
