-- ===== src/Pool/Window/Credit.antt =====
-- Who is credited with what in the window.
use dinero_sv.Base.{
  ℕ, ◌+◌, ◌≡◌, ◌≤◌, ap, ◌∙◌, arith, List, [], ◌∷◌, if◌then◌else◌, Bool-cases, inl, inr, true, false,
}
use native.Mathlib.Nat.{mod-eq_of_lt, zero-add}
use dinero_sv.Words.{u128_max, add128, saturating_add128}
use dinero_sv.Bytestring.{Bytes, bytes_eq, bytes_eq_refl, bytes_eq→eq}
use dinero_sv.Pool.Window.{
  WindowEntry, PplnsWindow, add_weight, weights_loop, weights, fold_weight, total_weight,
}

-- The entry of a map from scripts to weights, 0 if there is none.
unfoldable pub weight_of : List (Bytes × ℕ) → Bytes → ℕ
weight_of [] k = 0
weight_of ((s, v) ∷ m) k = let rest = weight_of m k in if bytes_eq s k then v else rest

-- What the entries of the window give to a script.
unfoldable pub credit : List WindowEntry → Bytes → ℕ
credit [] k = 0
credit (e ∷ es) k = (if bytes_eq e.payout_script k then e.weight else 0) + credit es k

-- All weights of the window together.
unfoldable pub all_credit : List WindowEntry → ℕ
all_credit [] = 0
all_credit (e ∷ es) = e.weight + all_credit es

weight_of-add_weight :
    (s : Bytes) (w : ℕ) (m : List (Bytes × ℕ)) (k : Bytes)
    → weight_of m s + w ≤ u128_max
    → weight_of (add_weight s w m) k ≡ weight_of m k + (if bytes_eq s k then w else 0)
unfolding weight_of add_weight
weight_of-add_weight s w [] k h = ground arith
weight_of-add_weight s w ((t, v) ∷ m) k h = elim (Bool-cases (bytes_eq t s)) [
  | inl y ↦
      let e : t ≡ s = bytes_eq→eq t s y in
      let small : v + w ≤ u128_max = ground arith in
      let exact : add128 v w ≡ v + w = mod-eq_of_lt (omega arith) in
      let same : bytes_eq t k ≡ bytes_eq s k = ap (λ z. bytes_eq z k) e in
      rw (y, exact, same) (ground arith)
  | inr n ↦
      let ih = weight_of-add_weight s w m k (ground arith) in
      elim (Bool-cases (bytes_eq t k)) [
        | inl z ↦
            let e : t ≡ k = bytes_eq→eq t k z in
            let other : bytes_eq s k ≡ false = elim (Bool-cases (bytes_eq s k)) [
              | inl a ↦
                  let q : bytes_eq t s ≡ true = rw (e, bytes_eq→eq s k a) (bytes_eq_refl k) in
                  ground (arith, q)
              | inr b ↦ b
            ] in
            rw (n, z, other) (omega arith)
        | inr z ↦ rw (n, z) ih
      ]
]

credit-le : (es : List WindowEntry) (k : Bytes) → credit es k ≤ all_credit es
unfolding credit all_credit
credit-le [] k = omega arith
credit-le (e ∷ es) k = ground (arith, credit-le es k)

weight_of-weights_loop :
    (m : List (Bytes × ℕ)) (es : List WindowEntry) (k : Bytes)
    → ((j : Bytes) → weight_of m j + credit es j ≤ u128_max)
    → weight_of (weights_loop m es) k ≡ weight_of m k + credit es k
unfolding weights_loop credit
weight_of-weights_loop m [] k h = omega arith
weight_of-weights_loop m (e ∷ es) k h =
    let s = e.payout_script in
    let fits : weight_of m s + e.weight ≤ u128_max = ground (arith, h s, bytes_eq_refl s) in
    let step = λ (j : Bytes). weight_of-add_weight s e.weight m j fits in
    let ih =
      weight_of-weights_loop (add_weight s e.weight m) es k λ j. rw (step j) (omega (arith, h j)) in
    ih ∙ rw (step k) (omega arith)

fold_weight-all_credit :
    (acc : ℕ) (es : List WindowEntry)
    → acc + all_credit es ≤ u128_max
    → fold_weight acc es ≡ acc + all_credit es
unfolding fold_weight all_credit
fold_weight-all_credit acc [] h = omega arith
fold_weight-all_credit acc (e ∷ es) h =
    let exact : saturating_add128 acc e.weight ≡ acc + e.weight = omega arith in
    rw exact (fold_weight-all_credit (acc + e.weight) es (omega arith) ∙ omega arith)

-- While the weights of the window fit 128 bits together, `weights` gives each script the sum of the
-- weights of its entries, `total_weight` is the sum over all entries.
pub weights-credit :
    (w : PplnsWindow)
    → all_credit w.entries ≤ u128_max
    → ((script : Bytes) → weight_of (weights w) script ≡ credit w.entries script)
      × (total_weight w ≡ all_credit w.entries)
unfolding weights weight_of total_weight
weights-credit w h = (
  λ script.
      weight_of-weights_loop [] w.entries script (λ j. omega (arith, credit-le w.entries j, h))
      ∙ zero-add (credit w.entries script),
  fold_weight-all_credit 0 w.entries (omega (arith, h)) ∙ zero-add (all_credit w.entries),
)
