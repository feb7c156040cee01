-- ===== src/Pool/Split/Ranking.antt =====
-- The ranking of the contributors: it does not depend on the order in which the hash map is iterated,
-- and it loses no weight but that of the contributors past the cap.
use dinero_sv.Base.{
  ℕ, zero, suc, ◌+◌, ◌^◌, ◌≡◌, ◌≤◌, ◌<◌, refl, sym, ap, ◌∙◌, arith, [], ◌∷◌, length, take,
  length-take, ltb, if◌then◌else◌, Bool-cases, inl, inr, true, false,
}
use mathlib.Core.List.{Permᴰ}
use dinero_sv.Bytestring.{Bytes, bytes_lt_irrefl, bytes_lt_trans, bytes_lt_total}
use dinero_sv.Pool.Split.{Weights, before, positive, insert, sort, rank, sum_weights}

-- The weights added up without a width.
abbrev pub weight_sum : Weights → ℕ
weight_sum [] = 0
weight_sum ((s, w) ∷ ws) = w + weight_sum ws

sum-positive : (ws : Weights) → weight_sum (positive ws) ≡ weight_sum ws
unfolding positive
sum-positive [] = refl
sum-positive ((s, w) ∷ ws) = ground (arith, sum-positive ws)

sum-insert : (e : Bytes × ℕ) (ws : Weights) → weight_sum (insert e ws) ≡ e.1 + weight_sum ws
unfolding insert
sum-insert e [] = refl
sum-insert e (f ∷ fs) = ground (arith, sum-insert e fs)

sum-sort : (ws : Weights) → weight_sum (sort ws) ≡ weight_sum ws
unfolding sort
sum-sort [] = refl
sum-sort (e ∷ es) = omega (arith, sum-insert e (sort es), sum-sort es)

sum-take : (n : ℕ) (ws : Weights) → weight_sum (take n ws) ≤ weight_sum ws
sum-take zero ws = omega arith
sum-take (suc n) [] = omega arith
sum-take (suc n) ((s, w) ∷ ws) = omega (arith, sum-take n ws)

pub sum-rank : (ws : Weights) (n : ℕ) → weight_sum (rank ws n) ≤ weight_sum ws
unfolding rank
sum-rank ws n =
    omega (arith, sum-take n (sort (positive ws)), sum-sort (positive ws), sum-positive ws)

pub length-rank : (ws : Weights) (n : ℕ) → length (rank ws n) ≤ n
unfolding rank
length-rank ws n = omega (arith, length-take n (sort (positive ws)))

-- The `u128` sum is exact while the weights fit.
pub sum_weights_exact : (ws : Weights) → weight_sum ws < 2 ^ 128 → sum_weights ws ≡ weight_sum ws
unfolding sum_weights
sum_weights_exact [] h = refl
sum_weights_exact ((s, w) ∷ ws) h = omega (arith, sum_weights_exact ws (omega arith))

before_irrefl : (a : Bytes × ℕ) → before a a ≡ false
unfolding before
before_irrefl (s, w) = ground (arith, bytes_lt_irrefl s)

before_trans : (a b c : Bytes × ℕ) → before a b ≡ true → before b c ≡ true → before a c ≡ true
unfolding before
before_trans (s, w) (s', w') (s'', w'') h k = ground (arith, bytes_lt_trans s s' s'')

before_total : (a b : Bytes × ℕ) → before a b ≡ false → before b a ≡ false → a ≡ b
unfolding before
before_total (s, w) (s', w') h k = ground (arith, bytes_lt_total s s')

before_asym : (a b : Bytes × ℕ) → before a b ≡ true → before b a ≡ false
before_asym a b h = elim (Bool-cases (before b a)) [
  | inl e ↦ cc (before_trans a b a h e, before_irrefl a)
  | inr e ↦ e
]

insert_comm : (a b : Bytes × ℕ) (ws : Weights) → insert a (insert b ws) ≡ insert b (insert a ws)
unfolding insert
insert_comm a b [] = ground (arith, before_total a b, before_asym a b)
insert_comm a b (f ∷ fs) = ground (
  arith,
  insert_comm a b fs,
  before_total a b,
  before_asym a b,
  before_trans f b a,
  before_trans f a b,
  before_total a f,
  before_total b f,
  before_asym f a,
  before_asym f b,
  before_trans b a f,
  before_trans a b f,
)

abbrev step : Bytes × ℕ → Weights → Weights
step e acc = if ltb 0 e.1 then insert e acc else acc

step_lem : (e : Bytes × ℕ) (ws : Weights) → sort (positive (e ∷ ws)) ≡ step e (sort (positive ws))
unfolding sort positive
step_lem (s, w) ws = ground arith

step_comm : (a b : Bytes × ℕ) (acc : Weights) → step a (step b acc) ≡ step b (step a acc)
step_comm a b acc = ground (arith, insert_comm a b acc)

sorted_perm : {ws ws' : Weights} → Permᴰ ws ws' → sort (positive ws) ≡ sort (positive ws')
sorted_perm Permᴰ.nil = refl
sorted_perm (Permᴰ.cons {a = a} {b = b} {l₁ = l} {l₂ = l'} e p) =
    step_lem a l ∙ cc (e, sorted_perm p) ∙ sym (step_lem b l')
sorted_perm (Permᴰ.swap {a = a} {b = b} {a' = c} {b' = d} {l = l} e f) =
    rw (step_lem a (b ∷ l), step_lem b l, step_lem c (d ∷ l), step_lem d l, ← e, ← f)
      (step_comm a b (sort (positive l)))
sorted_perm (Permᴰ.trans p q) = sorted_perm p ∙ sorted_perm q

pub rank-perm : {ws ws' : Weights} (n : ℕ) → Permᴰ ws ws' → rank ws n ≡ rank ws' n
unfolding rank
rank-perm n p = ap (take n) (sorted_perm p)
