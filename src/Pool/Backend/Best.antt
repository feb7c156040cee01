-- ===== src/Pool/Backend/Best.antt =====
-- The candidate that is chosen.
use dinero_sv.Base.{
  ℕ, ◌≡◌, ◌≤◌, ◌<◌, ◌⊎◌, refl, sym, subst, arith, List, [], ◌∷◌, Option, some, All, ltb, ltb→lt,
  Bool-cases, inl, inr, Bool, true, false, ◌&&◌, ◌||◌, not,
}
use Prim.Native.Nat.{compare, Ordering}
use dinero_sv.Pool.Backend.{
  Candidate, normalize_chainwork, is_current, is_better, choose_best_candidate,
}
use dinero_sv.Pool.Backend.Order.{
  normalize_chainwork_lem, from_hex, IsChainwork, compare_chainwork-from_hex,
}

abbrev pub work : Candidate → ℕ
work c = from_hex 0 c.chainwork

abbrev pub IsNormal : Candidate → Type 0
IsNormal c = IsChainwork c.chainwork

-- One of the candidates.
unfoldable pub IsOneOf : Candidate → List Candidate → Type 0
IsOneOf c [] = ⊥
IsOneOf c (d ∷ ds) = (c ≡ d) ⊎ IsOneOf c ds

-- What makes `b` at least as good as `c`: it has more work; or as much, where it is the current one
-- if `c` is, and its number is not above that of `c` if it is not the current one.
abbrev pub IsAsGood : Option ℕ → Candidate → Candidate → Type 0
IsAsGood current b c =
    (work c ≤ work b)
    × (work c ≡ work b → is_current c current ≡ true → is_current b current ≡ true)
    × (work c ≡ work b → is_current b current ≡ false → b.index ≤ c.index)

three :
    (a b : ℕ)
    → ((a < b) × (compare a b ≡ Ordering.lt))
      ⊎ (((a ≡ b) × (compare a b ≡ Ordering.eq)) ⊎ ((b < a) × (compare a b ≡ Ordering.gt)))
three a b = elim (Bool-cases (ltb a b)) [
  | inl y ↦ inl (ltb→lt a b y, ground arith)
  | inr z ↦ elim (Bool-cases (ltb b a)) [
    | inl y ↦ inr (inr (ltb→lt b a y, ground arith))
    | inr w ↦ inr (inl (ground arith, ground arith))
  ]
]

IsAsGood-trans :
    (current : Option ℕ) (b c d : Candidate)
    → IsAsGood current b c
    → IsAsGood current c d
    → IsAsGood current b d
IsAsGood-trans current b c d (w, k, i) (w', k', i') = (
  omega arith,
  λ e y. k (omega arith) (k' (omega arith) y),
  λ e z. elim (Bool-cases (is_current c current)) [
    | inl y ↦ absurd (cc (k (omega arith) y, z))
    | inr y ↦ let low = i (omega arith) z in let low' = i' (omega arith) y in omega arith
  ],
)

either :
    (a b : Bool) (m n : ℕ)
    → (a || (not b && ltb m n)) ≡ true
    → (b ≡ true → a ≡ true) × (a ≡ false → m ≤ n)
either true b m n h = (λ _. refl, λ e. absurd (cc e))
either false true m n h = absurd (cc h)
either false false m n h = (λ e. absurd (cc e), λ _. ground arith)

neither :
    (a b : Bool) (m n : ℕ) → (a || (not b && ltb m n)) ≡ false → (a ≡ false) × (b ≡ false → n ≤ m)
neither true b m n h = absurd (cc h)
neither false true m n h = (refl, λ e. absurd (cc e))
neither false false m n h = (refl, λ _. ground arith)

-- A candidate takes the place of the best one exactly if it is as good, whichever way ties fall.
swap :
    (c best : Candidate) (current : Option ℕ)
    → IsNormal c
    → IsNormal best
    → is_better c best current ≡ true
    → IsAsGood current c best
unfolding is_better
swap c best current hc hb y =
    let order = compare_chainwork-from_hex c.chainwork best.chainwork hc hb in
    elim (three (work c) (work best)) [
      | inl (h, e) ↦ absurd (cc (rw (order, e, is_better) at y))
      | inr (inl (h, e)) ↦
          let (k, i) =
            either (is_current c current) (is_current best current) c.index best.index
              (rw (order, e, is_better) at y) in
          (omega arith, λ _. k, λ _. i)
      | inr (inr (h, e)) ↦ (omega arith, λ k. absurd (omega arith), λ k. absurd (omega arith))
    ]

stay :
    (c best : Candidate) (current : Option ℕ)
    → IsNormal c
    → IsNormal best
    → is_better c best current ≡ false
    → IsAsGood current best c
unfolding is_better
stay c best current hc hb y =
    let order = compare_chainwork-from_hex c.chainwork best.chainwork hc hb in
    elim (three (work c) (work best)) [
      | inl (h, e) ↦ (omega arith, λ k. absurd (omega arith), λ k. absurd (omega arith))
      | inr (inl (h, e)) ↦
          let (k, i) =
            neither (is_current c current) (is_current best current) c.index best.index
              (rw (order, e, is_better) at y) in
          (omega arith, λ _ w. absurd (cc (k, w)), λ _. i)
      | inr (inr (h, e)) ↦ absurd (cc (rw (order, e, is_better) at y))
    ]

IsAsGood-refl : (current : Option ℕ) (c : Candidate) → IsAsGood current c c
IsAsGood-refl current c = (omega arith, λ _ y. y, λ _ _. omega arith)

abbrev pub IsChosen : Option ℕ → Candidate → List Candidate → Type 0
IsChosen current b cs = IsOneOf b cs × All (IsAsGood current b) cs

choose_swap :
    (first c : Candidate) (rest : List Candidate) (current : Option ℕ)
    → is_better c first current ≡ true
    → choose_best_candidate first (c ∷ rest) current ≡ choose_best_candidate c rest current
unfolding choose_best_candidate
choose_swap first c rest current y = rw y refl

choose_stay :
    (first c : Candidate) (rest : List Candidate) (current : Option ℕ)
    → is_better c first current ≡ false
    → choose_best_candidate first (c ∷ rest) current ≡ choose_best_candidate first rest current
unfolding choose_best_candidate
choose_stay first c rest current z = rw z refl

skip_one :
    (x first c : Candidate) (rest : List Candidate)
    → IsOneOf x (first ∷ rest)
    → IsOneOf x (first ∷ (c ∷ rest))
unfolding IsOneOf
skip_one x first c rest (inl e) = inl e
skip_one x first c rest (inr e) = inr (inr e)

choose_best_candidate-IsChosen :
    (first : Candidate) (rest : List Candidate) (current : Option ℕ)
    → All IsNormal (first ∷ rest)
    → IsChosen current (choose_best_candidate first rest current) (first ∷ rest)
unfolding IsOneOf choose_best_candidate
choose_best_candidate-IsChosen first [] current h = (inl refl, (IsAsGood-refl current first, tt))
choose_best_candidate-IsChosen first (c ∷ rest) current (hf, (hc, hs)) =
    elim (Bool-cases (is_better c first current)) [
      | inl y ↦
          let (one, (good, more)) = choose_best_candidate-IsChosen c rest current (hc, hs) in
          let x = choose_best_candidate c rest current in
          let all = IsAsGood-trans current x c first good (swap c first current hc hf y) in
          subst (λ b. IsChosen current b (first ∷ (c ∷ rest)))
            (sym (choose_swap first c rest current y)) (inr one, (all, (good, more)))
      | inr z ↦
          let (one, (good, more)) = choose_best_candidate-IsChosen first rest current (hf, hs) in
          let x = choose_best_candidate first rest current in
          let all = IsAsGood-trans current x first c good (stay c first current hc hf z) in
          subst (λ b. IsChosen current b (first ∷ (c ∷ rest)))
            (sym (choose_stay first c rest current z))
            (skip_one x first c rest one, (good, (all, more)))
    ]

-- The chain work is what `normalize_chainwork` makes of a node's answer.
abbrev pub IsReported : Candidate → Type 0
IsReported c = (answer : List ℕ) × (normalize_chainwork answer ≡ some c.chainwork)

IsReported-IsNormal : (cs : List Candidate) → All IsReported cs → All IsNormal cs
IsReported-IsNormal [] h = tt
IsReported-IsNormal (c ∷ cs) ((answer, e), hs) =
    ((normalize_chainwork_lem answer c.chainwork e).0, IsReported-IsNormal cs hs)

-- The candidate that is chosen is one of those given, and at least as good as each of them: none has
-- more work; among those with as much, the current one is chosen if it is there, and else none has a
-- smaller number. The chain works are what `normalize_chainwork` makes of the nodes' answers.
pub choose_best_candidate_lem :
    (first : Candidate) (rest : List Candidate) (current : Option ℕ)
    → All IsReported (first ∷ rest)
    → IsChosen current (choose_best_candidate first rest current) (first ∷ rest)
choose_best_candidate_lem first rest current h =
    choose_best_candidate-IsChosen first rest current (IsReported-IsNormal (first ∷ rest) h)
