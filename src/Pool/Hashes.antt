-- ===== src/Pool/Hashes.antt =====
-- Sets and queues of hashes, kept as lists: `HashSet<[u8; 32]>` and `VecDeque<[u8; 32]>`.
use dinero_sv.Base.{
  suc, ◌≡◌, refl, ap, subst, arith, List, [], ◌∷◌, ◌++◌, length, if◌then◌else◌, Bool-cases, inl,
  inr, Bool, true, false, ◌||◌,
}
use dinero_sv.Bytestring.{Bytes, bytes_eq, bytes_eq_refl, bytes_eq→eq}

unfoldable pub contains : List Bytes → Bytes → Bool
contains [] h = false
contains (x ∷ xs) h = let rest = contains xs h in if bytes_eq x h then true else rest

unfoldable pub remove : Bytes → List Bytes → List Bytes
remove h [] = []
remove h (x ∷ xs) = let rest = remove h xs in if bytes_eq x h then rest else x ∷ rest

unfoldable pub insert_new : Bytes → List Bytes → List Bytes
insert_new h xs = if contains xs h then xs else h ∷ xs

-- No hash stands in the list twice.
unfoldable pub Distinct : List Bytes → Type 0
Distinct [] = Unit {0}
Distinct (x ∷ xs) = (contains xs x ≡ false) × Distinct xs

pub contains-remove :
    (o h : Bytes) (xs : List Bytes)
    → contains (remove o xs) h ≡ (if bytes_eq o h then false else contains xs h)
unfolding contains remove
contains-remove o h [] = ground arith
contains-remove o h (x ∷ xs) = elim (Bool-cases (bytes_eq x o)) [
  | inl y ↦ rw (y, bytes_eq→eq x o y, contains-remove o h xs) (ground arith)
  | inr n ↦ elim (Bool-cases (bytes_eq o h)) [
    | inl z ↦
        let e : o ≡ h = bytes_eq→eq o h z in
        let nh : bytes_eq x h ≡ false = subst (λ k. bytes_eq x k ≡ false) e n in
        let ih = contains-remove o h xs in rw (n, nh, z) (ground (arith, ih))
    | inr z ↦ let ih = contains-remove o h xs in rw (n, z) (ground (arith, ih))
  ]
]

pub contains-append_one :
    (xs : List Bytes) (h k : Bytes) → contains (xs ++ (h ∷ [])) k ≡ (contains xs k || bytes_eq h k)
unfolding contains
contains-append_one [] h k = ground arith
contains-append_one (x ∷ xs) h k = ground (arith, contains-append_one xs h k)

pub remove_absent : (o : Bytes) (xs : List Bytes) → contains xs o ≡ false → remove o xs ≡ xs
unfolding contains remove
remove_absent o [] h = refl
remove_absent o (x ∷ xs) h = ground (arith, remove_absent o xs)

pub length-remove :
    (o : Bytes) (xs : List Bytes)
    → Distinct xs
    → contains xs o ≡ true
    → suc (length (remove o xs)) ≡ length xs
unfolding contains remove Distinct
length-remove o [] d h = cc
length-remove o (x ∷ xs) d h = elim (Bool-cases (bytes_eq x o)) [
  | inl y ↦
      let e : x ≡ o = bytes_eq→eq x o y in
      let absent : contains xs o ≡ false = subst (λ k. contains xs k ≡ false) e d.0 in
      rw (y, remove_absent o xs absent) refl
  | inr n ↦ let ih = length-remove o xs d.1 (ground arith) in rw n (ap suc ih)
]

pub remove-Distinct : (o : Bytes) (xs : List Bytes) → Distinct xs → Distinct (remove o xs)
unfolding contains remove Distinct
remove-Distinct o [] d = tt
remove-Distinct o (x ∷ xs) d = elim (Bool-cases (bytes_eq x o)) [
  | inl y ↦ rw y (remove-Distinct o xs d.1)
  | inr n ↦ rw n (let c = contains-remove o x xs in (ground (arith, d.0), remove-Distinct o xs d.1))
]

pub append_one-Distinct :
    (xs : List Bytes) (h : Bytes) → Distinct xs → contains xs h ≡ false → Distinct (xs ++ (h ∷ []))
unfolding contains Distinct
append_one-Distinct [] h d n = (refl, tt)
append_one-Distinct (x ∷ xs) h d n =
    let other : bytes_eq h x ≡ false = elim (Bool-cases (bytes_eq h x)) [
      | inl y ↦
          let e : h ≡ x = bytes_eq→eq h x y in
          let r : bytes_eq x h ≡ true = rw e (bytes_eq_refl x) in ground (arith, r)
      | inr m ↦ m
    ] in
    let rest : contains xs h ≡ false = ground arith in
    (rw (contains-append_one xs h x, d.0, other) refl, append_one-Distinct xs h d.1 rest)

pub contains_middle : (xs ys : List Bytes) (h : Bytes) → contains (xs ++ (h ∷ ys)) h ≡ true
unfolding contains
contains_middle [] ys h = rw (bytes_eq_refl h) refl
contains_middle (x ∷ xs) ys h = ground (arith, contains_middle xs ys h)
