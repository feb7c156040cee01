-- ===== src/Pool/Backend.antt =====
-- The choice among the nodes' templates by chain work (normalize_chainwork, compare_chainwork and
-- choose_best_candidate of crates/dinero-sv2-pool/src/backend.rs). A string is its bytes.
pub mod Order
pub mod Best
use dinero_sv.Base.{
  ℕ, ◌+◌, List, [], ◌∷◌, map, Option, none, some, length, ltb, leb, ◌==◌, if◌then◌else◌, Bool, true,
  false, ◌&&◌, ◌||◌, not,
}
use Prim.Native.Nat.{compare, Ordering}

-- `strip_prefix("0x")`, else `strip_prefix("0X")`, else the whole.
unfoldable pub digits_of : List ℕ → List ℕ
digits_of (b ∷ c ∷ rest) = if b == b'0' && (c == b'x' || c == b'X') then rest else b ∷ c ∷ rest
digits_of s = s

unfoldable pub is_ascii_hexdigit : ℕ → Bool
is_ascii_hexdigit b =
    (leb b'0' b && leb b b'9') || ((leb b'A' b && leb b b'F') || (leb b'a' b && leb b b'f'))

unfoldable pub all_hexdigit : List ℕ → Bool
all_hexdigit [] = true
all_hexdigit (b ∷ bs) = is_ascii_hexdigit b && all_hexdigit bs

unfoldable pub trim_start_zeros : List ℕ → List ℕ
trim_start_zeros [] = []
trim_start_zeros (b ∷ bs) = let rest = trim_start_zeros bs in if b == b'0' then rest else b ∷ bs

unfoldable pub lowercase : ℕ → ℕ
lowercase b = if leb b'A' b && leb b b'Z' then b + 32 else b

-- `"0"` where nothing is left.
abbrev pub or_zero : List ℕ → List ℕ
or_zero [] = b'0' ∷ []
or_zero (b ∷ bs) = b ∷ bs

abbrev pub is_empty : List ℕ → Bool
is_empty [] = true
is_empty (b ∷ bs) = false

unfoldable pub normalize_chainwork : List ℕ → Option (List ℕ)
normalize_chainwork input =
    let digits = digits_of input in
    if is_empty digits || not (all_hexdigit digits)
    then none
    else some (or_zero (map lowercase (trim_start_zeros digits)))

-- `a.cmp(b)` on strings.
unfoldable pub cmp : List ℕ → List ℕ → Ordering
cmp [] [] = Ordering.eq
cmp [] (y ∷ ys) = Ordering.lt
cmp (x ∷ xs) [] = Ordering.gt
cmp (x ∷ xs) (y ∷ ys) = elim (compare x y) [ Ordering.eq ↦ cmp xs ys | o ↦ o ]

unfoldable pub compare_chainwork : List ℕ → List ℕ → Ordering
compare_chainwork a b = elim (compare (length a) (length b)) [ Ordering.eq ↦ cmp a b | o ↦ o ]

-- A node's template: the node's number, and its chain work in the normal form.
pub record Candidate : Type 0 where
  pub index : ℕ
  pub chainwork : List ℕ

unfoldable pub is_current : Candidate → Option ℕ → Bool
is_current c none = false
is_current c (some index) = c.index == index

-- The body of the loop: whether the candidate takes the place of the best one so far.
unfoldable pub is_better : Candidate → Candidate → Option ℕ → Bool
is_better c best current = elim (compare_chainwork c.chainwork best.chainwork) [
  | Ordering.gt ↦ true
  | Ordering.eq ↦ is_current c current || (not (is_current best current) && ltb c.index best.index)
  | Ordering.lt ↦ false
]

-- The best candidate itself, in place of its index in the list. The list is not empty: the first
-- candidate stands apart.
unfoldable pub choose_best_candidate : Candidate → List Candidate → Option ℕ → Candidate
choose_best_candidate best [] current = best
choose_best_candidate best (c ∷ cs) current =
    choose_best_candidate (if is_better c best current then c else best) cs current
