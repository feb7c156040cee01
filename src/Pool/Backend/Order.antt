-- ===== src/Pool/Backend/Order.antt =====
-- The order of chain works is that of their numbers.
use dinero_sv.Base.{
  both_true, ℕ, ◌+◌, ◌-◌, ◌*◌, ◌≡◌, ◌≤◌, ◌<◌, ◌⊎◌, refl, sym, ap, subst, ◌∙◌, arith, List, [], ◌∷◌,
  map, some, length, All, get_or, ltb, leb, ◌==◌, if◌then◌else◌, ltb→lt, ==→eq, Bool-cases, inl,
  inr, Bool, true, false, ◌||◌, not,
}
use Prim.Native.Nat.{compare, Ordering}
use dinero_sv.Pool.Backend.{
  digits_of, is_ascii_hexdigit, all_hexdigit, trim_start_zeros, lowercase, or_zero, is_empty,
  normalize_chainwork, cmp, compare_chainwork,
}

-- The value of a hexadecimal digit, and of a number.
unfoldable pub digit : ℕ → ℕ
digit b = if leb b b'9' then b - b'0' else if leb b b'F' then b - 55 else b - 87

unfoldable pub from_hex : ℕ → List ℕ → ℕ
from_hex acc [] = acc
from_hex acc (b ∷ bs) = from_hex (16 * acc + digit b) bs

abbrev IsLower : ℕ → Type 0
IsLower b = ((b'0' ≤ b) × (b ≤ b'9')) ⊎ ((b'a' ≤ b) × (b ≤ b'f'))

digit-lt : (b : ℕ) → IsLower b → digit b < 16
unfolding digit
digit-lt b (inl (l, u)) = ground arith
digit-lt b (inr (l, u)) = ground arith

digit_mono : (b c : ℕ) → IsLower b → IsLower c → b < c → digit b < digit c
unfolding digit
digit_mono b c (inl (l, u)) (inl (l', u')) h = ground arith
digit_mono b c (inl (l, u)) (inr (l', u')) h = ground arith
digit_mono b c (inr (l, u)) (inl (l', u')) h = ground arith
digit_mono b c (inr (l, u)) (inr (l', u')) h = ground arith

compare-lt : (a b : ℕ) → a < b → compare a b ≡ Ordering.lt
compare-lt a b h = ground arith

compare-gt : (a b : ℕ) → b < a → compare a b ≡ Ordering.gt
compare-gt a b h = ground arith

compare-eq : (a : ℕ) → compare a a ≡ Ordering.eq
compare-eq a = ground arith

from_hex-lt :
    (p q : ℕ) (a b : List ℕ)
    → All IsLower a
    → All IsLower b
    → length a ≡ length b
    → p < q
    → from_hex p a < from_hex q b
unfolding from_hex
from_hex-lt p q [] [] ha hb e h = h
from_hex-lt p q [] (y ∷ b) ha hb e h = absurd (omega arith)
from_hex-lt p q (x ∷ a) [] ha hb e h = absurd (omega arith)
from_hex-lt p q (x ∷ a) (y ∷ b) (hx, ha) (hy, hb) e h =
    from_hex-lt (16 * p + digit x) (16 * q + digit y) a b ha hb (omega arith)
      (omega (arith, digit-lt x hx))

cmp-from_hex :
    (acc : ℕ) (a b : List ℕ)
    → All IsLower a
    → All IsLower b
    → length a ≡ length b
    → cmp a b ≡ compare (from_hex acc a) (from_hex acc b)
unfolding cmp from_hex
cmp-from_hex acc [] [] ha hb e = sym (compare-eq acc)
cmp-from_hex acc [] (y ∷ b) ha hb e = absurd (omega arith)
cmp-from_hex acc (x ∷ a) [] ha hb e = absurd (omega arith)
cmp-from_hex acc (x ∷ a) (y ∷ b) (hx, ha) (hy, hb) e =
    let n : length a ≡ length b = omega arith in
    let u = 16 * acc + digit x in
    let v = 16 * acc + digit y in
    elim (Bool-cases (ltb x y)) [
      | inl w ↦
          let h = ltb→lt x y w in
          let d = digit_mono x y hx hy h in
          let less = from_hex-lt u v a b ha hb n (omega (arith, d)) in
          rw (compare-lt x y h, cmp) (sym (compare-lt (from_hex u a) (from_hex v b) less))
      | inr w ↦ elim (Bool-cases (ltb y x)) [
        | inl z ↦
            let h = ltb→lt y x z in
            let d = digit_mono y x hy hx h in
            let more = from_hex-lt v u b a hb ha (sym n) (omega (arith, d)) in
            rw (compare-gt x y h, cmp) (sym (compare-gt (from_hex u a) (from_hex v b) more))
        | inr z ↦
            let same : x ≡ y = ground arith in
            let ih = cmp-from_hex u a b ha hb n in
            subst
              (λ k.
                (elim (compare x k) as (λ _. Ordering) [ Ordering.eq ↦ cmp a b | o ↦ o ])
                ≡ compare (from_hex u a) (from_hex (16 * acc + digit k) b))
              same (rw (compare-eq x) ih)
      ]
    ]

-- A longer number whose part so far is not zero is the larger one.
from_hex-longer :
    (q : ℕ) (a b : List ℕ)
    → All IsLower a
    → All IsLower b
    → length a ≤ length b
    → 0 < q
    → from_hex 0 a < from_hex q b
unfolding from_hex
from_hex-longer q a [] ha hb l h = from_hex-lt 0 q a [] ha hb (omega arith) h
from_hex-longer q a (y ∷ b) ha (hy, hb) l h = elim (Bool-cases (leb (length a) (length b))) [
  | inl w ↦ from_hex-longer (16 * q + digit y) a b ha hb (ground arith) (omega arith)
  | inr w ↦ from_hex-lt 0 q a (y ∷ b) ha (hy, hb) (ground arith) h
]

-- Lower-case digits with no leading zero but for zero itself.
unfoldable pub IsChainwork : List ℕ → Type 0
IsChainwork s = All IsLower s × ((s ≡ b'0' ∷ []) ⊎ (0 < digit (get_or s 0 b'0')))

not_empty : (s : List ℕ) → ((s ≡ b'0' ∷ []) ⊎ (0 < digit (get_or s 0 b'0'))) → 0 < length s
unfolding digit
not_empty [] (inl k) = absurd (omega (arith, ap length k))
not_empty [] (inr k) = absurd (omega arith)
not_empty (b ∷ s) k = omega arith

longer_is_more :
    (a b : List ℕ)
    → All IsLower a
    → All IsLower b
    → ((b ≡ b'0' ∷ []) ⊎ (0 < digit (get_or b 0 b'0')))
    → 0 < length a
    → length a < length b
    → from_hex 0 a < from_hex 0 b
unfolding from_hex
longer_is_more a [] ha hb k n h = absurd (omega arith)
longer_is_more a (y ∷ b) ha (hy, hb) (inl k) n h = absurd (omega (arith, ap length k))
longer_is_more a (y ∷ b) ha (hy, hb) (inr k) n h =
    let first : 16 * 0 + digit y ≡ digit y = omega arith in
    rw first (from_hex-longer (digit y) a b ha hb (omega arith) k)

-- Chain works in the normal form compare as their numbers do.
pub compare_chainwork-from_hex :
    (a b : List ℕ)
    → IsChainwork a
    → IsChainwork b
    → compare_chainwork a b ≡ compare (from_hex 0 a) (from_hex 0 b)
unfolding compare_chainwork IsChainwork
compare_chainwork-from_hex a b (ha, ka) (hb, kb) = elim (Bool-cases (ltb (length a) (length b))) [
  | inl w ↦
      let h = ltb→lt (length a) (length b) w in
      let less = longer_is_more a b ha hb kb (not_empty a ka) h in
      rw (compare-lt (length a) (length b) h, compare_chainwork)
        (sym (compare-lt (from_hex 0 a) (from_hex 0 b) less))
  | inr w ↦ elim (Bool-cases (ltb (length b) (length a))) [
    | inl z ↦
        let h = ltb→lt (length b) (length a) z in
        let more = longer_is_more b a hb ha ka (not_empty b kb) h in
        rw (compare-gt (length a) (length b) h, compare_chainwork)
          (sym (compare-gt (from_hex 0 a) (from_hex 0 b) more))
    | inr z ↦
        let same : length a ≡ length b = ground arith in
        rw (same, compare_chainwork) (rw (compare-eq (length b)) (cmp-from_hex 0 a b ha hb same))
  ]
]

lowercase-IsLower : (b : ℕ) → is_ascii_hexdigit b ≡ true → IsLower (lowercase b)
unfolding is_ascii_hexdigit lowercase
lowercase-IsLower b h = elim (Bool-cases (leb b b'9')) [
  | inl y ↦ inl (ground arith)
  | inr z ↦ inr (ground arith)
]

digit-lowercase : (b : ℕ) → is_ascii_hexdigit b ≡ true → digit (lowercase b) ≡ digit b
unfolding is_ascii_hexdigit lowercase digit
digit-lowercase b h = ground arith

second_false : (a b : Bool) → (a || not b) ≡ false → b ≡ true
second_false a true h = refl
second_false true false h = absurd (cc h)
second_false false false h = absurd (cc h)

map-lowercase :
    (acc : ℕ) (ds : List ℕ)
    → all_hexdigit ds ≡ true
    → All IsLower (map lowercase ds) × (from_hex acc (map lowercase ds) ≡ from_hex acc ds)
unfolding all_hexdigit from_hex
map-lowercase acc [] h = (tt, refl)
map-lowercase acc (b ∷ ds) h =
    let (hb, hds) = both_true (is_ascii_hexdigit b) (all_hexdigit ds) h in
    let (lower, value) = map-lowercase (16 * acc + digit b) ds hds in
    (
      (lowercase-IsLower b hb, lower),
      ap (λ d. from_hex (16 * acc + d) (map lowercase ds)) (digit-lowercase b hb) ∙ value,
    )

digit_positive : (b : ℕ) → is_ascii_hexdigit b ≡ true → (b == b'0') ≡ false → 0 < digit b
unfolding is_ascii_hexdigit digit
digit_positive b h k = ground arith

trim_lem :
    (ds : List ℕ)
    → all_hexdigit ds ≡ true
    → IsChainwork (or_zero (map lowercase (trim_start_zeros ds)))
      × (from_hex 0 (or_zero (map lowercase (trim_start_zeros ds))) ≡ from_hex 0 ds)
unfolding trim_start_zeros all_hexdigit from_hex IsChainwork digit
trim_lem [] h = (((inl (omega arith, omega arith), tt), inl refl), refl)
trim_lem (b ∷ ds) h =
    let (hb, hds) = both_true (is_ascii_hexdigit b) (all_hexdigit ds) h in
    elim (Bool-cases (b == b'0')) [
      | inl y ↦
          let (normal, value) = trim_lem ds hds in
          let none : 16 * 0 + digit b ≡ 0 = ap (λ c. 16 * 0 + digit c) (==→eq b b'0' y) in
          rw y (normal, value ∙ ap (λ k. from_hex k ds) (sym none))
      | inr z ↦
          let (lower, value) = map-lowercase 0 (b ∷ ds) h in
          let positive = subst (λ d. 0 < d) (sym (digit-lowercase b hb)) (digit_positive b hb z) in
          rw z ((lower, inr positive), value)
    ]

-- What `normalize_chainwork` makes of digits is in the normal form and has their value.
pub normalize_chainwork_lem :
    (input s : List ℕ)
    → normalize_chainwork input ≡ some s
    → IsChainwork s × (from_hex 0 s ≡ from_hex 0 (digits_of input))
unfolding normalize_chainwork
normalize_chainwork_lem input s h =
    let digits = digits_of input in
    elim (Bool-cases (is_empty digits || not (all_hexdigit digits))) [
      | inl y ↦ absurd (cc (rw y at h))
      | inr z ↦
          let e : or_zero (map lowercase (trim_start_zeros digits)) ≡ s = cc (rw z at h) in
          let (normal, value) =
            trim_lem digits (second_false (is_empty digits) (all_hexdigit digits) z) in
          (subst IsChainwork e normal, ap (from_hex 0) (sym e) ∙ value)
    ]

-- Two chain works as the nodes report them compare, in the normal form, as the numbers of their
-- hexadecimal digits.
pub compare_chainwork-normalize_chainwork :
    (a b x y : List ℕ)
    → normalize_chainwork a ≡ some x
    → normalize_chainwork b ≡ some y
    → compare_chainwork x y ≡ compare (from_hex 0 (digits_of a)) (from_hex 0 (digits_of b))
compare_chainwork-normalize_chainwork a b x y ha hb =
    let (kx, vx) = normalize_chainwork_lem a x ha in
    let (ky, vy) = normalize_chainwork_lem b y hb in
    compare_chainwork-from_hex x y kx ky
    ∙ ap (λ n. compare n (from_hex 0 y)) vx
    ∙ ap (compare (from_hex 0 (digits_of a))) vy
