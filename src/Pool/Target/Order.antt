-- ===== src/Pool/Target/Order.antt =====
-- The comparison of byte strings as that of the numbers they write.
use dinero_sv.Base.{
  ℕ, ◌+◌, ◌*◌, ◌≡◌, ◌<◌, ◌↔◌, refl, ap, ◌∙◌, arith, [], ◌∷◌, length, ltb, ◌==◌, ge→ltb, lt→ltb,
  ltb→lt, ==→eq, Bool-cases, inl, inr, true,
}
use dinero_sv.Wire.Bytes.{AreBytes}
use dinero_sv.Bytestring.{Bytes, bytes_lt}
use dinero_sv.Pool.Target.{from_be, hash_meets_target}

-- A larger head outweighs whatever follows.
pub from_be-lt :
    (p q : ℕ) (xs ys : Bytes)
    → AreBytes xs
    → AreBytes ys
    → length xs ≡ length ys
    → p < q
    → from_be p xs < from_be q ys
unfolding from_be
from_be-lt p q [] [] hx hy e h = h
from_be-lt p q [] (y ∷ ys) hx hy e h = absurd (omega arith)
from_be-lt p q (x ∷ xs) [] hx hy e h = absurd (omega arith)
from_be-lt p q (x ∷ xs) (y ∷ ys) hx hy e h =
    from_be-lt (p * 256 + x) (q * 256 + y) xs ys hx.1 hy.1 (omega arith) (omega (arith, hx.0))

pub bytes_lt-from_be :
    (p : ℕ) (xs ys : Bytes)
    → AreBytes xs
    → AreBytes ys
    → length xs ≡ length ys
    → bytes_lt xs ys ≡ ltb (from_be p xs) (from_be p ys)
unfolding from_be bytes_lt
bytes_lt-from_be p [] [] hx hy e = ground arith
bytes_lt-from_be p [] (y ∷ ys) hx hy e = absurd (omega arith)
bytes_lt-from_be p (x ∷ xs) [] hx hy e = absurd (omega arith)
bytes_lt-from_be p (x ∷ xs) (y ∷ ys) hx hy e = elim (Bool-cases (ltb x y)) [
  | inl a ↦
      let l =
        from_be-lt (p * 256 + x) (p * 256 + y) xs ys hx.1 hy.1 (omega arith)
          (omega (arith, ltb→lt x y a)) in
      rw (a, lt→ltb (from_be (p * 256 + x) xs) (from_be (p * 256 + y) ys) l) refl
  | inr a ↦ elim (Bool-cases (x == y)) [
    | inl b ↦
        let eq : x ≡ y = ==→eq x y b in
        let ih = bytes_lt-from_be (p * 256 + x) xs ys hx.1 hy.1 (omega arith) in
        rw (a, b) (ih ∙ ap (λ z. ltb (from_be (p * 256 + x) xs) (from_be (p * 256 + z) ys)) eq)
    | inr b ↦
        let above : y < x = ground arith in
        let l =
          from_be-lt (p * 256 + y) (p * 256 + x) ys xs hy.1 hx.1 (omega arith) (omega arith) in
        rw (a, b, ge→ltb (from_be (p * 256 + x) xs) (from_be (p * 256 + y) ys) (omega (arith, l)))
          refl
  ]
]

-- Whether a hash meets a target is decided as for the numbers that their bytes write, the highest
-- first; both have the same number of bytes.
pub hash_meets_target-from_be :
    (hash target : Bytes)
    → AreBytes hash
    → AreBytes target
    → length hash ≡ length target
    → (hash_meets_target hash target ≡ true) ↔ (from_be 0 hash < from_be 0 target)
unfolding hash_meets_target
hash_meets_target-from_be hash target hh ht e =
    let b = bytes_lt-from_be 0 hash target hh ht e in
    rw b (
      λ h. ltb→lt (from_be 0 hash) (from_be 0 target) h,
      λ h. lt→ltb (from_be 0 hash) (from_be 0 target) h,
    )
