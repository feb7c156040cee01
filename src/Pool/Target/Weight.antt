-- ===== src/Pool/Target/Weight.antt =====
-- The weight of a share: a harder target never weighs less.
use dinero_sv.Base.{
  ℕ, zero, suc, ◌*◌, ◌/◌, ◌≡◌, ◌≤◌, ◌<◌, refl, sym, ◌∙◌, arith, [], ◌∷◌, length, take, All-take,
  length-take, ltb, ◌==◌, if◌then◌else◌, ltb→ge, Bool-cases, inl, inr, false,
}
use native.Mathlib.Nat.{div-le_self, le-div_iff_mul-le, mul-div-le, mul-le-mul_left, mul_comm}
use dinero_sv.Words.{u128_max, saturating_add128}
use dinero_sv.Wire.Bytes.{AreBytes, IsByte}
use dinero_sv.Bytestring.{Bytes, bytes_lt}
use dinero_sv.Pool.Target.{from_be, share_weight}
use dinero_sv.Pool.Target.Order.{bytes_lt-from_be}

-- The heads of two byte strings compare as the strings do, or are the same.
bytes_lt-take :
    (n : ℕ) (a b : Bytes) → bytes_lt b a ≡ false → bytes_lt (take n b) (take n a) ≡ false
unfolding bytes_lt
bytes_lt-take zero a b h = refl
bytes_lt-take (suc n) [] [] h = refl
bytes_lt-take (suc n) [] (y ∷ ys) h = refl
bytes_lt-take (suc n) (x ∷ xs) [] h = h
bytes_lt-take (suc n) (x ∷ xs) (y ∷ ys) h = ground (arith, bytes_lt-take n xs ys)

le-div : (n a b : ℕ) → 0 < a → a ≤ b → n / b ≤ n / a
le-div n a b p h =
    let q = n / b in
    let below : b * q ≤ n = mul-div-le n b in
    let less : q * a ≤ b * q = rw (mul_comm b q) (mul-le-mul_left q h) in
    (le-div_iff_mul-le p).1 (omega arith)

-- Of two targets of the same number of bytes, the one that is not above the other in the order of
-- byte strings gives its share no less weight.
pub share_weight-antitone :
    (a b : Bytes)
    → AreBytes a
    → AreBytes b
    → length a ≡ length b
    → bytes_lt b a ≡ false
    → share_weight b ≤ share_weight a
unfolding share_weight
share_weight-antitone a b ha hb e h =
    let la = length-take 16 a in
    let lb = length-take 16 b in
    let heads : ltb (from_be 0 (take 16 b)) (from_be 0 (take 16 a)) ≡ false =
      sym (
        bytes_lt-from_be 0 (take 16 b) (take 16 a) (All-take IsByte 16 b hb)
          (All-take IsByte 16 a ha) (omega (arith, la, lb, e)))
      ∙ bytes_lt-take 16 a b h in
    weigh (from_be 0 (take 16 a)) (from_be 0 (take 16 b))
      (ltb→ge (from_be 0 (take 16 b)) (from_be 0 (take 16 a)) heads)
  where
    weigh :
        (p q : ℕ)
        → p ≤ q
        → (if q == 0 then u128_max else u128_max / saturating_add128 q 1)
          ≤ (if p == 0 then u128_max else u128_max / saturating_add128 p 1)
    weigh p q h =
        elim (Bool-cases (p == 0))
          as (λ _.
            (if q == 0 then u128_max else u128_max / saturating_add128 q 1)
            ≤ (if p == 0 then u128_max else u128_max / saturating_add128 p 1)) [
              | inl y ↦
                  let s = div-le_self u128_max (saturating_add128 q 1) in rw y (ground (arith, s))
              | inr n ↦
                  let qn : (q == 0) ≡ false = ground arith in
                  rw (n, qn)
                    (le-div u128_max (saturating_add128 p 1) (saturating_add128 q 1) (omega arith)
                      (omega arith))
            ]
