-- ===== src/Pool/Target/Zeros.antt =====
-- The targets of the command line, given by their leading zero bits.
use dinero_sv.Base.{
  ℕ, zero, suc, ◌+◌, ◌-◌, ◌*◌, ◌/◌, ◌%◌, ◌^◌, ◌≡◌, ◌<◌, refl, sym, ap, ◌∙◌, arith, ◌∷◌, ◌++◌,
  replicate, ltb, leb, ◌==◌, ltb→lt, ==→eq, Bool-cases, inl, inr,
}
use native.Mathlib.Nat.{pow-suc, pow-zero, mul_assoc, add-zero, add-suc}
use dinero_sv.Bytestring.{Bytes}
use dinero_sv.Pool.Target.{from_be, zeros, leading_zero_bits_target}

from_be-replicate : (n p : ℕ) → from_be p (replicate n 255) + 1 ≡ (p + 1) * 256 ^ n
unfolding from_be
from_be-replicate zero p = omega (arith, pow-zero 256)
from_be-replicate (suc n) p =
    from_be-replicate n (p * 256 + 255)
    ∙ regroup (256 ^ n)
    ∙ ap (λ q. (p + 1) * q) (sym (pow-suc 256 n))
  where
    regroup : (q : ℕ) → (p * 256 + 255 + 1) * q ≡ (p + 1) * (q * 256)
    regroup q = omega arith

pow_add : (b i j : ℕ) → b ^ (i + j) ≡ b ^ i * b ^ j
pow_add b i zero = rw (pow-zero b, add-zero i) (omega arith)
pow_add b i (suc j) =
    rw (add-suc i j, pow-suc b (i + j), pow-suc b j, pow_add b i j) (mul_assoc (b ^ i) (b ^ j) b)

pow_256 : (k : ℕ) → 256 ^ k ≡ 2 ^ (8 * k)
pow_256 zero = refl
pow_256 (suc k) =
    let e : 8 * suc k ≡ 8 * k + 8 = omega arith in
    rw (pow-suc 256 k, e, pow_add 2 (8 * k) 8, pow_256 k) refl

from_be-zeros : (n : ℕ) (xs : Bytes) → from_be 0 (zeros n ++ xs) ≡ from_be 0 xs
unfolding from_be
from_be-zeros zero xs = refl
from_be-zeros (suc n) xs = from_be-zeros n xs

from_be-no_bits : (n : ℕ) → from_be 0 (zeros n) ≡ 0
unfolding from_be
from_be-no_bits zero = refl
from_be-no_bits (suc n) = from_be-no_bits n

-- The byte that the last zero bits stand in.
partial_byte : (r : ℕ) → r < 8 → 255 / 2 ^ r + 1 ≡ 2 ^ (8 - r)
partial_byte zero h = refl
partial_byte (suc zero) h = refl
partial_byte (suc (suc zero)) h = refl
partial_byte (suc (suc (suc zero))) h = refl
partial_byte (suc (suc (suc (suc zero)))) h = refl
partial_byte (suc (suc (suc (suc (suc zero))))) h = refl
partial_byte (suc (suc (suc (suc (suc (suc zero)))))) h = refl
partial_byte (suc (suc (suc (suc (suc (suc (suc zero))))))) h = refl
partial_byte (suc (suc (suc (suc (suc (suc (suc (suc r)))))))) h = absurd (omega arith)

-- The target for `bits` leading zero bits is the number of 256 bits whose first `bits` are zero and
-- whose others are one, and 0 if there are more than 256.
pub leading_zero_bits_target_lem :
    (bits : ℕ) → from_be 0 (leading_zero_bits_target bits) + 1 ≡ 2 ^ (256 - bits)
unfolding leading_zero_bits_target from_be
leading_zero_bits_target_lem bits = elim (Bool-cases (bits == 0)) [
  | inl y ↦ rw (==→eq bits 0 y) (from_be-replicate 32 0)
  | inr n ↦ elim (Bool-cases (leb 256 bits)) [
    | inl y ↦ let big : 256 - bits ≡ 0 = ground arith in rw (n, y, big) refl
    | inr m ↦
        let small : bits < 256 = ground arith in
        let full = bits / 8 in
        let rem = bits % 8 in
        let parts : bits ≡ 8 * full + rem = omega arith in
        elim (Bool-cases (ltb 0 rem)) [
          | inl y ↦
              let some_left : 0 < rem = ltb→lt 0 rem y in
              let width : 256 - bits ≡ 8 - rem + 8 * (31 - full) = omega arith in
              let fill = from_be-replicate (31 - full) (0 * 256 + 255 / 2 ^ rem) in
              let head : 0 * 256 + 255 / 2 ^ rem + 1 ≡ 2 ^ (8 - rem) =
                omega (arith, partial_byte rem (omega arith)) in
              rw (n, m, y, from_be-zeros full ((255 / 2 ^ rem) ∷ replicate (31 - full) 255), width)
                (fill
                  ∙ ap (λ z. z * 256 ^ (31 - full)) head
                  ∙ rw (pow_256 (31 - full)) (sym (pow_add 2 (8 - rem) (8 * (31 - full)))))
          | inr z ↦
              let width : 256 - bits ≡ 8 * (32 - full) = ground (arith, parts) in
              rw (n, m, z, from_be-zeros full (replicate (32 - full) 255), width)
                (from_be-replicate (32 - full) 0 ∙ omega (arith, pow_256 (32 - full)))
        ]
  ]
]
