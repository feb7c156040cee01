-- ===== src/Compact.antt =====
-- The compact difficulty of a header as the miners expand it (nbits_to_target of
-- crates/dinero-sv2-common/src/lib.rs), against the pool's own expansion.
use dinero_sv.Base.{
  ℕ, zero, suc, ◌+◌, ◌-◌, ◌*◌, ◌/◌, ◌%◌, ◌^◌, ◌≡◌, ◌≤◌, ◌<◌, refl, ap, ◌∙◌, arith, [], ◌∷◌, ◌++◌,
  length, take, drop, ltb, leb, ◌==◌, if◌then◌else◌, ge→ltb, ==→eq, Bool-cases, inl, inr, true,
  false,
}
use dinero_sv.Bytestring.{Bytes}
use dinero_sv.Pool.Target.{zeros, compact_to_target}

-- Consecutive elements of an array are assigned.
unfoldable pub write_at : ℕ → Bytes → Bytes → Bytes
write_at offset bytes buf = take offset buf ++ (bytes ++ drop (offset + length bytes) buf)

-- The low three bytes, the highest first.
abbrev pub three_bytes : ℕ → Bytes
three_bytes n = (n / 2 ^ 16 % 256) ∷ (n / 2 ^ 8 % 256) ∷ (n % 256) ∷ []

unfoldable pub nbits_to_target : ℕ → Bytes
nbits_to_target bits =
    let exponent = bits / 2 ^ 24 % 256 in
    let mantissa = bits % 2 ^ 24 in
    if leb exponent 3
    then write_at 29 (three_bytes (mantissa / 2 ^ (8 * (3 - exponent)) % 2 ^ 24)) (zeros 32)
    else (let offset = 32 - exponent in
        if leb (offset + 3) 32 then write_at offset (three_bytes mantissa) (zeros 32) else zeros 32)

take-zeros : (k n : ℕ) → k ≤ n → take k (zeros n) ≡ zeros k
take-zeros zero n h = refl
take-zeros (suc k) zero h = absurd (omega arith)
take-zeros (suc k) (suc n) h = ap (λ l. 0 ∷ l) (take-zeros k n (omega arith))

drop-zeros : (k n : ℕ) → k ≤ n → drop k (zeros n) ≡ zeros (n - k)
drop-zeros zero n h = ap zeros (omega arith)
drop-zeros (suc k) zero h = absurd (omega arith)
drop-zeros (suc k) (suc n) h = drop-zeros k n (omega arith) ∙ ap zeros (omega arith)

-- The four bytes of the shifted mantissa, as the pool places them.
abbrev four_bytes : ℕ → Bytes
four_bytes m = (m / 2 ^ 24 % 256) ∷ (m / 2 ^ 16 % 256) ∷ (m / 2 ^ 8 % 256) ∷ (m % 256) ∷ []

last_three :
    {a b c a' b' c' : ℕ}
    → a ≡ a'
    → b ≡ b'
    → c ≡ c'
    → zeros 29 ++ (a ∷ b ∷ c ∷ []) ≡ zeros 29 ++ (a' ∷ b' ∷ c' ∷ [])
last_three p q r = cc (p, q, r)

small_exponent :
    (size mantissa : ℕ)
    → 0 < size
    → size ≤ 3
    → mantissa < 2 ^ 24
    → write_at 29 (three_bytes (mantissa / 2 ^ (8 * (3 - size)) % 2 ^ 24)) (zeros 32)
      ≡ zeros (32 - size) ++ drop (4 - size) (four_bytes (mantissa / 2 ^ ((3 - size) * 8)))
unfolding write_at
small_exponent zero mantissa p h k = absurd (omega arith)
small_exponent (suc zero) mantissa p h k = last_three (omega arith) (omega arith) (omega arith)
small_exponent (suc (suc zero)) mantissa p h k =
    last_three (omega arith) (omega arith) (omega arith)
small_exponent (suc (suc (suc zero))) mantissa p h k =
    last_three (omega arith) (omega arith) (omega arith)
small_exponent (suc (suc (suc (suc size)))) mantissa p h k = absurd (omega arith)

-- For a difficulty of 32 bits whose exponent is at most 32, the miners and the pool expand it to the
-- same target.
pub nbits_to_target-compact_to_target :
    (bits : ℕ) → bits < 2 ^ 32 → bits / 2 ^ 24 ≤ 32 → nbits_to_target bits ≡ compact_to_target bits
unfolding nbits_to_target compact_to_target write_at
nbits_to_target-compact_to_target bits w h =
    let size = bits / 2 ^ 24 in
    let low : size % 256 ≡ size = omega arith in
    let mantissa_fits : bits % 2 ^ 24 < 2 ^ 24 = omega arith in
    let in_range : ltb 32 size ≡ false = ge→ltb 32 size h in
    elim (Bool-cases (size == 0)) [
      | inl y ↦ rw (low, ==→eq size 0 y) (last_three (omega arith) (omega arith) (omega arith))
      | inr n ↦ elim (Bool-cases (leb size 3)) [
        | inl z ↦
            rw (low, n, in_range, z)
              (small_exponent size (bits % 2 ^ 24) (ground arith) (ground arith) mantissa_fits)
        | inr z ↦
            let large : 3 < size = ground arith in
            let room : leb (32 - size + 3) 32 ≡ true = ground arith in
            let behind : 32 - (32 - size + 3) ≡ size - 3 = omega arith in
            rw (low, n, in_range, z, room)
              (rw
                (
                  take-zeros (32 - size) 32 (omega arith),
                  drop-zeros (32 - size + 3) 32 (omega arith),
                  behind,
                )
                refl)
      ]
    ]
