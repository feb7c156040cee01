-- ===== src/Pool/Target.antt =====
-- Targets and the comparison with a hash (crates/dinero-sv2-pool/src/target.rs), and the weight of a
-- share (share_weight of accounting.rs). A 256-bit number is its 32 bytes, the highest first.
pub mod Order
pub mod Weight
pub mod Zeros
use dinero_sv.Base.{
  ℕ, ◌+◌, ◌-◌, ◌*◌, ◌/◌, ◌%◌, ◌^◌, ◌<◌, [], ◌∷◌, ◌++◌, take, drop, replicate, ltb, leb, ◌==◌,
  if◌then◌else◌, Bool, ◌||◌,
}
use dinero_sv.Words.{u128_max, saturating_add128}
use dinero_sv.Wire.Bytes.{AreBytes, IsByte}
use dinero_sv.Bytestring.{Bytes, bytes_lt}

-- `hash < target`
unfoldable pub hash_meets_target : Bytes → Bytes → Bool
hash_meets_target hash target = bytes_lt hash target

-- `from_be_bytes`
unfoldable pub from_be : ℕ → Bytes → ℕ
from_be acc [] = acc
from_be acc (b ∷ bs) = from_be (acc * 256 + b) bs

unfoldable pub share_weight : Bytes → ℕ
share_weight share_target =
    let hi = from_be 0 (take 16 share_target) in
    if hi == 0 then u128_max else u128_max / saturating_add128 hi 1

abbrev pub zeros : ℕ → Bytes
zeros n = replicate n 0

-- The bytes of the mantissa in the place that the size gives.
unfoldable pub compact_to_target : ℕ → Bytes
compact_to_target bits =
    let size = bits / 2 ^ 24 in
    let mantissa = bits % 2 ^ 24 in
    if size == 0 || ltb 32 size
    then zeros 32
    else if leb size 3
    then (let m = mantissa / 2 ^ ((3 - size) * 8) in
        zeros (32 - size)
        ++ drop (4 - size)
            ((m / 2 ^ 24 % 256) ∷ (m / 2 ^ 16 % 256) ∷ (m / 2 ^ 8 % 256) ∷ (m % 256) ∷ []))
    else zeros (32 - size)
      ++ (((mantissa / 2 ^ 16 % 256) ∷ (mantissa / 2 ^ 8 % 256) ∷ (mantissa % 256) ∷ [])
          ++ zeros (size - 3))

unfoldable pub leading_zero_bits_target : ℕ → Bytes
leading_zero_bits_target bits =
    if bits == 0
    then replicate 32 255
    else if leb 256 bits
    then zeros 32
    else (let full = bits / 8 in
        let rem = bits % 8 in
        zeros full
        ++ (if ltb 0 rem
            then (255 / 2 ^ rem) ∷ replicate (31 - full) 255
            else replicate (32 - full) 255))
