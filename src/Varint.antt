-- ===== src/Varint.antt =====
-- The compact size of Bitcoin. The source has three writers of it (write_varint of
-- crates/dinero-sv2-jd/src/coinbase.rs, write_compact_size of utreexo.rs beside it, compact_size of
-- crates/dinero-sv2-pool/src/block.rs), which are the same, and two readers (read_varint of the
-- pool's extranonce.rs, read_compact_size of its mapper.rs), which differ in their errors.
pub mod RoundTrip
use dinero_sv.Base.{
  ℕ, ◌+◌, List, [], ◌∷◌, none, some, Result, ok, err, and_then, length, take, drop, get_elem?, ltb,
  leb, ◌==◌, if◌then◌else◌,
}
use dinero_sv.Wire.Bytes.{to_le, from_le}

unfoldable pub write_varint : ℕ → List ℕ
write_varint n =
    if ltb n 0xFD
    then n ∷ []
    else if leb n 0xFFFF
    then 0xFD ∷ to_le 2 n
    else if leb n 0xFFFF_FFFF
    then 0xFE ∷ to_le 4 n
    else 0xFF ∷ to_le 8 n

pub data VarintError : Type 0 where
  truncated : ℕ → VarintError

-- `p.get(at + 1..at + 1 + n)`
unfoldable pub take_after : List ℕ → ℕ → ℕ → Result VarintError (List ℕ)
take_after p position n =
    if ltb (length p) (position + 1 + n)
    then err (truncated position)
    else ok (take n (drop (position + 1) p))

-- The value and the encoded length, from the first byte and the reader of those behind it.
unfoldable pub varint_of : ℕ → (ℕ → Result VarintError (List ℕ)) → Result VarintError (ℕ × ℕ)
varint_of b rest =
    if ltb b 0xFD
    then ok (b, 1)
    else if b == 0xFD
    then and_then (rest 2) (λ s. ok (from_le s, 3))
    else if b == 0xFE
    then and_then (rest 4) (λ s. ok (from_le s, 5))
    else and_then (rest 8) (λ s. ok (from_le s, 9))

unfoldable pub read_varint : List ℕ → ℕ → Result VarintError (ℕ × ℕ)
read_varint p position = elim (get_elem? p position) [
  | none ↦ err (truncated position)
  | some b ↦ varint_of b (take_after p position)
]
