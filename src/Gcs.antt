-- ===== src/Gcs.antt =====
-- The block filter, a Golomb-Rice coded set (crates/dinero-sv2-jd/src/block_filter.rs). Words have 64
-- bits and wrap around.
use dinero_sv.Base.{
  ℕ, zero, suc, ◌+◌, ◌-◌, ◌*◌, ◌/◌, ◌%◌, ◌^◌, List, [], ◌∷◌, ◌++◌, map, length, take, drop, ltb,
  ◌==◌, if◌then◌else◌, Bool, true, false, ◌||◌,
}
use Prim.Native.Nat.{bit_xor}
use dinero_sv.Words.{wrap64, add64, sub64}
use dinero_sv.Bytestring.{Bytes, bytes_eq}
use dinero_sv.Wire.Bytes.{from_le}
use dinero_sv.Utreexo.{bit, set_bit}

abbrev pub gcs_p : ℕ
gcs_p = 19

abbrev pub gcs_m : ℕ
gcs_m = 784_931

unfoldable pub rotate_left : ℕ → ℕ → ℕ
rotate_left x n = wrap64 (x * 2 ^ n) + x / 2 ^ (64 - n)

pub record SipState : Type 0 where
  pub v0 : ℕ
  pub v1 : ℕ
  pub v2 : ℕ
  pub v3 : ℕ

-- The four lines of three statements each.
unfoldable pub sipround : SipState → SipState
sipround s =
    let a0 = add64 s.v0 s.v1 in
    let a1 = bit_xor (rotate_left s.v1 13) a0 in
    let b0 = rotate_left a0 32 in
    let a2 = add64 s.v2 s.v3 in
    let a3 = bit_xor (rotate_left s.v3 16) a2 in
    let c0 = add64 b0 a3 in
    let c3 = bit_xor (rotate_left a3 21) c0 in
    let c2 = add64 a2 a1 in
    let c1 = bit_xor (rotate_left a1 17) c2 in
    record { v0 = c0; v1 = c1; v2 = rotate_left c2 32; v3 = c3 }

unfoldable pub rounds : ℕ → SipState → SipState
rounds zero s = s
rounds (suc n) s = rounds n (sipround s)

-- A word goes in: two rounds between its two exclusive ors.
unfoldable pub absorb_word : SipState → ℕ → SipState
absorb_word s m =
    let t = rounds 2 (record s { v3 = bit_xor s.v3 m }) in record t { v0 = bit_xor t.v0 m }

-- The words of eight bytes, as many as are full.
unfoldable pub absorb_words : ℕ → SipState → Bytes → SipState
absorb_words zero s rest = s
absorb_words (suc full) s rest =
    absorb_words full (absorb_word s (from_le (take 8 rest))) (drop 8 rest)

-- The length modulo 256 in the highest byte, above the bytes that are left.
unfoldable pub last_word : Bytes → ℕ
last_word bytes = length bytes % 256 * 2 ^ 56 + from_le (drop (length bytes / 8 * 8) bytes)

unfoldable pub siphash24 : ℕ → ℕ → Bytes → ℕ
siphash24 k0 k1 bytes =
    let s : SipState = record {
      v0 = bit_xor 0x736f6d6570736575 k0;
      v1 = bit_xor 0x646f72616e646f6d k1;
      v2 = bit_xor 0x6c7967656e657261 k0;
      v3 = bit_xor 0x7465646279746573 k1;
    } in
    let t = absorb_word (absorb_words (length bytes / 8) s bytes) (last_word bytes) in
    let u = rounds 4 (record t { v2 = bit_xor t.v2 0xFF }) in
    bit_xor (bit_xor (bit_xor u.v0 u.v1) u.v2) u.v3

pub record BitWriter : Type 0 where
  pub buf : Bytes
  pub current : ℕ
  pub bits_written : ℕ

abbrev pub default : BitWriter
default = record { buf = []; current = 0; bits_written = 0 }

unfoldable pub write_bit : BitWriter → Bool → BitWriter
write_bit w b =
    let current = if b then set_bit w.current (7 - w.bits_written) else w.current in
    if w.bits_written + 1 == 8
    then record { buf = w.buf ++ (current ∷ []); current = 0; bits_written = 0 }
    else record w { current = current; bits_written = w.bits_written + 1 }

unfoldable pub write_bits : BitWriter → ℕ → ℕ → BitWriter
write_bits w value zero = w
write_bits w value (suc i) = write_bits (write_bit w (bit value i)) value i

unfoldable pub write_ones : BitWriter → ℕ → BitWriter
write_ones w zero = w
write_ones w (suc value) = write_ones (write_bit w true) value

unfoldable pub write_unary : BitWriter → ℕ → BitWriter
write_unary w value = write_bit (write_ones w value) false

unfoldable pub finish : BitWriter → Bytes
finish w = if ltb 0 w.bits_written then w.buf ++ (w.current ∷ []) else w.buf

unfoldable pub encode_loop : BitWriter → ℕ → List ℕ → BitWriter
encode_loop w prev [] = w
encode_loop w prev (v ∷ values) =
    let delta = sub64 v prev in
    encode_loop (write_bits (write_unary w (delta / 2 ^ gcs_p)) (delta % 2 ^ gcs_p) gcs_p) v values

unfoldable pub golomb_rice_encode : List ℕ → Bytes
golomb_rice_encode sorted_values = finish (encode_loop default 0 sorted_values)

unfoldable pub is_in : Bytes → List Bytes → Bool
is_in s [] = false
is_in s (u ∷ unique) = bytes_eq u s || is_in s unique

-- The scripts that are not empty, each once, in the order in which they come first.
unfoldable pub unique_loop : List Bytes → List Bytes → List Bytes
unique_loop unique [] = unique
unique_loop unique ([] ∷ scripts) = unique_loop unique scripts
unique_loop unique ((b ∷ s) ∷ scripts) =
    unique_loop (if is_in (b ∷ s) unique then unique else unique ++ ((b ∷ s) ∷ [])) scripts

-- `sort_unstable`
unfoldable pub insert : ℕ → List ℕ → List ℕ
insert n [] = n ∷ []
insert n (m ∷ ms) = let rest = insert n ms in if ltb m n then m ∷ rest else n ∷ m ∷ ms

unfoldable pub sort : List ℕ → List ℕ
sort [] = []
sort (n ∷ ns) = insert n (sort ns)

-- Where a script falls in a range.
unfoldable pub hash_to_range : Bytes → ℕ → Bytes → ℕ
hash_to_range prev_block_hash_le range script =
    siphash24 (from_le (take 8 prev_block_hash_le)) (from_le (take 8 (drop 8 prev_block_hash_le)))
      script
    * range
    / 2 ^ 64

unfoldable pub gcs_build : Bytes → List Bytes → Bytes × ℕ
gcs_build prev_block_hash_le scripts = elim (unique_loop [] scripts) [
  | [] ↦ ([], 0)
  | s ∷ unique ↦
      let element_count = length (s ∷ unique) % 2 ^ 32 in
      let range = wrap64 (element_count * gcs_m) in
      (
        golomb_rice_encode (sort (map (hash_to_range prev_block_hash_le range) (s ∷ unique))),
        element_count,
      )
]
