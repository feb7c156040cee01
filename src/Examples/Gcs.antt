-- ===== src/Examples/Gcs.antt =====
-- The vectors of the tests of crates/dinero-sv2-jd/src/block_filter.rs.
use dinero_sv.Base.{ℕ, ◌≡◌, refl, List, [], ◌∷◌}
use dinero_sv.Wire.Bytes.{from_le}
use dinero_sv.Bytestring.{bytes_eq}
use dinero_sv.Utreexo.{bit, set_bit}
use dinero_sv.Gcs.{
  siphash24, last_word, absorb_words, absorb_word, rounds, sipround, rotate_left, gcs_build,
  unique_loop, is_in, hash_to_range, sort, insert, golomb_rice_encode, encode_loop, write_unary,
  write_ones, write_bits, write_bit, finish,
}

siphash24_empty : siphash24 0 0 [] ≡ 0x1e924b9d737700d7
unfolding siphash24 last_word absorb_words absorb_word rounds sipround rotate_left from_le
siphash24_empty = refl

abbrev script : List ℕ
script =
    (81 ∷ 32 ∷ 163 ∷ 144 ∷ 247 ∷ 19 ∷ 174 ∷ 101 ∷ 208 ∷ 150 ∷ 37 ∷ 18 ∷ 220 ∷ 242 ∷ 143 ∷ 11 ∷ 194
      ∷ 201 ∷ 2 ∷ 111 ∷ 206 ∷ 122 ∷ 22 ∷ 19 ∷ 137 ∷ 140 ∷ 120 ∷ 189 ∷ 132 ∷ 233 ∷ 55 ∷ 115 ∷ 130
      ∷ 251 ∷ [])

abbrev prev_block_hash : List ℕ
prev_block_hash =
    (111 ∷ 183 ∷ 40 ∷ 21 ∷ 174 ∷ 71 ∷ 160 ∷ 130 ∷ 255 ∷ 59 ∷ 15 ∷ 69 ∷ 36 ∷ 108 ∷ 146 ∷ 136 ∷ 136
      ∷ 192 ∷ 208 ∷ 14 ∷ 244 ∷ 63 ∷ 35 ∷ 44 ∷ 126 ∷ 242 ∷ 171 ∷ 54 ∷ 28 ∷ 0 ∷ 0 ∷ 0 ∷ [])

regtest_block1 : gcs_build prev_block_hash (script ∷ []) ≡ (0x8e ∷ 0x4e ∷ 0xf0 ∷ [], 1)
unfolding gcs_build unique_loop is_in hash_to_range sort insert golomb_rice_encode encode_loop
    write_unary write_ones write_bits write_bit finish bit set_bit siphash24 last_word absorb_words
    absorb_word rounds sipround rotate_left from_le bytes_eq
regtest_block1 = refl
