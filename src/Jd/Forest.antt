-- ===== src/Jd/Forest.antt =====
-- UtreexoAccumulatorState on the wire (crates/dinero-sv2-jd/src/codec.rs).
pub mod RoundTrip
use dinero_sv.Base.{ℕ, List, [], ◌∷◌, Result, ok, and_then, length, concat}
use dinero_sv.Wire.{
  Parser, finish, pure, lift, ◌>>=◌, ◌>>◌, read_u8, read_u16, read_u32, read_u64, read_array32,
  read_str0_255, read_many, take_bytes, parse, Cursor, remaining,
}
use dinero_sv.Wire.Bytes.{
  IsU8, IsU16, IsU32, IsU64, IsArray32, AreBytes, IsByte, to_le, from_le, length-to_le,
  from_le-to_le, to_le-from_le, from_le-lt, to_le-AreBytes,
}
use dinero_sv.Wire.Limits.{check_cap, read_path, write_path}
use dinero_sv.Jd.{JdCodecError, jd_cursor, max_utreexo_roots}
use dinero_sv.Utreexo.{UtreexoAccumulatorState}

unfoldable pub encode_utreexo_accumulator_state :
    UtreexoAccumulatorState → Result JdCodecError (List ℕ)
encode_utreexo_accumulator_state state =
    and_then (check_cap "forest_roots" (length state.forest_roots) max_utreexo_roots)
      λ _. ok (concat (write_path state.forest_roots ∷ to_le 8 state.num_leaves ∷ []))

utreexo_accumulator_state : Parser JdCodecError UtreexoAccumulatorState
utreexo_accumulator_state = do
  forest_roots ← read_path "forest_roots" max_utreexo_roots
  num_leaves ← read_u64
  finish
  pure (record { forest_roots = forest_roots; num_leaves = num_leaves })

unfoldable pub decode_utreexo_accumulator_state :
    List ℕ → Result JdCodecError UtreexoAccumulatorState
unfolding utreexo_accumulator_state
decode_utreexo_accumulator_state = parse utreexo_accumulator_state
