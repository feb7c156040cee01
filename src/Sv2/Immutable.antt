-- ===== src/Sv2/Immutable.antt =====
-- ImmutableCoinbase: a coinbase context with the fixed outputs of a solo job
-- (crates/dinero-sv2-codec/src/sv2.rs).
pub mod RoundTrip
use dinero_sv.Base.{
  ℕ, List, [], ◌∷◌, map, Result, ok, err, and_then, length, concat, ◌==◌, if◌then◌else◌,
}
use dinero_sv.Wire.{
  Parser, finish, pure, lift, ◌>>=◌, ◌>>◌, read_u8, read_u16, read_u32, read_u64, read_array32,
  read_str0_255, read_many, take_bytes, parse, Cursor, remaining,
}
use dinero_sv.Wire.Bytes.{
  IsU8, IsU16, IsU32, IsU64, IsArray32, AreBytes, IsByte, to_le, from_le, length-to_le,
  from_le-to_le, to_le-from_le, from_le-lt, to_le-AreBytes,
}
use dinero_sv.Wire.Limits.{check_cap, read_blob, read_path, write_blob, write_path}
use dinero_sv.Messages.{CoinbaseContext, CoinbaseOutputWire, ImmutableCoinbase}
use dinero_sv.Sv2.{Sv2CodecError, too_large, sv2_cursor, max_coinbase_blob, max_extended_outputs}
use dinero_sv.Sv2.Context.{encode_coinbase_context, decode_coinbase_context}
use dinero_sv.Sv2.Shares.{write_output, read_output, check_scripts}

-- The loop over the outputs checks a script and then appends the output; nothing is sent if any
-- script is refused, so the checks are made first here.
unfoldable pub encode_immutable_coinbase : ImmutableCoinbase → Result Sv2CodecError (List ℕ)
encode_immutable_coinbase message = and_then (encode_coinbase_context message.context) λ context.
    and_then (check_cap "immutable_context" (length context) max_coinbase_blob) λ _.
      and_then (check_cap "immutable_outputs" (length message.outputs) max_extended_outputs) λ _.
        and_then (check_scripts "immutable_script" message.outputs) λ _. ok (
          concat (
            (1 ∷ [])
            ∷ to_le 8 message.template_id
            ∷ write_blob context
            ∷ to_le 2 (length message.outputs)
            ∷ concat (map write_output message.outputs)
            ∷ []))

check_version : ℕ → Result Sv2CodecError (Unit {0})
check_version version =
    if version == 1 then ok tt else err (too_large "immutable_version" version 1)

immutable_coinbase : Parser Sv2CodecError ImmutableCoinbase
unfolding check_version
immutable_coinbase = do
  version ← read_u8
  lift (check_version version)
  template_id ← read_u64
  bytes ← read_blob "immutable_context" max_coinbase_blob
  context ← lift (decode_coinbase_context bytes)
  count ← read_u16
  lift (check_cap "immutable_outputs" count max_extended_outputs)
  outputs ← read_many (read_output "immutable_script") count
  finish
  pure (record { template_id = template_id; context = context; outputs = outputs })

unfoldable pub decode_immutable_coinbase : List ℕ → Result Sv2CodecError ImmutableCoinbase
unfolding immutable_coinbase
decode_immutable_coinbase = parse immutable_coinbase
