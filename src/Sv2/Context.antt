-- ===== src/Sv2/Context.antt =====
-- CoinbaseContext: the coinbase material of a job (crates/dinero-sv2-codec/src/sv2.rs).
pub mod RoundTrip
use dinero_sv.Base.{
  ℕ, List, [], ◌∷◌, Option, none, some, Result, ok, and_then, length, concat, ◌==◌, if◌then◌else◌,
}
use dinero_sv.Wire.{
  Parser, finish, pure, lift, ◌>>=◌, ◌>>◌, read_u8, read_u16, read_u32, read_u64, read_array32,
  read_str0_255, read_many, take_bytes, parse, Cursor, remaining,
}
use dinero_sv.Wire.Bytes.{
  IsU8, IsU16, IsU32, IsU64, IsArray32, AreBytes, IsByte, to_le, from_le, length-to_le,
  from_le-to_le, to_le-from_le, from_le-lt, to_le-AreBytes,
}
use dinero_sv.Wire.Limits.{check_cap, read_blob, read_path, write_blob, write_path}
use dinero_sv.Messages.{CoinbaseContext}
use dinero_sv.Sv2.{Sv2CodecError, sv2_cursor, max_coinbase_blob, max_merkle_entries}

abbrev pub write_root : Option (List ℕ) → List ℕ
write_root none = []
write_root (some root) = root

unfoldable pub encode_coinbase_context : CoinbaseContext → Result Sv2CodecError (List ℕ)
encode_coinbase_context msg =
    and_then (check_cap "coinbase_prefix" (length msg.coinbase_prefix) max_coinbase_blob) λ _.
      and_then (check_cap "coinbase_suffix" (length msg.coinbase_suffix) max_coinbase_blob) λ _.
        and_then (check_cap "merkle_path" (length msg.merkle_path) max_merkle_entries) λ _. ok (
          concat (
            to_le 4 msg.channel_id
            ∷ write_blob msg.coinbase_prefix
            ∷ write_blob msg.coinbase_suffix
            ∷ write_path msg.merkle_path
            ∷ to_le 4 msg.height
            ∷ to_le 8 msg.coinbase_value_una
            ∷ write_root msg.state_commitment_root
            ∷ []))

-- The root of the state commitment is there if anything is left.
unfoldable read_root : Parser Sv2CodecError (Option (List ℕ))
read_root c =
    if remaining c == 0 then ok (none, c) else (read_array32 >>= λ root. pure (some root)) c

coinbase_context : Parser Sv2CodecError CoinbaseContext
unfolding read_root
coinbase_context = do
  channel_id ← read_u32
  coinbase_prefix ← read_blob "coinbase_prefix" max_coinbase_blob
  coinbase_suffix ← read_blob "coinbase_suffix" max_coinbase_blob
  merkle_path ← read_path "merkle_path" max_merkle_entries
  height ← read_u32
  coinbase_value_una ← read_u64
  state_commitment_root ← read_root
  finish
  pure (record {
    channel_id = channel_id;
    coinbase_prefix = coinbase_prefix;
    coinbase_suffix = coinbase_suffix;
    merkle_path = merkle_path;
    height = height;
    coinbase_value_una = coinbase_value_una;
    state_commitment_root = state_commitment_root;
  })

unfoldable pub decode_coinbase_context : List ℕ → Result Sv2CodecError CoinbaseContext
unfolding coinbase_context
decode_coinbase_context = parse coinbase_context
