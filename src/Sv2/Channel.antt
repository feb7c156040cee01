-- ===== src/Sv2/Channel.antt =====
-- OpenStandardMiningChannel and its replies, SetTarget and SetNewPrevHash
-- (crates/dinero-sv2-codec/src/sv2.rs).
pub mod RoundTrip
use dinero_sv.Base.{ℕ, List, [], ◌∷◌, Result, ok, and_then, concat}
use dinero_sv.Wire.{
  Parser, finish, pure, lift, ◌>>=◌, ◌>>◌, read_u8, read_u16, read_u32, read_u64, read_array32,
  read_str0_255, read_many, take_bytes, parse, Cursor, remaining,
}
use dinero_sv.Wire.Bytes.{
  IsU8, IsU16, IsU32, IsU64, IsArray32, AreBytes, IsByte, to_le, from_le, length-to_le,
  from_le-to_le, to_le-from_le, from_le-lt, to_le-AreBytes,
}
use dinero_sv.Messages.{
  OpenStandardMiningChannel, OpenStandardMiningChannelSuccess, OpenStandardMiningChannelError,
  SetTarget, SetNewPrevHash,
}
use dinero_sv.Sv2.{Sv2CodecError, sv2_cursor, write_str0_255}

unfoldable pub encode_open_standard_mining_channel :
    OpenStandardMiningChannel → Result Sv2CodecError (List ℕ)
encode_open_standard_mining_channel msg = and_then (write_str0_255 msg.user_identity) λ identity.
    ok (
      concat (
        to_le 4 msg.request_id
        ∷ identity
        ∷ to_le 4 msg.nominal_hash_rate_bits
        ∷ msg.max_target
        ∷ []))

open_standard_mining_channel : Parser Sv2CodecError OpenStandardMiningChannel
open_standard_mining_channel = do
  request_id ← read_u32
  user_identity ← read_str0_255
  nominal_hash_rate_bits ← read_u32
  max_target ← read_array32
  finish
  pure (record {
    request_id = request_id;
    user_identity = user_identity;
    nominal_hash_rate_bits = nominal_hash_rate_bits;
    max_target = max_target;
  })

unfoldable pub decode_open_standard_mining_channel :
    List ℕ → Result Sv2CodecError OpenStandardMiningChannel
unfolding open_standard_mining_channel
decode_open_standard_mining_channel = parse open_standard_mining_channel

unfoldable pub encode_open_standard_mining_channel_success :
    OpenStandardMiningChannelSuccess → List ℕ
encode_open_standard_mining_channel_success msg =
    concat (to_le 4 msg.request_id ∷ to_le 4 msg.channel_id ∷ msg.target ∷ [])

open_standard_mining_channel_success : Parser Sv2CodecError OpenStandardMiningChannelSuccess
open_standard_mining_channel_success = do
  request_id ← read_u32
  channel_id ← read_u32
  target ← read_array32
  finish
  pure (record { request_id = request_id; channel_id = channel_id; target = target })

unfoldable pub decode_open_standard_mining_channel_success :
    List ℕ → Result Sv2CodecError OpenStandardMiningChannelSuccess
unfolding open_standard_mining_channel_success
decode_open_standard_mining_channel_success = parse open_standard_mining_channel_success

unfoldable pub encode_open_standard_mining_channel_error :
    OpenStandardMiningChannelError → Result Sv2CodecError (List ℕ)
encode_open_standard_mining_channel_error msg =
    and_then (write_str0_255 msg.error_code)
      λ code. ok (concat (to_le 4 msg.request_id ∷ code ∷ []))

open_standard_mining_channel_error : Parser Sv2CodecError OpenStandardMiningChannelError
open_standard_mining_channel_error = do
  request_id ← read_u32
  error_code ← read_str0_255
  finish
  pure (record { request_id = request_id; error_code = error_code })

unfoldable pub decode_open_standard_mining_channel_error :
    List ℕ → Result Sv2CodecError OpenStandardMiningChannelError
unfolding open_standard_mining_channel_error
decode_open_standard_mining_channel_error = parse open_standard_mining_channel_error

unfoldable pub encode_set_target : SetTarget → List ℕ
encode_set_target msg = concat (to_le 4 msg.channel_id ∷ msg.max_target ∷ [])

set_target : Parser Sv2CodecError SetTarget
set_target = do
  channel_id ← read_u32
  max_target ← read_array32
  finish
  pure (record { channel_id = channel_id; max_target = max_target })

unfoldable pub decode_set_target : List ℕ → Result Sv2CodecError SetTarget
unfolding set_target
decode_set_target = parse set_target

unfoldable pub encode_set_new_prev_hash : SetNewPrevHash → List ℕ
encode_set_new_prev_hash msg =
    concat (to_le 4 msg.channel_id ∷ msg.prev_hash ∷ to_le 8 msg.min_ntime ∷ to_le 4 msg.nbits ∷ [])

set_new_prev_hash : Parser Sv2CodecError SetNewPrevHash
set_new_prev_hash = do
  channel_id ← read_u32
  prev_hash ← read_array32
  min_ntime ← read_u64
  nbits ← read_u32
  finish
  pure (record {
    channel_id = channel_id;
    prev_hash = prev_hash;
    min_ntime = min_ntime;
    nbits = nbits;
  })

unfoldable pub decode_set_new_prev_hash : List ℕ → Result Sv2CodecError SetNewPrevHash
unfolding set_new_prev_hash
decode_set_new_prev_hash = parse set_new_prev_hash
