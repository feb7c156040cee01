-- ===== src/Fixed/Submit.antt =====
-- SubmitSharesDinero on the wire, 28 bytes (crates/dinero-sv2-codec/src/lib.rs).
pub mod RoundTrip
use dinero_sv.Base.{ℕ, List, [], ◌∷◌, Result, concat}
use dinero_sv.Wire.{
  Parser, finish, pure, lift, ◌>>=◌, ◌>>◌, read_u8, read_u16, read_u32, read_u64, read_array32,
  read_str0_255, read_many, take_bytes, parse, Cursor, remaining,
}
use dinero_sv.Wire.Bytes.{
  IsU8, IsU16, IsU32, IsU64, IsArray32, AreBytes, IsByte, to_le, from_le, length-to_le,
  from_le-to_le, to_le-from_le, from_le-lt, to_le-AreBytes,
}
use dinero_sv.Messages.{SubmitSharesDinero}
use dinero_sv.Fixed.{CodecError, codec_cursor, parse_frame}

abbrev pub submit_shares_dinero_size : ℕ
submit_shares_dinero_size = 28

unfoldable pub encode_submit_shares : SubmitSharesDinero → List ℕ
encode_submit_shares msg = concat (
    to_le 4 msg.channel_id
    ∷ to_le 4 msg.sequence_number
    ∷ to_le 4 msg.job_id
    ∷ to_le 4 msg.nonce
    ∷ to_le 8 msg.timestamp
    ∷ to_le 4 msg.version
    ∷ [])

submit_shares : Parser CodecError SubmitSharesDinero
submit_shares = do
  channel_id ← read_u32
  sequence_number ← read_u32
  job_id ← read_u32
  nonce ← read_u32
  timestamp ← read_u64
  version ← read_u32
  finish
  pure (record {
    channel_id = channel_id;
    sequence_number = sequence_number;
    job_id = job_id;
    nonce = nonce;
    timestamp = timestamp;
    version = version;
  })

unfoldable pub decode_submit_shares : List ℕ → Result CodecError SubmitSharesDinero
unfolding submit_shares
decode_submit_shares = parse_frame submit_shares_dinero_size submit_shares
