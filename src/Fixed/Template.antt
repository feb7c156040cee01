-- ===== src/Fixed/Template.antt =====
-- NewTemplateDinero on the wire, 153 bytes (crates/dinero-sv2-codec/src/lib.rs).
pub mod RoundTrip
use dinero_sv.Base.{
  ℕ, List, [], ◌∷◌, Result, ok, err, concat, ◌==◌, if◌then◌else◌, Bool, true, false,
}
use dinero_sv.Wire.{
  Parser, finish, pure, lift, ◌>>=◌, ◌>>◌, read_u8, read_u16, read_u32, read_u64, read_array32,
  read_str0_255, read_many, take_bytes, parse, Cursor, remaining,
}
use dinero_sv.Wire.Bytes.{
  IsU8, IsU16, IsU32, IsU64, IsArray32, AreBytes, IsByte, to_le, from_le, length-to_le,
  from_le-to_le, to_le-from_le, from_le-lt, to_le-AreBytes,
}
use dinero_sv.Messages.{NewTemplateDinero}
use dinero_sv.Fixed.{CodecError, invalid_bool, codec_cursor, parse_frame}

abbrev pub new_template_dinero_size : ℕ
new_template_dinero_size = 153

-- `u8::from(b)`
abbrev pub bool_byte : Bool → ℕ
bool_byte false = 0
bool_byte true = 1

unfoldable pub encode_new_template : NewTemplateDinero → List ℕ
encode_new_template msg = concat (
    to_le 8 msg.template_id
    ∷ (bool_byte msg.future_template ∷ [])
    ∷ to_le 4 msg.version
    ∷ msg.prev_block_hash
    ∷ msg.merkle_root
    ∷ msg.utreexo_root
    ∷ to_le 8 msg.timestamp
    ∷ to_le 4 msg.difficulty
    ∷ msg.coinbase_outputs_commitment
    ∷ [])

-- The match on the byte of `future_template`.
unfoldable pub byte_bool : ℕ → Result CodecError Bool
byte_bool b = if b == 0 then ok false else if b == 1 then ok true else err (invalid_bool b)

new_template : Parser CodecError NewTemplateDinero
new_template = do
  template_id ← read_u64
  byte ← read_u8
  future_template ← lift (byte_bool byte)
  version ← read_u32
  prev_block_hash ← read_array32
  merkle_root ← read_array32
  utreexo_root ← read_array32
  timestamp ← read_u64
  difficulty ← read_u32
  coinbase_outputs_commitment ← read_array32
  finish
  pure (record {
    template_id = template_id;
    future_template = future_template;
    version = version;
    prev_block_hash = prev_block_hash;
    merkle_root = merkle_root;
    utreexo_root = utreexo_root;
    timestamp = timestamp;
    difficulty = difficulty;
    coinbase_outputs_commitment = coinbase_outputs_commitment;
  })

unfoldable pub decode_new_template : List ℕ → Result CodecError NewTemplateDinero
unfolding new_template
decode_new_template = parse_frame new_template_dinero_size new_template
