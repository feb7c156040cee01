-- ===== src/Jd/Template.antt =====
-- NewTemplateDineroJD on the wire (crates/dinero-sv2-jd/src/codec.rs).
pub mod RoundTrip
use dinero_sv.Base.{
  ℕ, List, [], ◌∷◌, Result, ok, err, and_then, length, concat, ◌==◌, if◌then◌else◌, Bool, true,
  false,
}
use dinero_sv.Wire.{
  Parser, finish, pure, lift, ◌>>=◌, ◌>>◌, read_u8, read_u16, read_u32, read_u64, read_array32,
  read_str0_255, read_many, take_bytes, parse, Cursor, remaining,
}
use dinero_sv.Wire.Bytes.{
  IsU8, IsU16, IsU32, IsU64, IsArray32, AreBytes, IsByte, to_le, from_le, length-to_le,
  from_le-to_le, to_le-from_le, from_le-lt, to_le-AreBytes,
}
use dinero_sv.Wire.Limits.{check_cap, read_blob, read_path, write_blob, write_path}
use dinero_sv.Jd.{JdCodecError, invalid_bool, jd_cursor, max_coinbase_blob, max_merkle_entries}

pub record NewTemplateDineroJd : Type 0 where
  pub template_id : ℕ
  pub future_template : Bool
  pub version : ℕ
  pub prev_block_hash : List ℕ
  pub utreexo_root : List ℕ
  pub timestamp : ℕ
  pub difficulty : ℕ
  pub coinbase_prefix : List ℕ
  pub coinbase_suffix : List ℕ
  pub merkle_path : List (List ℕ)

-- `u8::from(b)`
abbrev pub bool_byte : Bool → ℕ
bool_byte false = 0
bool_byte true = 1

unfoldable pub encode_new_template_jd : NewTemplateDineroJd → Result JdCodecError (List ℕ)
encode_new_template_jd msg =
    and_then (check_cap "coinbase_prefix" (length msg.coinbase_prefix) max_coinbase_blob) λ _.
      and_then (check_cap "coinbase_suffix" (length msg.coinbase_suffix) max_coinbase_blob) λ _.
        and_then (check_cap "merkle_path" (length msg.merkle_path) max_merkle_entries) λ _. ok (
          concat (
            to_le 8 msg.template_id
            ∷ (bool_byte msg.future_template ∷ [])
            ∷ to_le 4 msg.version
            ∷ msg.prev_block_hash
            ∷ msg.utreexo_root
            ∷ to_le 8 msg.timestamp
            ∷ to_le 4 msg.difficulty
            ∷ write_blob msg.coinbase_prefix
            ∷ write_blob msg.coinbase_suffix
            ∷ write_path msg.merkle_path
            ∷ []))

-- The match on the byte of `future_template`.
unfoldable pub byte_bool : ℕ → Result JdCodecError Bool
byte_bool b = if b == 0 then ok false else if b == 1 then ok true else err (invalid_bool b)

new_template_jd : Parser JdCodecError NewTemplateDineroJd
new_template_jd = do
  template_id ← read_u64
  byte ← read_u8
  future_template ← lift (byte_bool byte)
  version ← read_u32
  prev_block_hash ← read_array32
  utreexo_root ← read_array32
  timestamp ← read_u64
  difficulty ← read_u32
  coinbase_prefix ← read_blob "coinbase_prefix" max_coinbase_blob
  coinbase_suffix ← read_blob "coinbase_suffix" max_coinbase_blob
  merkle_path ← read_path "merkle_path" max_merkle_entries
  finish
  pure (record {
    template_id = template_id;
    future_template = future_template;
    version = version;
    prev_block_hash = prev_block_hash;
    utreexo_root = utreexo_root;
    timestamp = timestamp;
    difficulty = difficulty;
    coinbase_prefix = coinbase_prefix;
    coinbase_suffix = coinbase_suffix;
    merkle_path = merkle_path;
  })

unfoldable pub decode_new_template_jd : List ℕ → Result JdCodecError NewTemplateDineroJd
unfolding new_template_jd byte_bool
decode_new_template_jd = parse new_template_jd
