-- ===== src/Sv2/Shares.antt =====
-- SubmitSharesExtended and the replies to a share (crates/dinero-sv2-codec/src/sv2.rs).
pub mod RoundTrip
use dinero_sv.Base.{ℕ, String, List, [], ◌∷◌, map, Result, ok, and_then, length, concat}
use dinero_sv.Wire.{
  Parser, finish, pure, lift, ◌>>=◌, ◌>>◌, read_u8, read_u16, read_u32, read_u64, read_array32,
  read_str0_255, read_many, take_bytes, parse, Cursor, remaining,
}
use dinero_sv.Wire.Bytes.{
  IsU8, IsU16, IsU32, IsU64, IsArray32, AreBytes, IsByte, to_le, from_le, length-to_le,
  from_le-to_le, to_le-from_le, from_le-lt, to_le-AreBytes,
}
use dinero_sv.Wire.Limits.{check_cap, read_blob, read_path, write_blob, write_path}
use dinero_sv.Messages.{
  CoinbaseOutputWire, SubmitSharesExtendedDinero, SubmitSharesSuccess, SubmitSharesError,
}
use dinero_sv.Sv2.{
  Sv2CodecError, sv2_cursor, write_str0_255, max_extended_outputs, max_scriptpubkey_bytes,
}

-- One output on the wire, the same in both messages that carry outputs.
abbrev pub write_output : CoinbaseOutputWire → List ℕ
write_output o = concat (to_le 8 o.value_una ∷ write_blob o.script_pubkey ∷ [])

unfoldable pub read_output : String → Parser Sv2CodecError CoinbaseOutputWire
read_output field = do
  value_una ← read_u64
  script_pubkey ← read_blob field max_scriptpubkey_bytes
  pure (record { value_una = value_una; script_pubkey = script_pubkey })

-- The loop that refuses the first script over the cap.
unfoldable pub check_scripts : String → List CoinbaseOutputWire → Result Sv2CodecError (Unit {0})
check_scripts field [] = ok tt
check_scripts field (o ∷ os) =
    let rest = check_scripts field os in
    and_then (check_cap field (length o.script_pubkey) max_scriptpubkey_bytes) λ _. rest

unfoldable pub encode_submit_shares_extended :
    SubmitSharesExtendedDinero → Result Sv2CodecError (List ℕ)
encode_submit_shares_extended msg =
    and_then (check_cap "coinbase_outputs" (length msg.coinbase_outputs) max_extended_outputs) λ _.
      and_then (check_scripts "script_pubkey" msg.coinbase_outputs) λ _. ok (
        concat (
          to_le 4 msg.channel_id
          ∷ to_le 4 msg.sequence_number
          ∷ to_le 4 msg.job_id
          ∷ to_le 4 msg.nonce
          ∷ to_le 8 msg.timestamp
          ∷ to_le 4 msg.version
          ∷ to_le 2 (length msg.coinbase_outputs)
          ∷ concat (map write_output msg.coinbase_outputs)
          ∷ []))

submit_shares_extended : Parser Sv2CodecError SubmitSharesExtendedDinero
submit_shares_extended = do
  channel_id ← read_u32
  sequence_number ← read_u32
  job_id ← read_u32
  nonce ← read_u32
  timestamp ← read_u64
  version ← read_u32
  n ← read_u16
  lift (check_cap "coinbase_outputs" n max_extended_outputs)
  coinbase_outputs ← read_many (read_output "script_pubkey") n
  finish
  pure (record {
    channel_id = channel_id;
    sequence_number = sequence_number;
    job_id = job_id;
    nonce = nonce;
    timestamp = timestamp;
    version = version;
    coinbase_outputs = coinbase_outputs;
  })

unfoldable pub decode_submit_shares_extended :
    List ℕ → Result Sv2CodecError SubmitSharesExtendedDinero
unfolding submit_shares_extended
decode_submit_shares_extended = parse submit_shares_extended

unfoldable pub encode_submit_shares_success : SubmitSharesSuccess → List ℕ
encode_submit_shares_success msg = concat (
    to_le 4 msg.channel_id
    ∷ to_le 4 msg.last_sequence_number
    ∷ to_le 4 msg.new_submits_accepted_count
    ∷ to_le 8 msg.new_shares_sum
    ∷ [])

submit_shares_success : Parser Sv2CodecError SubmitSharesSuccess
submit_shares_success = do
  channel_id ← read_u32
  last_sequence_number ← read_u32
  new_submits_accepted_count ← read_u32
  new_shares_sum ← read_u64
  finish
  pure (record {
    channel_id = channel_id;
    last_sequence_number = last_sequence_number;
    new_submits_accepted_count = new_submits_accepted_count;
    new_shares_sum = new_shares_sum;
  })

unfoldable pub decode_submit_shares_success : List ℕ → Result Sv2CodecError SubmitSharesSuccess
unfolding submit_shares_success
decode_submit_shares_success = parse submit_shares_success

unfoldable pub encode_submit_shares_error : SubmitSharesError → Result Sv2CodecError (List ℕ)
encode_submit_shares_error msg =
    and_then (write_str0_255 msg.error_code)
      λ code. ok (concat (to_le 4 msg.channel_id ∷ to_le 4 msg.sequence_number ∷ code ∷ []))

submit_shares_error : Parser Sv2CodecError SubmitSharesError
submit_shares_error = do
  channel_id ← read_u32
  sequence_number ← read_u32
  error_code ← read_str0_255
  finish
  pure (record {
    channel_id = channel_id;
    sequence_number = sequence_number;
    error_code = error_code;
  })

unfoldable pub decode_submit_shares_error : List ℕ → Result Sv2CodecError SubmitSharesError
unfolding submit_shares_error
decode_submit_shares_error = parse submit_shares_error
