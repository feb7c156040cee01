-- ===== src/Sv2/Setup.antt =====
-- SetupConnection and its replies (crates/dinero-sv2-codec/src/sv2.rs).
pub mod RoundTrip
use dinero_sv.Base.{
  ℕ, ◌+◌, ◌-◌, ◌*◌, ◌/◌, ◌%◌, ◌^◌, List, [], ◌∷◌, ◌++◌, Option, none, some, Result, ok, err,
  and_then, Bool, true, ◌&&◌, ◌||◌, not, length, concat, leb, ◌==◌, if◌then◌else◌,
}
use dinero_sv.Wire.{
  Parser, pure, lift, ◌>>=◌, ◌>>◌, read_u8, read_u16, read_u32, read_str0_255, finish, parse,
}
use dinero_sv.Wire.Bytes.{to_le}
use dinero_sv.Messages.{SetupConnection, SetupConnectionSuccess, SetupConnectionError}
use dinero_sv.Sv2.{Sv2CodecError, invalid_pool_version, sv2_cursor, write_str0_255}

unfoldable pub encode_setup_connection : SetupConnection → Result Sv2CodecError (List ℕ)
encode_setup_connection msg = and_then (write_str0_255 msg.user_agent) λ agent. ok (
    concat (
      (msg.protocol ∷ [])
      ∷ to_le 2 msg.min_version
      ∷ to_le 2 msg.max_version
      ∷ to_le 4 msg.flags
      ∷ agent
      ∷ []))

setup_connection : Parser Sv2CodecError SetupConnection
setup_connection = do
  protocol ← read_u8
  min_version ← read_u16
  max_version ← read_u16
  flags ← read_u32
  user_agent ← read_str0_255
  finish
  pure (record {
    protocol = protocol;
    min_version = min_version;
    max_version = max_version;
    flags = flags;
    user_agent = user_agent;
  })

unfoldable pub decode_setup_connection : List ℕ → Result Sv2CodecError SetupConnection
unfolding setup_connection
decode_setup_connection = parse setup_connection

unfoldable pub encode_setup_connection_success : SetupConnectionSuccess → List ℕ
encode_setup_connection_success msg = concat (to_le 2 msg.used_version ∷ to_le 4 msg.flags ∷ [])

setup_connection_success : Parser Sv2CodecError SetupConnectionSuccess
setup_connection_success = do
  used_version ← read_u16
  flags ← read_u32
  finish
  pure (record { used_version = used_version; flags = flags })

unfoldable pub decode_setup_connection_success :
    List ℕ → Result Sv2CodecError SetupConnectionSuccess
unfolding setup_connection_success
decode_setup_connection_success = parse setup_connection_success

unfoldable pub encode_setup_connection_error : SetupConnectionError → Result Sv2CodecError (List ℕ)
encode_setup_connection_error msg =
    and_then (write_str0_255 msg.error_code) λ code. ok (concat (to_le 4 msg.flags ∷ code ∷ []))

setup_connection_error : Parser Sv2CodecError SetupConnectionError
setup_connection_error = do
  flags ← read_u32
  error_code ← read_str0_255
  finish
  pure (record { flags = flags; error_code = error_code })

unfoldable pub decode_setup_connection_error : List ℕ → Result Sv2CodecError SetupConnectionError
unfolding setup_connection_error
decode_setup_connection_error = parse setup_connection_error

-- The bit of `FLAG_POOL_VERSION`.
abbrev pub pool_version_bit : ℕ
pool_version_bit = 31

-- `flags & (1 << 31) != 0`, `flags & !(1 << 31)` and `flags | (1 << 31)` on a `u32`.
abbrev pub has_pool_version : ℕ → Bool
has_pool_version flags = flags / 2 ^ pool_version_bit % 2 == 1

abbrev pub clear_pool_version : ℕ → ℕ
clear_pool_version flags = flags - flags / 2 ^ pool_version_bit % 2 * 2 ^ pool_version_bit

abbrev pub set_pool_version : ℕ → ℕ
set_pool_version flags = clear_pool_version flags + 2 ^ pool_version_bit

is_ascii_alphanumeric : ℕ → Bool
is_ascii_alphanumeric b =
    (leb b'0' b && leb b b'9') || ((leb b'A' b && leb b b'Z') || (leb b'a' b && leb b b'z'))

unfoldable version_bytes : List ℕ → Bool
unfolding is_ascii_alphanumeric
version_bytes [] = true
version_bytes (b ∷ bs) =
    (is_ascii_alphanumeric b || (b == b'.' || (b == b'-' || b == b'+'))) && version_bytes bs

unfoldable pub valid_pool_version : List ℕ → Bool
unfolding version_bytes
valid_pool_version version =
    not (length version == 0) && (leb (length version) 64 && version_bytes version)

unfoldable pub encode_setup_success_with_pool_version :
    SetupConnectionSuccess → ℕ → List ℕ → Result Sv2CodecError (List ℕ)
unfolding encode_setup_connection_success
encode_setup_success_with_pool_version msg requested_flags version =
    let plain = record msg { flags = clear_pool_version msg.flags } in
    if not (has_pool_version requested_flags)
    then ok (encode_setup_connection_success plain)
    else if not (valid_pool_version version)
    then err invalid_pool_version
    else (let response = record plain { flags = set_pool_version plain.flags } in
        and_then (write_str0_255 version) λ v. ok (encode_setup_connection_success response ++ v))

check_pool_version : List ℕ → Result Sv2CodecError (Unit {0})
check_pool_version bytes = if valid_pool_version bytes then ok tt else err invalid_pool_version

-- The version's bytes have passed the test for ASCII, so `from_utf8` cannot refuse them.
unfoldable read_pool_version : ℕ → Parser Sv2CodecError (Option (List ℕ))
unfolding check_pool_version
read_pool_version flags =
    if has_pool_version flags
    then (do bytes ← read_str0_255; lift (check_pool_version bytes); pure (some bytes))
    else pure none

setup_success_with_pool_version : Parser Sv2CodecError (SetupConnectionSuccess × Option (List ℕ))
unfolding read_pool_version
setup_success_with_pool_version = do
  used_version ← read_u16
  flags ← read_u32
  version ← read_pool_version flags
  finish
  pure (record { used_version = used_version; flags = flags }, version)

unfoldable pub decode_setup_success_with_pool_version :
    List ℕ → Result Sv2CodecError (SetupConnectionSuccess × Option (List ℕ))
unfolding setup_success_with_pool_version
decode_setup_success_with_pool_version = parse setup_success_with_pool_version
