-- ===== src/Sv2.antt =====
-- The codec of the handshake, channel and share messages (crates/dinero-sv2-codec/src/sv2.rs):
-- its errors and limits, and `write_str0_255`. The messages are in the modules below.
mod Strings
pub mod Setup
pub mod Channel
pub mod Context
pub mod Immutable
pub mod Shares
pub mod Reward
use dinero_sv.Base.{ℕ, List, ◌∷◌, String, Result, ok, err, length, ltb, if◌then◌else◌}
use dinero_sv.Wire.{CursorError}

pub data Sv2CodecError : Type 0 where
  invalid_pool_version : Sv2CodecError
  short : ℕ → ℕ → Sv2CodecError
  trailing : ℕ → Sv2CodecError
  string_too_long : ℕ → Sv2CodecError
  too_large : String → ℕ → ℕ → Sv2CodecError

instance abbrev pub sv2_cursor : CursorError Sv2CodecError
sv2_cursor = record { short = short; trailing = trailing; too_large = too_large }

abbrev pub max_coinbase_blob : ℕ
max_coinbase_blob = 1_048_576

abbrev pub max_merkle_entries : ℕ
max_merkle_entries = 64

abbrev pub max_extended_outputs : ℕ
max_extended_outputs = 64

abbrev pub max_scriptpubkey_bytes : ℕ
max_scriptpubkey_bytes = 10_000

abbrev pub str0_255_max : ℕ
str0_255_max = 255

-- The bytes that `write_str0_255` appends.
unfoldable pub write_str0_255 : List ℕ → Result Sv2CodecError (List ℕ)
write_str0_255 s =
    if ltb str0_255_max (length s) then err (string_too_long (length s)) else ok (length s ∷ s)
