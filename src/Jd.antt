-- ===== src/Jd.antt =====
-- The codec of job declaration templates (crates/dinero-sv2-jd/src/codec.rs).
pub mod Template
pub mod Forest
use dinero_sv.Base.{ℕ, String}
use dinero_sv.Wire.{CursorError}

pub data JdCodecError : Type 0 where
  short : ℕ → ℕ → JdCodecError
  trailing : ℕ → JdCodecError
  invalid_bool : ℕ → JdCodecError
  too_large : String → ℕ → ℕ → JdCodecError

instance abbrev pub jd_cursor : CursorError JdCodecError
jd_cursor = record { short = short; trailing = trailing; too_large = too_large }

abbrev pub max_coinbase_blob : ℕ
max_coinbase_blob = 1_048_576

abbrev pub max_merkle_entries : ℕ
max_merkle_entries = 64

abbrev pub max_utreexo_roots : ℕ
max_utreexo_roots = 64
