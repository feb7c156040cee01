-- ===== src/Messages.antt =====
-- The plain message structs (crates/dinero-sv2-common/src/sv2_messages.rs and lib.rs).
-- Byte strings and arrays are lists of numbers; `IsValid` states the widths of the Rust types.
use dinero_sv.Base.{ℕ, List, Option, Bool}

pub record SetupConnection : Type 0 where
  pub protocol : ℕ
  pub min_version : ℕ
  pub max_version : ℕ
  pub flags : ℕ
  pub user_agent : List ℕ

pub record SetupConnectionSuccess : Type 0 where
  pub used_version : ℕ
  pub flags : ℕ

pub record SetupConnectionError : Type 0 where
  pub flags : ℕ
  pub error_code : List ℕ

pub record OpenStandardMiningChannel : Type 0 where
  pub request_id : ℕ
  pub user_identity : List ℕ
  pub nominal_hash_rate_bits : ℕ
  pub max_target : List ℕ

pub record OpenStandardMiningChannelSuccess : Type 0 where
  pub request_id : ℕ
  pub channel_id : ℕ
  pub target : List ℕ

pub record OpenStandardMiningChannelError : Type 0 where
  pub request_id : ℕ
  pub error_code : List ℕ

pub record SubmitSharesSuccess : Type 0 where
  pub channel_id : ℕ
  pub last_sequence_number : ℕ
  pub new_submits_accepted_count : ℕ
  pub new_shares_sum : ℕ

pub record SubmitSharesError : Type 0 where
  pub channel_id : ℕ
  pub sequence_number : ℕ
  pub error_code : List ℕ

pub record CoinbaseContext : Type 0 where
  pub channel_id : ℕ
  pub coinbase_prefix : List ℕ
  pub coinbase_suffix : List ℕ
  pub merkle_path : List (List ℕ)
  pub height : ℕ
  pub coinbase_value_una : ℕ
  pub state_commitment_root : Option (List ℕ)

pub record CoinbaseOutputWire : Type 0 where
  pub value_una : ℕ
  pub script_pubkey : List ℕ

pub record ImmutableCoinbase : Type 0 where
  pub template_id : ℕ
  pub context : CoinbaseContext
  pub outputs : List CoinbaseOutputWire

pub record SubmitSharesExtendedDinero : Type 0 where
  pub channel_id : ℕ
  pub sequence_number : ℕ
  pub job_id : ℕ
  pub nonce : ℕ
  pub timestamp : ℕ
  pub version : ℕ
  pub coinbase_outputs : List CoinbaseOutputWire

pub record SetTarget : Type 0 where
  pub channel_id : ℕ
  pub max_target : List ℕ

pub record SetNewPrevHash : Type 0 where
  pub channel_id : ℕ
  pub prev_hash : List ℕ
  pub min_ntime : ℕ
  pub nbits : ℕ

pub record SetRewardMode : Type 0 where
  pub channel_id : ℕ
  pub mode : ℕ
  pub payout_script : List ℕ

pub record WindowStatus : Type 0 where
  pub channel_id : ℕ
  pub window_bps : ℕ
  pub window_shares : ℕ

pub record NewTemplateDinero : Type 0 where
  pub template_id : ℕ
  pub future_template : Bool
  pub version : ℕ
  pub prev_block_hash : List ℕ
  pub merkle_root : List ℕ
  pub utreexo_root : List ℕ
  pub timestamp : ℕ
  pub difficulty : ℕ
  pub coinbase_outputs_commitment : List ℕ

pub record SubmitSharesDinero : Type 0 where
  pub channel_id : ℕ
  pub sequence_number : ℕ
  pub job_id : ℕ
  pub nonce : ℕ
  pub timestamp : ℕ
  pub version : ℕ
