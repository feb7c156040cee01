-- ===== src/Examples/Sv2.antt =====
-- Messages of the mining protocol that the round trips apply to.
use dinero_sv.Base.{ℕ, ◌≡◌, refl, arith, List, [], ◌∷◌, some, ok, concat, ◌↔◌}
use dinero_sv.Examples.Data.{hash, are_bytes}
use dinero_sv.Messages.{
  SetupConnection, OpenStandardMiningChannel, CoinbaseContext, SubmitSharesExtendedDinero,
  ImmutableCoinbase,
}
use dinero_sv.Sv2.Shares.{encode_submit_shares_extended, decode_submit_shares_extended}
use dinero_sv.Sv2.Shares.RoundTrip.{encode_submit_shares_extended_iff}

abbrev setup_connection_data : SetupConnection
setup_connection_data = record {
  protocol = 0;
  min_version = 2;
  max_version = 515;
  flags = 65536;
  user_agent = (100 ∷ 112 ∷ 117 ∷ []);
}

abbrev setup_connection_bytes : List ℕ
setup_connection_bytes = (0 ∷ 2 ∷ 0 ∷ 3 ∷ 2 ∷ 0 ∷ 0 ∷ 1 ∷ 0 ∷ 3 ∷ 100 ∷ 112 ∷ 117 ∷ [])

abbrev open_standard_mining_channel_data : OpenStandardMiningChannel
open_standard_mining_channel_data = record {
  request_id = 300;
  user_identity = (114 ∷ 105 ∷ 103 ∷ []);
  nominal_hash_rate_bits = 70000;
  max_target = hash 255;
}

abbrev open_standard_mining_channel_bytes : List ℕ
open_standard_mining_channel_bytes =
    concat ((44 ∷ 1 ∷ 0 ∷ 0 ∷ 3 ∷ 114 ∷ 105 ∷ 103 ∷ 112 ∷ 17 ∷ 1 ∷ 0 ∷ []) ∷ hash 255 ∷ [])

abbrev coinbase_context_data : CoinbaseContext
coinbase_context_data = record {
  channel_id = 5;
  coinbase_prefix = (1 ∷ 2 ∷ []);
  coinbase_suffix = (3 ∷ []);
  merkle_path = hash 7 ∷ hash 8 ∷ [];
  height = 400;
  coinbase_value_una = 10000000000;
  state_commitment_root = some (hash 9);
}

abbrev coinbase_context_bytes : List ℕ
coinbase_context_bytes = concat (
    (5 ∷ 0 ∷ 0 ∷ 0 ∷ 2 ∷ 0 ∷ 0 ∷ 0 ∷ 1 ∷ 2 ∷ 1 ∷ 0 ∷ 0 ∷ 0 ∷ 3 ∷ 2 ∷ 0 ∷ [])
    ∷ hash 7
    ∷ hash 8
    ∷ (144 ∷ 1 ∷ 0 ∷ 0 ∷ 0 ∷ 228 ∷ 11 ∷ 84 ∷ 2 ∷ 0 ∷ 0 ∷ 0 ∷ [])
    ∷ hash 9
    ∷ [])

abbrev pub submit_shares_extended_data : SubmitSharesExtendedDinero
submit_shares_extended_data = record {
  channel_id = 5;
  sequence_number = 6;
  job_id = 7;
  nonce = 305419896;
  timestamp = 1700000000;
  version = 1;
  coinbase_outputs = record { value_una = 70000; script_pubkey = (81 ∷ 32 ∷ 1 ∷ []) } ∷ [];
}

abbrev pub submit_shares_extended_bytes : List ℕ
submit_shares_extended_bytes =
    (5 ∷ 0 ∷ 0 ∷ 0 ∷ 6 ∷ 0 ∷ 0 ∷ 0 ∷ 7 ∷ 0 ∷ 0 ∷ 0 ∷ 120 ∷ 86 ∷ 52 ∷ 18 ∷ 0 ∷ 241 ∷ 83 ∷ 101 ∷ 0 ∷ 0
      ∷ 0 ∷ 0 ∷ 1 ∷ 0 ∷ 0 ∷ 0 ∷ 1 ∷ 0 ∷ 112 ∷ 17 ∷ 1 ∷ 0 ∷ 0 ∷ 0 ∷ 0 ∷ 0 ∷ 3 ∷ 0 ∷ 0 ∷ 0 ∷ 81 ∷ 32
      ∷ 1 ∷ [])

encode_submit_shares_extended_iff_example :
    (encode_submit_shares_extended submit_shares_extended_data ≡ ok submit_shares_extended_bytes)
    ↔ (decode_submit_shares_extended submit_shares_extended_bytes ≡ ok submit_shares_extended_data)
encode_submit_shares_extended_iff_example =
    encode_submit_shares_extended_iff submit_shares_extended_data submit_shares_extended_bytes
      (record {
        channel_id = omega arith;
        sequence_number = omega arith;
        job_id = omega arith;
        nonce = omega arith;
        timestamp = omega arith;
        version = omega arith;
        values = (omega arith, tt);
      })
      (are_bytes submit_shares_extended_bytes refl)

abbrev immutable_coinbase_data : ImmutableCoinbase
immutable_coinbase_data = record {
  template_id = 77;
  context = coinbase_context_data;
  outputs = record { value_una = 70000; script_pubkey = (81 ∷ 32 ∷ 1 ∷ []) } ∷ [];
}

abbrev immutable_coinbase_bytes : List ℕ
immutable_coinbase_bytes = concat (
    (1 ∷ 77 ∷ 0 ∷ 0 ∷ 0 ∷ 0 ∷ 0 ∷ 0 ∷ 0 ∷ 125 ∷ 0 ∷ 0 ∷ 0 ∷ [])
    ∷ coinbase_context_bytes
    ∷ (1 ∷ 0 ∷ 112 ∷ 17 ∷ 1 ∷ 0 ∷ 0 ∷ 0 ∷ 0 ∷ 0 ∷ 3 ∷ 0 ∷ 0 ∷ 0 ∷ 81 ∷ 32 ∷ 1 ∷ [])
    ∷ [])
