-- ===== src/Examples/Templates.antt =====
-- Templates, shares and accumulator states that the round trips apply to.
use dinero_sv.Base.{ℕ, ◌≡◌, refl, arith, List, [], ◌∷◌, ok, concat, true, false, ◌↔◌}
use dinero_sv.Header.{IsWork, header_bytes, header_bytes_inj}
use dinero_sv.Examples.Data.{hash, are_bytes}
use dinero_sv.Messages.{NewTemplateDinero, SubmitSharesDinero}
use dinero_sv.Fixed.Submit.{encode_submit_shares, decode_submit_shares}
use dinero_sv.Fixed.Submit.RoundTrip.{encode_submit_shares_iff}
use dinero_sv.Jd.Template.{NewTemplateDineroJd}
use dinero_sv.Utreexo.{UtreexoAccumulatorState}

abbrev new_template_data : NewTemplateDinero
new_template_data = record {
  template_id = 77;
  future_template = true;
  version = 536870912;
  prev_block_hash = hash 1;
  merkle_root = hash 2;
  utreexo_root = hash 3;
  timestamp = 1700000000;
  difficulty = 486604799;
  coinbase_outputs_commitment = hash 4;
}

abbrev new_template_bytes : List ℕ
new_template_bytes = concat (
    (77 ∷ 0 ∷ 0 ∷ 0 ∷ 0 ∷ 0 ∷ 0 ∷ 0 ∷ 1 ∷ 0 ∷ 0 ∷ 0 ∷ 32 ∷ [])
    ∷ hash 1
    ∷ hash 2
    ∷ hash 3
    ∷ (0 ∷ 241 ∷ 83 ∷ 101 ∷ 0 ∷ 0 ∷ 0 ∷ 0 ∷ 255 ∷ 255 ∷ 0 ∷ 29 ∷ [])
    ∷ hash 4
    ∷ [])

abbrev submit_shares_data : SubmitSharesDinero
submit_shares_data = record {
  channel_id = 5;
  sequence_number = 6;
  job_id = 7;
  nonce = 305419896;
  timestamp = 1700000000;
  version = 1;
}

abbrev submit_shares_bytes : List ℕ
submit_shares_bytes =
    (5 ∷ 0 ∷ 0 ∷ 0 ∷ 6 ∷ 0 ∷ 0 ∷ 0 ∷ 7 ∷ 0 ∷ 0 ∷ 0 ∷ 120 ∷ 86 ∷ 52 ∷ 18 ∷ 0 ∷ 241 ∷ 83 ∷ 101 ∷ 0 ∷ 0
      ∷ 0 ∷ 0 ∷ 1 ∷ 0 ∷ 0 ∷ 0 ∷ [])

encode_submit_shares_iff_example :
    (encode_submit_shares submit_shares_data ≡ submit_shares_bytes)
    ↔ (decode_submit_shares submit_shares_bytes ≡ ok submit_shares_data)
encode_submit_shares_iff_example =
    encode_submit_shares_iff submit_shares_data submit_shares_bytes
      (record {
        channel_id = omega arith;
        sequence_number = omega arith;
        job_id = omega arith;
        nonce = omega arith;
        timestamp = omega arith;
        version = omega arith;
      })
      (are_bytes submit_shares_bytes refl)

abbrev new_template_jd_data : NewTemplateDineroJd
new_template_jd_data = record {
  template_id = 77;
  future_template = false;
  version = 536870912;
  prev_block_hash = hash 1;
  utreexo_root = hash 3;
  timestamp = 1700000000;
  difficulty = 486604799;
  coinbase_prefix = (1 ∷ 2 ∷ []);
  coinbase_suffix = (3 ∷ []);
  merkle_path = hash 7 ∷ [];
}

abbrev new_template_jd_bytes : List ℕ
new_template_jd_bytes = concat (
    (77 ∷ 0 ∷ 0 ∷ 0 ∷ 0 ∷ 0 ∷ 0 ∷ 0 ∷ 0 ∷ 0 ∷ 0 ∷ 0 ∷ 32 ∷ [])
    ∷ hash 1
    ∷ hash 3
    ∷ (0 ∷ 241 ∷ 83 ∷ 101 ∷ 0 ∷ 0 ∷ 0 ∷ 0 ∷ 255 ∷ 255 ∷ 0 ∷ 29 ∷ 2 ∷ 0 ∷ 0 ∷ 0 ∷ 1 ∷ 2 ∷ 1 ∷ 0 ∷ 0
        ∷ 0 ∷ 3 ∷ 1 ∷ 0 ∷ [])
    ∷ hash 7
    ∷ [])

abbrev utreexo_accumulator_state_data : UtreexoAccumulatorState
utreexo_accumulator_state_data = record { forest_roots = hash 1 ∷ hash 2 ∷ []; num_leaves = 6 }

abbrev utreexo_accumulator_state_bytes : List ℕ
utreexo_accumulator_state_bytes =
    concat ((2 ∷ 0 ∷ []) ∷ hash 1 ∷ hash 2 ∷ (6 ∷ 0 ∷ 0 ∷ 0 ∷ 0 ∷ 0 ∷ 0 ∷ 0 ∷ []) ∷ [])

abbrev new_work : IsWork new_template_data submit_shares_data
new_work = record {
  version = omega arith;
  prev_block_hash = refl;
  merkle_root = refl;
  utreexo_root = refl;
  timestamp = omega arith;
  difficulty = omega arith;
  nonce = omega arith;
}

-- Another job of the same miner, with the same header.
abbrev other_share : SubmitSharesDinero
other_share = record submit_shares_data { job_id = 8 }

abbrev other_work : IsWork new_template_data other_share
other_work = record {
  version = omega arith;
  prev_block_hash = refl;
  merkle_root = refl;
  utreexo_root = refl;
  timestamp = omega arith;
  difficulty = omega arith;
  nonce = omega arith;
}

header_bytes_inj_example :
    (1 ≡ other_share.version)
    × (hash 1 ≡ hash 1)
    × (hash 2 ≡ hash 2)
    × (hash 3 ≡ hash 3)
    × (1_700_000_000 ≡ other_share.timestamp)
    × (new_template_data.difficulty ≡ 486604799)
    × (305419896 ≡ other_share.nonce)
unfolding header_bytes
header_bytes_inj_example =
    header_bytes_inj new_template_data new_template_data submit_shares_data other_share new_work
      other_work refl
