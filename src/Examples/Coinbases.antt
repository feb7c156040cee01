-- ===== src/Examples/Coinbases.antt =====
-- The coinbases of miners and of the pool at concrete inputs.
use dinero_sv.Base.{◌≡◌, ◌⊎◌, refl, List, [], ◌∷◌, ◌++◌, Option, none, some, ok, err, replicate}
use dinero_sv.Bytestring.{Bytes, bytes_lt}
use dinero_sv.Wire.Bytes.{to_le}
use dinero_sv.Coinbase.{
  CoinbaseOutput, state_commitment_output, assemble_stripped_coinbase,
  wrap_stripped_with_segwit_witness,
}
use dinero_sv.Pool.Commitment.{valid_state_commitment_outputs}
use dinero_sv.Pool.Template.{Built, build_shared_template}
use dinero_sv.Messages.{NewTemplateDinero, SubmitSharesExtendedDinero}
use dinero_sv.Dnrf.{is_dnrf_script, is_dnrf_script_iff}
use dinero_sv.Pool.Hashes.{contains}
use dinero_sv.Pool.Dedup.{new}
use dinero_sv.Pool.Target.{hash_meets_target}
use dinero_sv.Pool.Work.{PoolTemplate, SharedTemplate, header_hash, sha256d, assemble_block_hex}
use dinero_sv.Pool.Session.{Outside, State, skipped, accepted}
use dinero_sv.Pool.Session.Refusal.{IsRefusal}
use dinero_sv.Pool.Accept.{Channel}
use dinero_sv.Pool.Accept.Fresh.{IsAccepted}
use dinero_sv.Pool.Rebuild.{plain_share, expected_dnrs}
use dinero_sv.Pool.Shared.{handle_shared_share, entry_of_share, miner_key_for_payout_script}
use dinero_sv.Pool.Extended.{handle_extended_share}
use dinero_sv.Pool.Extended.Credit.{handle_extended_share_lem}
use dinero_sv.Examples.Data.{hash}
use dinero_sv.Examples.Sv2.{submit_shares_extended_bytes}
use dinero_sv.Examples.Shares.{sha, twice, hex, template, shared, state, out, channel}

-- A template at a height with every commitment, whose daemon commits to a state.
abbrev prefix : Bytes
prefix = 1 ∷ 0 ∷ 0 ∷ 0 ∷ 1 ∷ replicate 36 0 ++ (2 ∷ 3 ∷ 3 ∷ replicate 4 255)

abbrev witness : Bytes
witness = 1 ∷ 32 ∷ replicate 32 0

abbrev suffix : Bytes
suffix = replicate 4 0

abbrev or_none : Option Bytes → Bytes
or_none none = []
or_none (some s) = s

-- The template of the extended share, at a height without commitments.
abbrev empty_template : PoolTemplate
empty_template = record template {
  height = 0;
  coinbase_value_una = 70_000;
  coinbase_prefix = prefix;
  coinbase_suffix = suffix;
  coinbase_witness_bytes = witness;
  coinbase_full_hex = twice (
      or_none (
        wrap_stripped_with_segwit_witness
          (assemble_stripped_coinbase prefix
            (record { value_una = 70_000; script_pubkey = 0x51 ∷ [] } ∷ []) suffix)
          witness suffix));
  utreexo_pre_block = some (record { forest_roots = []; num_leaves = 0 });
}

-- The share is accepted.
extended_accepted :
    (handle_extended_share sha hex 60_000 out channel submit_shares_extended_bytes
      (some empty_template)
      state).1.accepted_in_window
    ≡ 1
unfolding dinero_sv.Bytestring.bytes_lt dinero_sv.Wire.pure dinero_sv.Wire.lift dinero_sv.Wire.◌>>=◌
    dinero_sv.Wire.take_bytes dinero_sv.Wire.read_u16 dinero_sv.Wire.read_u32
    dinero_sv.Wire.read_u64 dinero_sv.Wire.finish dinero_sv.Wire.read_many dinero_sv.Wire.parse
    dinero_sv.Wire.Bytes.to_le dinero_sv.Wire.Bytes.from_le dinero_sv.Wire.Limits.check_cap
    dinero_sv.Wire.Limits.read_blob dinero_sv.Sv2.Shares.read_output
    dinero_sv.Sv2.Shares.decode_submit_shares_extended dinero_sv.Coinbase.output_bytes
    dinero_sv.Coinbase.outputs_bytes dinero_sv.Coinbase.assemble_stripped_coinbase
    dinero_sv.Coinbase.wrap_stripped_with_segwit_witness dinero_sv.Varint.write_varint
    dinero_sv.Dnrf.requires_filter_commitment dinero_sv.Dnrw.requires_witness_commitment
    dinero_sv.Utreexo.bit dinero_sv.Utreexo.ones dinero_sv.Utreexo.count_ones_below
    dinero_sv.Utreexo.set_bit dinero_sv.Utreexo.validate dinero_sv.Utreexo.insert_at
    dinero_sv.Utreexo.insert_root_at_level dinero_sv.Utreexo.place_carry
    dinero_sv.Utreexo.add_leaf_loop dinero_sv.Utreexo.add_leaf dinero_sv.Utreexo.Commitment.slot_at
    dinero_sv.Utreexo.Commitment.fill_slots dinero_sv.Utreexo.Commitment.commitment_preimage
    dinero_sv.Utreexo.Commitment.commitment dinero_sv.Pool.Mapper.slice
    dinero_sv.Pool.Mapper.read_compact_size dinero_sv.Pool.Mapper.skip_sized
    dinero_sv.Pool.Mapper.has_witness dinero_sv.Pool.Mapper.after_marker
    dinero_sv.Pool.Mapper.with_capacity dinero_sv.Pool.Mapper.parse_inputs
    dinero_sv.Pool.Mapper.parse_script dinero_sv.Pool.Mapper.parse_outputs
    dinero_sv.Pool.Mapper.parse_segwit_tx_inputs_outputs dinero_sv.Pool.Mapper.coinbase_outputs
    dinero_sv.Pool.Commitment.is_candidate dinero_sv.Pool.Commitment.take_root
    dinero_sv.Pool.Commitment.root_loop dinero_sv.Pool.Commitment.state_commitment_root
    dinero_sv.Pool.Commitment.candidates dinero_sv.Pool.Commitment.valid_state_commitment_outputs
    dinero_sv.Pool.Rebuild.miner_outputs dinero_sv.Pool.Rebuild.usable_state
    dinero_sv.Pool.Rebuild.apply_outputs dinero_sv.Pool.Rebuild.utreexo_root_after
    dinero_sv.Pool.Rebuild.check_outputs dinero_sv.Pool.Rebuild.expected_dnrs
    dinero_sv.Pool.Rebuild.rebuild dinero_sv.Pool.Shared.total_value
    dinero_sv.Pool.Work.is_current_job dinero_sv.Pool.Work.sha256d dinero_sv.Pool.Work.header_hash
    dinero_sv.Pool.Extended.extended_block dinero_sv.Pool.Extended.extended_fresh
    dinero_sv.Pool.Extended.extended_hashed dinero_sv.Pool.Extended.extended_checked
    dinero_sv.Pool.Extended.extended_committed dinero_sv.Pool.Extended.extended_usable
    dinero_sv.Pool.Extended.extended_decoded dinero_sv.Pool.Extended.handle_extended_share
    dinero_sv.Pool.Session.write_frame dinero_sv.Pool.Session.send_share_success
    dinero_sv.Pool.Accept.deduplicated dinero_sv.Pool.Accept.accept_share
    dinero_sv.Pool.Accept.note_answer dinero_sv.Pool.Accept.submit_block dinero_sv.Pool.Dedup.insert
    dinero_sv.Pool.Hashes.contains dinero_sv.Pool.Target.hash_meets_target
extended_accepted = refl

handle_extended_share_lem_example :
    let x =
      handle_extended_share sha hex 60_000 out channel submit_shares_extended_bytes
        (some empty_template)
        state in
    IsRefusal state x
    ⊎ ((pt : PoolTemplate) × (ext : SubmitSharesExtendedDinero) × (rebuilt : NewTemplateDinero)
        × (stripped : Bytes) × (some empty_template ≡ some pt)
        × dinero_sv.Pool.Extended.Admitted.IsAdmitted sha hex 60_000 channel
            submit_shares_extended_bytes pt state ext rebuilt stripped
        × IsAccepted hex (header_hash sha rebuilt (plain_share ext)) state x)
handle_extended_share_lem_example =
    handle_extended_share_lem sha hex 60_000 out channel submit_shares_extended_bytes
      (some empty_template) state

abbrev full_template : PoolTemplate
full_template = record template {
  height = 1_000_000;
  coinbase_value_una = 70_000;
  coinbase_prefix = prefix;
  coinbase_suffix = suffix;
  coinbase_witness_bytes = witness;
  coinbase_full_hex = twice (
      or_none (
        wrap_stripped_with_segwit_witness
          (assemble_stripped_coinbase prefix (state_commitment_output (hash 7) ∷ []) suffix) witness
          suffix));
  utreexo_pre_block = some (record { forest_roots = []; num_leaves = 0 });
}

abbrev payouts : List CoinbaseOutput
payouts =
    record { value_una = 60_000; script_pubkey = 0x51 ∷ 0x20 ∷ [] }
    ∷ record { value_una = 10_000; script_pubkey = 0x51 ∷ 0x21 ∷ [] }
    ∷ []

abbrev or_shared : Built SharedTemplate → SharedTemplate
or_shared none = shared
or_shared (some (err e)) = shared
or_shared (some (ok st)) = st

abbrev built : Built SharedTemplate
built = build_shared_template sha hex full_template payouts (some 5) 60_000
