-- ===== src/Coinbase.antt =====
-- The coinbase that a miner assembles (crates/dinero-sv2-jd/src/coinbase.rs) and its form in a block
-- (wrap_stripped_with_segwit_witness of crates/dinero-sv2-pool/src/block.rs). A coinbase's id, its
-- double SHA-256 by a third-party crate, is left out of the pair that the source returns.
use dinero_sv.Base.{
  ℕ, ◌+◌, ◌-◌, List, [], ◌∷◌, ◌++◌, Option, none, some, length, take, drop, concat, ltb,
  if◌then◌else◌,
}
use dinero_sv.Wire.Bytes.{to_le}
use dinero_sv.Varint.{write_varint}

pub record CoinbaseOutput : Type 0 where
  pub value_una : ℕ
  pub script_pubkey : List ℕ

unfoldable pub output_bytes : CoinbaseOutput → List ℕ
output_bytes out =
    to_le 8 out.value_una ++ (write_varint (length out.script_pubkey) ++ out.script_pubkey)

-- The loop over the outputs, in front of what follows them.
unfoldable pub outputs_bytes : List CoinbaseOutput → List ℕ → List ℕ
outputs_bytes [] rest = rest
outputs_bytes (out ∷ outs) rest = output_bytes out ++ outputs_bytes outs rest

unfoldable pub assemble_stripped_coinbase : List ℕ → List CoinbaseOutput → List ℕ → List ℕ
assemble_stripped_coinbase coinbase_prefix outputs coinbase_suffix =
    coinbase_prefix ++ (write_varint (length outputs) ++ outputs_bytes outputs coinbase_suffix)

unfoldable pub state_commitment_output : List ℕ → CoinbaseOutput
state_commitment_output root = record {
  value_una = 0;
  script_pubkey = 0x6A ∷ 37 ∷ b'D' ∷ b'N' ∷ b'R' ∷ b'S' ∷ 1 ∷ root;
}

-- `none` where the assertion on the length fails.
unfoldable pub wrap_stripped_with_segwit_witness : List ℕ → List ℕ → List ℕ → Option (List ℕ)
wrap_stripped_with_segwit_witness stripped witness_bytes suffix =
    let mid_end = length stripped - length suffix in
    if ltb (length stripped) (4 + length suffix)
    then none
    else some (
        concat (
          take 4 stripped
          ∷ (0x00 ∷ 0x01 ∷ [])
          ∷ take (mid_end - 4) (drop 4 stripped)
          ∷ witness_bytes
          ∷ drop mid_end stripped
          ∷ []))
