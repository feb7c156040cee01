-- ===== src/Examples/Chain.antt =====
-- The accumulator, the coinbase and its Merkle path at concrete inputs.
use dinero_sv.Base.{
  ℕ, ◌%◌, ◌≡◌, ◌<◌, ◌↔◌, refl, arith, List, [], ◌∷◌, ◌++◌, some, ok, length, replicate, true, false,
}
use dinero_sv.Wire.Bytes.{to_le}
use dinero_sv.Examples.Data.{hash}
use dinero_sv.Varint.{write_varint, read_varint}
use dinero_sv.Varint.RoundTrip.{read_varint-write_varint}
use dinero_sv.Utreexo.{UtreexoAccumulatorState, ones, validate, add_leaf, add_leaves}
use dinero_sv.Utreexo.Slots.{add_leaf-validate, state_of, number}
use dinero_sv.Utreexo.Trees.{Forest, IsForest, leaves, state, slots, add_leaves-Forest}
use dinero_sv.Utreexo.Commitment.{IsAccumulator, commitment_binds}
use dinero_sv.Utreexo.Leaf.{
  Utxo, IsSameLeaf, leaf_hash_for_height, leaf_hash, leaf_preimage, leaf_hash_for_height_binds,
}
use dinero_sv.Utreexo.Positions.{
  IsIn, tree_height_for_position, tree_start_position, tree_height_for_position_lem,
}
use dinero_sv.Merkle.{compute_root, compute_merkle_root_from_leaves, coinbase_merkle_path}
use dinero_sv.Merkle.Path.{compute_root-coinbase_merkle_path}
use dinero_sv.Extranonce.{inject_scriptsig_extranonce}
use dinero_sv.Extranonce.Unique.{inject_scriptsig_extranonce_inj}
use dinero_sv.Extranonce.Layout
use dinero_sv.Extranonce.Layout.{inject_scriptsig_extranonce_lem}
use dinero_sv.Coinbase.{
  CoinbaseOutput, assemble_stripped_coinbase, wrap_stripped_with_segwit_witness,
  state_commitment_output, outputs_bytes, output_bytes,
}
use dinero_sv.Pool.Mapper.{split_coinbase_segwit, coinbase_outputs}
use dinero_sv.Pool.Mapper.Walk.{TxInput, inputs_bytes, items_bytes, stacks_bytes}
use dinero_sv.Pool.Mapper.Split.{prefix_of, split_coinbase_segwit-wrap}
use dinero_sv.Pool.Mapper.Outputs.{coinbase_outputs-wrap}
use dinero_sv.Pool.Commitment.{state_commitment_root, valid_state_commitment_outputs}
use dinero_sv.Pool.Commitment.Valid.{state_commitment_root-valid}

-- A hash function of 32 bytes, and one without collisions.
abbrev sha : List ℕ → List ℕ
sha s = replicate 32 (length s % 256)

abbrev same : List ℕ → List ℕ
same s = s

abbrev one_leaf : UtreexoAccumulatorState
one_leaf = record { forest_roots = hash 1 ∷ []; num_leaves = 1 }

add_leaf-validate_example :
    (next : UtreexoAccumulatorState) × (add_leaf sha one_leaf (hash 2) ≡ some (ok tt, next))
    × (validate next ≡ ok tt)
    × (next.num_leaves ≡ 2)
unfolding validate ones
add_leaf-validate_example = add_leaf-validate sha one_leaf (hash 2) (omega arith) refl

abbrev new_leaves : List (List ℕ)
new_leaves = hash 1 ∷ hash 2 ∷ hash 3 ∷ []

add_leaves-Forest_example :
    (g : Forest) × IsForest 0 g
    × (leaves g ≡ leaves [] ++ new_leaves)
    × (add_leaves sha (state sha []) new_leaves ≡ some (ok tt, state sha g))
unfolding IsForest state slots state_of number
add_leaves-Forest_example = add_leaves-Forest sha [] new_leaves tt (omega arith)

commitment_binds_example : one_leaf ≡ one_leaf
unfolding IsAccumulator validate ones
commitment_binds_example =
    commitment_binds same one_leaf one_leaf (omega arith, refl, (refl, tt))
      (omega arith, refl, (refl, tt)) (λ x y p q h. h) refl

-- Two outputs from below the activation height that differ in their own heights only.
abbrev utxo : ℕ → Utxo
utxo height = record {
  txid = hash 5;
  vout = 1;
  amount = 700;
  script_pubkey = 81 ∷ [];
  created_height = height;
  is_coinbase = false;
}

leaf_hash_for_height_binds_example : IsSameLeaf 60_000 (utxo 3) (utxo 4)
unfolding leaf_hash_for_height leaf_hash leaf_preimage
leaf_hash_for_height_binds_example =
    leaf_hash_for_height_binds same 60_000 (utxo 3) (utxo 4)
      (refl, omega arith, omega arith, omega arith, omega arith)
      (refl, omega arith, omega arith, omega arith, omega arith) (λ h. h) refl

tree_height_for_position_lem_example :
    (tree_height_for_position 5 4 < 64)
    × IsIn 5 4 (tree_height_for_position 5 4) (tree_start_position 5 (tree_height_for_position 5 4))
tree_height_for_position_lem_example = tree_height_for_position_lem 5 4 (omega arith) (omega arith)

compute_root-coinbase_merkle_path_example :
    (path : List (List ℕ)) × (coinbase_merkle_path sha new_leaves ≡ some path)
    × (compute_merkle_root_from_leaves sha new_leaves ≡ some (compute_root sha (hash 1) path))
compute_root-coinbase_merkle_path_example =
    compute_root-coinbase_merkle_path sha (hash 1) (hash 2 ∷ hash 3 ∷ [])

read_varint-write_varint_example :
    read_varint ((7 ∷ []) ++ (write_varint 300 ++ (9 ∷ []))) 1 ≡ ok (300, length (write_varint 300))
read_varint-write_varint_example = read_varint-write_varint 300 (7 ∷ []) (9 ∷ []) (omega arith)

abbrev four_bytes : ℕ → List ℕ
four_bytes b = replicate 4 b

abbrev outpoint : List ℕ
outpoint = hash 0 ++ four_bytes 255

abbrev prefix : List ℕ → List ℕ
prefix script = Layout.prefix_of (1 ∷ 0 ∷ 0 ∷ 0 ∷ []) outpoint script (four_bytes 255)

inject_scriptsig_extranonce_lem_example :
    inject_scriptsig_extranonce (prefix (3 ∷ 7 ∷ [])) 9
    ≡ ok (prefix (3 ∷ 7 ∷ 4 ∷ 9 ∷ 0 ∷ 0 ∷ 0 ∷ []))
unfolding to_le
inject_scriptsig_extranonce_lem_example =
    inject_scriptsig_extranonce_lem (1 ∷ 0 ∷ 0 ∷ 0 ∷ []) outpoint (3 ∷ 7 ∷ []) (four_bytes 255) refl
      refl refl (omega arith) 9

abbrev nine : ℕ
nine = 9

injected :
    inject_scriptsig_extranonce (prefix (3 ∷ 7 ∷ [])) nine
    ≡ ok (prefix (3 ∷ 7 ∷ 4 ∷ 9 ∷ 0 ∷ 0 ∷ 0 ∷ []))
unfolding to_le
injected =
    inject_scriptsig_extranonce_lem (1 ∷ 0 ∷ 0 ∷ 0 ∷ []) outpoint (3 ∷ 7 ∷ []) (four_bytes 255) refl
      refl refl (omega arith) nine

inject_scriptsig_extranonce_inj_example : nine ≡ nine
inject_scriptsig_extranonce_inj_example =
    inject_scriptsig_extranonce_inj (prefix (3 ∷ 7 ∷ [])) nine nine
      (prefix (3 ∷ 7 ∷ 4 ∷ 9 ∷ 0 ∷ 0 ∷ 0 ∷ [])) (omega arith) (omega arith) injected injected

abbrev input : TxInput
input = record { prevout = outpoint; script_sig = 3 ∷ 7 ∷ []; sequence = four_bytes 255 }

abbrev output : CoinbaseOutput
output = record { value_una = 5000; script_pubkey = 81 ∷ 2 ∷ [] }

abbrev version : List ℕ
version = 1 ∷ 0 ∷ 0 ∷ 0 ∷ []

abbrev stripped : List ℕ
stripped = assemble_stripped_coinbase (prefix_of version (input ∷ [])) (output ∷ []) (four_bytes 0)

abbrev stacks : List ℕ
stacks = stacks_bytes ((hash 0 ∷ []) ∷ []) []

split_coinbase_segwit-wrap_example :
    (full : List ℕ) × (wrap_stripped_with_segwit_witness stripped stacks (four_bytes 0) ≡ some full)
    × (split_coinbase_segwit full
        ≡ some (ok (prefix_of version (input ∷ []), four_bytes 0, stacks)))
unfolding assemble_stripped_coinbase outputs_bytes output_bytes inputs_bytes stacks_bytes
    items_bytes write_varint to_le
split_coinbase_segwit-wrap_example =
    split_coinbase_segwit-wrap version (input ∷ []) (output ∷ []) ((hash 0 ∷ []) ∷ [])
      (four_bytes 0) refl refl ((refl, omega arith, refl), tt) (omega arith, tt)
      ((omega arith, (omega arith, tt)), tt) (omega arith) (omega arith) refl (omega arith)

coinbase_outputs-wrap_example :
    (full : List ℕ) × (wrap_stripped_with_segwit_witness stripped stacks (four_bytes 0) ≡ some full)
    × (coinbase_outputs full ≡ some (ok (output ∷ [])))
unfolding assemble_stripped_coinbase outputs_bytes output_bytes inputs_bytes stacks_bytes
    items_bytes write_varint to_le
coinbase_outputs-wrap_example =
    coinbase_outputs-wrap version (input ∷ []) (output ∷ []) ((hash 0 ∷ []) ∷ []) (four_bytes 0)
      refl refl ((refl, omega arith, refl), tt) ((omega arith, omega arith), tt)
      ((omega arith, (omega arith, tt)), tt) (omega arith) (omega arith) refl (omega arith)

abbrev outputs : List CoinbaseOutput
outputs = output ∷ state_commitment_output (hash 8) ∷ []

state_commitment_root-valid_example :
    (state_commitment_root outputs ≡ ok (some (hash 8)))
    ↔ (valid_state_commitment_outputs (some (hash 8)) outputs ≡ true)
state_commitment_root-valid_example = state_commitment_root-valid (hash 8) outputs refl
