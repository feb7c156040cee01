-- ===== src/Dnrw.antt =====
-- The script that commits a coinbase to the witnesses of its block
-- (crates/dinero-sv2-jd/src/witness_commitment.rs). The double SHA-256 is a parameter.
use dinero_sv.Base.{
  ℕ, suc, ◌≡◌, refl, List, [], ◌∷◌, ◌++◌, Option, none, some, length, replicate, leb, Bool, true,
}
use dinero_sv.Bytestring.{Bytes}
use dinero_sv.Dnrf.{has_shape, has_shape_iff}
use dinero_sv.Merkle.{root_loop}

abbrev pub witness_commitment_mandatory_height : ℕ
witness_commitment_mandatory_height = 10_670

abbrev pub dnrw_magic : List ℕ
dnrw_magic = (0x44 ∷ 0x4E ∷ 0x52 ∷ 0x57 ∷ [])

abbrev pub dnrw_version : ℕ
dnrw_version = 0x01

abbrev pub dnrw_data_size : ℕ
dnrw_data_size = 37

unfoldable pub requires_witness_commitment : ℕ → Bool
requires_witness_commitment height = leb witness_commitment_mandatory_height height

unfoldable pub is_dnrw_script : List ℕ → Bool
is_dnrw_script script = has_shape dnrw_magic script

module _ (sha256d : Bytes → Bytes) where
  unfoldable pub wtxid_from_tx_bytes : Bytes → Bytes
  wtxid_from_tx_bytes tx_bytes = sha256d tx_bytes

  -- The loop over the layers is that of the pool's Merkle root. `none` is a panic.
  unfoldable pub witness_merkle_root : List Bytes → Option Bytes
  witness_merkle_root wtxids = root_loop sha256d (suc (length wtxids)) (replicate 32 0 ∷ wtxids)

  unfoldable pub build_dnrw_script : Bytes → List ℕ
  build_dnrw_script root =
      0x6A ∷ dnrw_data_size ∷ (dnrw_magic ++ (dnrw_version ∷ sha256d (root ++ replicate 32 0)))

  unfoldable pub build_dnrw_script_coinbase_only : Option (List ℕ)
  build_dnrw_script_coinbase_only = elim (witness_merkle_root []) [
    | none ↦ none
    | some root ↦ some (build_dnrw_script root)
  ]

  -- The hash of the coinbase alone needs no hashing of layers.
  pub build_dnrw_script_coinbase_only_lem :
      build_dnrw_script_coinbase_only ≡ some (build_dnrw_script (replicate 32 0))
  unfolding build_dnrw_script_coinbase_only witness_merkle_root root_loop
  build_dnrw_script_coinbase_only_lem = refl

  -- What is built is recognised.
  pub is_dnrw_script-build_dnrw_script :
      (root : Bytes)
      → length (sha256d (root ++ replicate 32 0)) ≡ 32
      → is_dnrw_script (build_dnrw_script root) ≡ true
  unfolding is_dnrw_script build_dnrw_script
  is_dnrw_script-build_dnrw_script root h =
      (has_shape_iff dnrw_magic _ refl).1 (sha256d (root ++ replicate 32 0), h, refl)
