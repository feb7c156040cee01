-- ===== src/Pool/Work.antt =====
-- The work that a channel is given, and whether a share belongs to it: PoolTemplate of mapper.rs,
-- SharedTemplate of shared_template.rs, Origin of orchard.rs without what only its RPC calls use,
-- the rules of job_generation.rs, and assemble_block_hex of block.rs, all of
-- crates/dinero-sv2-pool/src. HeaderAssembly::hash is of crates/dinero-sv2-common/src/lib.rs.
use dinero_sv.Base.{
  ℕ, List, [], ◌∷◌, map, Option, none, some, Result, ok, err, length, take, drop, concat, ltb, leb,
  ◌==◌, if◌then◌else◌, Bool, ◌&&◌, not,
}
use dinero_sv.Bytestring.{Bytes, bytes_eq}
use dinero_sv.Wire.Bytes.{to_le, from_le}
use dinero_sv.Messages.{NewTemplateDinero, SubmitSharesDinero}
use dinero_sv.Header.{header_bytes}
use dinero_sv.Coinbase.{CoinbaseOutput}
use dinero_sv.Utreexo.{UtreexoAccumulatorState}
use dinero_sv.Pool.Block.{Hex, assemble_block_hex_raw}

pub record MempoolTx : Type 0 where
  pub data_ : Bytes
  pub txid_raw : Bytes
  pub inputs : List (Bytes × ℕ)
  pub outputs : List (ℕ × Bytes)

pub record PoolTemplate : Type 0 where
  pub wire : NewTemplateDinero
  pub coinbase_full_hex : Bytes
  pub block_target : Bytes
  pub utreexo_pre_block : Option UtreexoAccumulatorState
  pub height : ℕ
  pub coinbase_value_una : ℕ
  pub coinbase_prefix : Bytes
  pub coinbase_suffix : Bytes
  pub coinbase_witness_bytes : Bytes
  pub merkle_path : List Bytes
  pub coinbase_txid_raw : Bytes
  pub mempool_txs : List MempoolTx
  pub spent_input_scripts : List Bytes

pub record Origin : Type 0 where
  pub wire_bytes : Bytes
  pub merkle_path : List Bytes
  pub min_time : ℕ
  pub max_time : ℕ

pub record SharedTemplate : Type 0 where
  pub orchard : Option Origin
  pub mempool_tx_data : List Bytes
  pub height : ℕ
  pub wire : NewTemplateDinero
  pub coinbase_full_hex : Bytes
  pub outputs : List CoinbaseOutput

unfoldable pub is_current_job : ℕ → ℕ → Bool
is_current_job job_id template_id = job_id == template_id

unfoldable pub is_current_context : ℕ → Bytes → ℕ → Bytes → Bool
is_current_context installed_epoch installed_parent observed_epoch observed_parent =
    installed_epoch == observed_epoch && bytes_eq installed_parent observed_parent

-- Another share of the same work has the version of the job and a time in its bounds.
unfoldable pub accepts_header : Origin → NewTemplateDinero → SubmitSharesDinero → Bool
accepts_header origin wire share =
    share.version == wire.version
    && (leb origin.min_time share.timestamp && leb share.timestamp origin.max_time)

-- Why a block cannot be put together.
pub data WorkError : Type 0 where
  missing_sealed_block : WorkError
  header_modified : WorkError
  coinbase_hex : WorkError

-- The sealed block with the share's time and nonce written over its header.
unfoldable pub sealed_bytes : Bytes → SubmitSharesDinero → Bytes
sealed_bytes wire share = concat (
    take 100 wire
    ∷ to_le 8 share.timestamp
    ∷ take 4 (drop 108 wire)
    ∷ to_le 4 share.nonce
    ∷ drop 116 wire
    ∷ [])

unfoldable pub data_of : List MempoolTx → List Bytes
data_of txs = map (λ (tx : MempoolTx). tx.data_) txs

module _ (hex : Hex) where
  unfoldable pub block_hex : Origin → SubmitSharesDinero → Result WorkError Bytes
  block_hex origin share =
      if not (ltb 128 (length origin.wire_bytes))
      then err missing_sealed_block
      else if not (
          share.version == from_le (take 4 origin.wire_bytes)
          && (leb origin.min_time share.timestamp && leb share.timestamp origin.max_time))
      then err header_modified
      else ok (hex.encode (sealed_bytes origin.wire_bytes share))

  unfoldable pub assemble_block_hex :
      NewTemplateDinero → SubmitSharesDinero → Bytes → List Bytes → Result WorkError Bytes
  assemble_block_hex template share coinbase_full_hex mempool_tx_data =
      elim (hex.decode coinbase_full_hex) [
        | none ↦ err coinbase_hex
        | some coinbase ↦ ok (assemble_block_hex_raw hex template share coinbase mempool_tx_data)
      ]

module _ (sha256 : Bytes → Bytes) where
  unfoldable pub sha256d : Bytes → Bytes
  sha256d bytes = sha256 (sha256 bytes)

  -- `HeaderAssembly::hash`
  unfoldable pub header_hash : NewTemplateDinero → SubmitSharesDinero → Bytes
  header_hash template share = sha256d (header_bytes template share)
