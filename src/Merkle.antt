-- ===== src/Merkle.antt =====
-- Merkle roots: from the coinbase and its path (compute_root of crates/dinero-sv2-jd/src/merkle.rs),
-- and from all leaves (compute_merkle_root_from_leaves and coinbase_merkle_path of
-- crates/dinero-sv2-pool/src/mapper.rs). SHA-256 is a parameter.
pub mod Path
use dinero_sv.Base.{ℕ, zero, suc, List, [], ◌∷◌, ◌++◌, Option, none, some, length}
use dinero_sv.Bytestring.{Bytes}

module _ (sha256d : Bytes → Bytes) where
  unfoldable pub compute_root : Bytes → List Bytes → Bytes
  compute_root acc [] = acc
  compute_root acc (sibling ∷ path) = compute_root (sha256d (acc ++ sibling)) path

  -- The next level: `chunks(2)`, with a last odd hash paired with itself.
  unfoldable pub parents : List Bytes → List Bytes
  parents [] = []
  parents (left ∷ []) = sha256d (left ++ left) ∷ []
  parents (left ∷ right ∷ rest) = sha256d (left ++ right) ∷ parents rest

  -- `while level.len() > 1`; `none` is the panic of `level[0]` where there is no leaf, or means that
  -- the rounds ran out.
  unfoldable pub root_loop : ℕ → List Bytes → Option Bytes
  root_loop rounds [] = none
  root_loop rounds (h ∷ []) = some h
  root_loop zero (h ∷ g ∷ level) = none
  root_loop (suc rounds) (h ∷ g ∷ level) = root_loop rounds (parents (h ∷ g ∷ level))

  -- A level is at most half of the one below it, rounded up, so that its length is enough.
  unfoldable pub compute_merkle_root_from_leaves : List Bytes → Option Bytes
  compute_merkle_root_from_leaves leaves = root_loop (length leaves) leaves

  unfoldable pub path_loop : ℕ → List Bytes → List Bytes → Option (List Bytes)
  path_loop rounds path [] = some path
  path_loop rounds path (h ∷ []) = some path
  path_loop zero path (h ∷ g ∷ level) = none
  path_loop (suc rounds) path (h ∷ g ∷ level) =
      path_loop rounds (path ++ (g ∷ [])) (parents (h ∷ g ∷ level))

  unfoldable pub coinbase_merkle_path : List Bytes → Option (List Bytes)
  coinbase_merkle_path leaves = path_loop (length leaves) [] leaves
