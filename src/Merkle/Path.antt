-- ===== src/Merkle/Path.antt =====
-- The path of the coinbase leads to the root of all leaves.
use dinero_sv.Base.{
  ℕ, zero, suc, ◌*◌, ◌≡◌, ◌≢◌, ◌≤◌, ◌⊎◌, refl, sym, ap, ◌∙◌, arith, List, [], ◌∷◌, ◌++◌, some,
  length, inl, inr,
}
use dinero_sv.Bytestring.{Bytes, bytes_same_or_differ}
use dinero_sv.Wire.Bytes.{IsArray32}
use dinero_sv.Base.{append_inj}
use dinero_sv.Merkle.{
  compute_root, parents, root_loop, compute_merkle_root_from_leaves, path_loop,
  coinbase_merkle_path,
}

module _ (sha256d : Bytes → Bytes) where
  length-parents : (level : List Bytes) → 2 * length (parents sha256d level) ≤ suc (length level)
  unfolding parents
  length-parents [] = omega arith
  length-parents (h ∷ []) = omega arith
  length-parents (h ∷ g ∷ level) = omega (arith, length-parents level)

  compute_root-append :
      (acc : Bytes) (path : List Bytes) (g : Bytes)
      → compute_root sha256d acc (path ++ (g ∷ [])) ≡ sha256d (compute_root sha256d acc path ++ g)
  unfolding compute_root
  compute_root-append acc [] g = refl
  compute_root-append acc (s ∷ path) g = compute_root-append (sha256d (acc ++ s)) path g

  -- Where the path so far leads to the first hash of the level, the whole path leads to the root.
  path_loop-root_loop :
      (rounds : ℕ) (leaf : Bytes) (path : List Bytes) (h : Bytes) (level : List Bytes)
      → length (h ∷ level) ≤ suc rounds
      → compute_root sha256d leaf path ≡ h
      → (whole : List Bytes) × (path_loop sha256d rounds path (h ∷ level) ≡ some whole)
        × (root_loop sha256d rounds (h ∷ level) ≡ some (compute_root sha256d leaf whole))
  unfolding path_loop root_loop parents
  path_loop-root_loop rounds leaf path h [] w e = (path, refl, ap some (sym e))
  path_loop-root_loop zero leaf path h (g ∷ level) w e = absurd (omega arith)
  path_loop-root_loop (suc rounds) leaf path h (g ∷ level) w e =
      path_loop-root_loop rounds leaf (path ++ (g ∷ [])) (sha256d (h ++ g)) (parents sha256d level)
        (omega (arith, length-parents level))
        (compute_root-append leaf path g ∙ ap (λ acc. sha256d (acc ++ g)) e)

-- For every list of leaves with the coinbase first, both loops end, and the root that a miner
-- computes from the coinbase's txid and the path that it is sent is the root of all leaves.
pub compute_root-coinbase_merkle_path :
    (sha256d : Bytes → Bytes) (coinbase : Bytes) (rest : List Bytes)
    → (path : List Bytes) × (coinbase_merkle_path sha256d (coinbase ∷ rest) ≡ some path)
      × (compute_merkle_root_from_leaves sha256d (coinbase ∷ rest)
          ≡ some (compute_root sha256d coinbase path))
unfolding compute_merkle_root_from_leaves coinbase_merkle_path compute_root
compute_root-coinbase_merkle_path sha256d coinbase rest =
    path_loop-root_loop sha256d (length (coinbase ∷ rest)) coinbase [] coinbase rest (omega arith)
      refl

-- Two coinbases and two paths of one length lead to one root only if they are the same, or if two
-- different byte strings with one hash can be read off.
pub compute_root_binds :
    (sha256d : Bytes → Bytes) (a b : Bytes) (p q : List Bytes)
    → length p ≡ length q
    → IsArray32 a
    → IsArray32 b
    → ((s : Bytes) → IsArray32 (sha256d s))
    → compute_root sha256d a p ≡ compute_root sha256d b q
    → ((a ≡ b) × (p ≡ q)) ⊎ ((x : Bytes) × (y : Bytes) × (x ≢ y) × (sha256d x ≡ sha256d y))
unfolding compute_root
compute_root_binds sha256d a b [] [] n ha hb hash e = inl (e, refl)
compute_root_binds sha256d a b [] (t ∷ q) n ha hb hash e = absurd (omega arith)
compute_root_binds sha256d a b (s ∷ p) [] n ha hb hash e = absurd (omega arith)
compute_root_binds sha256d a b (s ∷ p) (t ∷ q) n ha hb hash e =
    elim (compute_root_binds sha256d (sha256d (a ++ s)) (sha256d (b ++ t)) p q (omega arith)
      (hash _) (hash _) hash e) [
        | inr c ↦ inr c
        | inl (same, tail) ↦ elim (bytes_same_or_differ (a ++ s) (b ++ t)) [
          | inl y ↦ let (eq, eq') = append_inj a b s t (ha ∙ sym hb) y in inl (eq, cc (eq', tail))
          | inr z ↦ inr (a ++ s, b ++ t, z, same)
        ]
      ]
