-- ===== src/Pool/Block.antt =====
-- The block that is submitted (assemble_block_hex_raw of crates/dinero-sv2-pool/src/block.rs), and
-- the parent by which the submission gate knows it (block_parent of backend.rs beside it). The hex
-- crate is a parameter; digits are bytes.
use dinero_sv.Base.{
  ℕ, ◌+◌, ◌*◌, ◌≡◌, ◌≤◌, ap, ◌∙◌, arith, List, [], ◌∷◌, ◌++◌, Option, none, some, Result, ok, err,
  append_assoc, length, length-append, take, drop, concat, take_whole, take_part, drop_part,
  replicate, ltb, if◌then◌else◌, ge→ltb, false,
}
use dinero_sv.Wire.Bytes.{to_le, length-to_le}
use dinero_sv.Messages.{NewTemplateDinero, SubmitSharesDinero}
use dinero_sv.Varint.{write_varint}
use dinero_sv.Header.{IsWork, header_bytes}

pub data BlockError : Type 0 where
  too_short : BlockError
  bad_hex : BlockError

-- `hex::encode` and `hex::decode`.
pub record Hex : Type 0 where
  pub encode : List ℕ → List ℕ
  pub decode : List ℕ → Option (List ℕ)

-- What the code relies on: two digits for each byte, in the order of the bytes.
pub record IsHex (hex : Hex) : Type 0 where
  pub length-encode : (s : List ℕ) → length (hex.encode s) ≡ 2 * length s
  pub decode-encode :
      (n : ℕ) (s : List ℕ) → hex.decode (take (2 * n) (hex.encode s)) ≡ some (take n s)

-- `compact_size` is `write_varint`.
unfoldable pub block_bytes :
    NewTemplateDinero → SubmitSharesDinero → List ℕ → List (List ℕ) → List ℕ
block_bytes template share coinbase_bytes mempool_tx_data =
    header_bytes template share
    ++ (write_varint (1 + length mempool_tx_data) ++ (coinbase_bytes ++ concat mempool_tx_data))

unfoldable pub assemble_block_hex_raw :
    Hex → NewTemplateDinero → SubmitSharesDinero → List ℕ → List (List ℕ) → List ℕ
assemble_block_hex_raw hex template share coinbase_bytes mempool_tx_data =
    hex.encode (block_bytes template share coinbase_bytes mempool_tx_data)

unfoldable pub parent_of : Option (List ℕ) → Result BlockError (List ℕ)
parent_of none = err bad_hex
parent_of (some bytes) = ok (take 32 (drop 4 bytes))

unfoldable pub block_parent : Hex → List ℕ → Result BlockError (List ℕ)
block_parent hex block_hex =
    if ltb (length block_hex) 72 then err too_short else parent_of (hex.decode (take 72 block_hex))

split_front : (v p x y : List ℕ) → (v ++ (p ++ x)) ++ y ≡ (v ++ p) ++ (x ++ y)
split_front v p x y = simp append_assoc

front_bytes :
    (v p x y : List ℕ)
    → length v ≡ 4
    → length p ≡ 32
    → parent_of (some (take 36 ((v ++ (p ++ x)) ++ y))) ≡ ok p
unfolding parent_of
front_bytes v p x y hv hp =
    let n : length (v ++ p) ≡ 36 = omega (arith, length-append v p, hv, hp) in
    let front : take 36 ((v ++ (p ++ x)) ++ y) ≡ v ++ p =
      ap (take 36) (split_front v p x y) ∙ take_part 36 (v ++ p) (x ++ y) n in
    let behind : drop 4 (v ++ p) ≡ p = drop_part 4 0 v p hv in
    ap (λ b. ok (take 32 (drop 4 b))) front
    ∙ ap (λ b. ok (take 32 b)) behind
    ∙ ap ok (take_whole 32 p (omega (arith, hp)))

longer : (v p x y : List ℕ) → length v ≡ 4 → length p ≡ 32 → 36 ≤ length ((v ++ (p ++ x)) ++ y)
longer v p x y hv hp =
    let a = length-append (v ++ (p ++ x)) y in
    let b = length-append v (p ++ x) in let c = length-append p x in omega arith

-- The gate sees the block of a share under the parent of the share's template, whatever the coinbase
-- and the transactions.
pub block_parent-assemble_block_hex_raw :
    (hex : Hex) (template : NewTemplateDinero) (share : SubmitSharesDinero)
    (coinbase_bytes : List ℕ) (mempool_tx_data : List (List ℕ))
    → IsHex hex
    → IsWork template share
    → block_parent hex (assemble_block_hex_raw hex template share coinbase_bytes mempool_tx_data)
      ≡ ok template.prev_block_hash
unfolding block_parent assemble_block_hex_raw block_bytes header_bytes
block_parent-assemble_block_hex_raw hex t s coinbase txs laws work =
    let block = block_bytes t s coinbase txs in
    let version = to_le 4 s.version in
    let after = concat (
      t.merkle_root
      ∷ t.utreexo_root
      ∷ to_le 8 s.timestamp
      ∷ to_le 4 t.difficulty
      ∷ to_le 4 s.nonce
      ∷ replicate 12 0
      ∷ []) in
    let body = write_varint (1 + length txs) ++ (coinbase ++ concat txs) in
    let front =
      front_bytes version t.prev_block_hash after body (length-to_le 4 s.version)
        work.prev_block_hash in
    let long =
      longer version t.prev_block_hash after body (length-to_le 4 s.version) work.prev_block_hash in
    let digits = laws.length-encode block in
    let fits : ltb (length (hex.encode block)) 72 ≡ false =
      ge→ltb (length (hex.encode block)) 72 (omega (arith, digits, long)) in
    rw fits (ap parent_of (laws.decode-encode 36 block) ∙ front)
