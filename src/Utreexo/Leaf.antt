-- ===== src/Utreexo/Leaf.antt =====
-- The hash of an unspent output as a leaf of the forest (crates/dinero-sv2-jd/src/utreexo.rs).
use dinero_sv.Base.{
  ℕ, ◌^◌, ◌≡◌, ◌≢◌, ◌≤◌, ◌<◌, ◌↔◌, refl, sym, ap, ◌∙◌, arith, List, [], ◌∷◌, ◌++◌, ok_inj, length,
  concat, get_or, append_inj, append_cancel, leb, if◌then◌else◌, Bool-cases, inl, inr, Bool, true,
  false,
}
use dinero_sv.Wire.Bytes.{IsU32, IsU64, to_le, from_le, from_le-to_le, length-to_le}
use dinero_sv.Varint.{write_varint, read_varint}
use dinero_sv.Varint.RoundTrip.{read_varint-write_varint}
use dinero_sv.Utreexo.{Hash}

abbrev pub leaf_domain_tag : List ℕ
leaf_domain_tag =
    (b'D' ∷ b'I' ∷ b'N' ∷ b'E' ∷ b'R' ∷ b'O' ∷ b'-' ∷ b'U' ∷ b'T' ∷ b'X' ∷ b'O' ∷ b'-' ∷ b'L' ∷ b'E'
      ∷ b'A' ∷ b'F' ∷ b'-' ∷ b'v' ∷ b'1' ∷ [])

abbrev pub leaf_domain_tag_v2 : List ℕ
leaf_domain_tag_v2 =
    (b'D' ∷ b'I' ∷ b'N' ∷ b'E' ∷ b'R' ∷ b'O' ∷ b'-' ∷ b'U' ∷ b'T' ∷ b'X' ∷ b'O' ∷ b'-' ∷ b'L' ∷ b'E'
      ∷ b'A' ∷ b'F' ∷ b'-' ∷ b'v' ∷ b'2' ∷ [])

unfoldable pub leaf_preimage : Hash → ℕ → ℕ → List ℕ → List ℕ
leaf_preimage txid vout amount script_pubkey = concat (
    leaf_domain_tag
    ∷ txid
    ∷ to_le 4 vout
    ∷ to_le 8 amount
    ∷ write_varint (length script_pubkey)
    ∷ script_pubkey
    ∷ [])

unfoldable pub leaf_preimage_v2 : Hash → ℕ → ℕ → List ℕ → ℕ → Bool → List ℕ
leaf_preimage_v2 txid vout amount script_pubkey created_height is_coinbase = concat (
    leaf_domain_tag_v2
    ∷ txid
    ∷ to_le 4 vout
    ∷ to_le 8 amount
    ∷ write_varint (length script_pubkey)
    ∷ script_pubkey
    ∷ to_le 4 created_height
    ∷ ((if is_coinbase then 0x01 else 0x00) ∷ [])
    ∷ [])

-- The outpoint, the output, where it was created, and whether by a coinbase.
pub record Utxo : Type 0 where
  pub txid : Hash
  pub vout : ℕ
  pub amount : ℕ
  pub script_pubkey : List ℕ
  pub created_height : ℕ
  pub is_coinbase : Bool

abbrev pub IsUtxo : Utxo → Type 0
IsUtxo u =
    (length u.txid ≡ 32)
    × IsU32 u.vout
    × IsU64 u.amount
    × IsU64 (length u.script_pubkey)
    × IsU32 u.created_height

module _ (sha256 : List ℕ → Hash) where
  unfoldable pub leaf_hash : Hash → ℕ → ℕ → List ℕ → Hash
  leaf_hash txid vout amount script_pubkey = sha256 (leaf_preimage txid vout amount script_pubkey)

  unfoldable pub leaf_hash_v2 : Hash → ℕ → ℕ → List ℕ → ℕ → Bool → Hash
  leaf_hash_v2 txid vout amount script_pubkey created_height is_coinbase =
      sha256 (leaf_preimage_v2 txid vout amount script_pubkey created_height is_coinbase)

  -- Its arguments but the last are the fields of `Utxo`.
  unfoldable pub leaf_hash_for_height : Utxo → ℕ → Hash
  leaf_hash_for_height u activation_height =
      if leb activation_height u.created_height
      then leaf_hash_v2 u.txid u.vout u.amount u.script_pubkey u.created_height u.is_coinbase
      else leaf_hash u.txid u.vout u.amount u.script_pubkey

-- The fields that both versions hash.
abbrev pub IsSameOutput : Utxo → Utxo → Type 0
IsSameOutput u w =
    (u.txid ≡ w.txid)
    × (u.vout ≡ w.vout)
    × (u.amount ≡ w.amount)
    × (u.script_pubkey ≡ w.script_pubkey)

-- A field of a fixed width, read off the front.
field_inj :
    (k m n : ℕ) (s t : List ℕ)
    → m < 256 ^ k
    → n < 256 ^ k
    → to_le k m ++ s ≡ to_le k n ++ t
    → (m ≡ n) × (s ≡ t)
field_inj k m n s t hm hn e =
    let (a, b) =
      append_inj (to_le k m) (to_le k n) s t (length-to_le k m ∙ sym (length-to_le k n)) e in
    (sym (from_le-to_le k m hm) ∙ ap from_le a ∙ from_le-to_le k n hn, b)

script_inj :
    (p q s t : List ℕ)
    → IsU64 (length p)
    → IsU64 (length q)
    → write_varint (length p) ++ (p ++ s) ≡ write_varint (length q) ++ (q ++ t)
    → (p ≡ q) × (s ≡ t)
script_inj p q s t hp hq e =
    let rp = read_varint-write_varint (length p) [] (p ++ s) hp in
    let rq = read_varint-write_varint (length q) [] (q ++ t) hq in
    let both = ok_inj (sym rp ∙ ap (λ l. read_varint l 0) e ∙ rq) in
    let n : length p ≡ length q = ap (λ (r : ℕ × ℕ). r.0) both in
    let w : length (write_varint (length p)) ≡ length (write_varint (length q)) =
      ap (λ (r : ℕ × ℕ). r.1) both in
    append_inj p q s t n (append_inj (write_varint (length p)) (write_varint (length q)) _ _ w e).1

abbrev body : Utxo → List ℕ → List ℕ
body u rest =
    u.txid
    ++ (to_le 4 u.vout
        ++ (to_le 8 u.amount
            ++ (write_varint (length u.script_pubkey) ++ (u.script_pubkey ++ rest))))

body_inj :
    (u w : Utxo) (s t : List ℕ)
    → IsUtxo u
    → IsUtxo w
    → body u s ≡ body w t
    → IsSameOutput u w × (s ≡ t)
body_inj u w s t (ha, hb, hc, hd, he) (ka, kb, kc, kd, ke) e =
    let (a, e1) = append_inj u.txid w.txid _ _ (ha ∙ sym ka) e in
    let (b, e2) = field_inj 4 u.vout w.vout _ _ hb kb e1 in
    let (c, e3) = field_inj 8 u.amount w.amount _ _ hc kc e2 in
    let (d, e4) = script_inj u.script_pubkey w.script_pubkey s t hd kd e3 in ((a, b, c, d), e4)

-- What the leaf commits to: the height and the origin only from the activation on.
abbrev pub IsSameLeaf : ℕ → Utxo → Utxo → Type 0
IsSameLeaf activation_height u w =
    IsSameOutput u w
    × ((activation_height ≤ u.created_height) ↔ (activation_height ≤ w.created_height))
    × (activation_height ≤ u.created_height
        → (u.created_height ≡ w.created_height) × (u.is_coinbase ≡ w.is_coinbase))

abbrev flag : Bool → ℕ
flag b = if b then 0x01 else 0x00

flag_inj : (b c : Bool) → flag b ≡ flag c → b ≡ c
flag_inj b c h = ground arith

v1_inj :
    (act : ℕ) (u w : Utxo)
    → IsUtxo u
    → IsUtxo w
    → leb act u.created_height ≡ false
    → leb act w.created_height ≡ false
    → leaf_preimage u.txid u.vout u.amount u.script_pubkey
      ≡ leaf_preimage w.txid w.vout w.amount w.script_pubkey
    → IsSameLeaf act u w
unfolding leaf_preimage
v1_inj act u w hu hw y z e =
    let (same, _) = body_inj u w [] [] hu hw (append_cancel leaf_domain_tag _ _ e) in
    (same, (λ a. absurd (ground arith), λ a. absurd (ground arith)), λ a. absurd (ground arith))

v2_inj :
    (act : ℕ) (u w : Utxo)
    → IsUtxo u
    → IsUtxo w
    → leb act u.created_height ≡ true
    → leb act w.created_height ≡ true
    → leaf_preimage_v2 u.txid u.vout u.amount u.script_pubkey u.created_height u.is_coinbase
      ≡ leaf_preimage_v2 w.txid w.vout w.amount w.script_pubkey w.created_height w.is_coinbase
    → IsSameLeaf act u w
unfolding leaf_preimage_v2
v2_inj act u w (ha, hb, hc, hd, he) (ka, kb, kc, kd, ke) y z e =
    let (same, tail) =
      body_inj u w _ _ (ha, hb, hc, hd, he) (ka, kb, kc, kd, ke)
        (append_cancel leaf_domain_tag_v2 _ _ e) in
    let (h, last) = field_inj 4 u.created_height w.created_height _ _ he ke tail in
    let coinbase = flag_inj u.is_coinbase w.is_coinbase (cc last) in
    (same, (λ a. ground arith, λ a. ground arith), λ a. (h, coinbase))

-- The two versions never hash the same bytes.
versions_differ :
    (u w : Utxo)
    → leaf_preimage u.txid u.vout u.amount u.script_pubkey
      ≢ leaf_preimage_v2 w.txid w.vout w.amount w.script_pubkey w.created_height w.is_coinbase
unfolding leaf_preimage leaf_preimage_v2
versions_differ u w e =
    let (tag, _) = append_inj leaf_domain_tag leaf_domain_tag_v2 _ _ refl e in
    let differ : 49 ≡ 50 = ap (λ l. get_or l 18 0) tag in absurd (omega (arith, differ))

-- What `leaf_hash_for_height` hashes.
abbrev pub preimage : ℕ → Utxo → List ℕ
preimage act u =
    if leb act u.created_height
    then leaf_preimage_v2 u.txid u.vout u.amount u.script_pubkey u.created_height u.is_coinbase
    else leaf_preimage u.txid u.vout u.amount u.script_pubkey

preimage_inj :
    (act : ℕ) (u w : Utxo)
    → IsUtxo u
    → IsUtxo w
    → preimage act u ≡ preimage act w
    → IsSameLeaf act u w
preimage_inj act u w hu hw e = elim (Bool-cases (leb act u.created_height)) [
  | inl y ↦ elim (Bool-cases (leb act w.created_height)) [
    | inl z ↦ v2_inj act u w hu hw y z (rw (y, z) at e)
    | inr z ↦ absurd (versions_differ w u (sym (rw (y, z) at e)))
  ]
  | inr y ↦ elim (Bool-cases (leb act w.created_height)) [
    | inl z ↦ absurd (versions_differ u w (rw (y, z) at e))
    | inr z ↦ v1_inj act u w hu hw y z (rw (y, z) at e)
  ]
]

hash-preimage :
    (sha256 : List ℕ → Hash) (act : ℕ) (u : Utxo)
    → leaf_hash_for_height sha256 u act ≡ sha256 (preimage act u)
unfolding leaf_hash_for_height leaf_hash leaf_hash_v2
hash-preimage sha256 act u = ground arith

-- Two well-formed outputs with one leaf hash agree in outpoint, amount and script, lie on the same
-- side of the activation height, and from it on agree in height and origin, unless the two byte
-- strings that are hashed for them are a collision of the hash function.
pub leaf_hash_for_height_binds :
    (sha256 : List ℕ → Hash) (activation_height : ℕ) (u w : Utxo)
    → IsUtxo u
    → IsUtxo w
    → (sha256 (preimage activation_height u) ≡ sha256 (preimage activation_height w)
        → preimage activation_height u ≡ preimage activation_height w)
    → leaf_hash_for_height sha256 u activation_height
      ≡ leaf_hash_for_height sha256 w activation_height
    → IsSameLeaf activation_height u w
leaf_hash_for_height_binds sha256 act u w hu hw no_collision e =
    preimage_inj act u w hu hw
      (no_collision (sym (hash-preimage sha256 act u) ∙ e ∙ hash-preimage sha256 act w))
