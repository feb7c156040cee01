-- ===== src/Header.antt =====
-- The block header that a share stands for (HeaderAssembly of crates/dinero-sv2-common/src/lib.rs).
-- The double SHA-256 is of a third party, and only the bytes that it is applied to are here.
use dinero_sv.Base.{
  drop_part, append_inj, ℕ, suc, ◌-◌, ◌^◌, ◌≡◌, ◌<◌, refl, sym, ap, ◌∙◌, arith, List, [], ◌∷◌, ◌++◌,
  Result, ok, err, length, take, drop, concat, length-drop, replicate, ◌==◌, if◌then◌else◌,
}
use dinero_sv.Wire.Bytes.{IsU32, IsU64, IsArray32, to_le, from_le, length-to_le, from_le-to_le}
use dinero_sv.Messages.{NewTemplateDinero, SubmitSharesDinero}

abbrev pub header_size : ℕ
header_size = 128

-- `HeaderAssembly::bytes`: the parts stand one after the other, the reserved bytes last.
unfoldable pub header_bytes : NewTemplateDinero → SubmitSharesDinero → List ℕ
header_bytes template share = concat (
    to_le 4 share.version
    ∷ template.prev_block_hash
    ∷ template.merkle_root
    ∷ template.utreexo_root
    ∷ to_le 8 share.timestamp
    ∷ to_le 4 template.difficulty
    ∷ to_le 4 share.nonce
    ∷ replicate 12 0
    ∷ [])

pub data InvariantError : Type 0 where
  non_zero_reserved : List ℕ → InvariantError
  timestamp_mismatch : ℕ → ℕ → InvariantError

-- The positions of the bytes that are not zero, counted from `i`.
unfoldable pub non_zero : ℕ → List ℕ → List ℕ
non_zero i [] = []
non_zero i (b ∷ bs) = let rest = non_zero (suc i) bs in if b == 0 then rest else i ∷ rest

unfoldable pub refuse_any : List ℕ → Result InvariantError (Unit {0})
refuse_any [] = ok tt
refuse_any (i ∷ bad) = err (non_zero_reserved (i ∷ bad))

unfoldable pub check_reserved_zero : List ℕ → Result InvariantError (Unit {0})
check_reserved_zero header = refuse_any (non_zero 0 (take 12 (drop 116 header)))

-- The fields that the header is made of fit the widths that the source gives them.
pub record IsWork (template : NewTemplateDinero) (share : SubmitSharesDinero) : Type 0 where
  pub version : IsU32 share.version
  pub prev_block_hash : IsArray32 template.prev_block_hash
  pub merkle_root : IsArray32 template.merkle_root
  pub utreexo_root : IsArray32 template.utreexo_root
  pub timestamp : IsU64 share.timestamp
  pub difficulty : IsU32 template.difficulty
  pub nonce : IsU32 share.nonce

to_le_inj : (k m n : ℕ) → m < 256 ^ k → n < 256 ^ k → to_le k m ≡ to_le k n → m ≡ n
to_le_inj k m n hm hn e = sym (from_le-to_le k m hm) ∙ ap from_le e ∙ from_le-to_le k n hn

to_le-append_inj :
    (k m n : ℕ) (ys ys' : List ℕ)
    → m < 256 ^ k
    → n < 256 ^ k
    → to_le k m ++ ys ≡ to_le k n ++ ys'
    → (m ≡ n) × (ys ≡ ys')
to_le-append_inj k m n ys ys' hm hn e =
    let (a, b) =
      append_inj (to_le k m) (to_le k n) ys ys' (length-to_le k m ∙ sym (length-to_le k n)) e in
    (to_le_inj k m n hm hn a, b)

-- Where the fields fit their widths, the same header comes only from the same version, parent, roots,
-- time, difficulty and nonce.
pub header_bytes_inj :
    (t t' : NewTemplateDinero) (s s' : SubmitSharesDinero)
    → IsWork t s
    → IsWork t' s'
    → header_bytes t s ≡ header_bytes t' s'
    → (s.version ≡ s'.version)
      × (t.prev_block_hash ≡ t'.prev_block_hash)
      × (t.merkle_root ≡ t'.merkle_root)
      × (t.utreexo_root ≡ t'.utreexo_root)
      × (s.timestamp ≡ s'.timestamp)
      × (t.difficulty ≡ t'.difficulty)
      × (s.nonce ≡ s'.nonce)
unfolding header_bytes
header_bytes_inj t t' s s' v v' h =
    let (a, h1) = to_le-append_inj 4 s.version s'.version _ _ v.version v'.version h in
    let (b, h2) =
      append_inj t.prev_block_hash t'.prev_block_hash _ _
        (v.prev_block_hash ∙ sym v'.prev_block_hash) h1 in
    let (c, h3) =
      append_inj t.merkle_root t'.merkle_root _ _ (v.merkle_root ∙ sym v'.merkle_root) h2 in
    let (d, h4) =
      append_inj t.utreexo_root t'.utreexo_root _ _ (v.utreexo_root ∙ sym v'.utreexo_root) h3 in
    let (e, h5) = to_le-append_inj 8 s.timestamp s'.timestamp _ _ v.timestamp v'.timestamp h4 in
    let (f, h6) = to_le-append_inj 4 t.difficulty t'.difficulty _ _ v.difficulty v'.difficulty h5 in
    let (g, _) = to_le-append_inj 4 s.nonce s'.nonce _ _ v.nonce v'.nonce h6 in
    (a, b, c, d, e, f, g)

reserved_part :
    (t : NewTemplateDinero) (s : SubmitSharesDinero)
    → IsWork t s
    → drop 116 (header_bytes t s) ≡ replicate 12 0
unfolding header_bytes
reserved_part t s v =
    drop_part 4 112 (to_le 4 s.version) _ (length-to_le 4 s.version)
    ∙ drop_part 32 80 t.prev_block_hash _ v.prev_block_hash
    ∙ drop_part 32 48 t.merkle_root _ v.merkle_root
    ∙ drop_part 32 16 t.utreexo_root _ v.utreexo_root
    ∙ drop_part 8 8 (to_le 8 s.timestamp) _ (length-to_le 8 s.timestamp)
    ∙ drop_part 4 4 (to_le 4 t.difficulty) _ (length-to_le 4 t.difficulty)
    ∙ drop_part 4 0 (to_le 4 s.nonce) _ (length-to_le 4 s.nonce)

-- A header of fields that fit their widths has 128 bytes, and its reserved bytes pass the check.
pub check_reserved_zero-header_bytes :
    (t : NewTemplateDinero) (s : SubmitSharesDinero)
    → IsWork t s
    → (length (header_bytes t s) ≡ header_size) × (check_reserved_zero (header_bytes t s) ≡ ok tt)
unfolding check_reserved_zero non_zero refuse_any
check_reserved_zero-header_bytes t s v =
    let tail = reserved_part t s v in
    let len = length-drop 116 (header_bytes t s) in
    let twelve : length (header_bytes t s) - 116 ≡ 12 = sym len ∙ ap length tail in
    (omega (arith, twelve), rw tail refl)
