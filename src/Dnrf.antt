-- ===== src/Dnrf.antt =====
-- The script that commits a coinbase to the block filter
-- (crates/dinero-sv2-jd/src/filter_commitment.rs).
use dinero_sv.Base.{
  ℕ, ◌+◌, ◌≡◌, ◌↔◌, refl, ap, ◌∙◌, arith, List, [], ◌∷◌, ◌++◌, length, take, drop, get_or, leb,
  ◌==◌, ==→eq, Bool, true, ◌&&◌, both_true,
}
use dinero_sv.Bytestring.{bytes_eq, bytes_eq→eq, bytes_eq_refl}

abbrev pub activation_height : ℕ
activation_height = 1

abbrev pub dnrf_magic : List ℕ
dnrf_magic = (0x44 ∷ 0x4E ∷ 0x52 ∷ 0x46 ∷ [])

abbrev pub dnrf_version : ℕ
dnrf_version = 0x01

abbrev pub dnrf_data_size : ℕ
dnrf_data_size = 37

unfoldable pub requires_filter_commitment : ℕ → Bool
requires_filter_commitment height = leb activation_height height

-- The shape of a commitment script with the given magic, which the witness commitment shares.
unfoldable pub has_shape : List ℕ → List ℕ → Bool
has_shape magic script =
    length script == 2 + 37
    && (get_or script 0 0 == 0x6A
        && (get_or script 1 0 == 37
            && (bytes_eq (take 4 (drop 2 script)) magic && get_or script 6 0 == 0x01)))

unfoldable pub is_dnrf_script : List ℕ → Bool
is_dnrf_script script = has_shape dnrf_magic script

unfoldable pub build_dnrf_script : List ℕ → List ℕ
build_dnrf_script filter_hash = 0x6A ∷ dnrf_data_size ∷ (dnrf_magic ++ (dnrf_version ∷ filter_hash))

seven :
    (magic script : List ℕ)
    → length magic ≡ 4
    → has_shape magic script ≡ true
    → (hash : List ℕ) × (length hash ≡ 32) × (script ≡ 0x6A ∷ 37 ∷ (magic ++ (0x01 ∷ hash)))
unfolding has_shape
seven magic [] m h = absurd (cc h)
seven magic (a ∷ []) m h = absurd (cc h)
seven magic (a ∷ b ∷ []) m h = absurd (cc h)
seven magic (a ∷ b ∷ c ∷ []) m h = absurd (cc h)
seven magic (a ∷ b ∷ c ∷ d ∷ []) m h = absurd (cc h)
seven magic (a ∷ b ∷ c ∷ d ∷ e ∷ []) m h = absurd (cc h)
seven magic (a ∷ b ∷ c ∷ d ∷ e ∷ f ∷ []) m h = absurd (cc h)
seven magic (a ∷ b ∷ c ∷ d ∷ e ∷ f ∷ g ∷ hash) m h =
    let (n, h1) = both_true _ _ h in
    let (ea, h2) = both_true _ _ h1 in
    let (eb, h3) = both_true _ _ h2 in
    let (em, eg) = both_true _ _ h3 in
    let ma : (c ∷ d ∷ e ∷ f ∷ []) ≡ magic = bytes_eq→eq _ _ em in
    let long : length (a ∷ b ∷ c ∷ d ∷ e ∷ f ∷ g ∷ hash) ≡ 39 = ==→eq _ _ n in
    let pa : a ≡ 0x6A = ==→eq _ _ ea in
    let pb : b ≡ 37 = ==→eq _ _ eb in
    let pg : g ≡ 0x01 = ==→eq _ _ eg in
    let fixed : a ∷ b ∷ c ∷ d ∷ e ∷ f ∷ g ∷ hash ≡ 0x6A ∷ 37 ∷ c ∷ d ∷ e ∷ f ∷ 0x01 ∷ hash = cc in
    (hash, omega arith, fixed ∙ ap (λ t. 0x6A ∷ 37 ∷ (t ++ (0x01 ∷ hash))) ma)

shape_of :
    (t hash : List ℕ)
    → length t ≡ 4
    → length hash ≡ 32
    → has_shape t (0x6A ∷ 37 ∷ (t ++ (0x01 ∷ hash))) ≡ true
unfolding has_shape
shape_of [] hash n l = absurd (omega arith)
shape_of (a ∷ []) hash n l = absurd (omega arith)
shape_of (a ∷ b ∷ []) hash n l = absurd (omega arith)
shape_of (a ∷ b ∷ c ∷ []) hash n l = absurd (omega arith)
shape_of (a ∷ b ∷ c ∷ d ∷ []) hash n l = rw (l, bytes_eq_refl (a ∷ b ∷ c ∷ d ∷ [])) refl
shape_of (a ∷ b ∷ c ∷ d ∷ e ∷ t) hash n l = absurd (omega arith)

-- A script has the shape exactly if it is made of the two opcodes, the magic, the version and 32
-- bytes of a hash.
pub has_shape_iff :
    (magic script : List ℕ)
    → length magic ≡ 4
    → (has_shape magic script ≡ true)
      ↔ ((hash : List ℕ) × (length hash ≡ 32) × (script ≡ 0x6A ∷ 37 ∷ (magic ++ (0x01 ∷ hash))))
has_shape_iff magic script m = (seven magic script m, λ w. rw w.2 (shape_of magic w.0 m w.1))

-- The pool recognises exactly the scripts that a filter's hash of 32 bytes is committed to by.
pub is_dnrf_script_iff :
    (script : List ℕ)
    → (is_dnrf_script script ≡ true)
      ↔ ((hash : List ℕ) × (length hash ≡ 32) × (script ≡ build_dnrf_script hash))
unfolding is_dnrf_script build_dnrf_script
is_dnrf_script_iff script = has_shape_iff dnrf_magic script refl
