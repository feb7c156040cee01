-- ===== src/Extranonce.antt =====
-- The extranonce in the script of the coinbase (crates/dinero-sv2-pool/src/extranonce.rs). A sum
-- of offsets that overflows `checked_add` is above the length of the prefix, like any other that is
-- refused.
pub mod Unique
pub mod Layout
use dinero_sv.Base.{
  ℕ, ◌+◌, ◌%◌, List, [], ◌∷◌, Result, ok, err, and_then, length, take, drop, concat, ltb, ◌==◌,
  if◌then◌else◌, not,
}
use dinero_sv.Wire.Bytes.{to_le}
use dinero_sv.Varint.{VarintError, read_varint}

-- The messages of the errors, as constructors.
pub data InjectError : Type 0 where
  prefix_truncated : ℕ → InjectError
  bad_varint : VarintError → InjectError
  not_one_input : ℕ → InjectError
  trailing_bytes : InjectError
  script_too_long : ℕ → InjectError

abbrev pub max_coinbase_scriptsig : ℕ
max_coinbase_scriptsig = 100

unfoldable pub need : List ℕ → ℕ → ℕ → Result InjectError (Unit {0})
need p position n = if ltb (length p) (position + n) then err (prefix_truncated position) else ok tt

unfoldable pub varint_at : List ℕ → ℕ → Result InjectError (ℕ × ℕ)
varint_at p position = elim (read_varint p position) [ err e ↦ err (bad_varint e) | ok r ↦ ok r ]

-- The new prefix, from the place of the script's length, the length of that varint and of the
-- script.
unfoldable pub rewrite : List ℕ → ℕ → ℕ → ℕ → ℕ → List ℕ
rewrite p extranonce scriptsig_len_pos n scriptsig_len =
    let scriptsig_end = scriptsig_len_pos + n + scriptsig_len in
    concat (
      take scriptsig_len_pos p
      ∷ ((scriptsig_len + 5) % 256 ∷ [])
      ∷ take scriptsig_len (drop (scriptsig_len_pos + n) p)
      ∷ (0x04 ∷ [])
      ∷ to_le 4 extranonce
      ∷ drop scriptsig_end p
      ∷ [])

-- The checks of the script's end, and the new prefix.
unfoldable pub grow_script : List ℕ → ℕ → ℕ → ℕ → ℕ → Result InjectError (List ℕ)
grow_script p extranonce scriptsig_len_pos n scriptsig_len =
    let scriptsig_end = scriptsig_len_pos + n + scriptsig_len in
    and_then (need p (scriptsig_len_pos + n) scriptsig_len) λ _.
      and_then (need p scriptsig_end 4) λ _.
        if not (scriptsig_end + 4 == length p)
        then err trailing_bytes
        else if ltb max_coinbase_scriptsig (scriptsig_len + 5)
        then err (script_too_long (scriptsig_len + 5))
        else ok (rewrite p extranonce scriptsig_len_pos n scriptsig_len)

-- The place of the script's length, the length of its varint, and the length of the script.
unfoldable pub find_script : List ℕ → Result InjectError (ℕ × ℕ × ℕ)
find_script p = and_then (need p 0 4) λ _. and_then (varint_at p 4) λ inputs.
    if not (inputs.0 == 1)
    then err (not_one_input inputs.0)
    else and_then (need p (4 + inputs.1) 36) λ _.
      and_then (varint_at p (4 + inputs.1 + 36))
        λ script. ok (4 + inputs.1 + 36, script.1, script.0)

unfoldable pub inject_scriptsig_extranonce : List ℕ → ℕ → Result InjectError (List ℕ)
inject_scriptsig_extranonce p extranonce =
    and_then (find_script p) λ found. grow_script p extranonce found.0 found.1 found.2
