-- ===== src/Wire/Bytes.antt =====
-- Little-endian integers (`to_le_bytes`, `from_le_bytes`) and the widths of the wire's integers.
use dinero_sv.Base.{ℕ, zero, suc, ◌+◌, ◌*◌, ◌/◌, ◌%◌, ◌^◌, ◌<◌, ◌≡◌, refl, sym, arith, ap, ◌∙◌}
use dinero_sv.Base.{List, [], ◌∷◌, length, All}

abbrev pub IsByte : ℕ → Type 0
IsByte b = b < 256

abbrev pub AreBytes : List ℕ → Type 0
AreBytes = All IsByte

abbrev pub IsU8 : ℕ → Type 0
IsU8 n = n < 256

abbrev pub IsU16 : ℕ → Type 0
IsU16 n = n < 2 ^ 16

abbrev pub IsU32 : ℕ → Type 0
IsU32 n = n < 2 ^ 32

abbrev pub IsU64 : ℕ → Type 0
IsU64 n = n < 2 ^ 64

-- A `[u8; 32]`.
abbrev pub IsArray32 : List ℕ → Type 0
IsArray32 h = length h ≡ 32

-- The `k` low bytes of `n`, lowest first.
unfoldable pub to_le : ℕ → ℕ → List ℕ
to_le zero n = []
to_le (suc k) n = (n % 256) ∷ to_le k (n / 256)

unfoldable pub from_le : List ℕ → ℕ
from_le [] = 0
from_le (b ∷ bs) = b + 256 * from_le bs

pub length-to_le : (k n : ℕ) → length (to_le k n) ≡ k
unfolding to_le
length-to_le zero n = refl
length-to_le (suc k) n = ap suc (length-to_le k (n / 256))

pub to_le-AreBytes : (k n : ℕ) → AreBytes (to_le k n)
unfolding to_le
to_le-AreBytes zero n = tt
to_le-AreBytes (suc k) n = (omega arith, to_le-AreBytes k (n / 256))

pub from_le-to_le : (k n : ℕ) → n < 256 ^ k → from_le (to_le k n) ≡ n
unfolding to_le from_le
from_le-to_le zero n h = omega arith
from_le-to_le (suc k) n h = omega (arith, from_le-to_le k (n / 256) (omega arith))

pub to_le-from_le : (s : List ℕ) → AreBytes s → to_le (length s) (from_le s) ≡ s
unfolding to_le from_le
to_le-from_le [] h = refl
to_le-from_le (b ∷ bs) (hb, hbs) =
    cc (digit, ap (λ t. to_le (length bs) t) rest, to_le-from_le bs hbs)
  where
    digit : (b + 256 * from_le bs) % 256 ≡ b
    digit = omega arith

    rest : (b + 256 * from_le bs) / 256 ≡ from_le bs
    rest = omega arith

pub from_le-lt : (k : ℕ) (s : List ℕ) → length s ≡ k → AreBytes s → from_le s < 256 ^ k
unfolding from_le
from_le-lt zero [] e h = omega arith
from_le-lt zero (b ∷ bs) e h = absurd (omega arith)
from_le-lt (suc k) [] e h = absurd (omega arith)
from_le-lt (suc k) (b ∷ bs) e (hb, hbs) = omega (arith, from_le-lt k bs (omega arith) hbs)

pub to_le-from_le_eq : (k : ℕ) (s : List ℕ) → length s ≡ k → AreBytes s → to_le k (from_le s) ≡ s
to_le-from_le_eq k s e h = ap (λ j. to_le j (from_le s)) (sym e) ∙ to_le-from_le s h
