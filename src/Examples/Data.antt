-- ===== src/Examples/Data.antt =====
-- Data that several examples share.
use dinero_sv.Base.{ℕ, ◌≡◌, arith, List, [], ◌∷◌, replicate, ltb, Bool, true, ◌&&◌}
use dinero_sv.Wire.Bytes.{AreBytes}

abbrev pub hash : ℕ → List ℕ
hash b = replicate 32 b

abbrev pub all_bytes : List ℕ → Bool
all_bytes [] = true
all_bytes (b ∷ bs) = ltb b 256 && all_bytes bs

pub are_bytes : (s : List ℕ) → all_bytes s ≡ true → AreBytes s
are_bytes [] h = tt
are_bytes (b ∷ bs) h = (ground arith, are_bytes bs (ground arith))
