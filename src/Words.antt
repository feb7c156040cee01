-- ===== src/Words.antt =====
-- Fixed-width arithmetic as the release build does it: `+`, `-` and `*` wrap, `saturating_*` clamp.
use dinero_sv.Base.{ℕ, ◌+◌, ◌-◌, ◌*◌, ◌%◌, ◌^◌, min}

abbrev pub wrap64 : ℕ → ℕ
wrap64 n = n % 2 ^ 64

abbrev pub wrap128 : ℕ → ℕ
wrap128 n = n % 2 ^ 128

abbrev pub add64 : ℕ → ℕ → ℕ
add64 a b = wrap64 (a + b)

abbrev pub sub64 : ℕ → ℕ → ℕ
sub64 a b = wrap64 (a + 2 ^ 64 - b)

abbrev pub add128 : ℕ → ℕ → ℕ
add128 a b = wrap128 (a + b)

abbrev pub mul128 : ℕ → ℕ → ℕ
mul128 a b = wrap128 (a * b)

abbrev pub u64_max : ℕ
u64_max = 2 ^ 64 - 1

abbrev pub u128_max : ℕ
u128_max = 2 ^ 128 - 1

abbrev pub saturating_add64 : ℕ → ℕ → ℕ
saturating_add64 a b = min (a + b) u64_max

abbrev pub saturating_mul64 : ℕ → ℕ → ℕ
saturating_mul64 a b = min (a * b) u64_max

abbrev pub saturating_add128 : ℕ → ℕ → ℕ
saturating_add128 a b = min (a + b) u128_max

abbrev pub saturating_mul128 : ℕ → ℕ → ℕ
saturating_mul128 a b = min (a * b) u128_max
