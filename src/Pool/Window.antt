-- ===== src/Pool/Window.antt =====
-- The PPLNS window (PplnsWindow of crates/dinero-sv2-pool/src/accounting.rs). A deque is a list,
-- its front first; a hash map is a list of entries in the order of their first insertion.
pub mod Bounds
pub mod Credit
use dinero_sv.Base.{
  ℕ, ◌-◌, ◌/◌, ◌%◌, ◌^◌, List, [], ◌∷◌, ◌++◌, map, none, length, ltb, ◌==◌, if◌then◌else◌, min, max,
}
use dinero_sv.Words.{wrap128, add128, saturating_mul64, saturating_add128, saturating_mul128}
use dinero_sv.Bytestring.{Bytes, bytes_eq}

pub record WindowEntry : Type 0 where
  pub payout_script : Bytes
  pub weight : ℕ
  pub unix_ts : ℕ

pub record PplnsWindow : Type 0 where
  pub entries : List WindowEntry
  pub target_secs : ℕ

abbrev pub floor : ℕ
floor = 500

abbrev pub cap : ℕ
cap = 50_000

abbrev pub new : ℕ → PplnsWindow
new target_secs = record { entries = []; target_secs = target_secs }

unfoldable pub restore : List WindowEntry → ℕ → PplnsWindow
restore entries target_secs = record { entries = entries; target_secs = target_secs }

-- The time of the last entry, or of `e` if there is none behind it.
abbrev pub last_ts : WindowEntry → List WindowEntry → ℕ
last_ts e [] = e.unix_ts
last_ts e (f ∷ fs) = last_ts f fs

abbrev pub clamp : ℕ → ℕ → ℕ → ℕ
clamp n lo hi = max lo (min n hi)

unfoldable pub max_len : ℕ → List WindowEntry → ℕ
max_len target_secs [] = cap
max_len target_secs (e ∷ es) =
    let span = max (last_ts e es - e.unix_ts) 1 in
    clamp (saturating_mul64 (length (e ∷ es)) target_secs / span) floor cap

-- `while self.entries.len() > max { self.entries.pop_front(); }`
unfoldable pub evict_loop : ℕ → List WindowEntry → List WindowEntry
evict_loop limit [] = []
evict_loop limit (e ∷ es) =
    let rest = evict_loop limit es in if ltb limit (length (e ∷ es)) then rest else e ∷ es

unfoldable pub evict : PplnsWindow → PplnsWindow
evict w = record w { entries = evict_loop (max_len w.target_secs w.entries) w.entries }

unfoldable pub push_entry : PplnsWindow → WindowEntry → PplnsWindow
push_entry w e = evict (record w { entries = w.entries ++ (e ∷ []) })

-- `record`, a word that is taken here.
unfoldable pub record_share : PplnsWindow → Bytes → ℕ → ℕ → PplnsWindow
record_share w payout_script weight unix_ts =
    push_entry w (record { payout_script = payout_script; weight = weight; unix_ts = unix_ts })

-- `*m.entry(script).or_insert(0) += weight`
unfoldable pub add_weight : Bytes → ℕ → List (Bytes × ℕ) → List (Bytes × ℕ)
add_weight script w [] = (script, w) ∷ []
add_weight script w ((s, v) ∷ m) =
    let rest = add_weight script w m in
    if bytes_eq s script then (s, add128 v w) ∷ m else (s, v) ∷ rest

unfoldable pub weights_loop : List (Bytes × ℕ) → List WindowEntry → List (Bytes × ℕ)
weights_loop m [] = m
weights_loop m (e ∷ es) = weights_loop (add_weight e.payout_script e.weight m) es

unfoldable pub weights : PplnsWindow → List (Bytes × ℕ)
weights w = weights_loop [] w.entries

-- `fold(0, |acc, e| acc.saturating_add(e.weight))`
unfoldable pub fold_weight : ℕ → List WindowEntry → ℕ
fold_weight acc [] = acc
fold_weight acc (e ∷ es) = fold_weight (saturating_add128 acc e.weight) es

unfoldable pub total_weight : PplnsWindow → ℕ
total_weight w = fold_weight 0 w.entries

unfoldable pub only : Bytes → List WindowEntry → List WindowEntry
only script [] = []
only script (e ∷ es) =
    let rest = only script es in if bytes_eq e.payout_script script then e ∷ rest else rest

-- The cast to `u32` keeps the low 32 bits.
unfoldable pub miner_bps : PplnsWindow → Bytes → ℕ
miner_bps w script =
    let total = total_weight w in
    if total == 0
    then 0
    else saturating_mul128 (fold_weight 0 (only script w.entries)) 10_000 / total % 2 ^ 32
