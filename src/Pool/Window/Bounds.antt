-- ===== src/Pool/Window/Bounds.antt =====
-- The size of the window.
use dinero_sv.Base.{
  ℕ, zero, suc, ◌+◌, ◌-◌, ◌/◌, ◌%◌, ◌^◌, ◌≡◌, ◌≢◌, ◌≤◌, refl, sym, arith, List, [], ◌∷◌, ◌++◌,
  length, length-append, drop, length-drop, drop-append, ltb, ◌==◌, if◌then◌else◌, ltb→ge, ltb→lt,
  Bool-cases, inl, inr,
}
use native.Mathlib.Nat.{div-le_of_le-mul, mod-le}
use dinero_sv.Words.{u128_max, saturating_add128, saturating_mul128}
use dinero_sv.Bytestring.{Bytes, bytes_eq}
use dinero_sv.Pool.Window.{
  WindowEntry, PplnsWindow, floor, cap, max_len, evict_loop, evict, push_entry, record_share,
  fold_weight, total_weight, only, miner_bps,
}

max_len_bounds : (t : ℕ) (es : List WindowEntry) → (floor ≤ max_len t es) × (max_len t es ≤ cap)
unfolding max_len
max_len_bounds t [] = omega arith
max_len_bounds t (e ∷ es) = omega arith

pub evict_loop-drop :
    (limit : ℕ) (es : List WindowEntry) → evict_loop limit es ≡ drop (length es - limit) es
unfolding evict_loop
evict_loop-drop limit [] = sym (drop_nil (0 - limit))
  where
    drop_nil : (n : ℕ) → drop {A = WindowEntry} n [] ≡ []
    drop_nil zero = refl
    drop_nil (suc n) = refl
evict_loop-drop limit (e ∷ es) = elim (Bool-cases (ltb limit (length (e ∷ es)))) [
  | inl y ↦
      let over : suc (length es) - limit ≡ suc (length es - limit) =
        omega (arith, ltb→lt limit (suc (length es)) y) in
      rw (y, over, evict_loop) (evict_loop-drop limit es)
  | inr n ↦
      let under : suc (length es) - limit ≡ 0 = omega (arith, ltb→ge limit (suc (length es)) n) in
      rw (n, under, evict_loop)
]

-- The window that a credited share leaves behind: the old entries but for some of the oldest, in
-- their order, and the share at the end. At most `cap` entries are kept, and if any was evicted, at
-- least `floor` are left.
pub record_share_lem :
    (w : PplnsWindow) (script : Bytes) (weight ts : ℕ)
    → (n : ℕ) × ((record_share w script weight ts).entries
        ≡ drop n w.entries
          ++ (record { payout_script = script; weight = weight; unix_ts = ts } ∷ []))
      × (length (record_share w script weight ts).entries ≤ cap)
      × (n ≢ 0 → floor ≤ length (record_share w script weight ts).entries)
unfolding record_share push_entry evict
record_share_lem w script weight ts =
    let e : WindowEntry = record { payout_script = script; weight = weight; unix_ts = ts } in
    let es = w.entries ++ (e ∷ []) in
    let limit = max_len w.target_secs es in
    let (lo, hi) = max_len_bounds w.target_secs es in
    let n = length es - limit in
    let len : length es ≡ length w.entries + 1 = length-append w.entries (e ∷ []) in
    let kept : length (drop n es) ≡ length es - n = length-drop n es in
    rw (evict_loop-drop limit es)
      (n, drop-append w.entries (e ∷ []) n (omega arith), omega arith, λ h. omega arith)

fold_weight-only :
    (script : Bytes) (es : List WindowEntry) (a b : ℕ)
    → a ≤ b
    → b ≤ u128_max
    → fold_weight a (only script es) ≤ fold_weight b es
unfolding fold_weight only
fold_weight-only script [] a b h k = h
fold_weight-only script (e ∷ es) a b h k = elim (Bool-cases (bytes_eq e.payout_script script)) [
  | inl y ↦ rw y (
      fold_weight-only script es (saturating_add128 a e.weight) (saturating_add128 b e.weight)
        (omega arith) (omega arith))
  | inr n ↦
      rw n (fold_weight-only script es a (saturating_add128 b e.weight) (omega arith) (omega arith))
]

-- A miner's share of the window is at most 10,000 basis points, also where the sums saturate.
pub miner_bps-le : (w : PplnsWindow) (script : Bytes) → miner_bps w script ≤ 10_000
unfolding miner_bps total_weight
miner_bps-le w script =
    let total = total_weight w in
    let mine = fold_weight 0 (only script w.entries) in
    let le = fold_weight-only script w.entries 0 0 (omega arith) (omega arith) in
    elim (Bool-cases (total == 0))
      as (λ _.
        (if total == 0 then 0 else saturating_mul128 mine 10_000 / total % 2 ^ 32) ≤ 10_000) [
          | inl y ↦ rw y (omega arith)
          | inr n ↦ rw n (
              let q : saturating_mul128 mine 10_000 / total ≤ 10_000 =
                div-le_of_le-mul total (omega arith) in
              let m = mod-le (saturating_mul128 mine 10_000 / total) (2 ^ 32) in omega arith)
        ]
