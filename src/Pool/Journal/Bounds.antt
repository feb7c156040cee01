-- ===== src/Pool/Journal/Bounds.antt =====
-- The size of a recovered window.
use dinero_sv.Base.{
  ℕ, suc, ◌≡◌, ◌≤◌, refl, subst, arith, List, [], ◌∷◌, Option, none, some, Result, ok, err,
  and_then-eq-ok, ok_inj, length, ltb, if◌then◌else◌, ltb→ge, Bool-cases, Option-cases, inl, inr,
  Bool, true, false,
}
use dinero_sv.Pool.Window.{
  WindowEntry, PplnsWindow, cap, new, restore, evict, push_entry, record_share,
}
use dinero_sv.Pool.Window.Bounds.{record_share_lem}
use dinero_sv.Pool.Journal.{
  Json, JournalError, lines_of, ends_with_newline, load_checkpoint, replay_entry, recover_line,
  recover_loop, recover_records, recover, parsed,
}

-- The window is one of the pool's.
unfoldable pub IsWindow : ℕ → PplnsWindow → Type 0
IsWindow t w = (w.target_secs ≡ t) × (length w.entries ≤ cap)

pub record_share-IsWindow :
    (t : ℕ) (w : PplnsWindow) (e : WindowEntry)
    → w.target_secs ≡ t
    → IsWindow t (record_share w e.payout_script e.weight e.unix_ts)
unfolding IsWindow record_share push_entry evict
record_share-IsWindow t w e h =
    let (_, _, fits, _) = record_share_lem w e.payout_script e.weight e.unix_ts in (h, fits)

-- `ensure!(!b, e)` and what follows it.
guarded :
    {A : Type 0} (b : Bool) (e : JournalError) (rest : Result JournalError A) (v : A)
    → (if b then err e else rest) ≡ ok v
    → (b ≡ false) × (rest ≡ ok v)
guarded true e rest v h = absurd (cc h)
guarded false e rest v h = (refl, h)

load_checkpoint-IsWindow :
    (json : Json) (t i : ℕ) (line : List ℕ) (v : PplnsWindow)
    → load_checkpoint json t i line ≡ ok v
    → IsWindow t v
unfolding load_checkpoint IsWindow restore
load_checkpoint-IsWindow json t i line v h =
    let (_, h1) = guarded _ _ _ v h in
    let (c, _, h2) = and_then-eq-ok (parsed i (json.checkpoint_of line)) _ h1 in
    let (_, h3) = guarded _ _ _ v h2 in
    let (fits, h4) = guarded _ _ _ v h3 in
    subst (IsWindow t) (ok_inj h4) (refl, ltb→ge cap (length c.1) fits)

replay_entry-IsWindow :
    (json : Json) (t i : ℕ) (b : Bool) (w : PplnsWindow) (line : List ℕ) (v : PplnsWindow)
    → w.target_secs ≡ t
    → replay_entry json b w i line ≡ ok v
    → IsWindow t v
unfolding replay_entry
replay_entry-IsWindow json t i b w line v k h =
    let (_, h1) = guarded _ _ _ v h in
    let (e, _, h2) = and_then-eq-ok (parsed i (json.entry_of line)) _ h1 in
    subst (IsWindow t) (ok_inj h2) (record_share-IsWindow t w e k)

recover_line-IsWindow :
    (json : Json) (t i : ℕ) (b : Bool) (w : PplnsWindow) (line : List ℕ) (v : PplnsWindow)
    → w.target_secs ≡ t
    → recover_line json t b w i line ≡ ok v
    → IsWindow t v
unfolding recover_line
recover_line-IsWindow json t i b w line v k h = elim (Option-cases (json.has_version line)) [
  | inl z ↦ absurd (cc (rw (z, recover_line) at h))
  | inr (true, y) ↦ load_checkpoint-IsWindow json t i line v (rw (y, recover_line) at h)
  | inr (false, y) ↦ replay_entry-IsWindow json t i b w line v k (rw (y, recover_line) at h)
]

recover_loop-IsWindow :
    (json : Json) (t i : ℕ) (b : Bool) (w : PplnsWindow) (lines : List (List ℕ)) (v : PplnsWindow)
    → IsWindow t w
    → recover_loop json t b w i lines ≡ ok v
    → IsWindow t v
unfolding recover_loop IsWindow
recover_loop-IsWindow json t i b w [] v k h = subst (IsWindow t) (ok_inj h) k
recover_loop-IsWindow json t i b w (line ∷ lines) v k h =
    elim (Bool-cases (ends_with_newline line)) [
      | inr z ↦
          let h1 = rw z at h in
          elim (Bool-cases (ltb 0 i)) [
            | inl y ↦ subst (IsWindow t) (ok_inj (rw y at h1)) k
            | inr y ↦ absurd (cc (h1, y))
          ]
      | inl y ↦
          let (u, a, h1) = and_then-eq-ok (recover_line json t b w i line) _ (rw y at h) in
          recover_loop-IsWindow json t (suc i) b u lines v
            (recover_line-IsWindow json t i b w line u k.0 a) h1
    ]

-- A recovered window holds no more than `cap` entries.
pub recover-IsWindow :
    (json : Json) (t : ℕ) (file : Option (List ℕ)) (v : PplnsWindow)
    → recover json file t ≡ ok v
    → IsWindow t v
unfolding recover recover_records IsWindow
recover-IsWindow json t none v h = subst (IsWindow t) (ok_inj h) (refl, omega arith)
recover-IsWindow json t (some bytes) v h =
    recover_loop-IsWindow json t 0 false (new t) (lines_of bytes) v (refl, omega arith) h
