-- ===== src/Pool/Calls.antt =====
-- Calls of the three share handlers of the pool server, one after another, for any connections
-- (crates/dinero-sv2-pool/src/main.rs), and what they do to the filter that the connections share.
use dinero_sv.Base.{
  ℕ, suc, ◌≡◌, ◌≤◌, refl, sym, ap, ◌∙◌, arith, List, [], ◌∷◌, ◌++◌, Option, length, length-append,
  inl, inr,
}
use dinero_sv.Bytestring.{Bytes}
use dinero_sv.Pool.Bans.{BanList}
use dinero_sv.Pool.Block.{Hex}
use dinero_sv.Pool.Dedup.{ShareDedup, insert, insert_all}
use dinero_sv.Pool.Journal.{Json}
use dinero_sv.Pool.Work.{PoolTemplate, SharedTemplate}
use dinero_sv.Pool.Session.{Frame, Outside, State}
use dinero_sv.Pool.Accept.{Channel}
use dinero_sv.Pool.Solo.{handle_share}
use dinero_sv.Pool.Solo.Credit.{handle_share_lem}
use dinero_sv.Pool.Shared.{handle_shared_share}
use dinero_sv.Pool.Shared.Effect.{handle_shared_share_lem}
use dinero_sv.Pool.Extended.{handle_extended_share}
use dinero_sv.Pool.Extended.Credit.{handle_extended_share_lem}

module _ (sha256 : Bytes → Bytes) (hex : Hex) (json : Json) where
  -- `n` calls lead from one state to the other. Between two calls the connection may change: the
  -- counters and the frames are its own.
  pub data Calls (s : State) : ℕ → State → Type 0 where
    none_yet : Calls s 0 s
    switch :
        {n : ℕ} {t : State} (last_sequence_number accepted_in_window : ℕ) (sent : List Frame)
        → Calls s n t
        → Calls s n (record t {
          last_sequence_number = last_sequence_number;
          accepted_in_window = accepted_in_window;
          sent = sent;
        })
    solo :
        {n : ℕ} {t : State} (out : Outside) (ch : Channel) (payload : Bytes)
        (current : Option PoolTemplate) (immutable : Option SharedTemplate)
        → Calls s n t
        → Calls s (suc n) (handle_share sha256 hex out ch payload current immutable t).1
    shared :
        {n : ℕ} {t : State} (out : Outside) (channel_id : ℕ) (share_target : Bytes) (bans : BanList)
        (payout_script payload : Bytes) (current : Option PoolTemplate)
        (current_shared : Option SharedTemplate)
        → Calls s n t
        → Calls s
            (suc n)
            (handle_shared_share sha256 hex json out channel_id share_target bans payout_script
              payload current current_shared t).1
    extended :
        {n : ℕ} {t : State} (activation : ℕ) (out : Outside) (ch : Channel) (payload : Bytes)
        (current : Option PoolTemplate)
        → Calls s n t
        → Calls s (suc n) (handle_extended_share sha256 hex activation out ch payload current t).1

insert_all-append_one :
    (d : ShareDedup) (hs : List Bytes) (h : Bytes)
    → insert_all d (hs ++ (h ∷ [])) ≡ (insert (insert_all d hs) h).0
unfolding insert_all
insert_all-append_one d [] h = refl
insert_all-append_one d (k ∷ hs) h = insert_all-append_one (insert d k).0 hs h

-- A filter that has looked at no more than `n` hashes.
abbrev Looked : ShareDedup → ℕ → ShareDedup → Type 0
Looked d n e = (hs : List Bytes) × (length hs ≤ n) × (e ≡ insert_all d hs)

-- A call leaves the filter or has it look at one hash.
Looked-kept :
    (d : ShareDedup) (n : ℕ) (e f : ShareDedup) → Looked d n e → f ≡ e → Looked d (suc n) f
Looked-kept d n e f (hs, b, q) p = (hs, omega arith, p ∙ q)

Looked-insert :
    (d : ShareDedup) (n : ℕ) (e f : ShareDedup) (h : Bytes)
    → Looked d n e
    → f ≡ (insert e h).0
    → Looked d (suc n) f
Looked-insert d n e f h (hs, b, q) p =
    let longer = length-append hs (h ∷ []) in
    (
      hs ++ (h ∷ []),
      omega (arith, longer),
      p ∙ ap (λ g. (insert g h).0) q ∙ sym (insert_all-append_one d hs h),
    )

module _ (sha256 : Bytes → Bytes) (hex : Hex) (json : Json) where
  -- So any calls have it look at no more hashes than there are calls.
  pub Calls-insert_all :
      {s t : State} {n : ℕ}
      → Calls sha256 hex json s n t
      → (hs : List Bytes) × (length hs ≤ n) × (t.dedup ≡ insert_all s.dedup hs)
  unfolding insert_all
  Calls-insert_all none_yet = ([], omega arith, refl)
  Calls-insert_all (switch a b c r) = Calls-insert_all r
  Calls-insert_all {s = s} (solo {n = n} {t = t} out ch payload current immutable r) =
      let l = Calls-insert_all r in
      elim (handle_share_lem sha256 hex out ch payload current immutable t) [
        | inl e ↦ Looked-kept s.dedup n t.dedup _ l e.untouched.dedup
        | inr (pt, share, p, w, a) ↦ Looked-insert s.dedup n t.dedup _ _ l a.dedup
      ]
  Calls-insert_all {s = s}
        (shared {n = n} {t = t} out channel_id share_target bans payout_script payload current
          current_shared r) =
      let l = Calls-insert_all r in
      elim (handle_shared_share_lem sha256 hex json out channel_id share_target bans payout_script
        payload current current_shared t) [
          | inl e ↦ Looked-kept s.dedup n t.dedup _ l e.untouched.dedup
          | inr (st, share, p, w, a) ↦ Looked-insert s.dedup n t.dedup _ _ l a.dedup
        ]
  Calls-insert_all {s = s} (extended {n = n} {t = t} activation out ch payload current r) =
      let l = Calls-insert_all r in
      elim (handle_extended_share_lem sha256 hex activation out ch payload current t) [
        | inl e ↦ Looked-kept s.dedup n t.dedup _ l e.untouched.dedup
        | inr (pt, ext, template, stripped, p, w, a) ↦ Looked-insert s.dedup n t.dedup _ _ l a.dedup
      ]
