-- ===== src/Pool/Journal/Restart.antt =====
-- A restart of the pool takes up the window where it stopped.
use dinero_sv.Base.{
  ℕ, zero, suc, ◌≡◌, ◌≤◌, ◌<◌, refl, sym, ap, subst, ◌∙◌, arith, List, [], ◌∷◌, ◌++◌, Option, some,
  ok, and_then-eq-ok, ok_inj, append-nil, append_assoc, length, length-append, take, All,
  Bool-cases, inl, inr, Bool, true, false,
}
use dinero_sv.Pool.Window.{WindowEntry, PplnsWindow, cap, restore, record_share}
use dinero_sv.Pool.Journal.{
  Json, WindowJournal, Write, synced, cut, Replace, not_renamed, dir_not_synced, replaced,
  should_compact, open_file, entry_line, checkpoint_line, append, compact, credit_after, credit,
  credit_all, recover, start,
}
use dinero_sv.Pool.Journal.Bounds.{IsWindow, record_share-IsWindow, recover-IsWindow}
use dinero_sv.Pool.Journal.Recovery.{
  HasNoNewline, IsJson, replay, replay-append, entry_lines, entry_lines-append, recover_file,
}

replay-target :
    (t : ℕ) (w : PplnsWindow) (es : List WindowEntry)
    → w.target_secs ≡ t
    → (replay w es).target_secs ≡ t
unfolding replay IsWindow
replay-target t w [] h = h
replay-target t w (e ∷ es) h =
    replay-target t (record_share w e.payout_script e.weight e.unix_ts) es
      (record_share-IsWindow t w e h).0

whole : (t : ℕ) (w : PplnsWindow) → w.target_secs ≡ t → restore w.entries t ≡ w
unfolding restore
whole t w h = cc h

torn_part :
    (s : List ℕ) (n : ℕ) → HasNoNewline s → n ≤ length s → HasNoNewline (take n (s ++ (10 ∷ [])))
torn_part s zero h l = tt
torn_part [] (suc n) h l = absurd (omega arith)
torn_part (b ∷ s) (suc n) (hb, hs) l = (hb, torn_part s n hs (omega arith))

-- A write that fails does so within its line.
unfoldable pub IsTear : Json → WindowEntry → Write → Type 0
IsTear json e w = (n : ℕ) → w ≡ cut n → n < length (entry_line json e)

module _ (json : Json) (laws : IsJson json) (t : ℕ) where
  -- The file holds a checkpoint, entries whose replay on it is the window, and at most a torn line
  -- behind them, after which nothing more is written.
  abbrev IsKept : WindowJournal → PplnsWindow → Type 0
  IsKept j w =
      (base : List WindowEntry) × (es : List WindowEntry) × (torn : List ℕ) × (j.file
        ≡ checkpoint_line json base ++ (entry_lines json laws es ++ torn))
      × (replay (restore base t) es ≡ w)
      × (length base ≤ cap)
      × HasNoNewline torn
      × (j.failed ≡ false → torn ≡ [])

  IsKept-recover :
      (j : WindowJournal) (w : PplnsWindow) → IsKept j w → recover json (some j.file) t ≡ ok w
  IsKept-recover j w (base, es, torn, f, r, c, n, z) =
      rw f (recover_file json laws t base es torn c n ∙ ap ok r)

  IsKept-target : (j : WindowJournal) (w : PplnsWindow) → IsKept j w → w.target_secs ≡ t
  unfolding restore
  IsKept-target j w (base, es, torn, f, r, c, n, z) =
      ap (λ (v : PplnsWindow). v.target_secs) (sym r) ∙ replay-target t (restore base t) es refl

  fresh_IsKept :
      (j : WindowJournal) (w : PplnsWindow)
      → IsWindow t w
      → j.file ≡ checkpoint_line json w.entries
      → IsKept j w
  unfolding IsWindow replay entry_lines
  fresh_IsKept j w (h, l) f = (
    w.entries,
    [],
    [],
    f ∙ sym (append-nil (checkpoint_line json w.entries)),
    whole t w h,
    l,
    tt,
    λ _. refl,
  )

  compact-IsKept :
      (file : List ℕ) (n : ℕ) (failed : Bool) (w : PplnsWindow) (r : Replace)
      → IsWindow t w
      → IsKept (record { file = file; appends_since_compact = n; failed = failed }) w
      → IsKept
          (compact json
            (record { file = file; appends_since_compact = n; failed = failed })
            w.entries
            r).1
          w
  unfolding compact
  compact-IsKept file n true w r b k = k
  compact-IsKept file n false w not_renamed b k = k
  compact-IsKept file n false w dir_not_synced b k =
      fresh_IsKept
        (record {
          file = checkpoint_line json w.entries;
          appends_since_compact = n;
          failed = false;
        })
        w b refl
  compact-IsKept file n false w replaced b k =
      fresh_IsKept
        (record {
          file = checkpoint_line json w.entries;
          appends_since_compact = 0;
          failed = false;
        })
        w b refl

  -- The window and the journal after a credit whose line is in the file.
  append_synced :
      (j : WindowJournal) (w : PplnsWindow) (e : WindowEntry)
      → IsKept j w
      → j.failed ≡ false
      → IsKept
          (record j {
            file = j.file ++ entry_line json e;
            appends_since_compact = suc j.appends_since_compact;
          })
          (record_share w e.payout_script e.weight e.unix_ts)
  append_synced j w e (base, es, torn, f, r, c, n, z) y =
      let lines : j.file ++ entry_line json e
          ≡ checkpoint_line json base ++ (entry_lines json laws (es ++ (e ∷ [])) ++ []) =
        rw (f, z y, append-nil (entry_lines json laws es))
          (append_assoc (checkpoint_line json base) (entry_lines json laws es) _
            ∙ ap (λ l. checkpoint_line json base ++ l)
                (sym (
                  entry_lines-append json laws es e []
                  ∙ ap (λ l. entry_lines json laws es ++ l) (append-nil (entry_line json e))))) in
      (
        base,
        es ++ (e ∷ []),
        [],
        lines,
        replay-append (restore base t) es e
            ∙ ap (λ v. record_share v e.payout_script e.weight e.unix_ts) r,
        c,
        tt,
        λ _. refl,
      )

  append_cut :
      (j : WindowJournal) (w : PplnsWindow) (e : WindowEntry) (n : ℕ)
      → IsKept j w
      → j.failed ≡ false
      → n < length (entry_line json e)
      → IsKept (record j { file = j.file ++ take n (entry_line json e); failed = true }) w
  unfolding entry_line
  append_cut j w e n (base, es, torn, f, r, c, h, z) y l =
      let lines : j.file ++ take n (entry_line json e)
          ≡ checkpoint_line json base ++ (entry_lines json laws es ++ take n (entry_line json e)) =
        rw (f, z y, append-nil (entry_lines json laws es))
          (append_assoc (checkpoint_line json base) (entry_lines json laws es) _) in
      let len = length-append (json.entry_bytes e) (10 ∷ []) in
      (
        base,
        es,
        take n (entry_line json e),
        lines,
        r,
        c,
        torn_part (json.entry_bytes e) n (laws.entry-HasNoNewline e) (omega arith),
        λ x. absurd (cc x),
      )

  -- What `credit` does after an append that succeeded.
  credited-IsKept :
      (j : WindowJournal) (w : PplnsWindow) (e : WindowEntry) (r : Replace)
      → w.target_secs ≡ t
      → IsKept j (record_share w e.payout_script e.weight e.unix_ts)
      → IsKept (credit_after json (ok tt, j) w e r).1 (credit_after json (ok tt, j) w e r).2
  unfolding credit_after
  credited-IsKept j w e r h k = elim (Bool-cases (should_compact j)) [
    | inr y ↦ rw y k
    | inl y ↦
        let b = record_share-IsWindow t w e h in
        rw y (compact-IsKept j.file j.appends_since_compact j.failed _ r b k)
  ]

  credit-IsKept :
      (file : List ℕ) (n : ℕ) (failed : Bool) (w : PplnsWindow) (e : WindowEntry) (wr : Write)
      (r : Replace)
      → IsTear json e wr
      → IsKept (record { file = file; appends_since_compact = n; failed = failed }) w
      → IsKept
          (credit json
            (record { file = file; appends_since_compact = n; failed = failed })
            w
            e
            wr
            r).1
          (credit json
            (record { file = file; appends_since_compact = n; failed = failed })
            w
            e
            wr
            r).2
  unfolding credit credit_after append IsTear
  credit-IsKept file n true w e wr r tear k = k
  credit-IsKept file n false w e synced r tear k =
      let j : WindowJournal = record { file = file; appends_since_compact = n; failed = false } in
      credited-IsKept _ w e r (IsKept-target j w k) (append_synced j w e k refl)
  credit-IsKept file n false w e (cut m) r tear k =
      append_cut (record { file = file; appends_since_compact = n; failed = false }) w e m k refl
        (tear m refl)

  credit_all-IsKept :
      (j : WindowJournal) (w : PplnsWindow) (events : List (WindowEntry × Write × Replace))
      → All (λ v. IsTear json v.0 v.1) events
      → IsKept j w
      → IsKept (credit_all json j w events).0 (credit_all json j w events).1
  unfolding credit_all
  credit_all-IsKept j w [] h k = k
  credit_all-IsKept j w ((e, wr, r) ∷ events) (h, hs) k =
      credit_all-IsKept (credit json j w e wr r).1 (credit json j w e wr r).2 events hs
        (credit-IsKept j.file j.appends_since_compact j.failed w e wr r h k)

compact-eq-ok :
    (json : Json) (file : List ℕ) (n : ℕ) (failed : Bool) (es : List WindowEntry) (r : Replace)
    {u : Unit {0}}
    → (compact json (record { file = file; appends_since_compact = n; failed = failed }) es r).0
      ≡ ok u
    → (compact json
        (record { file = file; appends_since_compact = n; failed = failed })
        es
        r).1.file
      ≡ checkpoint_line json es
unfolding compact
compact-eq-ok json file n true es r h = absurd (cc h)
compact-eq-ok json file n false es not_renamed h = absurd (cc h)
compact-eq-ok json file n false es dir_not_synced h = absurd (cc h)
compact-eq-ok json file n false es replaced h = refl

-- Whatever the shares that are credited after a start of the pool, and wherever the replacements of
-- the file and the writes of lines fail, the latter within their line: a restart recovers exactly
-- the window in memory.
pub recover-credit_all :
    (json : Json) (file : Option (List ℕ)) (r : Replace) (j : WindowJournal) (window : PplnsWindow)
    (events : List (WindowEntry × Write × Replace))
    → IsJson json
    → start json file r ≡ ok (j, window)
    → All (λ v. IsTear json v.0 v.1) events
    → recover json (some (credit_all json j window events).0.file) 14_400
      ≡ ok (credit_all json j window events).1
unfolding start
recover-credit_all json file r j window events laws h tears =
    let (w, a, h1) = and_then-eq-ok (recover json file 14_400) _ h in
    let good = recover-IsWindow json 14_400 file w a in
    let o = open_file file in
    let (_, done, h2) = and_then-eq-ok (compact json o w.entries r).0 _ h1 in
    let written = compact-eq-ok json o.file o.appends_since_compact o.failed w.entries r done in
    let same = ok_inj h2 in
    let j' : (compact json o w.entries r).1 ≡ j =
      ap (λ (p : WindowJournal × PplnsWindow). p.0) same in
    let w' : w ≡ window = ap (λ (p : WindowJournal × PplnsWindow). p.1) same in
    let kept = fresh_IsKept json laws 14_400 j window (subst (IsWindow 14_400) w' good) (
      ap (λ (k : WindowJournal). k.file) (sym j')
      ∙ written
      ∙ ap (λ (v : PplnsWindow). checkpoint_line json v.entries) w') in
    let after = credit_all json j window events in
    IsKept-recover json laws 14_400 after.0 after.1
      (credit_all-IsKept json laws 14_400 j window events tears kept)
