-- ===== src/Pool/Journal/Recovery.antt =====
-- What a restart recovers from the journal.
use dinero_sv.Base.{
  ℕ, suc, ◌≡◌, ◌≤◌, ◌<◌, refl, sym, ap, ◌∙◌, arith, List, [], ◌∷◌, ◌++◌, some, ok, append-nil,
  append_assoc, length, All, ◌==◌, ge→ltb, lt→ltb, true, false,
}
use dinero_sv.Pool.Window.{WindowEntry, PplnsWindow, cap, restore, record_share}
use dinero_sv.Pool.Journal.{
  Json, lines_of, ends_with_newline, entry_line, checkpoint_line, load_checkpoint, replay_entry,
  recover_line, recover_loop, recover_records, recover,
}

abbrev pub HasNoNewline : List ℕ → Type 0
HasNoNewline s = All (λ b. (b == 10) ≡ false) s

-- What the code relies on: the compact JSON of serde_json holds no newline, and what is written is
-- read back, also with a newline behind it.
pub record IsJson (json : Json) : Type 0 where
  pub entry-HasNoNewline : (e : WindowEntry) → HasNoNewline (json.entry_bytes e)
  pub checkpoint-HasNoNewline : (es : List WindowEntry) → HasNoNewline (json.checkpoint_bytes 1 es)
  pub has_version-entry :
      (e : WindowEntry) → json.has_version (json.entry_bytes e ++ (10 ∷ [])) ≡ some false
  pub has_version-checkpoint :
      (es : List WindowEntry)
      → json.has_version (json.checkpoint_bytes 1 es ++ (10 ∷ [])) ≡ some true
  pub entry_of-entry : (e : WindowEntry) → json.entry_of (json.entry_bytes e ++ (10 ∷ [])) ≡ some e
  pub checkpoint_of-checkpoint :
      (es : List WindowEntry)
      → json.checkpoint_of (json.checkpoint_bytes 1 es ++ (10 ∷ [])) ≡ some (1, es)

lines_of-line :
    (s rest : List ℕ)
    → HasNoNewline s
    → lines_of (s ++ (10 ∷ rest)) ≡ (s ++ (10 ∷ [])) ∷ lines_of rest
unfolding lines_of
lines_of-line [] rest h = refl
lines_of-line (b ∷ s) rest (hb, hs) = rw (hb, lines_of-line s rest hs) refl

lines_of-torn : (b : ℕ) (s : List ℕ) → HasNoNewline (b ∷ s) → lines_of (b ∷ s) ≡ (b ∷ s) ∷ []
unfolding lines_of
lines_of-torn b [] (hb, hs) = rw hb refl
lines_of-torn b (c ∷ s) (hb, hs) = rw (hb, lines_of-torn c s hs) refl

ends_line : (s : List ℕ) → ends_with_newline (s ++ (10 ∷ [])) ≡ true
unfolding ends_with_newline
ends_line [] = refl
ends_line (b ∷ []) = refl
ends_line (b ∷ (c ∷ s)) = ends_line (c ∷ s)

ends_torn : (b : ℕ) (s : List ℕ) → HasNoNewline (b ∷ s) → ends_with_newline (b ∷ s) ≡ false
unfolding ends_with_newline
ends_torn b [] (hb, hs) = hb
ends_torn b (c ∷ s) (hb, hs) = ends_torn c s hs

-- The window after the entries.
unfoldable pub replay : PplnsWindow → List WindowEntry → PplnsWindow
replay w [] = w
replay w (e ∷ es) = replay (record_share w e.payout_script e.weight e.unix_ts) es

pub replay-append :
    (w : PplnsWindow) (es : List WindowEntry) (e : WindowEntry)
    → replay w (es ++ (e ∷ [])) ≡ record_share (replay w es) e.payout_script e.weight e.unix_ts
unfolding replay
replay-append w [] e = refl
replay-append w (f ∷ es) e = replay-append (record_share w f.payout_script f.weight f.unix_ts) es e

module _ (json : Json) (laws : IsJson json) where
  unfoldable pub entry_lines : List WindowEntry → List ℕ
  entry_lines [] = []
  entry_lines (e ∷ es) = entry_line json e ++ entry_lines es

  pub entry_lines-append :
      (es : List WindowEntry) (e : WindowEntry) (rest : List ℕ)
      → entry_lines (es ++ (e ∷ [])) ++ rest ≡ entry_lines es ++ (entry_line json e ++ rest)
  unfolding entry_lines
  entry_lines-append [] e rest = ap (λ l. l ++ rest) (append-nil (entry_line json e))
  entry_lines-append (f ∷ es) e rest =
      append_assoc (entry_line json f) _ rest
      ∙ ap (λ l. entry_line json f ++ l) (entry_lines-append es e rest)
      ∙ sym (append_assoc (entry_line json f) (entry_lines es) _)

  -- The lines of the entries give their replay, whatever the torn line behind them.
  recover_entries :
      (t index : ℕ) (w : PplnsWindow) (es : List WindowEntry) (torn : List ℕ)
      → 0 < index
      → HasNoNewline torn
      → recover_loop json t false w index (lines_of (entry_lines es ++ torn)) ≡ ok (replay w es)
  unfolding recover_loop recover_line replay_entry entry_lines entry_line replay lines_of
  recover_entries t index w [] [] i h = refl
  recover_entries t index w [] (b ∷ torn) i h =
      rw (lines_of-torn b torn h) (rw (ends_torn b torn h, lt→ltb 0 index i) refl)
  recover_entries t index w (e ∷ es) torn i h =
      let text = json.entry_bytes e in
      let lines : lines_of ((entry_line json e ++ entry_lines es) ++ torn)
          ≡ (text ++ (10 ∷ [])) ∷ lines_of (entry_lines es ++ torn) =
        ap lines_of
          (append_assoc (entry_line json e) (entry_lines es) torn ∙ append_assoc text (10 ∷ []) _)
        ∙ lines_of-line text _ (laws.entry-HasNoNewline e) in
      rw lines (
        rw (ends_line text, laws.has_version-entry e, recover_line)
          (rw (lt→ltb 0 index i, laws.entry_of-entry e)
            (recover_entries t (suc index) (record_share w e.payout_script e.weight e.unix_ts) es
              torn (omega arith) h)))

  pub recover_file :
      (t : ℕ) (base es : List WindowEntry) (torn : List ℕ)
      → length base ≤ cap
      → HasNoNewline torn
      → recover json (some (checkpoint_line json base ++ (entry_lines es ++ torn))) t
        ≡ ok (replay (restore base t) es)
  unfolding recover recover_records recover_loop recover_line load_checkpoint checkpoint_line
  recover_file t base es torn c h =
      let text = json.checkpoint_bytes 1 base in
      let lines : lines_of (checkpoint_line json base ++ (entry_lines es ++ torn))
          ≡ (text ++ (10 ∷ [])) ∷ lines_of (entry_lines es ++ torn) =
        ap lines_of (append_assoc text (10 ∷ []) _)
        ∙ lines_of-line text _ (laws.checkpoint-HasNoNewline base) in
      rw lines (
        rw (ends_line text, laws.has_version-checkpoint base, recover_line)
          (rw (laws.checkpoint_of-checkpoint base, ge→ltb cap (length base) c)
            (recover_entries t 1 (restore base t) es torn (omega arith) h)))
