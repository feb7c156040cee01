-- ===== src/Examples/Journal.antt =====
-- A journal that the theorem on restarts applies to: a text for entries and checkpoints that needs
-- no bytes below 11 for its numbers.
use dinero_sv.Base.{
  ℕ, ◌+◌, ◌-◌, ◌≡◌, refl, ap, ◌∙◌, arith, List, [], ◌∷◌, ◌++◌, map, Option, none, some, ok,
  append-nil, append_assoc, All, ◌==◌, if◌then◌else◌, Bool, true, false,
}
use dinero_sv.Pool.Window.{WindowEntry, new}
use dinero_sv.Pool.Journal.{
  Json, WindowJournal, Write, synced, cut, Replace, replaced, not_renamed, entry_line, start,
  credit_all, recover, recover_records, compact, open_file, checkpoint_line,
}
use dinero_sv.Pool.Journal.Recovery.{HasNoNewline, IsJson}
use dinero_sv.Pool.Journal.Restart.{IsTear, recover-credit_all}

abbrev shift : List ℕ → List ℕ
shift s = map (λ b. b + 11) s

abbrev fields : WindowEntry → List ℕ
fields e = e.weight ∷ e.unix_ts ∷ e.payout_script

unfoldable entries_bytes : List WindowEntry → List ℕ
entries_bytes [] = []
entries_bytes (e ∷ es) = 2 ∷ (shift (fields e) ++ entries_bytes es)

abbrev finish_entry : List ℕ → List WindowEntry → List WindowEntry
finish_entry [] es = es
finish_entry (w ∷ []) es = es
finish_entry (w ∷ t ∷ s) es = record { payout_script = s; weight = w; unix_ts = t } ∷ es

-- The fields that are not yet an entry, and the entries behind them.
unfoldable scan : List ℕ → List ℕ × List WindowEntry
scan [] = ([], [])
scan (b ∷ bs) =
    let (open_fields, es) = scan bs in
    if b == 10
    then ([], [])
    else if b == 2
    then ([], finish_entry open_fields es)
    else ((b - 11) ∷ open_fields, es)

abbrev first : List WindowEntry → Option WindowEntry
first [] = none
first (e ∷ es) = some e

abbrev tag : List ℕ → Option Bool
tag [] = none
tag (b ∷ bs) = if b == 1 then some true else if b == 2 then some false else none

abbrev checkpoint : List ℕ → Option (ℕ × List WindowEntry)
checkpoint [] = none
checkpoint (b ∷ []) = none
checkpoint (b ∷ v ∷ bs) = some (v - 11, (scan bs).1)

abbrev json : Json
json = record {
  entry_bytes = λ e. entries_bytes (e ∷ []);
  checkpoint_bytes = λ v es. 1 ∷ (v + 11) ∷ entries_bytes es;
  has_version = tag;
  checkpoint_of = checkpoint;
  entry_of = λ s. first (scan s).1;
}

scan-shift :
    (cs rest cur : List ℕ) (es : List WindowEntry)
    → scan rest ≡ (cur, es)
    → scan (shift cs ++ rest) ≡ (cs ++ cur, es)
unfolding scan
scan-shift [] rest cur es h = h
scan-shift (c ∷ cs) rest cur es h =
    let newline : (c + 11 == 10) ≡ false = ground arith in
    let mark : (c + 11 == 2) ≡ false = ground arith in
    let back : c + 11 - 11 ≡ c = omega arith in
    rw (newline, mark, back, scan-shift cs rest cur es h) refl

scan-mark :
    (e : WindowEntry) (rest : List ℕ) (es : List WindowEntry)
    → scan rest ≡ (fields e, es)
    → scan (2 ∷ rest) ≡ ([], e ∷ es)
unfolding scan
scan-mark e rest es h = rw h refl

scan-entries : (es : List WindowEntry) → scan (entries_bytes es ++ (10 ∷ [])) ≡ ([], es)
unfolding scan entries_bytes
scan-entries [] = refl
scan-entries (e ∷ es) =
    let rest = scan-shift (fields e) (entries_bytes es ++ (10 ∷ [])) [] es (scan-entries es) in
    let joined = append_assoc (shift (fields e)) (entries_bytes es) (10 ∷ []) in
    scan-mark e ((shift (fields e) ++ entries_bytes es) ++ (10 ∷ [])) es (
      ap scan joined ∙ rest ∙ ap (λ k. (e.weight ∷ e.unix_ts ∷ k, es)) (append-nil e.payout_script))

shift-HasNoNewline : (cs rest : List ℕ) → HasNoNewline rest → HasNoNewline (shift cs ++ rest)
shift-HasNoNewline [] rest h = h
shift-HasNoNewline (c ∷ cs) rest h = (ground arith, shift-HasNoNewline cs rest h)

entries-HasNoNewline : (es : List WindowEntry) → HasNoNewline (entries_bytes es)
unfolding entries_bytes
entries-HasNoNewline [] = tt
entries-HasNoNewline (e ∷ es) =
    (refl, shift-HasNoNewline (fields e) (entries_bytes es) (entries-HasNoNewline es))

json-IsJson : IsJson json
unfolding entries_bytes
json-IsJson = record {
  entry-HasNoNewline = λ e. entries-HasNoNewline (e ∷ []);
  checkpoint-HasNoNewline = λ es. (refl, (refl, entries-HasNoNewline es));
  has_version-entry = λ e. refl;
  has_version-checkpoint = λ es. refl;
  entry_of-entry = λ e. ap (λ (r : List ℕ × List WindowEntry). first r.1) (scan-entries (e ∷ []));
  checkpoint_of-checkpoint =
      λ es. ap (λ (r : List ℕ × List WindowEntry). some (1, r.1)) (scan-entries es);
}

abbrev share : ℕ → WindowEntry
share n = record { payout_script = 81 ∷ n ∷ []; weight = 10 + n; unix_ts = 4000 + n }

abbrev fresh_file : List ℕ
fresh_file = 1 ∷ 12 ∷ 10 ∷ []

abbrev journal : WindowJournal
journal = record { file = fresh_file; appends_since_compact = 0; failed = false }

-- Two shares are credited, and the write of a third is cut off within its line.
abbrev credits : List (WindowEntry × Write × Replace)
credits =
    (share 1, synced, replaced) ∷ (share 2, synced, not_renamed) ∷ (share 3, cut 4, replaced) ∷ []

credits-All : All (λ v. IsTear json v.0 v.1) credits
unfolding IsTear entry_line entries_bytes
credits-All = (
  λ n e. absurd (cc e),
  (λ n e. absurd (cc e), (λ n e. let k : 4 ≡ n = cc e in omega (arith, k), tt)),
)

recover-credit_all_example :
    recover json (some (credit_all json journal (new 14_400) credits).0.file) 14_400
    ≡ ok (credit_all json journal (new 14_400) credits).1
unfolding start recover recover_records compact open_file checkpoint_line entries_bytes
recover-credit_all_example =
    recover-credit_all json none replaced journal (new 14_400) credits json-IsJson refl credits-All
