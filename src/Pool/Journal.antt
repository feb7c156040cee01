-- ===== src/Pool/Journal.antt =====
-- The journal of the PPLNS window (crates/dinero-sv2-pool/src/journal.rs). The file that stands at
-- the journal's path is its bytes; how far a write or a replacement of the file gets before it fails
-- is an argument. The JSON of serde_json, a third-party crate, is a parameter. Reads do not fail.
pub mod Recovery
pub mod Bounds
pub mod Restart
use dinero_sv.Base.{
  ℕ, suc, List, [], ◌∷◌, ◌++◌, Option, none, some, Result, ok, err, and_then, length, take, ltb,
  leb, ◌==◌, if◌then◌else◌, Bool, true, false, ◌||◌, not,
}
use dinero_sv.Pool.Window.{WindowEntry, PplnsWindow, cap, new, restore, record_share}

-- serde_json, where the source uses it: `to_writer` on an entry and on a checkpoint with its version,
-- `from_slice` into a value of which only the member `checkpoint_version` is looked for, and
-- `from_slice` into each of the two types.
pub record Json : Type 0 where
  pub entry_bytes : WindowEntry → List ℕ
  pub checkpoint_bytes : ℕ → List WindowEntry → List ℕ
  pub has_version : List ℕ → Option Bool
  pub checkpoint_of : List ℕ → Option (ℕ × List WindowEntry)
  pub entry_of : List ℕ → Option WindowEntry

pub record WindowJournal : Type 0 where
  pub file : List ℕ
  pub appends_since_compact : ℕ
  pub failed : Bool

pub data JournalError : Type 0 where
  needs_recovery : JournalError
  io : JournalError
  incomplete_first : JournalError
  corrupt_record : ℕ → JournalError
  checkpoint_not_first : JournalError
  unknown_version : JournalError
  oversized_checkpoint : JournalError
  needs_migration : JournalError

-- How far the write of a line gets: to its end and to the disk, or to a failure when that many
-- bytes of it are in the file.
pub data Write : Type 0 where
  synced : Write
  cut : ℕ → Write

-- How far the replacement of the file gets.
pub data Replace : Type 0 where
  not_renamed : Replace
  dir_not_synced : Replace
  replaced : Replace

abbrev pub compact_every : ℕ
compact_every = 10_000

abbrev newline : ℕ
newline = 10

-- `read_until(b'\n')` until the end: each line with its newline, which only the last may lack.
unfoldable pub lines_of : List ℕ → List (List ℕ)
lines_of [] = []
lines_of (b ∷ bs) = if b == newline then (b ∷ []) ∷ lines_of bs else first_of b (lines_of bs)
  where
    first_of : ℕ → List (List ℕ) → List (List ℕ)
    first_of c [] = (c ∷ []) ∷ []
    first_of c (l ∷ ls) = (c ∷ l) ∷ ls

unfoldable pub ends_with_newline : List ℕ → Bool
ends_with_newline [] = false
ends_with_newline (b ∷ []) = b == newline
ends_with_newline (b ∷ (c ∷ bs)) = ends_with_newline (c ∷ bs)

-- `open`, a word that is taken here. The file is created where there is none.
unfoldable pub open_file : Option (List ℕ) → WindowJournal
open_file none = record { file = []; appends_since_compact = 0; failed = false }
open_file (some bytes) = record { file = bytes; appends_since_compact = 0; failed = false }

unfoldable pub should_compact : WindowJournal → Bool
should_compact j = leb compact_every j.appends_since_compact

-- A record that does not parse.
abbrev pub parsed : {A : Type 0} → ℕ → Option A → Result JournalError A
parsed index none = err (corrupt_record index)
parsed index (some a) = ok a

abbrev pub Outcome : Type 0
Outcome = Result JournalError (Unit {0})

module _ (json : Json) where
  unfoldable pub entry_line : WindowEntry → List ℕ
  entry_line e = json.entry_bytes e ++ (newline ∷ [])

  unfoldable pub checkpoint_line : List WindowEntry → List ℕ
  checkpoint_line entries = json.checkpoint_bytes 1 entries ++ (newline ∷ [])

  unfoldable pub append : WindowJournal → WindowEntry → Write → Outcome × WindowJournal
  append j entry w = if j.failed then (err needs_recovery, j) else elim w [
    | synced ↦ (
      ok tt,
      record j {
        file = j.file ++ entry_line entry;
        appends_since_compact = suc j.appends_since_compact;
      },
    )
    | cut n ↦ (err io, record j { file = j.file ++ take n (entry_line entry); failed = true })
  ]

  unfoldable pub compact : WindowJournal → List WindowEntry → Replace → Outcome × WindowJournal
  compact j entries r = if j.failed then (err needs_recovery, j) else elim r [
    | not_renamed ↦ (err io, j)
    | dir_not_synced ↦ (err io, record j { file = checkpoint_line entries })
    | replaced ↦ (ok tt, record j { file = checkpoint_line entries; appends_since_compact = 0 })
  ]

  -- `credit` after its call of `append`.
  unfoldable pub credit_after :
      Outcome × WindowJournal
      → PplnsWindow
      → WindowEntry
      → Replace
      → Outcome × WindowJournal × PplnsWindow
  credit_after (err e, j) window entry r = (err e, j, window)
  credit_after (ok _, j) window entry r =
      let credited = record_share window entry.payout_script entry.weight entry.unix_ts in
      if should_compact j
      then (ok tt, (compact j credited.entries r).1, credited)
      else (ok tt, j, credited)

  unfoldable pub credit :
      WindowJournal
      → PplnsWindow
      → WindowEntry
      → Write
      → Replace
      → Outcome × WindowJournal × PplnsWindow
  credit j window entry w r = credit_after (append j entry w) window entry r

  -- A record that is a checkpoint.
  unfoldable pub load_checkpoint : ℕ → ℕ → List ℕ → Result JournalError PplnsWindow
  load_checkpoint target_secs index line =
      if not (index == 0)
      then err checkpoint_not_first
      else and_then (parsed index (json.checkpoint_of line)) λ c.
        if not (c.0 == 1)
        then err unknown_version
        else if ltb cap (length c.1)
        then err oversized_checkpoint
        else ok (restore c.1 target_secs)

  -- A record that is an entry.
  unfoldable pub replay_entry : Bool → PplnsWindow → ℕ → List ℕ → Result JournalError PplnsWindow
  replay_entry legacy_history window index line =
      if not (ltb 0 index || legacy_history)
      then err needs_migration
      else and_then (parsed index (json.entry_of line))
          λ e. ok (record_share window e.payout_script e.weight e.unix_ts)

  unfoldable pub recover_line :
      ℕ → Bool → PplnsWindow → ℕ → List ℕ → Result JournalError PplnsWindow
  recover_line target_secs legacy_history window index line = elim (json.has_version line) [
    | none ↦ err (corrupt_record index)
    | some true ↦ load_checkpoint target_secs index line
    | some false ↦ replay_entry legacy_history window index line
  ]

  unfoldable pub recover_loop :
      ℕ → Bool → PplnsWindow → ℕ → List (List ℕ) → Result JournalError PplnsWindow
  recover_loop target_secs legacy_history window index [] = ok window
  recover_loop target_secs legacy_history window index (line ∷ lines) =
      if not (ends_with_newline line)
      then if ltb 0 index then ok window else err incomplete_first
      else and_then (recover_line target_secs legacy_history window index line)
          λ w. recover_loop target_secs legacy_history w (suc index) lines

  -- `none` is a path without a file.
  unfoldable pub recover_records : Option (List ℕ) → ℕ → Bool → Result JournalError PplnsWindow
  recover_records none target_secs legacy_history = ok (new target_secs)
  recover_records (some bytes) target_secs legacy_history =
      recover_loop target_secs legacy_history (new target_secs) 0 (lines_of bytes)

  unfoldable pub recover : Option (List ℕ) → ℕ → Result JournalError PplnsWindow
  recover file target_secs = recover_records file target_secs false

  -- The pool's start (`main`): the recovered window, and a journal that begins with its checkpoint.
  unfoldable pub start :
      Option (List ℕ) → Replace → Result JournalError (WindowJournal × PplnsWindow)
  start file r = and_then (recover file 14_400) λ window.
      let (outcome, j) = compact (open_file file) window.entries r in
      and_then outcome λ _. ok (j, window)

  -- Calls of `credit`, one after the other, whatever each of them answers.
  unfoldable pub credit_all :
      WindowJournal
      → PplnsWindow
      → List (WindowEntry × Write × Replace)
      → WindowJournal × PplnsWindow
  credit_all j window [] = (j, window)
  credit_all j window ((entry, w, r) ∷ more) =
      let (_, j', window') = credit j window entry w r in credit_all j' window' more
