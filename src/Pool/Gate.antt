-- ===== src/Pool/Gate.antt =====
-- The gate on block submissions (SubmitGate, SubmitPermit and submit_found_block of
-- crates/dinero-sv2-pool/src/backend.rs). Each critical section of the mutex is a function; the
-- tasks that hold permits, and the order in which their sections run, are the steps. What the
-- backends answer in between is any answer.
pub mod Race
pub mod Won
use dinero_sv.Base.{
  ℕ, ◌≡◌, ◌≢◌, List, [], ◌∷◌, ◌++◌, Option, none, some, length, ◌==◌, if◌then◌else◌, Bool, true,
  false, not,
}
use dinero_sv.Bytestring.{Bytes, bytes_eq}
use dinero_sv.Pool.Hashes.{contains, remove, insert_new}

abbrev pub accepted_parents_kept : ℕ
accepted_parents_kept = 16

pub record SubmitGate : Type 0 where
  pub selected_parent : Option Bytes
  pub in_flight : List Bytes
  pub accepted : List Bytes

abbrev pub idle : SubmitGate
idle = record { selected_parent = none; in_flight = []; accepted = [] }

-- Why a block is not sent, or leave to send it.
pub data Verdict : Type 0 where
  already_accepted : Verdict
  already_submitting : Verdict
  permit : Verdict

-- The section that `submit_found_block` begins with.
unfoldable pub acquire : SubmitGate → Bytes → Verdict × SubmitGate
acquire gate parent =
    if contains gate.accepted parent
    then (already_accepted, gate)
    else if contains gate.in_flight parent
    then (already_submitting, gate)
    else (permit, record gate { in_flight = insert_new parent gate.in_flight })

unfoldable pub pop_front : List Bytes → List Bytes
pop_front [] = []
pop_front (x ∷ xs) = xs

unfoldable pub record_accepted : SubmitGate → Bytes → SubmitGate
record_accepted gate parent =
    if contains gate.accepted parent
    then gate
    else (let kept =
          if length gate.accepted == accepted_parents_kept
          then pop_front gate.accepted
          else gate.accepted in
        record gate { accepted = kept ++ (parent ∷ []) })

-- Dropping the permit.
unfoldable pub release : SubmitGate → Bytes → SubmitGate
release gate parent = record gate { in_flight = remove parent gate.in_flight }

unfoldable pub is_parent : Option Bytes → Bytes → Bool
is_parent none parent = false
is_parent (some p) parent = bytes_eq p parent

-- What the choice of a backend does with the parent that its best block is.
unfoldable pub select_parent : SubmitGate → Bytes → SubmitGate
select_parent gate parent =
    if is_parent gate.selected_parent parent
    then gate
    else record gate { accepted = remove parent gate.accepted; selected_parent = some parent }

-- The gate and the parents of the tasks that hold a permit.
pub record Server : Type 0 where
  pub gate : SubmitGate
  pub holders : List Bytes

-- One of the tasks that hold a permit for the parent is done with it.
unfoldable pub leave : Bytes → List Bytes → List Bytes
leave parent [] = []
leave parent (x ∷ xs) = let rest = leave parent xs in if bytes_eq x parent then xs else x ∷ rest

-- One section of one task. A task gets its permit or is refused; it notes an acceptance while it
-- holds its permit, and drops it, also when it is cancelled; the choice of a backend comes at any
-- time.
pub data Step : Server → Server → Type 0 where
  submit :
      (s : Server) (parent : Bytes)
      → (acquire s.gate parent).0 ≡ permit
      → Step s (record { gate = (acquire s.gate parent).1; holders = parent ∷ s.holders })
  refuse :
      (s : Server) (parent : Bytes)
      → (acquire s.gate parent).0 ≢ permit
      → Step s (record { gate = (acquire s.gate parent).1; holders = s.holders })
  accept :
      (s : Server) (parent : Bytes)
      → contains s.holders parent ≡ true
      → Step s (record { gate = record_accepted s.gate parent; holders = s.holders })
  drop_permit :
      (s : Server) (parent : Bytes)
      → contains s.holders parent ≡ true
      → Step s (record { gate = release s.gate parent; holders = leave parent s.holders })
  select :
      (s : Server) (parent : Bytes)
      → Step s (record { gate = select_parent s.gate parent; holders = s.holders })

-- A run of the server from its start, with any interleaving of its tasks.
pub data Reachable : Server → Type 0 where
  start : Reachable (record { gate = idle; holders = [] })
  step : {s t : Server} → Reachable s → Step s t → Reachable t
