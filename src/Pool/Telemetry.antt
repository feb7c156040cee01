-- ===== src/Pool/Telemetry.antt =====
-- What the operator's endpoint reports of the shares and blocks (OpsTelemetry of
-- crates/dinero-sv2-pool/src/ops.rs), and the log of found blocks (BlockLog of stats.rs) without the
-- file that it is appended to. Texts are their bytes; the times are read from the clock.
use dinero_sv.Base.{ℕ, ◌-◌, List, [], ◌∷◌, ◌++◌, Option, some, length, drop, if◌then◌else◌}
use dinero_sv.Words.{add64, saturating_add64}
use dinero_sv.Bytestring.{Bytes, bytes_eq}

pub record RecentShare : Type 0 where
  pub accepted_at_unix : ℕ
  pub kind : Bytes
  pub hash : Bytes

pub record RecentBlock : Type 0 where
  pub observed_at_unix : ℕ
  pub status : Bytes
  pub hash : Bytes
  pub reason : Bytes

-- The reasons are a map, in the order in which they came up.
pub record TelemetryState : Type 0 where
  pub accepted : ℕ
  pub rejected : ℕ
  pub rejection_reasons : List (Bytes × ℕ)
  pub last_share : Option RecentShare
  pub last_block : Option RecentBlock
  pub last_template_at_unix : ℕ
  pub last_template_height : ℕ
  pub last_template_id : ℕ
  pub last_template_hash : Bytes
  pub daemon_endpoint : Bytes
  pub daemon_blocks : ℕ
  pub daemon_headers : ℕ

unfoldable pub record_template : TelemetryState → ℕ → Bytes → ℕ → ℕ → ℕ → ℕ → Bytes → TelemetryState
record_template s now_unix endpoint blocks headers height template_id prev_hash = record s {
  last_template_at_unix = now_unix;
  last_template_height = height;
  last_template_id = template_id;
  last_template_hash = prev_hash;
  daemon_endpoint = endpoint;
  daemon_blocks = blocks;
  daemon_headers = headers;
}

unfoldable pub record_accepted_share : TelemetryState → ℕ → Bytes → Bytes → TelemetryState
record_accepted_share s now_unix kind hash = record s {
  accepted = saturating_add64 s.accepted 1;
  last_share = some (record { accepted_at_unix = now_unix; kind = kind; hash = hash });
}

-- `*entry(reason).or_default() += 1`
unfoldable pub count_reason : List (Bytes × ℕ) → Bytes → List (Bytes × ℕ)
count_reason [] reason = (reason, 1) ∷ []
count_reason ((r, n) ∷ reasons) reason =
    let rest = count_reason reasons reason in
    if bytes_eq r reason then (r, add64 n 1) ∷ reasons else (r, n) ∷ rest

unfoldable pub record_rejection : TelemetryState → Bytes → TelemetryState
record_rejection s reason = record s {
  rejected = saturating_add64 s.rejected 1;
  rejection_reasons = count_reason s.rejection_reasons reason;
}

unfoldable pub record_block : TelemetryState → ℕ → Bytes → Bytes → Bytes → TelemetryState
record_block s now_unix status hash reason = record s {
  last_block =
      some (record { observed_at_unix = now_unix; status = status; hash = hash; reason = reason });
}

pub record FoundBlock : Type 0 where
  pub height : ℕ
  pub hash : Bytes
  pub time : ℕ
  pub reward_una : ℕ
  pub status : Bytes
  pub outputs : List (Bytes × ℕ)

abbrev pub max_block_history : ℕ
max_block_history = 1_000

pub record BlockLog : Type 0 where
  pub recent : List FoundBlock
  pub total : ℕ

-- `while s.recent.len() > MAX_BLOCK_HISTORY { s.recent.pop_front(); }`
unfoldable pub newest : List FoundBlock → List FoundBlock
newest blocks = drop (length blocks - max_block_history) blocks

-- `record`, a word that is taken here.
unfoldable pub record_found : BlockLog → FoundBlock → BlockLog
record_found log block = record {
  recent = newest (log.recent ++ (block ∷ []));
  total = saturating_add64 log.total 1;
}
