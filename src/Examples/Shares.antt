-- ===== src/Examples/Shares.antt =====
-- The share handlers at concrete inputs.
use dinero_sv.Base.{
  ℕ, ◌%◌, ◌≡◌, ◌↔◌, ◌⊎◌, refl, arith, List, [], ◌∷◌, Option, none, some, ok, length, replicate,
  true, false,
}
use dinero_sv.Bytestring.{Bytes, bytes_lt}
use dinero_sv.Wire.Bytes.{to_le}
use dinero_sv.Messages.{NewTemplateDinero, SubmitSharesDinero}
use dinero_sv.Header.{header_bytes}
use dinero_sv.Dnrf.{is_dnrf_script, build_dnrf_script, is_dnrf_script_iff}
use dinero_sv.Fixed.Submit.{encode_submit_shares, decode_submit_shares}
use dinero_sv.Fixed.Submit.RoundTrip.{decode-encode_submit_shares}
use dinero_sv.Pool.Bans.{default, is_banned, expires_after, get}
use dinero_sv.Pool.Block.{Hex}
use dinero_sv.Pool.Hashes.{contains}
use dinero_sv.Pool.Journal.{Json, synced, replaced, credit, credit_after, append, should_compact}
use dinero_sv.Pool.Dedup.{new}
use dinero_sv.Pool.Dedup.Recent.{new-IsValid}
use dinero_sv.Pool.Calls.{none_yet, switch, solo}
use dinero_sv.Pool.Target.{hash_meets_target}
use dinero_sv.Pool.Telemetry.{TelemetryState}
use dinero_sv.Pool.Work.{PoolTemplate, SharedTemplate, header_hash, sha256d}
use dinero_sv.Pool.Session.{Outside, State, skipped, accepted}
use dinero_sv.Pool.Session.Refusal.{IsRefusal}
use dinero_sv.Pool.Accept.{Channel}
use dinero_sv.Pool.Accept.Fresh.{IsAccepted}
use dinero_sv.Pool.Solo.{handle_share, derived, origin_of, is_modified}
use dinero_sv.Pool.Solo.Credit.{handle_share_lem}
use dinero_sv.Pool.Shared.{handle_shared_share, entry_of_share}
use dinero_sv.Pool.Shared.Admitted.{IsAdmitted}
use dinero_sv.Pool.Shared.Credit.{IsCredited}
use dinero_sv.Pool.Shared.Effect.{handle_shared_share_lem}
use dinero_sv.Pool.Shared.Again.{handle_shared_share_again}
use dinero_sv.Pool.Shared.Found.{handle_shared_share-undelivered}
use dinero_sv.Examples.Data.{hash}

abbrev pub sha : Bytes → Bytes
sha s = replicate 32 (length s % 256)

abbrev pub twice : Bytes → Bytes
twice [] = []
twice (b ∷ s) = b ∷ b ∷ twice s

abbrev half : Bytes → Option Bytes
half [] = some []
half (b ∷ []) = none
half (b ∷ c ∷ s) = elim (half s) [ none ↦ none | some t ↦ some (b ∷ t) ]

abbrev pub hex : Hex
hex = record { encode = twice; decode = half }

abbrev json : Json
json = record {
  entry_bytes = λ e. e.weight ∷ e.unix_ts ∷ e.payout_script;
  checkpoint_bytes = λ v es. v ∷ length es ∷ [];
  has_version = λ s. none;
  checkpoint_of = λ s. none;
  entry_of = λ s. none;
}

abbrev wire : NewTemplateDinero
wire = record {
  template_id = 7;
  future_template = false;
  version = 1;
  prev_block_hash = hash 1;
  merkle_root = hash 2;
  utreexo_root = hash 3;
  timestamp = 50;
  difficulty = 9;
  coinbase_outputs_commitment = hash 0;
}

abbrev share : SubmitSharesDinero
share = record {
  channel_id = 4;
  sequence_number = 11;
  job_id = 7;
  nonce = 5;
  timestamp = 51;
  version = 1;
}

abbrev pub template : PoolTemplate
template = record {
  wire = wire;
  coinbase_full_hex = (1 ∷ 1 ∷ []);
  block_target = hash 40;
  utreexo_pre_block = none;
  height = 100;
  coinbase_value_una = 5_000;
  coinbase_prefix = [];
  coinbase_suffix = [];
  coinbase_witness_bytes = [];
  merkle_path = [];
  coinbase_txid_raw = hash 6;
  mempool_txs = [];
  spent_input_scripts = [];
}

abbrev pub shared : SharedTemplate
shared = record {
  orchard = none;
  mempool_tx_data = [];
  height = 100;
  wire = wire;
  coinbase_full_hex = (1 ∷ 1 ∷ []);
  outputs = [];
}

abbrev quiet : TelemetryState
quiet = record {
  accepted = 0;
  rejected = 0;
  rejection_reasons = [];
  last_share = none;
  last_block = none;
  last_template_at_unix = 0;
  last_template_height = 0;
  last_template_id = 0;
  last_template_hash = [];
  daemon_endpoint = [];
  daemon_blocks = 0;
  daemon_headers = 0;
}

abbrev pub state : State
state = record {
  ledger = [];
  telemetry = quiet;
  blocks = record { recent = []; total = 0 };
  dedup = new 100;
  window = record { entries = []; target_secs = 14_400 };
  journal = record { file = []; appends_since_compact = 0; failed = false };
  last_sequence_number = 3;
  accepted_in_window = 0;
  sent = [];
  offered = [];
}

abbrev pub out : Outside
out = record {
  ban_time = 1_000;
  credit_time = 1_001;
  share_time = 1_002;
  block_time = 1_003;
  found_time = 1_004;
  delivered = true;
  journal_write = synced;
  journal_replace = replaced;
  submit_found_block = λ block. skipped;
}

abbrev cut_off : Outside
cut_off = record out { delivered = false }

abbrev script : Bytes
script = (0x51 ∷ 0x20 ∷ [])

abbrev payload : Bytes
payload = encode_submit_shares share

decoded : decode_submit_shares payload ≡ ok share
decoded = decode-encode_submit_shares share (record {
  channel_id = omega arith;
  sequence_number = omega arith;
  job_id = omega arith;
  nonce = omega arith;
  timestamp = omega arith;
  version = omega arith;
})

header : header_hash sha wire share ≡ hash 32
unfolding header_hash sha256d header_bytes to_le
header = refl

meets : hash_meets_target (header_hash sha wire share) (hash 200) ≡ true
unfolding hash_meets_target bytes_lt
meets = rw header refl

admitted : IsAdmitted sha out (hash 200) default script payload shared state share
unfolding is_banned expires_after get is_modified contains
admitted = record {
  allowed = refl;
  decoded = decoded;
  current = refl;
  unmodified = refl;
  meets = meets;
  fresh = refl;
}

handle_shared_share_lem_example :
    let x =
      handle_shared_share sha hex json out 4
        (hash 200)
        default
        script
        payload
        (some template)
        (some shared)
        state in
    IsRefusal state x
    ⊎ ((st : SharedTemplate) × (s : SubmitSharesDinero) × (some shared ≡ some st)
        × IsAdmitted sha out (hash 200) default script payload st state s
        × IsCredited sha hex json out (hash 200) script st s state x)
handle_shared_share_lem_example =
    handle_shared_share_lem sha hex json out 4 (hash 200) default script payload (some template)
      (some shared) state

abbrev pub channel : Channel
channel = record { channel_id = 4; share_target = hash 200; miner_key = hash 8 }

-- The same share comes again on another connection, after a call for a solo miner there.
abbrev credited : State
credited =
    (handle_shared_share sha hex json out 4 (hash 200) default script payload (some template)
      (some shared) state).1

abbrev elsewhere : State
elsewhere = record credited { last_sequence_number = 0; accepted_in_window = 0; sent = [] }

abbrev between : State
between = (handle_share sha hex out channel payload (some template) none elsewhere).1

handle_shared_share_again_example : IsRefusal between (
    handle_shared_share sha hex json out 5
      (hash 100)
      default
      (1 ∷ [])
      payload
      (some template)
      (some shared)
      between)
handle_shared_share_again_example =
    handle_shared_share_again sha hex json out out 4 5 (hash 200) (hash 100) default default script
      (1 ∷ []) payload payload template (some template) shared shared state between share share 1
      (new-IsValid 100 (omega arith)) admitted
      (solo out channel payload (some template) none (switch 0 0 [] none_yet)) (omega arith) decoded
      refl

persisted :
    (credit json state.journal state.window
      (entry_of_share out (hash 200) script)
      out.journal_write
      out.journal_replace).0
    ≡ ok tt
unfolding credit credit_after append should_compact
persisted = refl

-- A node accepts the block.
abbrev winning : Outside
winning = record out { submit_found_block = λ block. accepted }

handle_shared_share-undelivered_example :
    (handle_shared_share sha hex json cut_off 4
      (hash 200)
      default
      script
      payload
      (some template)
      (some shared)
      state).1.offered
    ≡ []
handle_shared_share-undelivered_example =
    handle_shared_share-undelivered sha hex json cut_off 4 (hash 200) default script payload
      (some template) (some shared) state refl

handle_share_lem_example :
    let x = handle_share sha hex out channel payload (some template) none state in
    IsRefusal state x
    ⊎ ((pt : PoolTemplate) × (s : SubmitSharesDinero) × (derived (some template) none ≡ some pt)
        × dinero_sv.Pool.Solo.Credit.IsAdmitted sha channel payload (origin_of none) pt state s
        × IsAccepted hex (header_hash sha pt.wire s) state x)
handle_share_lem_example = handle_share_lem sha hex out channel payload (some template) none state

is_dnrf_script_iff_example :
    (is_dnrf_script (build_dnrf_script (hash 5)) ≡ true)
    ↔ ((h : List ℕ) × (length h ≡ 32) × (build_dnrf_script (hash 5) ≡ build_dnrf_script h))
is_dnrf_script_iff_example = is_dnrf_script_iff (build_dnrf_script (hash 5))
