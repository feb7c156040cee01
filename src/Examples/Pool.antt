-- ===== src/Examples/Pool.antt =====
-- States of the pool that the theorems apply to.
use dinero_sv.Base.{
  ℕ, ◌+◌, ◌-◌, ◌^◌, ◌≡◌, ◌≢◌, ◌≤◌, ◌<◌, ◌↔◌, refl, arith, List, [], ◌∷◌, ◌++◌, none, some, length,
  drop, All, ltb, if◌then◌else◌, true, false, min,
}
use mathlib.Core.List.{Permᴰ}
use dinero_sv.Words.{u64_max}
use dinero_sv.Bytestring.{Bytes, bytes_eq}
use dinero_sv.Pool.Split.{
  CoinbaseOutput, SplitParams, Weights, compute_split, split_outputs, merge_duplicate_outputs,
}
use dinero_sv.Pool.Split.Conservation.{sum_values, compute_split-conserves}
use dinero_sv.Pool.Split.Outputs.{IsPaid, split_outputs-IsFunded, compute_split-perm}
use dinero_sv.Pool.Split.Merge.{paid_to, AreDistinct, merge_duplicate_outputs_lem}
use dinero_sv.Pool.Hashes.{contains, remove, insert_new}
use dinero_sv.Pool.Dedup.{ShareDedup, new, make_room, insert, insert_all}
use dinero_sv.Pool.Dedup.Recent.{
  IsValid, insert_recent, new-IsValid, insert-insert_recent, insert-insert_all,
}
use dinero_sv.Pool.Window.{PplnsWindow, floor, cap, record_share}
use dinero_sv.Pool.Window.Bounds.{record_share_lem}
use dinero_sv.Pool.Target.{compact_to_target, from_be, hash_meets_target, leading_zero_bits_target}
use dinero_sv.Pool.Target.Order.{hash_meets_target-from_be}
use dinero_sv.Pool.Target.Zeros.{leading_zero_bits_target_lem}
use dinero_sv.Pool.Bans.{BanList, max_ban_secs, ban, is_banned}
use dinero_sv.Pool.Bans.Expiry.{is_banned-ban}
use dinero_sv.Pool.Gate.{
  idle, acquire, permit, already_accepted, record_accepted, release, Server, submit, Reachable,
  start, step, leave, select_parent, is_parent, accept, drop_permit, select,
}
use dinero_sv.Pool.Gate.Race
use dinero_sv.Pool.Gate.Race.{reachable-IsValid, acquire-reachable}
use dinero_sv.Pool.Gate.Won.{Later, here, next, acquire_won}
use dinero_sv.Compact.{nbits_to_target, nbits_to_target-compact_to_target}
use dinero_sv.Examples.Data.{hash, are_bytes}

abbrev script : ℕ → Bytes
script n = 81 ∷ 32 ∷ n ∷ []

abbrev miners : Weights
miners = (script 1, 300) ∷ (script 2, 100) ∷ []

abbrev params : SplitParams
params = record {
  reward_una = 10_000_000_000;
  fee_bps = 200;
  fee_script = script 9;
  max_outputs = 20;
  dust_una = 10_000;
  finder_script = script 1;
}

compute_split-conserves_example :
    (compute_split miners params ≡ some (split_outputs miners params))
    × (sum_values (split_outputs miners params) ≡ 10_000_000_000)
compute_split-conserves_example = compute_split-conserves miners params (omega arith) (omega arith)

split_outputs-IsFunded_example :
    All IsPaid (split_outputs miners params) × (length (split_outputs miners params) ≤ 21)
split_outputs-IsFunded_example = split_outputs-IsFunded miners params (omega arith) (omega arith)

abbrev miners_turned : Weights
miners_turned = (script 2, 100) ∷ (script 1, 300) ∷ []

abbrev turn : Permᴰ miners miners_turned
turn = Permᴰ.swap refl refl

compute_split-perm_example : compute_split miners params ≡ compute_split miners_turned params
compute_split-perm_example = compute_split-perm params turn

abbrev outputs : List CoinbaseOutput
outputs =
    record { value_una = 7; script_pubkey = script 1 }
    ∷ record { value_una = 8; script_pubkey = script 9 }
    ∷ record { value_una = 9; script_pubkey = script 1 }
    ∷ []

merge_duplicate_outputs_lem_example :
    AreDistinct (merge_duplicate_outputs outputs)
    × (paid_to (script 1) (merge_duplicate_outputs outputs) ≡ paid_to (script 1) outputs)
merge_duplicate_outputs_lem_example = merge_duplicate_outputs_lem (script 1) outputs (omega arith)

-- A filter of two hashes that is full.
abbrev full : ShareDedup
full = record { cap = 2; seen = hash 2 ∷ hash 1 ∷ []; order = hash 1 ∷ hash 2 ∷ [] }

full-IsValid : IsValid full
unfolding insert make_room contains insert_new bytes_eq
full-IsValid =
    (insert-insert_recent (insert (new 2) (hash 1)).0 (hash 2)
      (insert-insert_recent (new 2) (hash 1) (new-IsValid 2 (omega arith))).0).0

insert-insert_recent_example :
    IsValid (insert full (hash 3)).0
    × ((insert full (hash 3)).0.cap ≡ 2)
    × (insert_recent 2 (hash 1 ∷ hash 2 ∷ []) (hash 3)
        ≡ ((insert full (hash 3)).0.order, (insert full (hash 3)).1))
insert-insert_recent_example = insert-insert_recent full (hash 3) full-IsValid

insert-insert_all_example :
    (insert (insert_all (insert full (hash 3)).0 (hash 4 ∷ [])) (hash 3)).1 ≡ false
unfolding insert make_room contains bytes_eq
insert-insert_all_example =
    insert-insert_all full (hash 3) (hash 4 ∷ []) full-IsValid refl (omega arith)

abbrev window : PplnsWindow
window = record {
  entries =
      record { payout_script = script 1; weight = 300; unix_ts = 1000 }
      ∷ record { payout_script = script 2; weight = 100; unix_ts = 1010 }
      ∷ record { payout_script = script 1; weight = 50; unix_ts = 1020 }
      ∷ [];
  target_secs = 600;
}

record_share_lem_example :
    (n : ℕ) × ((record_share window (script 2) 70 1030).entries
      ≡ drop n window.entries
        ++ (record { payout_script = script 2; weight = 70; unix_ts = 1030 } ∷ []))
    × (length (record_share window (script 2) 70 1030).entries ≤ cap)
    × (n ≢ 0 → floor ≤ length (record_share window (script 2) 70 1030).entries)
record_share_lem_example = record_share_lem window (script 2) 70 1030

hash_meets_target-from_be_example :
    (hash_meets_target (hash 3) (hash 200) ≡ true) ↔ (from_be 0 (hash 3) < from_be 0 (hash 200))
hash_meets_target-from_be_example =
    hash_meets_target-from_be (hash 3) (hash 200) (are_bytes (hash 3) refl)
      (are_bytes (hash 200) refl) refl

leading_zero_bits_target_lem_example : from_be 0 (leading_zero_bits_target 43) + 1 ≡ 2 ^ (256 - 43)
leading_zero_bits_target_lem_example = leading_zero_bits_target_lem 43

nbits_to_target-compact_to_target_example : nbits_to_target 486604799 ≡ compact_to_target 486604799
nbits_to_target-compact_to_target_example =
    nbits_to_target-compact_to_target 486604799 (omega arith) (omega arith)

abbrev bans : BanList
bans = record { inner = (script 1, 5000) ∷ (script 2, 7000) ∷ [] }

is_banned-ban_example :
    (is_banned (ban bans (script 1) 60 4000).1 (script 2) 4100
      ≡ (if bytes_eq (script 1) (script 2) then ltb 4100 4060 else is_banned bans (script 2) 4100))
    × (4060 ≡ min (4000 + 60) u64_max)
    × (4060 ≤ 4000 + max_ban_secs)
unfolding ban
is_banned-ban_example = is_banned-ban bans (script 1) (script 2) 60 4000 4100 4060 refl

-- One task holds a permit.
abbrev server : Server
server = record {
  gate = record { selected_parent = none; in_flight = hash 1 ∷ []; accepted = [] };
  holders = hash 1 ∷ [];
}

server-Reachable : Reachable server
unfolding acquire contains insert_new
server-Reachable = step start (submit (record { gate = idle; holders = [] }) (hash 1) refl)

reachable-IsValid_example : Race.IsValid server
reachable-IsValid_example = reachable-IsValid server server-Reachable

acquire-reachable_example : ((acquire server.gate (hash 2)).0 ≡ permit) ↔ (
    (contains server.holders (hash 2) ≡ false) × (contains server.gate.accepted (hash 2) ≡ false))
acquire-reachable_example = acquire-reachable server (hash 2) server-Reachable

-- A block on the parent `hash 1` is accepted while the nodes stand on it; the permit is dropped, the
-- nodes are polled again, and a block on another parent is accepted.
abbrev won : Server
won = record {
  gate = record { selected_parent = some (hash 1); in_flight = hash 1 ∷ []; accepted = [] };
  holders = hash 1 ∷ [];
}

abbrev noted : Server
noted = record { gate = record_accepted won.gate (hash 1); holders = won.holders }

abbrev dropped : Server
dropped = record { gate = release noted.gate (hash 1); holders = leave (hash 1) noted.holders }

abbrev polled : Server
polled = record { gate = select_parent dropped.gate (hash 1); holders = dropped.holders }

abbrev sending : Server
sending = record { gate = (acquire polled.gate (hash 2)).1; holders = hash 2 ∷ polled.holders }

abbrev later : Server
later = record { gate = record_accepted sending.gate (hash 2); holders = sending.holders }

noted-Later : Later (hash 1) noted 1 later
unfolding acquire record_accepted release leave select_parent contains remove insert_new is_parent
    bytes_eq
noted-Later =
    next
      (next (next (next here (drop_permit noted (hash 1) refl) refl) (select dropped (hash 1)) refl)
        (submit polled (hash 2) refl) refl)
      (accept sending (hash 2) refl) refl

acquire_won_example : (acquire later.gate (hash 1)).0 ≡ already_accepted
unfolding contains
acquire_won_example = acquire_won won later (hash 1) 1 refl noted-Later (omega arith)
