-- ===== src/Pool/Bans.antt =====
-- Temporary bans (crates/dinero-sv2-pool/src/bans.rs). The map from scripts to expiries is a list of
-- entries, each script once; `hex` is the crate that encodes a script for a report.
pub mod Expiry
use dinero_sv.Base.{
  ℕ, ◌-◌, ◌*◌, String, List, [], ◌∷◌, map, Option, none, some, Result, ok, err, ltb, ◌==◌,
  if◌then◌else◌, Bool, true, false, ◌&&◌, ◌||◌, not,
}
use dinero_sv.Words.{saturating_add64}
use dinero_sv.Bytestring.{Bytes, bytes_eq, bytes_lt}

abbrev pub min_ban_secs : ℕ
min_ban_secs = 1

abbrev pub max_ban_secs : ℕ
max_ban_secs = 24 * 60 * 60

pub data BanError : Type 0 where
  too_short : BanError
  too_long : BanError
  bad_target : BanError

pub record BanStatus : Type 0 where
  pub target_hex : Bytes
  pub expires_at_unix : ℕ
  pub expires_in_secs : ℕ

pub record BanList : Type 0 where
  pub inner : List (Bytes × ℕ)

abbrev pub default : BanList
default = record { inner = [] }

-- `HashMap::get`, `remove` and `retain`
unfoldable pub get : List (Bytes × ℕ) → Bytes → Option ℕ
get [] k = none
get ((t, e) ∷ m) k = let rest = get m k in if bytes_eq t k then some e else rest

unfoldable pub without : Bytes → List (Bytes × ℕ) → List (Bytes × ℕ)
without k [] = []
without k ((t, e) ∷ m) = let rest = without k m in if bytes_eq t k then rest else (t, e) ∷ rest

unfoldable pub retain_after : ℕ → List (Bytes × ℕ) → List (Bytes × ℕ)
retain_after now [] = []
retain_after now ((t, e) ∷ m) =
    let rest = retain_after now m in if ltb now e then (t, e) ∷ rest else rest

unfoldable pub ban : BanList → Bytes → ℕ → ℕ → Result BanError ℕ × BanList
ban bans [] seconds now = (err bad_target, bans)
ban bans (b ∷ bs) seconds now =
    if ltb seconds min_ban_secs
    then (err too_short, bans)
    else if ltb max_ban_secs seconds
    then (err too_long, bans)
    else (let expires_at = saturating_add64 now seconds in
        (ok expires_at, record { inner = (b ∷ bs, expires_at) ∷ without (b ∷ bs) bans.inner }))

unfoldable pub is_some {ℓ} : {A : Type ℓ} → Option A → Bool
is_some none = false
is_some (some a) = true

unfoldable pub unban : BanList → Bytes → Bool × BanList
unban bans target = (is_some (get bans.inner target), record { inner = without target bans.inner })

unfoldable pub expires_after : Option ℕ → ℕ → Bool
expires_after none now = false
expires_after (some expires_at) now = ltb now expires_at

unfoldable pub is_banned : BanList → Bytes → ℕ → Bool
is_banned bans target now = expires_after (get bans.inner target) now

abbrev pub banned_error_code : String
banned_error_code = "banned"

unfoldable pub share_refusal : BanList → Bytes → ℕ → Option String
share_refusal bans payout_script now =
    if is_banned bans payout_script now then some banned_error_code else none

-- The order of the report: by expiry, then by the text of the target.
unfoldable pub before : BanStatus → BanStatus → Bool
before a b =
    ltb a.expires_at_unix b.expires_at_unix
    || a.expires_at_unix == b.expires_at_unix && not (bytes_lt b.target_hex a.target_hex)

unfoldable pub insert_status : BanStatus → List BanStatus → List BanStatus
insert_status a [] = a ∷ []
insert_status a (b ∷ bs) =
    let rest = insert_status a bs in if before a b then a ∷ b ∷ bs else b ∷ rest

unfoldable pub sort_statuses : List BanStatus → List BanStatus
sort_statuses [] = []
sort_statuses (a ∷ as_) = insert_status a (sort_statuses as_)

module _ (hex : Bytes → Bytes) where
  unfoldable pub status : ℕ → Bytes × ℕ → BanStatus
  status now entry = record {
    target_hex = hex entry.0;
    expires_at_unix = entry.1;
    expires_in_secs = entry.1 - now;
  }

  unfoldable pub active : BanList → ℕ → List BanStatus × BanList
  active bans now =
      let inner = retain_after now bans.inner in
      (sort_statuses (map (status now) inner), record { inner = inner })
