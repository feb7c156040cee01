-- ===== src/Pool/Shared/Admitted.antt =====
-- What a share in shared mode has to pass, and the stages of its handler that check it.
use dinero_sv.Base.{
  ℕ, ◌≡◌, ◌⊎◌, refl, sym, subst, ◌∙◌, Option, none, some, ok, ◌==◌, ==→eq, Bool-cases, inl, inr,
  true, false,
}
use dinero_sv.Bytestring.{Bytes}
use dinero_sv.Messages.{SubmitSharesDinero}
use dinero_sv.Fixed.Submit.{decode_submit_shares}
use dinero_sv.Pool.Bans.{BanList, banned_error_code, is_banned, share_refusal}
use dinero_sv.Pool.Block.{Hex}
use dinero_sv.Pool.Dedup.{insert}
use dinero_sv.Pool.Hashes.{contains}
use dinero_sv.Pool.Journal.{Json}
use dinero_sv.Pool.Target.{hash_meets_target}
use dinero_sv.Pool.Work.{PoolTemplate, SharedTemplate, is_current_job, header_hash}
use dinero_sv.Pool.Session.{codes, Outside, State, Served}
use dinero_sv.Pool.Session.Refusal.{
  IsUntouched, IsRefusal, refuse-IsRefusal, send_share_error-IsRefusal,
}
use dinero_sv.Pool.Accept.{Channel}
use dinero_sv.Pool.Accept.Fresh.{deduplicated-cases}
use dinero_sv.Pool.Solo.{is_modified}
use dinero_sv.Pool.Shared.{miner_key_for_payout_script, shared_fresh, shared_hashed, shared_decoded}

pub refused :
    (bans : BanList) (script : Bytes) (now : ℕ)
    → is_banned bans script now ≡ true
    → share_refusal bans script now ≡ some banned_error_code
unfolding share_refusal
refused bans script now h = rw h refl

pub not_refused :
    (bans : BanList) (script : Bytes) (now : ℕ)
    → is_banned bans script now ≡ false
    → share_refusal bans script now ≡ none
unfolding share_refusal
not_refused bans script now h = rw h refl

-- The payload is a share of the channel's job, of a script that is not banned, whose header is under
-- the target and new to the filter.
pub record IsAdmitted (sha256 : Bytes → Bytes) (out : Outside) (share_target : Bytes)
    (bans : BanList) (payout_script payload : Bytes) (st : SharedTemplate) (s : State)
    (share : SubmitSharesDinero) : Type 0 where
  pub allowed : is_banned bans payout_script out.ban_time ≡ false
  pub decoded : decode_submit_shares payload ≡ ok share
  pub current : share.job_id ≡ st.wire.template_id
  pub unmodified : is_modified st.orchard st.wire share ≡ false
  pub meets : hash_meets_target (header_hash sha256 st.wire share) share_target ≡ true
  pub fresh : contains s.dedup.seen (header_hash sha256 st.wire share) ≡ false

module _ (sha256 : Bytes → Bytes) (hex : Hex) (json : Json) where
  -- The end of the handler, behind its checks.
  abbrev pub rest_of :
      Outside
      → ℕ
      → Bytes
      → Bytes
      → SubmitSharesDinero
      → PoolTemplate
      → SharedTemplate
      → State
      → Served
  rest_of out channel_id share_target payout_script share pt st s =
      let hash = header_hash sha256 st.wire share in
      shared_fresh sha256 hex json out
        (record {
          channel_id = channel_id;
          share_target = share_target;
          miner_key = miner_key_for_payout_script sha256 payout_script;
        })
        payout_script share pt st hash
        (record s { last_sequence_number = share.sequence_number; dedup = (insert s.dedup hash).0 })

  pub IsUntouched-telemetry :
      (s : State) (r : dinero_sv.Pool.Telemetry.TelemetryState)
      → IsUntouched s (record s { telemetry = r })
  IsUntouched-telemetry s r = record {
    window = refl;
    journal = refl;
    dedup = refl;
    accepted_in_window = refl;
    blocks = refl;
    offered = refl;
    uncredited = λ miner. refl;
  }

  -- The stages of the handler: each refuses, or all that it checks holds.
  hashed_cases :
      (out : Outside) (ch : Channel) (payout_script : Bytes) (share : SubmitSharesDinero)
      (pt : PoolTemplate) (st : SharedTemplate) (hash : Bytes) (s : State)
      → IsRefusal s (shared_hashed sha256 hex json out ch payout_script share pt st hash s)
        ⊎ ((hash_meets_target hash ch.share_target ≡ true)
            × (contains s.dedup.seen hash ≡ false)
            × (shared_hashed sha256 hex json out ch payout_script share pt st hash s
                ≡ shared_fresh sha256 hex json out ch payout_script share pt st hash
                    (record s { dedup = (insert s.dedup hash).0 })))
  unfolding shared_hashed
  hashed_cases out ch payout_script share pt st hash s =
      elim (Bool-cases (hash_meets_target hash ch.share_target)) [
        | inr n ↦ inl (
            rw n (
              send_share_error-IsRefusal out ch.channel_id share.sequence_number
                (codes "under-target") s))
        | inl y ↦
            rw y
              (elim (deduplicated-cases out ch share.sequence_number hash
                (shared_fresh sha256 hex json out ch payout_script share pt st hash) s) [
                  | inl r ↦ inl r
                  | inr (f, e) ↦ inr (refl, f, e)
                ])
      ]

  decoded_cases :
      (out : Outside) (ch : Channel) (payout_script : Bytes) (share : SubmitSharesDinero)
      (pt : PoolTemplate) (st : SharedTemplate) (s : State)
      → IsRefusal s
          (shared_decoded sha256 hex json out ch payout_script share (some pt) (some st) s)
        ⊎ ((share.job_id ≡ st.wire.template_id)
            × (is_modified st.orchard st.wire share ≡ false)
            × (shared_decoded sha256 hex json out ch payout_script share (some pt) (some st) s
                ≡ shared_hashed sha256 hex json out ch payout_script share pt st
                    (header_hash sha256 st.wire share)
                    s))
  unfolding shared_decoded is_current_job
  decoded_cases out ch payout_script share pt st s =
      elim (Bool-cases (share.job_id == st.wire.template_id)) [
        | inr n ↦ inl (
            rw n (
              refuse-IsRefusal out ch.miner_key ch.channel_id share.sequence_number
                (codes "stale-share") s))
        | inl y ↦ elim (Bool-cases (is_modified st.orchard st.wire share)) [
          | inl m ↦ inl (
              rw (y, m)
                (refuse-IsRefusal out ch.miner_key ch.channel_id share.sequence_number
                  (codes "immutable-header-modified") s))
          | inr n ↦ inr (==→eq _ _ y, n, rw (y, n) refl)
        ]
      ]

  -- A decoded share, with what the channel has.
  pub job_cases :
      (out : Outside) (ch : Channel) (payout_script : Bytes) (share : SubmitSharesDinero)
      (current : Option PoolTemplate) (current_shared : Option SharedTemplate) (s : State)
      → IsRefusal s
          (shared_decoded sha256 hex json out ch payout_script share current current_shared s)
        ⊎ ((pt : PoolTemplate) × (st : SharedTemplate) × (current ≡ some pt)
            × (current_shared ≡ some st)
            × (share.job_id ≡ st.wire.template_id)
            × (is_modified st.orchard st.wire share ≡ false)
            × (hash_meets_target (header_hash sha256 st.wire share) ch.share_target ≡ true)
            × (contains s.dedup.seen (header_hash sha256 st.wire share) ≡ false)
            × (shared_decoded sha256 hex json out ch payout_script share current current_shared s
                ≡ shared_fresh sha256 hex json out ch payout_script share pt st
                    (header_hash sha256 st.wire share)
                    (record s { dedup = (insert s.dedup (header_hash sha256 st.wire share)).0 })))
  unfolding shared_decoded
  job_cases out ch payout_script share none current_shared s = inl (
      refuse-IsRefusal out ch.miner_key ch.channel_id share.sequence_number (codes "no-template") s)
  job_cases out ch payout_script share (some pt) none s = inl (
      refuse-IsRefusal out ch.miner_key ch.channel_id share.sequence_number
        (codes "no-shared-template") s)
  job_cases out ch payout_script share (some pt) (some st) s =
      elim (decoded_cases out ch payout_script share pt st s) [
        | inl r ↦ inl r
        | inr (j, m, e) ↦
            elim (hashed_cases out ch payout_script share pt st (header_hash sha256 st.wire share)
              s) [
                | inl r ↦ inl (subst (IsRefusal s) (sym e) r)
                | inr (t, f, g) ↦ inr (pt, st, refl, refl, j, m, t, f, e ∙ g)
              ]
      ]
