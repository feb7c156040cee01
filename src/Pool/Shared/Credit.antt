-- ===== src/Pool/Shared/Credit.antt =====
-- Which shares in shared mode are credited.
use dinero_sv.Base.{
  ℕ, ◌≡◌, ◌⊎◌, refl, Option, some, ◌==◌, ==_refl, Bool-cases, Result-cases, inl, inr, true,
}
use dinero_sv.Bytestring.{Bytes}
use dinero_sv.Messages.{SubmitSharesDinero}
use dinero_sv.Fixed.Submit.{decode_submit_shares}
use dinero_sv.Pool.Bans.{BanList, is_banned}
use dinero_sv.Pool.Block.{Hex}
use dinero_sv.Pool.Dedup.{insert}
use dinero_sv.Pool.Journal.{Json, credit}
use dinero_sv.Pool.Work.{PoolTemplate, SharedTemplate, is_current_job, header_hash}
use dinero_sv.Pool.Session.{codes, Outside, State, Served}
use dinero_sv.Pool.Session.Refusal.{
  IsRefusal, refuse-IsRefusal, IsRefusal-after, IsUntouched-number, Answers,
}
use dinero_sv.Pool.Accept.{Channel, deduplicated}
use dinero_sv.Pool.Shared.{
  entry_of_share, miner_key_for_payout_script, shared_hashed, shared_decoded, shared_admitted,
  handle_shared_share,
}
use dinero_sv.Pool.Shared.Admitted.{
  IsAdmitted, rest_of, refused, not_refused, IsUntouched-telemetry, job_cases,
}

module _ (sha256 : Bytes → Bytes) (hex : Hex) (json : Json) where
  -- A share is refused and nothing is credited, or its channel has a job, everything that makes a
  -- share of that job admissible holds, and the handler goes on to credit it.
  pub handle_shared_share_cases :
      (out : Outside) (channel_id : ℕ) (share_target : Bytes) (bans : BanList)
      (payout_script payload : Bytes) (current : Option PoolTemplate)
      (current_shared : Option SharedTemplate) (s : State)
      → IsRefusal s (
          handle_shared_share sha256 hex json out channel_id share_target bans payout_script payload
            current current_shared s)
        ⊎ ((pt : PoolTemplate) × (st : SharedTemplate) × (share : SubmitSharesDinero) × (current
              ≡ some pt)
            × (current_shared ≡ some st)
            × IsAdmitted sha256 out share_target bans payout_script payload st s share
            × (handle_shared_share sha256 hex json out channel_id share_target bans payout_script
                  payload current current_shared s
                ≡ rest_of sha256 hex json out channel_id share_target payout_script share pt st s))
  unfolding handle_shared_share shared_admitted
  handle_shared_share_cases out channel_id share_target bans payout_script payload current
        current_shared s =
      let key = miner_key_for_payout_script sha256 payout_script in
      let ch : Channel = record {
        channel_id = channel_id;
        share_target = share_target;
        miner_key = key;
      } in
      elim (Bool-cases (is_banned bans payout_script out.ban_time)) [
        | inl y ↦ inl (
            rw (refused bans payout_script out.ban_time y, handle_shared_share)
              (IsRefusal-after (IsUntouched-telemetry sha256 hex json s _) refl
                (refuse-IsRefusal out key channel_id s.last_sequence_number _ _)))
        | inr n ↦
            rw (not_refused bans payout_script out.ban_time n, handle_shared_share)
              (elim (Result-cases (decode_submit_shares payload)) [
                | inr (e, h) ↦ inl (
                    rw (h, shared_admitted)
                      (refuse-IsRefusal out key channel_id s.last_sequence_number
                        (codes "invalid-payload") s))
                | inl (share, h) ↦
                    rw (h, shared_admitted)
                      (let t : State = record s { last_sequence_number = share.sequence_number } in
                        elim (job_cases sha256 hex json out ch payout_script share current
                          current_shared t) [
                            | inl r ↦ inl (
                                IsRefusal-after (IsUntouched-number s share.sequence_number) refl r)
                            | inr (pt, st, a, b, j, m, meets, f, e) ↦ inr (
                              pt,
                              st,
                              share,
                              a,
                              b,
                              record {
                                allowed = n;
                                decoded = h;
                                current = j;
                                unmodified = m;
                                meets = meets;
                                fresh = f;
                              },
                              e,
                            )
                          ])
              ])
      ]

  -- The same, read forwards: an admitted share is not refused.
  pub handle_shared_share-admitted :
      (out : Outside) (channel_id : ℕ) (share_target : Bytes) (bans : BanList)
      (payout_script payload : Bytes) (pt : PoolTemplate) (st : SharedTemplate) (s : State)
      (share : SubmitSharesDinero)
      → IsAdmitted sha256 out share_target bans payout_script payload st s share
      → handle_shared_share sha256 hex json out channel_id share_target bans payout_script payload
          (some pt)
          (some st)
          s
        ≡ rest_of sha256 hex json out channel_id share_target payout_script share pt st s
  unfolding handle_shared_share shared_admitted shared_decoded shared_hashed is_current_job
      deduplicated insert
  handle_shared_share-admitted out channel_id share_target bans payout_script payload pt st s share
        w =
      let now : (share.job_id == st.wire.template_id) ≡ true =
        rw w.current (==_refl st.wire.template_id) in
      rw (not_refused bans payout_script out.ban_time w.allowed, handle_shared_share)
        (rw (w.decoded, shared_admitted) (rw (now, w.unmodified) (rw (w.meets, w.fresh) refl)))

  -- What the end of the handler does: the filter has the hash, the journal and the window have the
  -- credit.
  pub record IsCredited (out : Outside) (share_target payout_script : Bytes) (st : SharedTemplate)
      (share : SubmitSharesDinero) (s : State) (x : Served) : Type 0 where
    pub dedup : x.1.dedup ≡ (insert s.dedup (header_hash sha256 st.wire share)).0
    pub journal :
        x.1.journal
        ≡ (credit json s.journal s.window
            (entry_of_share out share_target payout_script)
            out.journal_write
            out.journal_replace).1
    pub window :
        x.1.window
        ≡ (credit json s.journal s.window
            (entry_of_share out share_target payout_script)
            out.journal_write
            out.journal_replace).2
    pub answers : Answers s x
