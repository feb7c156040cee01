-- ===== src/Pool/Solo/Credit.antt =====
-- Which solo shares are accepted, and what becomes of them.
use dinero_sv.Base.{
  ◌≡◌, ◌⊎◌, refl, sym, subst, Option, none, some, ok, ◌==◌, ==→eq, Bool-cases, Result-cases, inl,
  inr, true, false,
}
use dinero_sv.Bytestring.{Bytes}
use dinero_sv.Messages.{SubmitSharesDinero}
use dinero_sv.Fixed.Submit.{decode_submit_shares}
use dinero_sv.Pool.Block.{Hex}
use dinero_sv.Pool.Dedup.{insert}
use dinero_sv.Pool.Hashes.{contains}
use dinero_sv.Pool.Target.{hash_meets_target}
use dinero_sv.Pool.Work.{
  PoolTemplate, SharedTemplate, Origin, is_current_job, header_hash, block_hex, assemble_block_hex,
  data_of,
}
use dinero_sv.Pool.Session.{codes, Outside, State}
use dinero_sv.Pool.Session.Refusal.{
  IsRefusal, refuse-IsRefusal, IsRefusal-after, IsUntouched-number,
}
use dinero_sv.Pool.Accept.{Channel}
use dinero_sv.Pool.Accept.Fresh.{
  IsQuiet, IsAccepted, deduplicated-cases, accept_share-IsAccepted, submit_block-IsQuiet,
  note_failure-IsQuiet,
}
use dinero_sv.Pool.Solo.{
  origin_of, is_modified, derived, solo_block, solo_fresh, solo_hashed, solo_decoded, handle_share,
}

-- The payload is a share of the channel's job whose header is under the target and new to the filter.
pub record IsAdmitted (sha256 : Bytes → Bytes) (ch : Channel) (payload : Bytes)
    (origin : Option Origin) (pt : PoolTemplate) (s : State) (share : SubmitSharesDinero)
    : Type 0 where
  pub decoded : decode_submit_shares payload ≡ ok share
  pub current : share.job_id ≡ pt.wire.template_id
  pub unmodified : is_modified origin pt.wire share ≡ false
  pub meets : hash_meets_target (header_hash sha256 pt.wire share) ch.share_target ≡ true
  pub fresh : contains s.dedup.seen (header_hash sha256 pt.wire share) ≡ false

module _ (sha256 : Bytes → Bytes) (hex : Hex) where
  solo_block-IsQuiet :
      (out : Outside) (ch : Channel) (share : SubmitSharesDinero) (o : Option Origin)
      (pt : PoolTemplate) (hash : Bytes) (s : State)
      → IsQuiet s (solo_block sha256 hex out ch share o pt hash s).1
  unfolding solo_block
  solo_block-IsQuiet out ch share (some origin) pt hash s =
      elim (Result-cases (block_hex hex origin share)) [
        | inl (block, b) ↦ rw (b, solo_block) (submit_block-IsQuiet hex out ch hash _ block s)
        | inr (e, b) ↦
            rw (b, solo_block)
              (record {
                keeps = record { window = refl; journal = refl; dedup = refl };
                counted = refl;
                sent = refl;
              })
      ]
  solo_block-IsQuiet out ch share none pt hash s =
      elim (Result-cases
        (assemble_block_hex hex pt.wire share pt.coinbase_full_hex (data_of pt.mempool_txs))) [
          | inl (block, b) ↦ rw (b, solo_block) (submit_block-IsQuiet hex out ch hash _ block s)
          | inr (e, b) ↦ rw (b, solo_block) (note_failure-IsQuiet hex out hash _ s)
        ]

  solo_fresh-IsAccepted :
      (out : Outside) (ch : Channel) (share : SubmitSharesDinero) (o : Option Origin)
      (pt : PoolTemplate) (hash : Bytes) (s : State)
      → IsAccepted hex hash s (
          solo_fresh sha256 hex out ch share o pt hash
            (record s { dedup = (insert s.dedup hash).0 }))
  unfolding solo_fresh
  solo_fresh-IsAccepted out ch share o pt hash s =
      accept_share-IsAccepted hex out ch "standard" share.sequence_number hash s _ λ u.
        elim (Bool-cases (hash_meets_target hash pt.block_target)) [
          | inl y ↦ rw y (solo_block-IsQuiet out ch share o pt hash u)
          | inr n ↦ rw n (record {
            keeps = record { window = refl; journal = refl; dedup = refl };
            counted = refl;
            sent = refl;
          })
        ]

  solo_hashed_cases :
      (out : Outside) (ch : Channel) (share : SubmitSharesDinero) (o : Option Origin)
      (pt : PoolTemplate) (hash : Bytes) (s : State)
      → IsRefusal s (solo_hashed sha256 hex out ch share o pt hash s)
        ⊎ ((hash_meets_target hash ch.share_target ≡ true)
            × (contains s.dedup.seen hash ≡ false)
            × IsAccepted hex hash s (solo_hashed sha256 hex out ch share o pt hash s))
  unfolding solo_hashed
  solo_hashed_cases out ch share o pt hash s =
      elim (Bool-cases (hash_meets_target hash ch.share_target)) [
        | inr n ↦ inl (
            rw n (
              refuse-IsRefusal out ch.miner_key ch.channel_id share.sequence_number
                (codes "under-target") s))
        | inl y ↦
            rw y
              (elim (deduplicated-cases out ch share.sequence_number hash
                (solo_fresh sha256 hex out ch share o pt hash) s) [
                  | inl r ↦ inl r
                  | inr (f, e) ↦ inr (
                    refl,
                    f,
                    subst (IsAccepted hex hash s) (sym e)
                        (solo_fresh-IsAccepted out ch share o pt hash s),
                  )
                ])
      ]

  solo_decoded_cases :
      (out : Outside) (ch : Channel) (share : SubmitSharesDinero) (o : Option Origin)
      (current : Option PoolTemplate) (s : State)
      → IsRefusal s (solo_decoded sha256 hex out ch share o current s)
        ⊎ ((pt : PoolTemplate) × (current ≡ some pt)
            × (share.job_id ≡ pt.wire.template_id)
            × (is_modified o pt.wire share ≡ false)
            × (hash_meets_target (header_hash sha256 pt.wire share) ch.share_target ≡ true)
            × (contains s.dedup.seen (header_hash sha256 pt.wire share) ≡ false)
            × IsAccepted hex
                (header_hash sha256 pt.wire share)
                s
                (solo_decoded sha256 hex out ch share o current s))
  unfolding solo_decoded is_current_job
  solo_decoded_cases out ch share o none s = inl (
      refuse-IsRefusal out ch.miner_key ch.channel_id share.sequence_number (codes "no-template") s)
  solo_decoded_cases out ch share o (some pt) s =
      elim (Bool-cases (share.job_id == pt.wire.template_id)) [
        | inr n ↦ inl (
            rw n (
              refuse-IsRefusal out ch.miner_key ch.channel_id share.sequence_number
                (codes "stale-share") s))
        | inl y ↦ elim (Bool-cases (is_modified o pt.wire share)) [
          | inl m ↦ inl (
              rw (y, m)
                (refuse-IsRefusal out ch.miner_key ch.channel_id share.sequence_number
                  (codes "immutable-header-modified") s))
          | inr n ↦
              rw (y, n)
                (elim (solo_hashed_cases out ch share o pt (header_hash sha256 pt.wire share) s) [
                  | inl r ↦ inl r
                  | inr (t, f, a) ↦ inr (pt, refl, ==→eq _ _ y, n, t, f, a)
                ])
        ]
      ]

  -- Either nothing is credited, or the share is one of the channel's job with a header that is under
  -- the target and new to the filter; then the filter has the header's hash, the share is counted, and
  -- the window and the journal are as they were. In each case one frame goes back to the miner, or none
  -- and the session ends.
  pub handle_share_lem :
      (out : Outside) (ch : Channel) (payload : Bytes) (current : Option PoolTemplate)
      (immutable : Option SharedTemplate) (s : State)
      → let x = handle_share sha256 hex out ch payload current immutable s in
        IsRefusal s x
        ⊎ ((pt : PoolTemplate) × (share : SubmitSharesDinero) × (derived current immutable
              ≡ some pt)
            × IsAdmitted sha256 ch payload (origin_of immutable) pt s share
            × IsAccepted hex (header_hash sha256 pt.wire share) s x)
  unfolding handle_share
  handle_share_lem out ch payload current immutable s =
      elim (Result-cases (decode_submit_shares payload)) [
        | inr (e, h) ↦ inl (
            rw (h, handle_share)
              (refuse-IsRefusal out ch.miner_key ch.channel_id s.last_sequence_number
                (codes "invalid-payload") s))
        | inl (share, h) ↦
            rw (h, handle_share)
              (let t : State = record s { last_sequence_number = share.sequence_number } in
                elim (solo_decoded_cases out ch share (origin_of immutable)
                  (derived current immutable) t) [
                    | inl r ↦
                        inl (IsRefusal-after (IsUntouched-number s share.sequence_number) refl r)
                    | inr (pt, p, j, m, meets, f, a) ↦ inr (
                      pt,
                      share,
                      p,
                      record { decoded = h; current = j; unmodified = m; meets = meets; fresh = f },
                      record {
                        dedup = a.dedup;
                        window = a.window;
                        journal = a.journal;
                        counted = a.counted;
                        answers = a.answers;
                      },
                    )
                  ])
      ]
