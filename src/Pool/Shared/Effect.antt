-- ===== src/Pool/Shared/Effect.antt =====
-- What the handler of shares in shared mode does with a share that passes its checks.
use dinero_sv.Base.{
  ℕ, ◌≡◌, ◌⊎◌, refl, ◌∙◌, Option, none, some, ok, err, if◌then◌else◌, Bool-cases, Result-cases, inl,
  inr,
}
use dinero_sv.Bytestring.{Bytes}
use dinero_sv.Messages.{SubmitSharesDinero}
use dinero_sv.Pool.Bans.{BanList}
use dinero_sv.Pool.Block.{Hex}
use dinero_sv.Pool.Dedup.{insert}
use dinero_sv.Pool.Journal.{Json, WindowJournal, Outcome, credit}
use dinero_sv.Pool.Window.{PplnsWindow}
use dinero_sv.Pool.Target.{hash_meets_target}
use dinero_sv.Pool.Work.{
  PoolTemplate, SharedTemplate, Origin, header_hash, block_hex, assemble_block_hex,
}
use dinero_sv.Pool.Session.{Outside, State, Served, persisting, and_serve, disconnected}
use dinero_sv.Pool.Session.Refusal.{IsRefusal, Answers}
use dinero_sv.Pool.Accept.{Channel, accept_share}
use dinero_sv.Pool.Accept.Fresh.{
  IsQuiet, accept_share-cases, submit_block-IsQuiet, note_failure-IsQuiet,
}
use dinero_sv.Pool.Shared.{
  entry_of_share, shared_block, persist, persisted, shared_fresh, handle_shared_share,
}
use dinero_sv.Pool.Shared.Admitted.{IsAdmitted, rest_of}
use dinero_sv.Pool.Shared.Credit.{IsCredited, handle_shared_share_cases}

module _ (sha256 : Bytes → Bytes) (hex : Hex) (json : Json) where
  shared_block-IsQuiet :
      (out : Outside) (ch : Channel) (share : SubmitSharesDinero) (o : Option Origin)
      (st : SharedTemplate) (hash : Bytes) (s : State)
      → IsQuiet s (shared_block sha256 hex json out ch share o st hash s).1
  unfolding shared_block
  shared_block-IsQuiet out ch share (some origin) st hash s =
      elim (Result-cases (block_hex hex origin share)) [
        | inl (block, b) ↦ rw (b, shared_block) (submit_block-IsQuiet hex out ch hash _ block s)
        | inr (e, b) ↦
            rw (b, shared_block)
              (record {
                keeps = record { window = refl; journal = refl; dedup = refl };
                counted = refl;
                sent = refl;
              })
      ]
  shared_block-IsQuiet out ch share none st hash s =
      elim (Result-cases
        (assemble_block_hex hex st.wire share st.coinbase_full_hex st.mempool_tx_data)) [
          | inl (block, b) ↦ rw (b, shared_block) (submit_block-IsQuiet hex out ch hash _ block s)
          | inr (e, b) ↦ rw (b, shared_block) (note_failure-IsQuiet hex out hash _ s)
        ]

  -- The block of a share that is also one, or nothing.
  abbrev block_part :
      Outside
      → Channel
      → SubmitSharesDinero
      → PoolTemplate
      → SharedTemplate
      → Bytes
      → State
      → Served
  block_part out ch share pt st hash u =
      if hash_meets_target hash pt.block_target
      then shared_block sha256 hex json out ch share st.orchard st hash u
      else (ok tt, u)

  block_part-IsQuiet :
      (out : Outside) (ch : Channel) (share : SubmitSharesDinero) (pt : PoolTemplate)
      (st : SharedTemplate) (hash : Bytes) (s : State)
      → IsQuiet s (block_part out ch share pt st hash s).1
  block_part-IsQuiet out ch share pt st hash s =
      elim (Bool-cases (hash_meets_target hash pt.block_target)) [
        | inl y ↦ rw y (shared_block-IsQuiet out ch share st.orchard st hash s)
        | inr n ↦ rw n (record {
          keeps = record { window = refl; journal = refl; dedup = refl };
          counted = refl;
          sent = refl;
        })
      ]

  -- The end of the handler after the credit.
  after_credit :
      (out : Outside) (ch : Channel) (payout_script : Bytes) (share : SubmitSharesDinero)
      (pt : PoolTemplate) (st : SharedTemplate) (hash : Bytes) (s : State)
      (c : Outcome × WindowJournal × PplnsWindow)
      → let x = and_serve (persisted sha256 hex json c s) λ t.
        and_serve
          (accept_share hex out ch "shared" share.sequence_number hash t)
          λ u. block_part out ch share pt st hash u in
        (x.1.dedup ≡ s.dedup) × (x.1.journal ≡ c.1) × (x.1.window ≡ c.2) × Answers s x
  unfolding persisted
  after_credit out ch payout_script share pt st hash s (err e, j, w) =
      (refl, refl, refl, inr (persisting e, refl, refl))
  after_credit out ch payout_script share pt st hash s (ok _, j, w) =
      let v : State = record s { journal = j; window = w } in
      let (u, k, m, counted, ways) =
        accept_share-cases hex out ch "shared" share.sequence_number hash v in
      elim ways [
        | inr (d, e, q) ↦ rw e (k.dedup, k.journal, k.window, inr (disconnected, refl, q))
        | inl (d, e, a) ↦ rw e (
            let q = block_part-IsQuiet out ch share pt st hash u in
            (
              q.keeps.dedup ∙ k.dedup,
              q.keeps.journal ∙ k.journal,
              q.keeps.window ∙ k.window,
              elim a [ inl (f, g) ↦ inl (f, q.sent ∙ g) | inr (x, g, i) ↦ absurd (cc g) ],
            ))
      ]

  pub rest_of-IsCredited :
      (out : Outside) (channel_id : ℕ) (share_target payout_script : Bytes)
      (share : SubmitSharesDinero) (pt : PoolTemplate) (st : SharedTemplate) (s : State)
      → IsCredited sha256 hex json out share_target payout_script st share s
          (rest_of sha256 hex json out channel_id share_target payout_script share pt st s)
  unfolding shared_fresh persist
  rest_of-IsCredited out channel_id share_target payout_script share pt st s =
      let (d, j, w, a) =
        after_credit out _ payout_script share pt st (header_hash sha256 st.wire share)
          (record s {
            last_sequence_number = share.sequence_number;
            dedup = (insert s.dedup (header_hash sha256 st.wire share)).0;
          })
          (credit json s.journal s.window (entry_of_share out share_target payout_script)
            out.journal_write out.journal_replace) in
      record { dedup = d; journal = j; window = w; answers = a }

  -- Either nothing is credited, or the share is one of the channel's job with a header that is under
  -- the target and new to the filter, of a script that is not banned; then the filter has the header's
  -- hash, and the journal and the window what `credit` makes of them. In each case one frame goes
  -- back to the miner, or none and the session ends.
  pub handle_shared_share_lem :
      (out : Outside) (channel_id : ℕ) (share_target : Bytes) (bans : BanList)
      (payout_script payload : Bytes) (current : Option PoolTemplate)
      (current_shared : Option SharedTemplate) (s : State)
      → let x =
          handle_shared_share sha256 hex json out channel_id share_target bans payout_script payload
            current current_shared s in
        IsRefusal s x
        ⊎ ((st : SharedTemplate) × (share : SubmitSharesDinero) × (current_shared ≡ some st)
            × IsAdmitted sha256 out share_target bans payout_script payload st s share
            × IsCredited sha256 hex json out share_target payout_script st share s x)
  handle_shared_share_lem out channel_id share_target bans payout_script payload current
        current_shared s =
      elim (handle_shared_share_cases sha256 hex json out channel_id share_target bans payout_script
        payload current current_shared s) [
          | inl r ↦ inl r
          | inr (pt, st, share, a, b, w, e) ↦ inr (
            st,
            share,
            b,
            w,
            rw e (rest_of-IsCredited out channel_id share_target payout_script share pt st s),
          )
        ]
