-- ===== src/Pool/Shared/Found.antt =====
-- When a share in shared mode that is a block is offered to the nodes.
use dinero_sv.Base.{ℕ, ◌≡◌, refl, ap, ◌∙◌, Option, none, some, Result, ok, err, inl, inr, false}
use dinero_sv.Bytestring.{Bytes}
use dinero_sv.Messages.{SubmitSharesDinero}
use dinero_sv.Pool.Bans.{BanList}
use dinero_sv.Pool.Block.{Hex}
use dinero_sv.Pool.Journal.{Json, WindowJournal, Outcome, credit}
use dinero_sv.Pool.Window.{PplnsWindow}
use dinero_sv.Pool.Work.{
  PoolTemplate, SharedTemplate, Origin, WorkError, header_hash, block_hex, assemble_block_hex,
}
use dinero_sv.Pool.Session.{Outside, State, Served, and_serve}
use dinero_sv.Pool.Accept.{Channel, accept_share}
use dinero_sv.Pool.Accept.Fresh.{accept_share-cases}
use dinero_sv.Pool.Shared.{entry_of_share, persist, persisted, shared_fresh, handle_shared_share}
use dinero_sv.Pool.Shared.Credit.{handle_shared_share_cases}

-- The block of a share: the sealed one of the job, or one that the pool assembles.
abbrev pub block_of :
    Hex → Option Origin → SharedTemplate → SubmitSharesDinero → Result WorkError Bytes
block_of hex (some origin) st share = block_hex hex origin share
block_of hex none st share =
    assemble_block_hex hex st.wire share st.coinbase_full_hex st.mempool_tx_data

module _ (sha256 : Bytes → Bytes) (hex : Hex) (json : Json) where
  after_credit-kept :
      (out : Outside) (ch : Channel) (share : SubmitSharesDinero) (s : State) (hash : Bytes)
      (next : State → Served) (c : Outcome × WindowJournal × PplnsWindow)
      → out.delivered ≡ false
      → (and_serve (persisted sha256 hex json c s) λ t.
          and_serve (accept_share hex out ch "shared" share.sequence_number hash t) next).1.offered
        ≡ s.offered
  unfolding persisted
  after_credit-kept out ch share s hash next (err e, j, w) d = refl
  after_credit-kept out ch share s hash next (ok _, j, w) d =
      let v : State = record s { journal = j; window = w } in
      let (u, k, same, counted, ways) =
        accept_share-cases hex out ch "shared" share.sequence_number hash v in
      elim ways [ inl (y, e, a) ↦ absurd (cc (d, y)) | inr (n, e, q) ↦ rw e same ]

  -- Where the answer to the miner is not delivered no block is handed to submit_found_block, whatever
  -- the share is.
  pub handle_shared_share-undelivered :
      (out : Outside) (channel_id : ℕ) (share_target : Bytes) (bans : BanList)
      (payout_script payload : Bytes) (current : Option PoolTemplate)
      (current_shared : Option SharedTemplate) (s : State)
      → out.delivered ≡ false
      → (handle_shared_share sha256 hex json out channel_id share_target bans payout_script payload
          current current_shared s).1.offered
        ≡ s.offered
  unfolding shared_fresh persist
  handle_shared_share-undelivered out channel_id share_target bans payout_script payload current
        current_shared s d =
      elim (handle_shared_share_cases sha256 hex json out channel_id share_target bans payout_script
        payload current current_shared s) [
          | inl r ↦ r.untouched.offered
          | inr (pt, st, share, a, b, w, e) ↦
              ap (λ (x : Served). x.1.offered) e
              ∙ after_credit-kept out _ share _ (header_hash sha256 st.wire share) _
                  (credit json s.journal s.window (entry_of_share out share_target payout_script)
                    out.journal_write out.journal_replace)
                  d
        ]
