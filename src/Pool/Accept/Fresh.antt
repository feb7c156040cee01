-- ===== src/Pool/Accept/Fresh.antt =====
-- The filter in front of a credit, and what the answer and a found block leave alone.
use dinero_sv.Base.{
  ℕ, ◌≡◌, ◌⊎◌, refl, ◌∙◌, String, [], ◌∷◌, ◌++◌, ok, err, Bool-cases, inl, inr, true, false,
}
use dinero_sv.Words.{add64}
use dinero_sv.Bytestring.{Bytes}
use dinero_sv.Pool.Block.{Hex}
use dinero_sv.Pool.Dedup.{insert}
use dinero_sv.Pool.Hashes.{contains}
use dinero_sv.Pool.Telemetry.{FoundBlock}
use dinero_sv.Pool.Session.{
  codes, BlockSubmission, accepted, rejected, skipped, failed, Outside, State, Served, and_serve,
  disconnected, send_share_success, write_frame,
}
use dinero_sv.Pool.Session.Refusal.{IsRefusal, refuse-IsRefusal, Answers}
use dinero_sv.Pool.Accept.{
  Channel, deduplicated, accept_share, note_failure, note_answer, submit_block,
}

-- The window, its journal and the filter are as they were.
pub record KeepsCredit (s t : State) : Type 0 where
  pub window : t.window ≡ s.window
  pub journal : t.journal ≡ s.journal
  pub dedup : t.dedup ≡ s.dedup

-- So are the frames and the count of accepted shares.
pub record IsQuiet (s t : State) : Type 0 where
  pub keeps : KeepsCredit s t
  pub counted : t.accepted_in_window ≡ s.accepted_in_window
  pub sent : t.sent ≡ s.sent

pub deduplicated-cases :
    (out : Outside) (ch : Channel) (sequence_number : ℕ) (hash : Bytes) (next : State → Served)
    (s : State)
    → IsRefusal s (deduplicated out ch sequence_number hash next s)
      ⊎ ((contains s.dedup.seen hash ≡ false)
          × (deduplicated out ch sequence_number hash next s
              ≡ next (record s { dedup = (insert s.dedup hash).0 })))
unfolding deduplicated insert
deduplicated-cases out ch sequence_number hash next s =
    elim (Bool-cases (contains s.dedup.seen hash)) [
      | inl y ↦ inl (
          rw y (
            refuse-IsRefusal out ch.miner_key ch.channel_id sequence_number
              (codes "duplicate-share") s))
      | inr n ↦ inr (n, rw n refl)
    ]

module _ (hex : Hex) where
  pub note_failure-IsQuiet :
      (out : Outside) (hash reason : Bytes) (s : State)
      → IsQuiet s (note_failure hex out hash reason s)
  unfolding note_failure
  note_failure-IsQuiet out hash reason s = record {
    keeps = record { window = refl; journal = refl; dedup = refl };
    counted = refl;
    sent = refl;
  }

  note_answer-IsQuiet :
      (out : Outside) (ch : Channel) (hash : Bytes) (found : FoundBlock) (b : BlockSubmission)
      (s : State)
      → IsQuiet s (note_answer hex out ch hash found b s)
  unfolding note_answer
  note_answer-IsQuiet out ch hash found accepted s = record {
    keeps = record { window = refl; journal = refl; dedup = refl };
    counted = refl;
    sent = refl;
  }
  note_answer-IsQuiet out ch hash found (rejected reason) s = record {
    keeps = record { window = refl; journal = refl; dedup = refl };
    counted = refl;
    sent = refl;
  }
  note_answer-IsQuiet out ch hash found skipped s = record {
    keeps = record { window = refl; journal = refl; dedup = refl };
    counted = refl;
    sent = refl;
  }
  note_answer-IsQuiet out ch hash found (failed reason) s = note_failure-IsQuiet out hash reason s

  pub submit_block-IsQuiet :
      (out : Outside) (ch : Channel) (hash : Bytes) (found : FoundBlock) (block : Bytes) (s : State)
      → IsQuiet s (submit_block hex out ch hash found block s)
  unfolding submit_block
  submit_block-IsQuiet out ch hash found block s =
      let q =
        note_answer-IsQuiet out ch hash found (out.submit_found_block block)
          (record s { offered = s.offered ++ (block ∷ []) }) in
      record {
        keeps = record {
          window = q.keeps.window;
          journal = q.keeps.journal;
          dedup = q.keeps.dedup;
        };
        counted = q.counted;
        sent = q.sent;
      }

  -- The answer to an accepted share is sent and the call goes on, or it is not and the session ends.
  pub accept_share-cases :
      (out : Outside) (ch : Channel) (kind : String) (sequence_number : ℕ) (hash : Bytes)
      (s : State)
      → (t : State) × KeepsCredit s t
        × (t.offered ≡ s.offered)
        × (t.accepted_in_window ≡ add64 s.accepted_in_window 1)
        × (((out.delivered ≡ true)
              × (accept_share hex out ch kind sequence_number hash s ≡ (ok tt, t))
              × Answers s (ok tt, t))
            ⊎ ((out.delivered ≡ false)
                × (accept_share hex out ch kind sequence_number hash s ≡ (err disconnected, t))
                × (t.sent ≡ s.sent)))
  unfolding accept_share send_share_success write_frame
  accept_share-cases out ch kind sequence_number hash s = elim (Bool-cases out.delivered) [
    | inl y ↦ (
      (accept_share hex out ch kind sequence_number hash s).1,
      rw y (record { window = refl; journal = refl; dedup = refl }),
      rw y refl,
      rw y refl,
      inl (y, rw y refl, rw y (inl (_, refl))),
    )
    | inr n ↦ (
      (accept_share hex out ch kind sequence_number hash s).1,
      rw n (record { window = refl; journal = refl; dedup = refl }),
      rw n refl,
      rw n refl,
      inr (n, rw n refl, rw n refl),
    )
  ]

  -- An accepted share: the filter has its hash, it is counted, and it is answered.
  pub record IsAccepted (hash : Bytes) (s : State) (x : Served) : Type 0 where
    pub dedup : x.1.dedup ≡ (insert s.dedup hash).0
    pub window : x.1.window ≡ s.window
    pub journal : x.1.journal ≡ s.journal
    pub counted : x.1.accepted_in_window ≡ add64 s.accepted_in_window 1
    pub answers : Answers s x

  -- The answer to a share that is new, and a quiet step behind it.
  pub accept_share-IsAccepted :
      (out : Outside) (ch : Channel) (kind : String) (sequence_number : ℕ) (hash : Bytes)
      (s : State) (next : State → Served)
      → ((u : State) → IsQuiet u (next u).1)
      → IsAccepted hash s (
          and_serve
            (accept_share hex out ch kind sequence_number hash
              (record s { dedup = (insert s.dedup hash).0 }))
            next)
  accept_share-IsAccepted out ch kind sequence_number hash s next quiet =
      let v : State = record s { dedup = (insert s.dedup hash).0 } in
      let (u, k, same, counted, ways) = accept_share-cases out ch kind sequence_number hash v in
      elim ways [
        | inr (d, e, q) ↦ rw e (record {
          dedup = k.dedup;
          window = k.window;
          journal = k.journal;
          counted = counted;
          answers = inr (disconnected, refl, q);
        })
        | inl (d, e, a) ↦ rw e (
            let q = quiet u in
            record {
              dedup = q.keeps.dedup ∙ k.dedup;
              window = q.keeps.window ∙ k.window;
              journal = q.keeps.journal ∙ k.journal;
              counted = q.counted ∙ counted;
              answers = elim a [ inl (f, g) ↦ inl (f, q.sent ∙ g) | inr (x, g, i) ↦ absurd (cc g) ];
            })
      ]
