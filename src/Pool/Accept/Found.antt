-- ===== src/Pool/Accept/Found.antt =====
-- A block that is offered to the nodes, and what is kept of their answer.
use dinero_sv.Base.{
  ℕ, ◌≡◌, refl, ap, ◌∙◌, String, [], ◌∷◌, ◌++◌, if◌then◌else◌, Bool, true, false, Bool-cases, inl,
  inr, ◌&&◌,
}
use dinero_sv.Words.{add64, saturating_add64}
use dinero_sv.Bytestring.{Bytes, bytes_eq, bytes_eq→eq}
use dinero_sv.Pool.Block.{Hex}
use dinero_sv.Pool.Ledger.{Ledger, credit_of, credit_of-update, credit_share, credit_block}
use dinero_sv.Pool.Telemetry.{FoundBlock, record_found}
use dinero_sv.Pool.Session.{
  BlockSubmission, accepted, rejected, skipped, failed, Outside, State, send_share_success,
  write_frame,
}
use dinero_sv.Pool.Accept.{Channel, accept_share, note_failure, note_answer, submit_block}

unfoldable pub is_accepted : BlockSubmission → Bool
is_accepted accepted = true
is_accepted (rejected reason) = false
is_accepted skipped = false
is_accepted (failed reason) = false

abbrev pub found_by : State → Bytes → ℕ
found_by s miner = (credit_of s.ledger miner).found_blocks

-- The block is offered, once; if the answer is that a node accepted it, the miner has found a block
-- more, and so has the log; on any other answer neither changes, and other miners never do.
pub record IsOffered (out : Outside) (miner block : Bytes) (s t : State) : Type 0 where
  pub offered : t.offered ≡ s.offered ++ (block ∷ [])
  pub credited :
      (other : Bytes)
      → found_by t other ≡ (
          if is_accepted (out.submit_found_block block) && bytes_eq miner other
          then add64 (found_by s other) 1
          else found_by s other)
  pub logged : t.blocks.total ≡ (
      if is_accepted (out.submit_found_block block)
      then saturating_add64 s.blocks.total 1
      else s.blocks.total)

-- No block is found.
pub record KeepsFound (s t : State) : Type 0 where
  pub offered : t.offered ≡ s.offered
  pub found : (miner : Bytes) → found_by t miner ≡ found_by s miner
  pub blocks : t.blocks ≡ s.blocks

pub IsOffered-after :
    {out : Outside} {miner block : Bytes} {s t u : State}
    → KeepsFound s t
    → IsOffered out miner block t u
    → IsOffered out miner block s u
IsOffered-after {out} {miner} {block} k o = record {
  offered = o.offered ∙ ap (λ l. l ++ (block ∷ [])) k.offered;
  credited = λ other.
      o.credited other
      ∙ ap
          (λ n.
            if is_accepted (out.submit_found_block block) && bytes_eq miner other
            then add64 n 1
            else n)
          (k.found other);
  logged =
      o.logged
      ∙ ap
          (λ (b : dinero_sv.Pool.Telemetry.BlockLog).
            if is_accepted (out.submit_found_block block)
            then saturating_add64 b.total 1
            else b.total)
          k.blocks;
}

credit_share-found :
    (ledger : Ledger) (miner other : Bytes)
    → (credit_of (credit_share ledger miner) other).found_blocks
      ≡ (credit_of ledger other).found_blocks
unfolding credit_share
credit_share-found ledger miner other = elim (Bool-cases (bytes_eq miner other)) [
  | inl y ↦
      rw (credit_of-update ledger miner other)
        (rw y (ap (λ m. (credit_of ledger m).found_blocks) (bytes_eq→eq miner other y)))
  | inr n ↦ rw (credit_of-update ledger miner other) (rw n refl)
]

credit_block-found :
    (ledger : Ledger) (miner other : Bytes)
    → (credit_of (credit_block ledger miner) other).found_blocks ≡ (
        if bytes_eq miner other
        then add64 (credit_of ledger other).found_blocks 1
        else (credit_of ledger other).found_blocks)
unfolding credit_block
credit_block-found ledger miner other = elim (Bool-cases (bytes_eq miner other)) [
  | inl y ↦
      rw (credit_of-update ledger miner other)
        (rw y (ap (λ m. add64 (credit_of ledger m).found_blocks 1) (bytes_eq→eq miner other y)))
  | inr n ↦ rw (credit_of-update ledger miner other) (rw n refl)
]

module _ (hex : Hex) where
  pub accept_share-KeepsFound :
      (out : Outside) (ch : Channel) (kind : String) (sequence_number : ℕ) (hash : Bytes)
      (s : State)
      → KeepsFound s (accept_share hex out ch kind sequence_number hash s).1
  unfolding accept_share send_share_success write_frame
  accept_share-KeepsFound out ch kind sequence_number hash s =
      let c = credit_share-found s.ledger ch.miner_key in
      elim (Bool-cases out.delivered) [
        | inl y ↦ rw y (record { offered = refl; found = c; blocks = refl })
        | inr n ↦ rw n (record { offered = refl; found = c; blocks = refl })
      ]

  note_answer-IsOffered :
      (out : Outside) (ch : Channel) (hash : Bytes) (found : FoundBlock) (block : Bytes)
      (b : BlockSubmission) (s : State)
      → out.submit_found_block block ≡ b
      → IsOffered out ch.miner_key block s
          (note_answer hex out ch hash found b (record s { offered = s.offered ++ (block ∷ []) }))
  unfolding note_answer note_failure is_accepted record_found
  note_answer-IsOffered out ch hash found block accepted s e = record {
    offered = refl;
    credited = λ other. rw e (credit_block-found s.ledger ch.miner_key other);
    logged = rw e refl;
  }
  note_answer-IsOffered out ch hash found block (rejected reason) s e = record {
    offered = refl;
    credited = λ other. rw e refl;
    logged = rw e refl;
  }
  note_answer-IsOffered out ch hash found block skipped s e = record {
    offered = refl;
    credited = λ other. rw e refl;
    logged = rw e refl;
  }
  note_answer-IsOffered out ch hash found block (failed reason) s e = record {
    offered = refl;
    credited = λ other. rw e refl;
    logged = rw e refl;
  }

  pub submit_block-IsOffered :
      (out : Outside) (ch : Channel) (hash : Bytes) (found : FoundBlock) (block : Bytes) (s : State)
      → IsOffered out ch.miner_key block s (submit_block hex out ch hash found block s)
  unfolding submit_block
  submit_block-IsOffered out ch hash found block s =
      note_answer-IsOffered out ch hash found block (out.submit_found_block block) s refl
