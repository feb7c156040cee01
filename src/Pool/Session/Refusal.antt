-- ===== src/Pool/Session/Refusal.antt =====
-- What a refused share leaves behind, and how often a call answers.
use dinero_sv.Base.{
  ℕ, ◌≡◌, ◌⊎◌, refl, ap, ◌∙◌, [], ◌∷◌, ◌++◌, Result, ok, err, Bool-cases, inl, inr,
}
use dinero_sv.Bytestring.{Bytes, bytes_eq, bytes_eq_refl}
use dinero_sv.Sv2.{Sv2CodecError}
use dinero_sv.Pool.Ledger.{Ledger, credit_of, reject, credit_of-update}
use dinero_sv.Pool.Session.{
  Frame, Outside, State, ServeError, Served, write_frame, write_encoded, send_share_error, refuse,
  msg_submit_shares_error,
}

-- Nothing is credited or remembered, and no block is offered.
pub record IsUntouched (s t : State) : Type 0 where
  pub window : t.window ≡ s.window
  pub journal : t.journal ≡ s.journal
  pub dedup : t.dedup ≡ s.dedup
  pub accepted_in_window : t.accepted_in_window ≡ s.accepted_in_window
  pub blocks : t.blocks ≡ s.blocks
  pub offered : t.offered ≡ s.offered
  pub uncredited :
      (miner : Bytes)
      → (credit_of t.ledger miner).accepted_shares ≡ (credit_of s.ledger miner).accepted_shares

-- One frame is sent, or none and the session ends.
abbrev pub Answers : State → Served → Type 0
Answers s (r, t) =
    ((f : Frame) × (t.sent ≡ s.sent ++ (f ∷ [])))
    ⊎ ((e : ServeError) × (r ≡ err e) × (t.sent ≡ s.sent))

pub record IsRefusal (s : State) (x : Served) : Type 0 where
  pub untouched : IsUntouched s x.1
  pub answers : Answers s x

reject_accepted :
    (ledger : Ledger) (miner other : Bytes)
    → (credit_of (reject ledger miner) other).accepted_shares
      ≡ (credit_of ledger other).accepted_shares
unfolding reject
reject_accepted ledger miner other = elim (Bool-cases (bytes_eq miner other)) [
  | inl y ↦
      let e = dinero_sv.Bytestring.bytes_eq→eq miner other y in
      rw (credit_of-update ledger miner other)
        (rw y (ap (λ m. (credit_of ledger m).accepted_shares) e))
  | inr n ↦ rw (credit_of-update ledger miner other) (rw n refl)
]

pub write_frame-Answers :
    (out : Outside) (msg_type : ℕ) (payload : Bytes) (s : State)
    → Answers s (write_frame out msg_type payload s)
unfolding write_frame
write_frame-Answers out msg_type payload s = elim (Bool-cases out.delivered) [
  | inl y ↦ rw y (inl (record { msg_type = msg_type; payload = payload }, refl))
  | inr n ↦ rw n (inr (dinero_sv.Pool.Session.disconnected, refl, refl))
]

-- A write changes nothing but the frames.
write_encoded-IsRefusal :
    (out : Outside) (msg_type : ℕ) (r : Result Sv2CodecError Bytes) (s : State)
    → IsRefusal s (write_encoded out msg_type r s)
unfolding write_encoded write_frame
write_encoded-IsRefusal out msg_type (err e) s = record {
  untouched = record {
    window = refl;
    journal = refl;
    dedup = refl;
    accepted_in_window = refl;
    blocks = refl;
    offered = refl;
    uncredited = λ miner. refl;
  };
  answers = inr (dinero_sv.Pool.Session.encoding e, refl, refl);
}
write_encoded-IsRefusal out msg_type (ok payload) s = elim (Bool-cases out.delivered) [
  | inl y ↦ rw y (record {
    untouched = record {
      window = refl;
      journal = refl;
      dedup = refl;
      accepted_in_window = refl;
      blocks = refl;
      offered = refl;
      uncredited = λ miner. refl;
    };
    answers = inl (record { msg_type = msg_type; payload = payload }, refl);
  })
  | inr n ↦ rw n (record {
    untouched = record {
      window = refl;
      journal = refl;
      dedup = refl;
      accepted_in_window = refl;
      blocks = refl;
      offered = refl;
      uncredited = λ miner. refl;
    };
    answers = inr (dinero_sv.Pool.Session.disconnected, refl, refl);
  })
]

-- A refusal after a step that changes only what a refusal may change is a refusal.
pub IsRefusal-after :
    {s t : State} {x : Served} → IsUntouched s t → t.sent ≡ s.sent → IsRefusal t x → IsRefusal s x
IsRefusal-after u e r = record {
  untouched = record {
    window = r.untouched.window ∙ u.window;
    journal = r.untouched.journal ∙ u.journal;
    dedup = r.untouched.dedup ∙ u.dedup;
    accepted_in_window = r.untouched.accepted_in_window ∙ u.accepted_in_window;
    blocks = r.untouched.blocks ∙ u.blocks;
    offered = r.untouched.offered ∙ u.offered;
    uncredited = λ miner. r.untouched.uncredited miner ∙ u.uncredited miner;
  };
  answers = elim r.answers [
    | inl (f, h) ↦ inl (f, h ∙ ap (λ l. l ++ (f ∷ [])) e)
    | inr (c, h, k) ↦ inr (c, h, k ∙ e)
  ];
}

pub send_share_error-IsRefusal :
    (out : Outside) (channel_id sequence_number : ℕ) (code : Bytes) (s : State)
    → IsRefusal s (send_share_error out channel_id sequence_number code s)
unfolding send_share_error
send_share_error-IsRefusal out channel_id sequence_number code s =
    IsRefusal-after
      (record {
        window = refl;
        journal = refl;
        dedup = refl;
        accepted_in_window = refl;
        blocks = refl;
        offered = refl;
        uncredited = λ miner. refl;
      })
      refl (write_encoded-IsRefusal out msg_submit_shares_error _ _)

pub refuse-IsRefusal :
    (out : Outside) (miner : Bytes) (channel_id sequence_number : ℕ) (code : Bytes) (s : State)
    → IsRefusal s (refuse out miner channel_id sequence_number code s)
unfolding refuse
refuse-IsRefusal out miner channel_id sequence_number code s =
    IsRefusal-after
      (record {
        window = refl;
        journal = refl;
        dedup = refl;
        accepted_in_window = refl;
        blocks = refl;
        offered = refl;
        uncredited = reject_accepted s.ledger miner;
      })
      refl (send_share_error-IsRefusal out channel_id sequence_number code _)

pub IsUntouched-number : (s : State) (n : ℕ) → IsUntouched s (record s { last_sequence_number = n })
IsUntouched-number s n = record {
  window = refl;
  journal = refl;
  dedup = refl;
  accepted_in_window = refl;
  blocks = refl;
  offered = refl;
  uncredited = λ miner. refl;
}
