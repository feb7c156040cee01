-- ===== src/Pool/Extended/Credit.antt =====
-- Which shares with a coinbase of the miner's own are accepted, and what becomes of them.
use dinero_sv.Base.{
  ℕ, ◌≡◌, ◌⊎◌, refl, ap, ◌∙◌, Option, none, some, ◌==◌, ==→eq, Bool-cases, Option-cases,
  Result-cases, inl, inr,
}
use dinero_sv.Bytestring.{Bytes}
use dinero_sv.Messages.{NewTemplateDinero, SubmitSharesExtendedDinero}
use dinero_sv.Sv2.Shares.{decode_submit_shares_extended}
use dinero_sv.Utreexo.{UtreexoAccumulatorState}
use dinero_sv.Pool.Block.{Hex}
use dinero_sv.Pool.Work.{PoolTemplate, is_current_job, header_hash}
use dinero_sv.Pool.Session.{codes, Outside, State, panicked}
use dinero_sv.Pool.Session.Refusal.{
  IsRefusal, refuse-IsRefusal, IsRefusal-after, IsUntouched-number,
}
use dinero_sv.Pool.Accept.{Channel}
use dinero_sv.Pool.Accept.Fresh.{IsAccepted}
use dinero_sv.Pool.Rebuild.{miner_outputs, usable_state, plain_share, check_outputs}
use dinero_sv.Pool.Extended.{extended_usable, extended_decoded, handle_extended_share}
use dinero_sv.Pool.Extended.Admitted.{AreComplete, IsAdmitted, complete}
use dinero_sv.Pool.Extended.Stages.{fails, IsPassed, committed_cases}

module _ (sha256 : Bytes → Bytes) (hex : Hex) where
  usable_cases :
      (activation : ℕ) (out : Outside) (ch : Channel) (ext : SubmitSharesExtendedDinero)
      (pt : PoolTemplate) (pre_block : UtreexoAccumulatorState) (s : State)
      → let x = extended_usable sha256 hex activation out ch ext pt pre_block s in
        IsRefusal s x
        ⊎ (AreComplete sha256 hex pt (miner_outputs ext.coinbase_outputs)
            × IsPassed sha256 hex activation ch ext pt pre_block s x)
  unfolding extended_usable
  usable_cases activation out ch ext pt pre_block s =
      elim (Option-cases (check_outputs sha256 hex pt (miner_outputs ext.coinbase_outputs))) [
        | inl n ↦ inl (rw (n, extended_usable) (fails s panicked))
        | inr (r, e) ↦ elim (Option-cases r) [
          | inr (code, c) ↦
              let f = e ∙ ap some c in
              inl (
                rw (f, extended_usable)
                  (refuse-IsRefusal out ch.miner_key ch.channel_id ext.sequence_number (codes code)
                    s))
          | inl c ↦
              let f = e ∙ ap some c in
              let k = complete sha256 hex pt (miner_outputs ext.coinbase_outputs) f in
              rw (f, extended_usable)
                (elim (committed_cases sha256 hex activation out ch ext pt pre_block s) [
                  | inl q ↦ inl q
                  | inr p ↦ inr (k, p)
                ])
        ]
      ]

  decoded_cases :
      (activation : ℕ) (out : Outside) (ch : Channel) (ext : SubmitSharesExtendedDinero)
      (current : Option PoolTemplate) (s : State)
      → let x = extended_decoded sha256 hex activation out ch ext current s in
        IsRefusal s x
        ⊎ ((pt : PoolTemplate) × (pre_block : UtreexoAccumulatorState) × (current ≡ some pt)
            × (ext.job_id ≡ pt.wire.template_id)
            × (usable_state pt ≡ some pre_block)
            × AreComplete sha256 hex pt (miner_outputs ext.coinbase_outputs)
            × IsPassed sha256 hex activation ch ext pt pre_block s x)
  unfolding extended_decoded is_current_job
  decoded_cases activation out ch ext none s =
      inl (
        refuse-IsRefusal out ch.miner_key ch.channel_id ext.sequence_number (codes "no-template") s)
  decoded_cases activation out ch ext (some pt) s =
      elim (Bool-cases (ext.job_id == pt.wire.template_id)) [
        | inr n ↦ inl (
            rw n (
              refuse-IsRefusal out ch.miner_key ch.channel_id ext.sequence_number
                (codes "stale-share") s))
        | inl y ↦ elim (Option-cases (usable_state pt)) [
          | inl n ↦ inl (
              rw (y, extended_decoded)
                (rw (n, extended_decoded)
                  (refuse-IsRefusal out ch.miner_key ch.channel_id ext.sequence_number
                    (codes "no-utreexo-state") s)))
          | inr (pre_block, u) ↦
              rw (y, extended_decoded)
                (rw (u, extended_decoded)
                  (elim (usable_cases activation out ch ext pt pre_block s) [
                    | inl q ↦ inl q
                    | inr (k, p) ↦ inr (pt, pre_block, refl, ==→eq _ _ y, u, k, p)
                  ]))
        ]
      ]

  -- Either nothing is credited, or the share passes every check of the miner's coinbase and of its
  -- header: it is of the channel's job, the template has no transactions and a known forest, the outputs
  -- add up to the coinbase's value modulo 2^64 and carry the three commitments, and the header that
  -- they lead to is under the target and new to the filter. Then the filter has the header's hash and
  -- the share is counted, and the window and the journal are as they were. In each case one frame goes
  -- back to the miner, or none and the session ends.
  pub handle_extended_share_lem :
      (activation : ℕ) (out : Outside) (ch : Channel) (payload : Bytes)
      (current : Option PoolTemplate) (s : State)
      → let x = handle_extended_share sha256 hex activation out ch payload current s in
        IsRefusal s x
        ⊎ ((pt : PoolTemplate) × (ext : SubmitSharesExtendedDinero) × (template : NewTemplateDinero)
            × (stripped : Bytes) × (current ≡ some pt)
            × IsAdmitted sha256 hex activation ch payload pt s ext template stripped
            × IsAccepted hex (header_hash sha256 template (plain_share ext)) s x)
  unfolding handle_extended_share
  handle_extended_share_lem activation out ch payload current s =
      elim (Result-cases (decode_submit_shares_extended payload)) [
        | inr (e, h) ↦ inl (
            rw (h, handle_extended_share)
              (refuse-IsRefusal out ch.miner_key ch.channel_id s.last_sequence_number
                (codes "invalid-payload") s))
        | inl (ext, h) ↦
            rw (h, handle_extended_share)
              (let t : State = record s { last_sequence_number = ext.sequence_number } in
                elim (decoded_cases activation out ch ext current t) [
                  | inl r ↦ inl (IsRefusal-after (IsUntouched-number s ext.sequence_number) refl r)
                  | inr (pt, pre_block, p, j, u, k, (root, template, stripped, x, v, r, m, f, a)) ↦
                      inr (
                        pt,
                        ext,
                        template,
                        stripped,
                        p,
                        record {
                          pre_block = pre_block;
                          root = root;
                          decoded = h;
                          current = j;
                          usable = u;
                          complete = k;
                          expected = x;
                          committed = v;
                          rebuilt = r;
                          meets = m;
                          fresh = f;
                        },
                        record {
                          dedup = a.dedup;
                          window = a.window;
                          journal = a.journal;
                          counted = a.counted;
                          answers = a.answers;
                        },
                      )
                ])
      ]
