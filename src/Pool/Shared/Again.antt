-- ===== src/Pool/Shared/Again.antt =====
-- A share that was credited is not credited again.
use dinero_sv.Base.{
  ℕ, ◌≡◌, ◌<◌, refl, sym, ap, subst, ◌∙◌, arith, List, length, Option, some, ok, ok_inj, Bool-cases,
  inl, inr, true, false,
}
use dinero_sv.Bytestring.{Bytes}
use dinero_sv.Messages.{SubmitSharesDinero}
use dinero_sv.Pool.Bans.{BanList}
use dinero_sv.Pool.Block.{Hex}
use dinero_sv.Fixed.Submit.{decode_submit_shares}
use dinero_sv.Pool.Dedup.{ShareDedup, insert, insert_all}
use dinero_sv.Pool.Dedup.Recent.{IsValid, insert-insert_all}
use dinero_sv.Pool.Calls.{Calls, Calls-insert_all}
use dinero_sv.Pool.Hashes.{contains}
use dinero_sv.Pool.Journal.{Json}
use dinero_sv.Pool.Work.{PoolTemplate, SharedTemplate, header_hash}
use dinero_sv.Pool.Session.{Outside, State}
use dinero_sv.Pool.Session.Refusal.{IsRefusal}
use dinero_sv.Pool.Shared.{handle_shared_share}
use dinero_sv.Pool.Shared.Admitted.{IsAdmitted}
use dinero_sv.Pool.Shared.Credit.{IsCredited, handle_shared_share-admitted}
use dinero_sv.Pool.Shared.Effect.{handle_shared_share_lem, rest_of-IsCredited}

absent_fresh : (d : ShareDedup) (h : Bytes) → contains d.seen h ≡ false → (insert d h).1 ≡ true
unfolding insert
absent_fresh d h n = rw n refl

refused_seen : (d : ShareDedup) (h : Bytes) → (insert d h).1 ≡ false → contains d.seen h ≡ true
refused_seen d h r = elim (Bool-cases (contains d.seen h)) [
  | inl y ↦ y
  | inr n ↦ absurd (cc (absent_fresh d h n, r))
]

-- A hash that was new to a valid filter is still in it after fewer than `cap` others.
still_seen :
    (d e : ShareDedup) (h : Bytes) (hs : List Bytes)
    → IsValid d
    → contains d.seen h ≡ false
    → e ≡ (insert d h).0
    → length hs < d.cap
    → contains (insert_all e hs).seen h ≡ true
still_seen d e h hs v n q r = refused_seen (insert_all e hs) h (
    ap (λ (f : ShareDedup). (insert (insert_all f hs) h).1) q
    ∙ insert-insert_all d h hs v (absent_fresh d h n) r)

-- After an admitted share on a valid filter, and after fewer further calls of the share handlers than
-- the filter has room for, of any kind, for any connections and with any arguments, a share in shared
-- mode whose header has the hash of the first one's is refused: on whichever channel, for whomever, in
-- whichever payload and job, and whatever became of the first answer.
pub handle_shared_share_again :
    (sha256 : Bytes → Bytes) (hex : Hex) (json : Json) (out again : Outside)
    (channel_id channel_id' : ℕ) (share_target share_target' : Bytes) (bans bans' : BanList)
    (payout_script payout_script' payload payload' : Bytes) (pt : PoolTemplate)
    (current : Option PoolTemplate) (st st' : SharedTemplate) (s t : State)
    (share share' : SubmitSharesDinero) (n : ℕ)
    → IsValid s.dedup
    → IsAdmitted sha256 out share_target bans payout_script payload st s share
    → Calls sha256 hex json
        (handle_shared_share sha256 hex json out channel_id share_target bans payout_script payload
          (some pt)
          (some st)
          s).1
        n
        t
    → n < s.dedup.cap
    → decode_submit_shares payload' ≡ ok share'
    → header_hash sha256 st'.wire share' ≡ header_hash sha256 st.wire share
    → IsRefusal t (
        handle_shared_share sha256 hex json again channel_id' share_target' bans' payout_script'
          payload' current
          (some st')
          t)
handle_shared_share_again sha256 hex json out again channel_id channel_id' share_target
      share_target' bans bans' payout_script payout_script' payload payload' pt current st st' s t
      share share' n v w calls room d' same =
    let hash = header_hash sha256 st.wire share in
    let e =
      handle_shared_share-admitted sha256 hex json out channel_id share_target bans payout_script
        payload pt st s share w in
    let c = subst (IsCredited sha256 hex json out share_target payout_script st share s) (sym e) (
      rest_of-IsCredited sha256 hex json out channel_id share_target payout_script share pt st s) in
    let (hs, few, q) = Calls-insert_all sha256 hex json calls in
    let seen : contains t.dedup.seen hash ≡ true =
      ap (λ (d : ShareDedup). contains d.seen hash) q
      ∙ still_seen s.dedup _ hash hs v w.fresh c.dedup (omega (arith, few, room)) in
    elim (handle_shared_share_lem sha256 hex json again channel_id' share_target' bans'
      payout_script' payload' current (some st') t) [
        | inl r ↦ r
        | inr (st2, share2, p, w2, c2) ↦
            let es : st' ≡ st2 = cc p in
            let eq : share' ≡ share2 = ok_inj (sym d' ∙ w2.decoded) in
            let h : header_hash sha256 st2.wire share2 ≡ hash =
              ap (λ (x : SharedTemplate). header_hash sha256 x.wire share2) (sym es)
              ∙ ap (λ (x : SubmitSharesDinero). header_hash sha256 st'.wire x) (sym eq)
              ∙ same in
            absurd (cc (seen, w2.fresh, ap (contains t.dedup.seen) h))
      ]
