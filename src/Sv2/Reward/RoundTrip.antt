-- ===== src/Sv2/Reward/RoundTrip.antt =====
-- SetRewardMode and WindowStatus round trip.
use dinero_sv.Base.{
  ℕ, suc, ◌+◌, ◌-◌, ◌≡◌, ◌≤◌, refl, arith, List, [], ◌∷◌, ok, and_then-eq-ok, ok_inj, append-nil,
  length, take, drop, concat, All-take, All-drop, take_whole, take-append-drop, length-take,
  length-drop, drop-drop, ◌==◌, ge→ltb, ==→eq, Bool-cases, inl, inr,
}
use dinero_sv.Wire.Bytes.{
  IsU16, IsU32, IsU64, AreBytes, IsByte, to_le, from_le, from_le-to_le, from_le-lt,
}
use dinero_sv.Wire.Bytes.{to_le-from_le_eq}
use dinero_sv.Wire.Limits.{check_cap, check_cap-le, check_cap_fits}
use dinero_sv.Messages.{SetRewardMode, WindowStatus}
use dinero_sv.Sv2.{sv2_cursor}
use dinero_sv.Sv2.Reward.{
  u16_max, encode_set_reward_mode, decode_set_reward_mode, encode_window_status,
  decode_window_status,
}

-- The payout script behind the seven bytes of the head.
set_reward_mode_read :
    (m : SetRewardMode)
    → IsU32 m.channel_id
    → IsU16 (length m.payout_script)
    → decode_set_reward_mode (
        concat (
          to_le 4 m.channel_id
          ∷ (m.mode ∷ [])
          ∷ to_le 2 (length m.payout_script)
          ∷ m.payout_script
          ∷ []))
      ≡ ok m
unfolding decode_set_reward_mode to_le
set_reward_mode_read m hc hl =
    rw (append-nil, from_le-to_le 4 m.channel_id hc, from_le-to_le 2 (length m.payout_script) hl)
      (ground (arith, take_whole (7 + length m.payout_script - 7) m.payout_script (omega arith)))

-- What `encode_set_reward_mode` writes for a message whose integers fit their widths,
-- `decode_set_reward_mode` reads back as that message.
pub decode-encode_set_reward_mode :
    (m : SetRewardMode) (s : List ℕ)
    → IsU32 m.channel_id
    → encode_set_reward_mode m ≡ ok s
    → decode_set_reward_mode s ≡ ok m
unfolding encode_set_reward_mode
decode-encode_set_reward_mode m s hc h =
    let (_, fit, e) = and_then-eq-ok (check_cap _ (length m.payout_script) _) _ h in
    let few : length m.payout_script ≤ u16_max = check_cap-le _ _ _ fit in
    rw (← ok_inj e) (set_reward_mode_read m hc (omega arith))

-- What `encode_window_status` writes for a message whose integers fit their widths,
-- `decode_window_status` reads back as that message.
pub decode-encode_window_status :
    (m : WindowStatus) (s : List ℕ)
    → IsU32 m.channel_id
    → IsU32 m.window_bps
    → IsU64 m.window_shares
    → encode_window_status m ≡ ok s
    → decode_window_status s ≡ ok m
unfolding encode_window_status decode_window_status to_le
decode-encode_window_status m s hc hb hs h = rw (
  ← ok_inj h,
  from_le-to_le 4 m.channel_id hc,
  from_le-to_le 4 m.window_bps hb,
  from_le-to_le 8 m.window_shares hs,
)

-- A string cut at two places, and put together again.
glue :
    (i j k : ℕ) (s : List ℕ)
    → length s ≤ i + j + k
    → concat (take i s ∷ take j (drop i s) ∷ take k (drop (i + j) s) ∷ []) ≡ s
glue i j k s h = rw (
  append-nil,
  take_whole k (drop (i + j) s) (omega (arith, length-drop (i + j) s)),
  drop-drop i j s,
  take-append-drop j (drop i s),
  take-append-drop i s,
)

le_field :
    (k from : ℕ) (s : List ℕ)
    → AreBytes s
    → from + k ≤ length s
    → to_le k (from_le (take k (drop from s))) ≡ take k (drop from s)
le_field k from s hs h =
    to_le-from_le_eq k (take k (drop from s))
      (omega (arith, length-take k (drop from s), length-drop from s))
      (All-take IsByte k (drop from s) (All-drop IsByte from s hs))

-- A byte string that `decode_window_status` accepts is the encoding of what it returns.
pub encode-decode_window_status :
    (s : List ℕ) (m : WindowStatus)
    → AreBytes s
    → decode_window_status s ≡ ok m
    → encode_window_status m ≡ ok s
unfolding decode_window_status encode_window_status
encode-decode_window_status s m hs h = elim (Bool-cases (length s == 16)) [
  | inl e ↦
      let len : length s ≡ 16 = ==→eq (length s) 16 e in
      rw (
        ← ok_inj (rw e at h),
        le_field 4 0 s hs (omega arith),
        le_field 4 4 s hs (omega arith),
        le_field 8 8 s hs (omega arith),
        glue 4 4 8 s (omega arith),
      )
  | inr e ↦ ground arith
]

-- A byte string that `decode_set_reward_mode` accepts is the encoding of what it returns.
pub encode-decode_set_reward_mode :
    (s : List ℕ) (m : SetRewardMode)
    → AreBytes s
    → decode_set_reward_mode s ≡ ok m
    → encode_set_reward_mode m ≡ ok s
unfolding decode_set_reward_mode encode_set_reward_mode
encode-decode_set_reward_mode (b₀ ∷ b₁ ∷ b₂ ∷ b₃ ∷ b₄ ∷ b₅ ∷ b₆ ∷ script) m hs h =
    elim (Bool-cases
      (suc (suc (suc (suc (suc (suc (suc (length script))))))) == 7 + from_le (b₅ ∷ b₆ ∷ []))) [
        | inl e ↦
            let len : length script ≡ from_le (b₅ ∷ b₆ ∷ []) = omega (arith, ==→eq _ _ e) in
            rw (
              ← ok_inj (
                  rw
                    (
                      ge→ltb (suc (suc (suc (suc (suc (suc (suc (length script)))))))) 7
                          (omega arith),
                      e,
                    )
                    at h),
              take_whole (7 + from_le (b₅ ∷ b₆ ∷ []) - 7) script (omega arith),
              check_cap_fits "payout_script" (length script) u16_max (
                  omega (
                    arith,
                    from_le-lt 2 (b₅ ∷ b₆ ∷ []) refl (hs.1.1.1.1.1.0, (hs.1.1.1.1.1.1.0, tt)),
                  )),
              len,
              to_le-from_le_eq 4 (b₀ ∷ b₁ ∷ b₂ ∷ b₃ ∷ []) refl
                  (hs.0, (hs.1.0, (hs.1.1.0, (hs.1.1.1.0, tt)))),
              to_le-from_le_eq 2 (b₅ ∷ b₆ ∷ []) refl (hs.1.1.1.1.1.0, (hs.1.1.1.1.1.1.0, tt)),
              append-nil,
            )
        | inr e ↦ cc (
            rw (ge→ltb (suc (suc (suc (suc (suc (suc (suc (length script)))))))) 7 (omega arith), e)
              at h)
      ]
encode-decode_set_reward_mode _ m hs h = cc
