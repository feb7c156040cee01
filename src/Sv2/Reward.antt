-- ===== src/Sv2/Reward.antt =====
-- SetRewardMode and WindowStatus, which are decoded at fixed offsets
-- (crates/dinero-sv2-codec/src/sv2.rs).
pub mod RoundTrip
use dinero_sv.Base.{
  ℕ, ◌+◌, ◌-◌, List, [], ◌∷◌, Result, ok, err, and_then, length, take, drop, concat, get_or, ltb,
  ◌==◌, if◌then◌else◌, not,
}
use dinero_sv.Wire.{
  Parser, finish, pure, lift, ◌>>=◌, ◌>>◌, read_u8, read_u16, read_u32, read_u64, read_array32,
  read_str0_255, read_many, take_bytes, parse, Cursor, remaining,
}
use dinero_sv.Wire.Bytes.{
  IsU8, IsU16, IsU32, IsU64, IsArray32, AreBytes, IsByte, to_le, from_le, length-to_le,
  from_le-to_le, to_le-from_le, from_le-lt, to_le-AreBytes,
}
use dinero_sv.Wire.Limits.{check_cap}
use dinero_sv.Messages.{SetRewardMode, WindowStatus}
use dinero_sv.Sv2.{Sv2CodecError, short, trailing, too_large, sv2_cursor}

abbrev pub u16_max : ℕ
u16_max = 65_535

-- `u16::try_from(len)` fails above `u16::MAX`, with the error of a cap.
unfoldable pub encode_set_reward_mode : SetRewardMode → Result Sv2CodecError (List ℕ)
encode_set_reward_mode msg =
    and_then (check_cap "payout_script" (length msg.payout_script) u16_max) λ _. ok (
      concat (
        to_le 4 msg.channel_id
        ∷ (msg.mode ∷ [])
        ∷ to_le 2 (length msg.payout_script)
        ∷ msg.payout_script
        ∷ []))

-- `buf[from..to]`
abbrev slice : List ℕ → ℕ → ℕ → List ℕ
slice buf from to = take (to - from) (drop from buf)

unfoldable pub decode_set_reward_mode : List ℕ → Result Sv2CodecError SetRewardMode
decode_set_reward_mode buf =
    if ltb (length buf) 7
    then err (short 0 (7 - length buf))
    else (let len = from_le (slice buf 5 7) in
        if not (length buf == 7 + len)
        then err (short 7 (7 + len - length buf))
        else ok (record {
          channel_id = from_le (slice buf 0 4);
          mode = get_or buf 4 0;
          payout_script = slice buf 7 (7 + len);
        }))

-- This encoder cannot fail.
unfoldable pub encode_window_status : WindowStatus → Result Sv2CodecError (List ℕ)
encode_window_status msg =
    ok (concat (to_le 4 msg.channel_id ∷ to_le 4 msg.window_bps ∷ to_le 8 msg.window_shares ∷ []))

unfoldable pub decode_window_status : List ℕ → Result Sv2CodecError WindowStatus
decode_window_status buf =
    if not (length buf == 16)
    then (if ltb (length buf) 16
        then err (short 0 (16 - length buf))
        else err (trailing (length buf - 16)))
    else ok (record {
      channel_id = from_le (slice buf 0 4);
      window_bps = from_le (slice buf 4 8);
      window_shares = from_le (slice buf 8 16);
    })
