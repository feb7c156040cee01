-- ===== src/Sv2/Channel/RoundTrip.antt =====
-- Each decoder of the channel messages reads back what its encoder wrote, and accepts nothing
-- else.
use dinero_sv.Base.{ℕ, ◌≡◌, refl, List, ok, and_then-eq-ok, ok_inj, ◌↔◌}
use dinero_sv.Wire.Bytes.{IsU32, IsU64, IsArray32, AreBytes}
use dinero_sv.Wire.Accepts.{
  Reads-u32, Reads-u64, Reads-array32, Reads-str0_255, Accepts-bind, Accepts-finish, parse-Accepts,
}
use dinero_sv.Wire.Ends.{
  Consumes-IsU32, Consumes-IsU64, Consumes-IsArray32, Consumes-str0_255, Ends-bind, Ends-finish,
  parse-Ends,
}
use dinero_sv.Messages.{
  OpenStandardMiningChannel, OpenStandardMiningChannelSuccess, OpenStandardMiningChannelError,
  SetTarget, SetNewPrevHash,
}
use dinero_sv.Sv2.{sv2_cursor, write_str0_255}
use dinero_sv.Sv2.Strings.{str_written, str_fits}
use dinero_sv.Sv2.Channel.{
  encode_open_standard_mining_channel, decode_open_standard_mining_channel,
  encode_open_standard_mining_channel_success, decode_open_standard_mining_channel_success,
  encode_open_standard_mining_channel_error, decode_open_standard_mining_channel_error,
  encode_set_target, decode_set_target, encode_set_new_prev_hash, decode_set_new_prev_hash,
}

pub record IsOpenChannel (m : OpenStandardMiningChannel) : Type 0 where
  pub request_id : IsU32 m.request_id
  pub nominal_hash_rate_bits : IsU32 m.nominal_hash_rate_bits
  pub max_target : IsArray32 m.max_target

-- What `encode_open_standard_mining_channel` writes for a message whose fields fit their widths,
-- `decode_open_standard_mining_channel` reads back as that message.
pub decode-encode_open_standard_mining_channel :
    (m : OpenStandardMiningChannel) (s : List ℕ)
    → IsOpenChannel m
    → encode_open_standard_mining_channel m ≡ ok s
    → decode_open_standard_mining_channel s ≡ ok m
unfolding decode_open_standard_mining_channel encode_open_standard_mining_channel
decode-encode_open_standard_mining_channel m s v h =
    let (t, e, e') = and_then-eq-ok (write_str0_255 m.user_identity) _ h in
    rw (← ok_inj e', str_written m.user_identity t e)
      (parse-Accepts (
        Accepts-bind _ (Reads-u32 m.request_id v.request_id) (
          Accepts-bind _ (Reads-str0_255 m.user_identity) (
            Accepts-bind _ (Reads-u32 m.nominal_hash_rate_bits v.nominal_hash_rate_bits)
              (Accepts-bind _ (Reads-array32 m.max_target v.max_target) (Accepts-finish m))))))

-- A byte string that `decode_open_standard_mining_channel` accepts is the encoding of what it
-- returns.
pub encode-decode_open_standard_mining_channel :
    (s : List ℕ) (m : OpenStandardMiningChannel)
    → AreBytes s
    → decode_open_standard_mining_channel s ≡ ok m
    → encode_open_standard_mining_channel m ≡ ok s
unfolding decode_open_standard_mining_channel encode_open_standard_mining_channel
encode-decode_open_standard_mining_channel = parse-Ends (
    Ends-bind _ _ Consumes-IsU32 λ request_id _. Ends-bind _ _ Consumes-str0_255 λ identity fits.
      Ends-bind _ _ Consumes-IsU32 λ rate _.
        Ends-bind _ _ Consumes-IsArray32 λ target _. Ends-finish _ (rw (str_fits identity fits)))

pub decode-encode_open_standard_mining_channel_success :
    (m : OpenStandardMiningChannelSuccess)
    → IsU32 m.request_id
    → IsU32 m.channel_id
    → IsArray32 m.target
    → decode_open_standard_mining_channel_success (encode_open_standard_mining_channel_success m)
      ≡ ok m
unfolding decode_open_standard_mining_channel_success encode_open_standard_mining_channel_success
decode-encode_open_standard_mining_channel_success m hr hc ht = parse-Accepts (
    Accepts-bind _ (Reads-u32 m.request_id hr) (
      Accepts-bind _ (Reads-u32 m.channel_id hc)
        (Accepts-bind _ (Reads-array32 m.target ht) (Accepts-finish m))))

pub encode-decode_open_standard_mining_channel_success :
    (s : List ℕ) (m : OpenStandardMiningChannelSuccess)
    → AreBytes s
    → decode_open_standard_mining_channel_success s ≡ ok m
    → encode_open_standard_mining_channel_success m ≡ s
unfolding decode_open_standard_mining_channel_success encode_open_standard_mining_channel_success
encode-decode_open_standard_mining_channel_success = parse-Ends (
    Ends-bind _ _ Consumes-IsU32 λ request_id _.
      Ends-bind _ _ Consumes-IsU32
        λ channel_id _. Ends-bind _ _ Consumes-IsArray32 λ target _. Ends-finish _ refl)

pub decode-encode_open_standard_mining_channel_error :
    (m : OpenStandardMiningChannelError) (s : List ℕ)
    → IsU32 m.request_id
    → encode_open_standard_mining_channel_error m ≡ ok s
    → decode_open_standard_mining_channel_error s ≡ ok m
unfolding decode_open_standard_mining_channel_error encode_open_standard_mining_channel_error
decode-encode_open_standard_mining_channel_error m s v h =
    let (t, e, e') = and_then-eq-ok (write_str0_255 m.error_code) _ h in
    rw (← ok_inj e', str_written m.error_code t e)
      (parse-Accepts (
        Accepts-bind _ (Reads-u32 m.request_id v)
          (Accepts-bind _ (Reads-str0_255 m.error_code) (Accepts-finish m))))

pub encode-decode_open_standard_mining_channel_error :
    (s : List ℕ) (m : OpenStandardMiningChannelError)
    → AreBytes s
    → decode_open_standard_mining_channel_error s ≡ ok m
    → encode_open_standard_mining_channel_error m ≡ ok s
unfolding decode_open_standard_mining_channel_error encode_open_standard_mining_channel_error
encode-decode_open_standard_mining_channel_error = parse-Ends (
    Ends-bind _ _ Consumes-IsU32 λ request_id _.
      Ends-bind _ _ Consumes-str0_255 λ code fits. Ends-finish _ (rw (str_fits code fits)))

pub decode-encode_set_target :
    (m : SetTarget)
    → IsU32 m.channel_id
    → IsArray32 m.max_target
    → decode_set_target (encode_set_target m) ≡ ok m
unfolding decode_set_target encode_set_target
decode-encode_set_target m hc ht = parse-Accepts (
    Accepts-bind _ (Reads-u32 m.channel_id hc)
      (Accepts-bind _ (Reads-array32 m.max_target ht) (Accepts-finish m)))

pub encode-decode_set_target :
    (s : List ℕ) (m : SetTarget) → AreBytes s → decode_set_target s ≡ ok m → encode_set_target m ≡ s
unfolding decode_set_target encode_set_target
encode-decode_set_target = parse-Ends (
    Ends-bind _ _ Consumes-IsU32
      λ channel_id _. Ends-bind _ _ Consumes-IsArray32 λ target _. Ends-finish _ refl)

pub decode-encode_set_new_prev_hash :
    (m : SetNewPrevHash)
    → IsU32 m.channel_id
    → IsArray32 m.prev_hash
    → IsU64 m.min_ntime
    → IsU32 m.nbits
    → decode_set_new_prev_hash (encode_set_new_prev_hash m) ≡ ok m
unfolding decode_set_new_prev_hash encode_set_new_prev_hash
decode-encode_set_new_prev_hash m hc hp ht hn = parse-Accepts (
    Accepts-bind _ (Reads-u32 m.channel_id hc) (
      Accepts-bind _ (Reads-array32 m.prev_hash hp) (
        Accepts-bind _ (Reads-u64 m.min_ntime ht)
          (Accepts-bind _ (Reads-u32 m.nbits hn) (Accepts-finish m)))))

pub encode-decode_set_new_prev_hash :
    (s : List ℕ) (m : SetNewPrevHash)
    → AreBytes s
    → decode_set_new_prev_hash s ≡ ok m
    → encode_set_new_prev_hash m ≡ s
unfolding decode_set_new_prev_hash encode_set_new_prev_hash
encode-decode_set_new_prev_hash = parse-Ends (
    Ends-bind _ _ Consumes-IsU32 λ channel_id _. Ends-bind _ _ Consumes-IsArray32 λ prev_hash _.
      Ends-bind _ _ Consumes-IsU64
        λ min_ntime _. Ends-bind _ _ Consumes-IsU32 λ nbits _. Ends-finish _ refl)

-- Bytes decode to a OpenStandardMiningChannel whose fields fit their types exactly if they are what the encoder writes
-- for it.
pub encode_open_standard_mining_channel_iff :
    (m : OpenStandardMiningChannel) (s : List ℕ)
    → IsOpenChannel m
    → AreBytes s
    → (encode_open_standard_mining_channel m ≡ ok s)
      ↔ (decode_open_standard_mining_channel s ≡ ok m)
encode_open_standard_mining_channel_iff m s v b = (
  decode-encode_open_standard_mining_channel m s v,
  encode-decode_open_standard_mining_channel s m b,
)
