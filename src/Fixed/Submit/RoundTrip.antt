-- ===== src/Fixed/Submit/RoundTrip.antt =====
-- The share round trips.
use dinero_sv.Base.{
  ℕ, ◌≡◌, refl, ◌∙◌, arith, List, [], ◌∷◌, ok, length, length-concat, ◌↔◌, sym, ap,
}
use dinero_sv.Wire.Bytes.{IsU32, IsU64, AreBytes, to_le, length-to_le}
use dinero_sv.Wire.Accepts.{Reads-u32, Reads-u64, Accepts-bind, Accepts-finish, parse-Accepts}
use dinero_sv.Wire.Ends.{Consumes-IsU32, Consumes-IsU64, Ends-bind, Ends-finish, parse-Ends}
use dinero_sv.Messages.{SubmitSharesDinero}
use dinero_sv.Fixed.{codec_cursor, parse_frame_fits, parse_frame-eq-ok}
use dinero_sv.Fixed.Submit.{encode_submit_shares, decode_submit_shares}

-- The fields of a share fit the widths that the source gives them.
pub record IsShare (m : SubmitSharesDinero) : Type 0 where
  pub channel_id : IsU32 m.channel_id
  pub sequence_number : IsU32 m.sequence_number
  pub job_id : IsU32 m.job_id
  pub nonce : IsU32 m.nonce
  pub timestamp : IsU64 m.timestamp
  pub version : IsU32 m.version

length-encode_submit_shares : (m : SubmitSharesDinero) → length (encode_submit_shares m) ≡ 28
unfolding encode_submit_shares
length-encode_submit_shares m =
    length-concat (
      to_le 4 m.channel_id
      ∷ to_le 4 m.sequence_number
      ∷ to_le 4 m.job_id
      ∷ to_le 4 m.nonce
      ∷ to_le 8 m.timestamp
      ∷ to_le 4 m.version
      ∷ [])
    ∙ omega (
      arith,
      length-to_le 4 m.channel_id,
      length-to_le 4 m.sequence_number,
      length-to_le 4 m.job_id,
      length-to_le 4 m.nonce,
      length-to_le 8 m.timestamp,
      length-to_le 4 m.version,
    )

-- The frame of a share whose fields fit their widths decodes to that share.
pub decode-encode_submit_shares :
    (m : SubmitSharesDinero) → IsShare m → decode_submit_shares (encode_submit_shares m) ≡ ok m
unfolding decode_submit_shares encode_submit_shares
decode-encode_submit_shares m v =
    parse_frame_fits 28 _ (encode_submit_shares m) (length-encode_submit_shares m)
    ∙ parse-Accepts (
        Accepts-bind _ (Reads-u32 m.channel_id v.channel_id) (
          Accepts-bind _ (Reads-u32 m.sequence_number v.sequence_number) (
            Accepts-bind _ (Reads-u32 m.job_id v.job_id) (
              Accepts-bind _ (Reads-u32 m.nonce v.nonce) (
                Accepts-bind _ (Reads-u64 m.timestamp v.timestamp)
                  (Accepts-bind _ (Reads-u32 m.version v.version) (Accepts-finish m)))))))

-- A frame that `decode_submit_shares` accepts has 28 bytes and is the frame of what it returns.
pub encode-decode_submit_shares :
    (s : List ℕ) (m : SubmitSharesDinero)
    → AreBytes s
    → decode_submit_shares s ≡ ok m
    → (length s ≡ 28) × (encode_submit_shares m ≡ s)
unfolding decode_submit_shares encode_submit_shares
encode-decode_submit_shares s m hs h =
    let (len, e) = parse_frame-eq-ok 28 _ s h in
    (
      len,
      parse-Ends {Q = λ t b. encode_submit_shares t ≡ b}
          (Ends-bind _ _ Consumes-IsU32 λ channel_id _.
            Ends-bind _ _ Consumes-IsU32 λ sequence_number _.
              Ends-bind _ _ Consumes-IsU32 λ job_id _. Ends-bind _ _ Consumes-IsU32 λ nonce _.
                Ends-bind _ _ Consumes-IsU64
                  λ timestamp _. Ends-bind _ _ Consumes-IsU32 λ version _. Ends-finish _ refl)
          s m hs e,
    )

-- Bytes decode to a SubmitSharesDinero whose fields fit their types exactly if they are what the encoder writes
-- for it.
pub encode_submit_shares_iff :
    (m : SubmitSharesDinero) (s : List ℕ)
    → IsShare m
    → AreBytes s
    → (encode_submit_shares m ≡ s) ↔ (decode_submit_shares s ≡ ok m)
encode_submit_shares_iff m s v b = (
  λ e. ap decode_submit_shares (sym e) ∙ decode-encode_submit_shares m v,
  λ d. (encode-decode_submit_shares s m b d).1,
)
