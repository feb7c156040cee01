-- ===== src/Sv2/Shares/RoundTrip.antt =====
-- The share messages round trip.
use dinero_sv.Base.{
  ℕ, ◌≡◌, ◌≤◌, refl, arith, String, List, [], ◌∷◌, ok, and_then-eq-ok, ok_inj, length, All, ◌↔◌,
}
use dinero_sv.Wire.Bytes.{IsU32, IsU64, AreBytes}
use dinero_sv.Wire.Accepts.{
  Reads, Reads-u16, Reads-u32, Reads-u64, Reads-many, Reads-str0_255, Reads-bind, Reads-pure,
  Accepts-bind, Accepts-finish, Accepts-lift, parse-Accepts,
}
use dinero_sv.Wire.Ends.{
  Consumes, Consumes-IsU16, Consumes-IsU32, Consumes-IsU64, Consumes-many, Consumes-str0_255,
  Consumes-steps, Steps-bind, Steps-pure, Ends-bind, Ends-finish, Ends-lift, parse-Ends,
}
use dinero_sv.Wire.Limits.{check_cap, check_cap-le, check_cap_fits, Reads-blob, Consumes-blob}
use dinero_sv.Messages.{
  CoinbaseOutputWire, SubmitSharesExtendedDinero, SubmitSharesSuccess, SubmitSharesError,
}
use dinero_sv.Sv2.{sv2_cursor, write_str0_255, max_extended_outputs, max_scriptpubkey_bytes}
use dinero_sv.Sv2.Strings.{str_written, str_fits}
use dinero_sv.Sv2.Shares.{
  write_output, read_output, check_scripts, encode_submit_shares_extended,
  decode_submit_shares_extended, encode_submit_shares_success, decode_submit_shares_success,
  encode_submit_shares_error, decode_submit_shares_error,
}

-- An output whose value is a `u64` and whose script is within the cap.
abbrev pub IsOutput : CoinbaseOutputWire → Type 0
IsOutput o = IsU64 o.value_una × (length o.script_pubkey ≤ max_scriptpubkey_bytes)

pub check_scripts-All :
    (field : String) (os : List CoinbaseOutputWire) {u : Unit {0}}
    → All (λ o. IsU64 o.value_una) os
    → check_scripts field os ≡ ok u
    → All IsOutput os
unfolding check_scripts
check_scripts-All field [] hv h = tt
check_scripts-All field (o ∷ os) hv h =
    let (_, fits, h') = and_then-eq-ok (check_cap field (length o.script_pubkey) _) _ h in
    ((hv.0, check_cap-le _ _ _ fits), check_scripts-All field os hv.1 h')

pub check_scripts_fits :
    (field : String) (os : List CoinbaseOutputWire)
    → All IsOutput os
    → check_scripts field os ≡ ok tt
unfolding check_scripts
check_scripts_fits field [] h = refl
check_scripts_fits field (o ∷ os) h =
    rw (check_cap_fits field (length o.script_pubkey) max_scriptpubkey_bytes h.0.1)
      (check_scripts_fits field os h.1)

pub Reads-output :
    (field : String) (o : CoinbaseOutputWire)
    → IsOutput o
    → Reads (read_output field) (write_output o) o
unfolding read_output
Reads-output field o h =
    Reads-bind _ (Reads-u64 o.value_una h.0)
      (Reads-bind _ (Reads-blob _ _ o.script_pubkey (omega arith) h.1) (Reads-pure o))

pub Consumes-IsOutput : (field : String) → Consumes (read_output field) write_output IsOutput
unfolding read_output
Consumes-IsOutput field = Consumes-steps (
    Steps-bind _ _ Consumes-IsU64
      λ value hv. Steps-bind _ _ (Consumes-blob _ _) λ script hs. Steps-pure _ ((hv, hs.0), refl))

pub record IsSubmitSharesExtended (m : SubmitSharesExtendedDinero) : Type 0 where
  pub channel_id : IsU32 m.channel_id
  pub sequence_number : IsU32 m.sequence_number
  pub job_id : IsU32 m.job_id
  pub nonce : IsU32 m.nonce
  pub timestamp : IsU64 m.timestamp
  pub version : IsU32 m.version
  pub values : All (λ o. IsU64 o.value_una) m.coinbase_outputs

-- What `encode_submit_shares_extended` writes for a share whose integers fit their widths,
-- `decode_submit_shares_extended` reads back as that share, with all its outputs.
pub decode-encode_submit_shares_extended :
    (m : SubmitSharesExtendedDinero) (s : List ℕ)
    → IsSubmitSharesExtended m
    → encode_submit_shares_extended m ≡ ok s
    → decode_submit_shares_extended s ≡ ok m
unfolding decode_submit_shares_extended encode_submit_shares_extended
decode-encode_submit_shares_extended m s v h =
    let (_, fit_n, h') = and_then-eq-ok (check_cap _ (length m.coinbase_outputs) _) _ h in
    let (_, fit_s, e) = and_then-eq-ok (check_scripts _ m.coinbase_outputs) _ h' in
    let few : length m.coinbase_outputs ≤ max_extended_outputs = check_cap-le _ _ _ fit_n in
    rw (← ok_inj e) (
      parse-Accepts (
        Accepts-bind _ (Reads-u32 m.channel_id v.channel_id) (
          Accepts-bind _ (Reads-u32 m.sequence_number v.sequence_number) (
            Accepts-bind _ (Reads-u32 m.job_id v.job_id) (
              Accepts-bind _ (Reads-u32 m.nonce v.nonce) (
                Accepts-bind _ (Reads-u64 m.timestamp v.timestamp) (
                  Accepts-bind _ (Reads-u32 m.version v.version) (
                    Accepts-bind _ (Reads-u16 (length m.coinbase_outputs) (omega arith)) (
                      Accepts-lift _ (check_cap_fits _ _ _ few) (
                        Accepts-bind _
                          (Reads-many write_output IsOutput m.coinbase_outputs (Reads-output _)
                            (check_scripts-All _ m.coinbase_outputs v.values fit_s))
                          (Accepts-finish m)))))))))))

-- A byte string that `decode_submit_shares_extended` accepts is the encoding of what it returns.
pub encode-decode_submit_shares_extended :
    (s : List ℕ) (m : SubmitSharesExtendedDinero)
    → AreBytes s
    → decode_submit_shares_extended s ≡ ok m
    → encode_submit_shares_extended m ≡ ok s
unfolding decode_submit_shares_extended encode_submit_shares_extended
encode-decode_submit_shares_extended = parse-Ends (
    Ends-bind _ _ Consumes-IsU32 λ channel_id _. Ends-bind _ _ Consumes-IsU32 λ sequence_number _.
      Ends-bind _ _ Consumes-IsU32 λ job_id _. Ends-bind _ _ Consumes-IsU32 λ nonce _.
        Ends-bind _ _ Consumes-IsU64 λ timestamp _. Ends-bind _ _ Consumes-IsU32 λ version _.
          Ends-bind _ _ Consumes-IsU16 λ n _. Ends-lift _ (check_cap _ n _) λ _ fit_n.
            Ends-bind _ _ (Consumes-many write_output IsOutput (Consumes-IsOutput _) n) λ os hos.
              Ends-finish _ (
                rw (
                  hos.1,
                  check_cap_fits "coinbase_outputs" n _ (check_cap-le _ _ _ fit_n),
                  check_scripts_fits "script_pubkey" os hos.0,
                )))

pub decode-encode_submit_shares_success :
    (m : SubmitSharesSuccess)
    → IsU32 m.channel_id
    → IsU32 m.last_sequence_number
    → IsU32 m.new_submits_accepted_count
    → IsU64 m.new_shares_sum
    → decode_submit_shares_success (encode_submit_shares_success m) ≡ ok m
unfolding decode_submit_shares_success encode_submit_shares_success
decode-encode_submit_shares_success m hc hl hn hs = parse-Accepts (
    Accepts-bind _ (Reads-u32 m.channel_id hc) (
      Accepts-bind _ (Reads-u32 m.last_sequence_number hl) (
        Accepts-bind _ (Reads-u32 m.new_submits_accepted_count hn)
          (Accepts-bind _ (Reads-u64 m.new_shares_sum hs) (Accepts-finish m)))))

pub encode-decode_submit_shares_success :
    (s : List ℕ) (m : SubmitSharesSuccess)
    → AreBytes s
    → decode_submit_shares_success s ≡ ok m
    → encode_submit_shares_success m ≡ s
unfolding decode_submit_shares_success encode_submit_shares_success
encode-decode_submit_shares_success = parse-Ends (
    Ends-bind _ _ Consumes-IsU32 λ channel_id _. Ends-bind _ _ Consumes-IsU32 λ last _.
      Ends-bind _ _ Consumes-IsU32
        λ count _. Ends-bind _ _ Consumes-IsU64 λ sum _. Ends-finish _ refl)

pub decode-encode_submit_shares_error :
    (m : SubmitSharesError) (s : List ℕ)
    → IsU32 m.channel_id
    → IsU32 m.sequence_number
    → encode_submit_shares_error m ≡ ok s
    → decode_submit_shares_error s ≡ ok m
unfolding decode_submit_shares_error encode_submit_shares_error
decode-encode_submit_shares_error m s hc hn h =
    let (t, e, e') = and_then-eq-ok (write_str0_255 m.error_code) _ h in
    rw (← ok_inj e', str_written m.error_code t e)
      (parse-Accepts (
        Accepts-bind _ (Reads-u32 m.channel_id hc) (
          Accepts-bind _ (Reads-u32 m.sequence_number hn)
            (Accepts-bind _ (Reads-str0_255 m.error_code) (Accepts-finish m)))))

pub encode-decode_submit_shares_error :
    (s : List ℕ) (m : SubmitSharesError)
    → AreBytes s
    → decode_submit_shares_error s ≡ ok m
    → encode_submit_shares_error m ≡ ok s
unfolding decode_submit_shares_error encode_submit_shares_error
encode-decode_submit_shares_error = parse-Ends (
    Ends-bind _ _ Consumes-IsU32 λ channel_id _. Ends-bind _ _ Consumes-IsU32 λ sequence_number _.
      Ends-bind _ _ Consumes-str0_255 λ code fits. Ends-finish _ (rw (str_fits code fits)))

-- Bytes decode to a SubmitSharesExtendedDinero whose fields fit their types exactly if they are what the encoder writes
-- for it.
pub encode_submit_shares_extended_iff :
    (m : SubmitSharesExtendedDinero) (s : List ℕ)
    → IsSubmitSharesExtended m
    → AreBytes s
    → (encode_submit_shares_extended m ≡ ok s) ↔ (decode_submit_shares_extended s ≡ ok m)
encode_submit_shares_extended_iff m s v b =
    (decode-encode_submit_shares_extended m s v, encode-decode_submit_shares_extended s m b)
