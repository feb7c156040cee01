-- ===== src/Sv2/Setup/RoundTrip.antt =====
-- Each decoder of the handshake reads back what its encoder wrote, and accepts nothing else.
use dinero_sv.Base.{ℕ, ◌≡◌, refl, List, ok, and_then-eq-ok, ok_inj, ◌↔◌}
use dinero_sv.Wire.Bytes.{IsU8, IsU16, IsU32, AreBytes}
use dinero_sv.Wire.Accepts.{
  Reads-u8, Reads-u16, Reads-u32, Reads-str0_255, Accepts-bind, Accepts-finish, parse-Accepts,
}
use dinero_sv.Wire.Ends.{
  Consumes-IsU8, Consumes-IsU16, Consumes-IsU32, Consumes-str0_255, Ends-bind, Ends-finish,
  parse-Ends,
}
use dinero_sv.Messages.{SetupConnection, SetupConnectionSuccess, SetupConnectionError}
use dinero_sv.Sv2.{sv2_cursor, write_str0_255}
use dinero_sv.Sv2.Strings.{str_written, str_fits}
use dinero_sv.Sv2.Setup.{
  encode_setup_connection, decode_setup_connection, encode_setup_connection_success,
  decode_setup_connection_success, encode_setup_connection_error, decode_setup_connection_error,
}

pub record IsSetupConnection (m : SetupConnection) : Type 0 where
  pub protocol : IsU8 m.protocol
  pub min_version : IsU16 m.min_version
  pub max_version : IsU16 m.max_version
  pub flags : IsU32 m.flags

-- What `encode_setup_connection` writes for a message whose integers fit their widths,
-- `decode_setup_connection` reads back as that message.
pub decode-encode_setup_connection :
    (m : SetupConnection) (s : List ℕ)
    → IsSetupConnection m
    → encode_setup_connection m ≡ ok s
    → decode_setup_connection s ≡ ok m
unfolding decode_setup_connection encode_setup_connection
decode-encode_setup_connection m s v h =
    let (t, e, e') = and_then-eq-ok (write_str0_255 m.user_agent) _ h in
    rw (← ok_inj e', str_written m.user_agent t e)
      (parse-Accepts (
        Accepts-bind _ (Reads-u8 m.protocol) (
          Accepts-bind _ (Reads-u16 m.min_version v.min_version) (
            Accepts-bind _ (Reads-u16 m.max_version v.max_version) (
              Accepts-bind _ (Reads-u32 m.flags v.flags)
                (Accepts-bind _ (Reads-str0_255 m.user_agent) (Accepts-finish m)))))))

-- A byte string that `decode_setup_connection` accepts is the encoding of what it returns.
pub encode-decode_setup_connection :
    (s : List ℕ) (m : SetupConnection)
    → AreBytes s
    → decode_setup_connection s ≡ ok m
    → encode_setup_connection m ≡ ok s
unfolding decode_setup_connection encode_setup_connection
encode-decode_setup_connection s m hs h =
    parse-Ends {Q = λ m s. encode_setup_connection m ≡ ok s}
      (Ends-bind _ _ Consumes-IsU8 λ protocol _. Ends-bind _ _ Consumes-IsU16 λ min_version _.
        Ends-bind _ _ Consumes-IsU16 λ max_version _. Ends-bind _ _ Consumes-IsU32 λ flags _.
          Ends-bind _ _ Consumes-str0_255
            λ user_agent fits. Ends-finish _ (rw (str_fits user_agent fits)))
      s m hs h

pub decode-encode_setup_connection_success :
    (m : SetupConnectionSuccess)
    → IsU16 m.used_version
    → IsU32 m.flags
    → decode_setup_connection_success (encode_setup_connection_success m) ≡ ok m
unfolding decode_setup_connection_success encode_setup_connection_success
decode-encode_setup_connection_success m hu hf = parse-Accepts (
    Accepts-bind _ (Reads-u16 m.used_version hu)
      (Accepts-bind _ (Reads-u32 m.flags hf) (Accepts-finish m)))

pub encode-decode_setup_connection_success :
    (s : List ℕ) (m : SetupConnectionSuccess)
    → AreBytes s
    → decode_setup_connection_success s ≡ ok m
    → encode_setup_connection_success m ≡ s
unfolding decode_setup_connection_success encode_setup_connection_success
encode-decode_setup_connection_success = parse-Ends (
    Ends-bind _ _ Consumes-IsU16
      λ used_version _. Ends-bind _ _ Consumes-IsU32 λ flags _. Ends-finish _ refl)

pub decode-encode_setup_connection_error :
    (m : SetupConnectionError) (s : List ℕ)
    → IsU32 m.flags
    → encode_setup_connection_error m ≡ ok s
    → decode_setup_connection_error s ≡ ok m
unfolding decode_setup_connection_error encode_setup_connection_error
decode-encode_setup_connection_error m s v h =
    let (t, e, e') = and_then-eq-ok (write_str0_255 m.error_code) _ h in
    rw (← ok_inj e', str_written m.error_code t e)
      (parse-Accepts (
        Accepts-bind _ (Reads-u32 m.flags v)
          (Accepts-bind _ (Reads-str0_255 m.error_code) (Accepts-finish m))))

pub encode-decode_setup_connection_error :
    (s : List ℕ) (m : SetupConnectionError)
    → AreBytes s
    → decode_setup_connection_error s ≡ ok m
    → encode_setup_connection_error m ≡ ok s
unfolding decode_setup_connection_error encode_setup_connection_error
encode-decode_setup_connection_error = parse-Ends (
    Ends-bind _ _ Consumes-IsU32 λ flags _.
      Ends-bind _ _ Consumes-str0_255 λ code fits. Ends-finish _ (rw (str_fits code fits)))

-- Bytes decode to a SetupConnection whose fields fit their types exactly if they are what the encoder writes
-- for it.
pub encode_setup_connection_iff :
    (m : SetupConnection) (s : List ℕ)
    → IsSetupConnection m
    → AreBytes s
    → (encode_setup_connection m ≡ ok s) ↔ (decode_setup_connection s ≡ ok m)
encode_setup_connection_iff m s v b =
    (decode-encode_setup_connection m s v, encode-decode_setup_connection s m b)
