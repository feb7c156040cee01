-- ===== src/Jd/Template/RoundTrip.antt =====
-- The job declaration template round trips.
use dinero_sv.Base.{
  ℕ, ◌≡◌, refl, arith, List, ok, and_then-eq-ok, ok_inj, length, All, Bool, true, false, ◌↔◌,
}
use dinero_sv.Wire.Bytes.{IsU32, IsU64, IsArray32, AreBytes}
use dinero_sv.Wire.Accepts.{
  Reads-u8, Reads-u32, Reads-u64, Reads-array32, Accepts-bind, Accepts-finish, Accepts-lift,
  parse-Accepts,
}
use dinero_sv.Wire.Ends.{
  Consumes-IsU8, Consumes-IsU32, Consumes-IsU64, Consumes-IsArray32, Ends-bind, Ends-finish,
  Ends-lift, parse-Ends,
}
use dinero_sv.Wire.Limits.{
  check_cap, check_cap-le, check_cap_fits, Reads-blob, Consumes-blob, Reads-path, Consumes-path,
}
use dinero_sv.Jd.{jd_cursor}
use dinero_sv.Jd.Template.{
  NewTemplateDineroJd, bool_byte, byte_bool, encode_new_template_jd, decode_new_template_jd,
}

pub record IsTemplate (m : NewTemplateDineroJd) : Type 0 where
  pub template_id : IsU64 m.template_id
  pub version : IsU32 m.version
  pub prev_block_hash : IsArray32 m.prev_block_hash
  pub utreexo_root : IsArray32 m.utreexo_root
  pub timestamp : IsU64 m.timestamp
  pub difficulty : IsU32 m.difficulty
  pub merkle_path : All IsArray32 m.merkle_path

byte_bool-bool_byte : (b : Bool) → byte_bool (bool_byte b) ≡ ok b
unfolding byte_bool
byte_bool-bool_byte true = refl
byte_bool-bool_byte false = refl

bool_byte-byte_bool : (n : ℕ) {b : Bool} → byte_bool n ≡ ok b → bool_byte b ≡ n
unfolding byte_bool
bool_byte-byte_bool n {b} h = ground arith

-- What `encode_new_template_jd` writes for a template whose fields fit their widths,
-- `decode_new_template_jd` reads back as that template.
pub decode-encode_new_template_jd :
    (m : NewTemplateDineroJd) (s : List ℕ)
    → IsTemplate m
    → encode_new_template_jd m ≡ ok s
    → decode_new_template_jd s ≡ ok m
unfolding decode_new_template_jd encode_new_template_jd
decode-encode_new_template_jd m s v h =
    let (_, fit_p, h') = and_then-eq-ok (check_cap _ (length m.coinbase_prefix) _) _ h in
    let (_, fit_s, h'') = and_then-eq-ok (check_cap _ (length m.coinbase_suffix) _) _ h' in
    let (_, fit_m, e) = and_then-eq-ok (check_cap _ (length m.merkle_path) _) _ h'' in
    rw (← ok_inj e) (
      parse-Accepts (
        Accepts-bind _ (Reads-u64 m.template_id v.template_id) (
          Accepts-bind _ (Reads-u8 (bool_byte m.future_template)) (
            Accepts-lift _ (byte_bool-bool_byte m.future_template) (
              Accepts-bind _ (Reads-u32 m.version v.version) (
                Accepts-bind _ (Reads-array32 m.prev_block_hash v.prev_block_hash) (
                  Accepts-bind _ (Reads-array32 m.utreexo_root v.utreexo_root) (
                    Accepts-bind _ (Reads-u64 m.timestamp v.timestamp) (
                      Accepts-bind _ (Reads-u32 m.difficulty v.difficulty) (
                        Accepts-bind _
                          (Reads-blob _ _ m.coinbase_prefix (omega arith)
                            (check_cap-le _ _ _ fit_p))
                          (Accepts-bind _
                            (Reads-blob _ _ m.coinbase_suffix (omega arith)
                              (check_cap-le _ _ _ fit_s))
                            (Accepts-bind _
                              (Reads-path _ _ m.merkle_path (omega arith) v.merkle_path
                                (check_cap-le _ _ _ fit_m))
                              (Accepts-finish m)))))))))))))

-- A byte string that `decode_new_template_jd` accepts is the encoding of what it returns.
pub encode-decode_new_template_jd :
    (s : List ℕ) (m : NewTemplateDineroJd)
    → AreBytes s
    → decode_new_template_jd s ≡ ok m
    → encode_new_template_jd m ≡ ok s
unfolding decode_new_template_jd encode_new_template_jd
encode-decode_new_template_jd = parse-Ends (
    Ends-bind _ _ Consumes-IsU64 λ template_id _. Ends-bind _ _ Consumes-IsU8 λ byte _.
      Ends-lift _ (byte_bool byte) λ future is_bool. Ends-bind _ _ Consumes-IsU32 λ version _.
        Ends-bind _ _ Consumes-IsArray32 λ prev_block_hash _.
          Ends-bind _ _ Consumes-IsArray32 λ utreexo_root _.
            Ends-bind _ _ Consumes-IsU64 λ timestamp _. Ends-bind _ _ Consumes-IsU32 λ difficulty _.
              Ends-bind _ _ (Consumes-blob _ _) λ prefix fit_p.
                Ends-bind _ _ (Consumes-blob _ _) λ suffix fit_s.
                  Ends-bind _ _ (Consumes-path _ _) λ path fit_m. Ends-finish _ (
                    rw (
                      bool_byte-byte_bool byte is_bool,
                      check_cap_fits "coinbase_prefix" _ _ fit_p.0,
                      check_cap_fits "coinbase_suffix" _ _ fit_s.0,
                      check_cap_fits "merkle_path" _ _ fit_m,
                    )))

-- Bytes decode to a NewTemplateDineroJd whose fields fit their types exactly if they are what the encoder writes
-- for it.
pub encode_new_template_jd_iff :
    (m : NewTemplateDineroJd) (s : List ℕ)
    → IsTemplate m
    → AreBytes s
    → (encode_new_template_jd m ≡ ok s) ↔ (decode_new_template_jd s ≡ ok m)
encode_new_template_jd_iff m s v b =
    (decode-encode_new_template_jd m s v, encode-decode_new_template_jd s m b)
