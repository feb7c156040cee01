-- ===== src/Fixed/Template/RoundTrip.antt =====
-- The template round trips.
use dinero_sv.Base.{
  ℕ, ◌≡◌, refl, ◌∙◌, arith, List, [], ◌∷◌, ok, length, length-concat, Bool, true, false, ◌↔◌, sym,
  ap,
}
use dinero_sv.Wire.Bytes.{IsU32, IsU64, IsArray32, AreBytes, to_le, length-to_le}
use dinero_sv.Wire.Accepts.{
  Reads-u8, Reads-u32, Reads-u64, Reads-array32, Accepts-bind, Accepts-finish, Accepts-lift,
  parse-Accepts,
}
use dinero_sv.Wire.Ends.{
  Consumes-IsU8, Consumes-IsU32, Consumes-IsU64, Consumes-IsArray32, Ends-bind, Ends-finish,
  Ends-lift, parse-Ends,
}
use dinero_sv.Messages.{NewTemplateDinero}
use dinero_sv.Fixed.{codec_cursor, parse_frame_fits, parse_frame-eq-ok}
use dinero_sv.Fixed.Template.{bool_byte, byte_bool, encode_new_template, decode_new_template}

-- The fields of a template fit the widths that the source gives them.
pub record IsTemplate (m : NewTemplateDinero) : Type 0 where
  pub template_id : IsU64 m.template_id
  pub version : IsU32 m.version
  pub prev_block_hash : IsArray32 m.prev_block_hash
  pub merkle_root : IsArray32 m.merkle_root
  pub utreexo_root : IsArray32 m.utreexo_root
  pub timestamp : IsU64 m.timestamp
  pub difficulty : IsU32 m.difficulty
  pub coinbase_outputs_commitment : IsArray32 m.coinbase_outputs_commitment

byte_bool-bool_byte : (b : Bool) → byte_bool (bool_byte b) ≡ ok b
unfolding byte_bool
byte_bool-bool_byte true = refl
byte_bool-bool_byte false = refl

bool_byte-byte_bool : (n : ℕ) {b : Bool} → byte_bool n ≡ ok b → bool_byte b ≡ n
unfolding byte_bool
bool_byte-byte_bool n {b} h = ground arith

length-encode_new_template :
    (m : NewTemplateDinero) → IsTemplate m → length (encode_new_template m) ≡ 153
unfolding encode_new_template
length-encode_new_template m v =
    length-concat (
      to_le 8 m.template_id
      ∷ (bool_byte m.future_template ∷ [])
      ∷ to_le 4 m.version
      ∷ m.prev_block_hash
      ∷ m.merkle_root
      ∷ m.utreexo_root
      ∷ to_le 8 m.timestamp
      ∷ to_le 4 m.difficulty
      ∷ m.coinbase_outputs_commitment
      ∷ [])
    ∙ omega (
      arith,
      length-to_le 8 m.template_id,
      length-to_le 4 m.version,
      length-to_le 8 m.timestamp,
      length-to_le 4 m.difficulty,
      v.prev_block_hash,
      v.merkle_root,
      v.utreexo_root,
      v.coinbase_outputs_commitment,
    )

-- The frame of a template whose fields fit their widths decodes to that template.
pub decode-encode_new_template :
    (m : NewTemplateDinero) → IsTemplate m → decode_new_template (encode_new_template m) ≡ ok m
unfolding decode_new_template encode_new_template
decode-encode_new_template m v =
    parse_frame_fits 153 _ (encode_new_template m) (length-encode_new_template m v)
    ∙ parse-Accepts (
        Accepts-bind _ (Reads-u64 m.template_id v.template_id) (
          Accepts-bind _ (Reads-u8 (bool_byte m.future_template)) (
            Accepts-lift _ (byte_bool-bool_byte m.future_template) (
              Accepts-bind _ (Reads-u32 m.version v.version) (
                Accepts-bind _ (Reads-array32 m.prev_block_hash v.prev_block_hash) (
                  Accepts-bind _ (Reads-array32 m.merkle_root v.merkle_root) (
                    Accepts-bind _ (Reads-array32 m.utreexo_root v.utreexo_root) (
                      Accepts-bind _ (Reads-u64 m.timestamp v.timestamp) (
                        Accepts-bind _ (Reads-u32 m.difficulty v.difficulty) (
                          Accepts-bind _
                            (Reads-array32 m.coinbase_outputs_commitment
                              v.coinbase_outputs_commitment)
                            (Accepts-finish m)))))))))))

-- A frame that `decode_new_template` accepts has 153 bytes and is the frame of what it returns.
pub encode-decode_new_template :
    (s : List ℕ) (m : NewTemplateDinero)
    → AreBytes s
    → decode_new_template s ≡ ok m
    → (length s ≡ 153) × (encode_new_template m ≡ s)
unfolding decode_new_template encode_new_template
encode-decode_new_template s m hs h =
    let (len, e) = parse_frame-eq-ok 153 _ s h in
    (
      len,
      parse-Ends {Q = λ t b. encode_new_template t ≡ b}
          (Ends-bind _ _ Consumes-IsU64 λ template_id _. Ends-bind _ _ Consumes-IsU8 λ byte _.
            Ends-lift _ (byte_bool byte) λ future is_bool. Ends-bind _ _ Consumes-IsU32 λ version _.
              Ends-bind _ _ Consumes-IsArray32 λ prev_block_hash _.
                Ends-bind _ _ Consumes-IsArray32 λ merkle_root _.
                  Ends-bind _ _ Consumes-IsArray32 λ utreexo_root _.
                    Ends-bind _ _ Consumes-IsU64 λ timestamp _.
                      Ends-bind _ _ Consumes-IsU32 λ difficulty _.
                        Ends-bind _ _ Consumes-IsArray32
                          λ commitment _. Ends-finish _ (rw (bool_byte-byte_bool byte is_bool)))
          s m hs e,
    )

-- Bytes decode to a NewTemplateDinero whose fields fit their types exactly if they are what the encoder writes
-- for it.
pub encode_new_template_iff :
    (m : NewTemplateDinero) (s : List ℕ)
    → IsTemplate m
    → AreBytes s
    → (encode_new_template m ≡ s) ↔ (decode_new_template s ≡ ok m)
encode_new_template_iff m s v b = (
  λ e. ap decode_new_template (sym e) ∙ decode-encode_new_template m v,
  λ d. (encode-decode_new_template s m b d).1,
)
