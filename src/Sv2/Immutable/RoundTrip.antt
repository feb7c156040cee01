-- ===== src/Sv2/Immutable/RoundTrip.antt =====
-- The immutable coinbase round trips.
use dinero_sv.Base.{
  ℕ, ◌≡◌, ◌≤◌, refl, arith, List, ok, and_then-eq-ok, ok_inj, length, All, ◌==◌, ==→eq, Bool-cases,
  inl, inr, ◌↔◌,
}
use dinero_sv.Wire.Bytes.{IsU64, AreBytes}
use dinero_sv.Wire.Accepts.{
  Reads-u8, Reads-u16, Reads-u64, Reads-many, Accepts-bind, Accepts-finish, Accepts-lift,
  parse-Accepts,
}
use dinero_sv.Wire.Ends.{
  Consumes-IsU8, Consumes-IsU16, Consumes-IsU64, Consumes-many, Ends-bind, Ends-finish, Ends-lift,
  parse-Ends,
}
use dinero_sv.Wire.Limits.{check_cap, check_cap-le, check_cap_fits, Reads-blob, Consumes-blob}
use dinero_sv.Messages.{ImmutableCoinbase}
use dinero_sv.Sv2.{sv2_cursor, max_extended_outputs}
use dinero_sv.Sv2.Context.{encode_coinbase_context, decode_coinbase_context}
use dinero_sv.Sv2.Context.RoundTrip.{
  IsCoinbaseContext, decode-encode_coinbase_context, encode-decode_coinbase_context,
}
use dinero_sv.Sv2.Shares.{write_output, check_scripts}
use dinero_sv.Sv2.Shares.RoundTrip.{
  IsOutput, check_scripts-All, check_scripts_fits, Reads-output, Consumes-IsOutput,
}
use dinero_sv.Sv2.Immutable.{check_version, encode_immutable_coinbase, decode_immutable_coinbase}

pub record IsImmutableCoinbase (m : ImmutableCoinbase) : Type 0 where
  pub template_id : IsU64 m.template_id
  pub context : IsCoinbaseContext m.context
  pub values : All (λ o. IsU64 o.value_una) m.outputs

-- What `encode_immutable_coinbase` writes for a message whose fields fit their widths,
-- `decode_immutable_coinbase` reads back as that message, with its nested context.
pub decode-encode_immutable_coinbase :
    (m : ImmutableCoinbase) (s : List ℕ)
    → IsImmutableCoinbase m
    → encode_immutable_coinbase m ≡ ok s
    → decode_immutable_coinbase s ≡ ok m
unfolding decode_immutable_coinbase encode_immutable_coinbase
decode-encode_immutable_coinbase m s v h =
    let (context, made, h₁) = and_then-eq-ok (encode_coinbase_context m.context) _ h in
    let (_, fit_c, h₂) = and_then-eq-ok (check_cap _ (length context) _) _ h₁ in
    let (_, fit_n, h₃) = and_then-eq-ok (check_cap _ (length m.outputs) _) _ h₂ in
    let (_, fit_s, e) = and_then-eq-ok (check_scripts _ m.outputs) _ h₃ in
    let few : length m.outputs ≤ max_extended_outputs = check_cap-le _ _ _ fit_n in
    rw (← ok_inj e) (
      parse-Accepts (
        Accepts-bind _ (Reads-u8 1) (
          Accepts-lift _ {a = tt} refl (
            Accepts-bind _ (Reads-u64 m.template_id v.template_id) (
              Accepts-bind _ (Reads-blob _ _ context (omega arith) (check_cap-le _ _ _ fit_c)) (
                Accepts-lift _ (decode-encode_coinbase_context m.context context v.context made) (
                  Accepts-bind _ (Reads-u16 (length m.outputs) (omega arith)) (
                    Accepts-lift _ (check_cap_fits _ _ _ few) (
                      Accepts-bind _
                        (Reads-many write_output IsOutput m.outputs (Reads-output _)
                          (check_scripts-All _ m.outputs v.values fit_s))
                        (Accepts-finish m))))))))))

check_version_one : (n : ℕ) {u : Unit {0}} → check_version n ≡ ok u → n ≡ 1
unfolding check_version
check_version_one n h = elim (Bool-cases (n == 1)) [ inl e ↦ ==→eq n 1 e | inr e ↦ cc (rw e at h) ]

-- A byte string that `decode_immutable_coinbase` accepts is the encoding of what it returns.
pub encode-decode_immutable_coinbase :
    (s : List ℕ) (m : ImmutableCoinbase)
    → AreBytes s
    → decode_immutable_coinbase s ≡ ok m
    → encode_immutable_coinbase m ≡ ok s
unfolding decode_immutable_coinbase encode_immutable_coinbase
encode-decode_immutable_coinbase = parse-Ends (
    Ends-bind _ _ Consumes-IsU8 λ version _. Ends-lift _ (check_version version) λ _ one.
      Ends-bind _ _ Consumes-IsU64 λ template_id _. Ends-bind _ _ (Consumes-blob _ _) λ bytes fit_c.
        Ends-lift _ (decode_coinbase_context bytes) λ context read.
          Ends-bind _ _ Consumes-IsU16 λ n _. Ends-lift _ (check_cap _ n _) λ _ fit_n.
            Ends-bind _ _ (Consumes-many write_output IsOutput (Consumes-IsOutput _) n) λ os hos.
              Ends-finish _ (
                rw (
                  encode-decode_coinbase_context bytes context fit_c.1 read,
                  check_cap_fits "immutable_context" (length bytes) _ fit_c.0,
                  hos.1,
                  check_cap_fits "immutable_outputs" n _ (check_cap-le _ _ _ fit_n),
                  check_scripts_fits "immutable_script" os hos.0,
                  check_version_one version one,
                )))

-- Bytes decode to a ImmutableCoinbase whose fields fit their types exactly if they are what the encoder writes
-- for it.
encode_immutable_coinbase_iff :
    (m : ImmutableCoinbase) (s : List ℕ)
    → IsImmutableCoinbase m
    → AreBytes s
    → (encode_immutable_coinbase m ≡ ok s) ↔ (decode_immutable_coinbase s ≡ ok m)
encode_immutable_coinbase_iff m s v b =
    (decode-encode_immutable_coinbase m s v, encode-decode_immutable_coinbase s m b)
