-- ===== src/Sv2/Context/RoundTrip.antt =====
-- The coinbase context round trips, with and without the root of the state commitment.
use dinero_sv.Base.{
  ℕ, ◌≡◌, ◌≢◌, refl, sym, ap, subst, ◌∙◌, arith, List, [], ◌++◌, Option, none, some, ok,
  and_then-eq-ok, ok_inj, append-nil, length, length-append, All, ◌==◌, ==→eq, Bool-cases, inl, inr,
  ◌↔◌,
}
use dinero_sv.Wire.{finish, pure, ◌>>=◌, ◌>>◌, read_array32, Cursor, remaining}
use dinero_sv.Wire.Bytes.{IsU32, IsU64, IsArray32, AreBytes}
use dinero_sv.Wire.Accepts.{
  Reads-u32, Reads-u64, Reads-array32, Reads-bind, Reads-pure, Accepts, Accepts-bind,
  Accepts-finish, parse-Accepts, unread, length-unread,
}
use dinero_sv.Wire.Ends.{
  Consumes, Consumes-IsU32, Consumes-IsU64, Consumes-IsArray32, Consumes-steps, Steps-bind,
  Steps-pure, Ends-bind, Ends-finish, parse-Ends,
}
use dinero_sv.Wire.Limits.{
  check_cap, check_cap-le, check_cap_fits, Reads-blob, Consumes-blob, Reads-path, Consumes-path,
}
use dinero_sv.Messages.{CoinbaseContext}
use dinero_sv.Sv2.{Sv2CodecError, sv2_cursor}
use dinero_sv.Sv2.Context.{write_root, read_root, encode_coinbase_context, decode_coinbase_context}

abbrev pub IsRoot : Option (List ℕ) → Type 0
IsRoot none = Unit
IsRoot (some root) = IsArray32 root

pub record IsCoinbaseContext (m : CoinbaseContext) : Type 0 where
  pub channel_id : IsU32 m.channel_id
  pub merkle_path : All IsArray32 m.merkle_path
  pub height : IsU32 m.height
  pub coinbase_value_una : IsU64 m.coinbase_value_una
  pub state_commitment_root : IsRoot m.state_commitment_root

-- `read_root` with something left, and with nothing left.
read_root_more :
    (c : Cursor) → remaining c ≢ 0 → read_root c ≡ (read_array32 >>= λ root. pure (some root)) c
unfolding read_root
read_root_more c h = elim (Bool-cases (remaining c == 0)) [
  | inl e ↦ absurd (h (==→eq _ _ e))
  | inr e ↦ rw e
]

read_root_end : (c : Cursor) → remaining c ≡ 0 → read_root c ≡ ok (none, c)
unfolding read_root
read_root_end c h = rw h

-- The optional root stands at the end of the message.
Accepts-root :
    {M : Type 0} (f : Option (List ℕ) → M) (root : Option (List ℕ))
    → IsRoot root
    → Accepts {E = Sv2CodecError}
        (read_root >>= λ r. finish >> pure (f r))
        (write_root root ++ [])
        (f root)
unfolding ◌>>=◌
Accepts-root f none h = record {
  at = λ c e.
      rw (read_root_end c (omega (arith, length-unread c, ap length e)))
        ((Accepts-finish (f none)).at c e);
}
Accepts-root f (some root) h = record {
  at = λ c e.
      let (d, e', l) =
        (Reads-bind {E = Sv2CodecError} (λ x. pure (some x)) (Reads-array32 root h)
            (Reads-pure (some root))).at
          c [] (e ∙ sym (append-nil _)) in
      rw (read_root_more c (omega (arith, length-unread c, ap length e, length-append root [])), e')
        ((Accepts-finish (f (some root))).at d l);
}

Consumes-root : Consumes read_root write_root (λ _. Unit {0})
Consumes-root = record {
  at = λ c a d hc h. elim (Bool-cases (remaining c == 0)) [
    | inl e ↦ (tt, nothing c a d (read_root_end c (==→eq _ _ e)) h)
    | inr e ↦ some_root.at c a d hc (sym (read_root_more c (λ z. cc (e, ap (λ n. n == 0) z))) ∙ h)
  ];
}
  where
    nothing :
        (c : Cursor) (a : Option (List ℕ)) (d : Cursor)
        → read_root c ≡ ok (none, c)
        → read_root c ≡ ok (a, d)
        → unread c ≡ write_root a ++ unread d
    nothing c a d e h =
        subst (λ p. unread c ≡ write_root p.0 ++ unread p.1) (ok_inj (sym e ∙ h)) refl

    some_root :
        Consumes {E = Sv2CodecError}
          (read_array32 >>= λ root. pure (some root))
          write_root
          (λ _. Unit {0})
    some_root =
        Consumes-steps
          (Steps-bind _ _ Consumes-IsArray32 λ root _. Steps-pure _ (tt, append-nil root))

-- What `encode_coinbase_context` writes for a context whose fields fit their widths,
-- `decode_coinbase_context` reads back as that context, with or without a state commitment root.
pub decode-encode_coinbase_context :
    (m : CoinbaseContext) (s : List ℕ)
    → IsCoinbaseContext m
    → encode_coinbase_context m ≡ ok s
    → decode_coinbase_context s ≡ ok m
unfolding decode_coinbase_context encode_coinbase_context
decode-encode_coinbase_context m s v h =
    let (_, fit_p, h') = and_then-eq-ok (check_cap _ (length m.coinbase_prefix) _) _ h in
    let (_, fit_s, h'') = and_then-eq-ok (check_cap _ (length m.coinbase_suffix) _) _ h' in
    let (_, fit_m, e) = and_then-eq-ok (check_cap _ (length m.merkle_path) _) _ h'' in
    rw (← ok_inj e) (
      parse-Accepts (
        Accepts-bind _ (Reads-u32 m.channel_id v.channel_id) (
          Accepts-bind _ (Reads-blob _ _ m.coinbase_prefix (omega arith) (check_cap-le _ _ _ fit_p))
            (Accepts-bind _
              (Reads-blob _ _ m.coinbase_suffix (omega arith) (check_cap-le _ _ _ fit_s))
              (Accepts-bind _
                (Reads-path _ _ m.merkle_path (omega arith) v.merkle_path
                  (check_cap-le _ _ _ fit_m))
                (Accepts-bind _ (Reads-u32 m.height v.height) (
                  Accepts-bind _ (Reads-u64 m.coinbase_value_una v.coinbase_value_una) (
                    Accepts-root (λ r. record m { state_commitment_root = r })
                      m.state_commitment_root v.state_commitment_root))))))))

-- A byte string that `decode_coinbase_context` accepts is the encoding of what it returns.
pub encode-decode_coinbase_context :
    (s : List ℕ) (m : CoinbaseContext)
    → AreBytes s
    → decode_coinbase_context s ≡ ok m
    → encode_coinbase_context m ≡ ok s
unfolding decode_coinbase_context encode_coinbase_context
encode-decode_coinbase_context = parse-Ends (
    Ends-bind _ _ Consumes-IsU32 λ channel_id _. Ends-bind _ _ (Consumes-blob _ _) λ prefix fit_p.
      Ends-bind _ _ (Consumes-blob _ _) λ suffix fit_s.
        Ends-bind _ _ (Consumes-path _ _) λ path fit_m. Ends-bind _ _ Consumes-IsU32 λ height _.
          Ends-bind _ _ Consumes-IsU64 λ value _. Ends-bind _ _ Consumes-root λ root _.
            Ends-finish _ (
              rw (
                check_cap_fits "coinbase_prefix" _ _ fit_p.0,
                check_cap_fits "coinbase_suffix" _ _ fit_s.0,
                check_cap_fits "merkle_path" _ _ fit_m,
              )))

-- Bytes decode to a CoinbaseContext whose fields fit their types exactly if they are what the encoder writes
-- for it.
pub encode_coinbase_context_iff :
    (m : CoinbaseContext) (s : List ℕ)
    → IsCoinbaseContext m
    → AreBytes s
    → (encode_coinbase_context m ≡ ok s) ↔ (decode_coinbase_context s ≡ ok m)
encode_coinbase_context_iff m s v b =
    (decode-encode_coinbase_context m s v, encode-decode_coinbase_context s m b)
