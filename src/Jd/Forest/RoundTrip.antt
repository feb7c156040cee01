-- ===== src/Jd/Forest/RoundTrip.antt =====
-- The accumulator state round trips.
use dinero_sv.Base.{ℕ, ◌≡◌, arith, List, ok, and_then-eq-ok, ok_inj, length, All, ◌↔◌}
use dinero_sv.Wire.Bytes.{IsU64, IsArray32, AreBytes}
use dinero_sv.Wire.Accepts.{Reads-u64, Accepts-bind, Accepts-finish, parse-Accepts}
use dinero_sv.Wire.Ends.{Consumes-IsU64, Ends-bind, Ends-finish, parse-Ends}
use dinero_sv.Wire.Limits.{check_cap, check_cap-le, check_cap_fits, Reads-path, Consumes-path}
use dinero_sv.Jd.{jd_cursor}
use dinero_sv.Utreexo.{UtreexoAccumulatorState}
use dinero_sv.Jd.Forest.{encode_utreexo_accumulator_state, decode_utreexo_accumulator_state}

-- What `encode_utreexo_accumulator_state` writes for a state of 32-byte roots and a `u64` count of
-- leaves, `decode_utreexo_accumulator_state` reads back as that state.
pub decode-encode_utreexo_accumulator_state :
    (m : UtreexoAccumulatorState) (s : List ℕ)
    → All IsArray32 m.forest_roots
    → IsU64 m.num_leaves
    → encode_utreexo_accumulator_state m ≡ ok s
    → decode_utreexo_accumulator_state s ≡ ok m
unfolding decode_utreexo_accumulator_state encode_utreexo_accumulator_state
decode-encode_utreexo_accumulator_state m s hr hn h =
    let (_, fit, e) = and_then-eq-ok (check_cap _ (length m.forest_roots) _) _ h in
    rw (← ok_inj e) (
      parse-Accepts (
        Accepts-bind _ (Reads-path _ _ m.forest_roots (omega arith) hr (check_cap-le _ _ _ fit))
          (Accepts-bind _ (Reads-u64 m.num_leaves hn) (Accepts-finish m))))

-- A byte string that `decode_utreexo_accumulator_state` accepts is the encoding of what it returns.
pub encode-decode_utreexo_accumulator_state :
    (s : List ℕ) (m : UtreexoAccumulatorState)
    → AreBytes s
    → decode_utreexo_accumulator_state s ≡ ok m
    → encode_utreexo_accumulator_state m ≡ ok s
unfolding decode_utreexo_accumulator_state encode_utreexo_accumulator_state
encode-decode_utreexo_accumulator_state = parse-Ends (
    Ends-bind _ _ (Consumes-path _ _) λ roots fit.
      Ends-bind _ _ Consumes-IsU64
        λ n _. Ends-finish _ (rw (check_cap_fits "forest_roots" (length roots) _ fit)))

-- Bytes decode to a UtreexoAccumulatorState whose fields fit their types exactly if they are what the encoder writes
-- for it.
pub encode_utreexo_accumulator_state_iff :
    (m : UtreexoAccumulatorState) (s : List ℕ)
    → All IsArray32 m.forest_roots
    → IsU64 m.num_leaves
    → AreBytes s
    → (encode_utreexo_accumulator_state m ≡ ok s) ↔ (decode_utreexo_accumulator_state s ≡ ok m)
encode_utreexo_accumulator_state_iff m s v w b =
    (decode-encode_utreexo_accumulator_state m s v w, encode-decode_utreexo_accumulator_state s m b)
