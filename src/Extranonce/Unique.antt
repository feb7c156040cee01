-- ===== src/Extranonce/Unique.antt =====
-- Channels with different extranonces get different prefixes.
use dinero_sv.Base.{
  ℕ, ◌+◌, ◌%◌, ◌≡◌, sym, ap, ◌∙◌, List, [], ◌∷◌, ok, and_then, and_then-eq-ok, ok_inj, length, take,
  drop, append_inj, append_cancel, ltb, ◌==◌, Bool-cases, inl, inr,
}
use dinero_sv.Wire.Bytes.{IsU32, to_le, from_le, from_le-to_le, length-to_le}
use dinero_sv.Extranonce.{
  max_coinbase_scriptsig, need, rewrite, grow_script, find_script, inject_scriptsig_extranonce,
}

rewrite_inj :
    (p : List ℕ) (e f place n l : ℕ)
    → IsU32 e
    → IsU32 f
    → rewrite p e place n l ≡ rewrite p f place n l
    → e ≡ f
unfolding rewrite
rewrite_inj p e f place n l he hf h =
    let h1 = append_cancel (take place p) _ _ h in
    let h2 = append_cancel ((l + 5) % 256 ∷ []) _ _ h1 in
    let h3 = append_cancel (take l (drop (place + n) p)) _ _ h2 in
    let h4 = append_cancel (0x04 ∷ []) _ _ h3 in
    let same = length-to_le 4 e ∙ sym (length-to_le 4 f) in
    let (g, _) = append_inj (to_le 4 e) (to_le 4 f) _ _ same h4 in
    sym (from_le-to_le 4 e he) ∙ ap from_le g ∙ from_le-to_le 4 f hf

grow_script-eq-ok :
    (p : List ℕ) (e place n l : ℕ) (out : List ℕ)
    → grow_script p e place n l ≡ ok out
    → rewrite p e place n l ≡ out
unfolding grow_script
grow_script-eq-ok p e place n l out h =
    let (_, _, h1) = and_then-eq-ok (need p (place + n) l) _ h in
    let (_, _, h2) = and_then-eq-ok (need p (place + n + l) 4) _ h1 in
    elim (Bool-cases (place + n + l + 4 == length p)) [
      | inr z ↦ absurd (cc (h2, z))
      | inl y ↦ elim (Bool-cases (ltb max_coinbase_scriptsig (l + 5))) [
        | inl z ↦ absurd (cc (h2, y, z))
        | inr z ↦ ok_inj (rw (y, z) at h2)
      ]
    ]

-- Two extranonces that are injected into one prefix give different prefixes.
pub inject_scriptsig_extranonce_inj :
    (p : List ℕ) (e f : ℕ) (out : List ℕ)
    → IsU32 e
    → IsU32 f
    → inject_scriptsig_extranonce p e ≡ ok out
    → inject_scriptsig_extranonce p f ≡ ok out
    → e ≡ f
unfolding inject_scriptsig_extranonce
inject_scriptsig_extranonce_inj p e f out he hf h k =
    let (found, a, h1) = and_then-eq-ok (find_script p) _ h in
    let k1 : grow_script p f found.0 found.1 found.2 ≡ ok out = rw (a, and_then) at k in
    rewrite_inj p e f found.0 found.1 found.2 he hf (
      grow_script-eq-ok p e found.0 found.1 found.2 out h1
      ∙ sym (grow_script-eq-ok p f found.0 found.1 found.2 out k1))
