-- ===== src/Pool/Commitment/Valid.antt =====
-- The root that is taken is the root that is accepted.
use dinero_sv.Base.{
  both_true, ℕ, ◌≡◌, ◌≢◌, ◌≤◌, ◌↔◌, refl, sym, ap, ◌∙◌, arith, List, [], ◌∷◌, ◌++◌, Option, none,
  some, Result, ok, err, and_then, ok_inj, length, take, drop, All, take_whole, length-drop, get_or,
  leb, ◌==◌, ==→eq, Bool-cases, inl, inr, true, false,
}
use dinero_sv.Bytestring.{bytes_eq→eq, bytes_eq_refl}
use dinero_sv.Coinbase.{CoinbaseOutput, state_commitment_output}
use dinero_sv.Pool.Commitment.{
  dnrs, is_candidate, is_canonical, take_root, root_loop, state_commitment_root, candidates,
  is_only, valid_state_commitment_outputs,
}

and_then_same :
    {E A B : Type 0} (r : Result E A) (f g : A → Result E B)
    → ((a : A) → f a ≡ g a)
    → and_then r f ≡ and_then r g
and_then_same (ok a) f g h = h a
and_then_same (err e) f g h = refl

keep :
    (o : CoinbaseOutput) (outs : List CoinbaseOutput)
    → is_candidate o ≡ true
    → candidates (o ∷ outs) ≡ o ∷ candidates outs
unfolding candidates
keep o outs y = rw y refl

skip :
    (o : CoinbaseOutput) (outs : List CoinbaseOutput)
    → is_candidate o ≡ false
    → candidates (o ∷ outs) ≡ candidates outs
unfolding candidates
skip o outs z = rw z refl

pass :
    (root : Option (List ℕ)) (o : CoinbaseOutput)
    → is_candidate o ≡ false
    → take_root root o ≡ ok root
unfolding take_root
pass root o z = rw z refl

nothing : (root : Option (List ℕ)) → root_loop root [] ≡ root_loop root (candidates [])
unfolding candidates
nothing root = refl

-- Only the candidates count.
root_loop-candidates :
    (root : Option (List ℕ)) (outs : List CoinbaseOutput)
    → root_loop root outs ≡ root_loop root (candidates outs)
unfolding root_loop
root_loop-candidates root [] = nothing root
root_loop-candidates root (o ∷ outs) = elim (Bool-cases (is_candidate o)) [
  | inl y ↦ rw (keep o outs y) (
      and_then_same (take_root root o) (λ r. root_loop r outs) (λ r. root_loop r (candidates outs))
        λ r. root_loop-candidates r outs)
  | inr z ↦ rw (skip o outs z, pass root o z) (root_loop-candidates root outs)
]

seven :
    (s : List ℕ)
    → 7 ≤ length s
    → s ≡ get_or s 0 0 ∷ get_or s 1 0 ∷ (take 4 (drop 2 s) ++ (get_or s 6 0 ∷ drop 7 s))
seven [] h = absurd (omega arith)
seven (a ∷ []) h = absurd (omega arith)
seven (a ∷ b ∷ []) h = absurd (omega arith)
seven (a ∷ b ∷ c ∷ []) h = absurd (omega arith)
seven (a ∷ b ∷ c ∷ d ∷ []) h = absurd (omega arith)
seven (a ∷ b ∷ c ∷ d ∷ e ∷ []) h = absurd (omega arith)
seven (a ∷ b ∷ c ∷ d ∷ e ∷ f ∷ []) h = absurd (omega arith)
seven (a ∷ b ∷ c ∷ d ∷ e ∷ f ∷ g ∷ t) h = refl

-- A candidate of the canonical form is the output that the root makes.
canonical_lem :
    (o : CoinbaseOutput)
    → is_candidate o ≡ true
    → is_canonical o ≡ true
    → o.script_pubkey ≡ (state_commitment_output (take 32 (drop 7 o.script_pubkey))).script_pubkey
unfolding is_candidate is_canonical state_commitment_output
canonical_lem o c d =
    let s = o.script_pubkey in
    let (_, c1) = both_true (leb 6 (length s)) _ c in
    let (first, tag) = both_true (get_or s 0 0 == 0x6A) _ c1 in
    let (_, d1) = both_true (o.value_una == 0) _ d in
    let (len, d2) = both_true (length s == 39) _ d1 in
    let (push, version) = both_true (get_or s 1 0 == 37) _ d2 in
    let n : length s ≡ 39 = ==→eq (length s) 39 len in
    let t = bytes_eq→eq (take 4 (drop 2 s)) dnrs tag in
    let whole = take_whole 32 (drop 7 s) (omega (arith, length-drop 7 s, n)) in
    let a = ==→eq (get_or s 0 0) 0x6A first in
    let b = ==→eq (get_or s 1 0) 37 push in
    let v = ==→eq (get_or s 6 0) 1 version in
    seven s (omega (arith, n)) ∙ rw (a, b, v, t, whole) refl

output_lem :
    (value : ℕ) (root : List ℕ)
    → length root ≡ 32
    → (is_canonical (record {
      value_una = value;
      script_pubkey = (state_commitment_output root).script_pubkey;
    })
        ≡ (value == 0))
      × (take 32 (drop 7 (state_commitment_output root).script_pubkey) ≡ root)
unfolding is_canonical state_commitment_output
output_lem value root l = (ground (arith, l), take_whole 32 root (omega (arith, l)))

-- The root of one candidate.
single_lem :
    (c : CoinbaseOutput) (root : List ℕ)
    → length root ≡ 32
    → is_candidate c ≡ true
    → (root_loop none (c ∷ []) ≡ ok (some root)) ↔ (is_only root (c ∷ []) ≡ true)
unfolding root_loop take_root is_only is_canonical
single_lem c root l h =
    let s = c.script_pubkey in
    (
      λ e. elim (Bool-cases (is_canonical c)) [
        | inr z ↦ absurd (cc (rw (h, z) at e))
        | inl y ↦
            let (value, _) = both_true (c.value_una == 0) _ y in
            let found : take 32 (drop 7 s) ≡ root = cc (ok_inj (rw (h, y) at e)) in
            let same =
              canonical_lem c h y ∙ ap (λ r. (state_commitment_output r).script_pubkey) found in
            rw value (rw same (bytes_eq_refl (state_commitment_output root).script_pubkey))
      ],
      λ e.
          let (value, bytes) = both_true (c.value_una == 0) _ e in
          let same = bytes_eq→eq s (state_commitment_output root).script_pubkey bytes in
          let (canonical, found) = output_lem c.value_una root l in
          let y : is_canonical c ≡ true =
            ap (λ k. is_canonical (record { value_una = c.value_una; script_pubkey = k })) same
            ∙ canonical
            ∙ value in
          let z : take 32 (drop 7 s) ≡ root = ap (λ k. take 32 (drop 7 k)) same ∙ found in
          rw (h, y, z) refl,
    )

candidates-All : (outs : List CoinbaseOutput) → All (λ o. is_candidate o ≡ true) (candidates outs)
unfolding candidates
candidates-All [] = tt
candidates-All (o ∷ outs) = elim (Bool-cases (is_candidate o)) [
  | inl y ↦ rw y (y, candidates-All outs)
  | inr z ↦ rw z (candidates-All outs)
]

-- A second candidate is an error, whatever the first was.
several_lem :
    (c d : CoinbaseOutput) (cs : List CoinbaseOutput) (r : Option (List ℕ))
    → is_candidate c ≡ true
    → is_candidate d ≡ true
    → root_loop none (c ∷ (d ∷ cs)) ≢ ok r
unfolding root_loop take_root
several_lem c d cs r h k e = elim (Bool-cases (is_canonical c)) [
  | inr z ↦ absurd (cc (rw (h, z) at e))
  | inl y ↦ absurd (cc (rw (h, y, k) at e))
]

of_candidates :
    (cs : List CoinbaseOutput) (root : List ℕ)
    → length root ≡ 32
    → All (λ o. is_candidate o ≡ true) cs
    → (root_loop none cs ≡ ok (some root)) ↔ (is_only root cs ≡ true)
unfolding is_only root_loop
of_candidates [] root l h = (λ e. absurd (cc (ok_inj e)), λ e. absurd (cc e))
of_candidates (c ∷ []) root l (h, _) = single_lem c root l h
of_candidates (c ∷ (d ∷ cs)) root l (h, (k, _)) =
    (λ e. absurd (several_lem c d cs (some root) h k e), λ e. absurd (cc e))

-- A root of 32 bytes is the one that the pool takes from the daemon's outputs exactly if the pool
-- accepts these outputs for it.
pub state_commitment_root-valid :
    (root : List ℕ) (outputs : List CoinbaseOutput)
    → length root ≡ 32
    → (state_commitment_root outputs ≡ ok (some root))
      ↔ (valid_state_commitment_outputs (some root) outputs ≡ true)
unfolding state_commitment_root valid_state_commitment_outputs
state_commitment_root-valid root outputs l =
    let (f, g) = of_candidates (candidates outputs) root l (candidates-All outputs) in
    let e = root_loop-candidates none outputs in (λ h. f (sym e ∙ h), λ h. e ∙ g h)
