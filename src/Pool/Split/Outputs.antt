-- ===== src/Pool/Split/Outputs.antt =====
-- Which outputs the split has.
use dinero_sv.Base.{
  ℕ, zero, suc, ◌+◌, ◌^◌, ◌≡◌, ◌≤◌, ◌<◌, ap, arith, List, [], ◌∷◌, ◌++◌, Option, none, some, length,
  length-append, All, All-append, ltb, ◌==◌, if◌then◌else◌, Bool-cases, inl, inr, Bool, true, false,
  max,
}
use mathlib.Core.List.{Permᴰ}
use dinero_sv.Words.{add64, sub64}
use dinero_sv.Bytestring.{Bytes}
use dinero_sv.Pool.Split.{
  CoinbaseOutput, SplitParams, Weights, fee_of, pot_of, paid_out, rank, sum_weights, slice_of, pays,
  pay_loop, pay_elected, or_finder, add_to_script, add_to_first, absorb, add_fee, sum_values64,
  split_outputs, compute_split,
}
use dinero_sv.Pool.Split.Ranking.{weight_sum, length-rank, rank-perm}
use dinero_sv.Pool.Split.Conservation.{sum_values, paid_out_exact}

paid_out-perm : (p : SplitParams) {ws ws' : Weights} → Permᴰ ws ws' → paid_out ws p ≡ paid_out ws' p
unfolding paid_out
paid_out-perm p h =
    ap (λ r. or_finder p (pot_of p) (pay_elected p (pot_of p) r)) (rank-perm p.max_outputs h)

split_outputs-perm :
    (p : SplitParams) {ws ws' : Weights} → Permᴰ ws ws' → split_outputs ws p ≡ split_outputs ws' p
unfolding split_outputs
split_outputs-perm p h =
    ap
      (λ r.
        let left = sub64 (pot_of p) r.1 in add_fee p (fee_of p) left (absorb p (fee_of p) left r.0))
      (paid_out-perm p h)

-- The split does not depend on the order in which the hash map of the weights is iterated.
pub compute_split-perm :
    (p : SplitParams) {ws ws' : Weights} → Permᴰ ws ws' → compute_split ws p ≡ compute_split ws' p
unfolding compute_split
compute_split-perm p h =
    ap (λ outs. if sum_values64 outs == p.reward_una then some outs else none)
      (split_outputs-perm p h)

abbrev pub IsPaid : CoinbaseOutput → Type 0
IsPaid o = 0 < o.value_una

abbrev pub IsFunded : ℕ → List CoinbaseOutput → Type 0
IsFunded n os = All IsPaid os × (length os ≤ n)

pay_loop-IsFunded :
    (pot total dust : ℕ) (ranked : Weights) (outs : List CoinbaseOutput) (paid n : ℕ)
    → IsFunded n outs
    → IsFunded (n + length ranked) (pay_loop pot total dust ranked outs paid).0
unfolding pay_loop
pay_loop-IsFunded pot total dust [] outs paid n h = (h.0, omega arith)
pay_loop-IsFunded pot total dust ((s, w) ∷ rest) outs paid n h =
    elim (Bool-cases (pays dust (slice_of pot total w))) [
      | inl y ↦
          let v = slice_of pot total w in
          let out : CoinbaseOutput = record { value_una = v; script_pubkey = s } in
          let more : IsFunded (n + 1) (outs ++ (out ∷ [])) = (
            All-append IsPaid outs (out ∷ []) h.0 (unfold pays in ground arith),
            omega (arith, length-append outs (out ∷ [])),
          ) in
          let r =
            pay_loop-IsFunded pot total dust rest (outs ++ (out ∷ [])) (add64 paid v) (n + 1)
              more in
          rw (y, pay_loop) (r.0, omega arith)
      | inr f ↦
          let r = pay_loop-IsFunded pot total dust rest outs paid n h in
          rw (f, pay_loop) (r.0, omega arith)
    ]

pay_elected-IsFunded :
    (p : SplitParams) (pot : ℕ) (ranked : Weights)
    → IsFunded (length ranked) (pay_elected p pot ranked).0
unfolding pay_elected
pay_elected-IsFunded p pot ranked = elim (Bool-cases (ltb 0 (sum_weights ranked))) [
  | inl y ↦
      let r =
        pay_loop-IsFunded pot (sum_weights ranked) p.dust_una ranked [] 0 0 (tt, omega arith) in
      rw y (r.0, omega arith)
  | inr f ↦ rw f (tt, omega arith)
]

or_finder-IsFunded :
    (p : SplitParams) (pot n : ℕ) (r : List CoinbaseOutput × ℕ)
    → IsFunded n r.0
    → IsFunded (max n 1) (or_finder p pot r).0
unfolding or_finder
or_finder-IsFunded p pot n ([], paid) h = ground arith
or_finder-IsFunded p pot n (o ∷ os, paid) h = (h.0, omega arith)

abbrev TookFunded : ℕ → Option (List CoinbaseOutput) → Type 0
TookFunded n none = Unit
TookFunded n (some os) = IsFunded n os

add_to_script_funded :
    (script : Bytes) (r : ℕ) (os : List CoinbaseOutput) (n : ℕ)
    → sum_values os + r < 2 ^ 64
    → IsFunded n os
    → TookFunded n (add_to_script script r os)
unfolding add_to_script
add_to_script_funded script r [] n hs h = tt
add_to_script_funded script r (o ∷ os) zero hs h = absurd (omega arith)
add_to_script_funded script r (o ∷ os) (suc n) hs h =
    ground (arith, add_to_script_funded script r os n)

absorb-IsFunded :
    (p : SplitParams) (fee r : ℕ) (os : List CoinbaseOutput) (n : ℕ)
    → sum_values os + r < 2 ^ 64
    → IsFunded n os
    → IsFunded n (absorb p fee r os).0
unfolding absorb add_to_first
absorb-IsFunded p fee r [] n hs h = ground (arith, add_to_script_funded p.finder_script r [] n)
absorb-IsFunded p fee r (o ∷ os) n hs h =
    ground (arith, add_to_script_funded p.finder_script r (o ∷ os) n)

add_fee-IsFunded :
    (p : SplitParams) (fee r n : ℕ) (t : List CoinbaseOutput × Bool)
    → IsFunded n t.0
    → IsFunded (n + 1) (add_fee p fee r t)
unfolding add_fee
add_fee-IsFunded p fee r n (os, true) h =
    let out : CoinbaseOutput = record { value_una = fee; script_pubkey = p.fee_script } in
    ground (arith, length-append os (out ∷ []), All-append IsPaid os (out ∷ []) h.0)
add_fee-IsFunded p fee r n (os, false) h =
    let out : CoinbaseOutput = record { value_una = fee; script_pubkey = p.fee_script } in
    let more : CoinbaseOutput = record { value_una = add64 fee r; script_pubkey = p.fee_script } in
    ground (
      arith,
      length-append os (out ∷ []),
      length-append os (more ∷ []),
      All-append IsPaid os (out ∷ []) h.0,
      All-append IsPaid os (more ∷ []) h.0,
    )

-- With a reward and weights that fit their words, no output has the value zero, and there are at
-- most `max_outputs` of them (or one, for the finder) and one for the fee.
pub split_outputs-IsFunded :
    (weights : Weights) (p : SplitParams)
    → p.reward_una < 2 ^ 64
    → weight_sum weights < 2 ^ 128
    → All IsPaid (split_outputs weights p)
      × (length (split_outputs weights p) ≤ max p.max_outputs 1 + 1)
unfolding split_outputs
split_outputs-IsFunded weights p hr hw =
    let (pot, whole) = paid_out_exact weights p hr hw in
    let ranked = rank weights p.max_outputs in
    let paid : IsFunded (max (length ranked) 1) (paid_out weights p).0 =
      unfold paid_out in
      or_finder-IsFunded p (pot_of p) (length ranked) _
        (pay_elected-IsFunded p (pot_of p) ranked) in
    let left = sub64 (pot_of p) (paid_out weights p).1 in
    let absorbed =
      absorb-IsFunded p (fee_of p) left (paid_out weights p).0 (max (length ranked) 1) (omega arith)
        paid in
    let r =
      add_fee-IsFunded p (fee_of p) left (max (length ranked) 1)
        (absorb p (fee_of p) left (paid_out weights p).0) absorbed in
    (r.0, omega (arith, length-rank weights p.max_outputs))
