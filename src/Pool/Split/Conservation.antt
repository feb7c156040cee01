-- ===== src/Pool/Split/Conservation.antt =====
-- The split pays out the reward, to the last unit.
use dinero_sv.Base.{
  ℕ, ◌+◌, ◌*◌, ◌/◌, ◌^◌, ◌≡◌, ◌≤◌, ◌<◌, refl, ap, arith, List, [], ◌∷◌, ◌++◌, Option, none, some,
  ltb, ltb→lt, ==_refl, Bool-cases, inl, inr, Bool, true, false, min,
}
use native.Mathlib.Nat.{le_of_mul-le-mul_right, mul-le-mul_right, mul-le-mul_left, div-mul-le_self}
use dinero_sv.Words.{wrap64, add64, sub64, mul128}
use dinero_sv.Bytestring.{Bytes}
use dinero_sv.Pool.Split.{
  CoinbaseOutput, SplitParams, Weights, fee_of, pot_of, paid_out, rank, sum_weights, slice_of, pays,
  pay_loop, pay_elected, or_finder, add_to_script, add_to_first, absorb, add_fee, sum_values64,
  split_outputs, compute_split,
}
use dinero_sv.Pool.Split.Ranking.{weight_sum, sum-rank, sum_weights_exact}

-- The values added up without a width.
abbrev pub sum_values : List CoinbaseOutput → ℕ
sum_values [] = 0
sum_values (o ∷ os) = o.value_una + sum_values os

pub sum_values-append :
    (xs ys : List CoinbaseOutput) → sum_values (xs ++ ys) ≡ sum_values xs + sum_values ys
sum_values-append [] ys = omega arith
sum_values-append (x ∷ xs) ys = omega (arith, sum_values-append xs ys)

sum_values64_exact :
    (os : List CoinbaseOutput) → sum_values os < 2 ^ 64 → sum_values64 os ≡ sum_values os
unfolding sum_values64
sum_values64_exact [] h = refl
sum_values64_exact (o ∷ os) h = omega (arith, sum_values64_exact os (omega arith))

-- A slice is at most the exact share of the pot, even where the product wraps.
slice_bound : (pot total w : ℕ) → slice_of pot total w * total ≤ pot * w
unfolding slice_of
slice_bound pot total w =
    let q = mul128 pot w in
    let small : wrap64 (q / total) ≤ q / total = omega arith in
    let scaled : wrap64 (q / total) * total ≤ q / total * total = mul-le-mul_right total small in
    omega (arith, scaled, div-mul-le_self q total)

abbrev LoopFits : ℕ → List CoinbaseOutput × ℕ → Type 0
LoopFits pot r = (sum_values r.0 ≡ r.1) × (r.1 ≤ pot)

-- What the loop pays and what it pushes agree, and neither passes the pot.
pay_loop_inv :
    (pot total dust : ℕ) (ranked : Weights) (outs : List CoinbaseOutput) (paid : ℕ)
    → 0 < total
    → pot < 2 ^ 64
    → sum_values outs ≡ paid
    → paid * total + pot * weight_sum ranked ≤ pot * total
    → LoopFits pot (pay_loop pot total dust ranked outs paid)
unfolding pay_loop
pay_loop_inv pot total dust [] outs paid ht hp e h =
    (e, le_of_mul-le-mul_right {k = total} (omega arith) ht)
pay_loop_inv pot total dust ((s, w) ∷ rest) outs paid ht hp e h =
    elim (Bool-cases (pays dust (slice_of pot total w))) [
      | inl y ↦
          let v = slice_of pot total w in
          let out : CoinbaseOutput = record { value_una = v; script_pubkey = s } in
          let fits : paid + v ≤ pot =
            le_of_mul-le-mul_right {k = total} (omega (arith, slice_bound pot total w)) ht in
          let exact : add64 paid v ≡ paid + v = omega arith in
          rw (y, exact, pay_loop)
            (pay_loop_inv pot total dust rest (outs ++ (out ∷ [])) (paid + v) ht hp
              (omega (arith, sum_values-append outs (out ∷ [])))
              (omega (arith, slice_bound pot total w)))
      | inr n ↦ rw (n, pay_loop) (pay_loop_inv pot total dust rest outs paid ht hp e (omega arith))
    ]

pay_elected_inv :
    (p : SplitParams) (pot : ℕ) (ranked : Weights)
    → weight_sum ranked < 2 ^ 128
    → pot < 2 ^ 64
    → LoopFits pot (pay_elected p pot ranked)
unfolding pay_elected
pay_elected_inv p pot ranked h hp = elim (Bool-cases (ltb 0 (sum_weights ranked))) [
  | inl y ↦ rw y (
      pay_loop_inv pot (sum_weights ranked) p.dust_una ranked [] 0 (ltb→lt _ _ y) hp refl
        (omega (arith, ap (λ (t : ℕ). pot * t) (sum_weights_exact ranked h))))
  | inr n ↦ rw n (refl, omega arith)
]

or_finder_inv :
    (p : SplitParams) (pot : ℕ) (r : List CoinbaseOutput × ℕ)
    → LoopFits pot r
    → LoopFits pot (or_finder p pot r)
unfolding or_finder
or_finder_inv p pot ([], paid) h = ground arith
or_finder_inv p pot (o ∷ os, paid) h = h

-- What takes the remainder has it added, and nothing else changes.
abbrev Took : ℕ → List CoinbaseOutput → Option (List CoinbaseOutput) → Type 0
Took r os none = Unit
Took r os (some os') = sum_values os' ≡ sum_values os + r

add_to_script_sum :
    (script : Bytes) (r : ℕ) (os : List CoinbaseOutput)
    → sum_values os + r < 2 ^ 64
    → Took r os (add_to_script script r os)
unfolding add_to_script
add_to_script_sum script r [] h = tt
add_to_script_sum script r (o ∷ os) h = ground (arith, add_to_script_sum script r os)

abbrev absorbed_sum : ℕ → List CoinbaseOutput × Bool → ℕ
absorbed_sum r (os, true) = sum_values os
absorbed_sum r (os, false) = sum_values os + r

absorb_sum :
    (p : SplitParams) (fee r : ℕ) (os : List CoinbaseOutput)
    → sum_values os + r < 2 ^ 64
    → absorbed_sum r (absorb p fee r os) ≡ sum_values os + r
unfolding absorb add_to_first
absorb_sum p fee r [] h = ground (arith, add_to_script_sum p.finder_script r [])
absorb_sum p fee r (o ∷ os) h = ground (arith, add_to_script_sum p.finder_script r (o ∷ os) h)

add_fee_sum :
    (p : SplitParams) (fee r : ℕ) (t : List CoinbaseOutput × Bool)
    → absorbed_sum r t + fee < 2 ^ 64
    → sum_values (add_fee p fee r t) ≡ absorbed_sum r t + fee
unfolding add_fee
add_fee_sum p fee r (os, true) h =
    ground
      (arith, sum_values-append os (record { value_una = fee; script_pubkey = p.fee_script } ∷ []))
add_fee_sum p fee r (os, false) h = ground (
  arith,
  sum_values-append os (record { value_una = fee; script_pubkey = p.fee_script } ∷ []),
  sum_values-append os (record { value_una = add64 fee r; script_pubkey = p.fee_script } ∷ []),
)

fee-le-reward : (p : SplitParams) → p.reward_una < 2 ^ 64 → fee_of p ≤ p.reward_una
unfolding fee_of
fee-le-reward p h =
    let scaled : p.reward_una * min p.fee_bps 10_000 ≤ p.reward_una * 10_000 =
      mul-le-mul_left p.reward_una (omega arith) in
    omega (arith, scaled)

-- The pot and the fee make up the reward, and what is paid and what remains make up the pot.
pub paid_out_exact :
    (weights : Weights) (p : SplitParams)
    → p.reward_una < 2 ^ 64
    → weight_sum weights < 2 ^ 128
    → (pot_of p + fee_of p ≡ p.reward_una)
      × (sum_values (paid_out weights p).0 + sub64 (pot_of p) (paid_out weights p).1 ≡ pot_of p)
unfolding paid_out
paid_out_exact weights p hr hw =
    let pot : pot_of p + fee_of p ≡ p.reward_una =
      unfold pot_of in omega (arith, fee-le-reward p hr) in
    let ranked = rank weights p.max_outputs in
    let (same, fits) = or_finder_inv p (pot_of p) (pay_elected p (pot_of p) ranked) (
      pay_elected_inv p (pot_of p) ranked (omega (arith, sum-rank weights p.max_outputs))
        (omega arith)) in
    (pot, omega arith)

split_total :
    (weights : Weights) (p : SplitParams)
    → p.reward_una < 2 ^ 64
    → weight_sum weights < 2 ^ 128
    → sum_values (split_outputs weights p) ≡ p.reward_una
unfolding split_outputs
split_total weights p hr hw =
    let (pot, whole) = paid_out_exact weights p hr hw in
    let (outs, paid) = paid_out weights p in
    let left = sub64 (pot_of p) paid in
    let absorbed : absorbed_sum left (absorb p (fee_of p) left outs) ≡ sum_values outs + left =
      absorb_sum p (fee_of p) left outs (omega arith) in
    omega
      (arith, absorbed, add_fee_sum p (fee_of p) left (absorb p (fee_of p) left outs) (omega arith))

-- With a reward and weights that fit their words the assertion holds: there are outputs, and their
-- values add up to the reward. No bound on the product of pot and weight is needed.
pub compute_split-conserves :
    (weights : Weights) (p : SplitParams)
    → p.reward_una < 2 ^ 64
    → weight_sum weights < 2 ^ 128
    → (compute_split weights p ≡ some (split_outputs weights p))
      × (sum_values (split_outputs weights p) ≡ p.reward_una)
unfolding compute_split
compute_split-conserves weights p hr hw =
    let total : sum_values (split_outputs weights p) ≡ p.reward_una = split_total weights p hr hw in
    let exact : sum_values64 (split_outputs weights p) ≡ p.reward_una =
      omega (arith, total, sum_values64_exact (split_outputs weights p) (omega (arith, total))) in
    (rw (exact, ==_refl p.reward_una), total)
