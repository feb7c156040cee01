-- ===== src/Pool/Split.antt =====
-- The PPLNS coinbase split (crates/dinero-sv2-pool/src/split.rs). Weights are the entries of the
-- source's hash map in the order of its iteration. `none` is the failed assertion at the end.
pub mod Ranking
pub mod Conservation
pub mod Outputs
pub mod Merge
use dinero_sv.Base.{
  ℕ, ◌*◌, ◌/◌, List, [], ◌∷◌, ◌++◌, take, Option, none, some, Bool, true, false, ◌&&◌, ltb, leb,
  ◌==◌, if◌then◌else◌, min,
}
use dinero_sv.Words.{wrap64, wrap128, add64, sub64, add128, mul128}
use dinero_sv.Bytestring.{Bytes, bytes_eq, bytes_lt}
pub use dinero_sv.Coinbase.{CoinbaseOutput}

pub record SplitParams : Type 0 where
  pub reward_una : ℕ
  pub fee_bps : ℕ
  pub fee_script : Bytes
  pub max_outputs : ℕ
  pub dust_una : ℕ
  pub finder_script : Bytes

abbrev pub Weights : Type 0
Weights = List (Bytes × ℕ)

unfoldable pub fee_of : SplitParams → ℕ
fee_of p = wrap64 (p.reward_una * min p.fee_bps 10_000 / 10_000)

-- The comparator of `sort_by`: weight descending, then script ascending.
unfoldable pub before : Bytes × ℕ → Bytes × ℕ → Bool
before (s, w) (s', w') = if ltb w' w then true else if w == w' then bytes_lt s s' else false

unfoldable pub positive : Weights → Weights
positive [] = []
positive ((s, w) ∷ ws) = let rest = positive ws in if ltb 0 w then (s, w) ∷ rest else rest

unfoldable pub insert : Bytes × ℕ → Weights → Weights
insert e [] = e ∷ []
insert e (f ∷ fs) = let rest = insert e fs in if before f e then f ∷ rest else e ∷ f ∷ fs

unfoldable pub sort : Weights → Weights
sort [] = []
sort (e ∷ es) = insert e (sort es)

unfoldable pub rank : Weights → ℕ → Weights
rank weights max_outputs = take max_outputs (sort (positive weights))

unfoldable pub sum_weights : Weights → ℕ
sum_weights [] = 0
sum_weights ((s, w) ∷ ws) = add128 w (sum_weights ws)

unfoldable pub slice_of : ℕ → ℕ → ℕ → ℕ
slice_of pot total w = wrap64 (mul128 pot w / total)

unfoldable pub pays : ℕ → ℕ → Bool
pays dust v = ltb 0 v && leb dust v

-- The loop over the elected; `outs` and `paid` are its variables.
unfoldable pub pay_loop : ℕ → ℕ → ℕ → Weights → List CoinbaseOutput → ℕ → List CoinbaseOutput × ℕ
pay_loop pot total dust [] outs paid = (outs, paid)
pay_loop pot total dust ((script, w) ∷ rest) outs paid =
    let v = slice_of pot total w in
    let out : CoinbaseOutput = record { value_una = v; script_pubkey = script } in
    pay_loop pot total dust rest (if pays dust v then outs ++ (out ∷ []) else outs)
      (if pays dust v then add64 paid v else paid)

unfoldable pub pay_elected : SplitParams → ℕ → Weights → List CoinbaseOutput × ℕ
pay_elected p pot ranked =
    let total = sum_weights ranked in
    if ltb 0 total then pay_loop pot total p.dust_una ranked [] 0 else ([], 0)

-- Nobody was paid: the finder takes the pot.
unfoldable pub or_finder : SplitParams → ℕ → List CoinbaseOutput × ℕ → List CoinbaseOutput × ℕ
or_finder p pot ([], paid) =
    if ltb 0 pot
    then (record { value_una = pot; script_pubkey = p.finder_script } ∷ [], pot)
    else ([], paid)
or_finder p pot (o ∷ os, paid) = (o ∷ os, paid)

-- `outs.iter_mut().find(..)`, and the value that is added to what it finds.
unfoldable pub add_to_script : Bytes → ℕ → List CoinbaseOutput → Option (List CoinbaseOutput)
add_to_script script r [] = none
add_to_script script r (o ∷ os) =
    let rest = add_to_script script r os in
    if bytes_eq o.script_pubkey script
    then some (record o { value_una = add64 o.value_una r } ∷ os)
    else elim rest [ none ↦ none | some os' ↦ some (o ∷ os') ]

unfoldable pub add_to_first : ℕ → List CoinbaseOutput → List CoinbaseOutput × Bool
add_to_first r [] = ([], false)
add_to_first r (o ∷ os) = (record o { value_una = add64 o.value_una r } ∷ os, true)

-- The outputs after the remainder was handed out, and whether one of them took it.
unfoldable pub absorb : SplitParams → ℕ → ℕ → List CoinbaseOutput → List CoinbaseOutput × Bool
absorb p fee remainder outs =
    if ltb 0 remainder
    then elim (add_to_script p.finder_script remainder outs) [
      | some outs' ↦ (outs', true)
      | none ↦ if fee == 0 then add_to_first remainder outs else (outs, false)
    ]
    else (outs, false)

unfoldable pub add_fee : SplitParams → ℕ → ℕ → List CoinbaseOutput × Bool → List CoinbaseOutput
add_fee p fee remainder (outs, absorbed) =
    let fee_total =
      if ltb 0 remainder && (if absorbed then false else true) then add64 fee remainder else fee in
    if ltb 0 fee_total
    then outs ++ (record { value_una = fee_total; script_pubkey = p.fee_script } ∷ [])
    else outs

unfoldable pub sum_values64 : List CoinbaseOutput → ℕ
sum_values64 [] = 0
sum_values64 (o ∷ os) = add64 o.value_una (sum_values64 os)

-- What is left of the reward for the contributors.
unfoldable pub pot_of : SplitParams → ℕ
pot_of p = sub64 p.reward_una (fee_of p)

-- `outs` and `paid` once the contributors, or the finder, are paid.
unfoldable pub paid_out : Weights → SplitParams → List CoinbaseOutput × ℕ
paid_out weights p = or_finder p (pot_of p) (pay_elected p (pot_of p) (rank weights p.max_outputs))

-- The outputs before the assertion.
unfoldable pub split_outputs : Weights → SplitParams → List CoinbaseOutput
split_outputs weights p =
    let (outs, paid) = paid_out weights p in
    let remainder = sub64 (pot_of p) paid in
    add_fee p (fee_of p) remainder (absorb p (fee_of p) remainder outs)

unfoldable pub compute_split : Weights → SplitParams → Option (List CoinbaseOutput)
compute_split weights p =
    let outs = split_outputs weights p in
    if sum_values64 outs == p.reward_una then some outs else none

-- `merge_duplicate_outputs`: the inner search and update, and the loop.
unfoldable pub merge_into : CoinbaseOutput → List CoinbaseOutput → List CoinbaseOutput
merge_into o [] = o ∷ []
merge_into o (e ∷ es) =
    let rest = merge_into o es in
    if bytes_eq e.script_pubkey o.script_pubkey
    then record e { value_una = add64 e.value_una o.value_una } ∷ es
    else e ∷ rest

unfoldable pub merge_loop : List CoinbaseOutput → List CoinbaseOutput → List CoinbaseOutput
merge_loop merged [] = merged
merge_loop merged (o ∷ os) = merge_loop (merge_into o merged) os

unfoldable pub merge_duplicate_outputs : List CoinbaseOutput → List CoinbaseOutput
merge_duplicate_outputs outputs = merge_loop [] outputs
