-- ===== src/Pool/Commitment.antt =====
-- The state commitment among the coinbase's outputs: what the pool takes from the daemon's coinbase,
-- and what it accepts in a miner's (state_commitment_root and valid_state_commitment_outputs of
-- crates/dinero-sv2-pool/src/mapper.rs).
pub mod Valid
use dinero_sv.Base.{
  ℕ, List, [], ◌∷◌, Option, none, some, Result, ok, err, and_then, length, take, drop, get_or, leb,
  ◌==◌, if◌then◌else◌, Bool, true, false, ◌&&◌, not,
}
use dinero_sv.Bytestring.{bytes_eq, bytes_eq→eq, bytes_eq_refl}
use dinero_sv.Coinbase.{CoinbaseOutput, state_commitment_output}

pub data CommitmentError : Type 0 where
  duplicate : CommitmentError
  malformed : CommitmentError

abbrev pub dnrs : List ℕ
dnrs = (b'D' ∷ b'N' ∷ b'R' ∷ b'S' ∷ [])

-- `s.len() >= 6 && s[0] == 0x6a && &s[2..6] == b"DNRS"`
unfoldable pub is_candidate : CoinbaseOutput → Bool
is_candidate o =
    leb 6 (length o.script_pubkey)
    && (get_or o.script_pubkey 0 0 == 0x6A && bytes_eq (take 4 (drop 2 o.script_pubkey)) dnrs)

-- `value == 0 && script.len() == 39 && script[1] == 37 && script[6] == 1`
unfoldable pub is_canonical : CoinbaseOutput → Bool
is_canonical o =
    o.value_una == 0
    && (length o.script_pubkey == 39
        && (get_or o.script_pubkey 1 0 == 37 && get_or o.script_pubkey 6 0 == 1))

-- One round of the loop over the outputs.
unfoldable pub take_root :
    Option (List ℕ) → CoinbaseOutput → Result CommitmentError (Option (List ℕ))
take_root root o =
    if is_candidate o
    then elim root [
      | some _ ↦ err duplicate
      | none ↦
          if not (is_canonical o)
          then err malformed
          else ok (some (take 32 (drop 7 o.script_pubkey)))
    ]
    else ok root

unfoldable pub root_loop :
    Option (List ℕ) → List CoinbaseOutput → Result CommitmentError (Option (List ℕ))
root_loop root [] = ok root
root_loop root (o ∷ outs) = and_then (take_root root o) λ r. root_loop r outs

-- On the parsed outputs.
unfoldable pub state_commitment_root :
    List CoinbaseOutput → Result CommitmentError (Option (List ℕ))
state_commitment_root outputs = root_loop none outputs

unfoldable pub candidates : List CoinbaseOutput → List CoinbaseOutput
candidates [] = []
candidates (o ∷ outs) = let rest = candidates outs in if is_candidate o then o ∷ rest else rest

unfoldable pub is_only : List ℕ → List CoinbaseOutput → Bool
is_only root [] = false
is_only root (c ∷ []) =
    c.value_una == 0 && bytes_eq c.script_pubkey (state_commitment_output root).script_pubkey
is_only root (c ∷ (d ∷ cs)) = false

unfoldable pub valid_state_commitment_outputs : Option (List ℕ) → List CoinbaseOutput → Bool
valid_state_commitment_outputs (some root) outputs = is_only root (candidates outputs)
valid_state_commitment_outputs none outputs = elim (candidates outputs) [
  | [] ↦ true
  | _ ∷ _ ↦ false
]
