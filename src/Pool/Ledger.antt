-- ===== src/Pool/Ledger.antt =====
-- The tally of shares and blocks per miner (Ledger of crates/dinero-sv2-pool/src/accounting.rs). The
-- map is a list of entries, each key once; counters wrap as in the release build.
use dinero_sv.Base.{
  ℕ, ◌≡◌, refl, ap, arith, List, [], ◌∷◌, if◌then◌else◌, Bool-cases, inl, inr, false,
}
use dinero_sv.Words.{add64}
use dinero_sv.Bytestring.{Bytes, bytes_eq, bytes_eq→eq}

pub record Credit : Type 0 where
  pub accepted_shares : ℕ
  pub found_blocks : ℕ
  pub rejected_shares : ℕ

abbrev pub default : Credit
default = record { accepted_shares = 0; found_blocks = 0; rejected_shares = 0 }

abbrev pub Ledger : Type 0
Ledger = List (Bytes × Credit)

-- The miner's tally, the default where there is no entry.
unfoldable pub credit_of : Ledger → Bytes → Credit
credit_of [] miner = default
credit_of ((k, c) ∷ ledger) miner =
    let rest = credit_of ledger miner in if bytes_eq k miner then c else rest

-- `f(entry(miner).or_default())`
unfoldable pub update : Ledger → Bytes → (Credit → Credit) → Ledger
update [] miner f = (miner, f default) ∷ []
update ((k, c) ∷ ledger) miner f =
    let rest = update ledger miner f in
    if bytes_eq k miner then (k, f c) ∷ ledger else (k, c) ∷ rest

unfoldable pub credit_share : Ledger → Bytes → Ledger
credit_share ledger miner =
    update ledger miner λ c. record c { accepted_shares = add64 c.accepted_shares 1 }

unfoldable pub credit_block : Ledger → Bytes → Ledger
credit_block ledger miner =
    update ledger miner λ c. record c { found_blocks = add64 c.found_blocks 1 }

unfoldable pub reject : Ledger → Bytes → Ledger
reject ledger miner =
    update ledger miner λ c. record c { rejected_shares = add64 c.rejected_shares 1 }

pub credit_of-update :
    (ledger : Ledger) (miner other : Bytes) (f : Credit → Credit)
    → credit_of (update ledger miner f) other
      ≡ (if bytes_eq miner other then f (credit_of ledger miner) else credit_of ledger other)
unfolding credit_of update
credit_of-update [] miner other f = refl
credit_of-update ((k, c) ∷ ledger) miner other f = elim (Bool-cases (bytes_eq k miner)) [
  | inl y ↦
      let e = bytes_eq→eq k miner y in
      let same : bytes_eq k other ≡ bytes_eq miner other = ap (λ t. bytes_eq t other) e in
      rw y (ground (arith, same))
  | inr n ↦ elim (Bool-cases (bytes_eq k other)) [
    | inl y ↦
        let differ : bytes_eq miner other ≡ false = elim (Bool-cases (bytes_eq miner other)) [
          | inl z ↦ absurd (cc (n, y, ap (λ t. bytes_eq k t) (bytes_eq→eq miner other z)))
          | inr z ↦ z
        ] in
        rw (n, y) (rw differ refl)
    | inr z ↦ rw (n, z) (credit_of-update ledger miner other f)
  ]
]
