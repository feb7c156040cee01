-- ===== src/Examples/Backend.antt =====
-- The choice of a node at concrete inputs.
use dinero_sv.Base.{ℕ, ◌≡◌, refl, List, [], ◌∷◌, some, All}
use Prim.Native.Nat.{compare}
use dinero_sv.Pool.Backend.{
  Candidate, normalize_chainwork, digits_of, all_hexdigit, is_ascii_hexdigit, trim_start_zeros,
  lowercase, compare_chainwork, choose_best_candidate,
}
use dinero_sv.Pool.Backend.Order.{from_hex, compare_chainwork-normalize_chainwork}
use dinero_sv.Pool.Backend.Best.{IsReported, IsChosen, choose_best_candidate_lem}

-- "0x00Ff" and "1a0".
abbrev prefixed : List ℕ
prefixed = (b'0' ∷ b'x' ∷ b'0' ∷ b'0' ∷ b'F' ∷ b'f' ∷ [])

abbrev bare : List ℕ
bare = (b'1' ∷ b'a' ∷ b'0' ∷ [])

abbrev shorter : List ℕ
shorter = (b'f' ∷ b'f' ∷ [])

compare_chainwork-normalize_chainwork_example :
    compare_chainwork shorter bare
    ≡ compare (from_hex 0 (digits_of prefixed)) (from_hex 0 (digits_of bare))
unfolding normalize_chainwork digits_of all_hexdigit is_ascii_hexdigit trim_start_zeros lowercase
compare_chainwork-normalize_chainwork_example =
    compare_chainwork-normalize_chainwork prefixed bare shorter bare refl refl

abbrev node : ℕ → List ℕ → Candidate
node n work = record { index = n; chainwork = work }

-- Two nodes have as much work, and the second of them is the current one.
abbrev others : List Candidate
others = node 1 bare ∷ node 2 bare ∷ []

reported : All IsReported (node 0 shorter ∷ others)
unfolding normalize_chainwork digits_of all_hexdigit is_ascii_hexdigit trim_start_zeros lowercase
reported = ((prefixed, refl), ((bare, refl), ((bare, refl), tt)))

choose_best_candidate_lem_example :
    IsChosen
      (some 2)
      (choose_best_candidate (node 0 shorter) others (some 2))
      (node 0 shorter ∷ others)
choose_best_candidate_lem_example =
    choose_best_candidate_lem (node 0 shorter) others (some 2) reported
