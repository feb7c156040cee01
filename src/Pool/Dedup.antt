-- ===== src/Pool/Dedup.antt =====
-- The accepted-share filter (crates/dinero-sv2-pool/src/dedup.rs). A hash set is a list.
pub mod Recent
use dinero_sv.Base.{ℕ, List, [], ◌∷◌, ◌++◌, length, ◌==◌, if◌then◌else◌, Bool, true, false}
use dinero_sv.Bytestring.{Bytes}
use dinero_sv.Pool.Hashes.{contains, remove, insert_new}

pub record ShareDedup : Type 0 where
  pub cap : ℕ
  pub seen : List Bytes
  pub order : List Bytes

abbrev pub new : ℕ → ShareDedup
new cap = record { cap = cap; seen = []; order = [] }

-- Room for one more: the oldest goes if the set is full.
unfoldable pub make_room : ShareDedup → ShareDedup
make_room d =
    if length d.seen == d.cap
    then elim d.order [
      | [] ↦ d
      | oldest ∷ rest ↦ record d { seen = remove oldest d.seen; order = rest }
    ]
    else d

unfoldable pub insert : ShareDedup → Bytes → ShareDedup × Bool
insert d hash =
    if contains d.seen hash
    then (d, false)
    else (let r = make_room d in
        (record r { seen = insert_new hash r.seen; order = r.order ++ (hash ∷ []) }, true))

-- The shares that a run of the server has the filter look at, one after the other.
unfoldable pub insert_all : ShareDedup → List Bytes → ShareDedup
insert_all d [] = d
insert_all d (h ∷ hs) = insert_all (insert d h).0 hs
