-- ===== src/Varint/RoundTrip.antt =====
-- What is written is read back, wherever it stands.
use dinero_sv.Base.{
  ℕ, suc, ◌+◌, ◌^◌, ◌≡◌, ◌<◌, refl, ap, subst, ◌∙◌, arith, List, [], ◌∷◌, ◌++◌, some, Result, ok,
  and_then, length, length-append, drop, drop-drop, ltb, leb, ge→ltb, Bool-cases, inl, inr, false,
}
use dinero_sv.Base.{get_elem?, take-append_length, drop-append_length}
use dinero_sv.Wire.Bytes.{IsU64, to_le, from_le, length-to_le, from_le-to_le}
use dinero_sv.Varint.{write_varint, VarintError, take_after, varint_of, read_varint}

pub get_elem?-append :
    (pre post : List ℕ) (b : ℕ) → get_elem? (pre ++ (b ∷ post)) (length pre) ≡ some b
get_elem?-append [] post b = refl
get_elem?-append (x ∷ pre) post b = get_elem?-append pre post b

-- The bytes behind the first.
take_after-append :
    (pre s post : List ℕ) (b : ℕ)
    → take_after (pre ++ (b ∷ (s ++ post))) (length pre) (length s) ≡ ok s
unfolding take_after
take_after-append pre s post b =
    let len = length-append pre (b ∷ (s ++ post)) in
    let len' = length-append s post in
    let fits : ltb (length (pre ++ (b ∷ (s ++ post)))) (length pre + 1 + length s) ≡ false =
      ge→ltb (length (pre ++ (b ∷ (s ++ post)))) (length pre + 1 + length s)
        (omega (arith, len, len')) in
    let behind : drop (length pre + 1) (pre ++ (b ∷ (s ++ post))) ≡ s ++ post =
      drop-drop (length pre) 1 (pre ++ (b ∷ (s ++ post)))
      ∙ ap (drop 1) (drop-append_length pre (b ∷ (s ++ post))) in
    rw (fits, behind) (ap ok (take-append_length s post))

take_after-to_le :
    (k n : ℕ) (pre post : List ℕ) (b : ℕ)
    → take_after (pre ++ (b ∷ (to_le k n ++ post))) (length pre) k ≡ ok (to_le k n)
take_after-to_le k n pre post b =
    subst (λ j. take_after (pre ++ (b ∷ (to_le k n ++ post))) (length pre) j ≡ ok (to_le k n))
      (length-to_le k n) (take_after-append pre (to_le k n) post b)

-- The forms with a tag in the first byte.
read_tagged :
    (tag k n : ℕ) (pre post : List ℕ)
    → ((rest : ℕ → Result VarintError (List ℕ))
        → varint_of tag rest ≡ and_then (rest k) (λ s. ok (from_le s, suc k)))
    → n < 256 ^ k
    → read_varint (pre ++ (tag ∷ (to_le k n ++ post))) (length pre)
      ≡ ok (n, length (tag ∷ to_le k n))
unfolding read_varint varint_of
read_tagged tag k n pre post is h =
    rw (get_elem?-append pre (to_le k n ++ post) tag, read_varint)
      (rw
        (
          is (take_after (pre ++ (tag ∷ (to_le k n ++ post))) (length pre)),
          take_after-to_le k n pre post tag,
        )
        (rw (from_le-to_le k n h, length-to_le k n) refl))

-- The compact size of a `u64` is read back at the place where it stands, whatever is around it,
-- with the number of bytes that it takes.
pub read_varint-write_varint :
    (n : ℕ) (pre post : List ℕ)
    → IsU64 n
    → read_varint (pre ++ (write_varint n ++ post)) (length pre) ≡ ok (n, length (write_varint n))
unfolding read_varint write_varint varint_of
read_varint-write_varint n pre post h = elim (Bool-cases (ltb n 0xFD)) [
  | inl y ↦ rw y (rw (get_elem?-append pre post n, read_varint) (rw y refl))
  | inr a ↦ elim (Bool-cases (leb n 0xFFFF)) [
    | inl y ↦ rw (a, y) (read_tagged 0xFD 2 n pre post (λ rest. refl) (ground arith))
    | inr b ↦ elim (Bool-cases (leb n 0xFFFF_FFFF)) [
      | inl y ↦ rw (a, b, y) (read_tagged 0xFE 4 n pre post (λ rest. refl) (ground arith))
      | inr c ↦ rw (a, b, c) (read_tagged 0xFF 8 n pre post (λ rest. refl) h)
    ]
  ]
]
