-- ===== src/Pool/Dedup/Recent.antt =====
-- The filter against its specification: a bounded list of the hashes accepted last.
use dinero_sv.Base.{
  ℕ, suc, ◌+◌, ◌-◌, ◌≡◌, ◌≤◌, ◌<◌, refl, sym, ap, subst, ◌∙◌, arith, List, [], ◌∷◌, ◌++◌,
  append_assoc, length, length-append, drop, drop-append, ◌==◌, if◌then◌else◌, ==→eq, Bool-cases,
  inl, inr, Bool, true, false,
}
use dinero_sv.Bytestring.{Bytes, bytes_eq, bytes_eq_refl, bytes_eq→eq}
use dinero_sv.Pool.Hashes.{
  contains, remove, insert_new, Distinct, contains-remove, contains-append_one, length-remove,
  remove-Distinct, append_one-Distinct, contains_middle,
}
use dinero_sv.Pool.Dedup.{ShareDedup, new, make_room, insert, insert_all}

-- The set and the queue hold the same hashes, each once, and no more than the cap.
pub record IsValid (d : ShareDedup) : Type 0 where
  pub same : (h : Bytes) → contains d.seen h ≡ contains d.order h
  pub seen_distinct : Distinct d.seen
  pub order_distinct : Distinct d.order
  pub same_length : length d.seen ≡ length d.order
  pub within : length d.order ≤ d.cap
  pub positive : 0 < d.cap

evict-IsValid :
    (cap : ℕ) (seen : List Bytes) (o : Bytes) (rest : List Bytes)
    → IsValid (record { cap = cap; seen = seen; order = o ∷ rest })
    → IsValid (record { cap = cap; seen = remove o seen; order = rest })
unfolding contains Distinct
evict-IsValid cap seen o rest v =
    let present : contains seen o ≡ true = v.same o ∙ rw (bytes_eq_refl o) refl in
    let shorter = length-remove o seen v.seen_distinct present in
    let len : length seen ≡ suc (length rest) = v.same_length in
    let within : suc (length rest) ≤ cap = v.within in
    record {
      same = λ h. contains-remove o h seen ∙ elim (Bool-cases (bytes_eq o h)) [
        | inl y ↦
            let e : o ≡ h = bytes_eq→eq o h y in
            rw y (sym (subst (λ k. contains rest k ≡ false) e v.order_distinct.0))
        | inr n ↦ rw n (v.same h ∙ rw n refl)
      ];
      seen_distinct = remove-Distinct o seen v.seen_distinct;
      order_distinct = v.order_distinct.1;
      same_length = omega (arith, shorter, len);
      within = omega (arith, within);
      positive = v.positive;
    }

accept-IsValid :
    (cap : ℕ) (seen order : List Bytes) (h : Bytes)
    → IsValid (record { cap = cap; seen = seen; order = order })
    → contains seen h ≡ false
    → length order < cap
    → IsValid (record { cap = cap; seen = insert_new h seen; order = order ++ (h ∷ []) })
unfolding contains Distinct insert_new
accept-IsValid cap seen order h v fresh room =
    let absent : contains order h ≡ false = sym (v.same h) ∙ fresh in
    let len : length seen ≡ length order = v.same_length in
    let more = length-append order (h ∷ []) in
    rw fresh record {
      same = λ k.
          let a = contains-append_one order h k in
          let b : contains seen k ≡ contains order k = v.same k in rw a (ground (arith, b));
      seen_distinct = (fresh, v.seen_distinct);
      order_distinct = append_one-Distinct order h v.order_distinct absent;
      same_length = omega (arith, len, more);
      within = omega (arith, more);
      positive = v.positive;
    }

-- The specification: a list of the last hashes accepted, at most `cap` of them.
unfoldable pub insert_recent : ℕ → List Bytes → Bytes → List Bytes × Bool
insert_recent cap recent hash =
    if contains recent hash
    then (recent, false)
    else (drop (length recent + 1 - cap) recent ++ (hash ∷ []), true)

-- From a valid filter, `insert` leaves a valid filter of the same cap, and its answer and its queue
-- are those of the list of the last `cap` hashes accepted.
pub insert-insert_recent :
    (d : ShareDedup) (hash : Bytes)
    → IsValid d
    → IsValid (insert d hash).0
      × ((insert d hash).0.cap ≡ d.cap)
      × (insert_recent d.cap d.order hash ≡ ((insert d hash).0.order, (insert d hash).1))
unfolding insert make_room insert_recent
insert-insert_recent d hash v = elim (Bool-cases (contains d.seen hash)) [
  | inl y ↦ rw (y, sym (v.same hash) ∙ y) (v, refl, refl)
  | inr n ↦
      let (a, b, c) = fresh d.cap d.seen d.order v n in
      rw (n, sym (v.same hash) ∙ n) (a, b, ap (λ l. (l, true)) c)
]
  where
    fresh :
        (limit : ℕ) (seen order : List Bytes)
        → IsValid (record { cap = limit; seen = seen; order = order })
        → contains seen hash ≡ false
        → (let r = make_room (record { cap = limit; seen = seen; order = order }) in
            IsValid (record r { seen = insert_new hash r.seen; order = r.order ++ (hash ∷ []) })
            × (r.cap ≡ limit)
            × (drop (length order + 1 - limit) order ++ (hash ∷ []) ≡ r.order ++ (hash ∷ [])))
    fresh limit seen [] v n =
        let len : length seen ≡ 0 = v.same_length in
        let pos : 0 < limit = v.positive in
        let none_out : 1 - limit ≡ 0 = omega arith in
        let below : (length seen == limit) ≡ false = ground (arith, len) in
        rw (below, none_out) (accept-IsValid limit seen [] hash v n pos, refl, refl)
    fresh limit seen (o ∷ rest) v n = elim (Bool-cases (length seen == limit)) [
      | inl y ↦
          let len : length seen ≡ suc (length rest) = v.same_length in
          let e : length seen ≡ limit = ==→eq (length seen) limit y in
          let one_out : suc (length rest) + 1 - limit ≡ 1 = omega arith in
          let gone : contains (remove o seen) hash ≡ false =
            contains-remove o hash seen ∙ rw n (ground arith) in
          rw (y, one_out)
            (
              accept-IsValid limit (remove o seen) rest hash (evict-IsValid limit seen o rest v)
                  gone (omega arith),
              refl,
              refl,
            )
      | inr m ↦
          let len : length seen ≡ suc (length rest) = v.same_length in
          let within : suc (length rest) ≤ limit = v.within in
          let none_out : suc (length rest) + 1 - limit ≡ 0 = ground arith in
          rw (m, none_out)
            (accept-IsValid limit seen (o ∷ rest) hash v n (ground arith), refl, refl)
    ]

-- At most `n` hashes stand behind `h` in the queue.
Behind : Bytes → ℕ → List Bytes → Type 0
Behind h n order = (xs ys : List Bytes) × (order ≡ xs ++ (h ∷ ys)) × (length ys ≤ n)

insert_recent-Behind :
    (limit : ℕ) (order : List Bytes) (k h : Bytes) (n : ℕ)
    → length order ≤ limit
    → Behind h n order
    → suc n < limit
    → Behind h (suc n) (insert_recent limit order k).0
unfolding insert_recent Behind
insert_recent-Behind limit order k h n w (xs, ys, e, b) r = elim (Bool-cases (contains order k)) [
  | inl y ↦ rw y (xs, ys, e, omega arith)
  | inr m ↦
      let gone = length order + 1 - limit in
      let size : length order ≡ length xs + suc (length ys) =
        ap length e ∙ length-append xs (h ∷ ys) in
      let split : drop gone order ≡ drop gone xs ++ (h ∷ ys) =
        ap (drop gone) e ∙ drop-append xs (h ∷ ys) gone (omega (arith, size)) in
      let longer = length-append ys (k ∷ []) in
      rw m (
        drop gone xs,
        ys ++ (k ∷ []),
        ap (λ l. l ++ (k ∷ [])) split ∙ append_assoc (drop gone xs) (h ∷ ys) (k ∷ []),
        omega (arith, longer),
      )
]

insert_recent_fresh :
    (limit : ℕ) (order : List Bytes) (h : Bytes)
    → (insert_recent limit order h).1 ≡ true
    → Behind h 0 (insert_recent limit order h).0
unfolding insert_recent Behind
insert_recent_fresh limit order h a = elim (Bool-cases (contains order h)) [
  | inl y ↦ absurd (cc (a, y))
  | inr n ↦ rw n (drop (length order + 1 - limit) order, [], refl, omega arith)
]

insert_all-Behind :
    (d : ShareDedup) (hs : List Bytes) (h : Bytes) (n : ℕ)
    → IsValid d
    → Behind h n d.order
    → n + length hs < d.cap
    → contains (insert_all d hs).seen h ≡ true
unfolding insert_all Behind
insert_all-Behind d [] h n v (xs, ys, e, _) r =
    v.same h ∙ ap (λ l. contains l h) e ∙ contains_middle xs ys h
insert_all-Behind d (k ∷ hs) h n v b r =
    let (valid, same_cap, e) = insert-insert_recent d k v in
    let step : Behind h (suc n) (insert d k).0.order =
      subst (λ (p : List Bytes × Bool). Behind h (suc n) p.0) e
        (insert_recent-Behind d.cap d.order k h n v.within b (omega arith)) in
    insert_all-Behind (insert d k).0 hs h (suc n) valid step (omega (arith, same_cap))

insert_seen : (d : ShareDedup) (h : Bytes) → contains d.seen h ≡ true → (insert d h).1 ≡ false
unfolding insert
insert_seen d h y = rw y refl

-- A share that a valid filter accepted is not accepted a second time while fewer than `cap` shares
-- have been looked at in between.
pub insert-insert_all :
    (d : ShareDedup) (h : Bytes) (hs : List Bytes)
    → IsValid d
    → (insert d h).1 ≡ true
    → length hs < d.cap
    → (insert (insert_all (insert d h).0 hs) h).1 ≡ false
insert-insert_all d h hs v a r =
    let (valid, same_cap, e) = insert-insert_recent d h v in
    let fresh : (insert_recent d.cap d.order h).1 ≡ true =
      ap (λ (p : List Bytes × Bool). p.1) e ∙ a in
    let start : Behind h 0 (insert d h).0.order =
      subst (λ (p : List Bytes × Bool). Behind h 0 p.0) e
        (insert_recent_fresh d.cap d.order h fresh) in
    insert_seen (insert_all (insert d h).0 hs) h
      (insert_all-Behind (insert d h).0 hs h 0 valid start (omega (arith, same_cap)))

pub new-IsValid : (limit : ℕ) → 0 < limit → IsValid (new limit)
unfolding contains Distinct
new-IsValid limit h = record {
  same = λ k. refl;
  seen_distinct = tt;
  order_distinct = tt;
  same_length = refl;
  within = omega arith;
  positive = h;
}
