-- ===== src/Pool/Gate/Race.antt =====
-- No two submissions race on one parent, in any interleaving.
use dinero_sv.Base.{
  ◌-◌, ◌≡◌, ◌≢◌, ◌≤◌, ◌↔◌, refl, sym, ap, subst, ◌∙◌, arith, List, [], ◌∷◌, length, length-append,
  ◌==◌, if◌then◌else◌, ==→eq, Bool-cases, inl, inr, true, false,
}
use dinero_sv.Bytestring.{Bytes, bytes_eq, bytes_eq→eq}
use dinero_sv.Pool.Hashes.{
  contains, remove, insert_new, Distinct, contains-remove, remove_absent, remove-Distinct,
  append_one-Distinct, contains_middle,
}
use dinero_sv.Pool.Gate.{
  accepted_parents_kept, SubmitGate, permit, acquire, pop_front, record_accepted, release,
  is_parent, select_parent, Server, leave, Step, submit, refuse, accept, drop_permit, select,
  Reachable, start, step,
}

-- The parents in flight are those of the tasks that hold a permit, no two tasks hold one for the
-- same parent, and at most 16 parents are remembered, each once.
pub record IsValid (s : Server) : Type 0 where
  pub held : (h : Bytes) → contains s.gate.in_flight h ≡ contains s.holders h
  pub holders_distinct : Distinct s.holders
  pub accepted_distinct : Distinct s.gate.accepted
  pub kept : length s.gate.accepted ≤ accepted_parents_kept

-- Under distinct hashes, one goes as all do.
leave-remove : (h : Bytes) (xs : List Bytes) → Distinct xs → leave h xs ≡ remove h xs
unfolding leave remove Distinct contains
leave-remove h [] d = refl
leave-remove h (x ∷ xs) d = elim (Bool-cases (bytes_eq x h)) [
  | inl y ↦
      rw y (sym (remove_absent h xs (subst (λ k. contains xs k ≡ false) (bytes_eq→eq x h y) d.0)))
  | inr n ↦ rw n (ap (λ l. x ∷ l) (leave-remove h xs d.1))
]

pop_front-Distinct : (xs : List Bytes) → Distinct xs → Distinct (pop_front xs)
unfolding pop_front Distinct
pop_front-Distinct [] d = d
pop_front-Distinct (x ∷ xs) d = d.1

pop_front-absent :
    (h : Bytes) (xs : List Bytes) → contains xs h ≡ false → contains (pop_front xs) h ≡ false
unfolding pop_front contains
pop_front-absent h [] n = refl
pop_front-absent h (x ∷ xs) n = ground arith

length-pop_front : (xs : List Bytes) → length (pop_front xs) ≡ length xs - 1
unfolding pop_front
length-pop_front [] = refl
length-pop_front (x ∷ xs) = omega arith

record_accepted-kept :
    (g : SubmitGate) (h : Bytes)
    → Distinct g.accepted
    → length g.accepted ≤ accepted_parents_kept
    → Distinct (record_accepted g h).accepted
      × (length (record_accepted g h).accepted ≤ accepted_parents_kept)
      × ((record_accepted g h).in_flight ≡ g.in_flight)
      × (contains (record_accepted g h).accepted h ≡ true)
unfolding record_accepted
record_accepted-kept g h d k = elim (Bool-cases (contains g.accepted h)) [
  | inl y ↦ rw y (d, k, refl, y)
  | inr n ↦ elim (Bool-cases (length g.accepted == accepted_parents_kept)) [
    | inl y ↦
        let len = length-pop_front g.accepted in
        let more = length-append (pop_front g.accepted) (h ∷ []) in
        let full : length g.accepted ≡ 16 = ==→eq (length g.accepted) 16 y in
        rw (n, y)
          (
            append_one-Distinct (pop_front g.accepted) h (pop_front-Distinct g.accepted d)
                (pop_front-absent h g.accepted n),
            omega (arith, len, more, full),
            refl,
            contains_middle (pop_front g.accepted) [] h,
          )
    | inr m ↦
        let more = length-append g.accepted (h ∷ []) in
        rw (n, m)
          (
            append_one-Distinct g.accepted h d n,
            ground (arith, more),
            refl,
            contains_middle g.accepted [] h,
          )
  ]
]

pub length-remove-le : (h : Bytes) (xs : List Bytes) → length (remove h xs) ≤ length xs
unfolding remove
length-remove-le h [] = omega arith
length-remove-le h (x ∷ xs) = ground (arith, length-remove-le h xs)

contains-insert_new :
    (p h : Bytes) (xs : List Bytes)
    → contains xs p ≡ false
    → contains (insert_new p xs) h ≡ (if bytes_eq p h then true else contains xs h)
unfolding insert_new contains
contains-insert_new p h xs n = rw n refl

pub acquire-permit :
    (g : SubmitGate) (p : Bytes)
    → (acquire g p).0 ≡ permit
    → (contains g.accepted p ≡ false)
      × (contains g.in_flight p ≡ false)
      × ((acquire g p).1 ≡ record g { in_flight = insert_new p g.in_flight })
unfolding acquire
acquire-permit g p h = elim (Bool-cases (contains g.accepted p)) [
  | inl y ↦ absurd (cc (h, y))
  | inr n ↦ elim (Bool-cases (contains g.in_flight p)) [
    | inl y ↦ absurd (cc (h, n, y))
    | inr m ↦ rw (n, m) (refl, refl, refl)
  ]
]

pub acquire-refused : (g : SubmitGate) (p : Bytes) → (acquire g p).0 ≢ permit → (acquire g p).1 ≡ g
unfolding acquire
acquire-refused g p h = elim (Bool-cases (contains g.accepted p)) [
  | inl y ↦ rw y refl
  | inr n ↦ elim (Bool-cases (contains g.in_flight p)) [
    | inl y ↦ rw (n, y) refl
    | inr m ↦ absurd (h (rw (n, m) refl))
  ]
]

Step-IsValid : (s t : Server) → Step s t → IsValid s → IsValid t
unfolding Distinct contains release select_parent
Step-IsValid s t (submit _ p h) v =
    let (_, free, e) = acquire-permit s.gate p h in
    let unheld : contains s.holders p ≡ false = sym (v.held p) ∙ free in
    rw e record {
      held = λ k. rw (contains-insert_new p k s.gate.in_flight free, v.held k) refl;
      holders_distinct = (unheld, v.holders_distinct);
      accepted_distinct = v.accepted_distinct;
      kept = v.kept;
    }
Step-IsValid s t (refuse _ p h) v = rw (acquire-refused s.gate p h) v
Step-IsValid s t (accept _ p h) v =
    let (d, k, same, _) = record_accepted-kept s.gate p v.accepted_distinct v.kept in
    record {
      held = λ j. rw same (v.held j);
      holders_distinct = v.holders_distinct;
      accepted_distinct = d;
      kept = k;
    }
Step-IsValid s t (drop_permit _ p h) v = rw (leave-remove p s.holders v.holders_distinct) record {
  held =
      λ k. rw (contains-remove p k s.gate.in_flight, contains-remove p k s.holders, v.held k) refl;
  holders_distinct = remove-Distinct p s.holders v.holders_distinct;
  accepted_distinct = v.accepted_distinct;
  kept = v.kept;
}
Step-IsValid s t (select _ p) v = elim (Bool-cases (is_parent s.gate.selected_parent p)) [
  | inl y ↦ rw y v
  | inr n ↦
      let fewer = length-remove-le p s.gate.accepted in
      rw n record {
        held = v.held;
        holders_distinct = v.holders_distinct;
        accepted_distinct = remove-Distinct p s.gate.accepted v.accepted_distinct;
        kept = omega (arith, fewer, v.kept);
      }
]

-- In every run, whatever the interleaving of its tasks, the parents in flight are those of the
-- permits that are held, no two permits are held for one parent, and the gate remembers at most 16
-- accepted parents, each once.
pub reachable-IsValid : (s : Server) → Reachable s → IsValid s
unfolding Distinct
reachable-IsValid s start = record {
  held = λ h. refl;
  holders_distinct = tt;
  accepted_distinct = tt;
  kept = omega arith;
}
reachable-IsValid s (step {s = u} r e) = Step-IsValid u s e (reachable-IsValid u r)

-- At every point of a run a block on a parent is sent if no task holds a permit for that parent and
-- it is not remembered as won, and only then.
pub acquire-reachable :
    (s : Server) (parent : Bytes)
    → Reachable s
    → ((acquire s.gate parent).0 ≡ permit)
      ↔ ((contains s.holders parent ≡ false) × (contains s.gate.accepted parent ≡ false))
unfolding acquire
acquire-reachable s parent r =
    let v = reachable-IsValid s r in
    (
      λ h. let (a, b, _) = acquire-permit s.gate parent h in (sym (v.held parent) ∙ b, a),
      λ h. granted s.gate parent h.1 (v.held parent ∙ h.0),
    )
  where
    granted :
        (g : SubmitGate) (p : Bytes)
        → contains g.accepted p ≡ false
        → contains g.in_flight p ≡ false
        → (acquire g p).0 ≡ permit
    granted g p a b = rw (a, b) refl
