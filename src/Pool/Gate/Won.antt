-- ===== src/Pool/Gate/Won.antt =====
-- A parent that was won stays won, whatever the tasks and the polls of the nodes do meanwhile.
use dinero_sv.Base.{
  ℕ, suc, ◌+◌, ◌≡◌, ◌≤◌, ◌<◌, refl, ap, ◌∙◌, arith, List, [], ◌∷◌, ◌++◌, append_assoc, length,
  length-append, ◌==◌, ==→eq, Bool-cases, inl, inr, Bool, false, ◌&&◌, not,
}
use dinero_sv.Bytestring.{Bytes, bytes_eq, bytes_eq_refl, bytes_eq→eq}
use dinero_sv.Pool.Hashes.{contains, remove, contains_middle}
use dinero_sv.Pool.Gate.{
  accepted_parents_kept, SubmitGate, already_accepted, acquire, pop_front, record_accepted, release,
  is_parent, select_parent, Server, Step, submit, refuse, accept, drop_permit, select,
}
use dinero_sv.Pool.Gate.Race.{acquire-permit, acquire-refused, length-remove-le}

-- The number of acceptances after a step.
abbrev pub count : {s t : Server} → Step s t → ℕ → ℕ
count (submit s p h) n = n
count (refuse s p h) n = n
count (accept s p h) n = suc n
count (drop_permit s p h) n = n
count (select s p) n = n

-- The step is a poll that chooses the parent while another one, or none, is chosen.
abbrev pub turns_to : {s t : Server} → Bytes → Step s t → Bool
turns_to parent (submit s p h) = false
turns_to parent (refuse s p h) = false
turns_to parent (accept s p h) = false
turns_to parent (drop_permit s p h) = false
turns_to parent (select s p) = bytes_eq p parent && not (is_parent s.gate.selected_parent p)

-- A run in which the nodes do not turn to the parent anew, with the number of acceptances in it.
pub data Later (parent : Bytes) (s : Server) : ℕ → Server → Type 0 where
  here : Later parent s 0 s
  next :
      {n : ℕ} {t u : Server}
      → Later parent s n t
      → (e : Step t u) → turns_to parent e ≡ false
      → Later parent s (count e n) u

-- It is remembered, with at most `n` others that were accepted after it.
Won : Bytes → ℕ → SubmitGate → Type 0
Won parent n g = (xs ys : List Bytes) × (g.accepted ≡ xs ++ (parent ∷ ys)) × (length ys ≤ n)

pop_front-append :
    (xs : List Bytes) (p : Bytes) (ys : List Bytes)
    → 0 < length xs
    → pop_front (xs ++ (p ∷ ys)) ≡ pop_front xs ++ (p ∷ ys)
unfolding pop_front
pop_front-append [] p ys h = absurd (omega arith)
pop_front-append (x ∷ xs) p ys h = refl

remove-middle :
    (h : Bytes) (xs : List Bytes) (p : Bytes) (ys : List Bytes)
    → bytes_eq p h ≡ false
    → remove h (xs ++ (p ∷ ys)) ≡ remove h xs ++ (p ∷ remove h ys)
unfolding remove
remove-middle h [] p ys n = rw n refl
remove-middle h (x ∷ xs) p ys n = ground (arith, remove-middle h xs p ys n)

record_accepted-Won :
    (g : SubmitGate) (h parent : Bytes) (n : ℕ)
    → Won parent n g
    → suc n < accepted_parents_kept
    → Won parent (suc n) (record_accepted g h)
unfolding record_accepted Won
record_accepted-Won g h parent n (xs, ys, e, b) r = elim (Bool-cases (contains g.accepted h)) [
  | inl y ↦ rw y (xs, ys, e, omega arith)
  | inr m ↦
      let size : length g.accepted ≡ length xs + suc (length ys) =
        ap length e ∙ length-append xs (parent ∷ ys) in
      let longer = length-append ys (h ∷ []) in
      elim (Bool-cases (length g.accepted == accepted_parents_kept)) [
        | inl y ↦
            let full : length g.accepted ≡ 16 = ==→eq (length g.accepted) 16 y in
            let rest : pop_front g.accepted ≡ pop_front xs ++ (parent ∷ ys) =
              ap pop_front e ∙ pop_front-append xs parent ys (omega (arith, full, size)) in
            rw (m, y)
              (
                pop_front xs,
                ys ++ (h ∷ []),
                ap (λ l. l ++ (h ∷ [])) rest ∙ append_assoc (pop_front xs) (parent ∷ ys) (h ∷ []),
                omega (arith, longer),
              )
        | inr z ↦
            rw (m, z)
              (
                xs,
                ys ++ (h ∷ []),
                ap (λ l. l ++ (h ∷ [])) e ∙ append_assoc xs (parent ∷ ys) (h ∷ []),
                omega (arith, longer),
              )
      ]
]

select_parent-Won :
    (g : SubmitGate) (h parent : Bytes) (n : ℕ)
    → Won parent n g
    → bytes_eq h parent && not (is_parent g.selected_parent h) ≡ false
    → Won parent n (select_parent g h)
unfolding select_parent Won
select_parent-Won g h parent n (xs, ys, e, b) q =
    elim (Bool-cases (is_parent g.selected_parent h)) [
      | inl y ↦ rw y (xs, ys, e, b)
      | inr m ↦
          let fewer = length-remove-le h ys in
          let other : bytes_eq parent h ≡ false = elim (Bool-cases (bytes_eq h parent)) [
            | inl y ↦ absurd (cc (rw (y, m) at q))
            | inr d ↦ elim (Bool-cases (bytes_eq parent h)) [
              | inl z ↦
                  let same : parent ≡ h = bytes_eq→eq parent h z in
                  absurd (cc (d, ap (λ k. bytes_eq h k) same, bytes_eq_refl h))
              | inr z ↦ z
            ]
          ] in
          rw m (
            remove h xs,
            remove h ys,
            ap (remove h) e ∙ remove-middle h xs parent ys other,
            omega (arith, fewer),
          )
    ]

Step-Won :
    {s t : Server} (e : Step s t) (parent : Bytes) (n : ℕ)
    → turns_to parent e ≡ false
    → count e n < accepted_parents_kept
    → Won parent n s.gate
    → Won parent (count e n) t.gate
unfolding release Won
Step-Won (submit s p h) parent n q r w = let (_, free, e) = acquire-permit s.gate p h in rw e w
Step-Won (refuse s p h) parent n q r w = rw (acquire-refused s.gate p h) w
Step-Won (accept s p h) parent n q r w = record_accepted-Won s.gate p parent n w (omega arith)
Step-Won (drop_permit s p h) parent n q r w = w
Step-Won (select s p) parent n q r w = select_parent-Won s.gate p parent n w q

count-le : {s t : Server} (e : Step s t) (n : ℕ) → n ≤ count e n
count-le (submit s p h) n = omega arith
count-le (refuse s p h) n = omega arith
count-le (accept s p h) n = omega arith
count-le (drop_permit s p h) n = omega arith
count-le (select s p) n = omega arith

Later-Won :
    {parent : Bytes} {s t : Server} {n : ℕ}
    → Later parent s n t
    → n < accepted_parents_kept
    → Won parent 0 s.gate
    → Won parent n t.gate
Later-Won here r w = w
Later-Won (next {n = k} l e q) r w =
    Step-Won e _ k q r (Later-Won l (omega (arith, count-le e k)) w)

first_Won :
    (g : SubmitGate) (parent : Bytes)
    → contains g.accepted parent ≡ false
    → Won parent 0 (record_accepted g parent)
unfolding record_accepted Won
first_Won g parent n = rw n (_, [], refl, omega arith)

Won-acquire :
    (g : SubmitGate) (parent : Bytes) (n : ℕ)
    → Won parent n g
    → (acquire g parent).0 ≡ already_accepted
unfolding acquire Won
Won-acquire g parent n (xs, ys, e, b) =
    rw (ap (λ l. contains l parent) e ∙ contains_middle xs ys parent) refl

-- From the moment at which the acceptance of a block on a parent that was not remembered is noted,
-- every later block on the parent is skipped as won: through any interleaving of tasks and of polls
-- of the nodes in which fewer than 16 more acceptances are noted, and in which no poll chooses the
-- parent while another one, or none, is the chosen one. Polls that choose it again and again do not
-- forget it.
pub acquire_won :
    (s t : Server) (parent : Bytes) (n : ℕ)
    → contains s.gate.accepted parent ≡ false
    → Later parent (record { gate = record_accepted s.gate parent; holders = s.holders }) n t
    → n < accepted_parents_kept
    → (acquire t.gate parent).0 ≡ already_accepted
acquire_won s t parent n new l r =
    Won-acquire t.gate parent n (Later-Won l r (first_Won s.gate parent new))
