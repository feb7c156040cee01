-- ===== src/Pool/Bans/Expiry.antt =====
-- What bans do to those who ask for work, and when they end.
use dinero_sv.Base.{
  ℕ, ◌+◌, ◌≡◌, ◌≤◌, refl, sym, ap, subst, ◌∙◌, arith, List, [], ◌∷◌, none, ok, ok_inj, ltb,
  if◌then◌else◌, ltb→ge, Bool-cases, inl, inr, false, min,
}
use dinero_sv.Words.{saturating_add64, u64_max}
use dinero_sv.Bytestring.{Bytes, bytes_eq, bytes_eq_refl, bytes_eq→eq}
use dinero_sv.Pool.Bans.{
  BanList, min_ban_secs, max_ban_secs, get, without, retain_after, ban, unban, expires_after,
  is_banned, active,
}

get-without :
    (k j : Bytes) (m : List (Bytes × ℕ))
    → get (without k m) j ≡ (if bytes_eq k j then none else get m j)
unfolding get without
get-without k j [] = ground arith
get-without k j ((t, e) ∷ m) = elim (Bool-cases (bytes_eq t k)) [
  | inl y ↦
      let eq : t ≡ k = bytes_eq→eq t k y in
      let same : bytes_eq t j ≡ bytes_eq k j = ap (λ z. bytes_eq z j) eq in
      let ih = get-without k j m in rw (y, same) (ground (arith, ih))
  | inr n ↦ elim (Bool-cases (bytes_eq k j)) [
    | inl z ↦
        let eq : k ≡ j = bytes_eq→eq k j z in
        let other : bytes_eq t j ≡ false = subst (λ i. bytes_eq t i ≡ false) eq n in
        let ih = get-without k j m in rw (n, other, z) (ground (arith, ih))
    | inr z ↦ let ih = get-without k j m in rw (n, z) (ground (arith, ih))
  ]
]

ban-eq-ok :
    (bans : BanList) (target : Bytes) (seconds now expires_at : ℕ)
    → (ban bans target seconds now).0 ≡ ok expires_at
    → (seconds ≤ max_ban_secs)
      × (expires_at ≡ saturating_add64 now seconds)
      × ((ban bans target seconds now).1.inner ≡ (target, expires_at) ∷ without target bans.inner)
unfolding ban
ban-eq-ok bans [] seconds now expires_at h = cc
ban-eq-ok bans (b ∷ bs) seconds now expires_at h = elim (Bool-cases (ltb seconds min_ban_secs)) [
  | inl y ↦ absurd (cc (h, y))
  | inr n ↦ elim (Bool-cases (ltb max_ban_secs seconds)) [
    | inl y ↦ absurd (cc (h, n, y))
    | inr m ↦
        let is : saturating_add64 now seconds ≡ expires_at = ok_inj (rw (n, m) at h) in
        rw (n, m)
          (
            ltb→ge max_ban_secs seconds m,
            sym is,
            ap (λ e. (b ∷ bs, e) ∷ without (b ∷ bs) bans.inner) is,
          )
  ]
]

-- A ban that is granted lasts until the time it answers with, which is `seconds` after `now` (or
-- the end of the clock) and at most a day away, whether the target was banned before or not; the
-- ban of nobody else changes.
pub is_banned-ban :
    (bans : BanList) (target other : Bytes) (seconds now moment expires_at : ℕ)
    → (ban bans target seconds now).0 ≡ ok expires_at
    → (is_banned (ban bans target seconds now).1 other moment
        ≡ (if bytes_eq target other then ltb moment expires_at else is_banned bans other moment))
      × (expires_at ≡ min (now + seconds) u64_max)
      × (expires_at ≤ now + max_ban_secs)
unfolding is_banned get expires_after
is_banned-ban bans target other seconds now moment expires_at h =
    let (short, e, after) = ban-eq-ok bans target seconds now expires_at h in
    let look = get-without target other bans.inner in
    (
      rw (after, look)
          (elim (Bool-cases (bytes_eq target other)) [ inl y ↦ rw y refl | inr n ↦ rw n refl ]),
      e,
      omega arith,
    )

-- No script has two entries.
unfoldable pub Keys : List (Bytes × ℕ) → Type 0
Keys [] = Unit {0}
Keys ((t, e) ∷ m) = (get m t ≡ none) × Keys m

get-retain_after-none :
    (now : ℕ) (k : Bytes) (m : List (Bytes × ℕ))
    → get m k ≡ none
    → get (retain_after now m) k ≡ none
unfolding get retain_after
get-retain_after-none now k [] h = refl
get-retain_after-none now k ((t, e) ∷ m) h = elim (Bool-cases (bytes_eq t k)) [
  | inl y ↦ absurd (cc (h, y))
  | inr n ↦
      let ih = get-retain_after-none now k m (rw n at h) in
      elim (Bool-cases (ltb now e)) [ inl y ↦ rw (y, n) ih | inr z ↦ rw z ih ]
]

get-retain_after :
    (now moment : ℕ) (k : Bytes) (m : List (Bytes × ℕ))
    → now ≤ moment
    → Keys m
    → expires_after (get (retain_after now m) k) moment ≡ expires_after (get m k) moment
unfolding get retain_after expires_after Keys
get-retain_after now moment k [] h d = refl
get-retain_after now moment k ((t, e) ∷ m) h d =
    let ih = get-retain_after now moment k m h d.1 in
    elim (Bool-cases (ltb now e)) [
      | inl y ↦ elim (Bool-cases (bytes_eq t k)) [ inl z ↦ rw (y, z) refl | inr n ↦ rw (y, n) ih ]
      | inr y ↦ elim (Bool-cases (bytes_eq t k)) [
        | inl z ↦
            let gone : get (retain_after now m) k ≡ none =
              get-retain_after-none now k m (subst (λ i. get m i ≡ none) (bytes_eq→eq t k z) d.0) in
            rw (y, z, gone) (ground arith)
        | inr n ↦ rw (y, n) ih
      ]
    ]

without-Keys : (k : Bytes) (m : List (Bytes × ℕ)) → Keys m → Keys (without k m)
unfolding without Keys
without-Keys k [] d = tt
without-Keys k ((t, e) ∷ m) d = elim (Bool-cases (bytes_eq t k)) [
  | inl y ↦ rw y (without-Keys k m d.1)
  | inr n ↦
      let look = get-without k t m in
      rw n (
        rw look (elim (Bool-cases (bytes_eq k t)) [ inl y ↦ rw y refl | inr z ↦ rw z d.0 ]),
        without-Keys k m d.1,
      )
]

retain_after-Keys : (now : ℕ) (m : List (Bytes × ℕ)) → Keys m → Keys (retain_after now m)
unfolding retain_after Keys
retain_after-Keys now [] d = tt
retain_after-Keys now ((t, e) ∷ m) d = elim (Bool-cases (ltb now e)) [
  | inl y ↦ rw y (get-retain_after-none now t m d.0, retain_after-Keys now m d.1)
  | inr n ↦ rw n (retain_after-Keys now m d.1)
]

granted-Keys :
    (bans : BanList) (k : Bytes) (seconds now : ℕ)
    → Keys bans.inner
    → Keys (ban bans k seconds now).1.inner
unfolding ban Keys
granted-Keys bans [] seconds now d = d
granted-Keys bans (b ∷ bs) seconds now d = elim (Bool-cases (ltb seconds min_ban_secs)) [
  | inl y ↦ rw y d
  | inr n ↦ elim (Bool-cases (ltb max_ban_secs seconds)) [
    | inl y ↦ rw (n, y) d
    | inr m ↦
        let look : get (without (b ∷ bs) bans.inner) (b ∷ bs) ≡ none =
          get-without (b ∷ bs) (b ∷ bs) bans.inner ∙ rw (bytes_eq_refl (b ∷ bs)) refl in
        rw (n, m) (look, without-Keys (b ∷ bs) bans.inner d)
  ]
]

-- If no script has two entries, none has after `ban`, whatever it answers, after `unban` and after
-- `active`.
pub ban-Keys :
    (hex : Bytes → Bytes) (bans : BanList) (target : Bytes) (seconds now : ℕ)
    → Keys bans.inner
    → Keys (ban bans target seconds now).1.inner
      × Keys (unban bans target).1.inner
      × Keys (active hex bans now).1.inner
unfolding unban active
ban-Keys hex bans target seconds now d = (
  granted-Keys bans target seconds now d,
  without-Keys target bans.inner d,
  retain_after-Keys now bans.inner d,
)

-- A report prunes nothing that counts: where no script has two entries, who is banned at the time of
-- the report or later is the same before and after it.
pub is_banned-active :
    (hex : Bytes → Bytes) (bans : BanList) (target : Bytes) (now moment : ℕ)
    → Keys bans.inner
    → now ≤ moment
    → is_banned (active hex bans now).1 target moment ≡ is_banned bans target moment
unfolding is_banned active
is_banned-active hex bans target now moment d h = get-retain_after now moment target bans.inner h d

-- After `unban` its target is not banned at any time, and nobody else's ban changes.
pub is_banned-unban :
    (bans : BanList) (target other : Bytes) (at : ℕ)
    → is_banned (unban bans target).1 other at
      ≡ (if bytes_eq target other then false else is_banned bans other at)
unfolding is_banned unban expires_after
is_banned-unban bans target other at =
    rw (get-without target other bans.inner)
      (elim (Bool-cases (bytes_eq target other)) [ inl y ↦ rw y refl | inr n ↦ rw n refl ])
