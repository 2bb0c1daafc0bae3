-- ===== src/RateLimit/Accurate/Wait.antt =====
-- `nextTry` of `AccurateRateLimit` against its check.
use aleph_indexer_framework.Prelude.{
  ℕ, ◌+◌, ◌-◌, ◌≡◌, ◌↔◌, ◌⊎◌, ◌≤◌, ◌<◌, refl, sym, subst, ap, ◌∙◌, true, false, inl, inr, List, [],
  ◌∷◌, Option, ltb, ◌==◌, if◌then◌else◌, arith, Bool-cases,
}
use aleph_indexer_framework.RateLimit.Accurate.{
  AccurateRateLimit, weight_of, wait_loop, check, next_try,
}
use aleph_indexer_framework.RateLimit.Accurate.Window.{
  Rises, sum_weights, recent, recent-le, recent_all, IsValid, check_iff, check-Updated,
}

recent-antitone :
    (m : ℕ → Option ℕ) (i a b : ℕ) (xs : List ℕ) → a ≤ b → recent m i b xs ≤ recent m i a xs
recent-antitone m i a b [] h = omega arith
recent-antitone m i a b (x ∷ xs) h = ground (arith, recent-antitone m i a b xs h)

module _ (s : AccurateRateLimit) (now : ℕ) where
  abbrev sums : List ℕ → ℕ
  sums xs = sum_weights s.completed_requests_weight xs

  abbrev recents : ℕ → List ℕ → ℕ
  recents t xs = recent s.completed_requests_weight s.interval (now + t) xs

  -- The time set so far ends no later than the interval of the last id, `lo`.
  abbrev Behind : ℕ → ℕ → Type 0
  Behind time lo = (now + time ≤ lo + s.interval) ⊎ (time ≡ 0)

  abbrev next_time : ℕ → ℕ → ℕ
  next_time time x = if ltb now (x + s.interval) then x + s.interval - now else time

  next_time-Behind : (time lo x : ℕ) → lo < x → Behind time lo → Behind (next_time time x) x
  next_time-Behind time lo x h (inl b) = ground arith
  next_time-Behind time lo x h (inr z) = ground arith

  next_time-le : (time lo x : ℕ) → lo < x → Behind time lo → time ≤ next_time time x
  next_time-le time lo x h (inl b) = ground arith
  next_time-le time lo x h (inr z) = ground arith

  wait_loop-nil : (needed time : ℕ) → wait_loop s now [] needed time ≡ time
  unfolding wait_loop
  wait_loop-nil needed time = refl

  wait_loop-stop :
      (xs : List ℕ) (needed time : ℕ) → needed ≡ 0 → wait_loop s now xs needed time ≡ time
  unfolding wait_loop
  wait_loop-stop [] needed time z = refl
  wait_loop-stop (x ∷ xs) needed time z = ground arith

  wait_loop-go :
      (x : ℕ) (xs : List ℕ) (needed time : ℕ)
      → (needed == 0) ≡ false
      → wait_loop s now (x ∷ xs) needed time
        ≡ wait_loop s now xs (needed - weight_of s.completed_requests_weight x) (next_time time x)
  unfolding wait_loop
  wait_loop-go x xs needed time more = rw more

  wait_loop-le :
      (xs : List ℕ) (needed time lo : ℕ)
      → Rises lo xs
      → Behind time lo
      → time ≤ wait_loop s now xs needed time
  unfolding wait_loop
  wait_loop-le [] needed time lo r b = omega arith
  wait_loop-le (x ∷ xs) needed time lo r b = ground (
    arith,
    next_time-le time lo x r.0 b,
    wait_loop-le xs (needed - weight_of s.completed_requests_weight x) (next_time time x) x r.1
        (next_time-Behind time lo x r.0 b),
  )

  -- After the time that the loop returns, the needed weight has left the interval.
  wait_loop-enough :
      (xs : List ℕ) (needed time lo : ℕ)
      → Rises lo xs
      → Behind time lo
      → needed ≤ sums xs
      → recents (wait_loop s now xs needed time) xs + needed ≤ sums xs
  wait_loop-enough [] needed time lo r b h = omega arith
  wait_loop-enough (x ∷ xs) needed time lo r b h = elim (Bool-cases (needed == 0)) [
    | inl done ↦
        let z : needed ≡ 0 = ground arith in
        let le =
          recent-le s.completed_requests_weight s.interval
            (now + wait_loop s now (x ∷ xs) needed time) (x ∷ xs) in
        omega (arith, le)
    | inr more ↦
        let needed' = needed - weight_of s.completed_requests_weight x in
        let b' = next_time-Behind time lo x r.0 b in
        subst (λ u. recents u (x ∷ xs) + needed ≤ sums (x ∷ xs))
          (sym (wait_loop-go x xs needed time more))
          (ground (
            arith,
            wait_loop-le xs needed' (next_time time x) x r.1 b',
            wait_loop-enough xs needed' (next_time time x) x r.1 b',
          ))
  ]

  -- Before that time it has not.
  wait_loop-least :
      (xs : List ℕ) (needed time lo t : ℕ)
      → Rises lo xs
      → Behind time lo
      → time ≤ t
      → t < wait_loop s now xs needed time
      → sums xs < recents t xs + needed
  wait_loop-least [] needed time lo t r b h k = absurd (omega (arith, wait_loop-nil needed time))
  wait_loop-least (x ∷ xs) needed time lo t r b h k = elim (Bool-cases (needed == 0)) [
    | inl done ↦ absurd (omega (arith, wait_loop-stop (x ∷ xs) needed time (ground arith)))
    | inr more ↦
        let k' = rw (wait_loop-go x xs needed time more) at k in
        elim (Bool-cases (ltb t (next_time time x))) [
          | inl early ↦
              ground (arith, recent_all s.completed_requests_weight s.interval (now + t) x xs)
          | inr late ↦ ground (
            arith,
            wait_loop-least xs (needed - weight_of s.completed_requests_weight x) (next_time time x)
                x t r.1 (next_time-Behind time lo x r.0 b),
            wait_loop-stop xs (needed - weight_of s.completed_requests_weight x) (next_time time x),
          )
        ]
  ]

-- For a valid state whose weight under way leaves room for the request: a check passes at exactly the
-- times that are at least `nextTry` milliseconds from now.
pub next_try_exact :
    (s : AccurateRateLimit) (pending now weight t : ℕ)
    → IsValid pending s
    → pending + weight ≤ s.limit
    → ((check s (now + t) weight).1 ≡ true) ↔ (next_try s now weight ≤ t)
unfolding next_try
next_try_exact s p now w t v room =
    let xs = s.completed_requests in
    let needed = w + s.total_weight - s.limit in
    let wait = wait_loop s now xs needed 0 in
    let enough =
      wait_loop-enough s now xs needed 0 0 v.rises (inr refl) (omega (arith, v.counted)) in
    let iff = check_iff s p (now + t) w v in
    (
      λ passes. elim (Bool-cases (ltb t wait)) [
        | inl early ↦ ground (
          arith,
          iff.0 passes,
          v.counted,
          wait_loop-stop s now xs needed 0,
          wait_loop-least s now xs needed 0 0 t v.rises (inr refl),
        )
        | inr late ↦ ground arith
      ],
      λ h. iff.1 (
          omega (
            arith,
            v.counted,
            enough,
            recent-antitone s.completed_requests_weight s.interval (now + wait) (now + t) xs
                (omega arith),
          )),
    )

-- After the wait nothing is left to wait for, and after a check that passes neither.
pub next_try-later :
    (s : AccurateRateLimit) (pending now weight d : ℕ)
    → IsValid pending s
    → pending + weight ≤ s.limit
    → next_try s now weight ≤ d
    → ((check s (now + d) weight).1 ≡ true) × (next_try s (now + d) weight ≤ 0)
next_try-later s p now w d v room h =
    let passes = (next_try_exact s p now w d v room).1 h in
    let same : now + d + 0 ≡ now + d = omega arith in
    (passes, (next_try_exact s p (now + d) w 0 v room).0 (ap (λ t. (check s t w).1) same ∙ passes))

pub next_try-passed :
    (s : AccurateRateLimit) (pending now weight : ℕ)
    → IsValid pending s
    → pending + weight ≤ s.limit
    → (check s now weight).1 ≡ true
    → next_try (check s now weight).0 now weight ≤ 0
next_try-passed s p now w v room e =
    let s' = (check s now w).0 in
    let (v', t, l, i) = check-Updated s p now w v in
    let least = recent-le s'.completed_requests_weight s'.interval now s'.completed_requests in
    let again =
      (check_iff s' p now w v').1
        (omega (arith, (check_iff s p now w v).0 e, t, l, least, v'.counted)) in
    (next_try_exact s' p now w 0 v' (omega (arith, room, l))).0
      (ap (λ t'. (check s' t' w).1) (omega arith) ∙ again)
