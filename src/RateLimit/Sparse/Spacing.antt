-- ===== src/RateLimit/Sparse/Spacing.antt =====
-- When the check of `SparseRateLimit` passes, and how far apart the requests are that it lets pass.
use aleph_indexer_framework.Prelude.{
  ℕ, ap, ◌∙◌, ◌+◌, ◌-◌, ◌*◌, ◌/◌, ◌≤◌, ◌<◌, ◌≡◌, ◌≢◌, ◌↔◌, ◌⊎◌, true, false, ◌==◌, ltb, arith, inl,
  inr, Bool-cases,
}
use native.Mathlib.Nat.{le-div_iff_mul-le, lt-div-mul-add, mul-div-le, div-mul-le_self}
use aleph_indexer_framework.RateLimit.Sparse.{
  SparseRateLimit, create, get_rate_limit_weight, elapsed_time, refill, update_state, check, add,
  sub, next_try,
}

-- The weight of one interval takes at least the interval, and less than a hundredth more for each
-- unit.
pub create_interval :
    (interval limit fixed_weight : ℕ)
    → 0 < limit
    → (100 * interval ≤ limit * (create interval limit fixed_weight).sparse_interval)
      × (limit * (create interval limit fixed_weight).sparse_interval < 100 * interval + limit)
unfolding create
create_interval i l f h =
    let n = 100 * i + (l - 1) in
    (omega (arith, lt-div-mul-add {a = n} {b = l} h), omega (arith, mul-div-le n l))

check_refill :
    (s : SparseRateLimit) (now : ℕ)
    → s.sparse_last_refill_time ≢ 0
    → ((check s now).1 ≡ true) ↔ (s.sparse_lock_weight ≤ elapsed_time s now / s.sparse_interval)
unfolding check update_state refill
check_refill s now n = (λ h. ground arith, λ h. ground arith)

check_iff :
    (s : SparseRateLimit) (now : ℕ)
    → 0 < s.sparse_interval
    → s.sparse_last_refill_time ≢ 0
    → ((check s now).1 ≡ true) ↔ (s.sparse_lock_weight * s.sparse_interval ≤ elapsed_time s now)
check_iff s now c n =
    let iff =
      le-div_iff_mul-le {k = s.sparse_interval} {x = s.sparse_lock_weight} {y = elapsed_time s now}
        c in
    (λ h. iff.0 ((check_refill s now n).0 h), λ h. (check_refill s now n).1 (iff.1 h))

-- While a refill time is set, a check passes at exactly the times that are at least `nextTry` from now.
pub sparse_next_try_exact :
    (s : SparseRateLimit) (now t : ℕ)
    → 0 < s.sparse_interval
    → s.sparse_last_refill_time ≢ 0
    → s.sparse_last_refill_time ≤ 100 * now
    → ((check s (now + t)).1 ≡ true) ↔ (next_try s now ≤ 100 * t)
unfolding next_try
sparse_next_try_exact s now t c n h =
    let iff = check_iff s (now + t) c n in (λ a. ground (arith, iff.0 a), λ b. iff.1 (ground arith))

-- No request is under way: a refill time in the past is set, or nothing is counted.
abbrev pub SparseReady : ℕ → SparseRateLimit → Type 0
SparseReady now s =
    (0 < s.sparse_interval)
    × ((s.sparse_last_refill_time ≢ 0) × (s.sparse_last_refill_time ≤ 100 * now)
        ⊎ (s.sparse_lock_weight ≡ 0))

pub check-SparseReady :
    (s : SparseRateLimit) (now : ℕ) → SparseReady now s → SparseReady now (check s now).0
unfolding check update_state refill
check-SparseReady s now (c, inl (n, h)) =
    let d = div-mul-le_self (elapsed_time s now) s.sparse_interval in
    elim (Bool-cases ((update_state s now).sparse_lock_weight == 0)) [
      | inl free ↦ (ground arith, inr (ground arith))
      | inr held ↦ (ground arith, inl (λ z. ground arith, ground (arith, d)))
    ]
check-SparseReady s now (c, inr z) = (ground arith, inr (ground arith))

pub SparseReady-passes :
    (s : SparseRateLimit) (now t : ℕ)
    → SparseReady now s
    → next_try s now ≤ 100 * t
    → (check s (now + t)).1 ≡ true
SparseReady-passes s now t (c, inl (n, h)) k = (sparse_next_try_exact s now t c n h).1 k
SparseReady-passes s now t (c, inr z) k = unfold check update_state refill in ground arith

-- Time shortens the wait, and a check does not prolong it.
pub next_try-later :
    (s : SparseRateLimit) (now d : ℕ)
    → SparseReady now s
    → next_try s now < 100 * d + 100
    → next_try s (now + d) < 100
unfolding next_try
next_try-later s now d (c, inl (n, l)) h = ground (arith, n, l, h)
next_try-later s now d (c, inr z) h = ground (arith, z)

held_wait :
    (lock total interval e : ℕ)
    → total ≤ lock
    → total * interval ≤ e
    → (lock - total) * interval - (e - total * interval) ≤ lock * interval - e
held_wait lock total i e h d =
    let same : lock ≡ lock - total + total = omega arith in
    let split : lock * i ≡ (lock - total) * i + total * i = ap (λ n. n * i) same ∙ grind arith in
    omega (arith, split, d)

pub next_try-check :
    (s : SparseRateLimit) (now : ℕ)
    → SparseReady now s
    → next_try (check s now).0 now ≤ next_try s now
unfolding check update_state refill next_try
next_try-check s now r =
    let e = elapsed_time s now in
    let total = e / s.sparse_interval in
    let d = div-mul-le_self e s.sparse_interval in
    elim (Bool-cases (s.sparse_last_refill_time == 0)) [
      | inl none_yet ↦ ground (arith, none_yet)
      | inr counting ↦ elim (Bool-cases (ltb total s.sparse_lock_weight)) [
        | inl held ↦ ground (
          arith,
          counting,
          held,
          d,
          held_wait s.sparse_lock_weight total s.sparse_interval e (ground (arith, held)) d,
        )
        | inr free ↦ ground (arith, free, counting)
      ]
    ]

-- A request under way blocks all others until it is completed, and `nextTry` says 0 meanwhile.
pub blocked_until_sub :
    (s : SparseRateLimit) (now : ℕ)
    → s.sparse_last_refill_time ≡ 0
    → 0 < s.sparse_lock_weight
    → ((check s now).1 ≡ false) × ((check s now).0 ≡ s) × (next_try s now ≡ 0)
unfolding check update_state next_try
blocked_until_sub s now z l = (ground arith, ground arith, ground arith)

-- One request of the client: the check passes at `now`, and the request is added and completed.
abbrev pub request : SparseRateLimit → ℕ → ℕ → SparseRateLimit
request s now weight = sub (add (check s now).0 weight) now

request-interval :
    (s : SparseRateLimit) (now weight : ℕ)
    → (request s now weight).sparse_interval ≡ s.sparse_interval
unfolding check update_state refill add sub
request-interval s now w = ground arith

request-lock :
    (s : SparseRateLimit) (now weight : ℕ)
    → (check s now).1 ≡ true
    → (request s now weight).sparse_lock_weight ≡ get_rate_limit_weight s weight
unfolding check update_state refill add sub get_rate_limit_weight
request-lock s now w e = ground arith

-- After a request at `now` the time of the last refill is set, and less than one unit before `now`.
request-last :
    (s : SparseRateLimit) (now weight : ℕ)
    → 0 < s.sparse_interval
    → 0 < now
    → s.sparse_last_refill_time ≤ 100 * now
    → (check s now).1 ≡ true
    → (100 * now < (request s now weight).sparse_last_refill_time + s.sparse_interval)
      × ((request s now weight).sparse_last_refill_time ≢ 0)
unfolding check update_state refill add sub
request-last s now w c p h e =
    let d = lt-div-mul-add {a = elapsed_time s now} {b = s.sparse_interval} c in
    (ground (arith, d), λ z. ground (arith, d))

-- After a request of some weight at `now`, a check passes only at times that are more than the weight,
-- less one unit, times the time per unit later.
pub requests_apart :
    (s : SparseRateLimit) (now weight later : ℕ)
    → 0 < s.sparse_interval
    → 0 < now
    → s.sparse_last_refill_time ≤ 100 * now
    → (check s now).1 ≡ true
    → now ≤ later
    → (check (request s now weight) later).1 ≡ true
    → 100 * now + get_rate_limit_weight s weight * s.sparse_interval
      < 100 * later + s.sparse_interval
requests_apart s now w later c p h e n e' =
    let q = request s now w in
    let (last, set) = request-last s now w c p h e in
    let same = request-interval s now w in
    let iff = check_iff q later (rw same c) set in
    let passes = rw (request-lock s now w e, same) at (iff.0 e') in omega (arith, last, passes)
