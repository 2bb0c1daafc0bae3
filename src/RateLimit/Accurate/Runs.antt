-- ===== src/RateLimit/Accurate/Runs.antt =====
-- Runs of an `AccurateRateLimit` as `RateLimitClient` drives it, alone or in a `ComposeRateLimit`: a
-- check may pass or not, also with no request after it; a request is added only right after a check of
-- its weight that passes, and completed once.
use aleph_indexer_framework.Prelude.{ℕ, ◌+◌, ◌≡◌, ◌∙◌, ◌≤◌, true, [], none, arith}
use aleph_indexer_framework.RateLimit.Accurate.{AccurateRateLimit, add, sub, check}
use aleph_indexer_framework.RateLimit.Accurate.Window.{
  IsValid, recent-le, check_iff, sub-IsValid, check-Updated,
}

abbrev pub fresh : ℕ → ℕ → AccurateRateLimit
fresh interval limit = record {
  interval = interval;
  limit = limit;
  total_weight = 0;
  completed_requests = [];
  completed_requests_weight = λ k. none;
}

-- A state with the weight that is under way, and one action of the clients at some time.
pub data Run (interval limit : ℕ) : ℕ → AccurateRateLimit → Type 0 where
  start : Run interval limit 0 (fresh interval limit)
  checked :
      {p : ℕ} {s : AccurateRateLimit} (now weight : ℕ)
      → Run interval limit p s
      → Run interval limit p (check s now weight).0
  acquire :
      {p : ℕ} {s : AccurateRateLimit} (now weight : ℕ)
      → Run interval limit p s
      → (check s now weight).1 ≡ true
      → Run interval limit (p + weight) (add (check s now weight).0 weight)
  release :
      {p q : ℕ} {s : AccurateRateLimit} (now weight : ℕ)
      → Run interval limit p s
      → p ≡ q + weight
      → Run interval limit q (sub s now weight)

-- What holds of every state that a run reaches.
pub record IsKept (interval limit pending : ℕ) (s : AccurateRateLimit) : Type 0 where
  pub valid : IsValid pending s
  pub same_limit : s.limit ≡ limit
  pub same_interval : s.interval ≡ interval
  pub within : s.total_weight ≤ limit

check-IsKept :
    (i l p : ℕ) (s : AccurateRateLimit) (now weight : ℕ)
    → IsKept i l p s
    → IsKept i l p (check s now weight).0
check-IsKept i l p s now w k =
    let (v, t, e, f) = check-Updated s p now w k.valid in
    record {
      valid = v;
      same_limit = e ∙ k.same_limit;
      same_interval = f ∙ k.same_interval;
      within = omega (
        arith,
        k.within,
        k.valid.counted,
        recent-le s.completed_requests_weight s.interval now s.completed_requests,
      );
    }

acquire-IsKept :
    (i l p : ℕ) (s : AccurateRateLimit) (now weight : ℕ)
    → IsKept i l p s
    → (check s now weight).1 ≡ true
    → IsKept i l (p + weight) (add (check s now weight).0 weight)
unfolding add
acquire-IsKept i l p s now w k f =
    let k' = check-IsKept i l p s now w k in
    let (v, t, e, g) = check-Updated s p now w k.valid in
    record {
      valid = record { rises = k'.valid.rises; counted = omega (arith, k'.valid.counted) };
      same_limit = k'.same_limit;
      same_interval = k'.same_interval;
      within = omega (arith, t, (check_iff s p now w k.valid).0 f, k.same_limit);
    }

release-IsKept :
    (i l p q : ℕ) (s : AccurateRateLimit) (now weight : ℕ)
    → IsKept i l p s
    → p ≡ q + weight
    → IsKept i l q (sub s now weight)
unfolding sub
release-IsKept i l p q s now w k e = record {
  valid =
      unfold sub in
      sub-IsValid s q now w
        (record { rises = k.valid.rises; counted = omega (arith, k.valid.counted) });
  same_limit = k.same_limit;
  same_interval = k.same_interval;
  within = k.within;
}

-- After any sequence of checks, whether they pass or not and whether a request follows or not, of
-- requests that are each added right after a check that passes, and of completions of what is under
-- way, at whatever times: the state is valid, and the weight that it counts is at most the limit.
pub Run-IsKept : {i l p : ℕ} {s : AccurateRateLimit} → Run i l p s → IsKept i l p s
Run-IsKept start = omega arith
Run-IsKept (checked now w r) = check-IsKept _ _ _ _ now w (Run-IsKept r)
Run-IsKept (acquire now w r f) = acquire-IsKept _ _ _ _ now w (Run-IsKept r) f
Run-IsKept (release now w r e) = release-IsKept _ _ _ _ _ now w (Run-IsKept r) e
