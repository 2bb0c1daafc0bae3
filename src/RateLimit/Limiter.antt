-- ===== src/RateLimit/Limiter.antt =====
-- The rate limits behind one interface: `RateLimitI`, `ConcurrenceRateLimit`, `ComposeRateLimit` and
-- `RateLimitClient` of packages/core/src/utils/ratelimit. A class that implements the interface is a
-- constructor, and a method matches on it. The clock counts milliseconds; the waits of `nextTry`, which
-- need not be whole, are in hundredths of them.
pub mod Client
use aleph_indexer_framework.Prelude.{
  ℕ, ◌+◌, ◌-◌, ◌*◌, Bool, true, false, List, [], ◌∷◌, Option, none, some, max, ltb, ◌==◌,
  if◌then◌else◌,
}
use aleph_indexer_framework.RateLimit.Accurate
use aleph_indexer_framework.RateLimit.Accurate.{AccurateRateLimit}
use aleph_indexer_framework.RateLimit.Sparse
use aleph_indexer_framework.RateLimit.Sparse.{SparseRateLimit}

pub record ConcurrenceRateLimit : Type 0 where
  pub max_concurrence : ℕ
  pub pending : ℕ

-- `this.config.maxConcurrence || 1`
unfoldable pub concurrence_check : ConcurrenceRateLimit → Bool
concurrence_check s = ltb s.pending (if s.max_concurrence == 0 then 1 else s.max_concurrence)

pub data RateLimit : Type 0 where
  accurate : AccurateRateLimit → RateLimit
  sparse : SparseRateLimit → RateLimit
  concurrence : ConcurrenceRateLimit → RateLimit

unfoldable pub check : RateLimit → ℕ → ℕ → RateLimit × Bool
check (accurate s) now weight =
    let (s', passes) = Accurate.check s now weight in (accurate s', passes)
check (sparse s) now weight = let (s', passes) = Sparse.check s now in (sparse s', passes)
check (concurrence s) now weight = (concurrence s, concurrence_check s)

pub add : RateLimit → ℕ → RateLimit
add (accurate s) weight = accurate (Accurate.add s weight)
add (sparse s) weight = sparse (Sparse.add s weight)
add (concurrence s) weight = concurrence (record s { pending = s.pending + 1 })

-- A request is completed after it was added, so `pending` is positive here.
pub sub : RateLimit → ℕ → ℕ → RateLimit
sub (accurate s) now weight = accurate (Accurate.sub s now weight)
sub (sparse s) now weight = sparse (Sparse.sub s now)
sub (concurrence s) now weight = concurrence (record s { pending = s.pending - 1 })

unfoldable pub next_try : RateLimit → ℕ → ℕ → ℕ
next_try (accurate s) now weight = 100 * Accurate.next_try s now weight
next_try (sparse s) now weight = Sparse.next_try s now
next_try (concurrence s) now weight = 0

-- ComposeRateLimit.check: the limits behind the first that refuses are not asked, and keep their state.
unfoldable pub check_all : List RateLimit → ℕ → ℕ → List RateLimit × Bool
check_all [] now weight = ([], true)
check_all (r ∷ rs) now weight =
    let (r', passes) = check r now weight in
    let (rs', all_pass) = check_all rs now weight in
    if passes then (r' ∷ rs', all_pass) else (r' ∷ rs, false)

unfoldable pub next_try_all : List RateLimit → ℕ → ℕ → ℕ
next_try_all [] now weight = 0
next_try_all (r ∷ rs) now weight = max (next_try r now weight) (next_try_all rs now weight)

pub add_all : List RateLimit → ℕ → List RateLimit
add_all [] weight = []
add_all (r ∷ rs) weight = add r weight ∷ add_all rs weight

pub sub_all : List RateLimit → ℕ → ℕ → List RateLimit
sub_all [] now weight = []
sub_all (r ∷ rs) now weight = sub r now weight ∷ sub_all rs now weight

-- The `do … while` loop of `RateLimitClient.acquire`, which holds the mutex: each round reads the
-- clock. After a round that is refused it sleeps for the time that it is told: each of the sleeps says
-- how many milliseconds it takes where it is asked for some hundredths of them. The result is the
-- state, with the time of the check that passed, or nothing where the sleeps that are given run out.
unfoldable pub acquire : List RateLimit → ℕ → ℕ → List (ℕ → ℕ) → Option (List RateLimit × ℕ)
acquire rs weight now [] =
    let (rs', passes) = check_all rs now weight in
    if passes then some (add_all rs' weight, now) else none
acquire rs weight now (sleep ∷ sleeps) =
    let (rs', passes) = check_all rs now weight in
    let again = acquire rs' weight (now + sleep (next_try_all rs' now weight)) sleeps in
    if passes then some (add_all rs' weight, now) else again
