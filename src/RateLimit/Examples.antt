-- ===== src/RateLimit/Examples.antt =====
-- The theorems on rate limits at small inputs.
use aleph_indexer_framework.Prelude.{
  ℕ, ◌+◌, ◌*◌, ◌/◌, max, ◌≤◌, ◌<◌, ◌≡◌, ◌↔◌, true, refl, inl, List, [], ◌∷◌, some, arith,
}
use aleph_indexer_framework.RateLimit.Accurate
use aleph_indexer_framework.RateLimit.Accurate.{AccurateRateLimit}
use aleph_indexer_framework.RateLimit.Accurate.Window.{
  IsValid, recent, check_iff, add-IsValid, sub-IsValid,
}
use aleph_indexer_framework.RateLimit.Accurate.Wait.{next_try_exact}
use aleph_indexer_framework.RateLimit.Accurate.Runs.{fresh, start, acquire, IsKept, Run-IsKept}
use aleph_indexer_framework.RateLimit.Sparse
use aleph_indexer_framework.RateLimit.Sparse.{SparseRateLimit}
use aleph_indexer_framework.RateLimit.Sparse.Spacing.{request, requests_apart}
use aleph_indexer_framework.RateLimit.Limiter
use aleph_indexer_framework.RateLimit.Limiter.{RateLimit, accurate, sparse, concurrence}
use aleph_indexer_framework.RateLimit.Limiter.Client.{IsTimer, acquire_sleeps_twice}

-- Ten units a second; a request of four is completed, one of three is under way.
abbrev busy : AccurateRateLimit
busy = Accurate.sub (Accurate.add (Accurate.add (fresh 1000 10) 4) 3) 5000 4

busy-IsValid : IsValid 3 busy
busy-IsValid = sub-IsValid (Accurate.add (Accurate.add (fresh 1000 10) 4) 3) 3 5000 4 (
    add-IsValid (Accurate.add (fresh 1000 10) 4) 4 3
      (add-IsValid (fresh 1000 10) 0 4 (record { rises = tt; counted = omega arith })))

check_iff_example : ((Accurate.check busy 5500 5).1 ≡ true) ↔ (
    3 + recent busy.completed_requests_weight busy.interval 5500 busy.completed_requests + 5
    ≤ busy.limit)
check_iff_example = check_iff busy 3 5500 5 busy-IsValid

busy-limit : busy.limit ≡ 10
unfolding Accurate.sub Accurate.add
busy-limit = refl

next_try_exact_example :
    ((Accurate.check busy (5500 + 500) 5).1 ≡ true) ↔ (Accurate.next_try busy 5500 5 ≤ 500)
next_try_exact_example = next_try_exact busy 3 5500 5 500 busy-IsValid (omega (arith, busy-limit))

first_check : (Accurate.check (fresh 1000 10) 5000 4).1 ≡ true
unfolding Accurate.check Accurate.update
first_check = refl

Run-IsKept_example : IsKept 1000 10 4 (Accurate.add (Accurate.check (fresh 1000 10) 5000 4).0 4)
Run-IsKept_example = Run-IsKept (acquire 5000 4 start first_check)

-- 100 ms for each unit; two units are counted since 5000 ms.
abbrev counting : SparseRateLimit
counting = record {
  interval = 1000;
  limit = 10;
  fixed_weight = 0;
  sparse_lock_weight = 2;
  sparse_last_refill_time = 500_000;
  sparse_interval = 10_000;
}

abbrev blocked : SparseRateLimit
blocked = record counting { sparse_last_refill_time = 0 }

program : Unit {0}
unfolding Sparse.check Sparse.update_state Sparse.refill Sparse.add Sparse.sub
    Sparse.get_rate_limit_weight
program = tt

passes_now : (Sparse.check counting 5250).1 ≡ true
unfolding program
passes_now = refl

passes_later : (Sparse.check (request counting 5250 3) 5500).1 ≡ true
unfolding program
passes_later = refl

requests_apart_example :
    100 * 5250 + Sparse.get_rate_limit_weight counting 3 * counting.sparse_interval
    < 100 * 5500 + counting.sparse_interval
requests_apart_example =
    requests_apart counting 5250 3 5500 (omega arith) (omega arith) (omega arith) passes_now
      (omega arith) passes_later

abbrev limits : List RateLimit
limits =
    accurate busy ∷ sparse counting ∷ concurrence (record { max_concurrence = 3; pending = 1 }) ∷ []

few_pending : Limiter.concurrence_check (record { max_concurrence = 3; pending = 1 }) ≡ true
unfolding Limiter.concurrence_check
few_pending = refl

abbrev truncating : ℕ → ℕ
truncating wait = max 1 (wait / 100)

truncating-IsTimer : IsTimer truncating
truncating-IsTimer wait = (omega arith, λ h. omega arith)

first_wait : Limiter.next_try_all (Limiter.check_all limits 5500 5).0 5500 5 < 100 * 2_147_483_648
unfolding Limiter.next_try_all Limiter.check_all Limiter.next_try Limiter.check
    Limiter.concurrence_check Accurate.check Accurate.update Accurate.expire Accurate.next_try
    Accurate.wait_loop Accurate.weight_of Accurate.assign Accurate.sub Accurate.add
    Accurate.get_add_item_id Sparse.check Sparse.update_state Sparse.refill Sparse.next_try
first_wait = omega arith

acquire_sleeps_twice_example :
    (rs' : List RateLimit) × (t : ℕ) × (Limiter.acquire limits 5 5500 (truncating ∷ truncating ∷ [])
      ≡ some (rs', t))
    × (5500 ≤ t)
acquire_sleeps_twice_example =
    acquire_sleeps_twice limits 5 5500 truncating truncating
      (
        (3, busy-IsValid, omega (arith, busy-limit)),
        ((omega arith, inl ((λ e. omega arith), omega arith)), (few_pending, tt)),
      )
      first_wait truncating-IsTimer truncating-IsTimer
