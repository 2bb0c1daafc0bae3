-- ===== src/RateLimit/Sparse.antt =====
-- `SparseRateLimit` of packages/core/src/utils/ratelimit/sparse.ts. The time per unit of weight is a
-- multiple of a hundredth of a millisecond, so the times of the state count hundredths. The clock is
-- taken not to run back: `now` is never less than the time of the last refill.
pub mod Spacing
use aleph_indexer_framework.Prelude.{
  ℕ, ◌+◌, ◌-◌, ◌*◌, ◌/◌, Bool, true, false, ◌&&◌, ltb, leb, ◌==◌, if◌then◌else◌, min,
}

pub record SparseRateLimit : Type 0 where
  pub interval : ℕ
  pub limit : ℕ
  -- 0 where the option is not given
  pub fixed_weight : ℕ
  pub sparse_lock_weight : ℕ
  pub sparse_last_refill_time : ℕ
  pub sparse_interval : ℕ

-- The constructor: Math.ceil((interval / limit) * 100) / 100 is the time per unit of weight.
unfoldable pub create : ℕ → ℕ → ℕ → SparseRateLimit
create interval limit fixed_weight = record {
  interval = interval;
  limit = limit;
  fixed_weight = fixed_weight;
  sparse_lock_weight = 0;
  sparse_last_refill_time = 0;
  sparse_interval = (100 * interval + (limit - 1)) / limit;
}

unfoldable pub get_rate_limit_weight : SparseRateLimit → ℕ → ℕ
get_rate_limit_weight s weight = if s.fixed_weight == 0 then weight else s.fixed_weight

abbrev pub elapsed_time : SparseRateLimit → ℕ → ℕ
elapsed_time s now = 100 * now - s.sparse_last_refill_time

-- The rest of `_updateState`, once the refill is computed.
unfoldable pub refill : SparseRateLimit → ℕ → ℕ → SparseRateLimit
refill s elapsed total_refill =
    let lock = s.sparse_lock_weight - min total_refill s.sparse_lock_weight in
    record s {
      sparse_lock_weight = lock;
      sparse_last_refill_time =
          if ltb (100 * s.interval) elapsed && lock == 0
          then 0
          else s.sparse_last_refill_time + total_refill * s.sparse_interval;
    }

unfoldable pub update_state : SparseRateLimit → ℕ → SparseRateLimit
update_state s now =
    if s.sparse_last_refill_time == 0
    then s
    else refill s (elapsed_time s now) (elapsed_time s now / s.sparse_interval)

unfoldable pub check : SparseRateLimit → ℕ → SparseRateLimit × Bool
check s now = let s' = update_state s now in (s', s'.sparse_lock_weight == 0)

unfoldable pub add : SparseRateLimit → ℕ → SparseRateLimit
add s weight = record s {
  sparse_lock_weight = s.sparse_lock_weight + get_rate_limit_weight s weight;
}

unfoldable pub sub : SparseRateLimit → ℕ → SparseRateLimit
sub s now =
    if s.sparse_last_refill_time == 0 then record s { sparse_last_refill_time = 100 * now } else s

-- In hundredths of a millisecond.
unfoldable pub next_try : SparseRateLimit → ℕ → ℕ
next_try s now =
    if s.sparse_last_refill_time == 0
    then 0
    else s.sparse_lock_weight * s.sparse_interval - elapsed_time s now
