-- ===== src/RateLimit/Accurate.antt =====
-- `AccurateRateLimit` of packages/core/src/utils/ratelimit/accurate.ts. A comparison with
-- `now - interval`, which may be negative, is written with the interval on the other side.
pub mod Window
pub mod Wait
pub mod Runs
use aleph_indexer_framework.Prelude.{
  ℕ, zero, ◌+◌, ◌-◌, Bool, true, false, not, List, [], ◌∷◌, ◌++◌, Option, none, some, ltb, leb,
  ◌==◌, if◌then◌else◌,
}

pub record AccurateRateLimit : Type 0 where
  pub interval : ℕ
  pub limit : ℕ
  pub total_weight : ℕ
  pub completed_requests : List ℕ
  pub completed_requests_weight : ℕ → Option ℕ

-- A missing weight is never read where the state is valid (`IsValid` in `Window`).
unfoldable pub weight_of : (ℕ → Option ℕ) → ℕ → ℕ
weight_of m k = elim (m k) [ none ↦ 0 | some w ↦ w ]

unfoldable pub assign : (ℕ → Option ℕ) → ℕ → Option ℕ → ℕ → Option ℕ
assign m k o j = if k == j then o else m j

abbrev pub last_or : ℕ → List ℕ → ℕ
last_or d [] = d
last_or d (x ∷ xs) = last_or x xs

-- _getAddItemId
unfoldable pub get_add_item_id : AccurateRateLimit → ℕ → ℕ
get_add_item_id s now =
    let last = last_or 0 s.completed_requests in if ltb last now then now else last + 1

unfoldable pub add : AccurateRateLimit → ℕ → AccurateRateLimit
add s weight = record s { total_weight = s.total_weight + weight }

unfoldable pub sub : AccurateRateLimit → ℕ → ℕ → AccurateRateLimit
unfolding get_add_item_id
sub s now weight =
    let item_id = get_add_item_id s now in
    record s {
      completed_requests_weight = assign s.completed_requests_weight item_id (some weight);
      completed_requests = s.completed_requests ++ item_id ∷ [];
    }

-- The `while` loop of `update`, over the requests from the index `i` on, and the slice after it.
-- A valid state counts the weight of each completed request, so the subtraction stays above 0.
unfoldable pub expire : AccurateRateLimit → ℕ → List ℕ → AccurateRateLimit
expire s now [] = record s { completed_requests = [] }
expire s now (item_id ∷ rest) =
    let later =
      expire
        (record s {
          total_weight = s.total_weight - weight_of s.completed_requests_weight item_id;
          completed_requests_weight = assign s.completed_requests_weight item_id none;
        })
        now rest in
    if ltb now (item_id + s.interval)
    then record s { completed_requests = item_id ∷ rest }
    else later

unfoldable pub update : AccurateRateLimit → ℕ → AccurateRateLimit
update s now = if s.total_weight == 0 then s else expire s now s.completed_requests

unfoldable pub check : AccurateRateLimit → ℕ → ℕ → AccurateRateLimit × Bool
check s now weight = let s' = update s now in (s', not (ltb s'.limit (s'.total_weight + weight)))

-- The `for` loop of `nextTry`; a needed weight below 0 is 0 here, and stops the loop as well.
unfoldable pub wait_loop : AccurateRateLimit → ℕ → List ℕ → ℕ → ℕ → ℕ
wait_loop s now [] needed time_to_wait = time_to_wait
wait_loop s now (item_id ∷ rest) needed time_to_wait =
    let later =
      wait_loop s now rest (needed - weight_of s.completed_requests_weight item_id)
        (if ltb now (item_id + s.interval) then item_id + s.interval - now else time_to_wait) in
    if needed == 0 then time_to_wait else later

unfoldable pub next_try : AccurateRateLimit → ℕ → ℕ → ℕ
next_try s now weight = wait_loop s now s.completed_requests (weight + s.total_weight - s.limit) 0
