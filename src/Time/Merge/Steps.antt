-- ===== src/Time/Merge/Steps.antt =====
-- Equations of the loop of `mergeDateRangesFromIterable`, for proofs that keep it shut.
use aleph_indexer_framework.Prelude.{◌≡◌, refl, List, ◌∷◌, some, arith}
use aleph_indexer_framework.Time.Range.{DateRange, IsValid}
use aleph_indexer_framework.Time.Merge.{
  MergeState, merge_init, merge_valid, merge_step, merge_loop, merge_end, merge_date_ranges,
}

pub merge_date_ranges_lem :
    (rs : List DateRange) → merge_date_ranges rs ≡ merge_end (merge_loop merge_init rs)
unfolding merge_date_ranges
merge_date_ranges_lem rs = refl

pub loop-cons :
    (s : MergeState) (r : DateRange) (rs : List DateRange)
    → merge_loop s (r ∷ rs) ≡ merge_loop (merge_step s r) rs
unfolding merge_loop
loop-cons s r rs = refl

-- A valid range takes the second branch of the loop's first test.
pub merge_step-valid :
    (s : MergeState) (r : DateRange) → IsValid r → merge_step s r ≡ merge_valid s s.prev_range r
unfolding merge_step
merge_step-valid s r v = ground arith

-- The first valid range only becomes the previous one.
pub step-init :
    (r : DateRange)
    → IsValid r
    → merge_step merge_init r ≡ record merge_init { prev_range = some r }
unfolding merge_step merge_valid
step-init r v = ground arith
