-- ===== src/Time/Merge.antt =====
-- `mergeDateRangesFromIterable` of packages/framework/src/utils/time.ts, as a fold of one step over
-- the ranges that the stream yields.
pub mod Steps
pub mod Coverage
pub mod Contained
pub mod Separated
pub mod Compaction
pub mod Saved
pub mod Inside
use aleph_indexer_framework.Prelude.{
  ℕ, ◌+◌, ◌≤◌, ◌<◌, ◌≡◌, Bool, true, false, not, ◌&&◌, List, [], ◌∷◌, ◌++◌, Option, none, some, max,
  ltb, leb, if◌then◌else◌,
}
use aleph_indexer_framework.Time.Range.{DateRange, range, is_equal_date_range}

-- The variables of the loop.
pub record MergeState : Type 0 where
  pub merged_ranges : List DateRange
  pub old_ranges : List DateRange
  pub new_ranges : List DateRange
  pub prev_range : Option DateRange
  pub prev_merged : Bool

abbrev pub merge_init : MergeState
merge_init = record {
  merged_ranges = [];
  old_ranges = [];
  new_ranges = [];
  prev_range = none;
  prev_merged = false;
}

abbrev pub push_if : Bool → DateRange → List DateRange → List DateRange
push_if b r rs = if b then rs ++ r ∷ [] else rs

abbrev pub union_range : DateRange → DateRange → DateRange
union_range p r = range p.start_date (max p.end_date r.end_date)

-- The range touches the previous one: the body of "Merge adjacent ranges".
pub merge_adjacent : MergeState → DateRange → DateRange → MergeState
merge_adjacent s p r =
    let u = union_range p r in
    let equal_to_range = is_equal_date_range r u in
    let equal_to_prev_range = is_equal_date_range p u in
    record {
      merged_ranges = s.merged_ranges;
      old_ranges =
          push_if (not s.prev_merged && not equal_to_prev_range) p
            (push_if (not equal_to_range) r s.old_ranges);
      new_ranges = s.new_ranges;
      prev_range = some (if equal_to_range then r else if equal_to_prev_range then p else u);
      prev_merged = not equal_to_range && not equal_to_prev_range;
    }

-- The range starts apart from the previous one, which is complete.
pub merge_apart : MergeState → DateRange → DateRange → MergeState
merge_apart s p r = record {
  merged_ranges = s.merged_ranges ++ p ∷ [];
  old_ranges = s.old_ranges;
  new_ranges = push_if s.prev_merged p s.new_ranges;
  prev_range = some r;
  prev_merged = false;
}

-- The test `prevRange.endDate >= range.startDate - 1`, with the 1 on the other side since a start
-- may be 0.
pub merge_valid : MergeState → Option DateRange → DateRange → MergeState
merge_valid s none r = record s { prev_range = some r }
merge_valid s (some p) r =
    if leb r.start_date (p.end_date + 1) then merge_adjacent s p r else merge_apart s p r

pub merge_step : MergeState → DateRange → MergeState
merge_step s r =
    if ltb r.end_date r.start_date
    then record s {
      old_ranges = s.old_ranges ++ r ∷ [];
      new_ranges = s.new_ranges ++ range r.end_date r.end_date ∷ [];
    }
    else merge_valid s s.prev_range r

pub merge_loop : MergeState → List DateRange → MergeState
merge_loop s [] = s
merge_loop s (r ∷ rs) = merge_loop (merge_step s r) rs

-- What the function returns.
pub record MergeResult : Type 0 where
  pub merged_ranges : List DateRange
  pub old_ranges : List DateRange
  pub new_ranges : List DateRange

-- The code after the loop.
pub merge_finish : MergeState → Option DateRange → MergeResult
merge_finish s none = record {
  merged_ranges = s.merged_ranges;
  old_ranges = s.old_ranges;
  new_ranges = s.new_ranges;
}
merge_finish s (some p) = record {
  merged_ranges = s.merged_ranges ++ p ∷ [];
  old_ranges = s.old_ranges;
  new_ranges = push_if s.prev_merged p s.new_ranges;
}

pub merge_end : MergeState → MergeResult
unfolding merge_finish
merge_end s = merge_finish s s.prev_range

pub merge_date_ranges : List DateRange → MergeResult
unfolding merge_loop merge_step merge_valid merge_adjacent merge_apart merge_end
merge_date_ranges rs = merge_end (merge_loop merge_init rs)
