-- ===== src/Time/Examples.antt =====
-- Runs of the date range functions on small inputs, and the theorems at such inputs.
use aleph_indexer_framework.Prelude.{◌≡◌, true, ◌&&◌, ◌||◌, not, List, [], ◌∷◌, refl, arith}
use aleph_indexer_framework.Time.Range.{DateRange, range, covers}
use aleph_indexer_framework.Time.Decimal.{same_text, decimal}
use aleph_indexer_framework.Time.Merge.{merge_date_ranges, union_range}
use aleph_indexer_framework.Time.Merge.Coverage.{covers-merge_date_ranges}
use aleph_indexer_framework.Time.Merge.Separated.{IsSeparated, merge_date_ranges-IsSeparated}
use aleph_indexer_framework.Time.Merge.Saved.{has_range, merge_date_ranges-store}
use aleph_indexer_framework.Time.Merge.Contained.{union_not_saved}
use aleph_indexer_framework.Time.Clip.{clip_date_ranges_from_iterable, range_id}
use aleph_indexer_framework.Time.Clip.Coverage.{covers-clip_date_ranges_from_iterable}

abbrev stream : List DateRange
stream = range 1 5 ∷ range 3 10 ∷ range 20 30 ∷ []

covers-merge_date_ranges_example :
    covers (merge_date_ranges stream).merged_ranges 7 ≡ covers stream 7
covers-merge_date_ranges_example = covers-merge_date_ranges stream 7 (omega arith)

merge_date_ranges-IsSeparated_example : IsSeparated (merge_date_ranges stream).merged_ranges
merge_date_ranges-IsSeparated_example = merge_date_ranges-IsSeparated stream

abbrev apart : List DateRange
apart = range 1 5 ∷ range 7 10 ∷ []

merge_date_ranges-store_example :
    ((has_range (range 1 10) stream || has_range (range 1 10) (merge_date_ranges stream).new_ranges)
      && not (has_range (range 1 10) (merge_date_ranges stream).old_ranges))
    ≡ has_range (range 1 10) (merge_date_ranges stream).merged_ranges
merge_date_ranges-store_example = merge_date_ranges-store (range 1 10) stream (omega arith)

union_not_saved_example :
    merge_date_ranges (range 1 5 ∷ range 3 10 ∷ range 4 6 ∷ range 20 25 ∷ range 22 30 ∷ [])
    ≡ record {
      merged_ranges =
          union_range (range 1 5) (range 3 10) ∷ union_range (range 20 25) (range 22 30) ∷ [];
      old_ranges = range 3 10 ∷ range 1 5 ∷ range 4 6 ∷ range 22 30 ∷ range 20 25 ∷ [];
      new_ranges = union_range (range 20 25) (range 22 30) ∷ [];
    }
union_not_saved_example =
    union_not_saved (range 1 5) (range 3 10) (range 4 6) (range 20 25) (range 22 30) (omega arith)
      (omega arith) (omega arith) (omega arith) (omega arith) (omega arith)

abbrev year : List DateRange
year = range 1_600_000_000_000 1_640_000_000_000 ∷ []

abbrev clips : List DateRange
clips = range 0 1_600_999_999_999 ∷ range 1_610_000_000_000 1_620_000_000_000 ∷ []

covers-clip_date_ranges_from_iterable_example :
    covers (clip_date_ranges_from_iterable year clips) 1_605_000_000_000
    ≡ (covers year 1_605_000_000_000 && not (covers clips 1_605_000_000_000))
covers-clip_date_ranges_from_iterable_example =
    covers-clip_date_ranges_from_iterable year clips 1_605_000_000_000 (omega arith)

same_id_example : same_text (range_id (range 11 12)) (range_id (range 1 112)) ≡ true
unfolding same_text decimal range_id
same_id_example = refl
