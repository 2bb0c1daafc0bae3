-- ===== src/Time/Clip/Valid.antt =====
-- The ends of the ranges that `clipDateRangesFromIterable` returns.
use aleph_indexer_framework.Prelude.{ℕ, List, [], ◌∷◌, inl, inr, arith, All, Bool-cases}
use aleph_indexer_framework.Time.Range.{DateRange, IsValid}
use aleph_indexer_framework.Time.Decimal.{same_text}
use aleph_indexer_framework.Time.Clip.{
  Table, range_id, assign, values, clips_middle, clips_left, clips_right, clips_whole, left_range,
  right_range, assign_range, clip_entry, clip_entries, clip_date_ranges, clip_table, from_entries,
  sort_ranges, clip_date_ranges_from_iterable,
}
use aleph_indexer_framework.Time.Clip.Table.{delete-keeps}
use aleph_indexer_framework.Time.Clip.Order.{insert_range-All}

abbrev HasValid : Table → Type 0
HasValid m = All (λ e. IsValid e.1) m

assign-HasValid :
    (k : List ℕ) (r : DateRange) (m : Table) → IsValid r → HasValid m → HasValid (assign k r m)
unfolding assign
assign-HasValid k r [] v h = (v, tt)
assign-HasValid k r ((j, x) ∷ m) v h = elim (Bool-cases (same_text k j)) [
  | inl e ↦ rw e (v, h.1)
  | inr e ↦ rw e (h.0, assign-HasValid k r m v h.1)
]

clip_entry-HasValid :
    (c : DateRange) (k : List ℕ) (r : DateRange) (m : Table)
    → HasValid m
    → HasValid (clip_entry c k r m)
unfolding clip_entry
clip_entry-HasValid c k r m h = elim (Bool-cases (clips_middle c r)) [
  | inl e ↦ rw e (
      delete-keeps _ k _ (
        assign-HasValid _ (right_range c r) _ (ground (arith, e))
          (assign-HasValid _ (left_range c r) m (ground (arith, e)) h)))
  | inr m0 ↦ elim (Bool-cases (clips_left c r)) [
    | inl e ↦
        rw (m0, e)
          (delete-keeps _ k _ (assign-HasValid _ (right_range c r) m (ground (arith, e)) h))
    | inr m1 ↦ elim (Bool-cases (clips_right c r)) [
      | inl e ↦
          rw (m0, m1, e)
            (delete-keeps _ k _ (assign-HasValid _ (left_range c r) m (ground (arith, e)) h))
      | inr m2 ↦ elim (Bool-cases (clips_whole c r)) [
        | inl e ↦ rw (m0, m1, m2, e) (delete-keeps _ k m h)
        | inr m3 ↦ rw (m0, m1, m2, m3) h
      ]
    ]
  ]
]

clip_entries-HasValid : (c : DateRange) (es m : Table) → HasValid m → HasValid (clip_entries c es m)
unfolding clip_entries
clip_entries-HasValid c [] m h = h
clip_entries-HasValid c ((k, r) ∷ es) m h =
    clip_entries-HasValid c es (clip_entry c k r m) (clip_entry-HasValid c k r m h)

clip_table-HasValid : (m : Table) (cs : List DateRange) → HasValid m → HasValid (clip_table m cs)
unfolding clip_table clip_date_ranges
clip_table-HasValid m [] h = h
clip_table-HasValid m (c ∷ cs) h =
    clip_table-HasValid (clip_date_ranges m c) cs (clip_entries-HasValid c m m h)

from_entries-HasValid :
    (m : Table) (rs : List DateRange) → HasValid m → All IsValid rs → HasValid (from_entries m rs)
unfolding from_entries
from_entries-HasValid m [] h v = h
from_entries-HasValid m (r ∷ rs) h v =
    from_entries-HasValid (assign_range r m) rs (assign-HasValid (range_id r) r m v.0 h) v.1

sort_values-IsValid : (m : Table) → HasValid m → All IsValid (sort_ranges (values m))
unfolding sort_ranges
sort_values-IsValid [] h = tt
sort_values-IsValid ((k, r) ∷ m) h =
    insert_range-All IsValid r (sort_ranges (values m)) h.0 (sort_values-IsValid m h.1)

pub clip_date_ranges_from_iterable-IsValid :
    (rs cs : List DateRange) → All IsValid rs → All IsValid (clip_date_ranges_from_iterable rs cs)
unfolding clip_date_ranges_from_iterable
clip_date_ranges_from_iterable-IsValid rs cs v =
    sort_values-IsValid (clip_table (from_entries [] rs) cs)
      (clip_table-HasValid (from_entries [] rs) cs (from_entries-HasValid [] rs tt v))
