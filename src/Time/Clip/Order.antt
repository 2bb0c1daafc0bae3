-- ===== src/Time/Clip/Order.antt =====
-- The order of the array that `clipDateRangesFromIterable` returns, and ranges with one key.
use aleph_indexer_framework.Prelude.{
  ℕ, ◌≡◌, ◌≤◌, true, List, [], ◌∷◌, ltb, inl, inr, arith, All, Bool-cases,
}
use aleph_indexer_framework.Time.Range.{DateRange}
use aleph_indexer_framework.Time.Decimal.{same_text}
use aleph_indexer_framework.Time.Clip.{
  range_id, assign, clip_table, from_entries, insert_range, sort_ranges,
  clip_date_ranges_from_iterable, values,
}

-- No range starts before one that stands before it.
abbrev pub IsSortedByStart : List DateRange → Type 0
IsSortedByStart [] = Unit
IsSortedByStart (r ∷ rs) = All (λ x. r.start_date ≤ x.start_date) rs × IsSortedByStart rs

AllFrom-trans :
    (a b : ℕ) (rs : List DateRange)
    → a ≤ b
    → All (λ x. b ≤ x.start_date) rs
    → All (λ x. a ≤ x.start_date) rs
AllFrom-trans a b [] h k = tt
AllFrom-trans a b (r ∷ rs) h k = (omega arith, AllFrom-trans a b rs h k.1)

pub insert_range-All :
    (P : DateRange → Type 0) (r : DateRange) (rs : List DateRange)
    → P r
    → All P rs
    → All P (insert_range r rs)
unfolding insert_range
insert_range-All P r [] p a = (p, tt)
insert_range-All P r (x ∷ xs) p a = elim (Bool-cases (ltb x.start_date r.start_date)) [
  | inl before ↦ rw before (a.0, insert_range-All P r xs p a.1)
  | inr after ↦ rw after (p, a)
]

insert_range-IsSortedByStart :
    (r : DateRange) (rs : List DateRange) → IsSortedByStart rs → IsSortedByStart (insert_range r rs)
unfolding insert_range
insert_range-IsSortedByStart r [] s = (tt, tt)
insert_range-IsSortedByStart r (x ∷ xs) s = elim (Bool-cases (ltb x.start_date r.start_date)) [
  | inl before ↦ rw before (
    insert_range-All (λ y. x.start_date ≤ y.start_date) r xs (ground arith) s.0,
    insert_range-IsSortedByStart r xs s.1,
  )
  | inr after ↦
      let le : r.start_date ≤ x.start_date = ground arith in
      rw after ((le, AllFrom-trans r.start_date x.start_date xs le s.0), s)
]

sort_ranges-IsSortedByStart : (rs : List DateRange) → IsSortedByStart (sort_ranges rs)
unfolding sort_ranges
sort_ranges-IsSortedByStart [] = tt
sort_ranges-IsSortedByStart (r ∷ rs) =
    insert_range-IsSortedByStart r (sort_ranges rs) (sort_ranges-IsSortedByStart rs)

-- The array that is returned is in ascending order of the starts.
pub clip_date_ranges_from_iterable-IsSortedByStart :
    (rs cs : List DateRange) → IsSortedByStart (clip_date_ranges_from_iterable rs cs)
unfolding clip_date_ranges_from_iterable
clip_date_ranges_from_iterable-IsSortedByStart rs cs =
    sort_ranges-IsSortedByStart (values (clip_table (from_entries [] rs) cs))

-- Two ranges whose dates, written one behind the other, give the same text are taken for one: only
-- the later is returned, also where nothing is clipped.
pub clip_of_same_id :
    (a b : DateRange)
    → same_text (range_id b) (range_id a) ≡ true
    → clip_date_ranges_from_iterable (a ∷ b ∷ []) [] ≡ b ∷ []
unfolding clip_date_ranges_from_iterable clip_table from_entries assign sort_ranges insert_range
clip_of_same_id a b e = ground arith
