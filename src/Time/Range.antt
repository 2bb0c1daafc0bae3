-- ===== src/Time/Range.antt =====
-- `DateRange` of packages/framework/src/utils/time.ts: both ends belong to the range. Dates are
-- millisecond timestamps, which are natural numbers.
use aleph_indexer_framework.Prelude.{
  ℕ, ◌≤◌, ◌≡◌, Bool, true, ◌&&◌, List, arith, leb, ◌==◌, any, ◌↔◌,
}

pub record DateRange : Type 0 where
  pub start_date : ℕ
  pub end_date : ℕ

abbrev pub range : ℕ → ℕ → DateRange
range s e = record { start_date = s; end_date = e }

-- isEqualDateRange
abbrev pub is_equal_date_range : DateRange → DateRange → Bool
is_equal_date_range a b = a.start_date == b.start_date && a.end_date == b.end_date

-- The range holds the instant.
abbrev pub holds : ℕ → DateRange → Bool
holds t r = leb r.start_date t && leb t r.end_date

-- Some range of the list holds the instant.
abbrev pub covers : List DateRange → ℕ → Bool
covers rs t = any (holds t) rs

abbrev pub IsValid : DateRange → Type 0
IsValid r = r.start_date ≤ r.end_date

pub is_equal_date_range_iff : (a b : DateRange) → (is_equal_date_range a b ≡ true) ↔ (a ≡ b)
is_equal_date_range_iff a b = ground arith
