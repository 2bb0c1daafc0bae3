-- ===== src/Time/Clip.antt =====
-- `clipDateRanges` and `clipDateRangesFromIterable` of packages/framework/src/utils/time.ts. A
-- `Record<string, DateRange>` is a list of keys with their ranges in the order of insertion, which
-- is the order of `Object.entries` for keys that are no array indices.
pub mod Table
pub mod Entry
pub mod Round
pub mod Order
pub mod Coverage
pub mod Valid
use aleph_indexer_framework.Prelude.{
  ℕ, ◌+◌, ◌-◌, Bool, true, false, ◌&&◌, List, [], ◌∷◌, ◌++◌, ltb, leb, if◌then◌else◌,
}
use aleph_indexer_framework.Time.Range.{DateRange, range}
use aleph_indexer_framework.Time.Decimal.{decimal, same_text}

abbrev pub Table : Type 0
Table = List (List ℕ × DateRange)

-- `${range.startDate}${range.endDate}`
unfoldable pub range_id : DateRange → List ℕ
range_id r = decimal r.start_date ++ decimal r.end_date

-- ranges[id] = r
pub assign : List ℕ → DateRange → Table → Table
assign k r [] = (k, r) ∷ []
assign k r ((j, x) ∷ m) = if same_text k j then (j, r) ∷ m else (j, x) ∷ assign k r m

-- delete ranges[id]
pub delete : List ℕ → Table → Table
delete k [] = []
delete k ((j, x) ∷ m) = let rest = delete k m in if same_text k j then rest else (j, x) ∷ rest

-- Object.values
abbrev pub values : Table → List DateRange
values [] = []
values ((k, r) ∷ m) = r ∷ values m

-- The tests of the four branches, in their order.
abbrev pub clips_middle : DateRange → DateRange → Bool
clips_middle c r =
    ltb r.start_date c.start_date
    && ltb c.start_date r.end_date
    && ltb r.start_date c.end_date
    && ltb c.end_date r.end_date

abbrev pub clips_left : DateRange → DateRange → Bool
clips_left c r =
    leb c.start_date r.start_date && leb r.start_date c.end_date && ltb c.end_date r.end_date

abbrev pub clips_right : DateRange → DateRange → Bool
clips_right c r =
    leb r.end_date c.end_date && leb c.start_date r.end_date && ltb r.start_date c.start_date

abbrev pub clips_whole : DateRange → DateRange → Bool
clips_whole c r = leb c.start_date r.start_date && leb r.end_date c.end_date

-- It is used where the clip range starts after the other, so its start is positive.
abbrev pub left_range : DateRange → DateRange → DateRange
left_range c r = range r.start_date (c.start_date - 1)

abbrev pub right_range : DateRange → DateRange → DateRange
right_range c r = range (c.end_date + 1) r.end_date

abbrev pub assign_range : DateRange → Table → Table
assign_range r m = assign (range_id r) r m

-- One round of the loop over the entries.
pub clip_entry : DateRange → List ℕ → DateRange → Table → Table
clip_entry c k r m =
    if clips_middle c r
    then delete k (assign_range (right_range c r) (assign_range (left_range c r) m))
    else if clips_left c r
    then delete k (assign_range (right_range c r) m)
    else if clips_right c r
    then delete k (assign_range (left_range c r) m)
    else if clips_whole c r
    then delete k m
    else m

-- The loop goes over the entries that the table had before it, and changes the table.
pub clip_entries : DateRange → Table → Table → Table
clip_entries c [] m = m
clip_entries c ((k, r) ∷ es) m = clip_entries c es (clip_entry c k r m)

pub clip_date_ranges : Table → DateRange → Table
clip_date_ranges m c = clip_entries c m m

-- clipDateRangesFromIterable on a table.
pub clip_table : Table → List DateRange → Table
clip_table m [] = m
clip_table m (c ∷ cs) = clip_table (clip_date_ranges m c) cs

-- Object.fromEntries: a later entry with the same key wins, and keeps the place of the first.
pub from_entries : Table → List DateRange → Table
from_entries m [] = m
from_entries m (r ∷ rs) = from_entries (assign_range r m) rs

-- sort((a, b) => a.startDate - b.startDate), which is stable.
pub insert_range : DateRange → List DateRange → List DateRange
insert_range r [] = r ∷ []
insert_range r (x ∷ xs) =
    if ltb x.start_date r.start_date then x ∷ insert_range r xs else r ∷ x ∷ xs

pub sort_ranges : List DateRange → List DateRange
sort_ranges [] = []
sort_ranges (r ∷ rs) = insert_range r (sort_ranges rs)

-- clipDateRangesFromIterable on an array.
pub clip_date_ranges_from_iterable : List DateRange → List DateRange → List DateRange
clip_date_ranges_from_iterable rs cs = sort_ranges (values (clip_table (from_entries [] rs) cs))
