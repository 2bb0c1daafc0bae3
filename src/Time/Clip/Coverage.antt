-- ===== src/Time/Clip/Coverage.antt =====
-- The instants that are covered after clipping.
use aleph_indexer_framework.Prelude.{
  ℕ, ◌≡◌, refl, true, false, not, ◌&&◌, ◌||◌, List, [], ◌∷◌, inl, inr, arith, All, All-zip_with,
  Bool-cases,
}
use aleph_indexer_framework.Time.Range.{DateRange, holds, covers, is_equal_date_range_iff}
use aleph_indexer_framework.Time.Clip.{
  Table, range_id, values, assign_range, clip_entry, clip_entries, clip_date_ranges, clip_table,
  from_entries, sort_ranges, insert_range, clip_date_ranges_from_iterable,
}
use aleph_indexer_framework.Time.Clip.Table.{
  IsStamped, IsKeyed, table_covers, covers-assign, assign-keeps,
}
use aleph_indexer_framework.Time.Clip.Entry.{clip_entry_view}
use aleph_indexer_framework.Time.Clip.Round.{Waiting, view-IsKeyed, view-covers, view-Waiting}

-- The loop over the entries `es` of the table, from the table `m` on.
entries-IsKeyed :
    (c : DateRange) (es m : Table)
    → All IsKeyed es
    → All IsKeyed m
    → All IsKeyed (clip_entries c es m)
unfolding clip_entries
entries-IsKeyed c [] m k a = a
entries-IsKeyed c ((j, r) ∷ es) m k a = rw k.0.0 (
    entries-IsKeyed c es (clip_entry c (range_id r) r m) k.1
      (view-IsKeyed c r m k.0.1 a (clip_entry_view c r m k.0.1)))

entries-lower :
    (c : DateRange) (es m : Table) (t : ℕ)
    → holds t c ≡ false
    → All IsKeyed es
    → All IsKeyed m
    → table_covers m t ≡ true
    → table_covers (clip_entries c es m) t ≡ true
unfolding clip_entries
entries-lower c [] m t h k a b = b
entries-lower c ((j, r) ∷ es) m t h k a b =
    let v = clip_entry_view c r m k.0.1 in
    rw k.0.0 (
      entries-lower c es (clip_entry c (range_id r) r m) t h k.1 (view-IsKeyed c r m k.0.1 a v)
        ((view-covers c r m k.0.1 a t v).0 h b))

entries-upper :
    (c : DateRange) (es m : Table) (t : ℕ)
    → All IsKeyed es
    → All IsKeyed m
    → table_covers (clip_entries c es m) t ≡ true
    → (table_covers m t || table_covers es t) ≡ true
unfolding clip_entries
entries-upper c [] m t k a b = ground arith
entries-upper c ((j, r) ∷ es) m t k a b =
    let v = clip_entry_view c r m k.0.1 in
    let b' = rw k.0.0 at b in
    ground (
      arith,
      (view-covers c r m k.0.1 a t v).1,
      entries-upper c es (clip_entry c (range_id r) r m) t k.1 (view-IsKeyed c r m k.0.1 a v) b',
    )

entries-Waiting :
    (c : DateRange) (es m : Table) (t : ℕ)
    → holds t c ≡ true
    → All IsKeyed es
    → All IsKeyed m
    → All (Waiting t (values es)) m
    → All (Waiting t []) (clip_entries c es m)
unfolding clip_entries
entries-Waiting c [] m t h k a w = w
entries-Waiting c ((j, r) ∷ es) m t h k a w =
    let v = clip_entry_view c r m k.0.1 in
    rw k.0.0 (
      entries-Waiting c es (clip_entry c (range_id r) r m) t h k.1 (view-IsKeyed c r m k.0.1 a v)
        (view-Waiting c r m k.0.1 a t (values es) h v w))

nothing-Waiting : (t : ℕ) (m : Table) → All (Waiting t []) m → table_covers m t ≡ false
nothing-Waiting t [] w = refl
nothing-Waiting t ((k, r) ∷ m) w = ground (arith, w.0, nothing-Waiting t m w.1)

-- At the start every entry waits.
Waiting-more :
    (t : ℕ) (r : DateRange) (rs : List DateRange) (m : Table)
    → All (Waiting t rs) m
    → All (Waiting t (r ∷ rs)) m
Waiting-more t r rs m w =
    All-zip_with (Waiting t rs) (Waiting t rs) (Waiting t (r ∷ rs)) (λ e p q a. ground (arith, p a))
      m w w

All-Waiting : (t : ℕ) (m : Table) → All (Waiting t (values m)) m
All-Waiting t [] = tt
All-Waiting t ((k, r) ∷ m) = (
  (λ a. ground (arith, is_equal_date_range_iff r r)),
  Waiting-more t r (values m) m (All-Waiting t m),
)

pub covers-clip_date_ranges :
    (m : Table) (c : DateRange) (t : ℕ)
    → All IsKeyed m
    → table_covers (clip_date_ranges m c) t ≡ (table_covers m t && not (holds t c))
unfolding clip_date_ranges
covers-clip_date_ranges m c t k = elim (Bool-cases (holds t c)) [
  | inl h ↦ ground (
    arith,
    nothing-Waiting t (clip_entries c m m) (entries-Waiting c m m t h k k (All-Waiting t m)),
  )
  | inr h ↦ ground (arith, entries-lower c m m t h k k, entries-upper c m m t k k)
]

clip_date_ranges-IsKeyed :
    (m : Table) (c : DateRange) → All IsKeyed m → All IsKeyed (clip_date_ranges m c)
unfolding clip_date_ranges
clip_date_ranges-IsKeyed m c k = entries-IsKeyed c m m k k

-- Where all dates have 13 digits and each range stands under its own key, the table that is left
-- covers the instants of the table that lie in no clip range.
pub covers-clip_table :
    (m : Table) (cs : List DateRange) (t : ℕ)
    → All IsKeyed m
    → table_covers (clip_table m cs) t ≡ (table_covers m t && not (covers cs t))
unfolding clip_table
covers-clip_table m [] t k = ground arith
covers-clip_table m (c ∷ cs) t k = ground (
  arith,
  covers-clip_date_ranges m c t k,
  covers-clip_table (clip_date_ranges m c) cs t (clip_date_ranges-IsKeyed m c k),
)

from_entries-IsKeyed :
    (m : Table) (rs : List DateRange)
    → All IsKeyed m
    → All IsStamped rs
    → All IsKeyed (from_entries m rs)
unfolding from_entries
from_entries-IsKeyed m [] k h = k
from_entries-IsKeyed m (r ∷ rs) k h =
    from_entries-IsKeyed (assign_range r m) rs (assign-keeps IsKeyed r m h.0 (refl, h.0) k k) h.1

covers-from_entries :
    (m : Table) (rs : List DateRange) (t : ℕ)
    → All IsKeyed m
    → All IsStamped rs
    → table_covers (from_entries m rs) t ≡ (table_covers m t || covers rs t)
unfolding from_entries
covers-from_entries m [] t k h = ground arith
covers-from_entries m (r ∷ rs) t k h = ground (
  arith,
  covers-assign r m t h.0 k,
  covers-from_entries (assign_range r m) rs t (assign-keeps IsKeyed r m h.0 (refl, h.0) k k) h.1,
)

covers-insert_range :
    (r : DateRange) (rs : List DateRange) (t : ℕ)
    → covers (insert_range r rs) t ≡ (holds t r || covers rs t)
unfolding insert_range
covers-insert_range r [] t = refl
covers-insert_range r (x ∷ xs) t = ground (arith, covers-insert_range r xs t)

covers-sort_ranges : (rs : List DateRange) (t : ℕ) → covers (sort_ranges rs) t ≡ covers rs t
unfolding sort_ranges
covers-sort_ranges [] t = refl
covers-sort_ranges (r ∷ rs) t =
    ground (arith, covers-insert_range r (sort_ranges rs) t, covers-sort_ranges rs t)

-- Where all dates of the ranges have 13 digits, the array that is returned covers exactly the
-- instants of the ranges that lie in no clip range. The clip ranges may be any.
pub covers-clip_date_ranges_from_iterable :
    (rs cs : List DateRange) (t : ℕ)
    → All IsStamped rs
    → covers (clip_date_ranges_from_iterable rs cs) t ≡ (covers rs t && not (covers cs t))
unfolding clip_date_ranges_from_iterable
covers-clip_date_ranges_from_iterable rs cs t h =
    let m = from_entries [] rs in
    ground (
      arith,
      covers-sort_ranges (values (clip_table m cs)) t,
      covers-clip_table m cs t (from_entries-IsKeyed [] rs tt h),
      covers-from_entries [] rs t tt h,
    )
