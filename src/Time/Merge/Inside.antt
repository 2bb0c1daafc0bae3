-- ===== src/Time/Merge/Inside.antt =====
-- The ranges that `mergeDateRangesFromIterable` gives for deletion, and the merged ranges.
use aleph_indexer_framework.Prelude.{
  ℕ, ◌+◌, ◌≤◌, ◌≡◌, refl, sym, ap, subst, Bool, true, false, not, ◌&&◌, ◌||◌, List, [], ◌∷◌, ◌++◌,
  Option, none, some, any, leb, inl, inr, arith, All, All-append, Bool-cases, any-append,
}
use aleph_indexer_framework.Time.Range.{DateRange, is_equal_date_range, IsValid}
use aleph_indexer_framework.Time.Merge.{
  MergeState, merge_init, push_if, union_range, merge_adjacent, merge_apart, merge_valid,
  merge_loop, merge_finish, merge_end, merge_date_ranges,
}
use aleph_indexer_framework.Time.Merge.Steps.{merge_step-valid}
use aleph_indexer_framework.Time.Merge.Coverage.{
  IsAscending, PrevBelow, PrevBelow-mono, valid-PrevBelow,
}

-- `o` lies in `m`, and is another range.
abbrev pub inside : DateRange → DateRange → Bool
inside o m =
    leb m.start_date o.start_date && leb o.end_date m.end_date && not (is_equal_date_range m o)

abbrev inside_prev : DateRange → Option DateRange → Bool
inside_prev o none = false
inside_prev o (some p) = inside o p

-- A valid range inside a complete one or the previous one.
abbrev Inside : List DateRange → Option DateRange → DateRange → Type 0
Inside ms prev o = IsValid o × ((any (inside o) ms || inside_prev o prev) ≡ true)

All-push :
    (P : DateRange → Type 0) (b : Bool) (r : DateRange) (rs : List DateRange)
    → (b ≡ true → P r)
    → All P rs
    → All P (push_if b r rs)
All-push P true r rs h hs = All-append P rs (r ∷ []) hs (h refl, tt)
All-push P false r rs h hs = hs

All-Inside :
    (ms ms' : List DateRange) (prev prev' : Option DateRange) (os : List DateRange)
    → ((o : DateRange) → Inside ms prev o → Inside ms' prev' o)
    → All (Inside ms prev) os
    → All (Inside ms' prev') os
All-Inside ms ms' prev prev' [] f h = tt
All-Inside ms ms' prev prev' (o ∷ os) f h = (f o h.0, All-Inside ms ms' prev prev' os f h.1)

adjacent-Inside :
    (s : MergeState) (p r : DateRange)
    → p.start_date ≤ r.start_date
    → IsValid p
    → IsValid r
    → All (Inside s.merged_ranges (some p)) s.old_ranges
    → All
        (Inside s.merged_ranges (merge_adjacent s p r).prev_range)
        (merge_adjacent s p r).old_ranges
unfolding merge_adjacent
adjacent-Inside s p r le vp vr h =
    let u = union_range p r in
    let P = Inside s.merged_ranges (merge_adjacent s p r).prev_range in
    let equal_to_range = is_equal_date_range r u in
    let equal_to_prev_range = is_equal_date_range p u in
    All-push P (not s.prev_merged && not equal_to_prev_range) p
      (push_if (not equal_to_range) r s.old_ranges) (λ e. (vp, ground (arith, e, le)))
      (All-push P (not equal_to_range) r s.old_ranges (λ e. (vr, ground (arith, e, le)))
        (All-Inside s.merged_ranges s.merged_ranges (some p) (merge_adjacent s p r).prev_range
          s.old_ranges (λ o k. (k.0, ground (arith, k.1, k.0, le))) h))

valid-Inside :
    (s : MergeState) (o : Option DateRange) (r : DateRange)
    → s.prev_range ≡ o
    → PrevBelow o r.start_date
    → IsValid r
    → All (Inside s.merged_ranges s.prev_range) s.old_ranges
    → All
        (Inside (merge_valid s o r).merged_ranges (merge_valid s o r).prev_range)
        (merge_valid s o r).old_ranges
unfolding merge_valid merge_adjacent merge_apart
valid-Inside s none r e b v h =
    All-Inside s.merged_ranges s.merged_ranges s.prev_range (some r) s.old_ranges
      (λ o k. (k.0, ground (arith, k.1, ap (inside_prev o) e))) h
valid-Inside s (some p) r e b v h = elim (Bool-cases (leb r.start_date (p.end_date + 1))) [
  | inl q ↦ rw q (
      adjacent-Inside s p r b.0 b.1 v
        (subst (λ o. All (Inside s.merged_ranges o) s.old_ranges) e h))
  | inr q ↦ rw q (
      All-Inside s.merged_ranges (s.merged_ranges ++ p ∷ []) s.prev_range (some r) s.old_ranges
        (λ o k. (
          k.0,
          ground (arith, k.1, ap (inside_prev o) e, any-append (inside o) s.merged_ranges (p ∷ [])),
        ))
        h)
]

loop-Inside :
    (s : MergeState) (lo : ℕ) (rs : List DateRange)
    → PrevBelow s.prev_range lo
    → IsAscending lo rs
    → All (Inside s.merged_ranges s.prev_range) s.old_ranges
    → All
        (Inside (merge_loop s rs).merged_ranges (merge_loop s rs).prev_range)
        (merge_loop s rs).old_ranges
unfolding merge_loop
loop-Inside s lo [] b a h = h
loop-Inside s lo (r ∷ rs) b a h =
    let b' = PrevBelow-mono s.prev_range lo r.start_date a.0 b in
    subst
      (λ (u : MergeState).
        All (Inside (merge_loop u rs).merged_ranges (merge_loop u rs).prev_range)
          (merge_loop u rs).old_ranges)
      (sym (merge_step-valid s r a.1))
      (loop-Inside (merge_valid s s.prev_range r) r.start_date rs
        (valid-PrevBelow s s.prev_range r b' a.1) a.2 (valid-Inside s s.prev_range r refl b' a.1 h))

finish-Inside :
    (s : MergeState) (o : Option DateRange)
    → All (Inside s.merged_ranges o) s.old_ranges
    → All (Inside (merge_finish s o).merged_ranges none) (merge_finish s o).old_ranges
unfolding merge_finish
finish-Inside s none h = h
finish-Inside s (some p) h =
    All-Inside s.merged_ranges (s.merged_ranges ++ p ∷ []) (some p) none s.old_ranges
      (λ o k. (k.0, ground (arith, k.1, any-append (inside o) s.merged_ranges (p ∷ [])))) h

Inside-plain :
    (ms os : List DateRange)
    → All (Inside ms none) os
    → All (λ o. IsValid o × (any (inside o) ms ≡ true)) os
Inside-plain ms [] h = tt
Inside-plain ms (o ∷ os) h = ((h.0.0, ground (arith, h.0.1)), Inside-plain ms os h.1)

-- For a stream of valid ranges in ascending order of their starts: each range to delete lies in a
-- merged range that is another one.
pub old_ranges-inside :
    (rs : List DateRange)
    → IsAscending 0 rs
    → All
        (λ o. IsValid o × (any (inside o) (merge_date_ranges rs).merged_ranges ≡ true))
        (merge_date_ranges rs).old_ranges
unfolding merge_date_ranges merge_end
old_ranges-inside rs a =
    let s = merge_loop merge_init rs in
    Inside-plain (merge_finish s s.prev_range).merged_ranges
      (merge_finish s s.prev_range).old_ranges
      (finish-Inside s s.prev_range (loop-Inside merge_init 0 rs tt a tt))
