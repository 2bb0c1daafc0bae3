-- ===== src/Time/Merge/Coverage.antt =====
-- The instants that the ranges of `mergeDateRangesFromIterable` cover.
use aleph_indexer_framework.Prelude.{
  ℕ, ◌+◌, ◌≤◌, ◌≡◌, refl, ap, Bool, false, ◌||◌, List, [], ◌∷◌, Option, none, some, arith,
  any-append, ◌∙◌,
}
use aleph_indexer_framework.Time.Range.{DateRange, IsValid, holds, covers}
use aleph_indexer_framework.Time.Merge.{
  MergeState, merge_init, merge_adjacent, merge_apart, merge_valid, merge_loop, merge_finish,
  merge_end, merge_date_ranges,
}
use aleph_indexer_framework.Time.Merge.Steps.{merge_step-valid}

-- Valid ranges whose starts do not fall, from `lo` on.
abbrev pub IsAscending : ℕ → List DateRange → Type 0
IsAscending lo [] = Unit
IsAscending lo (r ∷ rs) = (lo ≤ r.start_date) × IsValid r × IsAscending r.start_date rs

abbrev prev_covers : Option DateRange → ℕ → Bool
prev_covers none t = false
prev_covers (some p) t = holds t p

abbrev pub PrevBelow : Option DateRange → ℕ → Type 0
PrevBelow none lo = Unit
PrevBelow (some p) lo = (p.start_date ≤ lo) × IsValid p

abbrev state_covers : MergeState → ℕ → Bool
state_covers s t = covers s.merged_ranges t || prev_covers s.prev_range t

adjacent-covers :
    (s : MergeState) (p r : DateRange) (t : ℕ)
    → p.start_date ≤ r.start_date
    → IsValid p
    → IsValid r
    → r.start_date ≤ p.end_date + 1
    → prev_covers (merge_adjacent s p r).prev_range t ≡ (holds t p || holds t r)
unfolding merge_adjacent
adjacent-covers s p r t h v w a = ground arith

merged-adjacent :
    (s : MergeState) (p r : DateRange) → (merge_adjacent s p r).merged_ranges ≡ s.merged_ranges
unfolding merge_adjacent
merged-adjacent s p r = refl

valid-covers :
    (s : MergeState) (o : Option DateRange) (r : DateRange) (t : ℕ)
    → s.prev_range ≡ o
    → PrevBelow o r.start_date
    → IsValid r
    → state_covers (merge_valid s o r) t ≡ (state_covers s t || holds t r)
unfolding merge_valid merge_apart
valid-covers s none r t e b v = ground arith
valid-covers s (some p) r t e b v = ground (
  arith,
  adjacent-covers s p r t b.0 b.1 v,
  merged-adjacent s p r,
  any-append (holds t) s.merged_ranges (p ∷ []),
)

adjacent-PrevBelow :
    (s : MergeState) (p r : DateRange)
    → p.start_date ≤ r.start_date
    → IsValid p
    → IsValid r
    → PrevBelow (merge_adjacent s p r).prev_range r.start_date
unfolding merge_adjacent
adjacent-PrevBelow s p r h v w = ground arith

pub valid-PrevBelow :
    (s : MergeState) (o : Option DateRange) (r : DateRange)
    → PrevBelow o r.start_date
    → IsValid r
    → PrevBelow (merge_valid s o r).prev_range r.start_date
unfolding merge_valid merge_apart
valid-PrevBelow s none r b v = ground arith
valid-PrevBelow s (some p) r b v = ground (arith, adjacent-PrevBelow s p r b.0 b.1 v)

pub PrevBelow-mono : (o : Option DateRange) (a b : ℕ) → a ≤ b → PrevBelow o a → PrevBelow o b
PrevBelow-mono none a b h p = tt
PrevBelow-mono (some r) a b h p = omega arith

loop-covers :
    (s : MergeState) (lo : ℕ) (rs : List DateRange) (t : ℕ)
    → PrevBelow s.prev_range lo
    → IsAscending lo rs
    → state_covers (merge_loop s rs) t ≡ (state_covers s t || covers rs t)
unfolding merge_loop
loop-covers s lo [] t b a = ground arith
loop-covers s lo (r ∷ rs) t b a =
    let b' = PrevBelow-mono s.prev_range lo r.start_date a.0 b in
    ap (λ (u : MergeState). state_covers (merge_loop u rs) t) (merge_step-valid s r a.1)
    ∙ loop-covers (merge_valid s s.prev_range r) r.start_date rs t
        (valid-PrevBelow s s.prev_range r b' a.1) a.2
    ∙ ground (arith, valid-covers s s.prev_range r t refl b' a.1)

finish-covers :
    (s : MergeState) (o : Option DateRange) (t : ℕ)
    → covers (merge_finish s o).merged_ranges t ≡ (covers s.merged_ranges t || prev_covers o t)
unfolding merge_finish
finish-covers s none t = ground arith
finish-covers s (some p) t = ground (arith, any-append (holds t) s.merged_ranges (p ∷ []))

-- For a stream of valid ranges in ascending order of their starts, an instant lies in one of the
-- merged ranges exactly when it lies in one of the ranges that were read.
pub covers-merge_date_ranges :
    (rs : List DateRange) (t : ℕ)
    → IsAscending 0 rs
    → covers (merge_date_ranges rs).merged_ranges t ≡ covers rs t
unfolding merge_date_ranges merge_end
covers-merge_date_ranges rs t a =
    finish-covers (merge_loop merge_init rs) (merge_loop merge_init rs).prev_range t
    ∙ loop-covers merge_init 0 rs t tt a
