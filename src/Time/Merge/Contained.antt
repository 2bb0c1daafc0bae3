-- ===== src/Time/Merge/Contained.antt =====
-- A range inside the union of two earlier ones in `mergeDateRangesFromIterable`.
use aleph_indexer_framework.Prelude.{
  ◌+◌, ◌≤◌, ◌<◌, ◌≡◌, refl, Bool, true, false, List, [], ◌∷◌, ◌++◌, some, arith,
}
use aleph_indexer_framework.Time.Range.{DateRange, IsValid}
use aleph_indexer_framework.Time.Merge.{
  MergeState, merge_adjacent, merge_apart, merge_valid, merge_step, merge_loop, merge_finish,
  merge_end, merge_date_ranges, union_range,
}
use aleph_indexer_framework.Time.Merge.Steps.{merge_date_ranges_lem, loop-cons, step-init}

-- `r` starts after `p`, touches it, and ends after it.
abbrev pub Grows : DateRange → DateRange → Type 0
Grows p r =
    (p.start_date < r.start_date)
    × (r.start_date ≤ p.end_date + 1)
    × (p.end_date < r.end_date)
    × IsValid r

-- `r` starts after `p` and ends no later.
abbrev pub Inside : DateRange → DateRange → Type 0
Inside p r = (p.start_date < r.start_date) × (r.end_date ≤ p.end_date) × IsValid r

abbrev state : List DateRange → List DateRange → DateRange → Bool → MergeState
state merged old p b = record {
  merged_ranges = merged;
  old_ranges = old;
  new_ranges = [];
  prev_range = some p;
  prev_merged = b;
}

step-Grows :
    (merged old : List DateRange) (p r : DateRange)
    → Grows p r
    → merge_step (state merged old p false) r
      ≡ state merged ((old ++ r ∷ []) ++ p ∷ []) (union_range p r) true
unfolding merge_step merge_valid merge_adjacent
step-Grows merged old p r h = ground arith

step-Inside :
    (merged old : List DateRange) (p r : DateRange)
    → Inside p r
    → merge_step (state merged old p true) r ≡ state merged (old ++ r ∷ []) p false
unfolding merge_step merge_valid merge_adjacent
step-Inside merged old p r h = ground arith

step-apart :
    (merged old : List DateRange) (p r : DateRange)
    → p.end_date + 1 < r.start_date
    → IsValid r
    → merge_step (state merged old p false) r ≡ state (merged ++ p ∷ []) old r false
unfolding merge_step merge_valid merge_apart
step-apart merged old p r h v = ground arith

end-state :
    (merged old : List DateRange) (p : DateRange)
    → merge_end (merge_loop (state merged old p true) [])
      ≡ record { merged_ranges = merged ++ p ∷ []; old_ranges = old; new_ranges = p ∷ [] }
unfolding merge_loop merge_end merge_finish
end-state merged old p = refl

-- Read `a`, then `b` that prolongs it, then `c` inside their union, then `d` apart from it and `e`
-- that prolongs `d`, all valid: the ranges to delete are all five, and the only one to save is the
-- union of `d` and `e`. The union of `a` and `b` is among the merged ranges, and is not saved.
pub union_not_saved :
    (a b c d e : DateRange)
    → IsValid a
    → Grows a b
    → Inside (union_range a b) c
    → b.end_date + 1 < d.start_date
    → IsValid d
    → Grows d e
    → merge_date_ranges (a ∷ b ∷ c ∷ d ∷ e ∷ []) ≡ record {
      merged_ranges = union_range a b ∷ union_range d e ∷ [];
      old_ranges = b ∷ a ∷ c ∷ e ∷ d ∷ [];
      new_ranges = union_range d e ∷ [];
    }
union_not_saved a b c d e va gb ic gap vd ge =
    rw
      (
        merge_date_ranges_lem,
        loop-cons,
        step-init a va,
        loop-cons,
        step-Grows [] [] a b gb,
        loop-cons,
        step-Inside [] (b ∷ a ∷ []) (union_range a b) c ic,
        loop-cons,
        step-apart [] (b ∷ a ∷ c ∷ []) (union_range a b) d (omega arith) vd,
        loop-cons,
        step-Grows (union_range a b ∷ []) (b ∷ a ∷ c ∷ []) d e ge,
        end-state (union_range a b ∷ []) (b ∷ a ∷ c ∷ e ∷ d ∷ []) (union_range d e),
      )
      refl
