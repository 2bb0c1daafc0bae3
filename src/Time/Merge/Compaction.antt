-- ===== src/Time/Merge/Compaction.antt =====
-- Which ranges `mergeDateRangesFromIterable` asks its caller to save and to delete.
use aleph_indexer_framework.Prelude.{
  ℕ, ◌+◌, ◌≤◌, ◌<◌, ◌≡◌, refl, Bool, false, List, [], ◌∷◌, ◌++◌, Option, none, some, arith,
  if◌then◌else◌,
}
use aleph_indexer_framework.Time.Range.{DateRange, IsValid, is_equal_date_range}
use aleph_indexer_framework.Time.Merge.{
  MergeState, merge_init, merge_adjacent, merge_apart, merge_valid, merge_loop, merge_finish,
  merge_end, merge_date_ranges,
}
use aleph_indexer_framework.Time.Merge.Steps.{
  merge_date_ranges_lem, loop-cons, step-init, merge_step-valid,
}

-- How often the list holds the range.
abbrev pub occurrences : DateRange → List DateRange → ℕ
occurrences x [] = 0
occurrences x (r ∷ rs) = (if is_equal_date_range x r then 1 else 0) + occurrences x rs

pub occurrences-append :
    (x : DateRange) (rs ss : List DateRange)
    → occurrences x (rs ++ ss) ≡ occurrences x rs + occurrences x ss
occurrences-append x [] ss = omega arith
occurrences-append x (r ∷ rs) ss = omega (arith, occurrences-append x rs ss)

-- Valid ranges whose starts do not fall below `lo` and whose ends rise above `hi`.
abbrev pub RisesFrom : ℕ → ℕ → List DateRange → Type 0
RisesFrom lo hi [] = Unit
RisesFrom lo hi (r ∷ rs) =
    (lo ≤ r.start_date) × (hi < r.end_date) × IsValid r × RisesFrom r.start_date r.end_date rs

-- Valid ranges in ascending order of their starts, each ending later than those before it.
abbrev pub IsRising : List DateRange → Type 0
IsRising [] = Unit
IsRising (r ∷ rs) = IsValid r × RisesFrom r.start_date r.end_date rs

-- What the previous range adds to the two sides of the balance below.
abbrev pending : DateRange → Option DateRange → ℕ
pending x none = 0
pending x (some p) = occurrences x (p ∷ [])

abbrev pending_new : DateRange → Bool → Option DateRange → ℕ
pending_new x b o = if b then pending x o else 0

-- The ranges read and those to save are the merged ranges and those to delete.
abbrev Balance : ℕ → DateRange → MergeState → Type 0
Balance n x s =
    n + occurrences x s.new_ranges + pending_new x s.prev_merged s.prev_range
    ≡ occurrences x s.merged_ranges + pending x s.prev_range + occurrences x s.old_ranges

adjacent-Balance :
    (n : ℕ) (x : DateRange) (s : MergeState) (p r : DateRange)
    → s.prev_range ≡ some p
    → p.start_date ≤ r.start_date
    → p.end_date < r.end_date
    → Balance n x s
    → Balance (n + occurrences x (r ∷ [])) x (merge_adjacent s p r)
unfolding merge_adjacent
adjacent-Balance n x s p r e l h b = ground (
  arith,
  occurrences-append x s.old_ranges (r ∷ []),
  occurrences-append x s.old_ranges (p ∷ []),
  occurrences-append x (s.old_ranges ++ r ∷ []) (p ∷ []),
)

abbrev PrevBefore : ℕ → ℕ → Option DateRange → Type 0
PrevBefore lo hi none = Unit
PrevBefore lo hi (some p) = (p.start_date ≤ lo) × (p.end_date ≤ hi)

valid-Balance :
    (n : ℕ) (x : DateRange) (s : MergeState) (o : Option DateRange) (r : DateRange) (lo hi : ℕ)
    → s.prev_range ≡ o
    → PrevBefore lo hi o
    → lo ≤ r.start_date
    → hi < r.end_date
    → (o ≡ none → s.prev_merged ≡ false)
    → Balance n x s
    → Balance (n + occurrences x (r ∷ [])) x (merge_valid s o r)
unfolding merge_valid merge_apart
valid-Balance n x s none r lo hi e pb l h z b = ground (arith, z refl)
valid-Balance n x s (some p) r lo hi e pb l h z b = ground (
  arith,
  adjacent-Balance n x s p r e,
  occurrences-append x s.merged_ranges (p ∷ []),
  occurrences-append x s.new_ranges (p ∷ []),
)

-- The previous range of a state that has none is no union.
abbrev Settled : MergeState → Type 0
Settled s = s.prev_range ≡ none → s.prev_merged ≡ false

valid-Settled :
    (s : MergeState) (o : Option DateRange) (r : DateRange) → Settled (merge_valid s o r)
unfolding merge_valid merge_apart merge_adjacent
valid-Settled s none r = λ e. cc
valid-Settled s (some p) r = λ e. ground arith

valid-PrevBefore :
    (s : MergeState) (o : Option DateRange) (r : DateRange) (lo hi : ℕ)
    → PrevBefore lo hi o
    → lo ≤ r.start_date
    → hi < r.end_date
    → PrevBefore r.start_date r.end_date (merge_valid s o r).prev_range
unfolding merge_valid merge_apart merge_adjacent
valid-PrevBefore s none r lo hi b l h = ground arith
valid-PrevBefore s (some p) r lo hi b l h = ground arith

loop-Balance :
    (n : ℕ) (x : DateRange) (s : MergeState) (rs : List DateRange) (lo hi : ℕ)
    → PrevBefore lo hi s.prev_range
    → Settled s
    → RisesFrom lo hi rs
    → Balance n x s
    → Balance (n + occurrences x rs) x (merge_loop s rs) × Settled (merge_loop s rs)
loop-Balance n x s [] lo hi pb z up b = unfold merge_loop in (omega arith, z)
loop-Balance n x s (r ∷ rs) lo hi pb z up b =
    let (b', z') =
      loop-Balance (n + occurrences x (r ∷ [])) x (merge_valid s s.prev_range r) rs r.start_date
        r.end_date (valid-PrevBefore s s.prev_range r lo hi pb up.0 up.1)
        (valid-Settled s s.prev_range r) up.3
        (valid-Balance n x s s.prev_range r lo hi refl pb up.0 up.1 z b) in
    rw (loop-cons s r rs, merge_step-valid s r up.2) (omega arith, z')

finish-Balance :
    (n : ℕ) (x : DateRange) (s : MergeState) (o : Option DateRange)
    → s.prev_range ≡ o
    → Settled s
    → Balance n x s
    → n + occurrences x (merge_finish s o).new_ranges
      ≡ occurrences x (merge_finish s o).merged_ranges + occurrences x (merge_finish s o).old_ranges
unfolding merge_finish
finish-Balance n x s none e z b = ground (arith, z e)
finish-Balance n x s (some p) e z b = ground (
  arith,
  occurrences-append x s.merged_ranges (p ∷ []),
  occurrences-append x s.new_ranges (p ∷ []),
)

end-Balance :
    (n : ℕ) (x : DateRange) (s : MergeState)
    → Settled s
    → Balance n x s
    → n + occurrences x (merge_end s).new_ranges
      ≡ occurrences x (merge_end s).merged_ranges + occurrences x (merge_end s).old_ranges
unfolding merge_end
end-Balance n x s = finish-Balance n x s s.prev_range refl

-- For valid ranges in ascending order of their starts, each ending later than those before it: every
-- range occurs in what was read and what is to be saved together as often as in the merged ranges
-- and what is to be deleted together.
pub merge_date_ranges-balance :
    (x : DateRange) (rs : List DateRange)
    → IsRising rs
    → occurrences x (rs ++ (merge_date_ranges rs).new_ranges)
      ≡ occurrences x ((merge_date_ranges rs).merged_ranges ++ (merge_date_ranges rs).old_ranges)
merge_date_ranges-balance x [] h =
    unfold merge_date_ranges merge_loop merge_end merge_finish in refl
merge_date_ranges-balance x (r ∷ rs) h =
    let s = record merge_init { prev_range = some r } in
    let (b, z) =
      loop-Balance (occurrences x (r ∷ [])) x s rs r.start_date r.end_date (omega arith) (λ e. cc)
        h.1 (omega arith) in
    let m = merge_end (merge_loop s rs) in
    rw (merge_date_ranges_lem, loop-cons merge_init r rs, step-init r h.0)
      (omega (
        arith,
        end-Balance (occurrences x (r ∷ rs)) x (merge_loop s rs) z (omega arith),
        occurrences-append x (r ∷ rs) m.new_ranges,
        occurrences-append x m.merged_ranges m.old_ranges,
      ))
