-- ===== src/Time/Merge/Separated.antt =====
-- The gaps between the merged ranges of `mergeDateRangesFromIterable`.
use aleph_indexer_framework.Prelude.{
  ℕ, ◌+◌, ◌≤◌, ◌<◌, ◌≡◌, refl, false, List, [], ◌∷◌, ◌++◌, Option, none, some, arith, All,
  All-append, append_assoc, Bool-cases, inl, inr, leb, ltb,
}
use aleph_indexer_framework.Time.Range.{DateRange, IsValid}
use aleph_indexer_framework.Time.Merge.{
  MergeState, merge_init, merge_adjacent, merge_apart, merge_valid, merge_step, merge_loop,
  merge_finish, merge_end, merge_date_ranges, union_range,
}
use aleph_indexer_framework.Time.Merge.Steps.{loop-cons, step-init}

-- Every range of the list ends at least two instants before `n`.
abbrev pub EndBefore : ℕ → List DateRange → Type 0
EndBefore n rs = All (λ r. r.end_date + 1 < n) rs

-- Valid ranges, each with a gap of an instant at least before all that come later.
abbrev pub IsSeparated : List DateRange → Type 0
IsSeparated [] = Unit
IsSeparated (r ∷ rs) = IsValid r × All (λ x. r.end_date + 1 < x.start_date) rs × IsSeparated rs

IsSeparated-snoc :
    (rs : List DateRange) (p : DateRange)
    → IsSeparated rs
    → IsValid p
    → EndBefore p.start_date rs
    → IsSeparated (rs ++ p ∷ [])
IsSeparated-snoc [] p h v b = (v, tt, tt)
IsSeparated-snoc (r ∷ rs) p h v b = (
  h.0,
  All-append (λ x. r.end_date + 1 < x.start_date) rs (p ∷ []) h.1 (b.0, tt),
  IsSeparated-snoc rs p h.2 v b.1,
)

EndBefore-mono : (rs : List DateRange) (a b : ℕ) → a ≤ b → EndBefore a rs → EndBefore b rs
EndBefore-mono [] a b h e = tt
EndBefore-mono (r ∷ rs) a b h e = (omega arith, EndBefore-mono rs a b h e.1)

abbrev PrevApart : List DateRange → Option DateRange → Type 0
PrevApart rs none = ◌≡◌ {A = List DateRange} rs []
PrevApart rs (some p) = IsValid p × EndBefore p.start_date rs

abbrev Apart : MergeState → Type 0
Apart s = IsSeparated s.merged_ranges × PrevApart s.merged_ranges s.prev_range

-- Whichever object the loop keeps, its dates are those of the union.
adjacent-prev :
    (s : MergeState) (p r : DateRange) → (merge_adjacent s p r).prev_range ≡ some (union_range p r)
unfolding merge_adjacent
adjacent-prev s p r = ground arith

merged-adjacent :
    (s : MergeState) (p r : DateRange) → (merge_adjacent s p r).merged_ranges ≡ s.merged_ranges
unfolding merge_adjacent
merged-adjacent s p r = refl

adjacent-Apart :
    (s : MergeState) (p r : DateRange)
    → IsValid r
    → IsSeparated s.merged_ranges
    → PrevApart s.merged_ranges (some p)
    → Apart (merge_adjacent s p r)
adjacent-Apart s p r v m h = rw (merged-adjacent s p r, adjacent-prev s p r) (m, (omega arith, h.1))

valid-Apart :
    (s : MergeState) (o : Option DateRange) (r : DateRange)
    → IsValid r
    → IsSeparated s.merged_ranges
    → PrevApart s.merged_ranges o
    → Apart (merge_valid s o r)
unfolding merge_valid merge_apart
valid-Apart s none r v m h = (m, (v, rw h tt))
valid-Apart s (some p) r v m h = elim (Bool-cases (leb r.start_date (p.end_date + 1))) [
  | inl near ↦ rw near (adjacent-Apart s p r v m h)
  | inr far ↦
      let gap : p.end_date + 1 < r.start_date = ground arith in
      rw far (
        IsSeparated-snoc s.merged_ranges p m h.0 h.1,
        (
          v,
          All-append (λ x. x.end_date + 1 < r.start_date) s.merged_ranges (p ∷ [])
              (EndBefore-mono s.merged_ranges p.start_date r.start_date (omega arith) h.1)
              (gap, tt),
        ),
      )
]

step-Apart : (s : MergeState) (r : DateRange) → Apart s → Apart (merge_step s r)
unfolding merge_step
step-Apart s r h = elim (Bool-cases (ltb r.end_date r.start_date)) [
  | inl bad ↦ rw bad h
  | inr good ↦ rw good (valid-Apart s s.prev_range r (ground arith) h.0 h.1)
]

loop-Apart : (s : MergeState) (rs : List DateRange) → Apart s → Apart (merge_loop s rs)
unfolding merge_loop
loop-Apart s [] h = h
loop-Apart s (r ∷ rs) h = loop-Apart (merge_step s r) rs (step-Apart s r h)

finish-IsSeparated :
    (s : MergeState) (o : Option DateRange)
    → IsSeparated s.merged_ranges
    → PrevApart s.merged_ranges o
    → IsSeparated (merge_finish s o).merged_ranges
unfolding merge_finish
finish-IsSeparated s none m h = m
finish-IsSeparated s (some p) m h = IsSeparated-snoc s.merged_ranges p m h.0 h.1

-- Whatever the stream holds, in whatever order, the merged ranges are valid and each ends at least
-- two instants before every later one starts.
pub merge_date_ranges-IsSeparated :
    (rs : List DateRange) → IsSeparated (merge_date_ranges rs).merged_ranges
unfolding merge_date_ranges merge_end
merge_date_ranges-IsSeparated rs =
    let h = loop-Apart merge_init rs (tt, refl) in
    finish-IsSeparated (merge_loop merge_init rs) (merge_loop merge_init rs).prev_range h.0 h.1

-- The state of the loop after separated ranges: all but the last are complete.
abbrev reading : List DateRange → DateRange → MergeState
reading done p = record {
  merged_ranges = done;
  old_ranges = [];
  new_ranges = [];
  prev_range = some p;
  prev_merged = false;
}

step-reading :
    (done : List DateRange) (p r : DateRange)
    → p.end_date + 1 < r.start_date
    → IsValid r
    → merge_step (reading done p) r ≡ reading (done ++ p ∷ []) r
unfolding merge_step merge_valid merge_apart
step-reading done p r gap v = ground arith

end-reading :
    (done : List DateRange) (p : DateRange)
    → merge_end (merge_loop (reading done p) [])
      ≡ record { merged_ranges = done ++ p ∷ []; old_ranges = []; new_ranges = [] }
unfolding merge_loop merge_end merge_finish
end-reading done p = refl

loop-reading :
    (done : List DateRange) (p : DateRange) (rs : List DateRange)
    → IsSeparated (p ∷ rs)
    → merge_end (merge_loop (reading done p) rs)
      ≡ record { merged_ranges = done ++ p ∷ rs; old_ranges = []; new_ranges = [] }
loop-reading done p [] h = end-reading done p
loop-reading done p (r ∷ rs) h =
    rw
      (
        loop-cons (reading done p) r rs,
        step-reading done p r h.1.0 h.2.0,
        loop-reading (done ++ p ∷ []) r rs h.2,
        append_assoc,
      )
      refl

-- Ranges that are separated already are returned unchanged, with nothing to save or delete.
pub merge_of_IsSeparated :
    (rs : List DateRange)
    → IsSeparated rs
    → merge_date_ranges rs ≡ record { merged_ranges = rs; old_ranges = []; new_ranges = [] }
unfolding merge_date_ranges
merge_of_IsSeparated [] h = unfold merge_loop merge_end merge_finish in refl
merge_of_IsSeparated (r ∷ rs) h =
    rw (loop-cons merge_init r rs, step-init r h.0) (loop-reading [] r rs h)
