-- ===== src/Time/Merge/Saved.antt =====
-- What the store holds after the save and the delete that the callers of
-- `mergeDateRangesFromIterable` make.
use aleph_indexer_framework.Prelude.{
  ℕ, ◌+◌, ◌≤◌, ◌<◌, ◌≡◌, refl, Bool, true, false, not, ◌&&◌, ◌||◌, List, [], ◌∷◌, ◌++◌, some, arith,
  ltb, leb, subst, sym, inl, inr, Bool-cases,
}
use aleph_indexer_framework.Time.Range.{DateRange, is_equal_date_range}
use aleph_indexer_framework.Time.Merge.{
  MergeState, merge_init, merge_adjacent, merge_apart, merge_valid, merge_loop, merge_finish,
  merge_end, merge_date_ranges, union_range,
}
use aleph_indexer_framework.Time.Merge.Steps.{
  merge_date_ranges_lem, loop-cons, step-init, merge_step-valid,
}
use aleph_indexer_framework.Time.Merge.Compaction.{
  occurrences, occurrences-append, RisesFrom, IsRising, merge_date_ranges-balance,
}

-- A range that is to be deleted is not to be saved. `p` is the previous range, with which the union
-- goes on.
record IsApart (x : DateRange) (s : MergeState) (p : DateRange) : Type 0 where
  new_before : 0 < occurrences x s.new_ranges → x.end_date < p.end_date
  old_before : 0 < occurrences x s.old_ranges → x.end_date ≤ p.end_date
  old_prev : 0 < occurrences x s.old_ranges → s.prev_merged ≡ true → is_equal_date_range x p ≡ false
  old_new : 0 < occurrences x s.old_ranges → occurrences x s.new_ranges ≡ 0

merge_apart-IsApart :
    (x : DateRange) (s : MergeState) (p r : DateRange)
    → p.end_date < r.end_date
    → IsApart x s p
    → IsApart x (merge_apart s p r) r
unfolding merge_apart
merge_apart-IsApart x s p r up h =
    let added = occurrences-append x s.new_ranges (p ∷ []) in
    record {
      new_before = λ q. ground (arith, added, h.new_before, q, up);
      old_before = λ q. omega (arith, h.old_before q);
      old_prev = λ q m. absurd (ground (arith, m));
      old_new = λ q. ground (arith, added, h.old_new, h.old_prev, q);
    }

-- The range goes on where the previous one is inside it.
adjacent_same-IsApart :
    (x : DateRange) (s : MergeState) (p r : DateRange)
    → is_equal_date_range r (union_range p r) ≡ true
    → p.end_date < r.end_date
    → IsApart x s p
    → ((merge_adjacent s p r).prev_range ≡ some r) × IsApart x (merge_adjacent s p r) r
unfolding merge_adjacent
adjacent_same-IsApart x s p r e up h =
    let added = occurrences-append x s.old_ranges (p ∷ []) in
    (
      ground (arith, e),
      record {
        new_before = λ q. omega (arith, h.new_before q, up);
        old_before = λ q. ground (arith, e, added, h.old_before, q, up);
        old_prev = λ q m. absurd (ground (arith, m, e));
        old_new = λ q. ground (arith, e, added, h.old_new, h.new_before, q);
      },
    )

adjacent_union-IsApart :
    (x : DateRange) (s : MergeState) (p r : DateRange)
    → is_equal_date_range r (union_range p r) ≡ false
    → p.end_date < r.end_date
    → IsApart x s p
    → ((merge_adjacent s p r).prev_range ≡ some (union_range p r))
      × IsApart x (merge_adjacent s p r) (union_range p r)
unfolding merge_adjacent
adjacent_union-IsApart x s p r e up h =
    let added = occurrences-append x s.old_ranges (r ∷ []) in
    let again = occurrences-append x (s.old_ranges ++ r ∷ []) (p ∷ []) in
    (
      ground (arith, e, up),
      record {
        new_before = λ q. ground (arith, h.new_before, q, up);
        old_before = λ q. ground (arith, e, added, again, h.old_before, q, up);
        old_prev = λ q m. ground (arith, e, added, again, h.old_before, q, up);
        old_new = λ q. ground (arith, e, added, again, h.old_new, h.new_before, q, up);
      },
    )

-- The state has a previous range that ends at `hi`, and what is to be deleted is not to be saved.
HasPrev : DateRange → ℕ → MergeState → Type 0
HasPrev x hi s = (p : DateRange) × (s.prev_range ≡ some p) × (p.end_date ≡ hi) × IsApart x s p

valid-HasPrev :
    (x : DateRange) (s : MergeState) (p r : DateRange)
    → p.end_date < r.end_date
    → IsApart x s p
    → HasPrev x r.end_date (merge_valid s (some p) r)
unfolding merge_valid HasPrev
valid-HasPrev x s p r up h = elim (Bool-cases (leb r.start_date (p.end_date + 1))) [
  | inl touching ↦ elim (Bool-cases (is_equal_date_range r (union_range p r))) [
    | inl e ↦ let (k, h') = adjacent_same-IsApart x s p r e up h in rw touching (r, k, refl, h')
    | inr e ↦
        let (k, h') = adjacent_union-IsApart x s p r e up h in
        rw touching (union_range p r, k, omega (arith, up), h')
  ]
  | inr far ↦ rw far (r, unfold merge_apart in refl, refl, merge_apart-IsApart x s p r up h)
]

loop-HasPrev :
    (x : DateRange) (s : MergeState) (lo hi : ℕ) (rs : List DateRange)
    → RisesFrom lo hi rs
    → HasPrev x hi s
    → (p : DateRange) × ((merge_loop s rs).prev_range ≡ some p) × IsApart x (merge_loop s rs) p
unfolding HasPrev
loop-HasPrev x s lo hi [] up (p, e, q, h) = unfold merge_loop in (p, e, h)
loop-HasPrev x s lo hi (r ∷ rs) up (p, e, q, h) =
    let stepped : HasPrev x r.end_date (merge_valid s s.prev_range r) =
      subst (λ o. HasPrev x r.end_date (merge_valid s o r)) (sym e)
        (valid-HasPrev x s p r (omega (arith, q, up.1)) h) in
    rw (loop-cons s r rs, merge_step-valid s r up.2)
      (loop-HasPrev x (merge_valid s s.prev_range r) r.start_date r.end_date rs up.3 stepped)

finish_apart :
    (x : DateRange) (s : MergeState) (p : DateRange)
    → IsApart x s p
    → 0 < occurrences x (merge_finish s (some p)).old_ranges
    → occurrences x (merge_finish s (some p)).new_ranges ≡ 0
unfolding merge_finish
finish_apart x s p h q =
    ground (arith, occurrences-append x s.new_ranges (p ∷ []), h.old_new, h.old_prev, q)

occurrences_none :
    (x : DateRange) (lo hi : ℕ) (rs : List DateRange)
    → RisesFrom lo hi rs
    → x.end_date ≤ hi
    → occurrences x rs ≡ 0
occurrences_none x lo hi [] up h = refl
occurrences_none x lo hi (r ∷ rs) up h =
    let rest = occurrences_none x r.start_date r.end_date rs up.3 (omega (arith, h, up.1)) in
    ground (arith, rest, h, up.1)

occurrences_once :
    (x : DateRange) (lo hi : ℕ) (rs : List DateRange) → RisesFrom lo hi rs → occurrences x rs ≤ 1
occurrences_once x lo hi [] up = omega arith
occurrences_once x lo hi (r ∷ rs) up = ground (
  arith,
  occurrences_once x r.start_date r.end_date rs up.3,
  occurrences_none x r.start_date r.end_date rs up.3,
)

saved_apart :
    (x : DateRange) (rs : List DateRange)
    → IsRising rs
    → 0 < occurrences x (merge_date_ranges rs).old_ranges
    → occurrences x (merge_date_ranges rs).new_ranges ≡ 0
saved_apart x [] h = unfold merge_date_ranges merge_loop merge_end merge_finish in λ q. refl
saved_apart x (r ∷ rs) h =
    let s = record merge_init { prev_range = some r } in
    let start : HasPrev x r.end_date s =
      unfold HasPrev in
      (
        r,
        refl,
        refl,
        record {
          new_before = λ q. omega (arith, q);
          old_before = λ q. omega (arith, q);
          old_prev = λ q m. absurd (omega (arith, q));
          old_new = λ q. refl;
        },
      ) in
    let (p, e, a) = loop-HasPrev x s r.start_date r.end_date rs h.1 start in
    rw (merge_date_ranges_lem, loop-cons merge_init r rs, step-init r h.0)
      (unfold merge_end in rw e (finish_apart x (merge_loop s rs) p a))

-- The list holds the range.
abbrev pub has_range : DateRange → List DateRange → Bool
has_range x rs = ltb 0 (occurrences x rs)

rising_once : (x : DateRange) (rs : List DateRange) → IsRising rs → occurrences x rs ≤ 1
rising_once x [] h = omega arith
rising_once x (r ∷ rs) h = ground (
  arith,
  occurrences_once x r.start_date r.end_date rs h.1,
  occurrences_none x r.start_date r.end_date rs h.1,
)

-- For valid ranges in ascending order of their starts, each ending later than those before it: a store
-- of the ranges that are read, to which those to save are added and from which those to delete are
-- removed after that, holds exactly the merged ranges.
pub merge_date_ranges-store :
    (x : DateRange) (rs : List DateRange)
    → IsRising rs
    → ((has_range x rs || has_range x (merge_date_ranges rs).new_ranges)
        && not (has_range x (merge_date_ranges rs).old_ranges))
      ≡ has_range x (merge_date_ranges rs).merged_ranges
merge_date_ranges-store x rs h =
    let m = merge_date_ranges rs in
    ground (
      arith,
      merge_date_ranges-balance x rs h,
      saved_apart x rs h,
      rising_once x rs h,
      occurrences-append x rs m.new_ranges,
      occurrences-append x m.merged_ranges m.old_ranges,
    )
