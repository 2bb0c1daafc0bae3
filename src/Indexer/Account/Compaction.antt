-- ===== src/Indexer/Account/Compaction.antt =====
-- `mergeStates` of packages/framework/src/services/indexer/src/accountEntityIndexer.ts, which saves the
-- unions of ranges and removes the ranges that they contain.
use aleph_indexer_framework.Prelude.{
  ℕ, ◌+◌, ◌<◌, ◌≡◌, ◌∙◌, refl, sym, ap, inl, inr, Bool, true, false, not, ◌&&◌, ◌||◌, List, [], ◌∷◌,
  keep, map, length, ◌==◌, ltb, any, arith, Bool-cases, All, subst,
}
use aleph_indexer_framework.Time.Range.{
  DateRange, holds, covers, is_equal_date_range, is_equal_date_range_iff, IsValid,
}
use aleph_indexer_framework.Time.Merge.{merge_date_ranges}
use aleph_indexer_framework.Time.Merge.Coverage.{IsAscending, covers-merge_date_ranges}
use aleph_indexer_framework.Time.Merge.Separated.{IsSeparated, merge_date_ranges-IsSeparated}
use aleph_indexer_framework.Time.Merge.Compaction.{
  occurrences, occurrences-append, RisesFrom, IsRising, merge_date_ranges-balance,
}
use aleph_indexer_framework.Time.Merge.Inside.{inside, old_ranges-inside}
use aleph_indexer_framework.Indexer.Account.{
  processed, IndexerState, same_code, dates, ranges_of, same_key, put_state, save_states,
  remove_states, with_state, processed_state, merge_states,
}
use aleph_indexer_framework.Indexer.Account.Rows.{covers-keep}

abbrev has : DateRange → List DateRange → Bool
has x rs = any (λ r. is_equal_date_range x r) rs

any-has :
    (p : DateRange → Bool) (x : DateRange) (rs : List DateRange)
    → has x rs ≡ true
    → p x ≡ true
    → any p rs ≡ true
any-has p x [] h q = h
any-has p x (r ∷ rs) h q = elim (Bool-cases (is_equal_date_range x r)) [
  | inl e ↦ ground (arith, ap p ((is_equal_date_range_iff x r).0 e), q)
  | inr e ↦ ground (arith, any-has p x rs, h, e, q)
]

any-find :
    (p : DateRange → Bool) (rs : List DateRange)
    → any p rs ≡ true
    → (x : DateRange) × (has x rs ≡ true) × (p x ≡ true)
any-find p [] h = absurd (ground (arith, h))
any-find p (r ∷ rs) h = elim (Bool-cases (p r)) [
  | inl e ↦ (r, ground arith, e)
  | inr e ↦ let (x, q, q') = any-find p rs (ground (arith, h, e)) in (x, ground (arith, q), q')
]

occurrences-has : (x : DateRange) (rs : List DateRange) → has x rs ≡ ltb 0 (occurrences x rs)
occurrences-has x [] = refl
occurrences-has x (r ∷ rs) = ground (arith, occurrences-has x rs)

All-has :
    (P : DateRange → Type 0) (x : DateRange) (rs : List DateRange)
    → All P rs
    → has x rs ≡ true
    → P x
All-has P x [] h q = absurd (ground (arith, q))
All-has P x (r ∷ rs) h q = elim (Bool-cases (is_equal_date_range x r)) [
  | inl e ↦ subst P (sym ((is_equal_date_range_iff x r).0 e)) h.0
  | inr e ↦ All-has P x rs h.1 (ground (arith, q, e))
]

-- A separated list has no range inside another of its ranges.
separated-inside :
    (x y : DateRange) (ms : List DateRange)
    → IsSeparated ms
    → IsValid x
    → has x ms ≡ true
    → has y ms ≡ true
    → inside x y ≡ false
separated-inside x y [] s v h k = absurd (ground (arith, h))
separated-inside x y (m ∷ ms) s v h k = elim (Bool-cases (is_equal_date_range x m)) [
  | inl e ↦ elim (Bool-cases (is_equal_date_range y m)) [
    | inl e' ↦ ground (arith, e, e')
    | inr e' ↦ ground (
      arith,
      e,
      All-has (λ r. m.end_date + 1 < r.start_date) y ms s.1 (ground (arith, k, e')),
      s.0,
    )
  ]
  | inr e ↦ elim (Bool-cases (is_equal_date_range y m)) [
    | inl e' ↦
        ground (
          arith,
          e',
          v,
          All-has (λ r. m.end_date + 1 < r.start_date) x ms s.1 (ground (arith, h, e)),
        )
    | inr e' ↦ separated-inside x y ms s.2 v (ground (arith, h, e)) (ground (arith, k, e'))
  ]
]

rising-IsAscending : (lo hi : ℕ) (rs : List DateRange) → RisesFrom lo hi rs → IsAscending lo rs
rising-IsAscending lo hi [] h = tt
rising-IsAscending lo hi (r ∷ rs) h = (h.0, h.2, rising-IsAscending r.start_date r.end_date rs h.3)

IsRising-IsAscending : (rs : List DateRange) → IsRising rs → IsAscending 0 rs
IsRising-IsAscending [] h = tt
IsRising-IsAscending (r ∷ rs) h =
    (omega arith, h.0, rising-IsAscending r.start_date r.end_date rs h.1)

-- A reading of the ranges of the rows, after saves and removals.
module _ (g : DateRange → Bool) where
  any-put_state :
      (s : IndexerState) (rows : List IndexerState)
      → any g (ranges_of (put_state s rows)) ≡ (g (dates s) || any g (ranges_of rows))
  unfolding put_state
  any-put_state s [] = refl
  any-put_state s (q ∷ rows) = elim (Bool-cases (same_key s q)) [
    | inl e ↦ ground (arith, e, ap g ((is_equal_date_range_iff (dates s) (dates q)).0 e))
    | inr e ↦ ground (arith, e, any-put_state s rows)
  ]

  any-save_states :
      (rs : List DateRange) (rows : List IndexerState)
      → any g (ranges_of (save_states (map processed_state rs) rows))
        ≡ (any g rs || any g (ranges_of rows))
  unfolding save_states
  any-save_states [] rows = refl
  any-save_states (r ∷ rs) rows =
      any-save_states rs (put_state (processed_state r) rows)
      ∙ ground (arith, any-put_state (processed_state r) rows)

any-removed :
    (g : DateRange → Bool) (o : DateRange) (rows : List IndexerState)
    → any g (ranges_of (keep (λ q. not (same_key (processed_state o) q)) rows))
      ≡ any (λ r. g r && not (is_equal_date_range r o)) (ranges_of rows)
any-removed g o [] = refl
any-removed g o (q ∷ rows) = elim (Bool-cases (same_key (processed_state o) q)) [
  | inl e ↦ ground (arith, e, any-removed g o rows)
  | inr e ↦ ground (arith, e, any-removed g o rows)
]

any-same :
    (f g : DateRange → Bool) (rs : List DateRange)
    → ((r : DateRange) → f r ≡ g r)
    → any f rs ≡ any g rs
any-same f g [] h = refl
any-same f g (r ∷ rs) h = ground (arith, h r, any-same f g rs h)

any-remove_states :
    (g : DateRange → Bool) (os : List DateRange) (rows : List IndexerState)
    → any g (ranges_of (remove_states (map processed_state os) rows))
      ≡ any (λ r. g r && not (has r os)) (ranges_of rows)
unfolding remove_states
any-remove_states g [] rows =
    any-same g (λ r. g r && not (has r [])) (ranges_of rows) (λ r. ground arith)
any-remove_states g (o ∷ os) rows =
    any-remove_states g os (keep (λ q. not (same_key (processed_state o) q)) rows)
    ∙ any-removed (λ r. g r && not (has r os)) o rows
    ∙ any-same _ (λ r. g r && not (has r (o ∷ os))) (ranges_of rows) (λ r. ground arith)

module _ (rs : List DateRange) (rising : IsRising rs) where
  abbrev merged : List DateRange
  merged = (merge_date_ranges rs).merged_ranges

  abbrev old : List DateRange
  old = (merge_date_ranges rs).old_ranges

  abbrev new : List DateRange
  new = (merge_date_ranges rs).new_ranges

  balance-has : (x : DateRange) → ((has x rs || has x new) ≡ (has x merged || has x old))
  balance-has x = ground (
    arith,
    merge_date_ranges-balance x rs rising,
    occurrences-append x rs new,
    occurrences-append x merged old,
    occurrences-has x rs,
    occurrences-has x new,
    occurrences-has x merged,
    occurrences-has x old,
  )

  -- A range to delete lies in a merged one, and is none itself.
  old-covered :
      (x : DateRange) (t : ℕ) → has x old ≡ true → holds t x ≡ true → covers merged t ≡ true
  old-covered x t h q =
      let (v, i) = All-has _ x old (old_ranges-inside rs (IsRising-IsAscending rs rising)) h in
      let (m, k, w) = any-find (inside x) merged i in
      any-has (holds t) m merged k (ground (arith, w, q))

  old-merged : (x : DateRange) → has x merged ≡ true → has x old ≡ false
  old-merged x h = elim (Bool-cases (has x old)) [
    | inl e ↦
        let (v, i) = All-has _ x old (old_ranges-inside rs (IsRising-IsAscending rs rising)) e in
        let (m, k, w) = any-find (inside x) merged i in
        absurd
          (ground (arith, w, separated-inside x m merged (merge_date_ranges-IsSeparated rs) v h k))
    | inr e ↦ e
  ]

  -- Instants that are covered by what is kept and what is saved.
  abbrev stays : ℕ → DateRange → Bool
  stays t r = holds t r && not (has r old)

  new-covered : (t : ℕ) → any (stays t) new ≡ true → covers merged t ≡ true
  new-covered t h =
      let (x, k, q) = any-find (stays t) new h in
      elim (Bool-cases (has x merged)) [
        | inl e ↦ any-has (holds t) x merged e (ground (arith, q))
        | inr e ↦ absurd (ground (arith, e, k, q, balance-has x))
      ]

  merged-stays : (t : ℕ) → covers merged t ≡ true → (any (stays t) rs || any (stays t) new) ≡ true
  merged-stays t h =
      let (x, k, q) = any-find (holds t) merged h in
      let stay : stays t x ≡ true = ground (arith, q, old-merged x k) in
      elim (Bool-cases (has x new)) [
        | inl e ↦ ground (arith, any-has (stays t) x new e stay)
        | inr e ↦ ground (arith, any-has (stays t) x rs (ground (arith, e, k, balance-has x)) stay)
      ]

stays-covers :
    (t : ℕ) (os rs : List DateRange)
    → any (λ r. holds t r && not (has r os)) rs ≡ true
    → covers rs t ≡ true
stays-covers t os [] h = h
stays-covers t os (r ∷ rs) h = ground (arith, h, stays-covers t os rs)

any-kept :
    (g : DateRange → Bool) (p : IndexerState → Bool) (rows : List IndexerState)
    → any g (ranges_of (keep p rows)) ≡ true
    → any g (ranges_of rows) ≡ true
any-kept g p [] h = h
any-kept g p (s ∷ rows) h = ground (arith, h, any-kept g p rows)

both_ways : (a b : Bool) → (a ≡ true → b ≡ true) → (b ≡ true → a ≡ true) → a ≡ b
both_ways true b f g = sym (f refl)
both_ways false true f g = g refl
both_ways false false f g = refl

abbrev processed_ranges : List IndexerState → List DateRange
processed_ranges rows = ranges_of (with_state processed rows)

module _ (rows : List IndexerState) (rising : IsRising (processed_ranges rows)) (t : ℕ) where
  abbrev kept_or_saved : Bool
  kept_or_saved =
      any (stays (processed_ranges rows) rising t) (new (processed_ranges rows) rising)
      || any (stays (processed_ranges rows) rising t) (ranges_of rows)

  merged-covers :
      covers (merged (processed_ranges rows) rising) t ≡ covers (processed_ranges rows) t
  merged-covers =
      covers-merge_date_ranges (processed_ranges rows) t
        (IsRising-IsAscending (processed_ranges rows) rising)

  kept-covered : kept_or_saved ≡ true → covers (ranges_of rows) t ≡ true
  kept-covered h =
      elim (Bool-cases
        (any (stays (processed_ranges rows) rising t) (new (processed_ranges rows) rising))) [
          | inl e ↦
              covers-keep t (λ s. same_code s.state processed) rows
                (sym merged-covers ∙ new-covered (processed_ranges rows) rising t e)
          | inr e ↦
              stays-covers t (old (processed_ranges rows) rising) (ranges_of rows)
                (ground (arith, h, e))
        ]

  merged-kept : covers (merged (processed_ranges rows) rising) t ≡ true → kept_or_saved ≡ true
  merged-kept h = ground (
    arith,
    merged-stays (processed_ranges rows) rising t h,
    any-kept (stays (processed_ranges rows) rising t) (λ s. same_code s.state processed) rows,
  )

  covered-kept : covers (ranges_of rows) t ≡ true → kept_or_saved ≡ true
  covered-kept h =
      let (x, k, q) = any-find (holds t) (ranges_of rows) h in
      elim (Bool-cases (has x (old (processed_ranges rows) rising))) [
        | inl e ↦ merged-kept (old-covered (processed_ranges rows) rising x t e q)
        | inr e ↦ ground (
          arith,
          any-has (stays (processed_ranges rows) rising t) x (ranges_of rows) k
              (ground (arith, q, e)),
        )
      ]

  -- Where the processed ranges are valid and in ascending order, each ending later than those before
  -- it: a compaction does not change which instants the rows cover.
  pub covers-merge_states : covers (ranges_of (merge_states rows).0) t ≡ covers (ranges_of rows) t
  unfolding merge_states
  covers-merge_states =
      let m = merge_date_ranges (processed_ranges rows) in
      let saved = save_states (map processed_state m.new_ranges) rows in
      elim (Bool-cases (length m.new_ranges == 0)) [
        | inl e ↦ ground (arith, e)
        | inr e ↦ rw e (
            any-remove_states (holds t) m.old_ranges saved
            ∙ any-save_states (stays (processed_ranges rows) rising t) m.new_ranges rows
            ∙ both_ways kept_or_saved (covers (ranges_of rows) t) kept-covered covered-kept)
      ]
