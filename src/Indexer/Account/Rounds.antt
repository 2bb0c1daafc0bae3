-- ===== src/Indexer/Account/Rounds.antt =====
-- The rounds of `fetchAllRanges` of
-- packages/framework/src/services/indexer/src/accountEntityIndexer.ts, one after the other.
use aleph_indexer_framework.Prelude.{
  ℕ, zero, suc, ◌+◌, ◌-◌, ◌≤◌, ◌<◌, ◌≡◌, ◌∙◌, refl, sym, ap, inl, inr, Bool, true, false, ◌||◌,
  List, [], ◌∷◌, Option, none, some, ◌==◌, if◌then◌else◌, arith, Bool-cases, All, ==_iff, ◌⊎◌,
  subst,
}
use aleph_indexer_framework.Time.Range.{DateRange, holds, covers, IsValid}
use aleph_indexer_framework.Time.Clip.Table.{IsStamped}
use aleph_indexer_framework.Time.Clip.Valid.{clip_date_ranges_from_iterable-IsValid}
use aleph_indexer_framework.Indexer.Account.{
  pending, ready, IndexerState, ranges_of, put_state, FetcherState, get_available_ranges_to_fetch,
  calculate_ranges_to_fetch, get_pending_ranges, ranges_in, fetch_requests, save_pending,
  save_ready, requested, fetch_ranges, fetch_all_ranges,
}
use aleph_indexer_framework.Indexer.Account.Rows.{covers-put_state}
use aleph_indexer_framework.Indexer.Account.Fetch.{
  covers-get_pending_ranges, fetch_requests-fresh, covered,
}

-- How many of the `n` instants from `a` on do not have the property.
abbrev gaps : (ℕ → Bool) → ℕ → ℕ → ℕ
gaps f a zero = 0
gaps f a (suc n) = (if f a then 0 else 1) + gaps f (a + 1) n

gaps_mono :
    (f g : ℕ → Bool) (a n : ℕ) → ((t : ℕ) → f t ≡ true → g t ≡ true) → gaps g a n ≤ gaps f a n
gaps_mono f g a zero h = omega arith
gaps_mono f g a (suc n) h = ground (arith, gaps_mono f g (a + 1) n h, h a)

gaps-less :
    (f g : ℕ → Bool) (a n x : ℕ)
    → ((t : ℕ) → f t ≡ true → g t ≡ true)
    → a ≤ x
    → x < a + n
    → f x ≡ false
    → g x ≡ true
    → gaps g a n < gaps f a n
gaps-less f g a zero x h l r p q = absurd (omega (arith, l, r))
gaps-less f g a (suc n) x h l r p q = elim (Bool-cases (a == x)) [
  | inl e ↦
      ground
        (arith, gaps_mono f g (a + 1) n h, ap f ((==_iff a x).0 e), ap g ((==_iff a x).0 e), p, q)
  | inr e ↦
      ground
        (arith, gaps-less f g (a + 1) n x h (ground (arith, e, l)) (ground (arith, r)) p q, h a)
]

gaps-zero : (f : ℕ → Bool) (a n x : ℕ) → gaps f a n ≡ 0 → a ≤ x → x < a + n → f x ≡ true
gaps-zero f a zero x z l r = absurd (omega (arith, l, r))
gaps-zero f a (suc n) x z l r = elim (Bool-cases (a == x)) [
  | inl e ↦ ground (arith, ap f ((==_iff a x).0 e), z)
  | inr e ↦ gaps-zero f (a + 1) n x (ground (arith, z)) (ground (arith, e, l)) (ground (arith, r))
]

covers-fetch_ranges :
    (t nonce : ℕ) (rs : List DateRange) (rows : List IndexerState)
    → covers (ranges_of (fetch_ranges nonce rs rows)) t ≡ (covers rs t || covers (ranges_of rows) t)
unfolding fetch_ranges save_pending save_ready
covers-fetch_ranges t nonce [] rows = refl
covers-fetch_ranges t nonce (r ∷ rs) rows =
    let pending_rows = put_state (requested r nonce pending) rows in
    covers-fetch_ranges t (nonce + 1) rs (put_state (requested r nonce ready) pending_rows)
    ∙ ground (
      arith,
      covers-put_state t (requested r nonce ready) pending_rows,
      covers-put_state t (requested r nonce pending) rows,
    )

gaps-bound : (f : ℕ → Bool) (a n : ℕ) → gaps f a n ≤ n
gaps-bound f a zero = omega arith
gaps-bound f a (suc n) = ground (arith, gaps-bound f (a + 1) n)

-- The last instant of the last range is always requested.
requests-hold_some :
    (chunk_timeframe : ℕ) (rs : List DateRange)
    → All IsValid rs
    → (rs ≡ []) ⊎ ((x : ℕ) × (covered (fetch_requests chunk_timeframe rs) x ≡ true))
unfolding fetch_requests
requests-hold_some tf [] v = inl refl
requests-hold_some tf (last ∷ []) v = inr (last.end_date, ground (arith, v.0))
requests-hold_some tf (next ∷ last ∷ []) v = inr (last.end_date, ground (arith, v.1))
requests-hold_some tf (r ∷ next ∷ last ∷ rs) v =
    elim (requests-hold_some tf (next ∷ last ∷ rs) v.1) [
      | inl e ↦ absurd (ground (arith, e))
      | inr p ↦ inr p
    ]

module _ (chunk_timeframe : ℕ) (state : Option FetcherState) where
  -- Rounds of the job, which ends where nothing is to be fetched.
  unfoldable pub fetch_rounds : ℕ → ℕ → List IndexerState → List IndexerState
  fetch_rounds zero nonce rows = rows
  fetch_rounds (suc fuel) nonce rows = elim (fetch_all_ranges chunk_timeframe state nonce rows) [
    | none ↦ rows
    | some rows' ↦ fetch_rounds fuel (nonce + 2) rows'
  ]

  module _ (available : DateRange) (known : get_available_ranges_to_fetch state ≡ some available)
      (stamped : IsStamped available) (valid : IsValid available) where
    pending-IsValid : (rows : List IndexerState) → All IsValid (get_pending_ranges state rows)
    unfolding get_pending_ranges calculate_ranges_to_fetch
    pending-IsValid rows =
        subst (λ o. All IsValid (ranges_in o rows)) (sym known)
          (clip_date_ranges_from_iterable-IsValid (available ∷ []) _ (valid, tt))

    left : List IndexerState → ℕ
    left rows =
        gaps (covers (ranges_of rows)) available.start_date
          (available.end_date + 1 - available.start_date)

    requests-left :
        (nonce x : ℕ) (rows : List IndexerState) (found : Option (List DateRange))
        → fetch_requests chunk_timeframe (get_pending_ranges state rows) ≡ found
        → covered found x ≡ true
        → (rows' : List IndexerState) × (fetch_all_ranges chunk_timeframe state nonce rows
            ≡ some rows')
          × (left rows' < left rows)
    unfolding fetch_all_ranges left
    requests-left nonce x rows none e p = absurd (ground (arith, p))
    requests-left nonce x rows (some rs) e p =
        let fresh = fetch_requests-fresh x chunk_timeframe state available rows known stamped in
        let requested = ap (λ o. covered o x) e ∙ p in
        let inside : holds x available ≡ true = ground (arith, fresh, requested) in
        (
          fetch_ranges nonce rs rows,
          ap (λ o. elim o [ none ↦ none | some requests ↦ some (fetch_ranges nonce requests rows) ])
              e,
          gaps-less (covers (ranges_of rows)) (covers (ranges_of (fetch_ranges nonce rs rows)))
              available.start_date (available.end_date + 1 - available.start_date) x
              (λ t q. ground (arith, covers-fetch_ranges t nonce rs rows, q))
              (ground (arith, inside)) (ground (arith, inside)) (ground (arith, fresh, requested))
              (ground (arith, covers-fetch_ranges x nonce rs rows, p)),
        )

    -- A round ends the job, or leaves fewer instants to fetch.
    round-result :
        (nonce : ℕ) (rows : List IndexerState)
        → (get_pending_ranges state rows ≡ [])
          ⊎ ((rows' : List IndexerState) × (fetch_all_ranges chunk_timeframe state nonce rows
                ≡ some rows')
              × (left rows' < left rows))
    round-result nonce rows =
        elim (requests-hold_some chunk_timeframe (get_pending_ranges state rows)
          (pending-IsValid rows)) [
            | inl e ↦ inl e
            | inr (x, p) ↦ inr (
                requests-left nonce x rows
                  (fetch_requests chunk_timeframe (get_pending_ranges state rows)) refl p)
          ]

    pending-none :
        (rs : List DateRange) → All IsValid rs → ((t : ℕ) → covers rs t ≡ false) → rs ≡ []
    pending-none [] v h = refl
    pending-none (r ∷ rs) v h = absurd (ground (arith, h r.start_date, v.0))

    nothing_left : (rows : List IndexerState) → left rows ≡ 0 → get_pending_ranges state rows ≡ []
    unfolding left
    nothing_left rows z = pending-none (get_pending_ranges state rows) (pending-IsValid rows) (λ t.
        covers-get_pending_ranges t state available rows known stamped
        ∙ elim (Bool-cases (holds t available)) [
          | inl e ↦ ground (
            arith,
            gaps-zero (covers (ranges_of rows)) available.start_date
                (available.end_date + 1 - available.start_date) t z (ground (arith, e))
                (ground (arith, e)),
          )
          | inr e ↦ ground (arith, e)
        ])

    nothing-requested :
        (nonce : ℕ) (rows : List IndexerState)
        → get_pending_ranges state rows ≡ []
        → fetch_all_ranges chunk_timeframe state nonce rows ≡ none
    unfolding fetch_all_ranges fetch_requests
    nothing-requested nonce rows e =
        ap
          (λ rs. elim (fetch_requests chunk_timeframe rs) [
            | none ↦ none
            | some requests ↦ some (fetch_ranges nonce requests rows)
          ])
          e

    rounds-step :
        (fuel nonce : ℕ) (rows : List IndexerState) (found : Option (List IndexerState))
        → fetch_all_ranges chunk_timeframe state nonce rows ≡ found
        → fetch_rounds (suc fuel) nonce rows
          ≡ elim found [ none ↦ rows | some rows' ↦ fetch_rounds fuel (nonce + 2) rows' ]
    unfolding fetch_rounds
    rounds-step fuel nonce rows found e =
        ap (λ o. elim o [ none ↦ rows | some rows' ↦ fetch_rounds fuel (nonce + 2) rows' ]) e

    rounds-end :
        (fuel nonce : ℕ) (rows : List IndexerState)
        → left rows ≤ fuel
        → get_pending_ranges state (fetch_rounds fuel nonce rows) ≡ []
    unfolding fetch_rounds
    rounds-end zero nonce rows h = nothing_left rows (omega (arith, h))
    rounds-end (suc fuel) nonce rows h = elim (round-result nonce rows) [
      | inl e ↦
          ap (get_pending_ranges state)
            (rounds-step fuel nonce rows none (nothing-requested nonce rows e))
          ∙ e
      | inr (rows', e, less) ↦
          ap (get_pending_ranges state) (rounds-step fuel nonce rows (some rows') e)
          ∙ rounds-end fuel (nonce + 2) rows' (omega (arith, h, less))
    ]

    -- Where the account has valid history with dates of 13 digits, and no other job runs in between:
    -- after as many rounds as the history has milliseconds nothing is left to fetch, the next round
    -- requests nothing, and the rows cover the history.
    pub fetch_rounds_complete :
        (nonce : ℕ) (rows : List IndexerState)
        → let rows' = fetch_rounds (available.end_date + 1 - available.start_date) nonce rows in
          (get_pending_ranges state rows' ≡ [])
          × (fetch_all_ranges chunk_timeframe state nonce rows' ≡ none)
          × ((t : ℕ) → holds t available ≡ true → covers (ranges_of rows') t ≡ true)
    unfolding left
    fetch_rounds_complete nonce rows =
        let n = available.end_date + 1 - available.start_date in
        let e =
          rounds-end n nonce rows (gaps-bound (covers (ranges_of rows)) available.start_date n) in
        let rows' = fetch_rounds n nonce rows in
        (
          e,
          nothing-requested nonce rows' e,
          λ t h. ground (
            arith,
            h,
            covers-get_pending_ranges t state available rows' known stamped,
            ap (λ rs. covers rs t) e,
          ),
        )
