-- ===== src/Indexer/Account/Fetch.antt =====
-- The ranges that `AccountEntityIndexer` of
-- packages/framework/src/services/indexer/src/accountEntityIndexer.ts requests.
use aleph_indexer_framework.Prelude.{
  ℕ, ◌+◌, ◌-◌, ◌≤◌, ◌≡◌, ◌∙◌, refl, ap, inl, inr, Bool, true, false, not, ◌&&◌, List, [], ◌∷◌,
  Option, none, some, keep, ltb, leb, arith, Bool-cases, All,
}
use aleph_indexer_framework.Time.Range.{DateRange, holds, covers}
use aleph_indexer_framework.Time.Clip.Table.{IsStamped}
use aleph_indexer_framework.Time.Clip.Coverage.{covers-clip_date_ranges_from_iterable}
use aleph_indexer_framework.Indexer.Account.{
  pending, IndexerState, ranges_of, put_state, FetcherState, get_available_ranges_to_fetch,
  calculate_ranges_to_fetch, get_pending_ranges, ranges_in, target_range, fetch_requests,
  save_pending, requested,
}
use aleph_indexer_framework.Indexer.Account.Rows.{covers-put_state}

covers-scanned :
    (t : ℕ) (total : DateRange) (rows : List IndexerState)
    → holds t total ≡ true
    → covers (ranges_of (keep (λ s. leb s.start_date total.end_date) rows)) t
      ≡ covers (ranges_of rows) t
covers-scanned t total [] h = refl
covers-scanned t total (s ∷ rows) h = ground (arith, h, covers-scanned t total rows h)

covers-calculate_ranges_to_fetch :
    (t : ℕ) (total : DateRange) (rows : List IndexerState)
    → IsStamped total
    → covers (calculate_ranges_to_fetch total rows) t
      ≡ (holds t total && not (covers (ranges_of rows) t))
unfolding calculate_ranges_to_fetch
covers-calculate_ranges_to_fetch t total rows h =
    let scanned = ranges_of (keep (λ s. leb s.start_date total.end_date) rows) in
    covers-clip_date_ranges_from_iterable (total ∷ []) scanned t (h, tt)
    ∙ ground (arith, covers-scanned t total rows)

covers-target_range :
    (t chunk_timeframe : ℕ) (r : DateRange)
    → holds t (target_range chunk_timeframe r) ≡ true
    → holds t r ≡ true
covers-target_range t chunk_timeframe r h = ground (arith, h)

abbrev pub covered : Option (List DateRange) → ℕ → Bool
covered none t = false
covered (some rs) t = covers rs t

covers-fetch_requests :
    (t chunk_timeframe : ℕ) (rs : List DateRange)
    → covered (fetch_requests chunk_timeframe rs) t ≡ true
    → covers rs t ≡ true
unfolding fetch_requests
covers-fetch_requests t tf [] h = h
covers-fetch_requests t tf (last ∷ []) h = ground (arith, h, covers-target_range t tf last)
covers-fetch_requests t tf (next ∷ last ∷ []) h =
    ground (arith, h, covers-target_range t tf last, covers-target_range t tf next)
covers-fetch_requests t tf (r ∷ next ∷ last ∷ rs) h =
    ground (arith, h, covers-fetch_requests t tf (next ∷ last ∷ rs))

pub covers-get_pending_ranges :
    (t : ℕ) (state : Option FetcherState) (available : DateRange) (rows : List IndexerState)
    → get_available_ranges_to_fetch state ≡ some available
    → IsStamped available
    → covers (get_pending_ranges state rows) t
      ≡ (holds t available && not (covers (ranges_of rows) t))
unfolding get_pending_ranges
covers-get_pending_ranges t state available rows e h =
    ap (λ o. covers (ranges_in o rows) t) e ∙ covers-calculate_ranges_to_fetch t available rows h

-- Where the account has history with dates of 13 digits: each instant of the ranges that a round
-- requests lies in the history, and no stored state, of whatever code, holds it.
pub fetch_requests-fresh :
    (t chunk_timeframe : ℕ) (state : Option FetcherState) (available : DateRange)
    (rows : List IndexerState)
    → get_available_ranges_to_fetch state ≡ some available
    → IsStamped available
    → covered (fetch_requests chunk_timeframe (get_pending_ranges state rows)) t ≡ (
        covered (fetch_requests chunk_timeframe (get_pending_ranges state rows)) t
        && holds t available
        && not (covers (ranges_of rows) t))
fetch_requests-fresh t tf state available rows e h = ground (
  arith,
  covers-fetch_requests t tf (get_pending_ranges state rows),
  covers-get_pending_ranges t state available rows e h,
)

-- Where the account has history with dates of 13 digits: once a request is stored as pending, the
-- ranges that are left to fetch are those before, less the range of the request.
pub get_pending_ranges-save_pending :
    (t nonce : ℕ) (r : DateRange) (state : Option FetcherState) (available : DateRange)
    (rows : List IndexerState)
    → get_available_ranges_to_fetch state ≡ some available
    → IsStamped available
    → covers (get_pending_ranges state (save_pending r nonce rows)) t
      ≡ (covers (get_pending_ranges state rows) t && not (holds t r))
unfolding save_pending
get_pending_ranges-save_pending t nonce r state available rows e h = ground (
  arith,
  covers-get_pending_ranges t state available rows e h,
  covers-get_pending_ranges t state available (put_state (requested r nonce pending) rows) e h,
  covers-put_state t (requested r nonce pending) rows,
)

unfoldable pub IsShort : ℕ → Option (List DateRange) → Type 0
IsShort n none = Unit
IsShort n (some rs) = All (λ r. r.end_date ≤ r.start_date + n) rs

-- Each request ends at most the timeframe of a chunk after its start.
pub fetch_requests-IsShort :
    (chunk_timeframe : ℕ) (rs : List DateRange)
    → IsShort chunk_timeframe (fetch_requests chunk_timeframe rs)
unfolding fetch_requests IsShort
fetch_requests-IsShort tf [] = tt
fetch_requests-IsShort tf (last ∷ []) = (ground arith, tt)
fetch_requests-IsShort tf (next ∷ last ∷ []) =
    let r = target_range tf last in
    elim (Bool-cases (ltb (r.end_date - r.start_date) tf)) [
      | inl e ↦ rw e (ground arith, (ground arith, tt))
      | inr e ↦ rw e (ground arith, tt)
    ]
fetch_requests-IsShort tf (r ∷ next ∷ last ∷ rs) = fetch_requests-IsShort tf (next ∷ last ∷ rs)
