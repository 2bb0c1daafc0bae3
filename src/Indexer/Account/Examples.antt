-- ===== src/Indexer/Account/Examples.antt =====
-- Tests of the account indexer of
-- packages/framework/src/services/indexer/src/accountEntityIndexer.ts.
use aleph_indexer_framework.Prelude.{
  ℕ, ◌≡◌, refl, true, not, ◌&&◌, List, [], ◌∷◌, Option, none, some, if◌then◌else◌, ◌==◌, arith,
}
use aleph_indexer_framework.Time.Range.{range, holds, covers}
use aleph_indexer_framework.Indexer.Requests.{by_date_range, request_of}
use aleph_indexer_framework.Indexer.Account.{
  StateCode, pending, ready, processed, IndexerState, ranges_of, with_state, FetcherState,
  get_pending_ranges, fetch_requests, fetch_all_ranges, on_entity_response, Outcome, done,
  failed_after_save, as_processed, process_ranges, merge_states,
}
use aleph_indexer_framework.Indexer.Account.Rows.{state_at, IsOrdered}
use aleph_indexer_framework.Indexer.Account.Fetch.{covered, fetch_requests-fresh}
use aleph_indexer_framework.Indexer.Account.Rounds.{fetch_rounds, fetch_rounds_complete}
use aleph_indexer_framework.Indexer.Account.Process.{
  marked, process_ranges-marked, on_entity_response-ready,
}
use aleph_indexer_framework.Indexer.Account.Compaction.{covers-merge_states}

abbrev row : ℕ → ℕ → StateCode → Option ℕ → IndexerState
row a b c n = record { start_date = a; end_date = b; state = c; request_nonce = n }

abbrev rows : List IndexerState
rows =
    row 1_600_000_000_000 1_600_000_000_999 processed none
    ∷ row 1_600_000_001_000 1_600_000_001_999 processed none
    ∷ row 1_600_000_002_000 1_600_000_002_999 ready (some 7)
    ∷ row 1_600_000_003_000 1_600_000_003_999 pending (some 8)
    ∷ row 1_600_000_004_000 1_600_000_004_999 ready (some 9)
    ∷ []

abbrev history : Option FetcherState
history =
    some
      (record { first_timestamp = some 1_600_000_000_000; last_timestamp = some 1_600_000_009_000 })

rows-IsOrdered : IsOrdered rows
unfolding IsOrdered
rows-IsOrdered = (
  (refl, (refl, (refl, (refl, tt)))),
  ((refl, (refl, (refl, tt))), ((refl, (refl, tt)), ((refl, tt), (tt, tt)))),
)

fetch_requests-fresh_example :
    covered (fetch_requests 500 (get_pending_ranges history rows)) 1_600_000_008_600 ≡ (
      covered (fetch_requests 500 (get_pending_ranges history rows)) 1_600_000_008_600
      && holds 1_600_000_008_600 (range 1_600_000_000_000 1_600_000_009_000)
      && not (covers (ranges_of rows) 1_600_000_008_600))
fetch_requests-fresh_example =
    fetch_requests-fresh 1_600_000_008_600 500 history (range 1_600_000_000_000 1_600_000_009_000)
      rows refl (omega arith)

fetch_rounds_complete_example :
    let rows' = fetch_rounds 500 history 9_001 10 rows in
    (get_pending_ranges history rows' ≡ [])
    × (fetch_all_ranges 500 history 10 rows' ≡ none)
    × ((t : ℕ)
        → holds t (range 1_600_000_000_000 1_600_000_009_000) ≡ true
        → covers (ranges_of rows') t ≡ true)
fetch_rounds_complete_example =
    fetch_rounds_complete 500 history (range 1_600_000_000_000 1_600_000_009_000) refl (omega arith)
      (omega arith) 10 rows

abbrev fails_at : IndexerState → Outcome
fails_at s = if s.start_date == 1_600_000_004_000 then failed_after_save else done

process_ranges-marked_example :
    state_at 1_600_000_002_000 1_600_000_002_999 (process_ranges fails_at rows).0
    ≡ elim (state_at 1_600_000_002_000 1_600_000_002_999
        (marked fails_at (with_state ready rows))) [
          | none ↦ state_at 1_600_000_002_000 1_600_000_002_999 rows
          | some s ↦ some (as_processed s)
        ]
process_ranges-marked_example =
    process_ranges-marked fails_at rows 1_600_000_002_000 1_600_000_002_999 rows-IsOrdered

on_entity_response-ready_example :
    state_at 1_600_000_003_000 1_600_000_003_999
      (on_entity_response 5 (request_of 8 (by_date_range 5 0 1_600_000_009_000) 1) rows)
    ≡ some (row 1_600_000_003_000 1_600_000_003_999 ready (some 8))
on_entity_response-ready_example =
    on_entity_response-ready 5 (request_of 8 (by_date_range 5 0 1_600_000_009_000) 1) rows
      1_600_000_003_000 1_600_000_003_999 rows-IsOrdered (omega arith)

covers-merge_states_example :
    covers (ranges_of (merge_states rows).0) 1_600_000_000_500
    ≡ covers (ranges_of rows) 1_600_000_000_500
covers-merge_states_example = covers-merge_states rows (omega arith) 1_600_000_000_500
