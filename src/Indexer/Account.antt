-- ===== src/Indexer/Account.antt =====
-- `AccountEntityIndexer` of packages/framework/src/services/indexer/src/accountEntityIndexer.ts over
-- the rows of one account in its store, dal/entityIndexerState.ts, which come in the order of their keys.
-- A save or a removal is one step. What the entity fetcher and the handler answer is given.
pub mod Rows
pub mod Fetch
pub mod Rounds
pub mod Process
pub mod Compaction
pub mod Runs
mod Examples
use aleph_indexer_framework.Prelude.{
  ℕ, ◌+◌, ◌-◌, Bool, true, false, not, ◌&&◌, ◌||◌, List, [], ◌∷◌, ◌++◌, Option, none, some, keep,
  map, length, max, ◌==◌, ltb, leb, if◌then◌else◌,
}
use aleph_indexer_framework.Time.Range.{DateRange, range}
use aleph_indexer_framework.Indexer.Requests.{RequestParams, EntityRequest, by_date_range, by_id}
use aleph_indexer_framework.Time.Clip.{clip_date_ranges_from_iterable}
use aleph_indexer_framework.Time.Merge.{MergeResult, merge_date_ranges}

-- EntityIndexerStateCode
pub data StateCode : Type 0 where
  pending : StateCode
  ready : StateCode
  processed : StateCode

pub record IndexerState : Type 0 where
  pub start_date : ℕ
  pub end_date : ℕ
  pub state : StateCode
  pub request_nonce : Option ℕ

abbrev pub same_code : StateCode → StateCode → Bool
same_code pending pending = true
same_code ready ready = true
same_code processed processed = true
same_code c d = false

-- A state is a range as well.
abbrev pub dates : IndexerState → DateRange
dates s = range s.start_date s.end_date

abbrev pub ranges_of : List IndexerState → List DateRange
ranges_of rows = map dates rows

-- The primary key without the account: the start and the end.
abbrev pub same_key : IndexerState → IndexerState → Bool
same_key s q = s.start_date == q.start_date && s.end_date == q.end_date

abbrev pub key_before : IndexerState → IndexerState → Bool
key_before s q =
    ltb s.start_date q.start_date || (s.start_date == q.start_date && ltb s.end_date q.end_date)

-- `save` of one state, of several, and `remove` of several.
unfoldable pub put_state : IndexerState → List IndexerState → List IndexerState
put_state s [] = s ∷ []
put_state s (q ∷ rows) =
    let rest = put_state s rows in
    if same_key s q then s ∷ rows else if key_before s q then s ∷ q ∷ rows else q ∷ rest

pub save_states : List IndexerState → List IndexerState → List IndexerState
save_states [] rows = rows
save_states (s ∷ ss) rows = save_states ss (put_state s rows)

pub remove_states : List IndexerState → List IndexerState → List IndexerState
remove_states [] rows = rows
remove_states (s ∷ ss) rows = remove_states ss (keep (λ q. not (same_key s q)) rows)

-- The index `AccountState`.
abbrev pub with_state : StateCode → List IndexerState → List IndexerState
with_state c rows = keep (λ s. same_code s.state c) rows

-- The state of the fetcher of the account, as far as it is read.
pub record FetcherState : Type 0 where
  pub first_timestamp : Option ℕ
  pub last_timestamp : Option ℕ

-- getAvailableRangesToFetch
abbrev pub get_available_ranges_to_fetch : Option FetcherState → Option DateRange
get_available_ranges_to_fetch none = none
get_available_ranges_to_fetch (some state) = elim state.first_timestamp [
  | none ↦ none
  | some first ↦ elim state.last_timestamp [ none ↦ none | some last ↦ some (range first last) ]
]

-- calculateRangesToFetch: the scan ends with the rows that start at the end date.
unfoldable pub calculate_ranges_to_fetch : DateRange → List IndexerState → List DateRange
calculate_ranges_to_fetch total rows =
    clip_date_ranges_from_iterable (total ∷ [])
      (ranges_of (keep (λ s. leb s.start_date total.end_date) rows))

abbrev pub ranges_in : Option DateRange → List IndexerState → List DateRange
ranges_in none rows = []
ranges_in (some available) rows = calculate_ranges_to_fetch available rows

unfoldable pub get_pending_ranges : Option FetcherState → List IndexerState → List DateRange
get_pending_ranges state rows = ranges_in (get_available_ranges_to_fetch state) rows

-- fetchAllRanges: the requests that it makes; `none` is the wait where nothing is to be fetched.
abbrev pub target_range : ℕ → DateRange → DateRange
target_range chunk_timeframe r = range (max r.start_date (r.end_date - chunk_timeframe)) r.end_date

abbrev pub with_next : ℕ → DateRange → DateRange → List DateRange
with_next chunk_timeframe next last =
    let r = target_range chunk_timeframe last in
    if ltb (r.end_date - r.start_date) chunk_timeframe
    then r ∷ target_range chunk_timeframe next ∷ []
    else r ∷ []

unfoldable pub fetch_requests : ℕ → List DateRange → Option (List DateRange)
fetch_requests chunk_timeframe [] = none
fetch_requests chunk_timeframe (last ∷ []) = some (target_range chunk_timeframe last ∷ [])
fetch_requests chunk_timeframe (next ∷ last ∷ []) = some (with_next chunk_timeframe next last)
fetch_requests chunk_timeframe (r ∷ next ∷ last ∷ rs) =
    fetch_requests chunk_timeframe (next ∷ last ∷ rs)

-- The two saves of fetchRangeByDate.
abbrev pub requested : DateRange → ℕ → StateCode → IndexerState
requested r nonce code = record {
  start_date = r.start_date;
  end_date = r.end_date;
  state = code;
  request_nonce = some nonce;
}

unfoldable pub save_pending : DateRange → ℕ → List IndexerState → List IndexerState
save_pending r nonce rows = put_state (requested r nonce pending) rows

unfoldable pub save_ready : DateRange → ℕ → List IndexerState → List IndexerState
save_ready r nonce rows = put_state (requested r nonce ready) rows

-- fetchRangeByDate, with what is stored while the request is under way left out, and fetchAllRanges. The
-- fetcher gives each request the next nonce. `none` is the wait where nothing is to be fetched.
abbrev pub fetch_range_by_date : DateRange → ℕ → List IndexerState → List IndexerState
fetch_range_by_date r nonce rows = save_ready r nonce (save_pending r nonce rows)

pub fetch_ranges : ℕ → List DateRange → List IndexerState → List IndexerState
fetch_ranges nonce [] rows = rows
fetch_ranges nonce (r ∷ rs) rows = fetch_ranges (nonce + 1) rs (fetch_range_by_date r nonce rows)

unfoldable pub fetch_all_ranges :
    ℕ → Option FetcherState → ℕ → List IndexerState → Option (List IndexerState)
fetch_all_ranges chunk_timeframe state nonce rows =
    elim (fetch_requests chunk_timeframe (get_pending_ranges state rows)) [
      | none ↦ none
      | some requests ↦ some (fetch_ranges nonce requests rows)
    ]

-- initPendingRanges
abbrev pub is_complete_request : (ℕ → Bool) → IndexerState → Bool
is_complete_request is_complete s = elim s.request_nonce [ none ↦ false | some n ↦ is_complete n ]

abbrev pub as_ready : IndexerState → IndexerState
as_ready s = record s { state = ready }

unfoldable pub init_pending_ranges : (ℕ → Bool) → List IndexerState → List IndexerState
init_pending_ranges is_complete rows =
    save_states (map as_ready (keep (is_complete_request is_complete) (with_state pending rows)))
      rows

-- onEntityResponse: the index `RequestState` has the rows with the nonce that are pending.
abbrev pub has_request : ℕ → IndexerState → Bool
has_request nonce s = elim s.request_nonce [ none ↦ false | some n ↦ n == nonce ]

abbrev pub first_state : (IndexerState → Bool) → List IndexerState → Option IndexerState
first_state p [] = none
first_state p (s ∷ rows) = if p s then some s else first_state p rows

-- The return for a request of another account, which has a range of dates.
abbrev pub is_other_account : ℕ → RequestParams → Bool
is_other_account account (by_date_range other start_date end_date) = not (other == account)
is_other_account account (by_id ids) = false

unfoldable pub on_entity_response : ℕ → EntityRequest → List IndexerState → List IndexerState
on_entity_response account request rows =
    if is_other_account account request.params
    then rows
    else elim (first_state (has_request request.nonce) (with_state pending rows)) [
      | none ↦ rows
      | some s ↦ put_state (as_ready s) rows
    ]

-- processRanges. The response, the handler or `remove` may fail: then the loop ends with the error.
pub data Outcome : Type 0 where
  done : Outcome
  failed_before_save : Outcome
  failed_after_save : Outcome

abbrev pub as_processed : IndexerState → IndexerState
as_processed s = record s { state = processed; request_nonce = none }

abbrev pub count_one : Option ℕ → Option ℕ
count_one none = none
count_one (some n) = some (n + 1)

-- One round of the loop: the rows before it, those that it saves, and what the rest of the loop gives.
abbrev pub process_one :
    Outcome
    → List IndexerState
    → List IndexerState
    → List IndexerState × Option ℕ
    → List IndexerState × Option ℕ
process_one done rows saved rest = (rest.0, count_one rest.1)
process_one failed_before_save rows saved rest = (rows, none)
process_one failed_after_save rows saved rest = (saved, none)

unfoldable pub process_loop :
    (IndexerState → Outcome) → List IndexerState → List IndexerState → List IndexerState × Option ℕ
process_loop outcome [] rows = (rows, some 0)
process_loop outcome (s ∷ ss) rows =
    let saved = put_state (as_processed s) rows in
    process_one (outcome s) rows saved (process_loop outcome ss saved)

unfoldable pub process_ranges :
    (IndexerState → Outcome) → List IndexerState → List IndexerState × Option ℕ
process_ranges outcome rows = process_loop outcome (with_state ready rows) rows

-- mergeStates
abbrev pub processed_state : DateRange → IndexerState
processed_state r = record {
  start_date = r.start_date;
  end_date = r.end_date;
  state = processed;
  request_nonce = none;
}

abbrev pub merge_with : MergeResult → List IndexerState → List IndexerState
merge_with m rows =
    if length m.new_ranges == 0
    then rows
    else remove_states (map processed_state m.old_ranges)
        (save_states (map processed_state m.new_ranges) rows)

unfoldable pub merge_states : List IndexerState → List IndexerState × List DateRange
merge_states rows =
    let m = merge_date_ranges (ranges_of (with_state processed rows)) in
    (merge_with m rows, m.merged_ranges)

-- The two sums of getIndexingState; a range whose end is before its start counts as 0.
abbrev pub sum_millis : List DateRange → ℕ
sum_millis [] = 0
sum_millis (r ∷ rs) = (r.end_date + 1 - r.start_date) + sum_millis rs

unfoldable pub get_indexing_state :
    Option FetcherState → List IndexerState → Option (List DateRange × List DateRange × ℕ × ℕ)
get_indexing_state state rows = elim (get_available_ranges_to_fetch state) [
  | none ↦ none
  | some available ↦
      let processed_ranges = (merge_states rows).1 in
      let pending_ranges = clip_date_ranges_from_iterable (available ∷ []) processed_ranges in
      some
        (pending_ranges, processed_ranges, sum_millis pending_ranges, sum_millis processed_ranges)
]
