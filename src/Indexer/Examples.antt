-- ===== src/Indexer/Examples.antt =====
-- Tests of the requests of packages/framework/src/services/indexer/src/entityFetcher.ts.
use aleph_indexer_framework.Prelude.{
  ℕ, false, ◌≡◌, refl, Bool, true, [], ◌∷◌, none, some, All, arith, ◌==◌, if◌then◌else◌,
}
use aleph_indexer_framework.Common.{nonce}
use aleph_indexer_framework.Indexer.Requests.{
  by_date_range, by_id, ParsedEntity, EntityResponse, Requests, ended, handle_entity_request,
  handle_incoming_entities, check_all_request_completion, remove_response, request_of, member,
}
use aleph_indexer_framework.Indexer.Requests.Stores.{has_nonce}
use aleph_indexer_framework.Indexer.Requests.Answered.{IsAnswered}
use aleph_indexer_framework.Indexer.Requests.Runs.{
  Run, start, request, incoming, check, Run-answered, remove_response-nonce,
}
use aleph_indexer_framework.Indexer.Requests.Progress.{get_request, checked_request}
use aleph_indexer_framework.Indexer.Requests.Complete.{
  check_all_request_completion-get, handle_entity_request-covers,
}

-- A request of a range with two ids, of which one is parsed, and one of an id that both ask for.
abbrev entity : ℕ → ParsedEntity Bool
entity id = record { id = id; timestamp = 50; accounts = 7 ∷ []; parsed = some true }

abbrev no_requests : Requests Bool
no_requests = record {
  requests = [];
  pending = record { main = λ k. none; count = 0 };
  pending_ids = [];
  responses = record { main = λ k. none; count = 0 };
  last_nonce = 0;
}

abbrev requested : Requests Bool
requested =
    (handle_entity_request 100 (by_date_range 7 10 90) (ended ((1 ∷ []) ∷ (2 ∷ []) ∷ []))
      no_requests).0

abbrev both_requested : Requests Bool
both_requested = (handle_entity_request 100 (by_id (2 ∷ [])) (ended ((2 ∷ []) ∷ [])) requested).0

abbrev one_parsed : Requests Bool
one_parsed = handle_incoming_entities (entity 2 ∷ []) both_requested

abbrev one_complete : Requests Bool
one_complete = check_all_request_completion one_parsed

requested-Run : Run requested
requested-Run =
    request 100 (by_date_range 7 10 90) (ended ((1 ∷ []) ∷ (2 ∷ []) ∷ [])) no_requests start

one_parsed-Run : Run one_parsed
one_parsed-Run =
    incoming (entity 2 ∷ []) both_requested (refl, tt)
      (request 100 (by_id (2 ∷ [])) (ended ((2 ∷ []) ∷ [])) requested requested-Run)

one_complete-Run : Run one_complete
one_complete-Run = check one_parsed one_parsed-Run

Run-answered_example :
    All (λ r. r.complete ≡ true → IsAnswered one_complete r) one_complete.requests
Run-answered_example = Run-answered one_complete one_complete-Run

check_all_request_completion-get_example :
    get_request 101 (check_all_request_completion one_parsed).requests
    ≡ elim (get_request 101 one_parsed.requests) [
      | none ↦ none
      | some r ↦ some (checked_request one_parsed r)
    ]
check_all_request_completion-get_example =
    check_all_request_completion-get one_parsed 101 one_parsed-Run

handle_entity_request-covers_example :
    let n = nonce requested.last_nonce 100 in
    ((handle_entity_request 100 (by_id (2 ∷ [])) (ended ((2 ∷ []) ∷ [])) requested).1 ≡ some n)
    × (get_request n requested.requests ≡ none)
    × (get_request n both_requested.requests ≡ some (request_of n (by_id (2 ∷ [])) 1))
    × ((m : ℕ)
        → (m == n) ≡ false
        → get_request m both_requested.requests ≡ get_request m requested.requests)
    × ((j : ℕ) → has_nonce n (both_requested.responses.main j) ≡ member j (2 ∷ []))
    × ((j m : ℕ)
        → (m == n) ≡ false
        → has_nonce m (both_requested.responses.main j) ≡ has_nonce m (requested.responses.main j))
handle_entity_request-covers_example =
    handle_entity_request-covers 100 (by_id (2 ∷ [])) ((2 ∷ []) ∷ []) requested requested-Run

-- A response that two requests ask for, of which one is removed.
abbrev response : EntityResponse Bool
response = record { id = 2; parsed = some true; nonce_indexes = (100, 0) ∷ (101, 0) ∷ [] }

abbrev answered : Requests Bool
answered = record no_requests {
  requests = request_of 101 (by_id (2 ∷ [])) 1 ∷ [];
  responses = record { main = λ k. if k == 2 then some response else none; count = 1 };
}

remove_response-nonce_example :
    has_nonce 101 ((remove_response 101 (response ∷ []) answered).responses.main 2)
    ≡ has_nonce 101 (answered.responses.main 2)
remove_response-nonce_example =
    remove_response-nonce 101 101 2 (response ∷ []) answered (λ j e q. ground (arith, q))
      ((λ m h. h, λ h. h), tt)
