-- ===== src/Indexer/Requests/Complete.antt =====
-- When the handlers of packages/framework/src/services/indexer/src/entityFetcher.ts mark a request as
-- complete, in the states that they reach.
use aleph_indexer_framework.Prelude.{
  ℕ, ◌≤◌, ◌<◌, ◌≡◌, ◌∙◌, refl, sym, ap, subst, inl, inr, List, [], ◌∷◌, none, some, length, false,
  All, arith, Bool-cases, ◌==◌,
}
use aleph_indexer_framework.Common.{nonce}
use aleph_indexer_framework.Indexer.Requests.{
  RequestParams, EntityRequest, Requests, not_given, broken, ended, member, handle_entity_request,
  handle_incoming_entities, check_all_request_completion, request_of, add_chunks, remove_response,
  filter_by_requests,
}
use aleph_indexer_framework.Indexer.Requests.Stores.{has_nonce}
use aleph_indexer_framework.Indexer.Requests.Answered.{add_chunks-kept}
use aleph_indexer_framework.Indexer.Requests.Handled.{All-map, nonce-rises, use_nonce-IsSound}
use aleph_indexer_framework.Indexer.Requests.Progress.{
  all_ids, add_chunks-nonce, add_chunks-count, get_request, IsDescending, get-put_request,
  put-IsDescending, keep-IsDescending, checked_request, check_requests-get, settled-checked,
  get_request-nonce, check_requests-IsDescending,
}
use aleph_indexer_framework.Indexer.Requests.Runs.{
  Run, start, request, incoming, check, remove, Run-IsSound,
}

get_request-new :
    (n : ℕ) (rs : List EntityRequest) → All (λ r. r.nonce < n) rs → get_request n rs ≡ none
get_request-new n [] h = refl
get_request-new n (r ∷ rs) h = ground (arith, h.0, get_request-new n rs h.1)

module _ {T : Type 0} where
  Run-IsDescending : (s : Requests T) → Run s → IsDescending s.requests
  unfolding handle_entity_request handle_incoming_entities check_all_request_completion
      remove_response IsDescending
  Run-IsDescending _ start = tt
  Run-IsDescending _ (request now params not_given s w) = Run-IsDescending s w
  Run-IsDescending _ (request now params (broken chunks) s w) =
      let n = nonce s.last_nonce now in
      subst IsDescending (sym (add_chunks-kept n chunks (record s { last_nonce = n })).0)
        (Run-IsDescending s w)
  Run-IsDescending _ (request now params (ended chunks) s w) =
      let n = nonce s.last_nonce now in
      let s0 = record s { last_nonce = n } in
      put-IsDescending (request_of n params (add_chunks n chunks s0).1) _
        (subst IsDescending (sym (add_chunks-kept n chunks s0).0) (Run-IsDescending s w))
  Run-IsDescending _ (incoming chunk s p w) =
      elim (Bool-cases (length (filter_by_requests s.requests chunk) == 0)) [
        | inl e ↦ rw e (Run-IsDescending s w)
        | inr e ↦ rw e (Run-IsDescending s w)
      ]
  Run-IsDescending _ (check s w) = check_requests-IsDescending s.requests s (Run-IsDescending s w)
  Run-IsDescending _ (remove n items s a w) = keep-IsDescending _ s.requests (Run-IsDescending s w)

  -- In each state that the handlers reach: the check of all requests keeps each request under its nonce,
  -- and marks it as complete just if it was so before or no id of it is pending.
  pub check_all_request_completion-get :
      (s : Requests T) (n : ℕ)
      → Run s
      → get_request n (check_all_request_completion s).requests
        ≡ elim (get_request n s.requests) [ none ↦ none | some r ↦ some (checked_request s r) ]
  unfolding check_all_request_completion
  check_all_request_completion-get s n w =
      check_requests-get n s.requests s (Run-IsDescending s w)
      ∙ settled-checked n s (get_request n s.requests) (get_request-nonce n s.requests)

  -- In each state that the handlers reach: a request for which the fetcher service gives a stream of ids that ends
  -- gets a nonce that no request is stored under, and is stored under it with the number of the ids, as
  -- complete just if there are none; under each other nonce the store has the request that it had. Just
  -- the responses of these ids belong to the new nonce, and each response belongs to the same of the
  -- other nonces as before.
  pub handle_entity_request-covers :
      (now : ℕ) (params : RequestParams) (chunks : List (List ℕ)) (s : Requests T)
      → Run s
      → let n = nonce s.last_nonce now in
        let s' = (handle_entity_request now params (ended chunks) s).0 in
        ((handle_entity_request now params (ended chunks) s).1 ≡ some n)
        × (get_request n s.requests ≡ none)
        × (get_request n s'.requests ≡ some (request_of n params (length (all_ids chunks))))
        × ((m : ℕ) → (m == n) ≡ false → get_request m s'.requests ≡ get_request m s.requests)
        × ((j : ℕ) → has_nonce n (s'.responses.main j) ≡ member j (all_ids chunks))
        × ((j m : ℕ)
            → (m == n) ≡ false
            → has_nonce m (s'.responses.main j) ≡ has_nonce m (s.responses.main j))
  unfolding handle_entity_request
  handle_entity_request-covers now params chunks s w =
      let n = nonce s.last_nonce now in
      let lt = nonce-rises s.last_nonce now in
      let h = Run-IsSound s w in
      let s0 = record s { last_nonce = n } in
      let new =
        All-map (λ r. r.nonce ≤ s.last_nonce) (λ r. r.nonce < n) s.requests
          (λ r le. ground (arith, le, lt)) h.known_requests in
      let stored =
        get-put_request n (request_of n params (add_chunks n chunks s0).1)
          (add_chunks n chunks s0).0.requests in
      let marked =
        λ (j m : ℕ). add_chunks-nonce n chunks s0 j m (use_nonce-IsSound n s lt h) refl new in
      (
        refl,
        get_request-new n s.requests new,
        stored
            ∙ ground (arith, ap (λ c. some (request_of n params c)) (add_chunks-count n chunks s0)),
        λ m q.
            get-put_request m (request_of n params (add_chunks n chunks s0).1)
              (add_chunks n chunks s0).0.requests
            ∙ ground (arith, q)
            ∙ ap (get_request m) (add_chunks-kept n chunks s0).0,
        λ j. marked j n ∙ ground (arith, h.known_nonces j n, lt),
        λ j m q. marked j m ∙ ground (arith, q),
      )
