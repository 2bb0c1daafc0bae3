-- ===== src/Indexer/Requests/Handled.antt =====
-- `handleEntityRequest`, `handleIncomingEntities` and the completion check of
-- packages/framework/src/services/indexer/src/entityFetcher.ts on the requests that are answered.
use aleph_indexer_framework.Prelude.{ℕ, ◌≤◌, ◌<◌, ◌≡◌, refl, true, List, arith, ==_iff, All}
use aleph_indexer_framework.Common.{nonce}
use aleph_indexer_framework.Indexer.Requests.{
  RequestParams, EntityRequest, Requests, put_request, add_chunks, request_of, IdsStream, not_given,
  broken, ended, handle_entity_request,
}
use aleph_indexer_framework.Indexer.Requests.Answered.{
  IsAnswered, IsSound, All-both, put_request-All, add_chunks-IsSound, add_chunks-kept,
  add_chunks-empty,
}

pub All-map :
    {A : Type 0} (P Q : A → Type 0) (xs : List A) → ((a : A) → P a → Q a) → All P xs → All Q xs
All-map P Q xs f h = All-both P P Q xs (λ a p q. f a p) h h

pub nonce-rises : (last now : ℕ) → last < nonce last now
nonce-rises last now = ground arith

module _ {T : Type 0} where
  pub use_nonce-IsSound :
      (n : ℕ) (s : Requests T)
      → s.last_nonce < n
      → IsSound s
      → IsSound (record s { last_nonce = n })
  use_nonce-IsSound n s lt h = record {
    keyed_pending = h.keyed_pending;
    keyed_responses = h.keyed_responses;
    seen = h.seen;
    waiting = h.waiting;
    known_nonces = λ j m q. ground (arith, h.known_nonces j m q, lt);
    known_requests =
        All-map (λ r. r.nonce ≤ s.last_nonce) (λ r. r.nonce ≤ n) s.requests
          (λ r le. ground (arith, le, lt)) h.known_requests;
    answered = h.answered;
  }

  pub put-IsSound :
      (r : EntityRequest) (s : Requests T)
      → r.nonce ≤ s.last_nonce
      → (r.complete ≡ true → IsAnswered s r)
      → IsSound s
      → IsSound (record s { requests = put_request r s.requests })
  put-IsSound r s le a h = record {
    keyed_pending = h.keyed_pending;
    keyed_responses = h.keyed_responses;
    seen = h.seen;
    waiting = h.waiting;
    known_nonces = h.known_nonces;
    known_requests = put_request-All (λ r. r.nonce ≤ s.last_nonce) r s.requests le h.known_requests;
    answered = put_request-All (λ r. r.complete ≡ true → IsAnswered s r) r s.requests a h.answered;
  }

  pub handle_entity_request-IsSound :
      (now : ℕ) (params : RequestParams) (ids : IdsStream) (s : Requests T)
      → IsSound s
      → IsSound (handle_entity_request now params ids s).0
  unfolding handle_entity_request
  handle_entity_request-IsSound now params not_given s h =
      use_nonce-IsSound (nonce s.last_nonce now) s (nonce-rises s.last_nonce now) h
  handle_entity_request-IsSound now params (broken chunks) s h =
      let n = nonce s.last_nonce now in
      let lt = nonce-rises s.last_nonce now in
      let new =
        All-map (λ r. r.nonce ≤ s.last_nonce) (λ r. r.nonce < n) s.requests
          (λ r le. ground (arith, le, lt)) h.known_requests in
      add_chunks-IsSound n chunks (record s { last_nonce = n }) (use_nonce-IsSound n s lt h) refl
        new
  handle_entity_request-IsSound now params (ended chunks) s h =
      let n = nonce s.last_nonce now in
      let lt = nonce-rises s.last_nonce now in
      let s0 = record s { last_nonce = n } in
      let h0 = use_nonce-IsSound n s lt h in
      let new =
        All-map (λ r. r.nonce ≤ s.last_nonce) (λ r. r.nonce < n) s.requests
          (λ r le. ground (arith, le, lt)) h.known_requests in
      let (kept, last) = add_chunks-kept n chunks s0 in
      put-IsSound (request_of n params (add_chunks n chunks s0).1) (add_chunks n chunks s0).0
        (ground (arith, last))
        (λ c j q. absurd (
          ground (
            arith,
            q,
            add_chunks-empty n chunks s0 j h0 refl new ((==_iff (add_chunks n chunks s0).1 0).0 c),
            h.known_nonces j n,
            lt,
          )))
        (add_chunks-IsSound n chunks s0 h0 refl new)
