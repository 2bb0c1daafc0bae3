-- ===== src/Indexer/Requests/Runs.antt =====
-- Runs of the request handlers of packages/framework/src/services/indexer/src/entityFetcher.ts in any
-- order, and the requests that they mark as complete.
use aleph_indexer_framework.Prelude.{
  ℕ, ◌≤◌, ◌≡◌, ◌∙◌, refl, sym, ap, subst, inl, inr, Bool, true, false, ◌&&◌, ◌||◌, List, [], ◌∷◌,
  none, some, any, arith, Bool-cases, ◌==◌, ==_iff, All,
}
use aleph_indexer_framework.Storage.Entity.Steps.{IsKeyedStore}
use aleph_indexer_framework.Storage.Entity.Flags.{save-IsKeyedStore}
use aleph_indexer_framework.Indexer.Requests.{
  RequestParams, EntityRequest, ParsedEntity, EntityResponse, Requests, is_present, member,
  response_options, is_pending, has_pending, IdsStream, handle_entity_request,
  handle_incoming_entities, check_request_completion, check_requests, check_all_request_completion,
  without_nonce, strip_nonce, remove_response,
}
use aleph_indexer_framework.Indexer.Requests.Stores.{
  response-KeepsKey, has_nonce, is_parsed, nonce_save, parsed_save,
}
use aleph_indexer_framework.Indexer.Requests.Answered.{IsAnswered, IsSound, All-both}
use aleph_indexer_framework.Indexer.Requests.Handled.{put-IsSound, handle_entity_request-IsSound}
use aleph_indexer_framework.Indexer.Requests.Incoming.{
  All-keep, AllParsed, handle_incoming_entities-IsSound,
}

any-member :
    (f : ℕ → Bool) (j : ℕ) (xs : List ℕ) → member j xs ≡ true → f j ≡ true → any f xs ≡ true
any-member f j [] h q = h
any-member f j (x ∷ xs) h q = elim (Bool-cases (j == x)) [
  | inl e ↦ ground (arith, ap f ((==_iff j x).0 e), q)
  | inr e ↦ ground (arith, any-member f j xs, h, e, q)
]

without_nonce-any :
    (n m : ℕ) (ixs : List (ℕ × ℕ))
    → any (λ ix. m == ix.0) (without_nonce n ixs) ≡ true
    → any (λ ix. m == ix.0) ixs ≡ true
without_nonce-any n m [] h = h
without_nonce-any n m (ix ∷ ixs) h = ground (arith, without_nonce-any n m ixs, h)

module _ {T : Type 0} where
  has_pending-IsAnswered :
      (r : EntityRequest) (s : Requests T)
      → IsSound s
      → has_pending r.nonce s ≡ false
      → IsAnswered s r
  has_pending-IsAnswered r s h q j p = ground (
    arith,
    h.waiting j r.nonce p,
    h.seen j r.nonce,
    q,
    any-member (λ id. is_pending r.nonce (s.pending.main id)) j s.pending_ids,
  )

  check_request_completion-IsSound :
      (r : EntityRequest) (s : Requests T)
      → r.nonce ≤ s.last_nonce
      → IsSound s
      → IsSound (check_request_completion r s)
        × ((check_request_completion r s).last_nonce ≡ s.last_nonce)
  unfolding check_request_completion
  check_request_completion-IsSound r s le h =
      elim (Bool-cases (r.complete || has_pending r.nonce s)) [
        | inl e ↦ rw e (h, refl)
        | inr e ↦ rw e (
          put-IsSound (record r { complete = true }) s le
              (λ c. has_pending-IsAnswered r s h (ground (arith, e))) h,
          refl,
        )
      ]

  check_requests-IsSound :
      (rs : List EntityRequest) (s : Requests T)
      → All (λ r. r.nonce ≤ s.last_nonce) rs
      → IsSound s
      → IsSound (check_requests rs s)
  unfolding check_requests
  check_requests-IsSound [] s le h = h
  check_requests-IsSound (r ∷ rs) s le h =
      let (h', q) = check_request_completion-IsSound r s le.0 h in
      check_requests-IsSound rs (check_request_completion r s)
        (subst (λ n. All (λ r'. r'.nonce ≤ n) rs) (sym q) le.1) h'

  -- Responses as the store has them, or had them earlier: nonces and contents are never taken back.
  abbrev pub AreKnown : Requests T → List (EntityResponse T) → Type 0
  AreKnown s items =
      All
        (λ r.
          ((m : ℕ) → has_nonce m (some r) ≡ true → has_nonce m (s.responses.main r.id) ≡ true)
          × (is_present r.parsed ≡ true → is_parsed (s.responses.main r.id) ≡ true))
        items

  strip-nonce :
      (n m j : ℕ) (s : Requests T) (items : List (EntityResponse T))
      → AreKnown s items
      → any (λ r. (j == r.id) && has_nonce m (some r)) (strip_nonce n items) ≡ true
      → has_nonce m (s.responses.main j) ≡ true
  strip-nonce n m j s [] a h = absurd (ground (arith, h))
  strip-nonce n m j s (r ∷ items) a h =
      elim (Bool-cases ((j == r.id) && any (λ ix. m == ix.0) (without_nonce n r.nonce_indexes))) [
        | inl e ↦
            ap (λ i. has_nonce m (s.responses.main i)) ((==_iff j r.id).0 (ground (arith, e)))
            ∙ a.0.0 m (without_nonce-any n m r.nonce_indexes (ground (arith, e)))
        | inr e ↦ strip-nonce n m j s items a.1 (ground (arith, h, e))
      ]

  strip-parsed :
      (n j : ℕ) (s : Requests T) (items : List (EntityResponse T))
      → AreKnown s items
      → any (λ r. (j == r.id) && is_present r.parsed) (strip_nonce n items) ≡ true
      → is_parsed (s.responses.main j) ≡ true
  strip-parsed n j s [] a h = absurd (ground (arith, h))
  strip-parsed n j s (r ∷ items) a h = elim (Bool-cases ((j == r.id) && is_present r.parsed)) [
    | inl e ↦
        ap (λ i. is_parsed (s.responses.main i)) ((==_iff j r.id).0 (ground (arith, e)))
        ∙ a.0.1 (ground (arith, e))
    | inr e ↦ strip-parsed n j s items a.1 (ground (arith, h, e))
  ]

  -- Where the responses that are read are those that the store has or had: `remove` leaves each response
  -- under every nonce that it had, that of the removed request included.
  pub remove_response-nonce :
      (n m j : ℕ) (items : List (EntityResponse T)) (s : Requests T)
      → IsKeyedStore response_options s.responses.main
      → AreKnown s items
      → has_nonce m ((remove_response n items s).responses.main j)
        ≡ has_nonce m (s.responses.main j)
  unfolding remove_response
  remove_response-nonce n m j items s hk a =
      ground
        (arith, nonce_save s.responses j hk m (strip_nonce n items), strip-nonce n m j s items a)

  remove_response-parsed :
      (n j : ℕ) (items : List (EntityResponse T)) (s : Requests T)
      → IsKeyedStore response_options s.responses.main
      → AreKnown s items
      → is_parsed ((remove_response n items s).responses.main j) ≡ is_parsed (s.responses.main j)
  unfolding remove_response
  remove_response-parsed n j items s hk a =
      ground (arith, parsed_save s.responses j hk (strip_nonce n items), strip-parsed n j s items a)

  remove_response-IsSound :
      (n : ℕ) (items : List (EntityResponse T)) (s : Requests T)
      → AreKnown s items
      → IsSound s
      → IsSound (remove_response n items s)
  unfolding remove_response
  remove_response-IsSound n items s a h =
      let same_parsed = λ (j : ℕ). remove_response-parsed n j items s h.keyed_responses a in
      record {
        keyed_pending = h.keyed_pending;
        keyed_responses =
            save-IsKeyedStore response_options (strip_nonce n items) s.responses response-KeepsKey
              h.keyed_responses;
        seen = h.seen;
        waiting = λ j m q.
            ap (λ b. b || is_pending m (s.pending.main j)) (same_parsed j)
            ∙ h.waiting j m (sym (remove_response-nonce n m j items s h.keyed_responses a) ∙ q);
        known_nonces = λ j m q.
            h.known_nonces j m (sym (remove_response-nonce n m j items s h.keyed_responses a) ∙ q);
        known_requests = All-keep _ _ s.requests h.known_requests;
        answered = All-keep _ _ s.requests (
            All-both (λ r. r.nonce ≤ s.last_nonce) (λ r. r.complete ≡ true → IsAnswered s r) _
              s.requests
              (λ r le b c j q.
                same_parsed j
                ∙ b c j (sym (remove_response-nonce n r.nonce j items s h.keyed_responses a) ∙ q))
              h.known_requests h.answered);
      }

  -- The calls of the handlers in any order, from the empty stores.
  pub data Run : Requests T → Type 0 where
    start : Run (record {
      requests = [];
      pending = record { main = λ k. none; count = 0 };
      pending_ids = [];
      responses = record { main = λ k. none; count = 0 };
      last_nonce = 0;
    })
    request :
        (now : ℕ) (params : RequestParams) (ids : IdsStream) (s : Requests T)
        → Run s
        → Run (handle_entity_request now params ids s).0
    incoming :
        (chunk : List (ParsedEntity T)) (s : Requests T)
        → AllParsed chunk
        → Run s
        → Run (handle_incoming_entities chunk s)
    check : (s : Requests T) → Run s → Run (check_all_request_completion s)
    remove :
        (n : ℕ) (items : List (EntityResponse T)) (s : Requests T)
        → AreKnown s items
        → Run s
        → Run (remove_response n items s)

  pub Run-IsSound : (s : Requests T) → Run s → IsSound s
  unfolding check_all_request_completion
  Run-IsSound _ start = record {
    keyed_pending = λ j e q. absurd (ground (arith, q));
    keyed_responses = λ j e q. absurd (ground (arith, q));
    seen = λ j m q. absurd (ground (arith, q));
    waiting = λ j m q. absurd (ground (arith, q));
    known_nonces = λ j m q. absurd (ground (arith, q));
    known_requests = tt;
    answered = tt;
  }
  Run-IsSound _ (request now params ids s w) =
      handle_entity_request-IsSound now params ids s (Run-IsSound s w)
  Run-IsSound _ (incoming chunk s p w) =
      handle_incoming_entities-IsSound chunk s p (Run-IsSound s w)
  Run-IsSound _ (check s w) =
      let h = Run-IsSound s w in check_requests-IsSound s.requests s h.known_requests h
  Run-IsSound _ (remove n items s a w) = remove_response-IsSound n items s a (Run-IsSound s w)

  -- In each state that the handlers reach in any order from the empty stores, where the parser sends
  -- entities with their content only, and `remove` of a response saves responses that the store has or
  -- had: each response of a request that is marked as complete has its content.
  pub Run-answered :
      (s : Requests T) → Run s → All (λ r. r.complete ≡ true → IsAnswered s r) s.requests
  Run-answered s w = (Run-IsSound s w).answered
