-- ===== src/Indexer/Requests/Incoming.antt =====
-- The entities that `handleIncomingEntities` of
-- packages/framework/src/services/indexer/src/entityFetcher.ts gives to the requests.
use aleph_indexer_framework.Prelude.{
  ℕ, ◌≤◌, ◌≡◌, ◌∙◌, refl, ap, inl, inr, Bool, true, false, not, ◌&&◌, ◌||◌, List, [], ◌∷◌, some,
  any, keep, any-append, length, arith, Bool-cases, ◌==◌, All, All-append,
}
use aleph_indexer_framework.Storage.Entity
use aleph_indexer_framework.Storage.Entity.{EntityStore}
use aleph_indexer_framework.Storage.Entity.Steps.{IsKeyedStore}
use aleph_indexer_framework.Storage.Entity.Flags.{save-IsKeyedStore}
use aleph_indexer_framework.Storage.Entity.Sequential.{remove_lem}
use aleph_indexer_framework.Indexer.Requests.{
  RequestParams, EntityRequest, ParsedEntity, EntityResponse, Requests, is_present, pending_options,
  response_options, is_pending, by_date_range, by_id, filtered_entities, remaining_entities,
  responses_with, filter_by_requests, pending_like, handle_incoming_entities,
}
use aleph_indexer_framework.Indexer.Requests.Stores.{
  response-KeepsKey, has_nonce, is_parsed, nonce_save, parsed_save,
}
use aleph_indexer_framework.Indexer.Requests.Answered.{IsAnswered, IsSound, All-both}

All-if :
    {A : Type 0} (P : A → Type 0) (b : Bool) (x : A) (xs : List A)
    → P x
    → All P xs
    → All P (elim b [ true ↦ x ∷ xs | false ↦ xs ])
All-if P true x xs h hs = (h, hs)
All-if P false x xs h hs = hs

pub All-keep :
    {A : Type 0} (P : A → Type 0) (p : A → Bool) (xs : List A) → All P xs → All P (keep p xs)
All-keep P p [] h = tt
All-keep P p (x ∷ xs) h = All-if P (p x) x (keep p xs) h.0 (All-keep P p xs h.1)

-- A test that every element passes, and one that is harder.
any-and :
    {A : Type 0} (p q : A → Bool) (xs : List A)
    → All (λ x. q x ≡ true) xs
    → any (λ x. p x && q x) xs ≡ any p xs
any-and p q [] h = refl
any-and p q (x ∷ xs) h = ground (arith, h.0, any-and p q xs h.1)

any-weaken :
    {A : Type 0} (p q : A → Bool) (xs : List A) → any (λ x. p x && q x) xs ≡ true → any p xs ≡ true
any-weaken p q [] h = h
any-weaken p q (x ∷ xs) h = ground (arith, h, any-weaken p q xs)

module _ {T : Type 0} where
  abbrev pub AllParsed : List (ParsedEntity T) → Type 0
  AllParsed es = All (λ e. is_present e.parsed ≡ true) es

  responses_with-parsed :
      (n : ℕ) (es : List (ParsedEntity T))
      → AllParsed es
      → All (λ r. is_present r.parsed ≡ true) (responses_with n es)
  responses_with-parsed n [] h = tt
  responses_with-parsed n (e ∷ es) h = (h.0, responses_with-parsed n es h.1)

  filtered-parsed :
      (p : RequestParams) (es : List (ParsedEntity T))
      → AllParsed es
      → AllParsed (filtered_entities p es) × AllParsed (remaining_entities p es)
  filtered-parsed (by_date_range account start_date end_date) es h =
      (All-keep _ _ es h, All-keep _ _ es h)
  filtered-parsed (by_id ids) es h = (All-keep _ _ es h, All-keep _ _ es h)

  filter-parsed :
      (rs : List EntityRequest) (es : List (ParsedEntity T))
      → AllParsed es
      → All (λ r. is_present r.parsed ≡ true) (filter_by_requests rs es)
  unfolding filter_by_requests
  filter-parsed [] es h = tt
  filter-parsed (r ∷ rs) es h =
      let (f, g) = filtered-parsed r.params es h in
      elim (Bool-cases r.complete) [
        | inl e ↦ rw e (filter-parsed rs es h)
        | inr e ↦ rw e (All-append _ _ _ (responses_with-parsed r.nonce _ f) (filter-parsed rs _ g))
      ]

  -- The nonces of the responses are those of the requests.
  responses_with-nonce :
      (n m j : ℕ) (es : List (ParsedEntity T))
      → any (λ r. (j == r.id) && has_nonce m (some r)) (responses_with n es) ≡ true
      → m ≡ n
  responses_with-nonce n m j [] h = absurd (ground (arith, h))
  responses_with-nonce n m j (e ∷ es) h = ground (arith, responses_with-nonce n m j es, h)

  filter-nonce :
      (rs : List EntityRequest) (es : List (ParsedEntity T)) (bound m j : ℕ)
      → All (λ r. r.nonce ≤ bound) rs
      → any (λ r. (j == r.id) && has_nonce m (some r)) (filter_by_requests rs es) ≡ true
      → m ≤ bound
  unfolding filter_by_requests
  filter-nonce [] es bound m j h q = absurd (ground (arith, q))
  filter-nonce (r ∷ rs) es bound m j h q = elim (Bool-cases r.complete) [
    | inl e ↦ filter-nonce rs es bound m j h.1 (ground (arith, q, e))
    | inr e ↦
        let here = responses_with r.nonce (filtered_entities r.params es) in
        let split =
          any-append (λ r'. (j == r'.id) && has_nonce m (some r')) here
            (filter_by_requests rs (remaining_entities r.params es)) in
        elim (Bool-cases (any (λ r'. (j == r'.id) && has_nonce m (some r')) here)) [
          | inl e' ↦
              ground
                (arith, responses_with-nonce r.nonce m j (filtered_entities r.params es) e', h.0)
          | inr e' ↦
              filter-nonce rs (remaining_entities r.params es) bound m j h.1
                (ground (arith, q, e, e', split))
        ]
  ]

  pending_like-ids :
      (j : ℕ) (rs : List (EntityResponse T))
      → any (λ e. j == e.id) (pending_like rs) ≡ any (λ r. j == r.id) rs
  pending_like-ids j [] = refl
  pending_like-ids j (r ∷ rs) = ground (arith, pending_like-ids j rs)

  -- The two stores after the responses `rs` with entities are stored.
  module _ (rs : List (EntityResponse T)) (s : Requests T) (h : IsSound s)
      (parsed : All (λ r. is_present r.parsed ≡ true) rs)
      (bound : (m j : ℕ)
        → any (λ r. (j == r.id) && has_nonce m (some r)) rs ≡ true
        → m ≤ s.last_nonce) where
    stored-pending :
        (j m : ℕ)
        → is_pending m ((Entity.remove pending_options (pending_like rs) s.pending).main j)
          ≡ (not (any (λ r. j == r.id) rs) && is_pending m (s.pending.main j))
    stored-pending j m =
        ap (is_pending m) (remove_lem pending_options (pending_like rs) s.pending j h.keyed_pending)
        ∙ ground (arith, pending_like-ids j rs)

    stored-IsKeyed :
        IsKeyedStore pending_options
          (Entity.remove pending_options (pending_like rs) s.pending).main
    stored-IsKeyed j e q = h.keyed_pending j e (
        ground (arith, remove_lem pending_options (pending_like rs) s.pending j h.keyed_pending, q))

    stored-parsed :
        (j : ℕ)
        → is_parsed ((Entity.save response_options rs s.responses).main j)
          ≡ (is_parsed (s.responses.main j) || any (λ r. j == r.id) rs)
    stored-parsed j =
        parsed_save s.responses j h.keyed_responses rs
        ∙ ap (λ b. is_parsed (s.responses.main j) || b)
            (any-and (λ r. j == r.id) (λ r. is_present r.parsed) rs parsed)

    store-IsSound : IsSound (record s {
      responses = Entity.save response_options rs s.responses;
      pending = Entity.remove pending_options (pending_like rs) s.pending;
    })
    store-IsSound = record {
      keyed_pending = stored-IsKeyed;
      keyed_responses =
          save-IsKeyedStore response_options rs s.responses response-KeepsKey h.keyed_responses;
      seen = λ j m q. ground (arith, stored-pending j m, h.seen j m, q);
      waiting = λ j m q. ground (
        arith,
        stored-pending j m,
        stored-parsed j,
        nonce_save s.responses j h.keyed_responses m rs,
        any-weaken (λ r. j == r.id) (λ r. has_nonce m (some r)) rs,
        h.waiting j m,
        q,
      );
      known_nonces = λ j m q. ground (
        arith,
        nonce_save s.responses j h.keyed_responses m rs,
        bound m j,
        h.known_nonces j m,
        q,
      );
      known_requests = h.known_requests;
      answered =
          All-both (λ r. r.nonce ≤ s.last_nonce) (λ r. r.complete ≡ true → IsAnswered s r) _
            s.requests
            (λ r le a c j q. ground (
              arith,
              stored-parsed j,
              nonce_save s.responses j h.keyed_responses r.nonce rs,
              any-weaken (λ r'. j == r'.id) (λ r'. has_nonce r.nonce (some r')) rs,
              a c j,
              q,
            ))
            h.known_requests h.answered;
    }

  -- Where each entity of the chunk comes with its content: the handler keeps the invariant.
  pub handle_incoming_entities-IsSound :
      (chunk : List (ParsedEntity T)) (s : Requests T)
      → AllParsed chunk
      → IsSound s
      → IsSound (handle_incoming_entities chunk s)
  unfolding handle_incoming_entities
  handle_incoming_entities-IsSound chunk s p h =
      let filtered = filter_by_requests s.requests chunk in
      elim (Bool-cases (length filtered == 0)) [
        | inl e ↦ rw e h
        | inr e ↦ rw e (
            store-IsSound filtered s h (filter-parsed s.requests chunk p)
              (λ m j q. filter-nonce s.requests chunk s.last_nonce m j h.known_requests q))
      ]
