-- ===== src/Indexer/Requests/Answered.antt =====
-- Runs of the request handlers, in any order, and the requests that they complete.
use aleph_indexer_framework.Prelude.{
  ℕ, ◌≤◌, ◌<◌, ◌≡◌, ◌∙◌, refl, sym, ap, subst, inl, inr, true, false, ◌&&◌, ◌||◌, List, [], ◌∷◌,
  any-append, arith, Bool-cases, ◌==◌, leb, All,
}
use aleph_indexer_framework.Storage.Entity.Steps.{IsKeyedStore}
use aleph_indexer_framework.Storage.Entity.Flags.{save-IsKeyedStore}
use aleph_indexer_framework.Indexer.Requests.{
  EntityRequest, Requests, member, pending_options, response_options, put_request, pending_of,
  responses_of, add_ids, add_chunks, is_pending,
}
use aleph_indexer_framework.Indexer.Requests.Stores.{
  pending-KeepsKey, response-KeepsKey, pending_save, has_nonce, is_parsed, nonce_save, parsed_save,
  any-nonce-responses_of, any-parsed-responses_of,
}

pub All-both :
    {A : Type 0} (P Q R : A → Type 0) (xs : List A)
    → ((a : A) → P a → Q a → R a)
    → All P xs
    → All Q xs
    → All R xs
All-both P Q R [] f h k = tt
All-both P Q R (x ∷ xs) f h k = (f x h.0 k.0, All-both P Q R xs f h.1 k.1)

pub put_request-All :
    (P : EntityRequest → Type 0) (r : EntityRequest) (qs : List EntityRequest)
    → P r
    → All P qs
    → All P (put_request r qs)
put_request-All P r [] h hs = (h, tt)
put_request-All P r (q ∷ qs) h hs = elim (Bool-cases (r.nonce == q.nonce)) [
  | inl e ↦ rw e (h, hs.1)
  | inr e ↦ rw e (elim (Bool-cases (leb q.nonce r.nonce)) [
    | inl e' ↦ rw e' (h, hs)
    | inr e' ↦ rw e' (hs.0, put_request-All P r qs h hs.1)
  ])
]

module _ {T : Type 0} where
  -- Every response that belongs to the request has its entity.
  abbrev pub IsAnswered : Requests T → EntityRequest → Type 0
  IsAnswered s r =
      (j : ℕ)
      → has_nonce r.nonce (s.responses.main j) ≡ true
      → is_parsed (s.responses.main j) ≡ true

  pub record IsSound (s : Requests T) : Type 0 where
    pub keyed_pending : IsKeyedStore pending_options s.pending.main
    pub keyed_responses : IsKeyedStore response_options s.responses.main
    pub seen : (j m : ℕ) → is_pending m (s.pending.main j) ≡ true → member j s.pending_ids ≡ true
    pub waiting :
        (j m : ℕ)
        → has_nonce m (s.responses.main j) ≡ true
        → (is_parsed (s.responses.main j) || is_pending m (s.pending.main j)) ≡ true
    pub known_nonces : (j m : ℕ) → has_nonce m (s.responses.main j) ≡ true → m ≤ s.last_nonce
    pub known_requests : All (λ r. r.nonce ≤ s.last_nonce) s.requests
    pub answered : All (λ r. r.complete ≡ true → IsAnswered s r) s.requests

  pub add_ids-requests :
      (n : ℕ) (ids : List ℕ) (s : Requests T) → (add_ids n ids s).requests ≡ s.requests
  unfolding add_ids
  add_ids-requests n ids s = refl

  pub add_ids-last :
      (n : ℕ) (ids : List ℕ) (s : Requests T) → (add_ids n ids s).last_nonce ≡ s.last_nonce
  unfolding add_ids
  add_ids-last n ids s = refl

  -- Ids of a new request.
  module _ (n : ℕ) (ids : List ℕ) (s : Requests T) (h : IsSound s) where
    pub add_ids-nonce :
        (j m : ℕ)
        → has_nonce m ((add_ids n ids s).responses.main j)
          ≡ (has_nonce m (s.responses.main j) || (member j ids && (m == n)))
    unfolding add_ids
    add_ids-nonce j m =
        nonce_save s.responses j h.keyed_responses m (responses_of n 0 ids)
        ∙ ap (λ b. has_nonce m (s.responses.main j) || b) (any-nonce-responses_of T n m 0 ids j)

    add_ids-parsed :
        (j : ℕ) → is_parsed ((add_ids n ids s).responses.main j) ≡ is_parsed (s.responses.main j)
    unfolding add_ids
    add_ids-parsed j =
        parsed_save s.responses j h.keyed_responses (responses_of n 0 ids)
        ∙ ground (arith, any-parsed-responses_of T n 0 ids j)

    add_ids-pending :
        (j m : ℕ)
        → is_pending m ((add_ids n ids s).pending.main j)
          ≡ (is_pending m (s.pending.main j) || (member j ids && (m == n)))
    unfolding add_ids
    add_ids-pending j m = pending_save n m ids s.pending j h.keyed_pending

    pub add_ids-IsSound :
        s.last_nonce ≡ n → All (λ r. r.nonce < n) s.requests → IsSound (add_ids n ids s)
    unfolding add_ids
    add_ids-IsSound e new = record {
      keyed_pending =
          save-IsKeyedStore pending_options (pending_of n ids) s.pending pending-KeepsKey
            h.keyed_pending;
      keyed_responses =
          save-IsKeyedStore response_options (responses_of n 0 ids) s.responses response-KeepsKey
            h.keyed_responses;
      seen = λ j m q.
          ground
            (arith, add_ids-pending j m, h.seen j m, q, any-append (λ i. j == i) ids s.pending_ids);
      waiting = λ j m q.
          ground
            (arith, add_ids-nonce j m, add_ids-parsed j, add_ids-pending j m, h.waiting j m, q);
      known_nonces = λ j m q. ground (arith, add_ids-nonce j m, h.known_nonces j m, q, e);
      known_requests = h.known_requests;
      answered =
          All-both (λ r. r.nonce < n) (λ r. r.complete ≡ true → IsAnswered s r)
            (λ r. r.complete ≡ true → IsAnswered (add_ids n ids s) r) s.requests
            (λ r lt a c j q.
              add_ids-parsed j ∙ a c j (ground (arith, lt, add_ids-nonce j r.nonce, q)))
            new h.answered;
    }

  pub add_chunks-IsSound :
      (n : ℕ) (chunks : List (List ℕ)) (s : Requests T)
      → IsSound s
      → s.last_nonce ≡ n
      → All (λ r. r.nonce < n) s.requests
      → IsSound (add_chunks n chunks s).0
  unfolding add_chunks
  add_chunks-IsSound n [] s h e new = h
  add_chunks-IsSound n (ids ∷ chunks) s h e new =
      add_chunks-IsSound n chunks (add_ids n ids s) (add_ids-IsSound n ids s h e new)
        (add_ids-last n ids s ∙ e)
        (subst (All (λ r. r.nonce < n)) (sym (add_ids-requests n ids s)) new)

  pub add_chunks-kept :
      (n : ℕ) (chunks : List (List ℕ)) (s : Requests T)
      → ((add_chunks n chunks s).0.requests ≡ s.requests)
        × ((add_chunks n chunks s).0.last_nonce ≡ s.last_nonce)
  unfolding add_chunks
  add_chunks-kept n [] s = (refl, refl)
  add_chunks-kept n (ids ∷ chunks) s =
      let (q, q') = add_chunks-kept n chunks (add_ids n ids s) in
      (q ∙ add_ids-requests n ids s, q' ∙ add_ids-last n ids s)

  -- A request for which no ids came has no response.
  pub add_chunks-empty :
      (n : ℕ) (chunks : List (List ℕ)) (s : Requests T) (j : ℕ)
      → IsSound s
      → s.last_nonce ≡ n
      → All (λ r. r.nonce < n) s.requests
      → (add_chunks n chunks s).1 ≡ 0
      → has_nonce n (s.responses.main j) ≡ false
      → has_nonce n ((add_chunks n chunks s).0.responses.main j) ≡ false
  unfolding add_chunks
  add_chunks-empty n [] s j h e new c q = q
  add_chunks-empty n ([] ∷ chunks) s j h e new c q =
      add_chunks-empty n chunks (add_ids n [] s) j (add_ids-IsSound n [] s h e new)
        (add_ids-last n [] s ∙ e)
        (subst (All (λ r. r.nonce < n)) (sym (add_ids-requests n [] s)) new) (ground (arith, c))
        (ground (arith, add_ids-nonce n [] s h j n, q))
  add_chunks-empty n ((id ∷ ids) ∷ chunks) s j h e new c q = absurd (ground (arith, c))
