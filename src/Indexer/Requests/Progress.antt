-- ===== src/Indexer/Requests/Progress.antt =====
-- What a request of packages/framework/src/services/indexer/src/entityFetcher.ts waits for, and when it
-- is marked as complete.
use aleph_indexer_framework.Prelude.{
  ℕ, ◌<◌, ◌≡◌, ◌∙◌, refl, sym, ap, subst, inl, inr, Bool, true, false, not, ◌&&◌, ◌||◌, List, [],
  ◌∷◌, ◌++◌, Option, none, some, keep, any-append, length, length-append, arith, Bool-cases, ◌==◌,
  ==_iff, if◌then◌else◌, leb, All,
}
use aleph_indexer_framework.Indexer.Requests.{
  EntityRequest, Requests, member, put_request, has_pending, check_request_completion,
  check_requests, add_ids, add_chunks,
}
use aleph_indexer_framework.Indexer.Requests.Stores.{has_nonce}
use aleph_indexer_framework.Indexer.Requests.Answered.{
  IsSound, All-both, put_request-All, add_ids-nonce, add_ids-IsSound, add_ids-requests,
  add_ids-last,
}
use aleph_indexer_framework.Indexer.Requests.Incoming.{All-keep}

abbrev pub all_ids : List (List ℕ) → List ℕ
all_ids [] = []
all_ids (ids ∷ chunks) = ids ++ all_ids chunks

module _ {T : Type 0} where
  pub add_chunks-nonce :
      (n : ℕ) (chunks : List (List ℕ)) (s : Requests T) (j m : ℕ)
      → IsSound s
      → s.last_nonce ≡ n
      → All (λ r. r.nonce < n) s.requests
      → has_nonce m ((add_chunks n chunks s).0.responses.main j)
        ≡ (has_nonce m (s.responses.main j) || (member j (all_ids chunks) && (m == n)))
  unfolding add_chunks
  add_chunks-nonce n [] s j m h e new = ground arith
  add_chunks-nonce n (ids ∷ chunks) s j m h e new =
      add_chunks-nonce n chunks (add_ids n ids s) j m (add_ids-IsSound n ids s h e new)
        (add_ids-last n ids s ∙ e)
        (subst (All (λ r. r.nonce < n)) (sym (add_ids-requests n ids s)) new)
      ∙ ground (arith, add_ids-nonce n ids s h j m, any-append (λ i. j == i) ids (all_ids chunks))

  pub add_chunks-count :
      (n : ℕ) (chunks : List (List ℕ)) (s : Requests T)
      → (add_chunks n chunks s).1 ≡ length (all_ids chunks)
  unfolding add_chunks
  add_chunks-count n [] s = refl
  add_chunks-count n (ids ∷ chunks) s =
      omega (arith, add_chunks-count n chunks (add_ids n ids s), length-append ids (all_ids chunks))

-- The store of requests under one nonce.
abbrev pub get_request : ℕ → List EntityRequest → Option EntityRequest
get_request n [] = none
get_request n (r ∷ rs) = if n == r.nonce then some r else get_request n rs

unfoldable pub IsDescending : List EntityRequest → Type 0
IsDescending [] = Unit
IsDescending (r ∷ rs) = All (λ q. q.nonce < r.nonce) rs × IsDescending rs

pub get-put_request :
    (n : ℕ) (r : EntityRequest) (rs : List EntityRequest)
    → get_request n (put_request r rs) ≡ (if n == r.nonce then some r else get_request n rs)
get-put_request n r [] = ground arith
get-put_request n r (q ∷ rs) = ground (arith, get-put_request n r rs)

pub get_request-nonce :
    (n : ℕ) (rs : List EntityRequest) (r : EntityRequest) → get_request n rs ≡ some r → r.nonce ≡ n
get_request-nonce n (q ∷ rs) r h = elim (Bool-cases (n == q.nonce)) [
  | inl e ↦ ground (arith, h, e)
  | inr e ↦ get_request-nonce n rs r (ground (arith, h, e))
]
get_request-nonce n [] r h = absurd (ground (arith, h))

get-below : (n : ℕ) (rs : List EntityRequest) → All (λ q. q.nonce < n) rs → get_request n rs ≡ none
get-below n [] h = refl
get-below n (r ∷ rs) h = ground (arith, get-below n rs h.1, h.0)

pub put-IsDescending :
    (r : EntityRequest) (rs : List EntityRequest)
    → IsDescending rs
    → IsDescending (put_request r rs)
unfolding IsDescending
put-IsDescending r [] h = (tt, tt)
put-IsDescending r (q ∷ rs) h = elim (Bool-cases (r.nonce == q.nonce)) [
  | inl e ↦
      rw e (subst (λ n. All (λ p. p.nonce < n) rs) (sym ((==_iff r.nonce q.nonce).0 e)) h.0, h.1)
  | inr e ↦ rw e (elim (Bool-cases (leb q.nonce r.nonce)) [
    | inl e' ↦
        let lt : q.nonce < r.nonce = ground (arith, e, e') in
        rw e' ((lt, All-both _ _ _ rs (λ p below _. ground (arith, below, lt)) h.0 h.0), (h.0, h.1))
    | inr e' ↦ rw e' (
      put_request-All (λ p. p.nonce < q.nonce) r rs (ground (arith, e')) h.0,
      put-IsDescending r rs h.1,
    )
  ])
]

pub keep-IsDescending :
    (p : EntityRequest → Bool) (rs : List EntityRequest)
    → IsDescending rs
    → IsDescending (keep p rs)
unfolding IsDescending
keep-IsDescending p [] h = tt
keep-IsDescending p (r ∷ rs) h =
    elim (p r) as (λ b. IsDescending (elim b [ true ↦ r ∷ keep p rs | false ↦ keep p rs ])) [
      | true ↦ (All-keep _ p rs h.0, keep-IsDescending p rs h.1)
      | false ↦ keep-IsDescending p rs h.1
    ]

module _ {T : Type 0} where
  -- The request as the check leaves it.
  abbrev pub checked_request : Requests T → EntityRequest → EntityRequest
  checked_request s r = record r { complete = r.complete || not (has_pending r.nonce s) }

  check_request_completion-get :
      (n : ℕ) (r : EntityRequest) (s : Requests T)
      → get_request n (check_request_completion r s).requests ≡ (
          if n == r.nonce && not (r.complete || has_pending r.nonce s)
          then some (record r { complete = true })
          else get_request n s.requests)
  unfolding check_request_completion
  check_request_completion-get n r s = elim (Bool-cases (r.complete || has_pending r.nonce s)) [
    | inl e ↦ ground (arith, e)
    | inr e ↦ ground (arith, e, get-put_request n (record r { complete = true }) s.requests)
  ]

  check_request_completion-pending :
      (n : ℕ) (r : EntityRequest) (s : Requests T)
      → has_pending n (check_request_completion r s) ≡ has_pending n s
  unfolding check_request_completion
  check_request_completion-pending n r s = elim (Bool-cases (r.complete || has_pending r.nonce s)) [
    | inl e ↦ rw e
    | inr e ↦ rw e
  ]

  -- What the check makes of `old` where it finds a request.
  abbrev pub settled :
      ℕ → Requests T → Option EntityRequest → Option EntityRequest → Option EntityRequest
  settled n s old none = old
  settled n s old (some r) =
      if r.complete || has_pending n s then old else some (record r { complete = true })

  pub check_requests-get :
      (n : ℕ) (rs : List EntityRequest) (s : Requests T)
      → IsDescending rs
      → get_request n (check_requests rs s).requests
        ≡ settled n s (get_request n s.requests) (get_request n rs)
  unfolding check_requests IsDescending
  check_requests-get n [] s h = refl
  check_requests-get n (r ∷ rs) s h =
      check_requests-get n rs (check_request_completion r s) h.1
      ∙ elim (Bool-cases (n == r.nonce)) [
        | inl e ↦
            let same = (==_iff n r.nonce).0 e in
            ground (
              arith,
              get-below n rs (subst (λ m. All (λ q. q.nonce < m) rs) (sym same) h.0),
              e,
              check_request_completion-get n r s,
              ap (λ m. has_pending m s) same,
            )
        | inr e ↦
            ground
              (arith, e, check_request_completion-get n r s, check_request_completion-pending n r s)
      ]

  -- The requests stay in the order of their nonces, the latest first.
  pub check_requests-IsDescending :
      (rs : List EntityRequest) (s : Requests T)
      → IsDescending s.requests
      → IsDescending (check_requests rs s).requests
  unfolding check_requests check_request_completion
  check_requests-IsDescending [] s h = h
  check_requests-IsDescending (r ∷ rs) s h =
      check_requests-IsDescending rs (check_request_completion r s)
        (elim (Bool-cases (r.complete || has_pending r.nonce s)) [
          | inl e ↦ rw e h
          | inr e ↦ rw e (put-IsDescending (record r { complete = true }) s.requests h)
        ])

  pub settled-checked :
      (n : ℕ) (s : Requests T) (found : Option EntityRequest)
      → ((r : EntityRequest) → found ≡ some r → r.nonce ≡ n)
      → settled n s found found ≡ elim found [ none ↦ none | some r ↦ some (checked_request s r) ]
  settled-checked n s none h = refl
  settled-checked n s (some r) h = ground (arith, ap (λ m. has_pending m s) (h r refl))
