-- ===== src/Indexer/Account/Process.antt =====
-- The states of the requests in packages/framework/src/services/indexer/src/accountEntityIndexer.ts:
-- `initPendingRanges`, `onEntityResponse` and `processRanges` on the row under a key.
use aleph_indexer_framework.Prelude.{
  ℕ, ◌≤◌, ◌≡◌, ◌∙◌, refl, ap, inl, inr, Bool, true, false, not, ◌&&◌, List, [], ◌∷◌, Option, none,
  some, keep, map, length, ◌==◌, if◌then◌else◌, arith, Bool-cases, All,
}
use aleph_indexer_framework.Indexer.Requests.{EntityRequest}
use aleph_indexer_framework.Indexer.Account.{
  pending, ready, IndexerState, same_code, key_before, put_state, save_states, with_state,
  is_complete_request, as_ready, init_pending_ranges, has_request, first_state, is_other_account,
  on_entity_response, Outcome, process_one, done, failed_before_save, failed_after_save,
  as_processed, process_loop, process_ranges,
}
use aleph_indexer_framework.Indexer.Account.Rows.{state_at, state_at-put_state, IsOrdered}

state_at-after :
    (a b : ℕ) (s : IndexerState) (rows : List IndexerState)
    → All (λ q. key_before s q ≡ true) rows
    → (a == s.start_date && b == s.end_date) ≡ true
    → state_at a b rows ≡ none
state_at-after a b s [] h e = refl
state_at-after a b s (q ∷ rows) h e = ground (arith, h.0, e, state_at-after a b s rows h.1)

state_at-save_states :
    (a b : ℕ) (ss rows : List IndexerState)
    → IsOrdered ss
    → state_at a b (save_states ss rows)
      ≡ elim (state_at a b ss) [ none ↦ state_at a b rows | some s ↦ some s ]
unfolding save_states IsOrdered
state_at-save_states a b [] rows h = refl
state_at-save_states a b (s ∷ ss) rows h =
    state_at-save_states a b ss (put_state s rows) h.1
    ∙ ground (arith, state_at-put_state a b s rows, state_at-after a b s ss h.0)

keep-after :
    (s : IndexerState) (p : IndexerState → Bool) (rows : List IndexerState)
    → All (λ q. key_before s q ≡ true) rows
    → All (λ q. key_before s q ≡ true) (keep p rows)
keep-after s p [] h = tt
keep-after s p (q ∷ rows) h =
    elim (p q)
      as (λ b.
        All (λ r. key_before s r ≡ true)
          (elim b [ true ↦ q ∷ keep p rows | false ↦ keep p rows ])) [
            | true ↦ (h.0, keep-after s p rows h.1)
            | false ↦ keep-after s p rows h.1
          ]

pub keep-IsOrdered :
    (p : IndexerState → Bool) (rows : List IndexerState) → IsOrdered rows → IsOrdered (keep p rows)
unfolding IsOrdered
keep-IsOrdered p [] h = tt
keep-IsOrdered p (q ∷ rows) h =
    elim (p q) as (λ b. IsOrdered (elim b [ true ↦ q ∷ keep p rows | false ↦ keep p rows ])) [
      | true ↦ (keep-after q p rows h.0, keep-IsOrdered p rows h.1)
      | false ↦ keep-IsOrdered p rows h.1
    ]

state_at-keep :
    (a b : ℕ) (p : IndexerState → Bool) (rows : List IndexerState)
    → IsOrdered rows
    → state_at a b (keep p rows)
      ≡ elim (state_at a b rows) [ none ↦ none | some s ↦ if p s then some s else none ]
unfolding IsOrdered
state_at-keep a b p [] h = refl
state_at-keep a b p (q ∷ rows) h =
    ground (arith, state_at-keep a b p rows h.1, state_at-after a b q rows h.0)

-- A function that keeps the keys.
module _ (f : IndexerState → IndexerState)
    (starts : (s : IndexerState) → (f s).start_date ≡ s.start_date)
    (ends : (s : IndexerState) → (f s).end_date ≡ s.end_date) where
  state_at-map :
      (a b : ℕ) (rows : List IndexerState)
      → state_at a b (map f rows) ≡ elim (state_at a b rows) [ none ↦ none | some s ↦ some (f s) ]
  state_at-map a b [] = refl
  state_at-map a b (q ∷ rows) = ground (arith, starts q, ends q, state_at-map a b rows)

  map-after :
      (s : IndexerState) (rows : List IndexerState)
      → All (λ q. key_before s q ≡ true) rows
      → All (λ q. key_before (f s) q ≡ true) (map f rows)
  map-after s [] h = tt
  map-after s (q ∷ rows) h =
      (ground (arith, h.0, starts s, ends s, starts q, ends q), map-after s rows h.1)

  map-IsOrdered : (rows : List IndexerState) → IsOrdered rows → IsOrdered (map f rows)
  unfolding IsOrdered
  map-IsOrdered [] h = tt
  map-IsOrdered (q ∷ rows) h = (map-after q rows h.0, map-IsOrdered rows h.1)

  saved_at :
      (a b : ℕ) (ss rows : List IndexerState)
      → IsOrdered ss
      → state_at a b (save_states (map f ss) rows)
        ≡ elim (state_at a b ss) [ none ↦ state_at a b rows | some s ↦ some (f s) ]
  saved_at a b ss rows h =
      state_at-save_states a b (map f ss) rows (map-IsOrdered ss h)
      ∙ ground (arith, state_at-map a b ss)

-- The states of the ready ranges up to the first failure, which the loop marks as processed.
abbrev mark_one : Outcome → IndexerState → List IndexerState → List IndexerState
mark_one done s rest = s ∷ rest
mark_one failed_before_save s rest = []
mark_one failed_after_save s rest = s ∷ []

unfoldable pub marked : (IndexerState → Outcome) → List IndexerState → List IndexerState
marked outcome [] = []
marked outcome (s ∷ ss) = mark_one (outcome s) s (marked outcome ss)

process_one-marked :
    (o : Outcome) (s : IndexerState) (rows rest : List IndexerState)
    (r : List IndexerState × Option ℕ)
    → r.0 ≡ save_states (map as_processed rest) (put_state (as_processed s) rows)
    → (process_one o rows (put_state (as_processed s) rows) r).0
      ≡ save_states (map as_processed (mark_one o s rest)) rows
unfolding save_states
process_one-marked done s rows rest r h = h
process_one-marked failed_before_save s rows rest r h = refl
process_one-marked failed_after_save s rows rest r h = refl

process_loop-marked :
    (outcome : IndexerState → Outcome) (ss rows : List IndexerState)
    → (process_loop outcome ss rows).0 ≡ save_states (map as_processed (marked outcome ss)) rows
unfolding process_loop marked
process_loop-marked outcome [] rows = unfold save_states in refl
process_loop-marked outcome (s ∷ ss) rows =
    let saved = put_state (as_processed s) rows in
    process_one-marked (outcome s) s rows (marked outcome ss) (process_loop outcome ss saved)
      (process_loop-marked outcome ss saved)

mark_one-after :
    (o : Outcome) (s q : IndexerState) (rest : List IndexerState)
    → key_before s q ≡ true
    → All (λ r. key_before s r ≡ true) rest
    → All (λ r. key_before s r ≡ true) (mark_one o q rest)
mark_one-after done s q rest e h = (e, h)
mark_one-after failed_before_save s q rest e h = tt
mark_one-after failed_after_save s q rest e h = (e, tt)

marked-after :
    (outcome : IndexerState → Outcome) (s : IndexerState) (ss : List IndexerState)
    → All (λ q. key_before s q ≡ true) ss
    → All (λ q. key_before s q ≡ true) (marked outcome ss)
unfolding marked
marked-after outcome s [] h = tt
marked-after outcome s (q ∷ ss) h =
    mark_one-after (outcome q) s q (marked outcome ss) h.0 (marked-after outcome s ss h.1)

mark_one-IsOrdered :
    (o : Outcome) (s : IndexerState) (rest : List IndexerState)
    → All (λ q. key_before s q ≡ true) rest
    → IsOrdered rest
    → IsOrdered (mark_one o s rest)
unfolding IsOrdered
mark_one-IsOrdered done s rest h hs = (h, hs)
mark_one-IsOrdered failed_before_save s rest h hs = tt
mark_one-IsOrdered failed_after_save s rest h hs = (tt, tt)

marked-IsOrdered :
    (outcome : IndexerState → Outcome) (ss : List IndexerState)
    → IsOrdered ss
    → IsOrdered (marked outcome ss)
unfolding marked IsOrdered
marked-IsOrdered outcome [] h = tt
marked-IsOrdered outcome (s ∷ ss) h =
    mark_one-IsOrdered (outcome s) s (marked outcome ss) (marked-after outcome s ss h.0)
      (marked-IsOrdered outcome ss h.1)

pub process_ranges-saves :
    (outcome : IndexerState → Outcome) (rows : List IndexerState)
    → (process_ranges outcome rows).0
      ≡ save_states (map as_processed (marked outcome (with_state ready rows))) rows
unfolding process_ranges
process_ranges-saves outcome rows = process_loop-marked outcome (with_state ready rows) rows

-- For rows in the order of their keys, whatever fails: the rows that `processRanges` marks as processed
-- are the ready ones up to the first failure, in the order of their keys, that one included just if it
-- fails after its save; every other row is as it was.
pub process_ranges-marked :
    (outcome : IndexerState → Outcome) (rows : List IndexerState) (a b : ℕ)
    → IsOrdered rows
    → state_at a b (process_ranges outcome rows).0
      ≡ elim (state_at a b (marked outcome (with_state ready rows))) [
        | none ↦ state_at a b rows
        | some s ↦ some (as_processed s)
      ]
unfolding process_ranges
process_ranges-marked outcome rows a b h =
    let found = with_state ready rows in
    ap (state_at a b) (process_ranges-saves outcome rows)
    ∙ saved_at as_processed (λ s. refl) (λ s. refl) a b (marked outcome found) rows
        (marked-IsOrdered outcome found (keep-IsOrdered (λ s. same_code s.state ready) rows h))

-- For rows in the order of their keys: at the start, a pending row whose request is complete becomes
-- ready, and every other row is as it was.
pub init_pending_ranges-ready :
    (is_complete : ℕ → Bool) (rows : List IndexerState) (a b : ℕ)
    → IsOrdered rows
    → state_at a b (init_pending_ranges is_complete rows) ≡ elim (state_at a b rows) [
      | none ↦ none
      | some s ↦
          some (
            if same_code s.state pending && is_complete_request is_complete s
            then as_ready s
            else s)
    ]
unfolding init_pending_ranges
init_pending_ranges-ready is_complete rows a b h =
    let waiting = with_state pending rows in
    let waiting-IsOrdered = keep-IsOrdered (λ s. same_code s.state pending) rows h in
    saved_at as_ready (λ s. refl) (λ s. refl) a b (keep (is_complete_request is_complete) waiting)
      rows (keep-IsOrdered (is_complete_request is_complete) waiting waiting-IsOrdered)
    ∙ ground (
      arith,
      state_at-keep a b (is_complete_request is_complete) waiting waiting-IsOrdered,
      state_at-keep a b (λ s. same_code s.state pending) rows h,
    )

keep-none :
    (p : IndexerState → Bool) (xs : List IndexerState) → length (keep p xs) ≡ 0 → keep p xs ≡ []
keep-none p [] h = refl
keep-none p (x ∷ xs) h = ground (arith, h, keep-none p xs)

first_state-keep :
    (p : IndexerState → Bool) (xs rows : List IndexerState)
    → length (keep p xs) ≤ 1
    → elim (first_state p xs) [ none ↦ rows | some s ↦ put_state (as_ready s) rows ]
      ≡ save_states (map as_ready (keep p xs)) rows
unfolding save_states
first_state-keep p [] rows h = refl
first_state-keep p (x ∷ xs) rows h = elim (Bool-cases (p x)) [
  | inl e ↦
      let rest = keep-none p xs (ground (arith, h, e)) in
      ground (arith, e, ap (λ ys. save_states (map as_ready ys) (put_state (as_ready x) rows)) rest)
  | inr e ↦ ground (arith, e, first_state-keep p xs rows (ground (arith, h, e)))
]

-- For rows in the order of their keys, of which at most one is pending and waits for the request: the
-- response to a request for a range of dates of another account changes no row; that to any other
-- request sets the state of the row that waits to ready, and keeps its dates and its nonce, and every
-- other row is as it was.
pub on_entity_response-ready :
    (account : ℕ) (request : EntityRequest) (rows : List IndexerState) (a b : ℕ)
    → IsOrdered rows
    → length (keep (has_request request.nonce) (with_state pending rows)) ≤ 1
    → state_at a b (on_entity_response account request rows) ≡ elim (state_at a b rows) [
      | none ↦ none
      | some s ↦ some (
          if not (is_other_account account request.params)
            && (same_code s.state pending && has_request request.nonce s)
          then record s { state = ready }
          else s)
    ]
unfolding on_entity_response
on_entity_response-ready account request rows a b h one =
    let waits = has_request request.nonce in
    let found = with_state pending rows in
    let found-IsOrdered = keep-IsOrdered (λ s. same_code s.state pending) rows h in
    elim (Bool-cases (is_other_account account request.params)) [
      | inl other ↦ ground (arith, other)
      | inr own ↦
          let marked =
            ap (state_at a b) (first_state-keep waits found rows one)
            ∙ saved_at as_ready (λ s. refl) (λ s. refl) a b (keep waits found) rows
                (keep-IsOrdered waits found found-IsOrdered) in
          ground (
            arith,
            own,
            marked,
            state_at-keep a b waits found found-IsOrdered,
            state_at-keep a b (λ s. same_code s.state pending) rows h,
          )
    ]
