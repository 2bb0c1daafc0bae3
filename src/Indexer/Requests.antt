-- ===== src/Indexer/Requests.antt =====
-- `BaseIndexerEntityFetcher` of packages/framework/src/services/indexer/src/entityFetcher.ts with its
-- stores of dal, and the filters by date of the fetchers of packages/ethereum and packages/solana.
-- Ids, accounts and nonces are numbers. The request mutex makes a call of a handler one step. What
-- the fetcher service answers is given.
pub mod Stores
pub mod Answered
pub mod Handled
pub mod Incoming
pub mod Progress
pub mod Runs
pub mod Complete
use aleph_indexer_framework.Prelude.{
  ℕ, ◌+◌, Bool, true, false, not, ◌&&◌, ◌||◌, List, [], ◌∷◌, ◌++◌, Option, none, some, any, keep,
  map, length, ◌==◌, leb, if◌then◌else◌,
}
use aleph_indexer_framework.Common.{nonce}
use aleph_indexer_framework.Storage.Entity
use aleph_indexer_framework.Storage.Entity.{EntityOptions, EntityStore, CheckResult, UpdateOp}

-- EntityRequestParams
pub data RequestParams : Type 0 where
  by_date_range : ℕ → ℕ → ℕ → RequestParams
  by_id : List ℕ → RequestParams

pub record EntityRequest : Type 0 where
  pub nonce : ℕ
  pub count : ℕ
  pub complete : Bool
  pub params : RequestParams

-- What `fetchEntityIds` gives: no stream, one that breaks off with an error after some chunks of ids, or
-- one that ends.
pub data IdsStream : Type 0 where
  not_given : IdsStream
  broken : List (List ℕ) → IdsStream
  ended : List (List ℕ) → IdsStream

-- EntityRequestPendingEntity
pub record PendingEntity : Type 0 where
  pub id : ℕ
  pub nonces : List ℕ

-- An entity that the parser sends. `accounts` are the addresses that the filter of its blockchain
-- compares: `from` and `to` in lower case, or the keys of the message.
pub record ParsedEntity (T : Type 0) : Type 0 where
  pub id : ℕ
  pub timestamp : ℕ
  pub accounts : List ℕ
  pub parsed : Option T

-- EntityRequestResponse: `nonce_indexes` is a record from nonces to indices, in which an entry behind
-- another one of the same nonce does not count.
pub record EntityResponse (T : Type 0) : Type 0 where
  pub id : ℕ
  pub parsed : Option T
  pub nonce_indexes : List (ℕ × ℕ)

abbrev pub is_present {ℓ} : {A : Type ℓ} → Option A → Bool
is_present none = false
is_present (some a) = true

abbrev pub member : ℕ → List ℕ → Bool
member n ns = any (λ m. n == m) ns

-- The check of the store of pending entities: the union of the nonces.
abbrev pub union : List ℕ → List ℕ → List ℕ
union old new = old ++ keep (λ n. not (member n old)) new

unfoldable pub check_pending :
    Option PendingEntity → PendingEntity → UpdateOp → CheckResult PendingEntity
check_pending none e op = record { op = UpdateOp.update; entity = some e }
check_pending (some old) e op = record {
  op = UpdateOp.update;
  entity = some (record { id = e.id; nonces = union old.nonces e.nonces });
}

abbrev pub pending_options : EntityOptions PendingEntity
pending_options = record { primary_key = λ e. e.id; update_check_fn = some check_pending }

module _ {T : Type 0} where
  -- The check of the store of responses. Every response has its record of nonces, so the branch that
  -- deletes one without it is not taken.
  unfoldable pub check_response :
      Option (EntityResponse T) → EntityResponse T → UpdateOp → CheckResult (EntityResponse T)
  check_response none e op = record { op = UpdateOp.update; entity = some e }
  check_response (some old) e op = record {
    op = UpdateOp.update;
    entity = some (record {
      id = e.id;
      parsed = elim e.parsed [ none ↦ old.parsed | some p ↦ some p ];
      nonce_indexes = old.nonce_indexes ++ e.nonce_indexes;
    });
  }

  abbrev pub response_options : EntityOptions (EntityResponse T)
  response_options = record { primary_key = λ e. e.id; update_check_fn = some check_response }

-- The stores of the class and the last nonce. A scan of the index of pending entities goes through
-- `pending_ids`, the ids that were ever stored there.
pub record Requests (T : Type 0) : Type 0 where
  pub requests : List EntityRequest
  pub pending : EntityStore PendingEntity
  pub pending_ids : List ℕ
  pub responses : EntityStore (EntityResponse T)
  pub last_nonce : ℕ

-- The store of requests under their nonces; the latest request stands first, as a scan in reverse has it.
abbrev pub put_request : EntityRequest → List EntityRequest → List EntityRequest
put_request r [] = r ∷ []
put_request r (q ∷ qs) =
    if r.nonce == q.nonce
    then r ∷ qs
    else if leb q.nonce r.nonce
    then r ∷ q ∷ qs
    else q ∷ put_request r qs

abbrev pub pending_of : ℕ → List ℕ → List PendingEntity
pending_of n [] = []
pending_of n (id ∷ ids) = record { id = id; nonces = n ∷ [] } ∷ pending_of n ids

abbrev pub request_of : ℕ → RequestParams → ℕ → EntityRequest
request_of n params count = record {
  nonce = n;
  count = count;
  complete = count == 0;
  params = params;
}

abbrev pub is_pending : ℕ → Option PendingEntity → Bool
is_pending n none = false
is_pending n (some e) = member n e.nonces

-- `remove` of `getResponse`: the request goes, and the nonce is taken out of the responses that the
-- index has under it, which are saved again.
abbrev pub without_nonce : ℕ → List (ℕ × ℕ) → List (ℕ × ℕ)
without_nonce n ixs = keep (λ ix. not (ix.0 == n)) ixs

abbrev pub drop_request : ℕ → List EntityRequest → List EntityRequest
drop_request n rs = keep (λ r. not (r.nonce == n)) rs

module _ {T : Type 0} where
  abbrev pub responses_of : ℕ → ℕ → List ℕ → List (EntityResponse T)
  responses_of n index [] = []
  responses_of n index (id ∷ ids) =
      record { id = id; parsed = none; nonce_indexes = (n, index) ∷ [] }
      ∷ responses_of n (index + 1) ids

  -- A chunk of ids of a request.
  unfoldable pub add_ids : ℕ → List ℕ → Requests T → Requests T
  add_ids n ids s = record s {
    responses = Entity.save response_options (responses_of n 0 ids) s.responses;
    pending = Entity.save pending_options (pending_of n ids) s.pending;
    pending_ids = ids ++ s.pending_ids;
  }

  -- The loop over the stream of ids, and the number of ids.
  pub add_chunks : ℕ → List (List ℕ) → Requests T → Requests T × ℕ
  add_chunks n [] s = (s, 0)
  add_chunks n (ids ∷ chunks) s =
      let (s', count) = add_chunks n chunks (add_ids n ids s) in (s', length ids + count)

  -- handleEntityRequest. The result is `none` where it throws: the nonce is used up then as well, and
  -- what was saved of the ids before the error stays.
  unfoldable pub handle_entity_request :
      ℕ → RequestParams → IdsStream → Requests T → Requests T × Option ℕ
  handle_entity_request now params not_given s =
      (record s { last_nonce = nonce s.last_nonce now }, none)
  handle_entity_request now params (broken chunks) s =
      let n = nonce s.last_nonce now in
      ((add_chunks n chunks (record s { last_nonce = n })).0, none)
  handle_entity_request now params (ended chunks) s =
      let n = nonce s.last_nonce now in
      let (s', count) = add_chunks n chunks (record s { last_nonce = n }) in
      (record s' { requests = put_request (request_of n params count) s'.requests }, some n)

  -- filterIncomingEntitiesByRequest: an entity without `parsed` is dropped by a range of dates.
  abbrev pub in_date_range : ℕ → ℕ → ℕ → ParsedEntity T → Bool
  in_date_range account start_date end_date e =
      leb start_date e.timestamp && leb e.timestamp end_date && member account e.accounts

  abbrev pub filtered_entities : RequestParams → List (ParsedEntity T) → List (ParsedEntity T)
  filtered_entities (by_date_range account start_date end_date) es =
      keep (λ e. is_present e.parsed && in_date_range account start_date end_date e) es
  filtered_entities (by_id ids) es = keep (λ e. member e.id ids) es

  abbrev pub remaining_entities : RequestParams → List (ParsedEntity T) → List (ParsedEntity T)
  remaining_entities (by_date_range account start_date end_date) es =
      keep (λ e. is_present e.parsed && not (in_date_range account start_date end_date e)) es
  remaining_entities (by_id ids) es = keep (λ e. not (member e.id ids)) es

  abbrev pub responses_with : ℕ → List (ParsedEntity T) → List (EntityResponse T)
  responses_with n [] = []
  responses_with n (e ∷ es) =
      record { id = e.id; parsed = e.parsed; nonce_indexes = (n, 0) ∷ [] } ∷ responses_with n es

  -- The loop over the requests of `handleIncomingEntities`.
  pub filter_by_requests : List EntityRequest → List (ParsedEntity T) → List (EntityResponse T)
  filter_by_requests [] es = []
  filter_by_requests (r ∷ rs) es =
      if r.complete
      then filter_by_requests rs es
      else responses_with r.nonce (filtered_entities r.params es)
        ++ filter_by_requests rs (remaining_entities r.params es)

  abbrev pub pending_like : List (EntityResponse T) → List PendingEntity
  pending_like [] = []
  pending_like (r ∷ rs) = record { id = r.id; nonces = [] } ∷ pending_like rs

  -- handleIncomingEntities
  unfoldable pub handle_incoming_entities : List (ParsedEntity T) → Requests T → Requests T
  handle_incoming_entities chunk s =
      let filtered = filter_by_requests s.requests chunk in
      if length filtered == 0 then s else record s {
        responses = Entity.save response_options filtered s.responses;
        pending = Entity.remove pending_options (pending_like filtered) s.pending;
      }

  -- checkRequestCompletion: whether an id of the request is pending, and the request that is saved.
  abbrev pub has_pending : ℕ → Requests T → Bool
  has_pending n s = any (λ id. is_pending n (s.pending.main id)) s.pending_ids

  unfoldable pub check_request_completion : EntityRequest → Requests T → Requests T
  check_request_completion r s =
      if r.complete || has_pending r.nonce s
      then s
      else record s { requests = put_request (record r { complete = true }) s.requests }

  -- checkAllRequestCompletion, over the requests that the scan finds.
  pub check_requests : List EntityRequest → Requests T → Requests T
  check_requests [] s = s
  check_requests (r ∷ rs) s = check_requests rs (check_request_completion r s)

  pub check_all_request_completion : Requests T → Requests T
  check_all_request_completion s = check_requests s.requests s

  abbrev pub strip_nonce : ℕ → List (EntityResponse T) → List (EntityResponse T)
  strip_nonce n [] = []
  strip_nonce n (r ∷ rs) =
      record r { nonce_indexes = without_nonce n r.nonce_indexes } ∷ strip_nonce n rs

  unfoldable pub remove_response : ℕ → List (EntityResponse T) → Requests T → Requests T
  remove_response n items s = record s {
    requests = drop_request n s.requests;
    responses = Entity.save response_options (strip_nonce n items) s.responses;
  }
