-- ===== src/Indexer/Requests/Stores.antt =====
-- What the handlers do to the readings of the two stores under one id.
use aleph_indexer_framework.Prelude.{
  ℕ, ◌+◌, ◌≡◌, ◌∙◌, refl, ap, inl, inr, Bool, false, not, ◌&&◌, ◌||◌, List, [], ◌∷◌, Option, none,
  some, any, keep, any-append, arith, Bool-cases, ◌==◌, ==_iff,
}
use aleph_indexer_framework.Storage.Entity
use aleph_indexer_framework.Storage.Entity.{EntityOptions, EntityStore, UpdateOp, update, checked}
use aleph_indexer_framework.Storage.Entity.Steps.{KeepsKey, IsKeyedStore}
use aleph_indexer_framework.Storage.Entity.Flags.{after, save_flag}
use aleph_indexer_framework.Indexer.Requests.{
  PendingEntity, EntityResponse, is_present, member, union, check_pending, pending_options,
  check_response, response_options, pending_of, responses_of, is_pending,
}

any-keep_new :
    (n : ℕ) (old new : List ℕ)
    → (member n old || member n (keep (λ m. not (member m old)) new))
      ≡ (member n old || member n new)
any-keep_new n old [] = refl
any-keep_new n old (m ∷ new) =
    let rest = any-keep_new n old new in
    elim (Bool-cases (n == m)) [
      | inl q ↦ let same = ap (λ i. member i old) ((==_iff n m).0 q) in ground arith
      | inr q ↦ ground arith
    ]

member-union :
    (n : ℕ) (old new : List ℕ) → member n (union old new) ≡ (member n old || member n new)
member-union n old new = any-append (λ m. n == m) old _ ∙ any-keep_new n old new

pub pending-KeepsKey : KeepsKey pending_options update
unfolding checked check_pending
pending-KeepsKey none e = refl
pending-KeepsKey (some old) e = refl

pending-raise :
    (n : ℕ) (old : Option PendingEntity) (e : PendingEntity)
    → is_pending n (after pending_options old (checked pending_options update old e))
      ≡ (is_pending n old || member n e.nonces)
unfolding checked check_pending
pending-raise n none e = refl
pending-raise n (some old) e = member-union n old.nonces e.nonces

-- A save of ids for a nonce adds that nonce to these ids.
any-pending_of :
    (n m : ℕ) (ids : List ℕ) (j : ℕ)
    → any (λ e. (j == e.id) && member m e.nonces) (pending_of n ids) ≡ (member j ids && (m == n))
any-pending_of n m [] j = refl
any-pending_of n m (id ∷ ids) j = ground (arith, any-pending_of n m ids j)

pub pending_save :
    (n m : ℕ) (ids : List ℕ) (s : EntityStore PendingEntity) (j : ℕ)
    → IsKeyedStore pending_options s.main
    → is_pending m ((Entity.save pending_options (pending_of n ids) s).main j)
      ≡ (is_pending m (s.main j) || (member j ids && (m == n)))
pending_save n m ids s j hs =
    save_flag pending_options (is_pending m) (λ e. member m e.nonces) (pending-raise m)
      (pending_of n ids) s j hs pending-KeepsKey
    ∙ ap (λ b. is_pending m (s.main j) || b) (any-pending_of n m ids j)

module _ {T : Type 0} where
  abbrev pub has_nonce : ℕ → Option (EntityResponse T) → Bool
  has_nonce m none = false
  has_nonce m (some r) = any (λ ix. m == ix.0) r.nonce_indexes

  abbrev pub is_parsed : Option (EntityResponse T) → Bool
  is_parsed none = false
  is_parsed (some r) = is_present r.parsed

  pub response-KeepsKey : KeepsKey (response_options {T = T}) update
  unfolding checked check_response
  response-KeepsKey none e = refl
  response-KeepsKey (some old) e = refl

  nonce-raise :
      (m : ℕ) (old : Option (EntityResponse T)) (e : EntityResponse T)
      → has_nonce m (after response_options old (checked response_options update old e))
        ≡ (has_nonce m old || has_nonce m (some e))
  unfolding checked check_response
  nonce-raise m none e = refl
  nonce-raise m (some old) e = any-append (λ ix. m == ix.0) old.nonce_indexes e.nonce_indexes

  parsed-raise :
      (old : Option (EntityResponse T)) (e : EntityResponse T)
      → is_parsed (after response_options old (checked response_options update old e))
        ≡ (is_parsed old || is_present e.parsed)
  unfolding checked check_response
  parsed-raise none e = refl
  parsed-raise (some old) e = ground arith

  module _ (s : EntityStore (EntityResponse T)) (j : ℕ)
      (hs : IsKeyedStore response_options s.main) where
    pub nonce_save :
        (m : ℕ) (rs : List (EntityResponse T))
        → has_nonce m ((Entity.save response_options rs s).main j)
          ≡ (has_nonce m (s.main j) || any (λ r. (j == r.id) && has_nonce m (some r)) rs)
    nonce_save m rs =
        save_flag response_options (has_nonce m) (λ r. has_nonce m (some r)) (nonce-raise m) rs s j
          hs response-KeepsKey

    pub parsed_save :
        (rs : List (EntityResponse T))
        → is_parsed ((Entity.save response_options rs s).main j)
          ≡ (is_parsed (s.main j) || any (λ r. (j == r.id) && is_present r.parsed) rs)
    parsed_save rs =
        save_flag response_options is_parsed (λ r. is_present r.parsed) parsed-raise rs s j hs
          response-KeepsKey

pub any-nonce-responses_of :
    (A : Type 0) (n m index : ℕ) (ids : List ℕ) (j : ℕ)
    → any (λ r. (j == r.id) && has_nonce m (some r)) (responses_of {T = A} n index ids)
      ≡ (member j ids && (m == n))
any-nonce-responses_of A n m index [] j = refl
any-nonce-responses_of A n m index (id ∷ ids) j =
    ground (arith, any-nonce-responses_of A n m (index + 1) ids j)

pub any-parsed-responses_of :
    (A : Type 0) (n index : ℕ) (ids : List ℕ) (j : ℕ)
    → any (λ r. (j == r.id) && is_present r.parsed) (responses_of {T = A} n index ids) ≡ false
any-parsed-responses_of A n index [] j = refl
any-parsed-responses_of A n index (id ∷ ids) j =
    ground (arith, any-parsed-responses_of A n (index + 1) ids j)
