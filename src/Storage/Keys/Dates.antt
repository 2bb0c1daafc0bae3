-- ===== src/Storage/Keys/Dates.antt =====
-- The keys of packages/core/src/storage/entityIndexStorage.ts that consist of two dates, and the rows of
-- an account in packages/framework/src/services/indexer/src/dal/entityIndexerState.ts.
use aleph_indexer_framework.Prelude.{
  ℕ, ◌^◌, ◌<◌, ◌≡◌, ◌∙◌, sym, ap, false, ◌&&◌, ◌||◌, List, [], ◌∷◌, ◌++◌, some, length, arith,
  append-nil,
}
use aleph_indexer_framework.Time.Decimal.{same_text}
use aleph_indexer_framework.Storage.Keys.{
  KeyChunkSchema, text, get_key_chunk, get_all_subkeys, text_before, key_chunk_delimiter,
}
use aleph_indexer_framework.Storage.Keys.Order.{get_key_chunk-order}
use aleph_indexer_framework.Indexer.Account.{IndexerState, key_before}

before-append :
    (xs ys zs ws : List ℕ)
    → length xs ≡ length ys
    → text_before (xs ++ zs) (ys ++ ws)
      ≡ (text_before xs ys || (same_text xs ys && text_before zs ws))
unfolding text_before same_text
before-append [] [] zs ws e = ground arith
before-append (x ∷ xs) (y ∷ ys) zs ws e =
    ground (arith, before-append xs ys zs ws (omega (arith, e)))
before-append [] (y ∷ ys) zs ws e = absurd (omega (arith, e))
before-append (x ∷ xs) [] zs ws e = absurd (omega (arith, e))

before-cons : (d : ℕ) (xs ys : List ℕ) → text_before (d ∷ xs) (d ∷ ys) ≡ text_before xs ys
unfolding text_before
before-cons d xs ys = ground arith

-- startDateKey and endDateKey
abbrev pub date_schema : KeyChunkSchema
date_schema = record { length = 13; pad_end = false }

abbrev pub date_chunk : ℕ → List ℕ
date_chunk t = get_key_chunk date_schema (text t)

-- The keys of a row without its account.
abbrev pub keys_of : IndexerState → List (List ℕ)
keys_of s =
    get_all_subkeys [] (
      (date_schema, some (text s.start_date) ∷ [])
      ∷ (date_schema, some (text s.end_date) ∷ [])
      ∷ [])

keys-joined :
    (s : IndexerState)
    → keys_of s ≡ (date_chunk s.start_date ++ key_chunk_delimiter ∷ date_chunk s.end_date) ∷ []
unfolding get_all_subkeys
keys-joined s =
    ap (λ cs. (date_chunk s.start_date ++ key_chunk_delimiter ∷ cs) ∷ [])
      (append-nil (date_chunk s.end_date))

-- Dates of 13 digits at most.
abbrev pub HasDates : IndexerState → Type 0
HasDates s = (s.start_date < 10 ^ 13) × (s.end_date < 10 ^ 13)

-- For rows with dates of 13 digits at most: each row has one key, and the database has the keys in the
-- order of the starts, and for the same start in that of the ends.
pub keys_of-order :
    (s q : IndexerState)
    → HasDates s
    → HasDates q
    → (k : List ℕ) × (k' : List ℕ) × (keys_of s ≡ k ∷ [])
      × (keys_of q ≡ k' ∷ [])
      × (text_before k k' ≡ key_before s q)
keys_of-order s q h h' =
    let (n, o, i) = get_key_chunk-order 12 s.start_date q.start_date h.0 h'.0 in
    let (n', o', i') = get_key_chunk-order 12 q.start_date q.start_date h'.0 h'.0 in
    let (m, r, w) = get_key_chunk-order 12 s.end_date q.end_date h.1 h'.1 in
    let d = key_chunk_delimiter in
    (
      date_chunk s.start_date ++ d ∷ date_chunk s.end_date,
      date_chunk q.start_date ++ d ∷ date_chunk q.end_date,
      keys-joined s,
      keys-joined q,
      before-append (date_chunk s.start_date) (date_chunk q.start_date) (d ∷ date_chunk s.end_date)
            (d ∷ date_chunk q.end_date) (n ∙ sym n')
          ∙ ground (arith, o, i, r, before-cons d (date_chunk s.end_date) (date_chunk q.end_date)),
    )
