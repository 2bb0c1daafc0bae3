-- ===== src/Indexer/Account/Rows.antt =====
-- The rows of an account in packages/framework/src/services/indexer/src/accountEntityIndexer.ts: what a
-- save does to the row under a key, and to the instants that the rows cover.
use aleph_indexer_framework.Prelude.{
  ℕ, ◌≡◌, refl, inl, inr, Bool, true, ◌&&◌, ◌||◌, List, [], ◌∷◌, Option, none, some, keep, ◌==◌,
  if◌then◌else◌, arith, Bool-cases, All,
}
use aleph_indexer_framework.Time.Range.{holds, covers}
use aleph_indexer_framework.Indexer.Account.{
  IndexerState, dates, ranges_of, same_key, key_before, put_state,
}

-- The row under a key.
abbrev pub state_at : ℕ → ℕ → List IndexerState → Option IndexerState
state_at a b [] = none
state_at a b (s ∷ rows) = if a == s.start_date && b == s.end_date then some s else state_at a b rows

pub state_at-put_state :
    (a b : ℕ) (s : IndexerState) (rows : List IndexerState)
    → state_at a b (put_state s rows)
      ≡ (if a == s.start_date && b == s.end_date then some s else state_at a b rows)
unfolding put_state
state_at-put_state a b s [] = refl
state_at-put_state a b s (q ∷ rows) = ground (arith, state_at-put_state a b s rows)

pub covers-put_state :
    (t : ℕ) (s : IndexerState) (rows : List IndexerState)
    → covers (ranges_of (put_state s rows)) t ≡ (holds t (dates s) || covers (ranges_of rows) t)
unfolding put_state
covers-put_state t s [] = refl
covers-put_state t s (q ∷ rows) = ground (arith, covers-put_state t s rows)

pub covers-keep :
    (t : ℕ) (p : IndexerState → Bool) (rows : List IndexerState)
    → covers (ranges_of (keep p rows)) t ≡ true
    → covers (ranges_of rows) t ≡ true
covers-keep t p [] h = h
covers-keep t p (s ∷ rows) h = ground (arith, h, covers-keep t p rows)

-- Rows in the order of their keys, none of which occurs twice.
unfoldable pub IsOrdered : List IndexerState → Type 0
IsOrdered [] = Unit
IsOrdered (s ∷ rows) = All (λ q. key_before s q ≡ true) rows × IsOrdered rows

put_state-after :
    (p s : IndexerState) (rows : List IndexerState)
    → key_before p s ≡ true
    → All (λ q. key_before p q ≡ true) rows
    → All (λ q. key_before p q ≡ true) (put_state s rows)
unfolding put_state
put_state-after p s [] h hs = (h, tt)
put_state-after p s (q ∷ rows) h hs = elim (Bool-cases (same_key s q)) [
  | inl e ↦ rw e (h, hs.1)
  | inr e ↦ rw e (elim (Bool-cases (key_before s q)) [
    | inl e' ↦ rw e' (h, hs)
    | inr e' ↦ rw e' (hs.0, put_state-after p s rows h hs.1)
  ])
]

key_before_trans :
    (p s : IndexerState) (rows : List IndexerState)
    → key_before p s ≡ true
    → All (λ q. key_before s q ≡ true) rows
    → All (λ q. key_before p q ≡ true) rows
key_before_trans p s [] h hs = tt
key_before_trans p s (q ∷ rows) h hs = (ground (arith, h, hs.0), key_before_trans p s rows h hs.1)

same_key-before :
    (s q : IndexerState) (rows : List IndexerState)
    → same_key s q ≡ true
    → All (λ r. key_before q r ≡ true) rows
    → All (λ r. key_before s r ≡ true) rows
same_key-before s q [] e h = tt
same_key-before s q (r ∷ rows) e h = (ground (arith, e, h.0), same_key-before s q rows e h.1)

pub put_state-IsOrdered :
    (s : IndexerState) (rows : List IndexerState) → IsOrdered rows → IsOrdered (put_state s rows)
unfolding put_state IsOrdered
put_state-IsOrdered s [] h = (tt, tt)
put_state-IsOrdered s (q ∷ rows) h = elim (Bool-cases (same_key s q)) [
  | inl e ↦ rw e (same_key-before s q rows e h.0, h.1)
  | inr e ↦ rw e (elim (Bool-cases (key_before s q)) [
    | inl e' ↦ rw e' ((e', key_before_trans s q rows e' h.0), h)
    | inr e' ↦
        rw e' (put_state-after q s rows (ground (arith, e, e')) h.0, put_state-IsOrdered s rows h.1)
  ])
]
