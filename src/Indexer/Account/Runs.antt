-- ===== src/Indexer/Account/Runs.antt =====
-- The rows of an account after any sequence of the operations of
-- packages/framework/src/services/indexer/src/accountEntityIndexer.ts.
use aleph_indexer_framework.Prelude.{
  ℕ, sym, subst, inl, inr, Bool, List, [], ◌∷◌, Option, none, some, map, length, ◌==◌, Bool-cases,
}
use aleph_indexer_framework.Time.Range.{DateRange}
use aleph_indexer_framework.Time.Merge.{MergeResult, merge_date_ranges}
use aleph_indexer_framework.Indexer.Requests.{EntityRequest}
use aleph_indexer_framework.Indexer.Account.{
  pending, processed, IndexerState, ranges_of, put_state, save_states, remove_states, with_state,
  save_pending, save_ready, has_request, first_state, as_ready, init_pending_ranges,
  is_other_account, on_entity_response, Outcome, process_ranges, processed_state, merge_with,
  merge_states,
}
use aleph_indexer_framework.Indexer.Account.Rows.{IsOrdered, put_state-IsOrdered}
use aleph_indexer_framework.Indexer.Account.Process.{keep-IsOrdered, process_ranges-saves}

pub data Run : List IndexerState → Type 0 where
  start : Run []
  requested_range :
      (r : DateRange) (nonce : ℕ) (rows : List IndexerState)
      → Run rows
      → Run (save_pending r nonce rows)
  complete_range :
      (r : DateRange) (nonce : ℕ) (rows : List IndexerState)
      → Run rows
      → Run (save_ready r nonce rows)
  restarted :
      (is_complete : ℕ → Bool) (rows : List IndexerState)
      → Run rows
      → Run (init_pending_ranges is_complete rows)
  response :
      (account : ℕ) (request : EntityRequest) (rows : List IndexerState)
      → Run rows
      → Run (on_entity_response account request rows)
  processing :
      (outcome : IndexerState → Outcome) (rows : List IndexerState)
      → Run rows
      → Run (process_ranges outcome rows).0
  compaction : (rows : List IndexerState) → Run rows → Run (merge_states rows).0

save_states-IsOrdered :
    (ss rows : List IndexerState) → IsOrdered rows → IsOrdered (save_states ss rows)
unfolding save_states
save_states-IsOrdered [] rows h = h
save_states-IsOrdered (s ∷ ss) rows h =
    save_states-IsOrdered ss (put_state s rows) (put_state-IsOrdered s rows h)

remove_states-IsOrdered :
    (ss rows : List IndexerState) → IsOrdered rows → IsOrdered (remove_states ss rows)
unfolding remove_states
remove_states-IsOrdered [] rows h = h
remove_states-IsOrdered (s ∷ ss) rows h = remove_states-IsOrdered ss _ (keep-IsOrdered _ rows h)

response-IsOrdered :
    (found : Option IndexerState) (rows : List IndexerState)
    → IsOrdered rows
    → IsOrdered (elim found [ none ↦ rows | some s ↦ put_state (as_ready s) rows ])
response-IsOrdered none rows h = h
response-IsOrdered (some s) rows h = put_state-IsOrdered (as_ready s) rows h

merge_with-IsOrdered :
    (m : MergeResult) (rows : List IndexerState) → IsOrdered rows → IsOrdered (merge_with m rows)
merge_with-IsOrdered m rows h = elim (Bool-cases (length m.new_ranges == 0)) [
  | inl e ↦ rw e h
  | inr e ↦ rw e (
      remove_states-IsOrdered (map processed_state m.old_ranges) _
        (save_states-IsOrdered (map processed_state m.new_ranges) rows h))
]

-- After any sequence of the operations, with whatever answers: the rows of the account are in the order
-- of their keys, and no key occurs twice.
pub Run-IsOrdered : (rows : List IndexerState) → Run rows → IsOrdered rows
unfolding save_pending save_ready init_pending_ranges on_entity_response merge_states
Run-IsOrdered _ start = unfold IsOrdered in tt
Run-IsOrdered _ (requested_range r nonce rows w) = put_state-IsOrdered _ rows (Run-IsOrdered rows w)
Run-IsOrdered _ (complete_range r nonce rows w) = put_state-IsOrdered _ rows (Run-IsOrdered rows w)
Run-IsOrdered _ (restarted is_complete rows w) = save_states-IsOrdered _ rows (Run-IsOrdered rows w)
Run-IsOrdered _ (response account request rows w) =
    let found = first_state (has_request request.nonce) (with_state pending rows) in
    elim (Bool-cases (is_other_account account request.params)) [
      | inl e ↦ rw e (Run-IsOrdered rows w)
      | inr e ↦ rw e (response-IsOrdered found rows (Run-IsOrdered rows w))
    ]
Run-IsOrdered _ (processing outcome rows w) =
    subst IsOrdered (sym (process_ranges-saves outcome rows))
      (save_states-IsOrdered _ rows (Run-IsOrdered rows w))
Run-IsOrdered _ (compaction rows w) =
    merge_with-IsOrdered (merge_date_ranges (ranges_of (with_state processed rows))) rows
      (Run-IsOrdered rows w)
