-- ===== src/Jobs/Pool/Queue.antt =====
-- `addWork` of packages/core/src/utils/concurrence/pendingWork.ts.
use aleph_indexer_framework.Prelude.{
  ℕ, ◌+◌, ◌≤◌, ◌<◌, ◌≡◌, refl, sym, ap, true, false, ◌||◌, List, [], ◌∷◌, some, length, ◌==◌, ltb,
  inl, inr, arith, Bool-cases, ==_iff,
}
use aleph_indexer_framework.Jobs.Pool.{
  PendingWork, Pool, has_work, insert_work, merge_work, save_work, save_works, is_over, add_work,
}

module _ {T : Type 0} where
  has-insert_work :
      (i : ℕ) (w : PendingWork T) (ws : List (PendingWork T))
      → has_work i (insert_work w ws) ≡ ((i == w.id) || has_work i ws)
  unfolding insert_work
  has-insert_work i w [] = refl
  has-insert_work i w (v ∷ ws) = ground (arith, has-insert_work i w ws)

  length-insert_work :
      (w : PendingWork T) (ws : List (PendingWork T)) → length (insert_work w ws) ≡ length ws + 1
  unfolding insert_work
  length-insert_work w [] = refl
  length-insert_work w (v ∷ ws) = ground (arith, length-insert_work w ws)

module _ {T : Type 0} (merge : T → T → T) where
  has-merge_work :
      (i : ℕ) (w : PendingWork T) (ws : List (PendingWork T))
      → has_work i (merge_work merge w ws) ≡ has_work i ws
  unfolding merge_work
  has-merge_work i w [] = refl
  has-merge_work i w (v ∷ ws) = ground (arith, has-merge_work i w ws)

  length-merge_work :
      (w : PendingWork T) (ws : List (PendingWork T)) → length (merge_work merge w ws) ≡ length ws
  unfolding merge_work
  length-merge_work w [] = refl
  length-merge_work w (v ∷ ws) = ground (arith, length-merge_work w ws)

  has-save_work :
      (i : ℕ) (w : PendingWork T) (ws : List (PendingWork T))
      → has_work i (save_work merge w ws) ≡ ((i == w.id) || has_work i ws)
  has-save_work i w ws = elim (Bool-cases (i == w.id)) [
    | inl e ↦ ground (
      arith,
      e,
      has-merge_work i w ws,
      has-insert_work i w ws,
      ap (λ k. has_work k ws) ((==_iff i w.id).0 e),
    )
    | inr e ↦ ground (arith, e, has-merge_work i w ws, has-insert_work i w ws)
  ]

  pub has-save_works :
      (i : ℕ) (vs ws : List (PendingWork T))
      → has_work i (save_works merge vs ws) ≡ (has_work i vs || has_work i ws)
  unfolding save_works
  has-save_works i [] ws = refl
  has-save_works i (v ∷ vs) ws =
      ground (arith, has-save_works i vs (save_work merge v ws), has-save_work i v ws)

  length-save_works :
      (vs ws : List (PendingWork T)) → length (save_works merge vs ws) ≤ length ws + length vs
  unfolding save_works
  length-save_works [] ws = omega arith
  length-save_works (v ∷ vs) ws = ground (
    arith,
    length-save_works vs (save_work merge v ws),
    length-insert_work v ws,
    length-merge_work v ws,
  )

module _ {T : Type 0} (merge : T → T → T) where
  -- Where the size of the queue is limited to `n` works, which is not 0, and the pool keeps to it:
  -- `addWork` throws just if the works that it is given and those of the pool are more than `n`, and
  -- leaves the pool as it is then; else it stores each work that it is given and loses none. The pool
  -- keeps to the limit in both cases.
  pub add_work-bound :
      (n : ℕ) (ws : List (PendingWork T)) (p : Pool T)
      → 0 < n
      → length p.works ≤ n
      → (length (add_work merge (some n) ws p).0.works ≤ n)
        × ((add_work merge (some n) ws p).1 ≡ ltb n (length p.works + length ws))
        × ((add_work merge (some n) ws p).1 ≡ true → (add_work merge (some n) ws p).0 ≡ p)
        × ((i : ℕ)
            → (add_work merge (some n) ws p).1 ≡ false
            → has_work i (add_work merge (some n) ws p).0.works
              ≡ (has_work i ws || has_work i p.works))
  unfolding add_work
  add_work-bound n [] p pos h = (h, ground (arith, h), λ e. refl, λ i e. refl)
  add_work-bound n (w ∷ ws) p pos h = elim (Bool-cases (ltb n (length p.works + length (w ∷ ws)))) [
    | inl e ↦
        let over : is_over (some n) (length p.works + length (w ∷ ws)) ≡ true =
          ground (arith, e, pos) in
        rw over (h, sym e, λ q. refl, λ i q. absurd (ground (arith, q)))
    | inr e ↦
        let fits : is_over (some n) (length p.works + length (w ∷ ws)) ≡ false =
          ground (arith, e) in
        rw fits (
          ground (arith, e, length-save_works merge (w ∷ ws) p.works),
          sym e,
          λ q. absurd (ground (arith, q)),
          λ i q. has-save_works merge i (w ∷ ws) p.works,
        )
  ]
