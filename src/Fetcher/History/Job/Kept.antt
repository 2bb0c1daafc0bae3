-- ===== src/Fetcher/History/Job/Kept.antt =====
-- Runs of both jobs of a fetcher, in any order.
use aleph_indexer_framework.Prelude.{
  ℕ, zero, suc, ◌≡◌, ◌∙◌, refl, sym, ap, subst, inl, inr, Bool, true, none, some, arith, Bool-cases,
}
use aleph_indexer_framework.Fetcher.History.{
  JobKind, forward, backward, stop, FetcherState, FetchResult, RunContext, JobOptions,
  FetcherOptions, Fetcher, job_state, job_options, complete_job,
}
use aleph_indexer_framework.Fetcher.History.Job.{
  Outcome, returned, is_some, run_round, run_job, next_context, settle, after_fetch, update_cursors,
  update_frequency, start_run, run_update, default_update, spread,
}
use aleph_indexer_framework.Fetcher.History.Job.Ends.{
  round-open, round-complete, run_job-ended, run_job-again, Round-cases,
}

-- Runs of the jobs of the options, and calls of `complete`, from one state to another.
pub data Runs {C E : Type 0} (o : FetcherOptions C E) (f : Fetcher C) : Fetcher C → Type 0 where
  no_runs : Runs o f f
  run :
      {g h : Fetcher C} (k : JobKind) (opts : JobOptions C E) (clock : ℕ → ℕ) (fuel : ℕ)
      (ctx : RunContext) (call : ℕ) (outcome : Outcome E)
      → Runs o f g
      → job_options o k ≡ some opts
      → run_job o k opts clock fuel ctx call g ≡ some (h, outcome)
      → Runs o f h
  completed : {g : Fetcher C} (k : JobKind) → Runs o f g → Runs o f (complete_job k g)

module _ {C E : Type 0} (o : FetcherOptions C E) (P : Fetcher C → Type 0) where
  run_job-keeps :
      (k : JobKind) (opts : JobOptions C E)
      → ((now : ℕ) (ctx : RunContext) (call : ℕ) (f : Fetcher C)
          → P f
          → P (run_round o k opts now ctx call f).0)
      → (clock : ℕ → ℕ) (fuel : ℕ) (ctx : RunContext) (call : ℕ) (f h : Fetcher C)
        (outcome : Outcome E)
      → P f
      → run_job o k opts clock fuel ctx call f ≡ some (h, outcome)
      → P h
  unfolding run_job
  run_job-keeps k opts step clock zero ctx call f h out p e = ground arith
  run_job-keeps k opts step clock (suc fuel) ctx call f h out p e =
      let p1 = step (clock call) ctx call f p in
      elim (Round-cases (run_round o k opts (clock call) ctx call f).1) [
        | inl (x, q) ↦
            let same = sym (run_job-ended o k opts clock fuel ctx call f x q) ∙ e in
            let t : (run_round o k opts (clock call) ctx call f).0 ≡ h = ground arith in
            subst P t p1
        | inr (i, q) ↦
            run_job-keeps k opts step clock fuel (next_context ctx i) (suc call) _ h out p1
              (sym (run_job-again o k opts clock fuel ctx call f i q) ∙ e)
      ]

  pub Runs-keeps :
      ((k : JobKind) (opts : JobOptions C E) (now : ℕ) (ctx : RunContext) (call : ℕ) (f : Fetcher C)
        → job_options o k ≡ some opts
        → P f
        → P (run_round o k opts now ctx call f).0)
      → ((k : JobKind) (f : Fetcher C) → P f → P (complete_job k f))
      → {f g : Fetcher C} → Runs o f g
      → P f
      → P g
  Runs-keeps step mark no_runs p = p
  Runs-keeps step mark (run k opts clock fuel ctx call out r i e) p =
      run_job-keeps k opts (λ now c n f. step k opts now c n f i) clock fuel ctx call _ _ out
        (Runs-keeps step mark r p) e
  Runs-keeps step mark (completed k r) p = mark k _ (Runs-keeps step mark r p)

abbrev pub other : JobKind → JobKind
other forward = backward
other backward = forward

abbrev pub has_cursor : {C : Type 0} → JobKind → FetcherState C → Bool
has_cursor forward s = is_some (spread s.cursors).forward_cursor
has_cursor backward s = is_some (spread s.cursors).backward_cursor

module _ {C E : Type 0} (o : FetcherOptions C E) where
  fetch_other :
      (k : JobKind) (opts : JobOptions C E) (now : ℕ) (ctx : RunContext) (r : FetchResult C E)
      (s : FetcherState C)
      → job_state (after_fetch o k opts ctx r (start_run now k s)).0 (other k)
        ≡ job_state s (other k)
  unfolding after_fetch update_cursors update_frequency settle start_run
  fetch_other forward opts now ctx r s = ground arith
  fetch_other backward opts now ctx r s = ground arith

  fetch_cursor :
      (d k : JobKind) (opts : JobOptions C E) (now : ℕ) (ctx : RunContext) (r : FetchResult C E)
      (s : FetcherState C)
      → opts.update_cursors ≡ none
      → has_cursor d s ≡ true
      → has_cursor d (after_fetch o k opts ctx r (start_run now k s)).0 ≡ true
  unfolding after_fetch update_cursors update_frequency settle start_run run_update default_update
  fetch_cursor forward forward opts now ctx r s h c = ground (arith, h, c)
  fetch_cursor forward backward opts now ctx r s h c = ground (arith, h, c)
  fetch_cursor backward forward opts now ctx r s h c = ground (arith, h, c)
  fetch_cursor backward backward opts now ctx r s h c = ground (arith, h, c)

  round_other :
      (k : JobKind) (opts : JobOptions C E) (now : ℕ) (ctx : RunContext) (call : ℕ) (f : Fetcher C)
      → job_state (run_round o k opts now ctx call f).0.fetcher_state (other k)
        ≡ job_state f.fetcher_state (other k)
  round_other k opts now ctx call f = elim (Bool-cases (job_state f.fetcher_state k).complete) [
    | inl e ↦
        ap (λ r. job_state r.0.fetcher_state (other k)) (round-complete o k opts now ctx call f e)
    | inr e ↦
        ap (λ r. job_state r.0.fetcher_state (other k)) (round-open o k opts now ctx call f e)
        ∙ fetch_other k opts now ctx (opts.handle_fetch call ctx) f.fetcher_state
  ]

  round_frozen :
      (d k : JobKind) (opts : JobOptions C E) (now : ℕ) (ctx : RunContext) (call : ℕ)
      (f : Fetcher C)
      → (job_state f.fetcher_state d).complete ≡ true
      → job_state (run_round o k opts now ctx call f).0.fetcher_state d
        ≡ job_state f.fetcher_state d
  round_frozen forward forward opts now ctx call f e =
      ap (λ r. r.0.fetcher_state.forward_job) (round-complete o forward opts now ctx call f e)
  round_frozen backward backward opts now ctx call f e =
      ap (λ r. r.0.fetcher_state.backward_job) (round-complete o backward opts now ctx call f e)
  round_frozen forward backward opts now ctx call f e = round_other backward opts now ctx call f
  round_frozen backward forward opts now ctx call f e = round_other forward opts now ctx call f

  mark_frozen :
      (d k : JobKind) (f : Fetcher C)
      → (job_state f.fetcher_state d).complete ≡ true
      → job_state (complete_job k f).fetcher_state d ≡ job_state f.fetcher_state d
  unfolding complete_job
  mark_frozen forward forward f e = ground (arith, e)
  mark_frozen forward backward f e = refl
  mark_frozen backward forward f e = refl
  mark_frozen backward backward f e = ground (arith, e)

  mark_cursor :
      (d k : JobKind) (f : Fetcher C)
      → has_cursor d (complete_job k f).fetcher_state ≡ has_cursor d f.fetcher_state
  unfolding complete_job
  mark_cursor forward forward f = refl
  mark_cursor forward backward f = refl
  mark_cursor backward forward f = refl
  mark_cursor backward backward f = refl

  -- Once a job is complete, its state stays as it is whatever the other job does, and each run of it
  -- returns `Stop` and changes nothing.
  pub complete_job_frozen :
      (d : JobKind) (opts : JobOptions C E) (clock : ℕ → ℕ) (fuel : ℕ) (ctx : RunContext) (call : ℕ)
      (f g : Fetcher C)
      → Runs o f g
      → (job_state f.fetcher_state d).complete ≡ true
      → (job_state g.fetcher_state d ≡ job_state f.fetcher_state d)
        × (run_job o d opts clock (suc fuel) ctx call g ≡ some (g, returned stop))
  complete_job_frozen d opts clock fuel ctx call f g runs e =
      let j = job_state f.fetcher_state d in
      let same =
        Runs-keeps o (λ h. job_state h.fetcher_state d ≡ j)
          (λ k opts now ctx call h i p.
            round_frozen d k opts now ctx call h (ap (λ u. u.complete) p ∙ e) ∙ p)
          (λ k h p. mark_frozen d k h (ap (λ u. u.complete) p ∙ e) ∙ p) runs refl in
      let q = round-complete o d opts (clock call) ctx call g (ap (λ u. u.complete) same ∙ e) in
      (
        same,
        run_job-ended o d opts clock fuel ctx call g (returned stop) (ap (λ r. r.1) q)
            ∙ ap (λ r. some (r.0, returned stop)) q,
      )

  -- Where the options have no update of the cursors of their own: a cursor that is present stays
  -- present, whatever runs of the two jobs follow and whatever they fetch.
  pub cursor_kept :
      (d : JobKind) (f g : Fetcher C)
      → ((k : JobKind) (opts : JobOptions C E)
          → job_options o k ≡ some opts
          → opts.update_cursors ≡ none)
      → Runs o f g
      → has_cursor d f.fetcher_state ≡ true
      → has_cursor d g.fetcher_state ≡ true
  cursor_kept d f g default runs =
      Runs-keeps o (λ h. has_cursor d h.fetcher_state ≡ true)
        (λ k opts now ctx call h i p. elim (Bool-cases (job_state h.fetcher_state k).complete) [
          | inl e ↦
              subst (λ r. has_cursor d r.0.fetcher_state ≡ true)
                (sym (round-complete o k opts now ctx call h e)) p
          | inr e ↦
              subst (λ r. has_cursor d r.0.fetcher_state ≡ true)
                (sym (round-open o k opts now ctx call h e))
                (fetch_cursor d k opts now ctx (opts.handle_fetch call ctx) h.fetcher_state
                  (default k opts i) p)
        ])
        (λ k h p. mark_cursor d k h ∙ p) runs
