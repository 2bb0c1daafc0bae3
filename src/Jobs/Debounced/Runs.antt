-- ===== src/Jobs/Debounced/Runs.antt =====
-- The calls of `run` of `DebouncedJob` in packages/core/src/utils/concurrence/common.ts, and the calls of
-- the callback that they lead to.
use aleph_indexer_framework.Prelude.{
  ℕ, ◌+◌, ◌≡◌, ◌∙◌, refl, sym, ap, Bool, true, false, not, List, [], ◌∷◌, Option, none, some, ltb,
  if◌then◌else◌, inl, inr, arith, Bool-cases, subst,
}
use aleph_indexer_framework.Jobs.Debounced.{
  Stage, idle, sleeping, calling, leaving, DebouncedJob, take, run_loop, start, run, Event,
  run_called, woken, answered, failed, left, step, run_events, new_job,
}

-- While the loop sleeps, a run is pending.
abbrev sleeps_pending : Stage → Bool → Bool
sleeps_pending sleeping p = p
sleeps_pending s p = true

-- No run is pending once the loop has ended.
abbrev nothing_lost : Stage → Bool → Bool
nothing_lost idle p = not p
nothing_lost leaving p = not p
nothing_lost s p = true

module _ {T : Type 0} where
  -- The data of the latest call of `run`, from `d` on.
  unfoldable pub latest : Option T → List (ℕ × Event T) → Option T
  latest d [] = d
  latest d ((now, run_called x) ∷ es) = latest (some x) es
  latest d ((now, woken) ∷ es) = latest d es
  latest d ((now, answered) ∷ es) = latest d es
  latest d ((now, failed) ∷ es) = latest d es
  latest d ((now, left) ∷ es) = latest d es

  abbrev pub last_call : List (Option T) → Option T
  last_call [] = none
  last_call (c ∷ cs) = c

  -- The newest data that the job has: what waits, or what the last call of the callback got.
  abbrev pub newest : DebouncedJob T → Option T
  newest j = if j.pending_run then j.pending_data else last_call j.calls

  abbrev HasPending : DebouncedJob T → Type 0
  HasPending j = sleeps_pending j.stage j.pending_run ≡ true

  loop-newest :
      (now : ℕ) (j : DebouncedJob T)
      → (newest (run_loop now j) ≡ newest j) × HasPending (run_loop now j)
  unfolding run_loop
  loop-newest now j = elim (Bool-cases j.pending_run) [
    | inl e ↦ elim (Bool-cases (ltb now (j.last_run + j.throttle))) [
      | inl e' ↦ rw (e, e') (refl, refl)
      | inr e' ↦ rw (e, e') (refl, refl)
    ]
    | inr e ↦ rw e (refl, refl)
  ]

  run-newest :
      (now : ℕ) (x : T) (j : DebouncedJob T) (s : Stage)
      → j.stage ≡ s
      → (newest (start now s (record j { pending_data = some x; pending_run = true })) ≡ some x)
        × HasPending (start now s (record j { pending_data = some x; pending_run = true }))
  run-newest now x j idle e =
      loop-newest now (record j { pending_data = some x; pending_run = true })
  run-newest now x j sleeping e = (refl, ap (λ s. sleeps_pending s true) e)
  run-newest now x j calling e = (refl, ap (λ s. sleeps_pending s true) e)
  run-newest now x j leaving e = (refl, ap (λ s. sleeps_pending s true) e)

  take-newest :
      (now : ℕ) (j : DebouncedJob T)
      → j.stage ≡ sleeping
      → HasPending j
      → newest (take now j) ≡ newest j
  take-newest now j e h =
      let p = ap (λ s. sleeps_pending s j.pending_run) (sym e) ∙ h in ground (arith, p)

  step-newest :
      (now : ℕ) (s : Stage) (e : Event T) (j : DebouncedJob T)
      → j.stage ≡ s
      → HasPending j
      → (newest (step now s e j) ≡ latest (newest j) ((now, e) ∷ [])) × HasPending (step now s e j)
  unfolding step latest run
  step-newest now s (run_called x) j e h = run-newest now x j j.stage refl
  step-newest now idle woken j e h = (refl, h)
  step-newest now sleeping woken j e h = (take-newest now j e h, refl)
  step-newest now calling woken j e h = (refl, h)
  step-newest now leaving woken j e h = (refl, h)
  step-newest now idle answered j e h = (refl, h)
  step-newest now sleeping answered j e h = (refl, h)
  step-newest now calling answered j e h = loop-newest now j
  step-newest now leaving answered j e h = (refl, h)
  step-newest now idle failed j e h = (refl, h)
  step-newest now sleeping failed j e h = (refl, h)
  step-newest now calling failed j e h = (refl, refl)
  step-newest now leaving failed j e h = (refl, h)
  step-newest now idle left j e h = (refl, h)
  step-newest now sleeping left j e h = (refl, h)
  step-newest now calling left j e h = (refl, h)
  step-newest now leaving left j e h = (refl, refl)

  latest-cons :
      (d : Option T) (now : ℕ) (e : Event T) (es : List (ℕ × Event T))
      → latest d ((now, e) ∷ es) ≡ latest (latest d ((now, e) ∷ [])) es
  unfolding latest
  latest-cons d now (run_called x) es = refl
  latest-cons d now woken es = refl
  latest-cons d now answered es = refl
  latest-cons d now failed es = refl
  latest-cons d now left es = refl

  events-newest :
      (es : List (ℕ × Event T)) (j : DebouncedJob T)
      → HasPending j
      → newest (run_events es j) ≡ latest (newest j) es
  unfolding run_events
  events-newest [] j h = unfold latest in refl
  events-newest ((now, e) ∷ es) j h =
      let (q, h') = step-newest now j.stage e j refl h in
      events-newest es (step now j.stage e j) h'
      ∙ ap (λ d. latest d es) q
      ∙ sym (latest-cons (newest j) now e es)

  -- Whatever happens in whatever order to a new job: the data of the latest call of `run` waits for
  -- the callback, or the last call of the callback got it.
  pub newest-run_events :
      (throttle : ℕ) (es : List (ℕ × Event T))
      → newest (run_events es (new_job throttle)) ≡ latest none es
  newest-run_events throttle es = events-newest es (new_job throttle) refl

  -- The callback does not fail while a run is pending, and `run` is not called between the end of the
  -- loop and the finally block.
  abbrev keeps_run : Stage → Event T → Bool → Bool
  keeps_run leaving (run_called x) p = false
  keeps_run calling failed p = not p
  keeps_run s e p = true

  unfoldable pub KeepsRuns : List (ℕ × Event T) → DebouncedJob T → Type 0
  KeepsRuns [] j = Unit
  KeepsRuns ((now, e) ∷ es) j =
      (keeps_run j.stage e j.pending_run ≡ true) × KeepsRuns es (step now j.stage e j)

  abbrev NothingLost : DebouncedJob T → Type 0
  NothingLost j = nothing_lost j.stage j.pending_run ≡ true

  loop-NothingLost : (now : ℕ) (j : DebouncedJob T) → NothingLost (run_loop now j)
  unfolding run_loop
  loop-NothingLost now j = elim (Bool-cases j.pending_run) [
    | inl e ↦ elim (Bool-cases (ltb now (j.last_run + j.throttle))) [
      | inl e' ↦ rw (e, e') refl
      | inr e' ↦ rw (e, e') refl
    ]
    | inr e ↦ rw e refl
  ]

  started :
      (now : ℕ) (x : T) (j : DebouncedJob T) (s : Stage)
      → j.stage ≡ s
      → run now x j ≡ start now s (record j { pending_data = some x; pending_run = true })
  unfolding run
  started now x j s q =
      ap (λ s'. start now s' (record j { pending_data = some x; pending_run = true })) q

  step-NothingLost :
      (now : ℕ) (s : Stage) (e : Event T) (j : DebouncedJob T)
      → j.stage ≡ s
      → keeps_run s e j.pending_run ≡ true
      → NothingLost j
      → NothingLost (step now s e j)
  unfolding step
  step-NothingLost now idle (run_called x) j q k h =
      subst NothingLost (sym (started now x j idle q))
        (loop-NothingLost now (record j { pending_data = some x; pending_run = true }))
  step-NothingLost now sleeping (run_called x) j q k h =
      subst NothingLost (sym (started now x j sleeping q)) (ap (λ s. nothing_lost s true) q)
  step-NothingLost now calling (run_called x) j q k h =
      subst NothingLost (sym (started now x j calling q)) (ap (λ s. nothing_lost s true) q)
  step-NothingLost now leaving (run_called x) j q k h = absurd (ground (arith, k))
  step-NothingLost now idle woken j q k h = h
  step-NothingLost now sleeping woken j q k h = refl
  step-NothingLost now calling woken j q k h = h
  step-NothingLost now leaving woken j q k h = h
  step-NothingLost now idle answered j q k h = h
  step-NothingLost now sleeping answered j q k h = h
  step-NothingLost now calling answered j q k h = loop-NothingLost now j
  step-NothingLost now leaving answered j q k h = h
  step-NothingLost now idle failed j q k h = h
  step-NothingLost now sleeping failed j q k h = h
  step-NothingLost now calling failed j q k h = k
  step-NothingLost now leaving failed j q k h = h
  step-NothingLost now idle left j q k h = h
  step-NothingLost now sleeping left j q k h = h
  step-NothingLost now calling left j q k h = h
  step-NothingLost now leaving left j q k h = ap (λ s. nothing_lost s j.pending_run) (sym q) ∙ h

  events-NothingLost :
      (es : List (ℕ × Event T)) (j : DebouncedJob T)
      → KeepsRuns es j
      → NothingLost j
      → NothingLost (run_events es j)
  unfolding run_events KeepsRuns
  events-NothingLost [] j k h = h
  events-NothingLost ((now, e) ∷ es) j k h =
      events-NothingLost es (step now j.stage e j) k.1 (step-NothingLost now j.stage e j refl k.0 h)

  -- Where the callback does not fail while a run is pending, and `run` is not called between the end
  -- of the loop and the finally block: whenever a new job has come to rest, the last call of the
  -- callback got the data of the latest call of `run`.
  pub idle-latest :
      (throttle : ℕ) (es : List (ℕ × Event T))
      → KeepsRuns es (new_job throttle)
      → (run_events es (new_job throttle)).stage ≡ idle
      → last_call (run_events es (new_job throttle)).calls ≡ latest none es
  idle-latest throttle es k q =
      let h = events-NothingLost es (new_job throttle) k refl in
      let j = run_events es (new_job throttle) in
      let p = ap (λ s. nothing_lost s j.pending_run) (sym q) ∙ h in
      ground (arith, p, newest-run_events throttle es)
