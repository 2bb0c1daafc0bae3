-- ===== src/RateLimit/Limiter/Client.antt =====
-- `RateLimitClient.acquire`, and `ComposeRateLimit` against its limits.
use aleph_indexer_framework.Prelude.{
  ℕ, ◌+◌, ◌*◌, ◌/◌, ◌<◌, ◌≤◌, ◌≡◌, ◌∙◌, inl, inr, refl, Bool, true, ◌&&◌, List, [], ◌∷◌, some, All,
  arith, Bool-cases,
}
use aleph_indexer_framework.RateLimit.Accurate.Window.{IsValid, check-IsValid, check-limit}
use aleph_indexer_framework.RateLimit.Accurate.Wait
use aleph_indexer_framework.RateLimit.Accurate.Wait.{next_try_exact, next_try-passed}
use aleph_indexer_framework.RateLimit.Sparse.Spacing
use aleph_indexer_framework.RateLimit.Sparse.Spacing.{
  next_try-check, SparseReady, check-SparseReady, SparseReady-passes,
}
use aleph_indexer_framework.RateLimit.Limiter.{
  RateLimit, accurate, sparse, concurrence, concurrence_check, check, next_try, check_all,
  next_try_all, add_all, acquire,
}

-- The limit comes to let the weight pass by waiting alone: an accurate one if the requests under way
-- leave room, a sparse one if no request is under way, one on concurrence if it lets it pass at once.
abbrev pub IsReady : ℕ → ℕ → RateLimit → Type 0
IsReady now weight (accurate s) = (pending : ℕ) × IsValid pending s × (pending + weight ≤ s.limit)
IsReady now weight (sparse s) = SparseReady now s
IsReady now weight (concurrence s) = concurrence_check s ≡ true

check-IsReady :
    (now weight : ℕ) (r : RateLimit)
    → IsReady now weight r
    → IsReady now weight (check r now weight).0
unfolding check
check-IsReady now w (accurate s) (p, v, room) =
    (p, check-IsValid s p now w v, omega (arith, check-limit s p now w v))
check-IsReady now w (sparse s) h = check-SparseReady s now h
check-IsReady now w (concurrence s) h = h

IsReady-passes :
    (now weight t : ℕ) (r : RateLimit)
    → IsReady now weight r
    → next_try r now weight ≤ 100 * t
    → (check r (now + t) weight).1 ≡ true
unfolding check next_try
IsReady-passes now w t (accurate s) (p, v, room) h =
    (next_try_exact s p now w t v room).1 (omega (arith, h))
IsReady-passes now w t (sparse s) r h = SparseReady-passes s now t r h
IsReady-passes now w t (concurrence s) r h = r

check_all-cons :
    (r : RateLimit) (rs : List RateLimit) (now weight : ℕ)
    → (check_all (r ∷ rs) now weight).1 ≡ ((check r now weight).1 && (check_all rs now weight).1)
unfolding check_all
check_all-cons r rs now w = ground arith

abbrev pub all_pass : List RateLimit → ℕ → ℕ → Bool
all_pass [] now weight = true
all_pass (r ∷ rs) now weight = (check r now weight).1 && all_pass rs now weight

-- The composed check passes exactly if the check of each limit passes.
pub check_all_iff :
    (rs : List RateLimit) (now weight : ℕ) → (check_all rs now weight).1 ≡ all_pass rs now weight
check_all_iff [] now w = unfold check_all in refl
check_all_iff (r ∷ rs) now w = ground (arith, check_all-cons r rs now w, check_all_iff rs now w)

check_all-IsReady :
    (now weight : ℕ) (rs : List RateLimit)
    → All (IsReady now weight) rs
    → All (IsReady now weight) (check_all rs now weight).0
unfolding check_all
check_all-IsReady now w [] h = tt
check_all-IsReady now w (r ∷ rs) h = elim (Bool-cases (check r now w).1) [
  | inl e ↦ rw e (check-IsReady now w r h.0, check_all-IsReady now w rs h.1)
  | inr e ↦ rw e (check-IsReady now w r h.0, h.1)
]

IsReady-all_pass :
    (now weight t : ℕ) (rs : List RateLimit)
    → All (IsReady now weight) rs
    → next_try_all rs now weight ≤ 100 * t
    → all_pass rs (now + t) weight ≡ true
unfolding next_try_all
IsReady-all_pass now w t [] h k = refl
IsReady-all_pass now w t (r ∷ rs) h k = ground (
  arith,
  IsReady-passes now w t r h.0 (omega arith),
  IsReady-all_pass now w t rs h.1 (omega arith),
)

-- The limit waits less than a millisecond for the weight.
abbrev IsNear : ℕ → ℕ → RateLimit → Type 0
IsNear now weight r = IsReady now weight r × (next_try r now weight < 100)

IsReady-later :
    (now d weight : ℕ) (r : RateLimit) → IsReady now weight r → IsReady (now + d) weight r
IsReady-later now d w (accurate s) h = h
IsReady-later now d w (sparse s) (c, inl (n, l)) = (c, inl (n, omega (arith, l)))
IsReady-later now d w (sparse s) (c, inr z) = (c, inr z)
IsReady-later now d w (concurrence s) h = h

-- After a sleep that is less than a millisecond short, with and without another check.
sleep-IsNear :
    (now d weight : ℕ) (r : RateLimit)
    → IsReady now weight r
    → next_try r now weight < 100 * d + 100
    → IsNear (now + d) weight r × IsNear (now + d) weight (check r (now + d) weight).0
unfolding check next_try
sleep-IsNear now d w (accurate s) (p, v, room) k =
    let (passes, near) = Wait.next_try-later s p now w d v room (omega (arith, k)) in
    let again = next_try-passed s p (now + d) w v room passes in
    (
      ((p, v, room), omega (arith, near)),
      (check-IsReady (now + d) w (accurate s) (p, v, room), omega (arith, again)),
    )
sleep-IsNear now d w (sparse s) h k =
    let later = IsReady-later now d w (sparse s) h in
    let near = Spacing.next_try-later s now d h k in
    (
      (later, near),
      (
        check-IsReady (now + d) w (sparse s) later,
        omega (arith, near, next_try-check s (now + d) later),
      ),
    )
sleep-IsNear now d w (concurrence s) h k = ((h, omega arith), (h, omega arith))

all-IsNear :
    (now d weight : ℕ) (rs : List RateLimit)
    → All (IsReady now weight) rs
    → next_try_all rs now weight < 100 * d + 100
    → All (IsNear (now + d) weight) rs
      × All (IsNear (now + d) weight) (check_all rs (now + d) weight).0
unfolding check_all next_try_all
all-IsNear now d w [] h k = (tt, tt)
all-IsNear now d w (r ∷ rs) h k =
    let (near, checked) = sleep-IsNear now d w r h.0 (omega (arith, k)) in
    let (rest, rest_checked) = all-IsNear now d w rs h.1 (omega (arith, k)) in
    (
      (near, rest),
      elim (Bool-cases (check r (now + d) w).1) [
        | inl e ↦ rw e (checked, rest_checked)
        | inr e ↦ rw e (checked, rest)
      ],
    )

near-next_try_all :
    (now weight : ℕ) (rs : List RateLimit)
    → All (IsNear now weight) rs
    → All (IsReady now weight) rs × (next_try_all rs now weight < 100)
unfolding next_try_all
near-next_try_all now w [] h = (tt, omega arith)
near-next_try_all now w (r ∷ rs) h =
    let (ready, k) = near-next_try_all now w rs h.1 in ((h.0.0, ready), omega (arith, k, h.0.1))

-- What is relied on of `setTimeout`: it takes a millisecond at least, and for a wait that it can count
-- it takes the whole milliseconds of the wait at least.
abbrev pub IsTimer : (ℕ → ℕ) → Type 0
IsTimer sleep =
    (wait : ℕ) → (1 ≤ sleep wait) × (wait < 100 * 2_147_483_648 → wait / 100 ≤ sleep wait)

-- A round after a sleep that is long enough.
round_passes :
    (rs : List RateLimit) (weight now d : ℕ)
    → All (IsReady now weight) rs
    → next_try_all rs now weight ≤ 100 * d
    → (check_all rs (now + d) weight).1 ≡ true
round_passes rs w now d h k = check_all_iff rs (now + d) w ∙ IsReady-all_pass now w d rs h k

-- Where every limit can come to pass, and the wait that it is told first is one that the timer can
-- count: the client gets the request through after two sleeps at most, however much longer they take than
-- they are asked to, and although a timer leaves out the fraction of a millisecond.
pub acquire_sleeps_twice :
    (rs : List RateLimit) (weight now : ℕ) (sleep sleep' : ℕ → ℕ)
    → All (IsReady now weight) rs
    → next_try_all (check_all rs now weight).0 now weight < 100 * 2_147_483_648
    → IsTimer sleep
    → IsTimer sleep'
    → (rs' : List RateLimit) × (t : ℕ) × (acquire rs weight now (sleep ∷ sleep' ∷ [])
        ≡ some (rs', t))
      × (now ≤ t)
unfolding acquire
acquire_sleeps_twice rs w now sleep sleep' h countable timer timer' =
    elim (Bool-cases (check_all rs now w).1) [
      | inl e ↦ (add_all (check_all rs now w).0 w, now, rw e refl, omega arith)
      | inr e ↦
          let rs1 = (check_all rs now w).0 in
          let d = sleep (next_try_all rs1 now w) in
          let t1 = now + d in
          let rs2 = (check_all rs1 t1 w).0 in
          let enough = (timer (next_try_all rs1 now w)).1 countable in
          let (here, checked) =
            all-IsNear now d w rs1 (check_all-IsReady now w rs h) (omega (arith, enough)) in
          elim (Bool-cases (check_all rs1 t1 w).1) [
            | inl e1 ↦ (add_all rs2 w, t1, rw e (rw e1 refl), omega arith)
            | inr e1 ↦
                let (ready, near) = near-next_try_all t1 w rs2 checked in
                let d' = sleep' (next_try_all rs2 t1 w) in
                let passes =
                  round_passes rs2 w t1 d' ready
                    (omega (arith, near, (timer' (next_try_all rs2 t1 w)).0)) in
                (
                  add_all (check_all rs2 (t1 + d') w).0 w,
                  t1 + d',
                  rw e (rw e1 (rw passes refl)),
                  omega arith,
                )
          ]
    ]
