-- ===== src/RateLimit/Accurate/Window.antt =====
-- The weight that `AccurateRateLimit` counts, against the requests under way and those completed.
use aleph_indexer_framework.Prelude.{
  ℕ, ◌+◌, ◌-◌, ◌≡◌, ◌↔◌, ◌≤◌, ◌<◌, refl, true, false, inl, inr, List, [], ◌∷◌, ◌++◌, Option, none,
  some, ltb, ◌==◌, ==_iff, if◌then◌else◌, arith, Bool-cases,
}
use aleph_indexer_framework.RateLimit.Accurate.{
  AccurateRateLimit, weight_of, assign, last_or, get_add_item_id, add, sub, expire, update, check,
}

-- The ids rise, from above `lo` on.
abbrev pub Rises : ℕ → List ℕ → Type 0
Rises lo [] = Unit
Rises lo (x ∷ xs) = (lo < x) × Rises x xs

-- The weight of the completed requests.
abbrev pub sum_weights : (ℕ → Option ℕ) → List ℕ → ℕ
sum_weights m [] = 0
sum_weights m (x ∷ xs) = weight_of m x + sum_weights m xs

-- The weight of those completed within the interval that ends at `now`.
abbrev pub recent : (ℕ → Option ℕ) → ℕ → ℕ → List ℕ → ℕ
recent m interval now [] = 0
recent m interval now (x ∷ xs) =
    (if ltb now (x + interval) then weight_of m x else 0) + recent m interval now xs

-- `pending` is the weight of the requests that were added and not yet completed.
pub record IsValid (pending : ℕ) (s : AccurateRateLimit) : Type 0 where
  pub rises : Rises 0 s.completed_requests
  pub counted :
      s.total_weight ≡ pending + sum_weights s.completed_requests_weight s.completed_requests

Rises-mono : (a b : ℕ) (xs : List ℕ) → a ≤ b → Rises b xs → Rises a xs
Rises-mono a b [] h r = tt
Rises-mono a b (x ∷ xs) h r = (omega arith, r.1)

weight-assign_self : (m : ℕ → Option ℕ) (k w : ℕ) → weight_of (assign m k (some w)) k ≡ w
unfolding weight_of assign
weight-assign_self m k w = rw ((==_iff k k).1 refl, weight_of, assign)

weight-assign_ne :
    (m : ℕ → Option ℕ) (k j : ℕ) (o : Option ℕ) → k < j → weight_of (assign m k o) j ≡ weight_of m j
unfolding weight_of assign
weight-assign_ne m k j o h = let e : (k == j) ≡ false = ground arith in rw (e, weight_of, assign)

weight-assign_before :
    (m : ℕ → Option ℕ) (k j : ℕ) (o : Option ℕ) → j < k → weight_of (assign m k o) j ≡ weight_of m j
unfolding weight_of assign
weight-assign_before m k j o h =
    let e : (k == j) ≡ false = ground arith in rw (e, weight_of, assign)

sum_weights-assign :
    (m : ℕ → Option ℕ) (k : ℕ) (o : Option ℕ) (xs : List ℕ)
    → Rises k xs
    → sum_weights (assign m k o) xs ≡ sum_weights m xs
sum_weights-assign m k o [] r = refl
sum_weights-assign m k o (x ∷ xs) r = rw (
  weight-assign_ne m k x o r.0,
  sum_weights-assign m k o xs (Rises-mono k x xs (omega arith) r.1),
)

recent-assign :
    (m : ℕ → Option ℕ) (k : ℕ) (o : Option ℕ) (i now : ℕ) (xs : List ℕ)
    → Rises k xs
    → recent (assign m k o) i now xs ≡ recent m i now xs
recent-assign m k o i now [] r = refl
recent-assign m k o i now (x ∷ xs) r = rw (
  weight-assign_ne m k x o r.0,
  recent-assign m k o i now xs (Rises-mono k x xs (omega arith) r.1),
)

pub recent-le : (m : ℕ → Option ℕ) (i now : ℕ) (xs : List ℕ) → recent m i now xs ≤ sum_weights m xs
recent-le m i now [] = omega arith
recent-le m i now (x ∷ xs) = ground (arith, recent-le m i now xs)

-- Behind an id within the interval all ids are.
pub recent_all :
    (m : ℕ → Option ℕ) (i now lo : ℕ) (xs : List ℕ)
    → now < lo + i
    → Rises lo xs
    → recent m i now xs ≡ sum_weights m xs
recent_all m i now lo [] h r = refl
recent_all m i now lo (x ∷ xs) h r = ground (arith, recent_all m i now x xs (omega arith) r.1)

-- What an update leaves: the requests within the interval, with their weights.
abbrev pub Updated : ℕ → ℕ → List ℕ → AccurateRateLimit → AccurateRateLimit → Type 0
Updated pending now xs s s' =
    IsValid pending s'
    × (s'.total_weight ≡ pending + recent s.completed_requests_weight s.interval now xs)
    × (s'.limit ≡ s.limit)
    × (s'.interval ≡ s.interval)

expire-Updated :
    (s : AccurateRateLimit) (now pending : ℕ) (xs : List ℕ)
    → Rises 0 xs
    → s.total_weight ≡ pending + sum_weights s.completed_requests_weight xs
    → Updated pending now xs s (expire s now xs)
unfolding expire
expire-Updated s now p [] r e = (record { rises = tt; counted = e }, e, refl, refl)
expire-Updated s now p (x ∷ xs) r e = elim (Bool-cases (ltb now (x + s.interval))) [
  | inl fresh ↦
      let all = recent_all s.completed_requests_weight s.interval now x xs (ground arith) r.1 in
      rw fresh (record { rises = r; counted = e }, rw all e, refl, refl)
  | inr old ↦
      let m = s.completed_requests_weight in
      let kept = sum_weights-assign m x none xs r.1 in
      let s' = record s {
        total_weight = s.total_weight - weight_of m x;
        completed_requests_weight = assign m x none;
      } in
      let (v, t, l, i) =
        expire-Updated s' now p xs (Rises-mono 0 x xs (omega arith) r.1) (omega arith) in
      rw old (v, omega (arith, recent-assign m x none s.interval now xs r.1), l, i)
]

zero-Updated :
    (s : AccurateRateLimit) (now pending : ℕ)
    → IsValid pending s
    → s.total_weight ≡ 0
    → Updated pending now s.completed_requests s s
zero-Updated s now p v e = (
  v,
  omega (arith, recent-le s.completed_requests_weight s.interval now s.completed_requests),
  refl,
  refl,
)

-- An update keeps the state valid, and counts what is under way and what is recent.
pub update-Updated :
    (s : AccurateRateLimit) (now pending : ℕ)
    → IsValid pending s
    → Updated pending now s.completed_requests s (update s now)
unfolding update
update-Updated s now p v = elim (Bool-cases (s.total_weight == 0)) [
  | inl none_counted ↦ rw none_counted (zero-Updated s now p v (ground arith))
  | inr counted ↦ rw counted (expire-Updated s now p s.completed_requests v.rises v.counted)
]

-- For a valid state with the weight `pending` under way: a request passes the check exactly when its
-- weight, with the weight under way and that of the requests completed within the interval that ends
-- now, keeps the limit.
pub check_iff :
    (s : AccurateRateLimit) (pending now weight : ℕ)
    → IsValid pending s
    → ((check s now weight).1 ≡ true) ↔ (
        pending + recent s.completed_requests_weight s.interval now s.completed_requests + weight
        ≤ s.limit)
unfolding check
check_iff s p now w v = let (v', t, l, i) = update-Updated s now p v in ground (arith, t, l)

pub check-Updated :
    (s : AccurateRateLimit) (p now weight : ℕ)
    → IsValid p s
    → Updated p now s.completed_requests s (check s now weight).0
unfolding check
check-Updated s p now w v = update-Updated s now p v

pub check-IsValid :
    (s : AccurateRateLimit) (pending now weight : ℕ)
    → IsValid pending s
    → IsValid pending (check s now weight).0
unfolding check
check-IsValid s p now w v = (update-Updated s now p v).0

pub check-limit :
    (s : AccurateRateLimit) (pending now weight : ℕ)
    → IsValid pending s
    → (check s now weight).0.limit ≡ s.limit
unfolding check
check-limit s p now w v = (update-Updated s now p v).2

pub add-IsValid :
    (s : AccurateRateLimit) (pending weight : ℕ)
    → IsValid pending s
    → IsValid (pending + weight) (add s weight)
unfolding add
add-IsValid s p w v = record { rises = v.rises; counted = omega arith }

last-le : (lo : ℕ) (xs : List ℕ) → Rises lo xs → lo ≤ last_or lo xs
last-le lo [] r = omega arith
last-le lo (x ∷ xs) r = omega (arith, last-le x xs r.1)

Rises-snoc : (lo k : ℕ) (xs : List ℕ) → last_or lo xs < k → Rises lo xs → Rises lo (xs ++ k ∷ [])
Rises-snoc lo k [] l r = (l, tt)
Rises-snoc lo k (x ∷ xs) l r = (r.0, Rises-snoc x k xs l r.1)

sum_weights-snoc :
    (m : ℕ → Option ℕ) (lo k w : ℕ) (xs : List ℕ)
    → last_or lo xs < k
    → Rises lo xs
    → sum_weights (assign m k (some w)) (xs ++ k ∷ []) ≡ sum_weights m xs + w
sum_weights-snoc m lo k w [] l r = rw weight-assign_self (omega arith)
sum_weights-snoc m lo k w (x ∷ xs) l r =
    rw
      (
        weight-assign_before m k x (some w) (omega (arith, last-le x xs r.1)),
        sum_weights-snoc m x k w xs l r.1,
      )
      (omega arith)

-- A completed request moves its weight from what is under way to what is completed.
pub sub-IsValid :
    (s : AccurateRateLimit) (pending now weight : ℕ)
    → IsValid (pending + weight) s
    → IsValid pending (sub s now weight)
unfolding sub get_add_item_id
sub-IsValid s p now w v =
    let k = get_add_item_id s now in
    let after : last_or 0 s.completed_requests < k = ground arith in
    record {
      rises = Rises-snoc 0 k s.completed_requests after v.rises;
      counted = omega (
        arith,
        v.counted,
        sum_weights-snoc s.completed_requests_weight 0 k w s.completed_requests after v.rises,
      );
    }
