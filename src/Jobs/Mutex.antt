-- ===== src/Jobs/Mutex.antt =====
-- `Mutex` of packages/core/src/utils/concurrence/common.ts. The chain of promises is the list of the
-- futures of the calls of `acquire` in their order; a call is granted once the chain before its own
-- future is resolved.
use aleph_indexer_framework.Prelude.{
  ℕ, zero, suc, ◌+◌, ◌-◌, ◌<◌, ◌≡◌, refl, ap, Bool, true, false, not, ◌&&◌, List, [], ◌∷◌, ◌++◌,
  length, if◌then◌else◌, inl, inr, arith, Bool-cases,
}

-- Whether each future is resolved, in the order of the calls.
pub record Mutex : Type 0 where
  pub futures : List Bool
  pub count : ℕ

abbrev pub new_mutex : Mutex
new_mutex = record { futures = []; count = 0 }

-- acquire, with the number of the call.
abbrev pub acquire : Mutex → Mutex × ℕ
acquire m = (record { futures = m.futures ++ false ∷ []; count = m.count + 1 }, length m.futures)

-- The function that `acquire` returns, called once by the call to which it was granted.
unfoldable pub resolve : List Bool → ℕ → List Bool
resolve [] i = []
resolve (b ∷ bs) zero = true ∷ bs
resolve (b ∷ bs) (suc i) = b ∷ resolve bs i

abbrev pub release : ℕ → Mutex → Mutex
release i m = record { futures = resolve m.futures i; count = m.count - 1 }

-- `await currentQueue` is over for the call `i`.
unfoldable pub is_granted : List Bool → ℕ → Bool
is_granted [] i = true
is_granted (b ∷ bs) zero = true
is_granted (b ∷ bs) (suc i) = b && is_granted bs i

-- The call has been made and its future is not resolved.
unfoldable pub is_unresolved : List Bool → ℕ → Bool
is_unresolved [] i = false
is_unresolved (b ∷ bs) zero = not b
is_unresolved (b ∷ bs) (suc i) = is_unresolved bs i

-- The call is between `acquire` and its release.
abbrev pub holds_lock : Mutex → ℕ → Bool
holds_lock m i = is_granted m.futures i && is_unresolved m.futures i

-- Calls of `acquire`, and releases by the one that holds the lock.
pub data Run : Mutex → Type 0 where
  start : Run new_mutex
  acquired : (m : Mutex) → Run m → Run (acquire m).0
  released : (i : ℕ) (m : Mutex) → holds_lock m i ≡ true → Run m → Run (release i m)

unresolved : List Bool → ℕ
unresolved [] = 0
unresolved (b ∷ bs) = (if b then 0 else 1) + unresolved bs

exclusive :
    (bs : List Bool) (i j : ℕ)
    → (is_granted bs i && is_unresolved bs i) ≡ true
    → (is_granted bs j && is_unresolved bs j) ≡ true
    → i ≡ j
unfolding is_granted is_unresolved
exclusive [] i j h k = absurd (ground (arith, h))
exclusive (b ∷ bs) zero zero h k = refl
exclusive (b ∷ bs) zero (suc j) h k = absurd (ground (arith, h, k))
exclusive (b ∷ bs) (suc i) zero h k = absurd (ground (arith, h, k))
exclusive (b ∷ bs) (suc i) (suc j) h k =
    ap suc (exclusive bs i j (ground (arith, h)) (ground (arith, k)))

unresolved-append : (bs : List Bool) → unresolved (bs ++ false ∷ []) ≡ unresolved bs + 1
unfolding unresolved
unresolved-append [] = refl
unresolved-append (b ∷ bs) = omega (arith, unresolved-append bs)

unresolved-resolve :
    (bs : List Bool) (i : ℕ)
    → is_unresolved bs i ≡ true
    → unresolved bs ≡ unresolved (resolve bs i) + 1
unfolding unresolved resolve is_unresolved
unresolved-resolve [] i h = absurd (ground (arith, h))
unresolved-resolve (b ∷ bs) zero h = ground (arith, h)
unresolved-resolve (b ∷ bs) (suc i) h = omega (arith, unresolved-resolve bs i h)

Run-count : (m : Mutex) → Run m → m.count ≡ unresolved m.futures
Run-count _ start = unfold unresolved in refl
Run-count _ (acquired m w) = omega (arith, Run-count m w, unresolved-append m.futures)
Run-count _ (released i m h w) =
    omega (arith, Run-count m w, unresolved-resolve m.futures i (ground (arith, h)))

first_unresolved :
    (bs : List Bool)
    → 0 < unresolved bs
    → (i : ℕ) × ((is_granted bs i && is_unresolved bs i) ≡ true)
unfolding unresolved is_granted is_unresolved
first_unresolved [] h = absurd (omega (arith, h))
first_unresolved (b ∷ bs) h = elim (Bool-cases b) [
  | inl e ↦ let (i, p) = first_unresolved bs (ground (arith, h, e)) in (suc i, ground (arith, p, e))
  | inr e ↦ (zero, ground (arith, e))
]

before-granted :
    (bs : List Bool) (i j : ℕ) → is_granted bs i ≡ true → j < i → is_unresolved bs j ≡ false
unfolding is_granted is_unresolved
before-granted [] i j h l = refl
before-granted (b ∷ bs) zero j h l = absurd (omega (arith, l))
before-granted (b ∷ bs) (suc i) zero h l = ground (arith, h)
before-granted (b ∷ bs) (suc i) (suc j) h l =
    before-granted bs i j (ground (arith, h)) (omega (arith, l))

-- In each state that calls of `acquire`, and releases by holders of the lock, reach: at most one call
-- holds the lock, one does if the count is not 0, and all calls before the holder have released it.
pub Run-exclusive :
    (m : Mutex)
    → Run m
    → ((i j : ℕ) → holds_lock m i ≡ true → holds_lock m j ≡ true → i ≡ j)
      × (0 < m.count → (i : ℕ) × (holds_lock m i ≡ true))
      × ((i j : ℕ) → holds_lock m i ≡ true → j < i → is_unresolved m.futures j ≡ false)
Run-exclusive m w = (
  λ i j h k. exclusive m.futures i j h k,
  λ h. first_unresolved m.futures (ground (arith, h, Run-count m w)),
  λ i j h l. before-granted m.futures i j (ground (arith, h)) l,
)
