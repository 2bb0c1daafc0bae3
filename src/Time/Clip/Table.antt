-- ===== src/Time/Clip/Table.antt =====
-- What assigning and deleting do to the instants that a table covers, where all dates have 13 digits
-- and every range stands under its own key.
use aleph_indexer_framework.Prelude.{
  ℕ, ◌≡◌, refl, sym, subst, ◌≢◌, ◌∙◌, Bool, true, false, ◌||◌, List, [], ◌∷◌, inl, inr, arith, All,
  Bool-cases,
}
use aleph_indexer_framework.Time.Range.{DateRange, holds, covers}
use aleph_indexer_framework.Time.Decimal.{
  decimal, same_text, same_text_refl, same_text→eq, append-injective, decimal-injective,
  length-decimal, IsStamp,
}
use aleph_indexer_framework.Time.Clip.{Table, range_id, assign, delete, values, assign_range}

abbrev pub IsStamped : DateRange → Type 0
IsStamped r = IsStamp r.start_date × IsStamp r.end_date

-- Both dates have 13 digits, and the key is the range's own.
abbrev pub IsKeyed : List ℕ × DateRange → Type 0
IsKeyed e = (e.0 ≡ range_id e.1) × IsStamped e.1

range_id-injective : (a b : DateRange) → IsStamped a → IsStamped b → range_id a ≡ range_id b → a ≡ b
unfolding range_id
range_id-injective a b ha hb e =
    let (p, q) =
      append-injective (decimal a.start_date) (decimal b.start_date) (decimal a.end_date)
        (decimal b.end_date)
        (length-decimal a.start_date ha.0 ∙ sym (length-decimal b.start_date hb.0)) e in
    ground (
      arith,
      decimal-injective a.start_date b.start_date p,
      decimal-injective a.end_date b.end_date q,
    )

-- A key that is found is that of the same range.
pub same_id :
    (a : DateRange) (e : List ℕ × DateRange)
    → IsStamped a
    → IsKeyed e
    → same_text (range_id a) e.0 ≡ true
    → e.1 ≡ a
same_id a e ha h s =
    range_id-injective e.1 a h.1 ha (sym h.0 ∙ sym (same_text→eq (range_id a) e.0 s))

-- The instants that the ranges of a table cover.
abbrev pub table_covers : Table → ℕ → Bool
table_covers m t = covers (values m) t

pub covers-assign :
    (r : DateRange) (m : Table) (t : ℕ)
    → IsStamped r
    → All IsKeyed m
    → table_covers (assign_range r m) t ≡ (holds t r || table_covers m t)
unfolding assign
covers-assign r [] t h k = refl
covers-assign r ((j, x) ∷ m) t h k = elim (Bool-cases (same_text (range_id r) j)) [
  | inl same ↦ rw (same, same_id r (j, x) h k.0 same) (ground arith)
  | inr other ↦ rw other (ground (arith, covers-assign r m t h k.1))
]

-- Deleting the key of a range takes away only what that range covers.
pub covers-delete :
    (r : DateRange) (m : Table) (t : ℕ)
    → IsStamped r
    → All IsKeyed m
    → (table_covers (delete (range_id r) m) t || holds t r) ≡ (table_covers m t || holds t r)
unfolding delete
covers-delete r [] t h k = refl
covers-delete r ((j, x) ∷ m) t h k = elim (Bool-cases (same_text (range_id r) j)) [
  | inl same ↦ rw (same, same_id r (j, x) h k.0 same) (ground (arith, covers-delete r m t h k.1))
  | inr other ↦ rw other (ground (arith, covers-delete r m t h k.1))
]

pub assign-keeps {ℓ} :
    (P : List ℕ × DateRange → Type ℓ) (r : DateRange) (m : Table)
    → IsStamped r
    → P (range_id r, r)
    → All IsKeyed m
    → All P m
    → All P (assign_range r m)
unfolding assign
assign-keeps P r [] h p k a = (p, tt)
assign-keeps P r ((j, x) ∷ m) h p k a = elim (Bool-cases (same_text (range_id r) j)) [
  | inl same ↦ rw same (subst (λ y. P (j, y)) (same_id r (j, x) h k.0 same) a.0, a.1)
  | inr other ↦ rw other (a.0, assign-keeps P r m h p k.1 a.1)
]

pub delete-keeps {ℓ} :
    (P : List ℕ × DateRange → Type ℓ) (k : List ℕ) (m : Table) → All P m → All P (delete k m)
unfolding delete
delete-keeps P k [] a = tt
delete-keeps P k ((j, x) ∷ m) a = elim (Bool-cases (same_text k j)) [
  | inl same ↦ rw same (delete-keeps P k m a.1)
  | inr other ↦ rw other (a.0, delete-keeps P k m a.1)
]

-- What is left after the deletion of a key has another key.
pub delete-other : (k : List ℕ) (m : Table) → All (λ e. same_text k e.0 ≡ false) (delete k m)
unfolding delete
delete-other k [] = tt
delete-other k ((j, x) ∷ m) = elim (Bool-cases (same_text k j)) [
  | inl same ↦ rw same (delete-other k m)
  | inr other ↦ rw other (other, delete-other k m)
]

-- Different ranges have different keys.
pub other_id :
    (a b : DateRange)
    → IsStamped a
    → IsStamped b
    → a ≢ b
    → same_text (range_id a) (range_id b) ≡ false
other_id a b ha hb n = elim (Bool-cases (same_text (range_id a) (range_id b))) [
  | inl same ↦ absurd (n (range_id-injective a b ha hb (same_text→eq _ _ same)))
  | inr other ↦ other
]

both_same : (k i j : List ℕ) → same_text k j ≡ true → same_text i j ≡ true → same_text k i ≡ true
both_same k i j p q = rw (same_text→eq k j p, same_text→eq i j q) (same_text_refl j)

-- Deleting one key and assigning another can be done in either order.
pub delete-assign :
    (k : List ℕ) (r : DateRange) (m : Table)
    → same_text k (range_id r) ≡ false
    → delete k (assign_range r m) ≡ assign_range r (delete k m)
unfolding delete assign
delete-assign k r [] n = rw n
delete-assign k r ((j, x) ∷ m) n = ground (arith, both_same k (range_id r) j, delete-assign k r m n)
