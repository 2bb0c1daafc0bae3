-- ===== src/Time/Clip/Round.antt =====
-- One round of the loop of `clipDateRanges`, seen through the instants that the table covers.
use aleph_indexer_framework.Prelude.{
  ℕ, ◌≡◌, ◌≢◌, refl, sym, ap, ◌∙◌, true, false, not, ◌&&◌, ◌||◌, List, [], ◌∷◌, arith, All,
  All-zip_with, any,
}
use aleph_indexer_framework.Time.Range.{
  DateRange, holds, covers, is_equal_date_range, is_equal_date_range_iff,
}
use aleph_indexer_framework.Time.Decimal.{same_text, same_text_refl}
use aleph_indexer_framework.Time.Clip.{Table, range_id, delete, assign_range}
use aleph_indexer_framework.Time.Clip.Table.{
  IsStamped, IsKeyed, table_covers, covers-assign, covers-delete, assign-keeps, delete-keeps,
  delete-other, other_id, delete-assign,
}
use aleph_indexer_framework.Time.Clip.Entry.{ClipStep, ClipView, untouched, parts, assign_all}

assign_all-keeps {ℓ} :
    (P : List ℕ × DateRange → Type ℓ) (ps : List DateRange) (m : Table)
    → All IsStamped ps
    → All (λ p. P (range_id p, p)) ps
    → All IsKeyed m
    → All P m
    → All IsKeyed (assign_all ps m) × All P (assign_all ps m)
assign_all-keeps P [] m h p k a = (k, a)
assign_all-keeps P (q ∷ ps) m h p k a =
    let (k', a') = assign_all-keeps P ps m h.1 p.1 k a in
    (
      assign-keeps IsKeyed q (assign_all ps m) h.0 (refl, h.0) k' k',
      assign-keeps P q (assign_all ps m) h.0 p.0 k' a',
    )

All-IsKeyed : (ps : List DateRange) → All IsStamped ps → All (λ p. IsKeyed (range_id p, p)) ps
All-IsKeyed [] h = tt
All-IsKeyed (p ∷ ps) h = ((refl, h.0), All-IsKeyed ps h.1)

assign_all-IsKeyed :
    (ps : List DateRange) (m : Table)
    → All IsStamped ps
    → All IsKeyed m
    → All IsKeyed (assign_all ps m)
assign_all-IsKeyed ps m h k = (assign_all-keeps IsKeyed ps m h (All-IsKeyed ps h) k k).0

covers-assign_all :
    (ps : List DateRange) (m : Table) (t : ℕ)
    → All IsStamped ps
    → All IsKeyed m
    → table_covers (assign_all ps m) t ≡ (covers ps t || table_covers m t)
covers-assign_all [] m t h k = refl
covers-assign_all (p ∷ ps) m t h k = ground (
  arith,
  covers-assign p (assign_all ps m) t h.0 (assign_all-IsKeyed ps m h.1 k),
  covers-assign_all ps m t h.1 k,
)

delete-assign_all :
    (r : DateRange) (ps : List DateRange) (m : Table)
    → IsStamped r
    → All IsStamped ps
    → All (λ p. p ≢ r) ps
    → delete (range_id r) (assign_all ps m) ≡ assign_all ps (delete (range_id r) m)
delete-assign_all r [] m hr h n = refl
delete-assign_all r (p ∷ ps) m hr h n =
    delete-assign (range_id r) p (assign_all ps m) (other_id r p hr h.0 (λ e. n.0 (sym e)))
    ∙ ap (assign_range p) (delete-assign_all r ps m hr h.1 n.1)

module _ (c r : DateRange) (m : Table) (hr : IsStamped r) (keyed : All IsKeyed m) where
  pub view-IsKeyed : {m' : Table} → ClipView c r m m' → All IsKeyed m'
  view-IsKeyed (untouched e d) = rw e keyed
  view-IsKeyed (parts ps s e) =
      rw e (delete-keeps IsKeyed (range_id r) (assign_all ps m) (assign_all-IsKeyed ps m s.0 keyed))

  parts-covers :
      (ps : List DateRange) (t : ℕ)
      → ClipStep c r ps
      → table_covers (delete (range_id r) (assign_all ps m)) t
        ≡ ((holds t r && not (holds t c)) || table_covers (delete (range_id r) m) t)
  parts-covers ps t s = rw (delete-assign_all r ps m hr s.0 s.1) (
      covers-assign_all ps (delete (range_id r) m) t s.0 (delete-keeps IsKeyed (range_id r) m keyed)
      ∙ ap (λ b. b || table_covers (delete (range_id r) m) t) (s.2 t))

  -- Outside the clip range a round loses no instant, and it adds only those of its range.
  pub view-covers :
      {m' : Table} (t : ℕ)
      → ClipView c r m m'
      → (holds t c ≡ false → table_covers m t ≡ true → table_covers m' t ≡ true)
        × (table_covers m' t ≡ true → (table_covers m t || holds t r) ≡ true)
  view-covers t (untouched e d) = rw e ((λ a b. b), λ a. ground arith)
  view-covers t (parts ps s e) =
      rw (e, parts-covers ps t s)
        (
          (λ a b. ground (arith, covers-delete r m t hr keyed)),
          λ a. ground (arith, covers-delete r m t hr keyed),
        )

-- The range of an entry that holds the instant is still to be visited.
abbrev pub Waiting : ℕ → List DateRange → List ℕ × DateRange → Type 0
Waiting t rs e = holds t e.1 ≡ true → any (λ x. is_equal_date_range x e.1) rs ≡ true

Waiting-skip :
    (t : ℕ) (r : DateRange) (rs : List DateRange) (e : List ℕ × DateRange)
    → holds t r ≡ false
    → Waiting t (r ∷ rs) e
    → Waiting t rs e
Waiting-skip t r rs e h w a = ground (arith, w a, is_equal_date_range_iff r e.1)

Waiting-other :
    (t : ℕ) (r : DateRange) (rs : List DateRange) (e : List ℕ × DateRange)
    → Waiting t (r ∷ rs) e
    → IsKeyed e × (same_text (range_id r) e.0 ≡ false)
    → Waiting t rs e
Waiting-other t r rs e w k a =
    let other : r ≢ e.1 = λ p. cc (k.1, k.0.0, ap range_id p, same_text_refl (range_id r)) in
    ground (arith, w a, is_equal_date_range_iff r e.1, other)

All-both {ℓ κ} :
    {A : Type ℓ} (P Q : A → Type κ) (xs : List A) → All P xs → All Q xs → All (λ x. P x × Q x) xs
All-both P Q xs = All-zip_with P Q (λ x. P x × Q x) (λ x p q. (p, q)) xs

-- Parts that lie outside the clip range wait for nothing.
parts-Waiting :
    (t : ℕ) (rs ps : List DateRange)
    → covers ps t ≡ false
    → All (λ p. Waiting t rs (range_id p, p)) ps
parts-Waiting t rs [] h = tt
parts-Waiting t rs (p ∷ ps) h = ((λ a. ground arith), parts-Waiting t rs ps (ground arith))

module _ (c r : DateRange) (m : Table) (hr : IsStamped r) (keyed : All IsKeyed m) where
  -- Inside the clip range, a round takes its range from those that wait.
  pub view-Waiting :
      {m' : Table} (t : ℕ) (rs : List DateRange)
      → holds t c ≡ true
      → ClipView c r m m'
      → All (Waiting t (r ∷ rs)) m
      → All (Waiting t rs) m'
  view-Waiting t rs hc (untouched e d) w = rw e (
      All-zip_with (Waiting t (r ∷ rs)) (Waiting t (r ∷ rs)) (Waiting t rs)
        (λ x a b. Waiting-skip t r rs x (ground (arith, d t)) a) m w w)
  view-Waiting t rs hc (parts ps s e) w =
      let m' = assign_all ps m in
      let gone : covers ps t ≡ false = ground (arith, s.2 t) in
      let (keyed', w') =
        assign_all-keeps (Waiting t (r ∷ rs)) ps m s.0 (parts-Waiting t (r ∷ rs) ps gone) keyed w in
      rw e (
        All-zip_with (Waiting t (r ∷ rs)) (λ x. IsKeyed x × (same_text (range_id r) x.0 ≡ false))
          (Waiting t rs) (Waiting-other t r rs) (delete (range_id r) m')
          (delete-keeps (Waiting t (r ∷ rs)) (range_id r) m' w')
          (All-both IsKeyed (λ x. same_text (range_id r) x.0 ≡ false) (delete (range_id r) m')
            (delete-keeps IsKeyed (range_id r) m' keyed') (delete-other (range_id r) m')))
