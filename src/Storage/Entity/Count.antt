-- ===== src/Storage/Entity/Count.antt =====
-- The count of the main sublevel, which `save` and `remove` of packages/core/src/storage/entityStorage.ts
-- change by the sizes of the two maps of `getEntityGroups`.
use aleph_indexer_framework.Prelude.{
  ℕ, ◌+◌, ◌-◌, ◌≡◌, ◌∙◌, refl, sym, ap, inl, inr, Bool, true, false, ◌&&◌, ◌==◌, List, [], ◌∷◌,
  Option, none, some, any, arith, Bool-cases, ==_iff, length,
}
use aleph_indexer_framework.Storage.Entity.{
  EntityOptions, EntityGroups, EntityStore, UpdateOp, keep, update, delete, map_has, map_set, put,
  remove_all, save_all, checked, from_store, old_entity, remove_old, apply_op, group_step,
  group_loop, get_entity_groups, save, remove,
}
use aleph_indexer_framework.Storage.Entity.Groups.{
  IsUnique, IsKeyed, has-set, has-delete, set-IsUnique, remove_all_get,
}
use aleph_indexer_framework.Storage.Entity.Sequential.{
  no_groups-IsGrouped, checked_delete, loop-no_save,
}
use aleph_indexer_framework.Storage.Entity.Steps.{
  KeepsKey, IsKeyedStore, IsGrouped, apply-IsGrouped, has-remove_old,
}

-- Keys, none of them twice.
abbrev pub IsDistinct : List ℕ → Type 0
IsDistinct [] = Unit
IsDistinct (k ∷ ks) = (any (λ j. k == j) ks ≡ false) × IsDistinct ks

module _ {A : Type 0} where
  abbrev pub present : Option A → ℕ
  present none = 0
  present (some e) = 1

  -- The keys that stand in a store.
  abbrev pub count_in : List ℕ → (ℕ → Option A) → ℕ
  count_in [] v = 0
  count_in (k ∷ ks) v = present (v k) + count_in ks v

  put_here : (v : ℕ → Option A) (k : ℕ) (x : Option A) (j : ℕ) → k ≡ j → put v k x j ≡ x
  put_here v k x j h = ground (arith, h)

  put_there :
      (v : ℕ → Option A) (k : ℕ) (x : Option A) (j : ℕ) → (k == j) ≡ false → put v k x j ≡ v j
  put_there v k x j h = ground (arith, h)

  count_in-put_other :
      (ks : List ℕ) (v : ℕ → Option A) (k : ℕ) (x : Option A)
      → any (λ j. k == j) ks ≡ false
      → count_in ks (put v k x) ≡ count_in ks v
  count_in-put_other [] v k x h = refl
  count_in-put_other (j ∷ ks) v k x h =
      let other : (k == j) ≡ false = ground (arith, h) in
      let rest = count_in-put_other ks v k x (ground (arith, h)) in
      omega (arith, ap present (put_there v k x j other), rest)

  count_in-put :
      (ks : List ℕ) (v : ℕ → Option A) (k : ℕ) (x : Option A)
      → IsDistinct ks
      → any (λ j. k == j) ks ≡ true
      → count_in ks (put v k x) + present (v k) ≡ count_in ks v + present x
  count_in-put [] v k x u h = ground (arith, h)
  count_in-put (j ∷ ks) v k x u h = elim (Bool-cases (k == j)) [
    | inl q ↦
        let same = (==_iff k j).0 q in
        let rest = count_in-put_other ks v k x (ap (λ i. any (λ i'. i == i') ks) same ∙ u.0) in
        omega (arith, ap present (put_here v k x j same), ap (λ i. present (v i)) same, rest)
    | inr q ↦
        let rest = count_in-put ks v k x u.1 (ground (arith, q, h)) in
        omega (arith, ap present (put_there v k x j q), rest)
  ]

  count_in-ext :
      (ks : List ℕ) (v w : ℕ → Option A) → ((j : ℕ) → v j ≡ w j) → count_in ks v ≡ count_in ks w
  count_in-ext [] v w h = refl
  count_in-ext (k ∷ ks) v w h = omega (arith, ap present (h k), count_in-ext ks v w h)

  -- Keys of a map, all of which are among some keys.
  abbrev pub Within : List ℕ → List (ℕ × A) → Type 0
  Within ks m = (j : ℕ) → map_has j m ≡ true → any (λ i. j == i) ks ≡ true

  -- All keys of a map are in a store, or none is.
  abbrev pub AllAre : ℕ → List (ℕ × A) → (ℕ → Option A) → Type 0
  AllAre n m v = (j : ℕ) → map_has j m ≡ true → present (v j) ≡ n

  tail_put :
      (n k : ℕ) (e : A) (m : List (ℕ × A)) (v : ℕ → Option A) (x : Option A)
      → map_has k m ≡ false
      → AllAre n ((k, e) ∷ m) v
      → AllAre n m (put v k x)
  tail_put n k e m v x u h j q = elim (Bool-cases (k == j)) [
    | inl same ↦ absurd (ground (arith, q, ap (λ i. map_has i m) ((==_iff k j).0 same), u))
    | inr other ↦ ap present (put_there v k x j other) ∙ h j (ground (arith, q))
  ]

module _ {A : Type 0} (o : EntityOptions A) (ks : List ℕ) (distinct : IsDistinct ks) where
  count_in-remove_all :
      (m : List (ℕ × A)) (v : ℕ → Option A)
      → IsUnique m
      → IsKeyed o m
      → Within ks m
      → AllAre 1 m v
      → count_in ks (remove_all o m v) + length m ≡ count_in ks v
  count_in-remove_all [] v u w i h = omega arith
  count_in-remove_all ((k, e) ∷ m) v u w i h =
      let head : map_has k ((k, e) ∷ m) ≡ true = ground arith in
      let one = count_in-put ks v k none distinct (i k head) in
      let rest =
        count_in-remove_all m (put v k none) u.1 w.1 (λ j q. i j (ground (arith, q)))
          (tail_put 1 k e m v none u.0 h) in
      omega (arith, ap (λ j. count_in ks (remove_all o m (put v j none))) w.0, one, rest, h k head)

  count_in-save_all :
      (m : List (ℕ × A)) (v : ℕ → Option A)
      → IsUnique m
      → IsKeyed o m
      → Within ks m
      → AllAre 0 m v
      → count_in ks (save_all o m v) ≡ count_in ks v + length m
  count_in-save_all [] v u w i h = omega arith
  count_in-save_all ((k, e) ∷ m) v u w i h =
      let head : map_has k ((k, e) ∷ m) ≡ true = ground arith in
      let one = count_in-put ks v k (some e) distinct (i k head) in
      let rest =
        count_in-save_all m (put v k (some e)) u.1 w.1 (λ j q. i j (ground (arith, q)))
          (tail_put 0 k e m v (some e) u.0 h) in
      omega
        (arith, ap (λ j. count_in ks (save_all o m (put v j (some e)))) w.0, one, rest, h k head)

  record IsCounted (s : ℕ → Option A) (g : EntityGroups A) : Type 0 where
    removed_unique : IsUnique g.to_remove
    stored : AllAre 1 g.to_remove s
    within : Within ks g.to_save

  remove_old-IsUnique :
      (b : Bool) (k : ℕ) (old : Option A) (m : List (ℕ × A))
      → IsUnique m
      → IsUnique (remove_old o b k old m)
  remove_old-IsUnique true k (some e) m u = set-IsUnique k e m u
  remove_old-IsUnique true k none m u = u
  remove_old-IsUnique false k old m u = u

  old_entity-stored :
      (s : ℕ → Option A) (g : EntityGroups A) (k : ℕ)
      → (from_store o g k && elim (old_entity o s g k) [ none ↦ false | some e ↦ true ]) ≡ true
      → present (s k) ≡ 1
  old_entity-stored s g k q = ground (arith, q)

  remove_old-stored :
      (s : ℕ → Option A) (g : EntityGroups A) (k : ℕ)
      → AllAre 1 g.to_remove s
      → AllAre 1 (remove_old o (from_store o g k) k (old_entity o s g k) g.to_remove) s
  remove_old-stored s g k h j q =
      let new = from_store o g k && elim (old_entity o s g k) [ none ↦ false | some e ↦ true ] in
      let either =
        sym (has-remove_old o (from_store o g k) k (old_entity o s g k) g.to_remove j) ∙ q in
      elim (Bool-cases (map_has j g.to_remove)) [
        | inl old ↦ h j old
        | inr added ↦
            let same = (==_iff j k).0 (ground (arith, either, added)) in
            let n : new ≡ true = ground (arith, either, added) in
            ap (λ i. present (s i)) same ∙ old_entity-stored s g k n
      ]

  map_set-Within :
      (k : ℕ) (e : A) (m : List (ℕ × A))
      → Within ks m
      → any (λ i. k == i) ks ≡ true
      → Within ks (map_set k e m)
  map_set-Within k e m h i j q = elim (Bool-cases (j == k)) [
    | inl same ↦ ap (λ x. any (λ y. x == y) ks) ((==_iff j k).0 same) ∙ i
    | inr other ↦ h j (ground (arith, has-set k e m j, q, other))
  ]

  apply-IsCounted :
      (s : ℕ → Option A) (g : EntityGroups A) (k : ℕ) (r : UpdateOp × A)
      → any (λ i. k == i) ks ≡ true
      → IsCounted s g
      → IsCounted s (apply_op o (from_store o g k) k (old_entity o s g k) r g)
  unfolding apply_op
  apply-IsCounted s g k (keep, e) i h = h
  apply-IsCounted s g k (update, e) i h = record {
    removed_unique =
        remove_old-IsUnique (from_store o g k) k (old_entity o s g k) g.to_remove h.removed_unique;
    stored = remove_old-stored s g k h.stored;
    within = λ j q. map_set-Within k e g.to_save h.within i j q;
  }
  apply-IsCounted s g k (delete, e) i h = record {
    removed_unique =
        remove_old-IsUnique (from_store o g k) k (old_entity o s g k) g.to_remove h.removed_unique;
    stored = remove_old-stored s g k h.stored;
    within = λ j q. h.within j (ground (arith, has-delete k g.to_save j, q));
  }

  loop-IsCounted :
      (op : UpdateOp) (s : ℕ → Option A) (es : List A) (g : EntityGroups A)
      → IsKeyedStore o s
      → KeepsKey o op
      → ((j : ℕ) → any (λ e. j == o.primary_key e) es ≡ true → any (λ i. j == i) ks ≡ true)
      → IsGrouped o s g
      → IsCounted s g
      → IsGrouped o s (group_loop o op s es g) × IsCounted s (group_loop o op s es g)
  unfolding group_loop group_step
  loop-IsCounted op s [] g hs hk b h c = (h, c)
  loop-IsCounted op s (e ∷ es) g hs hk b h c =
      let k = o.primary_key e in
      let r = checked o op (old_entity o s g k) e in
      loop-IsCounted op s es _ hs hk (λ j q. b j (ground (arith, q)))
        (apply-IsGrouped o s g k r hs (hk (old_entity o s g k) e) h)
        (apply-IsCounted s g k r (b k (ground arith)) c)

  written_absent :
      (s : ℕ → Option A) (g : EntityGroups A)
      → IsGrouped o s g
      → AllAre 0 g.to_save (remove_all o g.to_remove s)
  written_absent s g h j q =
      ap present (remove_all_get o g.to_remove s j h.removed_keyed)
      ∙ elim (h.covered j q) [ inl r ↦ ground (arith, r) | inr n ↦ ground (arith, n) ]

  -- The count after both maps are written.
  written_count :
      (s : ℕ → Option A) (g : EntityGroups A) (n : ℕ)
      → ((j : ℕ) → present (s j) ≡ 1 → any (λ i. j == i) ks ≡ true)
      → IsGrouped o s g
      → IsCounted s g
      → n ≡ count_in ks s
      → n - length g.to_remove + length g.to_save
        ≡ count_in ks (save_all o g.to_save (remove_all o g.to_remove s))
  written_count s g n b h c q =
      let removed =
        count_in-remove_all g.to_remove s c.removed_unique h.removed_keyed
          (λ j t. b j (c.stored j t)) c.stored in
      let saved =
        count_in-save_all g.to_save (remove_all o g.to_remove s) h.unique h.keyed c.within
          (written_absent s g h) in
      omega (arith, q, removed, saved)

  -- The keys of a store and of a batch.
  abbrev pub HasKeys : List A → (ℕ → Option A) → Type 0
  HasKeys es v =
      ((j : ℕ) → present (v j) ≡ 1 → any (λ i. j == i) ks ≡ true)
      × ((j : ℕ) → any (λ e. j == o.primary_key e) es ≡ true → any (λ i. j == i) ks ≡ true)

  no_groups-IsCounted : (s : ℕ → Option A) → IsCounted s (record { to_remove = []; to_save = [] })
  no_groups-IsCounted s = record {
    removed_unique = tt;
    stored = λ j t. ground (arith, t);
    within = λ j t. ground (arith, t);
  }

  groups_count :
      (op : UpdateOp) (es : List A) (s : ℕ → Option A) (n : ℕ)
      → IsKeyedStore o s
      → KeepsKey o op
      → HasKeys es s
      → n ≡ count_in ks s
      → let g = get_entity_groups o op s es in
        n - length g.to_remove + length g.to_save
        ≡ count_in ks (save_all o g.to_save (remove_all o g.to_remove s))
  unfolding get_entity_groups
  groups_count op es s n hs hk b q =
      let (h, c) =
        loop-IsCounted op s es (record { to_remove = []; to_save = [] }) hs hk b.1
          (no_groups-IsGrouped o op s hs hk) (no_groups-IsCounted s) in
      written_count s (group_loop o op s es (record { to_remove = []; to_save = [] })) n b.0 h c q

  remove-count :
      (es : List A) (s : EntityStore A)
      → IsKeyedStore o s.main
      → HasKeys es s.main
      → s.count ≡ count_in ks s.main
      → (remove o es s).count ≡ count_in ks (remove o es s).main
  unfolding remove get_entity_groups
  remove-count es s hs b q =
      let g = get_entity_groups o delete s.main es in
      let saves : g.to_save ≡ [] =
        loop-no_save o es s.main (record { to_remove = []; to_save = [] }) refl in
      let counted = groups_count delete es s.main s.count hs (checked_delete o) b q in
      let written = ap (λ m. count_in ks (save_all o m (remove_all o g.to_remove s.main))) saves in
      omega (arith, counted, written, ap length saves)

  -- For keys without repetition that are those of the store and of the batch at least, where each
  -- entity of the store stands under its own key, and the check returns entities under the key of those
  -- that it is given: if the count is the number of these keys that have an entity, it is so after a
  -- save and after a removal, also where a key occurs several times in the batch.
  pub save-count :
      (es : List A) (s : EntityStore A)
      → IsKeyedStore o s.main
      → KeepsKey o update
      → HasKeys es s.main
      → s.count ≡ count_in ks s.main
      → ((save o es s).count ≡ count_in ks (save o es s).main)
        × ((remove o es s).count ≡ count_in ks (remove o es s).main)
  unfolding save
  save-count es s hs hk b q =
      (groups_count update es s.main s.count hs hk b q, remove-count es s hs b q)
