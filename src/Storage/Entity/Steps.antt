-- ===== src/Storage/Entity/Steps.antt =====
-- One entity of a batch: what it does to the groups, and what it means for the store.
use aleph_indexer_framework.Prelude.{
  ℕ, ◌≡◌, ◌⊎◌, ◌∙◌, refl, sym, ap, inl, inr, Bool, true, false, ◌&&◌, ◌||◌, ◌==◌, List, [], ◌∷◌,
  Option, none, some, arith, Bool-cases, ==_iff, if◌then◌else◌,
}
use aleph_indexer_framework.Storage.Entity.{
  EntityOptions, EntityGroups, UpdateOp, keep, update, delete, map_get, map_has, put, checked,
  from_store, old_entity, apply_op, remove_old,
}
use aleph_indexer_framework.Storage.Entity.Groups.{
  IsUnique, IsKeyed, get-set, has-set, get_has, has_get, has-delete, get-delete, set-IsUnique,
  delete-IsUnique, set-IsKeyed, delete-IsKeyed,
}

module _ {A : Type 0} (o : EntityOptions A) where
  -- The store after one entity.
  abbrev pub put_op : (ℕ → Option A) → ℕ → UpdateOp × A → ℕ → Option A
  put_op v k (keep, e) = v
  put_op v k (update, e) = put v k (some e)
  put_op v k (delete, e) = put v k none

  -- Each entity is looked up, checked and written before the next one.
  unfoldable pub one_by_one : UpdateOp → List A → (ℕ → Option A) → ℕ → Option A
  one_by_one op [] v = v
  one_by_one op (e ∷ es) v =
      let k = o.primary_key e in one_by_one op es (put_op v k (checked o op (v k) e))

  -- What the store would hold if the groups were written now.
  abbrev pub view : (ℕ → Option A) → EntityGroups A → ℕ → Option A
  view s g j = elim (map_get j g.to_save) [
    | none ↦ if map_has j g.to_remove then none else s j
    | some e ↦ some e
  ]

  -- A check returns an entity under the key of the one it is given.
  abbrev pub KeepsKey : UpdateOp → Type 0
  KeepsKey op = (old : Option A) (e : A) → o.primary_key (checked o op old e).1 ≡ o.primary_key e

  abbrev pub IsKeyedStore : (ℕ → Option A) → Type 0
  IsKeyedStore s = (k : ℕ) (e : A) → s k ≡ some e → o.primary_key e ≡ k

  pub record IsGrouped (s : ℕ → Option A) (g : EntityGroups A) : Type 0 where
    pub unique : IsUnique g.to_save
    pub keyed : IsKeyed o g.to_save
    pub removed_keyed : IsKeyed o g.to_remove
    pub covered :
        (k : ℕ) → map_has k g.to_save ≡ true → (map_has k g.to_remove ≡ true) ⊎ (s k ≡ none)

  pub old_view : (s : ℕ → Option A) (g : EntityGroups A) (k : ℕ) → old_entity o s g k ≡ view s g k
  old_view s g k = ground arith

  pub has-remove_old :
      (b : Bool) (k : ℕ) (old : Option A) (m : List (ℕ × A)) (j : ℕ)
      → map_has j (remove_old o b k old m)
        ≡ (map_has j m || (j == k) && b && elim old [ none ↦ false | some e ↦ true ])
  has-remove_old true k (some e) m j = has-set k e m j ∙ ground arith
  has-remove_old true k none m j = ground arith
  has-remove_old false k old m j = ground arith

  pub apply_view :
      (s : ℕ → Option A) (g : EntityGroups A) (k : ℕ) (r : UpdateOp × A) (j : ℕ)
      → IsGrouped s g
      → view s (apply_op o (from_store o g k) k (old_entity o s g k) r g) j
        ≡ put_op (view s g) k r j
  unfolding apply_op
  apply_view s g k (keep, e) j h = refl
  apply_view s g k (update, e) j h = ground (
    arith,
    get-set k e g.to_save j,
    has-remove_old (from_store o g k) k (old_entity o s g k) g.to_remove j,
  )
  apply_view s g k (delete, e) j h = ground (
    arith,
    get-delete k g.to_save j h.unique,
    has-remove_old (from_store o g k) k (old_entity o s g k) g.to_remove j,
    h.covered k,
    get_has g.to_save k,
    has_get g.to_save k,
  )

  remove_old-IsKeyed :
      (b : Bool) (k : ℕ) (old : Option A) (m : List (ℕ × A))
      → ((e : A) → b ≡ true → old ≡ some e → o.primary_key e ≡ k)
      → IsKeyed o m
      → IsKeyed o (remove_old o b k old m)
  remove_old-IsKeyed true k (some e) m h u = set-IsKeyed o k e m (h e refl refl) u
  remove_old-IsKeyed true k none m h u = u
  remove_old-IsKeyed false k old m h u = u

  removed-IsKeyed :
      (s : ℕ → Option A) (g : EntityGroups A) (k : ℕ)
      → IsKeyedStore s
      → IsGrouped s g
      → IsKeyed o (remove_old o (from_store o g k) k (old_entity o s g k) g.to_remove)
  removed-IsKeyed s g k hs h =
      remove_old-IsKeyed (from_store o g k) k (old_entity o s g k) g.to_remove
        (λ e b q. hs k e (ground (arith, b, q))) h.removed_keyed

  -- A key that the old groups or the new entity put among the saves.
  covered-add :
      (s : ℕ → Option A) (g : EntityGroups A) (k j : ℕ)
      → IsGrouped s g
      → ((j == k) || map_has j g.to_save) ≡ true
      → (map_has j (remove_old o (from_store o g k) k (old_entity o s g k) g.to_remove) ≡ true)
        ⊎ (s j ≡ none)
  covered-add s g k j h q = elim (Bool-cases (j == k)) [
    | inl e ↦
        let same = (==_iff j k).0 e in
        ground (
          arith,
          has-remove_old (from_store o g k) k (old_entity o s g k) g.to_remove j,
          h.covered k,
          has_get g.to_save k,
          get_has g.to_save k,
          same,
          ap s same,
        )
    | inr e ↦ ground (
      arith,
      has-remove_old (from_store o g k) k (old_entity o s g k) g.to_remove j,
      h.covered j,
      q,
    )
  ]

  pub apply-IsGrouped :
      (s : ℕ → Option A) (g : EntityGroups A) (k : ℕ) (r : UpdateOp × A)
      → IsKeyedStore s
      → o.primary_key r.1 ≡ k
      → IsGrouped s g
      → IsGrouped s (apply_op o (from_store o g k) k (old_entity o s g k) r g)
  unfolding apply_op
  apply-IsGrouped s g k (keep, e) hs hk h = h
  apply-IsGrouped s g k (update, e) hs hk h = record {
    unique = set-IsUnique k e g.to_save h.unique;
    keyed = set-IsKeyed o k e g.to_save hk h.keyed;
    removed_keyed = removed-IsKeyed s g k hs h;
    covered = λ j q. covered-add s g k j h (sym (has-set k e g.to_save j) ∙ q);
  }
  apply-IsGrouped s g k (delete, e) hs hk h = record {
    unique = delete-IsUnique k g.to_save h.unique;
    keyed = delete-IsKeyed o k g.to_save h.keyed;
    removed_keyed = removed-IsKeyed s g k hs h;
    covered = λ j q. covered-add s g k j h (ground (arith, has-delete k g.to_save j, q));
  }
