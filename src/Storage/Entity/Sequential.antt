-- ===== src/Storage/Entity/Sequential.antt =====
-- A batch of entities against its entities one after the other.
use aleph_indexer_framework.Prelude.{
  ℕ, ◌≡◌, ◌∙◌, refl, sym, ap, ◌==◌, List, [], ◌∷◌, Option, none, some, any, arith, if◌then◌else◌,
}
use aleph_indexer_framework.Storage.Entity.{
  EntityOptions, EntityGroups, EntityStore, UpdateOp, keep, update, delete, map_get, map_has,
  map_delete, put, remove_all, save_all, checked, from_store, old_entity, apply_op, group_step,
  group_loop, get_entity_groups, save, remove,
}
use aleph_indexer_framework.Storage.Entity.Groups.{remove_all_get, save_all_get}
use aleph_indexer_framework.Storage.Entity.Steps.{
  put_op, one_by_one, view, KeepsKey, IsKeyedStore, IsGrouped, old_view, apply_view,
  apply-IsGrouped,
}

module _ {A : Type 0} (o : EntityOptions A) where
  put_op-ext :
      (v w : ℕ → Option A) (k : ℕ) (r : UpdateOp × A)
      → ((j : ℕ) → v j ≡ w j)
      → (j : ℕ) → put_op o v k r j ≡ put_op o w k r j
  put_op-ext v w k (keep, e) h j = h j
  put_op-ext v w k (update, e) h j = ground (arith, h j)
  put_op-ext v w k (delete, e) h j = ground (arith, h j)

  one_by_one-ext :
      (op : UpdateOp) (es : List A) (v w : ℕ → Option A)
      → ((j : ℕ) → v j ≡ w j)
      → (j : ℕ) → one_by_one o op es v j ≡ one_by_one o op es w j
  unfolding one_by_one
  one_by_one-ext op [] v w h j = h j
  one_by_one-ext op (e ∷ es) v w h j =
      let k = o.primary_key e in
      one_by_one-ext op es (put_op o v k (checked o op (v k) e))
        (put_op o w k (checked o op (w k) e))
        (λ i.
          ap (λ x. put_op o v k (checked o op x e) i) (h k)
          ∙ put_op-ext v w k (checked o op (w k) e) h i)
        j

  module _ (op : UpdateOp) (s : ℕ → Option A) (hs : IsKeyedStore o s) (hk : KeepsKey o op) where
    loop-view :
        (es : List A) (g : EntityGroups A) (j : ℕ)
        → IsGrouped o s g
        → IsGrouped o s (group_loop o op s es g)
          × (view o s (group_loop o op s es g) j ≡ one_by_one o op es (view o s g) j)
    unfolding group_loop group_step one_by_one
    loop-view [] g j h = (h, refl)
    loop-view (e ∷ es) g j h =
        let k = o.primary_key e in
        let r = checked o op (old_entity o s g k) e in
        let g' = apply_op o (from_store o g k) k (old_entity o s g k) r g in
        let (h', q) =
          loop-view es g' j (apply-IsGrouped o s g k r hs (hk (old_entity o s g k) e) h) in
        (
          h',
          q
              ∙ one_by_one-ext op es (view o s g')
                  (put_op o (view o s g) k (checked o op (view o s g k) e))
                  (λ i.
                    apply_view o s g k r i h
                    ∙ ap (λ x. put_op o (view o s g) k (checked o op x e) i) (old_view o s g k))
                  j,
        )

    groups-written :
        (g : EntityGroups A) (j : ℕ)
        → IsGrouped o s g
        → save_all o g.to_save (remove_all o g.to_remove s) j ≡ view o s g j
    groups-written g j h =
        save_all_get o g.to_save (remove_all o g.to_remove s) j h.unique h.keyed
        ∙ ground (arith, remove_all_get o g.to_remove s j h.removed_keyed)

    pub no_groups-IsGrouped : IsGrouped o s (record { to_remove = []; to_save = [] })
    no_groups-IsGrouped = record {
      unique = tt;
      keyed = tt;
      removed_keyed = tt;
      covered = λ k q. ground (arith, q);
    }

    groups_lem :
        (es : List A) (j : ℕ)
        → IsGrouped o s (get_entity_groups o op s es)
          × (view o s (get_entity_groups o op s es) j ≡ one_by_one o op es s j)
    unfolding get_entity_groups
    groups_lem es j = loop-view es (record { to_remove = []; to_save = [] }) j no_groups-IsGrouped

  -- Where each entity of the store stands under its own key, and the check returns entities under the
  -- key of those that it is given: after a save the store holds what it would hold if the entities
  -- were looked up, checked and written one after the other, also where a key occurs several times.
  pub save-one_by_one :
      (es : List A) (s : EntityStore A) (j : ℕ)
      → IsKeyedStore o s.main
      → KeepsKey o update
      → (save o es s).main j ≡ one_by_one o update es s.main j
  unfolding save
  save-one_by_one es s j hs hk =
      let (h, q) = groups_lem update s.main hs hk es j in
      groups-written update s.main hs hk (get_entity_groups o update s.main es) j h ∙ q

  one_by_one-delete :
      (es : List A) (v : ℕ → Option A) (j : ℕ)
      → one_by_one o delete es v j ≡ (if any (λ e. j == o.primary_key e) es then none else v j)
  unfolding one_by_one checked
  one_by_one-delete [] v j = refl
  one_by_one-delete (e ∷ es) v j =
      one_by_one-delete es (put v (o.primary_key e) none) j ∙ ground arith

  -- A removal puts nothing among the saves.
  pub loop-no_save :
      (es : List A) (v : ℕ → Option A) (g : EntityGroups A)
      → g.to_save ≡ []
      → (group_loop o delete v es g).to_save ≡ []
  unfolding group_loop group_step checked apply_op
  loop-no_save [] v g h = h
  loop-no_save (e ∷ es) v g h = loop-no_save es v _ (ap (map_delete (o.primary_key e)) h)

  pub checked_delete : KeepsKey o delete
  unfolding checked
  checked_delete old e = refl

  view_no_save :
      (v : ℕ → Option A) (g : EntityGroups A) (j : ℕ)
      → g.to_save ≡ []
      → (if map_has j g.to_remove then none else v j) ≡ view o v g j
  view_no_save v g j h = sym (
      ap
        (λ m. elim (map_get j m) [
          | none ↦ if map_has j g.to_remove then none else v j
          | some e ↦ some e
        ])
        h)

  -- Where each entity of the store stands under its own key: after a removal the store holds nothing
  -- under the keys of the entities that are given, and under every other key what it held before.
  pub remove_lem :
      (es : List A) (s : EntityStore A) (j : ℕ)
      → IsKeyedStore o s.main
      → (remove o es s).main j ≡ (if any (λ e. j == o.primary_key e) es then none else s.main j)
  unfolding remove get_entity_groups
  remove_lem es s j hs =
      let g = get_entity_groups o delete s.main es in
      let (h, q) = groups_lem delete s.main hs checked_delete es j in
      remove_all_get o g.to_remove s.main j h.removed_keyed
      ∙ view_no_save s.main g j (loop-no_save es s.main _ refl)
      ∙ q
      ∙ one_by_one-delete es s.main j
