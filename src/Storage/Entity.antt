-- ===== src/Storage/Entity.antt =====
-- `EntityStorage` of packages/core/src/storage/entityStorage.ts over its main sublevel, with `save` and
-- `remove` of entityIndexStorage.ts. A primary key is a number here, since of the text only equality is
-- used; the sublevel is a function from keys; a batch takes effect in the order in which it is filled;
-- the mutex makes an operation one step. The secondary indexes are left out.
pub mod Groups
pub mod Steps
pub mod Sequential
pub mod Flags
pub mod Count
use aleph_indexer_framework.Prelude.{
  ℕ, zero, suc, ◌+◌, ◌-◌, Bool, true, false, not, ◌&&◌, ◌||◌, List, [], ◌∷◌, Option, none, some,
  ◌==◌, if◌then◌else◌, length,
}

-- EntityUpdateOp
pub data UpdateOp : Type 0 where
  keep : UpdateOp
  update : UpdateOp
  delete : UpdateOp

-- EntityUpdateCheckFnReturn
pub record CheckResult (A : Type 0) : Type 0 where
  pub op : UpdateOp
  pub entity : Option A

pub record EntityOptions (A : Type 0) : Type 0 where
  pub primary_key : A → ℕ
  pub update_check_fn : Option (Option A → A → UpdateOp → CheckResult A)

pub record EntityStore (A : Type 0) : Type 0 where
  pub main : ℕ → Option A
  pub count : ℕ

module _ {A : Type 0} where
  -- The methods of a `Map` that are used; a new key comes last.
  abbrev pub map_get : ℕ → List (ℕ × A) → Option A
  map_get k [] = none
  map_get k ((j, e) ∷ m) = if k == j then some e else map_get k m

  abbrev pub map_has : ℕ → List (ℕ × A) → Bool
  map_has k [] = false
  map_has k ((j, e) ∷ m) = (k == j) || map_has k m

  abbrev pub map_set : ℕ → A → List (ℕ × A) → List (ℕ × A)
  map_set k x [] = (k, x) ∷ []
  map_set k x ((j, e) ∷ m) = if k == j then (j, x) ∷ m else (j, e) ∷ map_set k x m

  abbrev pub map_delete : ℕ → List (ℕ × A) → List (ℕ × A)
  map_delete k [] = []
  map_delete k ((j, e) ∷ m) = if k == j then m else (j, e) ∷ map_delete k m

  abbrev pub entity_or : A → Option A → A
  entity_or e none = e
  entity_or e (some e') = e'

  -- One key of the sublevel.
  abbrev pub put : (ℕ → Option A) → ℕ → Option A → ℕ → Option A
  put s k o j = if j == k then o else s j

-- The two maps of `getEntityGroups`.
pub record EntityGroups (A : Type 0) : Type 0 where
  pub to_remove : List (ℕ × A)
  pub to_save : List (ℕ × A)

module _ {A : Type 0} (o : EntityOptions A) where
  -- What is to be done with an entity: `checkFn` is used for an update alone.
  unfoldable pub checked : UpdateOp → Option A → A → UpdateOp × A
  checked update old e = elim o.update_check_fn [
    | none ↦ (update, e)
    | some f ↦ let r = f old e update in (r.op, entity_or e r.entity)
  ]
  checked op old e = (op, e)

  -- `oldEntityFromStore`
  abbrev pub from_store : EntityGroups A → ℕ → Bool
  from_store g k = elim (map_get k g.to_save) [
    | none ↦ not (map_has k g.to_remove)
    | some e ↦ false
  ]

  abbrev pub old_entity : (ℕ → Option A) → EntityGroups A → ℕ → Option A
  old_entity s g k = if from_store g k then s k else map_get k g.to_save

  abbrev pub remove_old : Bool → ℕ → Option A → List (ℕ × A) → List (ℕ × A)
  remove_old true k (some e) m = map_set k e m
  remove_old true k none m = m
  remove_old false k old m = m

  unfoldable pub apply_op : Bool → ℕ → Option A → UpdateOp × A → EntityGroups A → EntityGroups A
  apply_op stored k old (keep, e) g = g
  apply_op stored k old (update, e) g = record {
    to_remove = remove_old stored k old g.to_remove;
    to_save = map_set k e g.to_save;
  }
  apply_op stored k old (delete, e) g = record {
    to_remove = remove_old stored k old g.to_remove;
    to_save = map_delete k g.to_save;
  }

  -- One round of the loop over the entities.
  unfoldable pub group_step : UpdateOp → (ℕ → Option A) → A → EntityGroups A → EntityGroups A
  group_step op s e g =
      let k = o.primary_key e in
      let old = old_entity s g k in apply_op (from_store g k) k old (checked op old e) g

  pub group_loop : UpdateOp → (ℕ → Option A) → List A → EntityGroups A → EntityGroups A
  group_loop op s [] g = g
  group_loop op s (e ∷ es) g = group_loop op s es (group_step op s e g)

  unfoldable pub get_entity_groups : UpdateOp → (ℕ → Option A) → List A → EntityGroups A
  get_entity_groups op s es = group_loop op s es (record { to_remove = []; to_save = [] })

  -- `super.remove` and `super.save` of the values of a map, each under its own key.
  abbrev pub remove_all : List (ℕ × A) → (ℕ → Option A) → ℕ → Option A
  remove_all [] s = s
  remove_all ((k, e) ∷ m) s = remove_all m (put s (o.primary_key e) none)

  abbrev pub save_all : List (ℕ × A) → (ℕ → Option A) → ℕ → Option A
  save_all [] s = s
  save_all ((k, e) ∷ m) s = save_all m (put s (o.primary_key e) (some e))

  -- save. The count holds at least the entities that are found in the store and removed.
  pub save : List A → EntityStore A → EntityStore A
  save es s =
      let g = get_entity_groups update s.main es in
      record {
        main = save_all g.to_save (remove_all g.to_remove s.main);
        count = s.count - length g.to_remove + length g.to_save;
      }

  -- remove
  pub remove : List A → EntityStore A → EntityStore A
  remove es s =
      let g = get_entity_groups delete s.main es in
      record { main = remove_all g.to_remove s.main; count = s.count - length g.to_remove }
