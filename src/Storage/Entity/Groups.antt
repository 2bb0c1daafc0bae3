-- ===== src/Storage/Entity/Groups.antt =====
-- The maps of `getEntityGroups`, and what it means to write them to the store.
use aleph_indexer_framework.Prelude.{
  ℕ, ◌≡◌, ◌∙◌, refl, inl, inr, false, ◌||◌, ◌==◌, List, [], ◌∷◌, Option, none, some, arith,
  Bool-cases, if◌then◌else◌,
}
use aleph_indexer_framework.Storage.Entity.{
  EntityOptions, map_get, map_has, map_set, map_delete, put, remove_all, save_all,
}

module _ {A : Type 0} where
  -- No key twice, as in every `Map`.
  abbrev pub IsUnique : List (ℕ × A) → Type 0
  IsUnique [] = Unit
  IsUnique ((k, e) ∷ m) = (map_has k m ≡ false) × IsUnique m

  pub get-set :
      (k : ℕ) (x : A) (m : List (ℕ × A)) (j : ℕ)
      → map_get j (map_set k x m) ≡ (if j == k then some x else map_get j m)
  get-set k x [] j = ground arith
  get-set k x ((i, e) ∷ m) j = ground (arith, get-set k x m j)

  pub has-set :
      (k : ℕ) (x : A) (m : List (ℕ × A)) (j : ℕ)
      → map_has j (map_set k x m) ≡ ((j == k) || map_has j m)
  has-set k x [] j = ground arith
  has-set k x ((i, e) ∷ m) j = ground (arith, has-set k x m j)

  pub has_get : (m : List (ℕ × A)) (j : ℕ) → map_has j m ≡ false → map_get j m ≡ none
  has_get [] j h = refl
  has_get ((i, e) ∷ m) j h = ground (arith, has_get m j)

  pub get_has : (m : List (ℕ × A)) (j : ℕ) → map_get j m ≡ none → map_has j m ≡ false
  get_has [] j h = refl
  get_has ((i, e) ∷ m) j h = ground (arith, get_has m j)

  pub has-delete :
      (k : ℕ) (m : List (ℕ × A)) (j : ℕ) → map_has j m ≡ false → map_has j (map_delete k m) ≡ false
  has-delete k [] j h = refl
  has-delete k ((i, e) ∷ m) j h = ground (arith, has-delete k m j)

  pub get-delete :
      (k : ℕ) (m : List (ℕ × A)) (j : ℕ)
      → IsUnique m
      → map_get j (map_delete k m) ≡ (if j == k then none else map_get j m)
  get-delete k [] j u = ground arith
  get-delete k ((i, e) ∷ m) j u = ground (arith, get-delete k m j u.1, has_get m j, u.0)

  pub set-IsUnique : (k : ℕ) (x : A) (m : List (ℕ × A)) → IsUnique m → IsUnique (map_set k x m)
  set-IsUnique k x [] u = (refl, tt)
  set-IsUnique k x ((i, e) ∷ m) u = elim (Bool-cases (k == i)) [
    | inl h ↦ rw h u
    | inr h ↦ rw h (has-set k x m i ∙ ground (arith, u.0), set-IsUnique k x m u.1)
  ]

  pub delete-IsUnique : (k : ℕ) (m : List (ℕ × A)) → IsUnique m → IsUnique (map_delete k m)
  delete-IsUnique k [] u = tt
  delete-IsUnique k ((i, e) ∷ m) u = elim (Bool-cases (k == i)) [
    | inl h ↦ rw h u.1
    | inr h ↦ rw h (has-delete k m i u.0, delete-IsUnique k m u.1)
  ]

module _ {A : Type 0} (o : EntityOptions A) where
  -- Each entity stands under its own key.
  abbrev pub IsKeyed : List (ℕ × A) → Type 0
  IsKeyed [] = Unit
  IsKeyed ((k, e) ∷ m) = (o.primary_key e ≡ k) × IsKeyed m

  pub set-IsKeyed :
      (k : ℕ) (x : A) (m : List (ℕ × A)) → o.primary_key x ≡ k → IsKeyed m → IsKeyed (map_set k x m)
  set-IsKeyed k x [] h u = (h, tt)
  set-IsKeyed k x ((i, e) ∷ m) h u = elim (Bool-cases (k == i)) [
    | inl q ↦ rw q (ground (arith, h, q), u.1)
    | inr q ↦ rw q (u.0, set-IsKeyed k x m h u.1)
  ]

  pub delete-IsKeyed : (k : ℕ) (m : List (ℕ × A)) → IsKeyed m → IsKeyed (map_delete k m)
  delete-IsKeyed k [] u = tt
  delete-IsKeyed k ((i, e) ∷ m) u = elim (Bool-cases (k == i)) [
    | inl h ↦ rw h u.1
    | inr h ↦ rw h (u.0, delete-IsKeyed k m u.1)
  ]

  -- What the store holds after the removals and after the saves.
  pub remove_all_get :
      (m : List (ℕ × A)) (s : ℕ → Option A) (j : ℕ)
      → IsKeyed m
      → remove_all o m s j ≡ (if map_has j m then none else s j)
  remove_all_get [] s j u = refl
  remove_all_get ((k, e) ∷ m) s j u =
      remove_all_get m (put s (o.primary_key e) none) j u.1 ∙ ground (arith, u.0)

  pub save_all_get :
      (m : List (ℕ × A)) (s : ℕ → Option A) (j : ℕ)
      → IsUnique m
      → IsKeyed m
      → save_all o m s j ≡ elim (map_get j m) [ none ↦ s j | some e ↦ some e ]
  save_all_get [] s j u w = refl
  save_all_get ((k, e) ∷ m) s j u w =
      save_all_get m (put s (o.primary_key e) (some e)) j u.1 w.1
      ∙ ground (arith, u.0, w.0, has_get m j)
