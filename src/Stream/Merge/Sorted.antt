-- ===== src/Stream/Merge/Sorted.antt =====
-- Orders given by a test, lists that are sorted by one, and entries whose heads are.
use aleph_indexer_framework.Prelude.{
  ◌≡◌, refl, Bool, true, ◌⊎◌, inl, inr, List, [], ◌∷◌, ◌++◌, All, All-append, All-split, Bool-cases,
  arith,
}
use aleph_indexer_framework.Stream.Merge.{
  Item, goes_first, second_value, insert_item, sort_items, size,
}

-- What a comparator has to be for `sort`: its test is total and transitive.
pub record IsOrder {ℓ} {T : Type ℓ} (le : T → T → Bool) : Type ℓ where
  pub total : (a b : T) → (le a b ≡ true) ⊎ (le b a ≡ true)
  pub trans : (a b c : T) → le a b ≡ true → le b c ≡ true → le a c ≡ true

-- All values that the entries hold.
abbrev pub contents {ℓ} : {T : Type ℓ} → List (Item T) → List T
contents [] = []
contents ((v, rest) ∷ items) = v ∷ (rest ++ contents items)

module _ {ℓ} {T : Type ℓ} (le : T → T → Bool) where
  abbrev pub AllFrom : T → List T → Type 0
  AllFrom v xs = All (λ x. le v x ≡ true) xs

  abbrev pub IsSorted : List T → Type 0
  IsSorted [] = Unit
  IsSorted (x ∷ xs) = AllFrom x xs × IsSorted xs

  -- Each source that is left is sorted.
  abbrev pub SourcesSorted : List (Item T) → Type 0
  SourcesSorted items = All (λ it. IsSorted (it.0 ∷ it.1)) items

  abbrev pub HeadsFrom : T → List (Item T) → Type 0
  HeadsFrom v items = All (λ it. le v it.0 ≡ true) items

  abbrev pub HeadsSorted : List (Item T) → Type 0
  HeadsSorted [] = Unit
  HeadsSorted (it ∷ items) = HeadsFrom it.0 items × HeadsSorted items

  pub IsSorted-split :
      (xs ys : List T) → IsSorted (xs ++ ys) → IsSorted xs × All (λ x. AllFrom x ys) xs
  IsSorted-split [] ys s = (tt, tt)
  IsSorted-split (x ∷ xs) ys s =
      let (sx, below) = IsSorted-split xs ys s.1 in
      let (a, b) = All-split (λ y. le x y ≡ true) xs ys s.0 in ((a, sx), (b, below))

  pub IsSorted-append :
      (xs ys : List T)
      → IsSorted xs
      → IsSorted ys
      → All (λ x. AllFrom x ys) xs
      → IsSorted (xs ++ ys)
  IsSorted-append [] ys sx sy b = sy
  IsSorted-append (x ∷ xs) ys sx sy b =
      (All-append (λ y. le x y ≡ true) xs ys sx.0 b.0, IsSorted-append xs ys sx.1 sy b.1)

  module _ (order : IsOrder le) where
    AllFrom-trans : (a b : T) (xs : List T) → le a b ≡ true → AllFrom b xs → AllFrom a xs
    AllFrom-trans a b [] h k = tt
    AllFrom-trans a b (x ∷ xs) h k = (order.trans a b x h k.0, AllFrom-trans a b xs h k.1)

    HeadsFrom-trans :
        (a b : T) (items : List (Item T)) → le a b ≡ true → HeadsFrom b items → HeadsFrom a items
    HeadsFrom-trans a b [] h k = tt
    HeadsFrom-trans a b (it ∷ items) h k =
        (order.trans a b it.0 h k.0, HeadsFrom-trans a b items h k.1)

    -- What lies below all heads lies below all values.
    HeadsFrom-contents :
        (v : T) (items : List (Item T))
        → HeadsFrom v items
        → SourcesSorted items
        → AllFrom v (contents items)
    HeadsFrom-contents v [] h s = tt
    HeadsFrom-contents v ((w, rest) ∷ items) h s = (
      h.0,
      All-append (λ y. le v y ≡ true) rest (contents items) (AllFrom-trans v w rest h.0 s.0.0)
          (HeadsFrom-contents v items h.1 s.1),
    )

    pub goes_first-contents :
        (v : T) (items : List (Item T))
        → goes_first le v (second_value items) ≡ true
        → HeadsSorted items
        → SourcesSorted items
        → AllFrom v (contents items)
    goes_first-contents v [] g h s = tt
    goes_first-contents v ((w, rest) ∷ items) g h s =
        HeadsFrom-contents v ((w, rest) ∷ items) (g, HeadsFrom-trans v w items g h.0) s

    insert_item-HeadsFrom :
        (v : T) (x : Item T) (items : List (Item T))
        → le v x.0 ≡ true
        → HeadsFrom v items
        → HeadsFrom v (insert_item le x items)
    unfolding insert_item
    insert_item-HeadsFrom v x [] h k = (h, tt)
    insert_item-HeadsFrom v x (y ∷ ys) h k = elim (Bool-cases (le x.0 y.0)) [
      | inl e ↦ rw e (h, k)
      | inr e ↦ rw e (k.0, insert_item-HeadsFrom v x ys h k.1)
    ]

    insert_item-HeadsSorted :
        (x : Item T) (items : List (Item T))
        → HeadsSorted items
        → HeadsSorted (insert_item le x items)
    unfolding insert_item
    insert_item-HeadsSorted x [] h = (tt, tt)
    insert_item-HeadsSorted x (y ∷ ys) h = elim (Bool-cases (le x.0 y.0)) [
      | inl e ↦ rw e ((e, HeadsFrom-trans x.0 y.0 ys e h.0), h)
      | inr e ↦
          let back : le y.0 x.0 ≡ true = elim (order.total x.0 y.0) [ inl f ↦ cc | inr f ↦ f ] in
          rw e (insert_item-HeadsFrom y.0 x ys back h.0, insert_item-HeadsSorted x ys h.1)
    ]

    pub sort_items-HeadsSorted : (items : List (Item T)) → HeadsSorted (sort_items le items)
    unfolding sort_items
    sort_items-HeadsSorted [] = tt
    sort_items-HeadsSorted (x ∷ xs) =
        insert_item-HeadsSorted x (sort_items le xs) (sort_items-HeadsSorted xs)

  insert_item-SourcesSorted :
      (x : Item T) (items : List (Item T))
      → IsSorted (x.0 ∷ x.1)
      → SourcesSorted items
      → SourcesSorted (insert_item le x items)
  unfolding insert_item
  insert_item-SourcesSorted x [] s h = (s, tt)
  insert_item-SourcesSorted x (y ∷ ys) s h = elim (Bool-cases (le x.0 y.0)) [
    | inl e ↦ rw e (s, h)
    | inr e ↦ rw e (h.0, insert_item-SourcesSorted x ys s h.1)
  ]

  pub sort_items-SourcesSorted :
      (items : List (Item T)) → SourcesSorted items → SourcesSorted (sort_items le items)
  unfolding sort_items
  sort_items-SourcesSorted [] h = tt
  sort_items-SourcesSorted (x ∷ xs) h =
      insert_item-SourcesSorted x (sort_items le xs) h.0 (sort_items-SourcesSorted xs h.1)

  size-insert_item :
      (x : Item T) (items : List (Item T)) → size (insert_item le x items) ≡ size (x ∷ items)
  unfolding insert_item
  size-insert_item x [] = refl
  size-insert_item x (y ∷ ys) = ground (arith, size-insert_item x ys)

  pub size-sort_items : (items : List (Item T)) → size (sort_items le items) ≡ size items
  unfolding sort_items
  size-sort_items [] = refl
  size-sort_items (x ∷ xs) =
      omega (arith, size-insert_item x (sort_items le xs), size-sort_items xs)
