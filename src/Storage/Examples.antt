-- ===== src/Storage/Examples.antt =====
-- The properties of the entity storage at a concrete store. An entity is a key with a value, and the
-- check deletes an entity that comes with the value 0.
use aleph_indexer_framework.Prelude.{
  ℕ, ◌≡◌, refl, List, [], ◌∷◌, Option, none, some, ◌==◌, if◌then◌else◌, arith,
}
use aleph_indexer_framework.Indexer.Account.{IndexerState, pending, key_before}
use aleph_indexer_framework.Storage.Keys.{text_before}
use aleph_indexer_framework.Storage.Keys.Dates.{keys_of, keys_of-order}
use aleph_indexer_framework.Storage.Entity.{
  EntityOptions, EntityStore, CheckResult, UpdateOp, update, delete, checked, save, remove,
}
use aleph_indexer_framework.Storage.Entity.Count.{count_in, IsDistinct, HasKeys, save-count}
use aleph_indexer_framework.Storage.Entity.Steps.{IsKeyedStore, KeepsKey, one_by_one}
use aleph_indexer_framework.Storage.Entity.Sequential.{save-one_by_one, remove_lem}

abbrev check_value : Option (ℕ × ℕ) → ℕ × ℕ → UpdateOp → CheckResult (ℕ × ℕ)
check_value old e op =
    if e.1 == 0
    then record { op = delete; entity = none }
    else record { op = update; entity = some e }

abbrev options : EntityOptions (ℕ × ℕ)
options = record { primary_key = λ e. e.0; update_check_fn = some check_value }

-- A store of two entities.
abbrev store : EntityStore (ℕ × ℕ)
store = record {
  main = λ k. if k == 7 then some (7, 70) else if k == 8 then some (8, 80) else none;
  count = 2;
}

abbrev batch : List (ℕ × ℕ)
batch = (7, 71) ∷ (9, 90) ∷ (7, 0) ∷ (9, 91) ∷ []

store-IsKeyed : IsKeyedStore options store.main
store-IsKeyed k e h = ground (arith, h)

options-KeepsKey : KeepsKey options update
unfolding checked
options-KeepsKey old e = ground arith

save-one_by_one_example : (save options batch store).main 9 ≡ some (9, 91)
unfolding one_by_one checked
save-one_by_one_example = save-one_by_one options batch store 9 store-IsKeyed options-KeepsKey

remove_lem_example : (remove options ((7, 71) ∷ []) store).main 7 ≡ none
remove_lem_example = remove_lem options ((7, 71) ∷ []) store 7 store-IsKeyed

abbrev first_row : IndexerState
first_row = record {
  start_date = 999_999_999_999;
  end_date = 1_600_000_000_000;
  state = pending;
  request_nonce = none;
}

abbrev second_row : IndexerState
second_row = record {
  start_date = 1_000_000_000_000;
  end_date = 1_500_000_000_000;
  state = pending;
  request_nonce = none;
}

keys_of-order_example :
    (k : List ℕ) × (k' : List ℕ) × (keys_of first_row ≡ k ∷ [])
    × (keys_of second_row ≡ k' ∷ [])
    × (text_before k k' ≡ key_before first_row second_row)
keys_of-order_example =
    keys_of-order first_row second_row (omega arith, omega arith) (omega arith, omega arith)

abbrev keys : List ℕ
keys = 7 ∷ 8 ∷ 9 ∷ []

keys-IsDistinct : IsDistinct keys
keys-IsDistinct = (refl, (refl, (refl, tt)))

keys-HasKeys : HasKeys options keys keys-IsDistinct batch store.main
keys-HasKeys = (λ j q. ground (arith, q), λ j q. ground (arith, q))

save-count_example :
    ((save options batch store).count ≡ count_in keys (save options batch store).main)
    × ((remove options batch store).count ≡ count_in keys (remove options batch store).main)
save-count_example =
    save-count options keys keys-IsDistinct batch store store-IsKeyed options-KeepsKey keys-HasKeys
      refl
