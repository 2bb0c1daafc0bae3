-- ===== src/Common.antt =====
-- Helpers of packages/core/src/utils/common.ts on lists, and the nonces of
-- packages/framework/src/services/indexer/src/nonce.ts. A key is a number, of which only equality is
-- used.
pub mod Sets
use aleph_indexer_framework.Prelude.{
  ℕ, ◌+◌, Bool, true, false, not, ◌||◌, List, [], ◌∷◌, ◌++◌, any, keep, length, ltb, leb, ◌==◌,
  if◌then◌else◌,
}

module _ {ℓ} {T : Type ℓ} (get_key : T → ℕ) where
  -- listMap: whether the map has a key.
  abbrev pub list_map : List T → ℕ → Bool
  list_map a k = any (λ x. get_key x == k) a

  -- listMinMaxMap: the shorter list and the longer one.
  abbrev pub list_min_max : List T → List T → List T × List T
  list_min_max a b = if ltb (length a) (length b) then (a, b) else (b, a)

  pub list_intersection : List T → List T → List T
  list_intersection a b =
      let (min, max) = list_min_max a b in keep (λ x. list_map min (get_key x)) max

  pub list_dedup : List T → List T → List T
  list_dedup a b =
      let (min, max) = list_min_max a b in min ++ keep (λ x. not (list_map min (get_key x))) max

  pub list_substraction : List T → List T → List T
  list_substraction a b = keep (λ x. not (list_map b (get_key x))) a

-- NonceTimestamp.get at each of the times that the clock shows.
abbrev pub nonce : ℕ → ℕ → ℕ
nonce last now = if leb now last then last + 1 else now

pub nonces : ℕ → List ℕ → List ℕ
nonces last [] = []
nonces last (now ∷ times) = nonce last now ∷ nonces (nonce last now) times
