-- ===== src/Storage/Entity/Flags.antt =====
-- What a save does to a Boolean reading of the entity under a key.
use aleph_indexer_framework.Prelude.{
  ℕ, ◌≡◌, ◌∙◌, refl, sym, ap, inl, inr, Bool, false, ◌&&◌, ◌||◌, ◌==◌, List, [], ◌∷◌, Option, none,
  some, any, arith, Bool-cases, ==_iff,
}
use aleph_indexer_framework.Storage.Entity.{
  EntityOptions, EntityStore, UpdateOp, keep, update, delete, checked, save,
}
use aleph_indexer_framework.Storage.Entity.Steps.{put_op, one_by_one, KeepsKey, IsKeyedStore}
use aleph_indexer_framework.Storage.Entity.Sequential.{save-one_by_one}

module _ {A : Type 0} (o : EntityOptions A) where
  put_op-IsKeyedStore :
      (v : ℕ → Option A) (k : ℕ) (r : UpdateOp × A)
      → o.primary_key r.1 ≡ k
      → IsKeyedStore o v
      → IsKeyedStore o (put_op o v k r)
  put_op-IsKeyedStore v k (keep, e) h hv j x q = hv j x q
  put_op-IsKeyedStore v k (update, e) h hv j x q = ground (arith, h, hv j x, q)
  put_op-IsKeyedStore v k (delete, e) h hv j x q = ground (arith, h, hv j x, q)

  one_by_one-IsKeyedStore :
      (op : UpdateOp) (es : List A) (v : ℕ → Option A)
      → KeepsKey o op
      → IsKeyedStore o v
      → IsKeyedStore o (one_by_one o op es v)
  unfolding one_by_one
  one_by_one-IsKeyedStore op [] v hk hv = hv
  one_by_one-IsKeyedStore op (e ∷ es) v hk hv =
      let k = o.primary_key e in
      one_by_one-IsKeyedStore op es (put_op o v k (checked o op (v k) e)) hk
        (put_op-IsKeyedStore v k (checked o op (v k) e) (hk (v k) e) hv)

  pub save-IsKeyedStore :
      (es : List A) (s : EntityStore A)
      → KeepsKey o update
      → IsKeyedStore o s.main
      → IsKeyedStore o (save o es s).main
  save-IsKeyedStore es s hk hs j x q =
      one_by_one-IsKeyedStore update es s.main hk hs j x (sym (save-one_by_one o es s j hs hk) ∙ q)

  -- What stands under the key after one entity.
  abbrev pub after : Option A → UpdateOp × A → Option A
  after old (keep, e) = old
  after old (update, e) = some e
  after old (delete, e) = none

  put_op-after :
      (v : ℕ → Option A) (k : ℕ) (r : UpdateOp × A) (j : ℕ)
      → (j ≡ k → put_op o v k r j ≡ after (v j) r) × ((j == k) ≡ false → put_op o v k r j ≡ v j)
  put_op-after v k (keep, e) j = (λ p. refl, λ p. refl)
  put_op-after v k (update, e) j = (λ p. ground (arith, p), λ p. ground (arith, p))
  put_op-after v k (delete, e) j = (λ p. ground (arith, p), λ p. ground (arith, p))

  -- A reading that each entity under the key can only raise.
  module _ (f : Option A → Bool) (g : A → Bool)
      (raise : (old : Option A) (e : A)
        → f (after old (checked o update old e)) ≡ (f old || g e)) where
    one_by_one_flag :
        (es : List A) (v : ℕ → Option A) (j : ℕ)
        → f (one_by_one o update es v j) ≡ (f (v j) || any (λ e. (j == o.primary_key e) && g e) es)
    unfolding one_by_one
    one_by_one_flag [] v j = ground arith
    one_by_one_flag (e ∷ es) v j =
        let k = o.primary_key e in
        let r = checked o update (v k) e in
        let (hit, miss) = put_op-after v k r j in
        let rest = one_by_one_flag es (put_op o v k r) j in
        elim (Bool-cases (j == k)) [
          | inl q ↦
              let same = (==_iff j k).0 q in
              let now =
                ap f (hit same)
                ∙ ap (λ i. f (after (v i) r)) same
                ∙ raise (v k) e
                ∙ ap (λ i. f (v i) || g e) (sym same) in
              rest ∙ ground (arith, now, q)
          | inr q ↦ rest ∙ ground (arith, ap f (miss q), q)
        ]

    pub save_flag :
        (es : List A) (s : EntityStore A) (j : ℕ)
        → IsKeyedStore o s.main
        → KeepsKey o update
        → f ((save o es s).main j) ≡ (f (s.main j) || any (λ e. (j == o.primary_key e) && g e) es)
    save_flag es s j hs hk = ap f (save-one_by_one o es s j hs hk) ∙ one_by_one_flag es s.main j
