-- ===== src/Stream/Buffer/Batches.antt =====
-- The batches of the three buffers.
use aleph_indexer_framework.Prelude.{
  ℕ, zero, suc, ◌≤◌, ◌<◌, ◌≡◌, ◌∙◌, refl, sym, ap, inl, inr, false, List, [], ◌∷◌, ◌++◌, append-nil,
  append_assoc, some, length, take, drop, take-append-drop, length-append, length-take, length-drop,
  leb, ◌==◌, ◌%◌, All, arith, Bool-cases, ==_iff,
}
use native.Mathlib.Nat.{mod_self}
use aleph_indexer_framework.Stream.Buffer.{
  is_full, add_chunk, concat, flush, stream_buffer, store_buffer_save, drain_chunks,
  stream_un_buffer,
}

module _ {ℓ} {T : Type ℓ} where
  concat-flush : (xs : List T) → concat (flush xs) ≡ xs
  concat-flush [] = refl
  concat-flush (x ∷ xs) = append-nil _

  concat-append : (xss yss : List (List T)) → concat (xss ++ yss) ≡ concat xss ++ concat yss
  concat-append [] yss = refl
  concat-append (xs ∷ xss) yss = simp (concat-append xss yss, append_assoc)

  concat-stream_buffer :
      (size : ℕ) (buffer : List T) (inputs : List (List T))
      → concat (stream_buffer size buffer inputs) ≡ buffer ++ concat inputs
  unfolding stream_buffer
  concat-stream_buffer size buffer [] = concat-flush buffer ∙ sym (append-nil buffer)
  concat-stream_buffer size buffer (input ∷ inputs) =
      let b = buffer ++ input in
      elim (Bool-cases (leb size (length b))) [
        | inl h ↦ rw h (
            concat-append (flush b) (stream_buffer size [] inputs)
            ∙ simp (concat-flush b, concat-stream_buffer size [] inputs, append_assoc))
        | inr h ↦ rw h (concat-stream_buffer size b inputs ∙ simp append_assoc)
      ]

  -- A stream that is buffered and unbuffered again yields the items of its inputs, in their order,
  -- whatever the size of the buffer.
  pub stream_un_buffer-stream_buffer :
      (size : ℕ) (inputs : List (List T))
      → stream_un_buffer (stream_buffer size [] inputs) ≡ concat inputs
  stream_un_buffer-stream_buffer size inputs = concat-stream_buffer size [] inputs

  -- A batch is not empty, and not above the size.
  abbrev pub IsBatch : ℕ → List T → Type 0
  IsBatch size xs = (1 ≤ length xs) × (length xs ≤ size)

  flush-IsBatch : (n : ℕ) (xs : List T) → length xs ≤ n → All (IsBatch n) (flush xs)
  flush-IsBatch n [] h = tt
  flush-IsBatch n (x ∷ xs) h = ((omega arith, h), tt)

  not_full : (n : ℕ) (b : List T) → is_full n b ≡ false → length b ≤ n → length b < n
  not_full n b h l = elim (Bool-cases (length b == n)) [
    | inl e ↦
        let same = (==_iff (length b) n).0 e in
        let none_left = ap (λ u. u % n) same ∙ mod_self n in ground arith
    | inr e ↦ ground arith
  ]

  store_buffer-batches :
      (n : ℕ) (buffer es : List T)
      → length buffer < n
      → (concat (store_buffer_save n buffer es) ≡ buffer ++ es)
        × All (IsBatch n) (store_buffer_save n buffer es)
  unfolding store_buffer_save
  store_buffer-batches n buffer [] h =
      (concat-flush buffer ∙ sym (append-nil buffer), flush-IsBatch n buffer (omega arith))
  store_buffer-batches n buffer (e ∷ es) h =
      let b = buffer ++ e ∷ [] in
      let l = length-append buffer (e ∷ []) in
      elim (Bool-cases (is_full n b)) [
        | inl q ↦
            let (c, a) = store_buffer-batches n [] es (omega arith) in
            rw q
              (ap (λ zs. b ++ zs) c ∙ simp append_assoc, ((omega (arith, l), omega (arith, l)), a))
        | inr q ↦
            let (c, a) = store_buffer-batches n b es (not_full n b q (omega (arith, l))) in
            rw q (c ∙ simp append_assoc, a)
      ]

  -- For a positive buffer length: the batches that are saved are the entities that were written, in
  -- order, and each holds at least one entity and at most the buffer length.
  pub store_buffer_save-batches :
      (n : ℕ) (es : List T)
      → 1 ≤ n
      → (concat (store_buffer_save n [] es) ≡ es) × All (IsBatch n) (store_buffer_save n [] es)
  store_buffer_save-batches n es h = store_buffer-batches n [] es (omega arith)

  -- For a positive size and as much fuel as there are items: the loop of `drain` ends, and gives out
  -- the items, in order, in chunks of at least one item and at most the size.
  pub drain_chunks-total :
      (size fuel : ℕ) (xs : List T)
      → 1 ≤ size
      → length xs ≤ fuel
      → (chunks : List (List T)) × (drain_chunks size fuel xs ≡ some chunks)
        × (concat chunks ≡ xs)
        × All (IsBatch size) chunks
  unfolding drain_chunks
  drain_chunks-total size fuel [] h l = ([], refl, refl, tt)
  drain_chunks-total size zero (x ∷ xs) h l = ground arith
  drain_chunks-total size (suc fuel) (x ∷ xs) h l =
      let rest = drop size (x ∷ xs) in
      let (chunks, e, c, a) =
        drain_chunks-total size fuel rest h (omega (arith, length-drop size (x ∷ xs))) in
      (
        take size (x ∷ xs) ∷ chunks,
        ap (add_chunk (take size (x ∷ xs))) e,
        ap (λ zs. take size (x ∷ xs) ++ zs) c ∙ take-append-drop size (x ∷ xs),
        ((omega (arith, length-take size (x ∷ xs)), omega (arith, length-take size (x ∷ xs))), a),
      )
