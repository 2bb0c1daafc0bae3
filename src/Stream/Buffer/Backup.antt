-- ===== src/Stream/Buffer/Backup.antt =====
-- `StoreBackupDecoder` on what `StoreBackupEncoder` writes.
use aleph_indexer_framework.Prelude.{
  ℕ, ◌≡◌, ◌∙◌, refl, ap, false, List, [], ◌∷◌, ◌++◌, map, any, All, ◌==◌, arith,
}
use aleph_indexer_framework.Stream.Buffer.{concat, cons_char, split, decode, encode}
use aleph_indexer_framework.Stream.Buffer.Lines.{
  split-nil, split-newline, split-char, StartsCharacter, IsUtf8, decode_whole_characters,
}

module _ {ℓ} {T : Type ℓ} (newline : ℕ) (stringify : T → List ℕ) (parse : List ℕ → T) where
  split-line :
      (l rest : List ℕ)
      → any (λ c. c == newline) l ≡ false
      → split newline (l ++ newline ∷ rest) ≡ (l ∷ (split newline rest).0, (split newline rest).1)
  split-line [] rest h = split-newline newline newline rest (ground arith)
  split-line (c ∷ l) rest h =
      split-char newline c (l ++ newline ∷ rest) (ground (arith, h))
      ∙ ap (cons_char c) (split-line l rest (ground (arith, h)))

  split-encode :
      (es : List T)
      → ((e : T) → any (λ c. c == newline) (stringify e) ≡ false)
      → split newline (encode newline stringify es) ≡ (map stringify es, [])
  unfolding encode
  split-encode [] h = split-nil newline
  split-encode (e ∷ es) h =
      split-line (stringify e) (encode newline stringify es) (h e)
      ∙ ap (λ r. (stringify e ∷ r.0, r.1)) (split-encode es h)

  map-parse :
      (es : List T) → ((e : T) → parse (stringify e) ≡ e) → map parse (map stringify es) ≡ es
  map-parse [] p = refl
  map-parse (e ∷ es) p = rw (p e, map-parse es p)

  -- Where the text of an entity has no line break, and parses to the entity: for chunks of bytes that
  -- together are read as the text that the encoder writes, and each of which starts with a character, the
  -- lines that the decoder reads parse to the entities that were written, in order, and no text is left.
  pub decode-encode :
      (to_string : List ℕ → List ℕ) (es : List T) (chunks : List (List ℕ))
      → IsUtf8 to_string
      → ((e : T) → any (λ c. c == newline) (stringify e) ≡ false)
      → ((e : T) → parse (stringify e) ≡ e)
      → to_string (concat chunks) ≡ encode newline stringify es
      → All StartsCharacter chunks
      → (map parse (decode to_string newline [] chunks).0 ≡ es)
        × ((decode to_string newline [] chunks).1 ≡ [])
  decode-encode to_string es chunks u h p e starts =
      let q =
        decode_whole_characters to_string newline chunks u starts
        ∙ ap (split newline) e
        ∙ split-encode es h in
      (ap (λ r. map parse r.0) q ∙ map-parse es p, ap (λ r. r.1) q)
