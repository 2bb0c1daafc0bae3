-- ===== src/Stream/Buffer/Lines.antt =====
-- The lines of `StoreBackupDecoder`, and the chunks that they come in.
use aleph_indexer_framework.Prelude.{
  ℕ, ◌≤◌, All, map, ◌≡◌, ◌∙◌, refl, sym, ap, subst, inl, inr, true, false, List, [], ◌∷◌, ◌++◌,
  append-nil, append_assoc, ◌==◌, Bool-cases,
}
use aleph_indexer_framework.Stream.Buffer.{concat, cons_char, split, decode}

module _ (newline : ℕ) where
  pub split-nil : split newline [] ≡ ([], [])
  unfolding split
  split-nil = refl

  pub split-newline :
      (c : ℕ) (cs : List ℕ)
      → (c == newline) ≡ true
      → split newline (c ∷ cs) ≡ ([] ∷ (split newline cs).0, (split newline cs).1)
  unfolding split
  split-newline c cs h = rw h

  pub split-char :
      (c : ℕ) (cs : List ℕ)
      → (c == newline) ≡ false
      → split newline (c ∷ cs) ≡ cons_char c (split newline cs)
  unfolding split
  split-char c cs h = rw h

  -- What is behind the last separator has none.
  cons_char-last :
      (c : ℕ) (r : List (List ℕ) × List ℕ)
      → (c == newline) ≡ false
      → split newline r.1 ≡ ([], r.1)
      → split newline (cons_char c r).1 ≡ ([], (cons_char c r).1)
  cons_char-last c ([], last) h e = split-char c last h ∙ ap (cons_char c) e
  cons_char-last c (l ∷ ls, last) h e = e

  split-last : (cs : List ℕ) → split newline (split newline cs).1 ≡ ([], (split newline cs).1)
  unfolding split
  split-last [] = refl
  split-last (c ∷ cs) = elim (Bool-cases (c == newline)) [
    | inl h ↦
        subst (λ r. split newline r.1 ≡ ([], r.1)) (sym (split-newline c cs h)) (split-last cs)
    | inr h ↦
        subst (λ r. split newline r.1 ≡ ([], r.1)) (sym (split-char c cs h))
          (cons_char-last c (split newline cs) h (split-last cs))
  ]

  -- The lines of a text, and then those of what it leaves with the text behind it.
  abbrev then_split : List (List ℕ) × List ℕ → List ℕ → List (List ℕ) × List ℕ
  then_split r ys = (r.0 ++ (split newline (r.1 ++ ys)).0, (split newline (r.1 ++ ys)).1)

  cons_char-then :
      (c : ℕ) (r : List (List ℕ) × List ℕ) (ys : List ℕ)
      → (c == newline) ≡ false
      → cons_char c (then_split r ys) ≡ then_split (cons_char c r) ys
  cons_char-then c ([], last) ys h = sym (split-char c (last ++ ys) h)
  cons_char-then c (l ∷ ls, last) ys h = refl

  split-append : (xs ys : List ℕ) → split newline (xs ++ ys) ≡ then_split (split newline xs) ys
  unfolding split
  split-append [] ys = refl
  split-append (c ∷ xs) ys = elim (Bool-cases (c == newline)) [
    | inl h ↦
        split-newline c (xs ++ ys) h
        ∙ ap (λ r. ([] ∷ r.0, r.1)) (split-append xs ys)
        ∙ ap (λ r. then_split r ys) (sym (split-newline c xs h))
    | inr h ↦
        split-char c (xs ++ ys) h
        ∙ ap (cons_char c) (split-append xs ys)
        ∙ cons_char-then c (split newline xs) ys h
        ∙ ap (λ r. then_split r ys) (sym (split-char c xs h))
  ]

-- A byte from 128 to 191 continues a character of utf8, and any other byte starts one.
abbrev pub StartsCharacter : List ℕ → Type 0
StartsCharacter [] = Unit
StartsCharacter (b ∷ bs) = 128 ≤ b → 192 ≤ b

-- What is relied on of `toString`, also where the bytes are no utf8: bytes behind which a character starts
-- have a text that does not depend on the bytes that follow.
pub record IsUtf8 (to_string : List ℕ → List ℕ) : Type 0 where
  pub empty : to_string [] ≡ []
  pub append :
      (xs ys : List ℕ) → StartsCharacter ys → to_string (xs ++ ys) ≡ to_string xs ++ to_string ys

concat-StartsCharacter :
    (chunks : List (List ℕ)) → All StartsCharacter chunks → StartsCharacter (concat chunks)
concat-StartsCharacter [] h = tt
concat-StartsCharacter ([] ∷ chunks) h = concat-StartsCharacter chunks h.1
concat-StartsCharacter ((b ∷ bs) ∷ chunks) h = h.0

module _ (to_string : List ℕ → List ℕ) (newline : ℕ) where
  decode_from :
      (last : List ℕ) (chunks : List (List ℕ))
      → split newline last ≡ ([], last)
      → decode to_string newline last chunks ≡ split newline (last ++ concat (map to_string chunks))
  unfolding decode
  decode_from last [] h = sym (ap (split newline) (append-nil last) ∙ h)
  decode_from last (chunk ∷ chunks) h =
      let text = to_string chunk in
      let r = split newline (last ++ text) in
      let later = decode_from r.1 chunks (split-last newline (last ++ text)) in
      ap (λ u. (r.0 ++ u.0, u.1)) later
      ∙ sym (split-append newline (last ++ text) (concat (map to_string chunks)))
      ∙ ap (split newline) (append_assoc last text (concat (map to_string chunks)))

  texts_joined :
      (chunks : List (List ℕ))
      → IsUtf8 to_string
      → All StartsCharacter chunks
      → concat (map to_string chunks) ≡ to_string (concat chunks)
  texts_joined [] u h = sym u.empty
  texts_joined (chunk ∷ chunks) u h =
      ap (λ cs. to_string chunk ++ cs) (texts_joined chunks u h.1)
      ∙ sym (u.append chunk (concat chunks) (concat-StartsCharacter chunks h.1))

  pub decode_whole_characters :
      (chunks : List (List ℕ))
      → IsUtf8 to_string
      → All StartsCharacter chunks
      → decode to_string newline [] chunks ≡ split newline (to_string (concat chunks))
  decode_whole_characters chunks u h =
      decode_from [] chunks (split-nil newline) ∙ ap (split newline) (texts_joined chunks u h)
