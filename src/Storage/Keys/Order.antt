-- ===== src/Storage/Keys/Order.antt =====
-- The order of the keys of packages/core/src/storage/entityIndexStorage.ts that are numbers.
use native.Mathlib.Nat.{pow-suc}
use aleph_indexer_framework.Prelude.{
  ℕ, zero, suc, ◌+◌, ◌-◌, ◌/◌, ◌%◌, ◌^◌, ◌≤◌, ◌<◌, ◌≡◌, ◌∙◌, refl, sym, ap, inl, inr, true, false,
  ◌&&◌, ◌||◌, List, [], ◌∷◌, ◌++◌, map, length, length-append, ltb, ◌==◌, if◌then◌else◌, arith,
  Bool-cases, append_assoc,
}
use aleph_indexer_framework.Time.Decimal.{decimal, decimal_from, same_text}
use aleph_indexer_framework.Storage.Keys.{
  min_char, max_char, KeyChunkSchema, text, repeated, pad_start, fill_key, cut_key, pad_key,
  get_key_chunk, text_before,
}

before-snoc :
    (xs ys : List ℕ) (c d : ℕ)
    → length xs ≡ length ys
    → text_before (xs ++ c ∷ []) (ys ++ d ∷ [])
      ≡ (text_before xs ys || (same_text xs ys && ltb c d))
unfolding text_before same_text
before-snoc [] [] c d e = ground arith
before-snoc (x ∷ xs) (y ∷ ys) c d e = ground (arith, before-snoc xs ys c d (omega (arith, e)))
before-snoc [] (y ∷ ys) c d e = absurd (omega (arith, e))
before-snoc (x ∷ xs) [] c d e = absurd (omega (arith, e))

same-snoc :
    (xs ys : List ℕ) (c d : ℕ)
    → length xs ≡ length ys
    → same_text (xs ++ c ∷ []) (ys ++ d ∷ []) ≡ (same_text xs ys && (c == d))
unfolding same_text
same-snoc [] [] c d e = ground arith
same-snoc (x ∷ xs) (y ∷ ys) c d e = ground (arith, same-snoc xs ys c d (omega (arith, e)))
same-snoc [] (y ∷ ys) c d e = absurd (omega (arith, e))
same-snoc (x ∷ xs) [] c d e = absurd (omega (arith, e))

-- The last character of the padded text, where 0 is written as padding.
abbrev last_char : ℕ → ℕ
last_char n = if n == 0 then min_char else 48 + n % 10

padded : ℕ → ℕ → List ℕ
padded zero n = []
padded (suc k) n = padded k (n / 10) ++ last_char n ∷ []

length-padded : (k n : ℕ) → length (padded k n) ≡ k
unfolding padded
length-padded zero n = refl
length-padded (suc k) n =
    omega (arith, length-append (padded k (n / 10)) (last_char n ∷ []), length-padded k (n / 10))

padded-order :
    (k a b : ℕ)
    → a < 10 ^ k
    → b < 10 ^ k
    → (text_before (padded k a) (padded k b) ≡ ltb a b)
      × (same_text (padded k a) (padded k b) ≡ (a == b))
unfolding padded text_before same_text
padded-order zero a b h h' = (ground (arith, h, h'), ground (arith, h, h'))
padded-order (suc k) a b h h' =
    let p = pow-suc 10 k in
    let low : a / 10 < 10 ^ k = omega (arith, p, h) in
    let low' : b / 10 < 10 ^ k = omega (arith, p, h') in
    let (q, q') = padded-order k (a / 10) (b / 10) low low' in
    let e = length-padded k (a / 10) ∙ sym (length-padded k (b / 10)) in
    (
      before-snoc (padded k (a / 10)) (padded k (b / 10)) (last_char a) (last_char b) e
          ∙ ground (arith, q, q'),
      same-snoc (padded k (a / 10)) (padded k (b / 10)) (last_char a) (last_char b) e
          ∙ ground (arith, q'),
    )

repeated-snoc : (k c : ℕ) → repeated (suc k) c ≡ repeated k c ++ c ∷ []
unfolding repeated
repeated-snoc zero c = refl
repeated-snoc (suc k) c = ap (λ cs. c ∷ cs) (repeated-snoc k c)

padded-zero : (k : ℕ) → padded k 0 ≡ repeated k min_char
unfolding padded repeated
padded-zero zero = refl
padded-zero (suc k) =
    ap (λ cs. cs ++ min_char ∷ []) (padded-zero k) ∙ sym (repeated-snoc k min_char)

pad_start-snoc :
    (k : ℕ) (xs : List ℕ) (c : ℕ) → pad_start (suc k) (xs ++ c ∷ []) ≡ pad_start k xs ++ c ∷ []
pad_start-snoc k xs c =
    ap (λ n. repeated n min_char ++ (xs ++ c ∷ [])) (omega (arith, length-append xs (c ∷ [])))
    ∙ sym (append_assoc (repeated (k - length xs) min_char) xs (c ∷ []))

map-snoc :
    (xs : List ℕ) (d : ℕ) → map (λ e. 48 + e) (xs ++ d ∷ []) ≡ map (λ e. 48 + e) xs ++ (48 + d) ∷ []
map-snoc [] d = refl
map-snoc (x ∷ xs) d = ap (λ cs. (48 + x) ∷ cs) (map-snoc xs d)

-- The text of a number, padded, and its length.
abbrev digits : ℕ → ℕ → List ℕ
digits f n = map (λ d. 48 + d) (decimal_from f n)

digits-small : (f n : ℕ) → ltb n 10 ≡ true → digits (suc f) n ≡ (48 + n) ∷ []
unfolding decimal_from
digits-small f n e = rw e

digits-large :
    (f n : ℕ) → ltb n 10 ≡ false → digits (suc f) n ≡ digits f (n / 10) ++ (48 + n % 10) ∷ []
unfolding decimal_from
digits-large f n e = rw e (map-snoc (decimal_from f (n / 10)) (n % 10))

digits-pad_small :
    (f k n : ℕ)
    → ltb n 10 ≡ true
    → (pad_start (suc k) (digits (suc f) n) ≡ padded k (n / 10) ++ (48 + n % 10) ∷ [])
      × (length (digits (suc f) n) ≤ suc k)
digits-pad_small f k n e =
    let t = digits-small f n e in
    let quotient : 0 ≡ n / 10 = ground (arith, e) in
    let rest : n ≡ n % 10 = ground (arith, e) in
    (
      ap (pad_start (suc k)) t
          ∙ ap (λ cs. cs ++ (48 + n) ∷ [])
              (ap (λ j. repeated j min_char) (omega arith) ∙ sym (padded-zero k))
          ∙ ap (λ m. padded k m ++ (48 + n) ∷ []) quotient
          ∙ ap (λ m. padded k (n / 10) ++ (48 + m) ∷ []) rest,
      omega (arith, ap length t),
    )

padded-digits :
    (f k n : ℕ)
    → n < f
    → n < 10 ^ suc k
    → (pad_start (suc k) (digits f n) ≡ padded k (n / 10) ++ (48 + n % 10) ∷ [])
      × (length (digits f n) ≤ suc k)
unfolding padded
padded-digits zero k n h l = absurd (omega (arith, h))
padded-digits (suc f) zero n h l = digits-pad_small f zero n (ground (arith, l, pow-suc 10 zero))
padded-digits (suc f) (suc k) n h l = elim (Bool-cases (ltb n 10)) [
  | inl e ↦ digits-pad_small f (suc k) n e
  | inr e ↦
      let t = digits-large f n e in
      let (q, short) =
        padded-digits f k (n / 10) (ground (arith, h, e)) (omega (arith, l, pow-suc 10 (suc k))) in
      let c = 48 + n % 10 in
      (
        ap (pad_start (suc (suc k))) t
            ∙ pad_start-snoc (suc k) (digits f (n / 10)) c
            ∙ ap (λ cs. cs ++ c ∷ []) q
            ∙ ap (λ m. (padded k (n / 10 / 10) ++ m ∷ []) ++ c ∷ []) (ground (arith, e)),
        omega (arith, ap length t, length-append (digits f (n / 10)) (c ∷ []), short),
      )
]

-- A text that is one character long at least and ends with another character than `p` is not `p`.
same-single : (xs : List ℕ) (c p : ℕ) → (c == p) ≡ false → same_text (xs ++ c ∷ []) (p ∷ []) ≡ false
unfolding same_text
same-single [] c p e = ground (arith, e)
same-single (x ∷ []) c p e = ground arith
same-single (x ∷ y ∷ xs) c p e = ground arith

digits-single : (f n p : ℕ) → n < f → (48 ≤ p → 57 < p) → same_text (digits f n) (p ∷ []) ≡ false
digits-single zero n p h k = absurd (omega (arith, h))
digits-single (suc f) n p h k = elim (Bool-cases (ltb n 10)) [
  | inl e ↦
      ap (λ cs. same_text cs (p ∷ [])) (digits-small f n e)
      ∙ same-single [] (48 + n) p (ground (arith, e, k))
  | inr e ↦
      ap (λ cs. same_text cs (p ∷ [])) (digits-large f n e)
      ∙ same-single (digits f (n / 10)) (48 + n % 10) p (ground (arith, k))
]

filled :
    (schema : KeyChunkSchema) (cs : List ℕ)
    → same_text cs (min_char ∷ []) ≡ false
    → same_text cs (max_char ∷ []) ≡ false
    → fill_key schema cs ≡ cs
filled schema cs low high = rw (low, high)

uncut : (schema : KeyChunkSchema) (cs : List ℕ) → length cs ≤ schema.length → cut_key schema cs ≡ cs
uncut schema cs short = ground (arith, short)

pad_short :
    (n : ℕ) (cs : List ℕ)
    → length cs ≤ n
    → pad_key (record { length = n; pad_end = false }) cs ≡ pad_start n cs
unfolding repeated
pad_short n cs short = elim (Bool-cases (ltb (length cs) n)) [
  | inl e ↦ rw e
  | inr e ↦ rw e (ap (λ j. repeated j min_char ++ cs) (the_rest e))
]
  where
    the_rest : ltb (length cs) n ≡ false → 0 ≡ n - length cs
    the_rest e = ground (arith, e, short)

-- The chunk of a number of at most so many digits.
number_chunk :
    (k n : ℕ)
    → n < 10 ^ suc k
    → get_key_chunk (record { length = suc k; pad_end = false }) (text n)
      ≡ padded k (n / 10) ++ (48 + n % 10) ∷ []
unfolding get_key_chunk decimal
number_chunk k n l =
    let schema : KeyChunkSchema = record { length = suc k; pad_end = false } in
    let cs = digits (suc n) n in
    let (q, short) = padded-digits (suc n) k n (omega arith) l in
    let low = digits-single (suc n) n min_char (omega arith) (λ h. omega (arith, h)) in
    let high = digits-single (suc n) n max_char (omega arith) (λ h. omega arith) in
    ap (λ ds. pad_key schema (cut_key schema ds)) (filled schema cs low high)
    ∙ ap (pad_key schema) (uncut schema cs short)
    ∙ pad_short (suc k) cs short
    ∙ q

-- For numbers of at most `suc k` digits, in chunks of that length that are padded at the start: each
-- chunk has the full length, the order of the chunks as texts is that of the numbers, and the chunks
-- are the same just if the numbers are.
pub get_key_chunk-order :
    (k a b : ℕ)
    → a < 10 ^ suc k
    → b < 10 ^ suc k
    → let chunk = λ (n : ℕ). get_key_chunk (record { length = suc k; pad_end = false }) (text n) in
      (length (chunk a) ≡ suc k)
      × (text_before (chunk a) (chunk b) ≡ ltb a b)
      × (same_text (chunk a) (chunk b) ≡ (a == b))
get_key_chunk-order k a b h h' =
    let p = pow-suc 10 k in
    let ca = number_chunk k a h in
    let cb = number_chunk k b h' in
    let (q, q') = padded-order k (a / 10) (b / 10) (omega (arith, p, h)) (omega (arith, p, h')) in
    let e = length-padded k (a / 10) ∙ sym (length-padded k (b / 10)) in
    (
      ap length ca
          ∙ omega (
            arith,
            length-append (padded k (a / 10)) ((48 + a % 10) ∷ []),
            length-padded k (a / 10),
          ),
      ap
            (λ xs.
              text_before xs (get_key_chunk (record { length = suc k; pad_end = false }) (text b)))
            ca
          ∙ ap (text_before (padded k (a / 10) ++ (48 + a % 10) ∷ [])) cb
          ∙ before-snoc (padded k (a / 10)) (padded k (b / 10)) (48 + a % 10) (48 + b % 10) e
          ∙ ground (arith, q, q'),
      ap (λ xs. same_text xs (get_key_chunk (record { length = suc k; pad_end = false }) (text b)))
            ca
          ∙ ap (same_text (padded k (a / 10) ++ (48 + a % 10) ∷ [])) cb
          ∙ same-snoc (padded k (a / 10)) (padded k (b / 10)) (48 + a % 10) (48 + b % 10) e
          ∙ ground (arith, q'),
    )
