-- ===== src/Stream/Examples.antt =====
-- The properties of the streams and buffers at concrete sources.
use mathlib.Core.List.{Perm}
use aleph_indexer_framework.Prelude.{
  ℕ, ◌+◌, ◌-◌, ◌*◌, ◌≡◌, ◌⊎◌, ◌&&◌, true, List, [], ◌∷◌, ◌++◌, Option, none, some, leb, ltb,
  if◌then◌else◌, arith, refl, Bool, false, any, ◌==◌, map,
}
use aleph_indexer_framework.Stream.Buffer.{split, decode, encode}
use aleph_indexer_framework.Stream.Buffer.Lines.{StartsCharacter, IsUtf8}
use aleph_indexer_framework.Stream.Buffer.Backup.{decode-encode}
use aleph_indexer_framework.Stream.Shuffle.{
  merge_streams, merge_shuffled_streams, count, merge_shuffled_streams-total,
}
use aleph_indexer_framework.Stream.Merge.{merge_shuffled_sorted_streams}
use aleph_indexer_framework.Stream.Merge.Sorted.{IsOrder, IsSorted}
use aleph_indexer_framework.Stream.Merge.Total.{all_values, merge_shuffled_sorted_streams-total}

leb_total : (a b : ℕ) → (leb a b ≡ true) ⊎ (leb b a ≡ true)
leb_total a b = grind arith

leb_trans : (a b c : ℕ) → leb a b ≡ true → leb b c ≡ true → leb a c ≡ true
leb_trans a b c h k = ground arith

leb-IsOrder : IsOrder leb
leb-IsOrder = record { total = leb_total; trans = leb_trans }

abbrev sources : List (List ℕ)
sources = (1 ∷ 4 ∷ 9 ∷ []) ∷ [] ∷ (2 ∷ 4 ∷ []) ∷ (0 ∷ 10 ∷ []) ∷ []

merge_shuffled_sorted_streams-total_example :
    (out : List ℕ) × (merge_shuffled_sorted_streams leb sources ≡ some out)
    × IsSorted leb out
    × Perm out (all_values sources)
merge_shuffled_sorted_streams-total_example =
    merge_shuffled_sorted_streams-total leb leb-IsOrder sources (ground arith)

abbrev inputs : List (List ℕ)
inputs = (1 ∷ 2 ∷ []) ∷ [] ∷ (3 ∷ []) ∷ (4 ∷ 5 ∷ 6 ∷ []) ∷ []

abbrev three : List ℕ
three = 1 ∷ 2 ∷ 3 ∷ []

-- The utf8 of characters of one and two bytes; a byte that fits nowhere is the replacement character.
abbrev continues : ℕ → Bool
continues b = leb 128 b && ltb b 192

abbrev leads : ℕ → Bool
leads b = leb 192 b && ltb b 224

abbrev single : ℕ → ℕ
single b = if ltb b 128 then b else 65533

-- The first argument is the byte before, where it leads.
text_from : Option ℕ → List ℕ → List ℕ
text_from none [] = []
text_from (some l) [] = 65533 ∷ []
text_from none (b ∷ bs) =
    let led = text_from (some b) bs in
    let rest = text_from none bs in if leads b then led else single b ∷ rest
text_from (some l) (b ∷ bs) =
    let led = text_from (some b) bs in
    let rest = text_from none bs in
    if continues b
    then ((l - 192) * 64 + (b - 128)) ∷ rest
    else 65533 ∷ (if leads b then led else single b ∷ rest)

text_from-append :
    (o : Option ℕ) (xs ys : List ℕ)
    → StartsCharacter ys
    → text_from o (xs ++ ys) ≡ text_from o xs ++ text_from none ys
unfolding text_from
text_from-append none [] ys h = refl
text_from-append (some l) [] [] h = refl
text_from-append (some l) [] (b ∷ bs) h = ground (arith, h)
text_from-append none (x ∷ xs) ys h =
    ground (arith, text_from-append (some x) xs ys h, text_from-append none xs ys h)
text_from-append (some l) (x ∷ xs) ys h =
    ground (arith, text_from-append (some x) xs ys h, text_from-append none xs ys h)

text-IsUtf8 : IsUtf8 (text_from none)
text-IsUtf8 = record { empty = unfold text_from in refl; append = text_from-append none }

-- The same character cut by the end of a chunk is lost.
cut_character :
    (decode (text_from none) 10 [] ((195 ∷ []) ∷ (169 ∷ 10 ∷ []) ∷ [])).0
    ≡ (65533 ∷ 65533 ∷ []) ∷ []
unfolding decode split text_from
cut_character = refl

-- An entity is a truth value, written as a character of two bytes or of one.
abbrev bit : Bool → List ℕ
bit true = 233 ∷ []
bit false = 48 ∷ []

abbrev parse_bit : List ℕ → Bool
parse_bit [] = false
parse_bit (c ∷ cs) = c == 233

bit-one_line : (b : Bool) → any (λ c. c == 10) (bit b) ≡ false
bit-one_line true = refl
bit-one_line false = refl

parse_bit-bit : (b : Bool) → parse_bit (bit b) ≡ b
parse_bit-bit true = refl
parse_bit-bit false = refl

abbrev pieces : List (List ℕ)
pieces = (195 ∷ 169 ∷ []) ∷ (10 ∷ 48 ∷ 10 ∷ []) ∷ []

decode-encode_example :
    (map parse_bit (decode (text_from none) 10 [] pieces).0 ≡ true ∷ false ∷ [])
    × ((decode (text_from none) 10 [] pieces).1 ≡ [])
unfolding encode text_from
decode-encode_example =
    decode-encode 10 bit parse_bit (text_from none) (true ∷ false ∷ []) pieces text-IsUtf8
      bit-one_line parse_bit-bit refl ((λ h. omega (arith, h)), ((λ h. omega (arith, h)), tt))

merge_shuffled_streams-total_example :
    (out : List ℕ) × (merge_shuffled_streams inputs ≡ some out)
    × ((p : ℕ → Bool) → count p out ≡ count p (merge_streams inputs))
merge_shuffled_streams-total_example = merge_shuffled_streams-total inputs
