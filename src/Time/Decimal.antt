-- ===== src/Time/Decimal.antt =====
-- Numbers as JavaScript prints them in a template literal: the decimal digits, the highest first.
use native.Mathlib.Nat.{pow-suc}
use aleph_indexer_framework.Prelude.{
  ℕ, zero, suc, ◌+◌, ◌*◌, ◌/◌, ◌%◌, ◌^◌, ◌≤◌, ◌<◌, ◌≡◌, refl, ap, ◌∙◌, sym, Bool, true, false, ◌&&◌,
  List, [], ◌∷◌, ◌++◌, inl, inr, arith, ltb, ◌==◌, if◌then◌else◌, length, length-append, Bool-cases,
}

-- The first argument is fuel: more than the number is enough.
unfoldable pub decimal_from : ℕ → ℕ → List ℕ
decimal_from zero n = []
decimal_from (suc f) n =
    let rest = decimal_from f (n / 10) in if ltb n 10 then n ∷ [] else rest ++ (n % 10) ∷ []

unfoldable pub decimal : ℕ → List ℕ
unfolding decimal_from
decimal n = decimal_from (suc n) n

-- The number that a text of digits stands for.
value_from : ℕ → List ℕ → ℕ
value_from acc [] = acc
value_from acc (d ∷ ds) = value_from (acc * 10 + d) ds

pub value : List ℕ → ℕ
value ds = value_from 0 ds

value_from-append :
    (acc : ℕ) (xs ys : List ℕ) → value_from acc (xs ++ ys) ≡ value_from (value_from acc xs) ys
unfolding value_from
value_from-append acc [] ys = refl
value_from-append acc (x ∷ xs) ys = value_from-append (acc * 10 + x) xs ys

value-snoc : (xs : List ℕ) (d : ℕ) → value (xs ++ d ∷ []) ≡ value xs * 10 + d
unfolding value value_from
value-snoc xs d = value_from-append 0 xs (d ∷ [])

value-decimal_from : (f n : ℕ) → n < f → value (decimal_from f n) ≡ n
unfolding decimal_from
value-decimal_from zero n h = absurd (omega arith)
value-decimal_from (suc f) n h = elim (Bool-cases (ltb n 10)) [
  | inl small ↦ rw small (unfold value value_from in omega arith)
  | inr large ↦
      rw
        (
          large,
          value-snoc (decimal_from f (n / 10)) (n % 10),
          value-decimal_from f (n / 10) (ground arith),
        )
        (omega arith)
]

pub value-decimal : (n : ℕ) → value (decimal n) ≡ n
unfolding decimal
value-decimal n = value-decimal_from (suc n) n (omega arith)

pow_pos : (k : ℕ) → 0 < 10 ^ k
pow_pos zero = omega arith
pow_pos (suc k) = rw (pow-suc 10 k) (omega (arith, pow_pos k))

length-decimal_from :
    (k f n : ℕ) → n < f → 10 ^ k ≤ n → n < 10 ^ suc k → length (decimal_from f n) ≡ suc k
unfolding decimal_from
length-decimal_from k zero n h lo hi = absurd (omega arith)
length-decimal_from zero (suc f) n h lo hi = ground arith
length-decimal_from (suc k) (suc f) n h lo hi =
    let p = pow-suc 10 k in
    let q = pow-suc 10 (suc k) in
    let large : ltb n 10 ≡ false = ground (arith, pow_pos k) in
    let low : 10 ^ k ≤ n / 10 = omega arith in
    let high : n / 10 < 10 ^ suc k = omega arith in
    rw
      (
        large,
        length-append (decimal_from f (n / 10)) (n % 10 ∷ []),
        length-decimal_from k f (n / 10) (omega (arith, pow_pos k)) low high,
      )
      (omega arith)

-- A number of 13 decimal digits, such as a timestamp in milliseconds from September 2001 on.
abbrev pub IsStamp : ℕ → Type 0
IsStamp t = (1_000_000_000_000 ≤ t) × (t < 10_000_000_000_000)

pub length-decimal : (t : ℕ) → IsStamp t → length (decimal t) ≡ 13
unfolding decimal
length-decimal t h = length-decimal_from 12 (suc t) t (omega arith) h.0 h.1

-- Two texts of digits are the same.
unfoldable pub same_text : List ℕ → List ℕ → Bool
same_text [] [] = true
same_text [] (d ∷ ds) = false
same_text (c ∷ cs) [] = false
same_text (c ∷ cs) (d ∷ ds) = c == d && same_text cs ds

pub same_text_refl : (cs : List ℕ) → same_text cs cs ≡ true
unfolding same_text
same_text_refl [] = refl
same_text_refl (c ∷ cs) = ground (arith, same_text_refl cs)

pub same_text→eq : (cs ds : List ℕ) → same_text cs ds ≡ true → cs ≡ ds
unfolding same_text
same_text→eq [] [] h = refl
same_text→eq [] (d ∷ ds) h = cc
same_text→eq (c ∷ cs) [] h = cc
same_text→eq (c ∷ cs) (d ∷ ds) h = ground (arith, same_text→eq cs ds)

-- Where the first parts are equally long, the same whole has the same parts.
pub append-injective :
    (ks ls cs ds : List ℕ) → length ks ≡ length ls → ks ++ cs ≡ ls ++ ds → (ks ≡ ls) × (cs ≡ ds)
append-injective [] [] cs ds l e = (refl, e)
append-injective [] (b ∷ ls) cs ds l e = absurd (omega arith)
append-injective (a ∷ ks) [] cs ds l e = absurd (omega arith)
append-injective (a ∷ ks) (b ∷ ls) cs ds l e =
    let (p, q) = append-injective ks ls cs ds (omega arith) (cc) in (cc, q)

pub decimal-injective : (a b : ℕ) → decimal a ≡ decimal b → a ≡ b
decimal-injective a b e = sym (value-decimal a) ∙ ap value e ∙ value-decimal b
