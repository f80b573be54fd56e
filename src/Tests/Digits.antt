-- ===== src/Tests/Digits.antt =====
-- A stand-in for Qt's encodings of numbers and texts, with their round trips. QUuid::toRfc4122 has
-- another order of bytes; the development relies on the round trip alone.
use Prim.Native.Char.{Char, char, code, IsLt, nul}
use Prim.Native.Nat.{compare, Ordering}
use native.Mathlib.Nat.{pow-suc}
use text.Mathlib.TextEquality.{Char-path}
use qt_chat_app.Prelude.{
  ℕ, zero, suc, ◌+◌, ◌*◌, ◌/◌, ◌%◌, ◌^◌, ◌<◌, ◌≡◌, refl, ap, Option, none, some, List, [], ◌∷◌,
  ◌++◌, arith, length, String,
}

-- The n low digits of a number to the base 256, the lowest first, and back.
unfoldable pub digits : ℕ → ℕ → List ℕ
digits zero u = []
digits (suc n) u = (u % 256) ∷ digits n (u / 256)

unfoldable pub of_digits : List ℕ → ℕ
of_digits [] = 0
of_digits (b ∷ bs) = b + 256 * of_digits bs

pub length-digits : (n u : ℕ) → length (digits n u) ≡ n
unfolding digits
length-digits zero u = refl
length-digits (suc n) u = ap suc (length-digits n (u / 256))

pub of_digits-digits : (n u : ℕ) → u < 256 ^ n → of_digits (digits n u) ≡ u
unfolding digits of_digits
of_digits-digits zero u h = omega arith
of_digits-digits (suc n) u h =
    omega (arith, of_digits-digits n (u / 256) (omega (arith, pow-suc 256 n)))

-- A number as that many marks, and back.
unfoldable pub marks : ℕ → String
marks zero = String.[]
marks (suc n) = String.◌∷◌ (char 49 tt) (marks n)

unfoldable pub count_marks : String → ℕ
count_marks String.[] = 0
count_marks (String.◌∷◌ c s) = suc (count_marks s)

pub count_marks-marks : (n : ℕ) → count_marks (marks n) ≡ n
unfolding marks count_marks
count_marks-marks zero = refl
count_marks-marks (suc n) = ap suc (count_marks-marks n)

-- The three comparisons of `IsScalar`.
abbrev Both : Ordering → Ordering → Type 0
Both Ordering.lt o = IsLt o
Both Ordering.eq _ = ⊥
Both Ordering.gt _ = ⊥

abbrev InRanges : Ordering → Ordering → Ordering → Type 0
InRanges Ordering.lt _ _ = Unit
InRanges Ordering.eq o p = Both o p
InRanges Ordering.gt o p = Both o p

unfoldable both_of : (o p : Ordering) → Option (Both o p)
both_of Ordering.lt Ordering.lt = some tt
both_of _ _ = none

unfoldable ranges_of : (o p q : Ordering) → Option (InRanges o p q)
unfolding both_of
ranges_of Ordering.lt _ _ = some tt
ranges_of Ordering.eq p q = both_of p q
ranges_of Ordering.gt p q = both_of p q

Both-found : (o p : Ordering) → Both o p → (r : Both o p) × (both_of o p ≡ some r)
unfolding both_of
Both-found Ordering.lt Ordering.lt h = (tt, refl)
Both-found Ordering.lt Ordering.eq h = absurd h
Both-found Ordering.lt Ordering.gt h = absurd h
Both-found Ordering.eq _ h = absurd h
Both-found Ordering.gt _ h = absurd h

ranges-found :
    (o p q : Ordering) → InRanges o p q → (r : InRanges o p q) × (ranges_of o p q ≡ some r)
unfolding ranges_of
ranges-found Ordering.lt _ _ h = (tt, refl)
ranges-found Ordering.eq p q h = Both-found p q h
ranges-found Ordering.gt p q h = Both-found p q h

-- The character of a number; NUL where there is none.
unfoldable pub char_of : ℕ → Char
unfolding ranges_of
char_of n = elim (ranges_of (compare n 55296) (compare 57343 n) (compare n 1114112)) [
  | none ↦ nul
  | some r ↦ char n r
]

pub char-code : (c : Char) → char_of (code c) ≡ c
unfolding char_of
char-code (char n h) =
    let (r, e) = ranges-found (compare n 55296) (compare 57343 n) (compare n 1114112) h in
    rw (e, char_of) (Char-path (char n r) (char n h) refl)

-- A text as bytes: a mark and four digits for each character, and a zero; and back, with the rest.
unfoldable pub text_bytes : String → List ℕ
unfolding digits
text_bytes String.[] = 0 ∷ []
text_bytes (String.◌∷◌ c s) = 1 ∷ (digits 4 (code c) ++ text_bytes s)

unfoldable pub read_text : List ℕ → String × List ℕ
unfolding of_digits char_of
read_text (suc m ∷ a ∷ b ∷ c ∷ d ∷ rest) =
    let (s, left) = read_text rest in
    (String.◌∷◌ (char_of (of_digits (a ∷ b ∷ c ∷ d ∷ []))) s, left)
read_text (zero ∷ rest) = (String.[], rest)
read_text rest = (String.[], rest)

below :
    (n : ℕ) (o p q : Ordering)
    → compare n 55296 ≡ o
    → compare n 1114112 ≡ q
    → InRanges o p q
    → n < 256 ^ 4
below n Ordering.lt p q e f h = ground arith
below n Ordering.eq Ordering.lt Ordering.lt e f h = ground arith
below n Ordering.gt Ordering.lt Ordering.lt e f h = ground arith
below n Ordering.eq Ordering.lt Ordering.eq e f h = absurd h
below n Ordering.eq Ordering.lt Ordering.gt e f h = absurd h
below n Ordering.eq Ordering.eq q e f h = absurd h
below n Ordering.eq Ordering.gt q e f h = absurd h
below n Ordering.gt Ordering.lt Ordering.eq e f h = absurd h
below n Ordering.gt Ordering.lt Ordering.gt e f h = absurd h
below n Ordering.gt Ordering.eq q e f h = absurd h
below n Ordering.gt Ordering.gt q e f h = absurd h

code-lt : (c : Char) → code c < 256 ^ 4
code-lt (char n h) = below n (compare n 55296) (compare 57343 n) (compare n 1114112) refl refl h

pub read_text-text_bytes :
    (s : String) (rest : List ℕ) → read_text (text_bytes s ++ rest) ≡ (s, rest)
unfolding read_text text_bytes
read_text-text_bytes String.[] rest = refl
read_text-text_bytes (String.◌∷◌ c s) rest =
    rw (of_digits-digits 4 (code c) (code-lt c), char-code c, read_text-text_bytes s rest)
