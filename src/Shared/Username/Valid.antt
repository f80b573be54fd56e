-- ===== src/Shared/Username/Valid.antt =====
-- shared/src/util.cpp: which texts isValidUsername accepts.
use Prim.Native.Char.{Char, code}
use Prim.Native.String.{[], ◌∷◌}
use qt_chat_app.Prelude.{
  ℕ, suc, ◌+◌, ◌≤◌, ◌≡◌, refl, ap, ◌∙◌, ◌↔◌, ◌⊎◌, inl, inr, Bool, true, arith, Bool-cases,
}
use qt_chat_app.Qt.{QString}
use qt_chat_app.Shared.Username.{
  is_username_char, newline, in_range, match_username, is_valid_username,
}

abbrev pub AllChars : (Char → Bool) → QString → Type 0
AllChars p [] = Unit
AllChars p (c ∷ s) = (p c ≡ true) × AllChars p s

-- QString::size of a text of such characters
abbrev pub size : QString → ℕ
size [] = 0
size (c ∷ s) = suc (size s)

-- A text with one more character at its end.
abbrev pub snoc : QString → Char → QString
snoc [] c = c ∷ []
snoc (d ∷ s) c = d ∷ snoc s c

-- 2 to 20 lowercase latin letters, digits and underscores
pub record IsUsername (s : QString) : Type 0 where
  pub chars : AllChars is_username_char s
  pub at_least : 2 ≤ size s
  pub at_most : size s ≤ 20

-- The text is the name, or the name and a newline behind it.
abbrev pub Body : QString → QString → Type 0
Body name s = (s ≡ name) ⊎ ((c : Char) × (code c ≡ newline) × (s ≡ snoc name c))

abbrev Matched : ℕ → QString → Type 0
Matched n s =
    (name : QString) × AllChars is_username_char name
    × (2 ≤ n + size name)
    × (n + size name ≤ 20)
    × Body name s

Matched-cons :
    (n : ℕ) (c : Char) (s : QString)
    → is_username_char c ≡ true
    → Matched (suc n) s
    → Matched n (c ∷ s)
Matched-cons n c s h (name, chars, low, high, inl e) =
    (c ∷ name, (h, chars), omega arith, omega arith, inl (ap (◌∷◌ c) e))
Matched-cons n c s h (name, chars, low, high, inr (d, nl, e)) =
    (c ∷ name, (h, chars), omega arith, omega arith, inr (d, nl, ap (◌∷◌ c) e))

Matched-nil : (n : ℕ) → in_range n ≡ true → Matched n []
Matched-nil n h = ([], tt, ground arith, ground arith, inl refl)

match_username_sound : (n : ℕ) (s : QString) → match_username n s ≡ true → Matched n s
unfolding match_username
match_username_sound n [] h = Matched-nil n h
match_username_sound n (c ∷ []) h = elim (Bool-cases (is_username_char c)) [
  | inl u ↦ Matched-cons n c [] u (Matched-nil (suc n) (ground arith))
  | inr v ↦ ([], tt, ground arith, ground arith, inr (c, ground arith, refl))
]
match_username_sound n (c ∷ d ∷ s) h = elim (Bool-cases (is_username_char c)) [
  | inl u ↦ Matched-cons n c (d ∷ s) u (match_username_sound (suc n) (d ∷ s) (ground arith))
  | inr v ↦ absurd (ground arith)
]

-- Behind n characters of the class the matcher takes one more.
match_username-cons :
    (n : ℕ) (c : Char) (s : QString)
    → is_username_char c ≡ true
    → match_username n (c ∷ s) ≡ match_username (suc n) s
unfolding match_username
match_username-cons n c [] h = rw h
match_username-cons n c (d ∷ s) h = rw h

match_username-name :
    (n : ℕ) (name : QString)
    → AllChars is_username_char name
    → match_username n name ≡ in_range (n + size name)
match_username-name n [] v = unfold match_username in ap in_range {x = n} {y = n + 0} (omega arith)
match_username-name n (c ∷ name) v =
    match_username-cons n c name v.0
    ∙ match_username-name (suc n) name v.1
    ∙ ap in_range {x = suc n + size name} {y = n + suc (size name)} (omega arith)

newline_alone : (n : ℕ) (c : Char) → code c ≡ newline → match_username n (c ∷ []) ≡ in_range n
unfolding match_username
newline_alone n c e = ground arith

match_username-newline :
    (n : ℕ) (name : QString) (c : Char)
    → AllChars is_username_char name
    → code c ≡ newline
    → match_username n (snoc name c) ≡ in_range (n + size name)
match_username-newline n [] c v e =
    newline_alone n c e ∙ ap in_range {x = n} {y = n + 0} (omega arith)
match_username-newline n (d ∷ name) c v e =
    match_username-cons n d (snoc name c) v.0
    ∙ match_username-newline (suc n) name c v.1 e
    ∙ ap in_range {x = suc n + size name} {y = n + suc (size name)} (omega arith)

in_range-true : (n : ℕ) → 2 ≤ n → n ≤ 20 → in_range n ≡ true
in_range-true n h k = ground arith

-- isValidUsername accepts exactly the names of 2 to 20 lowercase latin letters, digits and
-- underscores, and each of those with one newline behind it.
pub is_valid_username_iff :
    (s : QString)
    → (is_valid_username s ≡ true) ↔ ((name : QString) × IsUsername name × Body name s)
unfolding is_valid_username
is_valid_username_iff s = (to, from)
  where
    to : match_username 0 s ≡ true → (name : QString) × IsUsername name × Body name s
    to h =
        let (name, chars, low, high, body) = match_username_sound 0 s h in
        (name, record { chars = chars; at_least = omega arith; at_most = omega arith }, body)

    length_fits : (name : QString) → IsUsername name → in_range (0 + size name) ≡ true
    length_fits name v =
        in_range-true (0 + size name) (omega (arith, v.at_least)) (omega (arith, v.at_most))

    from : (name : QString) × IsUsername name × Body name s → match_username 0 s ≡ true
    from (name, v, inl e) = rw e (match_username-name 0 name v.chars ∙ length_fits name v)
    from (name, v, inr (c, nl, e)) =
        rw e (match_username-newline 0 name c v.chars nl ∙ length_fits name v)
