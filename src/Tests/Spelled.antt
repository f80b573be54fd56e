-- ===== src/Tests/Spelled.antt =====
-- Bytes as a text, so that a JSON document of the stand-in is a text in its encoding.
use Prim.Native.Char.{char, code}
use qt_chat_app.Prelude.{
  ℕ, zero, suc, ◌≡◌, refl, ap, false, List, [], ◌∷◌, ◌==◌, if◌then◌else◌, String, is_empty, str_eq,
  eq_iff, Bool-cases, inl, inr,
}

-- a number as that many ones and a zero
abbrev spell_number : ℕ → String → String
spell_number zero rest = String.◌∷◌ (char 48 tt) rest
spell_number (suc n) rest = String.◌∷◌ (char 49 tt) (spell_number n rest)

unfoldable pub spelled : List ℕ → String
spelled [] = String.[]
spelled (n ∷ ns) = spell_number n (spelled ns)

abbrev grow : List ℕ → List ℕ
grow [] = 1 ∷ []
grow (n ∷ ns) = suc n ∷ ns

unfoldable pub unspelled : String → List ℕ
unspelled String.[] = []
unspelled (String.◌∷◌ c s) = let rest = unspelled s in if code c == 48 then 0 ∷ rest else grow rest

unspelled-number : (n : ℕ) (s : String) → unspelled (spell_number n s) ≡ n ∷ unspelled s
unfolding unspelled
unspelled-number zero s = refl
unspelled-number (suc n) s = ap grow (unspelled-number n s)

pub unspelled-spelled : (ns : List ℕ) → unspelled (spelled ns) ≡ ns
unfolding spelled unspelled
unspelled-spelled [] = refl
unspelled-spelled (n ∷ ns) =
    rw (unspelled-number n (spelled ns)) (ap (◌∷◌ n) (unspelled-spelled ns))

pub spelled-filled : (ns : List ℕ) → is_empty ns ≡ false → str_eq (spelled ns) "" ≡ false
unfolding unspelled
spelled-filled [] h = cc
spelled-filled (n ∷ ns) h = elim (Bool-cases (str_eq (spelled (n ∷ ns)) "")) [
  | inr filled ↦ filled
  | inl blank ↦
      let e = ap unspelled ((eq_iff (spelled (n ∷ ns)) "").0 blank) in
      let f : n ∷ ns ≡ [] = rw (unspelled-spelled (n ∷ ns)) at e in cc
]
