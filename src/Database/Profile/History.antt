-- ===== src/Database/Profile/History.antt =====
-- server/src/Database.cpp: the usernames that a user had before.
use qt_chat_app.Prelude.{
  ◌≡◌, refl, sym, true, false, List, [], ◌∷◌, ◌++◌, inl, inr, Bool-cases, append-nil, if◌then◌else◌,
  str_eq, eq_iff, eq_refl, arith,
}
use qt_chat_app.Qt.{QString}
use qt_chat_app.Database.Profile.{is_among, with_former}

-- no username stands twice
abbrev pub IsDistinct : List QString → Type 0
IsDistinct [] = Unit
IsDistinct (n ∷ names) = (is_among n names ≡ false) × IsDistinct names

is_among-append :
    (s : QString) (names : List QString) (n : QString)
    → is_among s (names ++ (n ∷ [])) ≡ (if is_among s names then true else str_eq n s)
unfolding is_among
is_among-append s [] n = ground arith
is_among-append s (m ∷ names) n = ground (arith, is_among-append s names n)

str_eq-differs : (m n : QString) → str_eq m n ≡ false → str_eq n m ≡ false
str_eq-differs m n h = elim (Bool-cases (str_eq n m)) [
  | inr other ↦ other
  | inl same ↦ absurd (ground (arith, (eq_iff n m).0 same, eq_refl m))
]

IsDistinct-append :
    (names : List QString) (n : QString)
    → IsDistinct names
    → is_among n names ≡ false
    → IsDistinct (names ++ (n ∷ []))
unfolding is_among
IsDistinct-append [] n h fresh = (refl, tt)
IsDistinct-append (m ∷ names) n (h, hs) fresh = elim (Bool-cases (str_eq m n)) [
  | inl same ↦ absurd (ground arith)
  | inr other ↦
      let later : is_among n names ≡ false = ground arith in
      (
        rw (is_among-append m names n, h) (str_eq-differs m n other),
        IsDistinct-append names n hs later,
      )
]

-- The former name is kept among the usernames; the others stay, in their order; and a list
-- without repetition stays one.
pub with_former_lem :
    (former : QString) (names : List QString)
    → (is_among former (with_former former names) ≡ true)
      × ((rest : List QString) × (with_former former names ≡ names ++ rest))
      × (IsDistinct names → IsDistinct (with_former former names))
unfolding with_former
with_former_lem former names = elim (Bool-cases (is_among former names)) [
  | inl old ↦ rw old (old, ([], sym (append-nil names)), λ h. h)
  | inr new ↦ rw new (
    rw (is_among-append former names former, new) (eq_refl former),
    (former ∷ [], refl),
    λ h. IsDistinct-append names former h new,
  )
]
