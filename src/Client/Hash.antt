-- ===== src/Client/Hash.antt =====
-- QHash and QSet, as the client uses them: a QSet is a QHash whose values carry nothing.
use qt_chat_app.Prelude.{
  ℕ, ◌≡◌, refl, sym, ap, ◌∙◌, Bool, true, false, Option, none, some, List, [], ◌∷◌, ◌==◌, ==_iff,
  if◌then◌else◌, Bool-cases, inl, inr, String, str_eq, eq_iff, arith,
}

-- Equality of keys, as qHash's users give it.
pub record Key (K : Type 0) : Type 0 where
  pub equal : K → K → Bool
  pub sound : (a b : K) → equal a b ≡ true → a ≡ b
  pub same : (a : K) → equal a a ≡ true

equal_on :
    {K : Type 0} (key : Key K) (j i k : K)
    → key.equal j i ≡ true
    → key.equal i k ≡ false
    → key.equal j k ≡ false
equal_on key j i k y h = ap (λ x. key.equal x k) (key.sound j i y) ∙ h

module _ {K V : Type 0} (key : Key K) where
  -- QHash::contains and QHash::value
  unfoldable pub lookup : K → List (K × V) → Option V
  lookup k [] = none
  lookup k ((j, v) ∷ m) = if key.equal j k then some v else lookup k m

  -- QHash::insert, which replaces the value of a key that is there
  unfoldable pub insert : K → V → List (K × V) → List (K × V)
  insert k v [] = (k, v) ∷ []
  insert k v ((j, w) ∷ m) = if key.equal j k then (j, v) ∷ m else (j, w) ∷ insert k v m

  -- QHash::remove
  unfoldable pub remove : K → List (K × V) → List (K × V)
  remove k [] = []
  remove k ((j, v) ∷ m) = if key.equal j k then remove k m else (j, v) ∷ remove k m

  pub lookup-remove : (k : K) (m : List (K × V)) → lookup k (remove k m) ≡ none
  unfolding lookup remove
  lookup-remove k [] = refl
  lookup-remove k ((j, v) ∷ m) = elim (Bool-cases (key.equal j k)) [
    | inl y ↦ rw y (lookup-remove k m)
    | inr f ↦ rw (f, f) (lookup-remove k m)
  ]

  pub lookup-remove_other :
      (k i : K) (m : List (K × V)) → key.equal i k ≡ false → lookup k (remove i m) ≡ lookup k m
  unfolding lookup remove
  lookup-remove_other k i [] h = refl
  lookup-remove_other k i ((j, v) ∷ m) h = elim (Bool-cases (key.equal j i)) [
    | inl y ↦ rw (y, equal_on key j i k y h) (lookup-remove_other k i m h)
    | inr f ↦
        rw f
          (ap (λ (r : Option V). if key.equal j k then some v else r) (lookup-remove_other k i m h))
  ]

  pub lookup-insert : (k : K) (v : V) (m : List (K × V)) → lookup k (insert k v m) ≡ some v
  unfolding lookup insert
  lookup-insert k v [] = rw (key.same k) refl
  lookup-insert k v ((j, w) ∷ m) = elim (Bool-cases (key.equal j k)) [
    | inl y ↦ rw (y, y) refl
    | inr f ↦ rw (f, f) (lookup-insert k v m)
  ]

  pub lookup-insert_other :
      (k i : K) (v : V) (m : List (K × V))
      → key.equal i k ≡ false
      → lookup k (insert i v m) ≡ lookup k m
  unfolding lookup insert
  lookup-insert_other k i v [] h = rw h refl
  lookup-insert_other k i v ((j, w) ∷ m) h = elim (Bool-cases (key.equal j i)) [
    | inl y ↦ rw (y, equal_on key j i k y h) refl
    | inr f ↦
        rw f (
          ap (λ (r : Option V). if key.equal j k then some w else r)
            (lookup-insert_other k i v m h))
  ]

  -- A removal adds nothing, and neither does an insertion under another key.
  pub lookup-remove-some :
      (k i : K) (v : V) (m : List (K × V)) → lookup k (remove i m) ≡ some v → lookup k m ≡ some v
  lookup-remove-some k i v m e = elim (Bool-cases (key.equal i k)) [
    | inr f ↦ sym (lookup-remove_other k i m f) ∙ e
    | inl y ↦ absurd (none_some (sym (gone (key.sound i k y)) ∙ e))
  ]
    where
      none_some : none ≡ some v → ⊥
      none_some h = cc

      gone : i ≡ k → lookup k (remove i m) ≡ none
      gone h = ap (λ (x : K). lookup k (remove x m)) h ∙ lookup-remove k m

-- QUuid and QString as keys.
abbrev pub uuid_key : Key ℕ
uuid_key = record { equal = ◌==◌; sound = λ a b h. (==_iff a b).0 h; same = λ a. ground arith }

abbrev pub string_key : Key String
string_key = record {
  equal = str_eq;
  sound = λ a b h. (eq_iff a b).0 h;
  same = λ a. (eq_iff a a).1 refl;
}
