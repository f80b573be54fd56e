-- ===== src/Tests/JsonCodec.antt =====
-- A stand-in for QJsonDocument::toJson and fromJson: a tag before each value, with its round trip.
use qt_chat_app.Prelude.{
  ℕ, zero, suc, ◌+◌, ◌<◌, ◌≡◌, refl, ap, true, false, Option, none, some, List, [], ◌∷◌, ◌++◌,
  arith, is_empty, length, length-append, append_assoc, append-nil,
}
use qt_chat_app.Qt.JsonValue.{
  Json, Items, Fields, Document, pos, negsuc, null, bool, num, real, str, arr, obj, nil, cons, end,
  field, array, object,
}
use qt_chat_app.Tests.Digits.{text_bytes, read_text, read_text-text_bytes}

abbrev Bytes : Type 0
Bytes = List ℕ

unfoldable pub number_bytes : ℕ → Bytes
number_bytes zero = 0 ∷ []
number_bytes (suc n) = 1 ∷ number_bytes n

unfoldable pub read_number : Bytes → ℕ × Bytes
read_number (suc m ∷ rest) = let (n, left) = read_number rest in (suc n, left)
read_number (zero ∷ rest) = (0, rest)
read_number [] = (0, [])

read_number-number_bytes : (n : ℕ) (rest : Bytes) → read_number (number_bytes n ++ rest) ≡ (n, rest)
unfolding read_number number_bytes
read_number-number_bytes zero rest = refl
read_number-number_bytes (suc n) rest = rw (read_number-number_bytes n rest)

unfoldable mutual
  pub json_bytes : Json → Bytes
  json_bytes null = 0 ∷ []
  json_bytes (bool false) = 1 ∷ 0 ∷ []
  json_bytes (bool true) = 1 ∷ 1 ∷ []
  json_bytes (num (pos n)) = 2 ∷ number_bytes n
  json_bytes (num (negsuc n)) = 3 ∷ number_bytes n
  json_bytes (real n) = 4 ∷ number_bytes n
  json_bytes (str s) = 5 ∷ text_bytes s
  json_bytes (arr xs) = 6 ∷ items_bytes xs
  json_bytes (obj fs) = 7 ∷ fields_bytes fs

  pub items_bytes : Items → Bytes
  items_bytes nil = 0 ∷ []
  items_bytes (cons x xs) = 1 ∷ (json_bytes x ++ items_bytes xs)

  pub fields_bytes : Fields → Bytes
  fields_bytes end = 0 ∷ []
  fields_bytes (field k x fs) = 1 ∷ (text_bytes k ++ (json_bytes x ++ fields_bytes fs))

abbrev with_rest : {A B : Type 0} → (A → B) → A × Bytes → Option (B × Bytes)
with_rest f (a, rest) = some (f a, rest)

abbrev then_read :
    {A B : Type 0} → Option (A × Bytes) → (A → Bytes → Option (B × Bytes)) → Option (B × Bytes)
then_read none k = none
then_read (some (a, rest)) k = k a rest

-- What follows a value's tag, given the readers of the parts.
unfoldable pub read_tagged :
    (Bytes → Option (Items × Bytes))
    → (Bytes → Option (Fields × Bytes))
    → ℕ
    → Bytes
    → Option (Json × Bytes)
unfolding read_number
read_tagged items fields zero rest = some (null, rest)
read_tagged items fields (suc zero) (zero ∷ rest) = some (bool false, rest)
read_tagged items fields (suc zero) (suc n ∷ rest) = some (bool true, rest)
read_tagged items fields (suc (suc zero)) rest = with_rest (λ n. num (pos n)) (read_number rest)
read_tagged items fields (suc (suc (suc zero))) rest =
    with_rest (λ n. num (negsuc n)) (read_number rest)
read_tagged items fields (suc (suc (suc (suc zero)))) rest = with_rest real (read_number rest)
read_tagged items fields (suc (suc (suc (suc (suc zero))))) rest = with_rest str (read_text rest)
read_tagged items fields (suc (suc (suc (suc (suc (suc zero)))))) rest =
    then_read (items rest) λ xs left. some (arr xs, left)
read_tagged items fields (suc (suc (suc (suc (suc (suc (suc zero))))))) rest =
    then_read (fields rest) λ fs left. some (obj fs, left)
read_tagged items fields _ rest = none

unfoldable mutual
  pub read_json : ℕ → Bytes → Option (Json × Bytes)
  read_json zero bytes = none
  read_json (suc f) [] = none
  read_json (suc f) (tag ∷ rest) = read_tagged (read_items f) (read_fields f) tag rest

  pub read_items : ℕ → Bytes → Option (Items × Bytes)
  read_items zero bytes = none
  read_items (suc f) [] = none
  read_items (suc f) (zero ∷ rest) = some (nil, rest)
  read_items (suc f) (suc tag ∷ rest) =
      then_read (read_json f rest)
        λ x left. then_read (read_items f left) λ xs left'. some (cons x xs, left')

  pub read_fields : ℕ → Bytes → Option (Fields × Bytes)
  read_fields zero bytes = none
  read_fields (suc f) [] = none
  read_fields (suc f) (zero ∷ rest) = some (end, rest)
  read_fields (suc f) (suc tag ∷ rest) =
      let (k, left) = read_text rest in
      then_read (read_json f left)
        λ x left'. then_read (read_fields f left') λ fs left''. some (field k x fs, left'')

-- With more fuel than bytes, `read` takes the value off the front of its bytes.
abbrev Reads : {A : Type 0} → (ℕ → Bytes → Option (A × Bytes)) → (A → Bytes) → A → Type 0
Reads read bytes a =
    (rest : Bytes) (f : ℕ) → length (bytes a) < f → read f (bytes a ++ rest) ≡ some (a, rest)

-- Fuel above a bound is not zero.
with_fuel :
    {bound : ℕ} (Goal : ℕ → Type 0)
    → ((rest : ℕ) → bound < suc rest → Goal (suc rest))
    → (fuel : ℕ) → bound < fuel
    → Goal fuel
with_fuel Goal step (suc rest) enough = step rest enough
with_fuel Goal step zero enough = absurd (omega arith)

length-append_bytes : (xs ys : Bytes) → length (xs ++ ys) ≡ length xs + length ys
length-append_bytes = length-append

ruleset lengths = (arith, length-append_bytes)

ruleset steps = (append_assoc, read_number-number_bytes, read_text-text_bytes)

json_bytes-Reads : (j : Json) → Reads read_json json_bytes j
unfolding read_json json_bytes read_tagged
json_bytes-Reads j =
    elim j
      as (Reads read_json json_bytes) (Reads read_items items_bytes) (Reads read_fields
        fields_bytes) [
          | null ↦ λ rest. with_fuel _ λ f h. refl
          | bool false ↦ λ rest. with_fuel _ λ f h. refl
          | bool true ↦ λ rest. with_fuel _ λ f h. refl
          | num (pos n) ↦ λ rest. with_fuel _ λ f h. simp steps
          | num (negsuc n) ↦ λ rest. with_fuel _ λ f h. simp steps
          | real n ↦ λ rest. with_fuel _ λ f h. simp steps
          | str s ↦ λ rest. with_fuel _ λ f h. simp steps
          | arr (xs → ih) ↦ λ rest. with_fuel _ λ f h. rw (ih rest f (omega arith))
          | obj (fs → ih) ↦ λ rest. with_fuel _ λ f h. rw (ih rest f (omega arith))
          | nil ↦ λ rest. with_fuel _ λ f h. refl
          | cons (x → ih) (xs → ihs) ↦ λ rest.
              with_fuel _ λ f h. simp (steps, ih _ f (omega lengths), ihs rest f (omega lengths))
          | end ↦ λ rest. with_fuel _ λ f h. refl
          | field k (x → ih) (fs → ihs) ↦ λ rest.
              with_fuel _ λ f h. simp (steps, ih _ f (omega lengths), ihs rest f (omega lengths))
        ]

unfoldable pub document_bytes : Document → Bytes
document_bytes (array xs) = 6 ∷ items_bytes xs
document_bytes (object fs) = 7 ∷ fields_bytes fs

abbrev as_document : Option (Json × Bytes) → Option Document
as_document (some (arr xs, rest)) = some (array xs)
as_document (some (obj fs, rest)) = some (object fs)
as_document _ = none

unfoldable pub read_document : Bytes → Option Document
unfolding read_json
read_document bytes = as_document (read_json (suc (length bytes)) bytes)

whole : (j : Json) → read_json (suc (length (json_bytes j))) (json_bytes j) ≡ some (j, [])
whole j = rw append-nil at (json_bytes-Reads j [] (suc (length (json_bytes j))) (omega arith))

pub read_document-document_bytes : (d : Document) → read_document (document_bytes d) ≡ some d
unfolding read_document document_bytes json_bytes
read_document-document_bytes (array xs) = ap as_document (whole (arr xs))
read_document-document_bytes (object fs) = ap as_document (whole (obj fs))

pub document_bytes-not_empty : (d : Document) → is_empty (document_bytes d) ≡ false
unfolding document_bytes
document_bytes-not_empty (array xs) = refl
document_bytes-not_empty (object fs) = refl
