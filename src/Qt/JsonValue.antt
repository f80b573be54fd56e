-- ===== src/Qt/JsonValue.antt =====
-- JSON values, with Qt's readings of them: QJsonObject::contains, operator[] and insertion, and
-- QJsonValue::toString, toInt, isArray, isString and isObject.
use qt_chat_app.Prelude.{
  ◌≡◌, ◌<◌, ◌^◌, ℕ, String, Bool, true, false, Option, none, some, str_eq, if◌then◌else◌,
}

-- `negsuc n` is -(n + 1).
pub data ℤ : Type 0 where
  pos negsuc : ℕ → ℤ

-- `num` is a number that an int holds, `real` any other number.
mutual
  pub data Json : Type 0 where
    null : Json
    bool : Bool → Json
    num : ℤ → Json
    real : ℕ → Json
    str : String → Json
    arr : Items → Json
    obj : Fields → Json

  pub data Items : Type 0 where
    nil : Items
    cons : Json → Items → Items

  pub data Fields : Type 0 where
    end : Fields
    field : String → Json → Fields → Fields

-- A QJsonDocument holds an array or an object.
pub data Document : Type 0 where
  array : Items → Document
  object : Fields → Document

-- QJsonObject::value, QJsonObject::operator[] const
unfoldable pub value : String → Fields → Option Json
value k end = none
value k (field j v fs) = if str_eq j k then some v else value k fs

-- QJsonObject::contains
unfoldable pub contains : String → Fields → Bool
contains k end = false
contains k (field j v fs) = if str_eq j k then true else contains k fs

-- obj[key] = v: the value under the key is replaced, or the entry is new
unfoldable pub set : String → Json → Fields → Fields
set k v end = field k v end
set k v (field j w fs) = if str_eq j k then field j v fs else field j w (set k v fs)

-- QJsonValue::toString of obj[key]: "" for a value that is no string
abbrev pub as_string : Option Json → String
as_string (some (str s)) = s
as_string _ = ""

-- QJsonValue::toInt of obj[key]: 0 for a value that is no int
abbrev pub as_int : Option Json → ℤ
as_int (some (num n)) = n
as_int _ = pos 0

-- The string under a key, `obj[key].toString()`
unfoldable pub string_at : String → Fields → String
unfolding value
string_at k fs = as_string (value k fs)

-- The int under a key, `obj[key].toInt()`
unfoldable pub int_at : String → Fields → ℤ
unfolding value
int_at k fs = as_int (value k fs)

-- `obj[key].isArray()`, with the elements of `obj[key].toArray()`
abbrev as_array : Option Json → Option Items
as_array (some (arr xs)) = some xs
as_array _ = none

unfoldable pub array_at : String → Fields → Option Items
unfolding value
array_at k fs = as_array (value k fs)

-- What a QJsonDocument can hold: no key stands twice in an object, and `num` is an int.
abbrev mutual
  pub IsJson : Json → Type 0
  IsJson (num (pos n)) = n < 2 ^ 31
  IsJson (num (negsuc n)) = n < 2 ^ 31
  IsJson (arr xs) = IsItems xs
  IsJson (obj fs) = IsFields fs
  IsJson _ = Unit

  pub IsItems : Items → Type 0
  IsItems nil = Unit
  IsItems (cons v xs) = IsJson v × IsItems xs

  pub IsFields : Fields → Type 0
  IsFields end = Unit
  IsFields (field k v fs) = (contains k fs ≡ false) × (IsJson v × IsFields fs)

abbrev pub IsDocument : Document → Type 0
IsDocument (array xs) = IsItems xs
IsDocument (object fs) = IsFields fs

-- An array of strings.
abbrev pub IsStrings : Items → Type 0
IsStrings nil = Unit
IsStrings (cons (str s) xs) = IsStrings xs
IsStrings (cons _ xs) = ⊥

pub IsStrings-IsItems : (xs : Items) → IsStrings xs → IsItems xs
IsStrings-IsItems nil h = tt
IsStrings-IsItems (cons (str s) xs) h = (tt, IsStrings-IsItems xs h)
IsStrings-IsItems (cons _ xs) h = absurd h
