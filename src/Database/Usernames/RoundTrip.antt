-- ===== src/Database/Usernames/RoundTrip.antt =====
-- server/src/Database.cpp: usernamesToJson and jsonToUsernames, one after the other.
use qt_chat_app.Prelude.{◌≡◌, refl, ap, ◌∙◌, List, [], ◌∷◌, some, false, str_eq}
use qt_chat_app.Qt.{Qt, QtLaws, QString}
use qt_chat_app.Qt.JsonValue.{Document, array, IsStrings, IsStrings-IsItems}
use qt_chat_app.Database.Usernames.{
  username_items, usernames_of_items, usernames_to_json, json_to_usernames,
}

-- QJsonDocument::toJson is UTF-8, and never empty, so that its text holds the same document.
pub record JsonTextLaws (qt : Qt) : Type 0 where
  pub to_utf8-from_utf8 : (d : Document) → qt.to_utf8 (qt.from_utf8 (qt.to_json d)) ≡ qt.to_json d
  pub text_not_empty : (d : Document) → str_eq (qt.from_utf8 (qt.to_json d)) "" ≡ false

username_items-IsStrings : (names : List QString) → IsStrings (username_items names)
unfolding username_items
username_items-IsStrings [] = tt
username_items-IsStrings (name ∷ names) = username_items-IsStrings names

pub usernames_of_items-username_items :
    (names : List QString) → usernames_of_items (username_items names) ≡ names
unfolding usernames_of_items username_items
usernames_of_items-username_items [] = refl
usernames_of_items-username_items (name ∷ names) =
    ap (◌∷◌ name) (usernames_of_items-username_items names)

module _ (qt : Qt) (laws : QtLaws qt) (text_laws : JsonTextLaws qt) where
  -- The document behind the text of a list.
  pub from_json-usernames_to_json :
      (names : List QString)
      → qt.from_json (qt.to_utf8 (usernames_to_json qt names)) ≡ some (array (username_items names))
  unfolding usernames_to_json
  from_json-usernames_to_json names =
      ap qt.from_json (text_laws.to_utf8-from_utf8 _)
      ∙ laws.json_round_trip (array (username_items names))
          (IsStrings-IsItems _ (username_items-IsStrings names))

  -- A list of usernames is read back from its JSON text as it was.
  pub json_to_usernames-usernames_to_json :
      (names : List QString) → json_to_usernames qt (usernames_to_json qt names) ≡ names
  unfolding json_to_usernames usernames_to_json
  json_to_usernames-usernames_to_json names =
      rw
        (text_laws.text_not_empty (array (username_items names)), from_json-usernames_to_json names)
        (usernames_of_items-username_items names)
