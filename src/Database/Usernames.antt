-- ===== src/Database/Usernames.antt =====
-- server/src/Database.cpp: lists of usernames as JSON texts.
pub mod RoundTrip
use qt_chat_app.Prelude.{
  ◌≡◌, refl, ap, ◌∙◌, List, [], ◌∷◌, Option, none, some, if◌then◌else◌, str_eq,
}
use qt_chat_app.Qt.{Qt, QtLaws, QString}
use qt_chat_app.Qt.JsonValue.{
  Json, Items, nil, cons, str, array, object, Document, as_string, IsItems,
}

-- the loop that appends the usernames to a QJsonArray
unfoldable pub username_items : List QString → Items
username_items [] = nil
username_items (name ∷ names) = cons (str name) (username_items names)

-- the loop that appends `value.toString()` of the array's values
unfoldable pub usernames_of_items : Items → List QString
usernames_of_items nil = []
usernames_of_items (cons v vs) = as_string (some v) ∷ usernames_of_items vs

abbrev pub usernames_of_document : Option Document → List QString
usernames_of_document (some (array items)) = usernames_of_items items
usernames_of_document _ = []

-- usernamesToJson
unfoldable pub usernames_to_json : Qt → List QString → QString
unfolding username_items
usernames_to_json qt names = qt.from_utf8 (qt.to_json (array (username_items names)))

-- jsonToUsernames
unfoldable pub json_to_usernames : Qt → QString → List QString
unfolding usernames_of_items
json_to_usernames qt json =
    if str_eq json "" then [] else usernames_of_document (qt.from_json (qt.to_utf8 json))
