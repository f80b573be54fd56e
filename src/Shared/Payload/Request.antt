-- ===== src/Shared/Payload/Request.antt =====
-- shared/src/dto/UserInfoRequest (.h, .cpp): who the public information is asked of.
use qt_chat_app.Prelude.{◌≡◌, Option, none, some, not, if◌then◌else◌, refl, str_eq}
use qt_chat_app.Qt.{Qt, QtLaws, QUuid, QString, QByteArray, IsUuid, null_uuid}
use qt_chat_app.Qt.JsonValue.{object, Fields, str, end, set, contains, string_at}

pub data UserIdentifierType : Type 0 where
  uuid username : UserIdentifierType

pub record UserInfoRequest : Type 0 where
  pub identifier_type : UserIdentifierType
  pub user_id : QUuid
  pub username : QString

-- UserInfoRequest(QUuid) and UserInfoRequest(QString); the member that is not given is QUuid() or "".
abbrev pub request_by_id : QUuid → UserInfoRequest
request_by_id u = record { identifier_type = uuid; user_id = u; username = "" }

abbrev pub request_by_name : QString → UserInfoRequest
request_by_name s = record { identifier_type = username; user_id = null_uuid; username = s }

-- identifierTypeToString
unfoldable pub identifier_type_to_string : UserIdentifierType → QString
identifier_type_to_string uuid = "uuid"
identifier_type_to_string username = "username"

-- identifierTypeFromString
unfoldable pub identifier_type_from_string : QString → Option UserIdentifierType
identifier_type_from_string s =
    if str_eq s "uuid" then some uuid else if str_eq s "username" then some username else none

abbrev set_identifier : Qt → UserIdentifierType → UserInfoRequest → Fields → Fields
set_identifier qt uuid r obj = set "userId" (str (qt.uuid_to_string r.user_id)) obj
set_identifier qt username r obj = set "username" (str r.username) obj

abbrev request_fields : Qt → UserInfoRequest → Fields
request_fields qt r =
    set_identifier qt r.identifier_type r
      (set "identifierType" (str (identifier_type_to_string r.identifier_type)) end)

-- UserInfoRequest::serialize
unfoldable pub serialize_request : Qt → UserInfoRequest → QByteArray
unfolding set identifier_type_to_string
serialize_request qt r = qt.to_json (object (request_fields qt r))

abbrev read_identifier : Qt → Fields → Option UserIdentifierType → Option UserInfoRequest
read_identifier qt obj none = none
read_identifier qt obj (some uuid) =
    if not (contains "userId" obj)
    then none
    else some (request_by_id (qt.uuid_of_string (string_at "userId" obj)))
read_identifier qt obj (some username) =
    if not (contains "username" obj)
    then none
    else some (request_by_name (string_at "username" obj))

unfoldable pub read_request : Qt → Fields → Option UserInfoRequest
unfolding contains string_at identifier_type_from_string
read_request qt obj =
    if not (contains "identifierType" obj)
    then none
    else read_identifier qt obj (identifier_type_from_string (string_at "identifierType" obj))

-- UserInfoRequest::deserialize
unfoldable pub deserialize_request : Qt → QByteArray → Option UserInfoRequest
unfolding read_request
deserialize_request qt bytes = elim (qt.from_json bytes) [
  | some (object obj) ↦ read_request qt obj
  | _ ↦ none
]

-- What the two constructors of a request make, of an id that has 128 bits.
pub data IsRequest : UserInfoRequest → Type 0 where
  by_id : (u : QUuid) → IsUuid u → IsRequest (request_by_id u)
  by_name : (s : QString) → IsRequest (request_by_name s)

module _ (qt : Qt) (laws : QtLaws qt) where
  deserialize_request-by_id :
      (u : QUuid)
      → IsUuid u
      → deserialize_request qt (serialize_request qt (request_by_id u)) ≡ some (request_by_id u)
  unfolding deserialize_request serialize_request
  deserialize_request-by_id u h = rw (
    laws.json_round_trip (object (request_fields qt (request_by_id u)))
        (refl, (tt, (refl, (tt, tt)))),
    deserialize_request,
    laws.uuid_string_round_trip u h,
  )

  deserialize_request-by_name :
      (s : QString)
      → deserialize_request qt (serialize_request qt (request_by_name s)) ≡ some (request_by_name s)
  unfolding deserialize_request serialize_request
  deserialize_request-by_name s = rw (
    laws.json_round_trip (object (request_fields qt (request_by_name s)))
        (refl, (tt, (refl, (tt, tt)))),
    deserialize_request,
  )

  -- A request for a user by an id of 128 bits or by a name is read back as it was written. Qt's
  -- functions satisfy their laws.
  pub deserialize_request-serialize_request :
      (r : UserInfoRequest) → IsRequest r → deserialize_request qt (serialize_request qt r) ≡ some r
  deserialize_request-serialize_request _ (by_id u h) = deserialize_request-by_id u h
  deserialize_request-serialize_request _ (by_name s) = deserialize_request-by_name s
