-- ===== src/Shared/Payload/Account.antt =====
-- shared/src/dto/AuthInfo.h and shared/src/dto/AuthInfo.cpp: what a login and a registration send.
use qt_chat_app.Prelude.{◌≡◌, Option, none, some, not, ◌||◌, if◌then◌else◌, refl}
use qt_chat_app.Qt.{Qt, QtLaws, QString, QByteArray}
use qt_chat_app.Qt.JsonValue.{object, Fields, str, end, set, contains, string_at}

pub record LoginInfo : Type 0 where
  pub login : QString
  pub password_hash : QString

pub record RegisterInfo : Type 0 where
  pub username : QString
  pub display_name : QString
  pub email : QString
  pub password_hash : QString

abbrev login_fields : Qt → LoginInfo → Fields
login_fields qt i = set "passwordHash" (str i.password_hash) (set "login" (str i.login) end)

unfoldable pub serialize_login : Qt → LoginInfo → QByteArray
unfolding set
serialize_login qt i = qt.to_json (object (login_fields qt i))

unfoldable pub read_login : Fields → Option LoginInfo
unfolding contains string_at
read_login obj =
    if not (contains "login" obj) || not (contains "passwordHash" obj)
    then none
    else some
        (record { login = string_at "login" obj; password_hash = string_at "passwordHash" obj })

-- LoginInfo::deserialize
unfoldable pub deserialize_login : Qt → QByteArray → Option LoginInfo
unfolding read_login
deserialize_login qt bytes = elim (qt.from_json bytes) [
  | some (object obj) ↦ read_login obj
  | _ ↦ none
]

abbrev register_fields : Qt → RegisterInfo → Fields
register_fields qt i = set "passwordHash" (str i.password_hash) (
    set "email" (str i.email)
      (set "displayName" (str i.display_name) (set "username" (str i.username) end)))

unfoldable pub serialize_register : Qt → RegisterInfo → QByteArray
unfolding set
serialize_register qt i = qt.to_json (object (register_fields qt i))

unfoldable pub read_register : Fields → Option RegisterInfo
unfolding contains string_at
read_register obj =
    if not (contains "username" obj)
      || (not (contains "displayName" obj)
          || (not (contains "email" obj) || not (contains "passwordHash" obj)))
    then none
    else some (record {
      username = string_at "username" obj;
      display_name = string_at "displayName" obj;
      email = string_at "email" obj;
      password_hash = string_at "passwordHash" obj;
    })

-- RegisterInfo::deserialize
unfoldable pub deserialize_register : Qt → QByteArray → Option RegisterInfo
unfolding read_register
deserialize_register qt bytes = elim (qt.from_json bytes) [
  | some (object obj) ↦ read_register obj
  | _ ↦ none
]

module _ (qt : Qt) (laws : QtLaws qt) where
  -- A login is read back as it was written. Qt's functions satisfy their laws.
  pub deserialize_login-serialize_login :
      (i : LoginInfo) → deserialize_login qt (serialize_login qt i) ≡ some i
  unfolding deserialize_login serialize_login
  deserialize_login-serialize_login i = rw (
    laws.json_round_trip (object (login_fields qt i)) (refl, (tt, (refl, (tt, tt)))),
    deserialize_login,
  )

  -- A registration is read back as it was written. Qt's functions satisfy their laws.
  pub deserialize_register-serialize_register :
      (i : RegisterInfo) → deserialize_register qt (serialize_register qt i) ≡ some i
  unfolding deserialize_register serialize_register
  deserialize_register-serialize_register i = rw (
    laws.json_round_trip (object (register_fields qt i))
        (refl, (tt, (refl, (tt, (refl, (tt, (refl, (tt, tt)))))))),
    deserialize_register,
  )
