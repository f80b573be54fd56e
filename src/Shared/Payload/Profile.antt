-- ===== src/Shared/Payload/Profile.antt =====
-- shared/src/dto/ProfileInfo, PublicUserInfo and ProfileUpdateInfo (.h, .cpp).
use qt_chat_app.Prelude.{
  ◌≡◌, Option, none, some, not, ◌||◌, ◌&&◌, Bool, if◌then◌else◌, refl, ap, has_value,
}
use qt_chat_app.Qt.{Qt, QtLaws, QUuid, QString, QByteArray, IsUuid}
use qt_chat_app.Qt.JsonValue.{object, Fields, str, end, set, contains, string_at, IsFields}

pub record ProfileInfo : Type 0 where
  pub user_id : QUuid
  pub username : QString
  pub display_name : QString
  pub email : QString

pub record PublicUserInfo : Type 0 where
  pub user_id : QUuid
  pub username : QString
  pub display_name : QString

-- A field that is none keeps its current value.
pub record ProfileUpdateInfo : Type 0 where
  pub username : Option QString
  pub display_name : Option QString
  pub email : Option QString
  pub password_hash : Option QString

abbrev profile_fields : Qt → ProfileInfo → Fields
profile_fields qt i = set "email" (str i.email) (
    set "displayName" (str i.display_name)
      (set "username" (str i.username) (set "userId" (str (qt.uuid_to_string i.user_id)) end)))

-- ProfileInfo::serialize
unfoldable pub serialize_profile : Qt → ProfileInfo → QByteArray
unfolding set
serialize_profile qt i = qt.to_json (object (profile_fields qt i))

unfoldable pub read_profile : Qt → Fields → Option ProfileInfo
unfolding contains string_at
read_profile qt obj =
    if not (contains "userId" obj)
      || (not (contains "username" obj)
          || (not (contains "displayName" obj) || not (contains "email" obj)))
    then none
    else some (record {
      user_id = qt.uuid_of_string (string_at "userId" obj);
      username = string_at "username" obj;
      display_name = string_at "displayName" obj;
      email = string_at "email" obj;
    })

-- ProfileInfo::deserialize
unfoldable pub deserialize_profile : Qt → QByteArray → Option ProfileInfo
unfolding read_profile
deserialize_profile qt bytes = elim (qt.from_json bytes) [
  | some (object obj) ↦ read_profile qt obj
  | _ ↦ none
]

abbrev public_user_fields : Qt → PublicUserInfo → Fields
public_user_fields qt i =
    set "displayName" (str i.display_name)
      (set "username" (str i.username) (set "userId" (str (qt.uuid_to_string i.user_id)) end))

-- PublicUserInfo::serialize
unfoldable pub serialize_public_user : Qt → PublicUserInfo → QByteArray
unfolding set
serialize_public_user qt i = qt.to_json (object (public_user_fields qt i))

unfoldable pub read_public_user : Qt → Fields → Option PublicUserInfo
unfolding contains string_at
read_public_user qt obj =
    if not (contains "userId" obj)
      || (not (contains "username" obj) || not (contains "displayName" obj))
    then none
    else some (record {
      user_id = qt.uuid_of_string (string_at "userId" obj);
      username = string_at "username" obj;
      display_name = string_at "displayName" obj;
    })

-- PublicUserInfo::deserialize
unfoldable pub deserialize_public_user : Qt → QByteArray → Option PublicUserInfo
unfolding read_public_user
deserialize_public_user qt bytes = elim (qt.from_json bytes) [
  | some (object obj) ↦ read_public_user qt obj
  | _ ↦ none
]

-- ProfileUpdateInfo::isEmpty
unfoldable pub is_empty_update : ProfileUpdateInfo → Bool
is_empty_update i =
    not (has_value i.username)
    && (not (has_value i.display_name)
        && (not (has_value i.email) && not (has_value i.password_hash)))

-- if (m_field.has_value()) obj[key] = m_field.value();

abbrev set_optional : QString → Option QString → Fields → Fields
set_optional k none obj = obj
set_optional k (some s) obj = set k (str s) obj

abbrev fields_of : ProfileUpdateInfo → Fields
fields_of i = set_optional "passwordHash" i.password_hash (
    set_optional "email" i.email
      (set_optional "displayName" i.display_name (set_optional "username" i.username end)))

-- ProfileUpdateInfo::serialize
unfoldable pub serialize_update : Qt → ProfileUpdateInfo → QByteArray
unfolding set
serialize_update qt i = qt.to_json (object (fields_of i))

abbrev optional_at : QString → Fields → Option QString
optional_at k obj = if contains k obj then some (string_at k obj) else none

unfoldable pub read_update : Fields → ProfileUpdateInfo
unfolding contains string_at
read_update obj = record {
  username = optional_at "username" obj;
  display_name = optional_at "displayName" obj;
  email = optional_at "email" obj;
  password_hash = optional_at "passwordHash" obj;
}

abbrev unless_empty : ProfileUpdateInfo → Option ProfileUpdateInfo
unless_empty i = if is_empty_update i then none else some i

-- ProfileUpdateInfo::deserialize
unfoldable pub deserialize_update : Qt → QByteArray → Option ProfileUpdateInfo
unfolding read_update is_empty_update
deserialize_update qt bytes = elim (qt.from_json bytes) [
  | some (object obj) ↦ unless_empty (read_update obj)
  | _ ↦ none
]

read_update-fields :
    (u d e p : Option QString)
    → let i : ProfileUpdateInfo = record {
      username = u;
      display_name = d;
      email = e;
      password_hash = p;
    } in
      read_update (fields_of i) ≡ i
unfolding read_update set
read_update-fields none none none none = refl
read_update-fields none none none (some p) = refl
read_update-fields none none (some e) none = refl
read_update-fields none none (some e) (some p) = refl
read_update-fields none (some d) none none = refl
read_update-fields none (some d) none (some p) = refl
read_update-fields none (some d) (some e) none = refl
read_update-fields none (some d) (some e) (some p) = refl
read_update-fields (some u) none none none = refl
read_update-fields (some u) none none (some p) = refl
read_update-fields (some u) none (some e) none = refl
read_update-fields (some u) none (some e) (some p) = refl
read_update-fields (some u) (some d) none none = refl
read_update-fields (some u) (some d) none (some p) = refl
read_update-fields (some u) (some d) (some e) none = refl
read_update-fields (some u) (some d) (some e) (some p) = refl

fields_of-IsFields :
    (u d e p : Option QString)
    → IsFields (fields_of (record { username = u; display_name = d; email = e; password_hash = p }))
unfolding set contains
fields_of-IsFields none none none none = tt
fields_of-IsFields (some x0) none none none = (refl, (tt, tt))
fields_of-IsFields none (some x1) none none = (refl, (tt, tt))
fields_of-IsFields (some x0) (some x1) none none = (refl, (tt, (refl, (tt, tt))))
fields_of-IsFields none none (some x2) none = (refl, (tt, tt))
fields_of-IsFields (some x0) none (some x2) none = (refl, (tt, (refl, (tt, tt))))
fields_of-IsFields none (some x1) (some x2) none = (refl, (tt, (refl, (tt, tt))))
fields_of-IsFields (some x0) (some x1) (some x2) none = (refl, (tt, (refl, (tt, (refl, (tt, tt))))))
fields_of-IsFields none none none (some x3) = (refl, (tt, tt))
fields_of-IsFields (some x0) none none (some x3) = (refl, (tt, (refl, (tt, tt))))
fields_of-IsFields none (some x1) none (some x3) = (refl, (tt, (refl, (tt, tt))))
fields_of-IsFields (some x0) (some x1) none (some x3) = (refl, (tt, (refl, (tt, (refl, (tt, tt))))))
fields_of-IsFields none none (some x2) (some x3) = (refl, (tt, (refl, (tt, tt))))
fields_of-IsFields (some x0) none (some x2) (some x3) = (refl, (tt, (refl, (tt, (refl, (tt, tt))))))
fields_of-IsFields none (some x1) (some x2) (some x3) = (refl, (tt, (refl, (tt, (refl, (tt, tt))))))
fields_of-IsFields (some x0) (some x1) (some x2) (some x3) =
    (refl, (tt, (refl, (tt, (refl, (tt, (refl, (tt, tt))))))))

module _ (qt : Qt) (laws : QtLaws qt) where
  -- A profile with a user id of 128 bits is read back as it was written. Qt's functions satisfy
  -- their laws.
  pub deserialize_profile-serialize_profile :
      (i : ProfileInfo)
      → IsUuid i.user_id
      → deserialize_profile qt (serialize_profile qt i) ≡ some i
  unfolding deserialize_profile serialize_profile
  deserialize_profile-serialize_profile i h = rw (
    laws.json_round_trip (object (profile_fields qt i))
        (refl, (tt, (refl, (tt, (refl, (tt, (refl, (tt, tt)))))))),
    deserialize_profile,
    laws.uuid_string_round_trip i.user_id h,
  )

  -- A user's public data with a user id of 128 bits is read back as it was written. Qt's
  -- functions satisfy their laws.
  pub deserialize_public_user-serialize_public_user :
      (i : PublicUserInfo)
      → IsUuid i.user_id
      → deserialize_public_user qt (serialize_public_user qt i) ≡ some i
  unfolding deserialize_public_user serialize_public_user
  deserialize_public_user-serialize_public_user i h = rw (
    laws.json_round_trip (object (public_user_fields qt i))
        (refl, (tt, (refl, (tt, (refl, (tt, tt)))))),
    deserialize_public_user,
    laws.uuid_string_round_trip i.user_id h,
  )

  -- A profile update is read back as it was sent, except one that sets nothing, which is
  -- refused. Qt's functions satisfy their laws.
  pub deserialize_update-serialize_update :
      (i : ProfileUpdateInfo)
      → deserialize_update qt (serialize_update qt i) ≡ (if is_empty_update i then none else some i)
  unfolding deserialize_update serialize_update
  deserialize_update-serialize_update i =
      rw
        (
          laws.json_round_trip (object (fields_of i))
              (fields_of-IsFields i.username i.display_name i.email i.password_hash),
          deserialize_update,
        )
        (ap unless_empty (read_update-fields i.username i.display_name i.email i.password_hash))
