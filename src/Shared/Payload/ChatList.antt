-- ===== src/Shared/Payload/ChatList.antt =====
-- shared/src/dto/ChatInfo and ChatsInfo (.h, .cpp): chats and lists of chats.
use qt_chat_app.Prelude.{
  All, ℕ, ◌≡◌, ◌≢◌, Option, none, some, not, ◌||◌, if◌then◌else◌, refl, List, map, [], ◌∷◌, arith,
  ◌∙◌,
}
use qt_chat_app.Qt.{
  Qt, QtLaws, QUuid, QString, QByteArray, IsUuid, IsDate, whole_seconds, null_uuid, is_null,
}
use qt_chat_app.Qt.JsonValue.{
  object, array, Fields, str, end, set, contains, string_at, Items, nil, cons, arr, obj, array_at,
  IsFields, IsItems, IsStrings, IsStrings-IsItems,
}

pub record ChatInfo : Type 0 where
  pub id : QUuid
  pub type : QString
  pub created_by : QUuid
  pub created_at : ℕ
  pub member_ids : List QUuid

-- QJsonArray memberIds, appended to in a loop
unfoldable pub uuid_items : Qt → List QUuid → Items
uuid_items qt [] = nil
uuid_items qt (u ∷ us) = cons (str (qt.uuid_to_string u)) (uuid_items qt us)

abbrev chat_fields : Qt → ChatInfo → Fields
chat_fields qt c = set "memberIds" (arr (uuid_items qt c.member_ids)) (
    set "createdAt" (str (qt.date_to_string c.created_at)) (
      set "createdBy" (str (qt.uuid_to_string c.created_by))
        (set "type" (str c.type) (set "id" (str (qt.uuid_to_string c.id)) end))))

-- ChatInfo::serialize
unfoldable pub serialize_chat : Qt → ChatInfo → QByteArray
unfolding set uuid_items
serialize_chat qt c = qt.to_json (object (chat_fields qt c))

-- The loop of ChatInfo::deserialize over memberIds: any bad entry refuses the whole.
unfoldable pub read_member_ids : Qt → Items → Option (List QUuid)
read_member_ids qt nil = some []
read_member_ids qt (cons (str s) rest) =
    let u = qt.uuid_of_string s in
    let more = read_member_ids qt rest in
    if is_null u then none else elim more [ none ↦ none | some us ↦ some (u ∷ us) ]
read_member_ids qt (cons _ rest) = none

abbrev chat_of : Qt → Fields → Option (List QUuid) → Option ChatInfo
chat_of qt fields none = none
chat_of qt fields (some us) = some (record {
  id = qt.uuid_of_string (string_at "id" fields);
  type = string_at "type" fields;
  created_by = qt.uuid_of_string (string_at "createdBy" fields);
  created_at = qt.date_of_string (string_at "createdAt" fields);
  member_ids = us;
})

abbrev chat_with_members : Qt → Fields → Option Items → Option ChatInfo
chat_with_members qt fields none = none
chat_with_members qt fields (some items) = chat_of qt fields (read_member_ids qt items)

unfoldable pub read_chat : Qt → Fields → Option ChatInfo
unfolding contains string_at array_at
read_chat qt fields =
    if not (contains "id" fields)
      || (not (contains "type" fields)
          || (not (contains "createdBy" fields)
              || (not (contains "createdAt" fields) || not (contains "memberIds" fields))))
    then none
    else chat_with_members qt fields (array_at "memberIds" fields)

-- ChatInfo::deserialize
unfoldable pub deserialize_chat : Qt → QByteArray → Option ChatInfo
unfolding read_chat read_member_ids
deserialize_chat qt bytes = elim (qt.from_json bytes) [
  | some (object fields) ↦ read_chat qt fields
  | _ ↦ none
]

-- ChatsInfo::serialize: each chat is serialized, parsed, and appended if it is an object.
unfoldable pub chat_items : Qt → List ChatInfo → Items
chat_items qt [] = nil
chat_items qt (c ∷ cs) = elim (qt.from_json (serialize_chat qt c)) [
  | some (object fields) ↦ cons (obj fields) (chat_items qt cs)
  | _ ↦ chat_items qt cs
]

unfoldable pub serialize_chats : Qt → List ChatInfo → QByteArray
unfolding chat_items serialize_chat
serialize_chats qt cs = qt.to_json (array (chat_items qt cs))

-- The loop of ChatsInfo::deserialize, which prints each element and reads it as a chat.
unfoldable pub read_chats : Qt → Items → Option (List ChatInfo)
read_chats qt nil = some []
read_chats qt (cons (obj fields) rest) =
    let more = read_chats qt rest in
    elim (deserialize_chat qt (qt.to_json (object fields))) [
      | none ↦ none
      | some c ↦ elim more [ none ↦ none | some cs ↦ some (c ∷ cs) ]
    ]
read_chats qt (cons _ rest) = none

-- ChatsInfo::deserialize
unfoldable pub deserialize_chats : Qt → QByteArray → Option (List ChatInfo)
unfolding read_chats deserialize_chat
deserialize_chats qt bytes = elim (qt.from_json bytes) [
  | some (array items) ↦ read_chats qt items
  | _ ↦ none
]

-- The values that a chat's ids are in practice: 128 bits, and no member is the null UUID.
abbrev pub IsMember : QUuid → Type 0
IsMember u = IsUuid u × (u ≢ null_uuid)

-- A chat whose date has lost its milliseconds.
abbrev pub in_seconds : ChatInfo → ChatInfo
in_seconds c = record c { created_at = whole_seconds c.created_at }

pub record IsChat (c : ChatInfo) : Type 0 where
  pub id : IsUuid c.id
  pub created_by : IsUuid c.created_by
  pub created_at : IsDate c.created_at
  pub members : All IsMember c.member_ids

uuid_items-IsStrings : (qt : Qt) (us : List QUuid) → IsStrings (uuid_items qt us)
unfolding uuid_items
uuid_items-IsStrings qt [] = tt
uuid_items-IsStrings qt (u ∷ us) = uuid_items-IsStrings qt us

pub uuid_items-IsItems : (qt : Qt) (us : List QUuid) → IsItems (uuid_items qt us)
uuid_items-IsItems qt us = IsStrings-IsItems (uuid_items qt us) (uuid_items-IsStrings qt us)

chat_fields-IsFields : (qt : Qt) (c : ChatInfo) → IsFields (chat_fields qt c)
unfolding set contains
chat_fields-IsFields qt c = (
  refl,
  (tt, (refl, (tt, (refl, (tt, (refl, (tt, (refl, (uuid_items-IsItems qt c.member_ids, tt))))))))),
)

module _ (qt : Qt) (laws : QtLaws qt) where
  read_member_ids-uuid_items :
      (us : List QUuid) → All IsMember us → read_member_ids qt (uuid_items qt us) ≡ some us
  unfolding read_member_ids uuid_items
  read_member_ids-uuid_items [] v = refl
  read_member_ids-uuid_items (u ∷ us) v =
      ground (arith, laws.uuid_string_round_trip u v.0.0, read_member_ids-uuid_items us v.1)

  read_chat-chat_fields :
      (c : ChatInfo) → IsChat c → read_chat qt (chat_fields qt c) ≡ some (in_seconds c)
  unfolding read_chat set
  read_chat-chat_fields c v = rw (
    read_member_ids-uuid_items c.member_ids v.members,
    laws.uuid_string_round_trip c.id v.id,
    laws.uuid_string_round_trip c.created_by v.created_by,
    laws.date_round_trip c.created_at v.created_at,
  )

  deserialize_chat-object :
      (fields : Fields)
      → IsFields fields
      → deserialize_chat qt (qt.to_json (object fields)) ≡ read_chat qt fields
  unfolding deserialize_chat
  deserialize_chat-object fields h = rw (laws.json_round_trip (object fields) h, deserialize_chat)

  -- A chat of 128-bit UUIDs, members that are not null and a date before the year 10000 is read
  -- back as it was written, but for the milliseconds of its date. Qt's functions satisfy their laws.
  pub deserialize_chat-serialize_chat :
      (c : ChatInfo) → IsChat c → deserialize_chat qt (serialize_chat qt c) ≡ some (in_seconds c)
  unfolding serialize_chat
  deserialize_chat-serialize_chat c v =
      deserialize_chat-object (chat_fields qt c) (chat_fields-IsFields qt c)
      ∙ read_chat-chat_fields c v

  read_chats-chat_items :
      (cs : List ChatInfo)
      → All IsChat cs
      → read_chats qt (chat_items qt cs) ≡ some (map in_seconds cs)
  unfolding chat_items read_chats serialize_chat
  read_chats-chat_items [] v = refl
  read_chats-chat_items (c ∷ cs) v =
      rw (laws.json_round_trip (object (chat_fields qt c)) (chat_fields-IsFields qt c), chat_items)
        (rw (
          deserialize_chat-object (chat_fields qt c) (chat_fields-IsFields qt c),
          read_chat-chat_fields c v.0,
          read_chats-chat_items cs v.1,
          read_chats,
        ))

  chat_items-IsItems : (cs : List ChatInfo) → IsItems (chat_items qt cs)
  unfolding chat_items serialize_chat
  chat_items-IsItems [] = tt
  chat_items-IsItems (c ∷ cs) =
      rw (laws.json_round_trip (object (chat_fields qt c)) (chat_fields-IsFields qt c), chat_items)
        (chat_fields-IsFields qt c, chat_items-IsItems cs)

  -- A list of chats, each of 128-bit UUIDs, members that are not null and a date before the year
  -- 10000, is read back as it was written, in its order. Qt's functions satisfy their laws.
  pub deserialize_chats-serialize_chats :
      (cs : List ChatInfo)
      → All IsChat cs
      → deserialize_chats qt (serialize_chats qt cs) ≡ some (map in_seconds cs)
  unfolding deserialize_chats serialize_chats
  deserialize_chats-serialize_chats cs v =
      rw
        (laws.json_round_trip (array (chat_items qt cs)) (chat_items-IsItems cs), deserialize_chats)
        (read_chats-chat_items cs v)
