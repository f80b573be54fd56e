-- ===== src/Shared/Payload/ChatRequest.antt =====
-- shared/src/dto/CreateChatInfo (.h, .cpp): the members that a client asks for in a new chat.
use qt_chat_app.Prelude.{
  All, ◌≡◌, Option, none, some, if◌then◌else◌, refl, List, [], ◌∷◌, arith, ap,
}
use qt_chat_app.Qt.{Qt, QtLaws, QUuid, QByteArray, IsUuid, is_null}
use qt_chat_app.Qt.JsonValue.{
  object, Fields, str, end, set, contains, Items, nil, cons, arr, array_at,
}
use qt_chat_app.Shared.Payload.ChatList.{uuid_items, uuid_items-IsItems}

abbrev create_fields : Qt → List QUuid → Fields
create_fields qt us = set "memberIds" (arr (uuid_items qt us)) end

-- ChatCreateInfo::serialize
unfoldable pub serialize_create : Qt → List QUuid → QByteArray
unfolding set uuid_items
serialize_create qt us = qt.to_json (object (create_fields qt us))

-- The loop of ChatCreateInfo::deserialize: bad entries are passed over.
unfoldable pub read_requested_ids : Qt → Items → List QUuid
read_requested_ids qt nil = []
read_requested_ids qt (cons (str s) rest) =
    let u = qt.uuid_of_string s in
    let more = read_requested_ids qt rest in if is_null u then more else u ∷ more
read_requested_ids qt (cons _ rest) = read_requested_ids qt rest

abbrev requested_ids : Qt → Option Items → Option (List QUuid)
requested_ids qt none = none
requested_ids qt (some items) = some (read_requested_ids qt items)

-- ChatCreateInfo::deserialize
unfoldable pub deserialize_create : Qt → QByteArray → Option (List QUuid)
unfolding array_at read_requested_ids
deserialize_create qt bytes = elim (qt.from_json bytes) [
  | some (object fields) ↦ requested_ids qt (array_at "memberIds" fields)
  | _ ↦ none
]

abbrev pub without_null : List QUuid → List QUuid
without_null [] = []
without_null (u ∷ us) = if is_null u then without_null us else u ∷ without_null us

module _ (qt : Qt) (laws : QtLaws qt) where
  read_requested_ids-uuid_items :
      (us : List QUuid) → All IsUuid us → read_requested_ids qt (uuid_items qt us) ≡ without_null us
  unfolding read_requested_ids uuid_items
  read_requested_ids-uuid_items [] v = refl
  read_requested_ids-uuid_items (u ∷ us) v =
      ground (arith, laws.uuid_string_round_trip u v.0, read_requested_ids-uuid_items us v.1)

  -- A request for a chat is read back with its 128-bit UUIDs in their order, without those that
  -- are null. Qt's functions satisfy their laws.
  pub deserialize_create-serialize_create :
      (us : List QUuid)
      → All IsUuid us
      → deserialize_create qt (serialize_create qt us) ≡ some (without_null us)
  unfolding deserialize_create serialize_create
  deserialize_create-serialize_create us v =
      rw
        (
          laws.json_round_trip (object (create_fields qt us))
              (unfold set contains in (refl, (uuid_items-IsItems qt us, tt))),
          deserialize_create,
        )
        (ap some (read_requested_ids-uuid_items us v))
