-- ===== src/Shared/Payload/RoundTrips.antt =====
-- shared/src/dto and shared/src/OperationResult.cpp: what one side writes, the other side reads.
use qt_chat_app.Prelude.{◌≡◌, none, some, List, map, All, if◌then◌else◌}
use qt_chat_app.Qt.{Qt, QtLaws, QUuid, IsUuid}
use qt_chat_app.Shared.Payload.Account.{
  LoginInfo, RegisterInfo, serialize_login, deserialize_login, serialize_register,
  deserialize_register, deserialize_login-serialize_login, deserialize_register-serialize_register,
}
use qt_chat_app.Shared.Payload.Profile.{
  ProfileInfo, PublicUserInfo, ProfileUpdateInfo, is_empty_update, serialize_profile,
  deserialize_profile, serialize_public_user, deserialize_public_user, serialize_update,
  deserialize_update, deserialize_profile-serialize_profile,
  deserialize_public_user-serialize_public_user, deserialize_update-serialize_update,
}
use qt_chat_app.Shared.Payload.Request.{
  UserInfoRequest, IsRequest, serialize_request, deserialize_request,
  deserialize_request-serialize_request,
}
use qt_chat_app.Shared.Payload.ChatList.{
  ChatInfo, IsChat, in_seconds, serialize_chats, deserialize_chats,
  deserialize_chats-serialize_chats,
}
use qt_chat_app.Shared.Payload.ChatRequest.{
  without_null, serialize_create, deserialize_create, deserialize_create-serialize_create,
}
use qt_chat_app.Shared.Payload.ChatText.{
  Message, IsMessage, serialize_message, deserialize_message, deserialize_message-serialize_message,
}
use qt_chat_app.Shared.Payload.Result.{
  OperationResult, IsResultType, serialize_result, deserialize_result,
  deserialize_result-serialize_result,
}

module _ (qt : Qt) (laws : QtLaws qt) where
  -- A login, a registration, a profile update that sets something, a profile, a user's public
  -- data, a request for a user by id or name, an outcome and a message are read back as they
  -- were written, and a list of chats in its order, with each chat as it was but for the
  -- milliseconds of its date; an update that sets nothing is refused, and a request for a chat
  -- loses the ids that are null. The ids have 128 bits, the outcome's type is one that its byte
  -- can carry, the message's type is an int, the chats' members are not null, the chats' dates
  -- are before the year 10000, and Qt's functions satisfy their laws.
  pub payload_round_trips :
      (login : LoginInfo) (registration : RegisterInfo) (update : ProfileUpdateInfo)
      → (profile : ProfileInfo) (user : PublicUserInfo) (request : UserInfoRequest)
      → (members : List QUuid) (outcome : OperationResult) (message : Message)
      → (chats : List ChatInfo) → IsUuid profile.user_id
      → IsUuid user.user_id
      → IsRequest request
      → All IsUuid members
      → IsResultType outcome.type
      → IsMessage message
      → All IsChat chats
      → (deserialize_login qt (serialize_login qt login) ≡ some login)
        × (deserialize_register qt (serialize_register qt registration) ≡ some registration)
        × (deserialize_update qt (serialize_update qt update)
            ≡ (if is_empty_update update then none else some update))
        × (deserialize_profile qt (serialize_profile qt profile) ≡ some profile)
        × (deserialize_public_user qt (serialize_public_user qt user) ≡ some user)
        × (deserialize_request qt (serialize_request qt request) ≡ some request)
        × (deserialize_create qt (serialize_create qt members) ≡ some (without_null members))
        × (deserialize_result qt (serialize_result qt outcome) ≡ outcome)
        × (deserialize_message qt (serialize_message qt message) ≡ message)
        × (deserialize_chats qt (serialize_chats qt chats) ≡ some (map in_seconds chats))
  payload_round_trips login registration update profile user request members outcome message chats p
        u r ms o t cs =
      (
        deserialize_login-serialize_login qt laws login,
        deserialize_register-serialize_register qt laws registration,
        deserialize_update-serialize_update qt laws update,
        deserialize_profile-serialize_profile qt laws profile p,
        deserialize_public_user-serialize_public_user qt laws user u,
        deserialize_request-serialize_request qt laws request r,
        deserialize_create-serialize_create qt laws members ms,
        deserialize_result-serialize_result qt laws outcome o,
        deserialize_message-serialize_message qt laws message t,
        deserialize_chats-serialize_chats qt laws chats cs,
      )
