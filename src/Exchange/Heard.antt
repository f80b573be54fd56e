-- ===== src/Exchange/Heard.antt =====
-- client/src/RequestManager.cpp: what the client makes of the answers to a login and to a request for
-- the profile.
use qt_chat_app.Prelude.{◌≡◌, refl, ap, ◌∙◌, false, [], ◌∷◌, ◌++◌, append_assoc, arith, is_empty}
use qt_chat_app.Qt.{Qt, QtLaws, QUuid, IsUuid}
use qt_chat_app.Shared.Stream.{encapsulate}
use qt_chat_app.Shared.Payload.Profile.{
  ProfileInfo, serialize_profile, deserialize_profile-serialize_profile,
}
use qt_chat_app.Shared.Payload.Result.{
  OperationResult, success, serialize_result, deserialize_result-serialize_result,
}
use qt_chat_app.Shared.PacketFactory.{operation_success_packet, user_profile_data_packet}
use qt_chat_app.Client.RequestManager.{
  RequestManager, operation_result_received, current_user_profile_received, signals_of,
  process_packet, process_bytes, update_server_id, read_with,
}
use qt_chat_app.Client.RequestManager.Replies.{kept, process_bytes-encapsulate}

-- What the client is told about its login.
abbrev pub accepted : OperationResult
accepted = record { type = success; text = "Login successful" }

update_server_id-IsUuid :
    (m : RequestManager) (id : QUuid)
    → IsUuid m.server_id
    → IsUuid id
    → IsUuid (update_server_id m id).server_id
unfolding update_server_id
update_server_id-IsUuid m id h k = ground arith

-- An answer that was read changes neither the buffer nor the session id.
update_server_id-kept :
    (m : RequestManager) (id : QUuid)
    → ((update_server_id m id).incoming_buffer ≡ m.incoming_buffer)
      × ((update_server_id m id).session_id ≡ m.session_id)
unfolding update_server_id
update_server_id-kept m id = ground arith

module _ (qt : Qt) (laws : QtLaws qt) where
  -- What the client makes of the two answers.
  process_bytes-accepted :
      (m : RequestManager) (server session : QUuid)
      → IsUuid server
      → IsUuid session
      → m.incoming_buffer ≡ []
      → process_bytes qt m
          (encapsulate qt (operation_success_packet qt server session accepted.text))
        ≡ record (update_server_id m server) {
          emitted = m.emitted ++ operation_result_received accepted ∷ [];
        }
  unfolding operation_success_packet process_packet signals_of serialize_result
  process_bytes-accepted m server session h k empty =
      process_bytes-encapsulate qt m (operation_success_packet qt server session accepted.text) laws
        (record { type = tt; sender = h; receiver = k }) empty
      ∙ rw (deserialize_result-serialize_result qt laws accepted tt) refl

  process_bytes-profile :
      (m : RequestManager) (server session : QUuid) (profile : ProfileInfo)
      → IsUuid server
      → IsUuid session
      → IsUuid profile.user_id
      → m.incoming_buffer ≡ []
      → process_bytes qt m (encapsulate qt (user_profile_data_packet qt server session profile))
        ≡ record (update_server_id m server) {
          emitted = m.emitted ++ current_user_profile_received profile ∷ [];
        }
  unfolding user_profile_data_packet process_packet signals_of
  process_bytes-profile m server session profile h k u empty =
      let not_empty : is_empty (serialize_profile qt profile) ≡ false =
        unfold serialize_profile in laws.json_not_empty _ in
      process_bytes-encapsulate qt m (user_profile_data_packet qt server session profile) laws
        (record { type = tt; sender = h; receiver = k }) empty
      ∙ rw
          (
            kept (serialize_profile qt profile) not_empty,
            read_with,
            deserialize_profile-serialize_profile qt laws profile u,
          )
          refl

  -- The client's side: the first answer leaves the session id and an empty buffer, and both give
  -- their signals.
  pub process_bytes-served :
      (m : RequestManager) (server : QUuid) (profile : ProfileInfo)
      → IsUuid m.session_id
      → IsUuid m.server_id
      → IsUuid server
      → IsUuid profile.user_id
      → m.incoming_buffer ≡ []
      → let m' =
          process_bytes qt m
            (encapsulate qt (operation_success_packet qt server m.session_id accepted.text)) in
        (m'.session_id ≡ m.session_id)
        × IsUuid m'.server_id
        × ((process_bytes qt m'
              (encapsulate qt (user_profile_data_packet qt server m.session_id profile))).emitted
            ≡ m.emitted
              ++ operation_result_received accepted ∷ current_user_profile_received profile ∷ [])
  process_bytes-served m server profile session named uuid id empty =
      let (buffer_kept, session_kept) = update_server_id-kept m server in
      let m' = record (update_server_id m server) {
        emitted = m.emitted ++ operation_result_received accepted ∷ [];
      } in
      rw (process_bytes-accepted m server m.session_id uuid session empty) (
        session_kept,
        update_server_id-IsUuid m server named uuid,
        ap (λ (n : RequestManager). n.emitted)
              (process_bytes-profile m' server m.session_id profile uuid session id
                (buffer_kept ∙ empty))
            ∙ append_assoc m.emitted _ _,
      )
