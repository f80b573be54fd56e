-- ===== src/Server/Core/Kept.antt =====
-- server/src/Server.cpp: the functions that send leave the database as it is.
use qt_chat_app.Prelude.{◌≡◌, refl, ◌∙◌, List, [], ◌∷◌, arith}
use qt_chat_app.Qt.{Qt, QUuid, QString}
use qt_chat_app.Shared.Packet.{Packet}
use qt_chat_app.Shared.Payload.Profile.{ProfileInfo, PublicUserInfo}
use qt_chat_app.Shared.Payload.ChatList.{ChatInfo}
use qt_chat_app.Server.Session.{Sessions}
use qt_chat_app.Server.Storage.{Storage}
use qt_chat_app.Server.Core.{
  Core, send_packet, send_error, send_success, send_user_profile_data, send_public_user_info_data,
  send_chat_list_data, send_chat_info_data, send_lists, send_updated_chat_lists,
}

module _ (qt : Qt) {D : Type 0} (w : Core D) (r : QUuid) where
  pub db-send_packet : (p : Packet) → (send_packet qt w r p).db ≡ w.db
  unfolding send_packet
  db-send_packet p = ground arith

  pub db-send_error : (m : QString) → (send_error qt w r m).db ≡ w.db
  unfolding send_error
  db-send_error m = db-send_packet _

  pub db-send_success : (m : QString) → (send_success qt w r m).db ≡ w.db
  unfolding send_success
  db-send_success m = db-send_packet _

  pub db-send_user_profile_data :
      (info : ProfileInfo) → (send_user_profile_data qt w r info).db ≡ w.db
  unfolding send_user_profile_data
  db-send_user_profile_data info = db-send_packet _

  pub db-send_public_user_info_data :
      (info : PublicUserInfo) → (send_public_user_info_data qt w r info).db ≡ w.db
  unfolding send_public_user_info_data
  db-send_public_user_info_data info = db-send_packet _

  pub db-send_chat_list_data : (info : List ChatInfo) → (send_chat_list_data qt w r info).db ≡ w.db
  unfolding send_chat_list_data
  db-send_chat_list_data info = db-send_packet _

  pub db-send_chat_info_data : (info : ChatInfo) → (send_chat_info_data qt w r info).db ≡ w.db
  unfolding send_chat_info_data
  db-send_chat_info_data info = db-send_packet _

module _ (qt : Qt) {D : Type 0} (storage : Storage D) where
  db-send_lists :
      (members : List QUuid) (cs : Sessions) (w : Core D)
      → (send_lists qt storage w members cs).db ≡ w.db
  unfolding send_lists
  db-send_lists members [] w = refl
  db-send_lists members ((k, c) ∷ cs) w =
      db-send_lists members cs _ ∙ grind (arith, db-send_chat_list_data)

  pub db-send_updated_chat_lists :
      (w : Core D) (members : List QUuid) → (send_updated_chat_lists qt storage w members).db ≡ w.db
  unfolding send_updated_chat_lists
  db-send_updated_chat_lists w members = db-send_lists members w.clients w
