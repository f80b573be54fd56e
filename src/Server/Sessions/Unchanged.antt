-- ===== src/Server/Sessions/Unchanged.antt =====
-- server/src/Server.cpp: the functions and handlers that leave m_clients as it is.
use qt_chat_app.Prelude.{ℕ, ◌≡◌, refl, ◌∙◌, List, [], ◌∷◌, arith}
use qt_chat_app.Qt.{Qt, QUuid, QString}
use qt_chat_app.Shared.Packet.{Packet}
use qt_chat_app.Shared.Payload.Profile.{ProfileInfo, PublicUserInfo}
use qt_chat_app.Shared.Payload.ChatList.{ChatInfo}
use qt_chat_app.Shared.Payload.ChatText.{Message}
use qt_chat_app.Server.Session.{Socket, Sessions}
use qt_chat_app.Server.Storage.{Storage}
use qt_chat_app.Server.Core.{
  Core, send_packet, send_error, send_success, send_chat_list_data, send_chat_info_data,
  send_user_profile_data, send_public_user_info_data, send_lists, send_updated_chat_lists,
}
use qt_chat_app.Server.Auth.{handle_register_user}
use qt_chat_app.Server.Profile.{
  handle_get_user_profile, handle_update_user_profile, handle_get_user_info,
}
use qt_chat_app.Server.Chats.{handle_get_chats, handle_search_chats, handle_create_chat}
use qt_chat_app.Server.Routing.{route, handle_authorized_packet}

module _ (qt : Qt) {D : Type 0} where
  pub clients-send_packet :
      (w : Core D) (r : QUuid) (p : Packet) → (send_packet qt w r p).clients ≡ w.clients
  unfolding send_packet
  clients-send_packet w r p = ground arith

  pub clients-send_error :
      (w : Core D) (r : QUuid) (m : QString) → (send_error qt w r m).clients ≡ w.clients
  unfolding send_error send_packet
  clients-send_error w r m = ground arith

  pub clients-send_success :
      (w : Core D) (r : QUuid) (m : QString) → (send_success qt w r m).clients ≡ w.clients
  unfolding send_success send_packet
  clients-send_success w r m = ground arith

  pub clients-send_user_profile_data :
      (w : Core D) (r : QUuid) (info : ProfileInfo)
      → (send_user_profile_data qt w r info).clients ≡ w.clients
  unfolding send_user_profile_data
  clients-send_user_profile_data w r info = clients-send_packet w r _

  pub clients-send_public_user_info_data :
      (w : Core D) (r : QUuid) (info : PublicUserInfo)
      → (send_public_user_info_data qt w r info).clients ≡ w.clients
  unfolding send_public_user_info_data
  clients-send_public_user_info_data w r info = clients-send_packet w r _

  pub clients-send_chat_list_data :
      (w : Core D) (r : QUuid) (info : List ChatInfo)
      → (send_chat_list_data qt w r info).clients ≡ w.clients
  unfolding send_chat_list_data
  clients-send_chat_list_data w r info = clients-send_packet w r _

  pub clients-send_chat_info_data :
      (w : Core D) (r : QUuid) (info : ChatInfo)
      → (send_chat_info_data qt w r info).clients ≡ w.clients
  unfolding send_chat_info_data
  clients-send_chat_info_data w r info = clients-send_packet w r _

  pub clients-route :
      (session : QUuid) (members : List QUuid) (m : Message) (cs : Sessions) (w : Core D)
      → (route qt w session members m cs).clients ≡ w.clients
  unfolding route
  clients-route session members m [] w = refl
  clients-route session members m ((k, c) ∷ cs) w =
      clients-route session members m cs _ ∙ ground arith

ruleset sends = (
  arith, clients-send_error, clients-send_success, clients-send_user_profile_data,
  clients-send_public_user_info_data, clients-send_chat_list_data, clients-send_chat_info_data,
)

module _ (qt : Qt) {D : Type 0} (storage : Storage D) where
  clients-send_lists :
      (members : List QUuid) (cs : Sessions) (w : Core D)
      → (send_lists qt storage w members cs).clients ≡ w.clients
  unfolding send_lists send_chat_list_data send_packet
  clients-send_lists members [] w = refl
  clients-send_lists members ((k, c) ∷ cs) w = clients-send_lists members cs _ ∙ ground arith

  pub clients-send_updated_chat_lists :
      (w : Core D) (members : List QUuid)
      → (send_updated_chat_lists qt storage w members).clients ≡ w.clients
  unfolding send_updated_chat_lists
  clients-send_updated_chat_lists w members = clients-send_lists members w.clients w

  pub clients-handle_register_user :
      (w : Core D) (s : Socket) (fresh : QUuid) (p : Packet)
      → (handle_register_user qt storage w s fresh p).clients ≡ w.clients
  unfolding handle_register_user
  clients-handle_register_user w s fresh p = grind sends

  pub clients-handle_get_user_profile :
      (w : Core D) (s : Socket) (p : Packet)
      → (handle_get_user_profile qt storage w s p).clients ≡ w.clients
  unfolding handle_get_user_profile
  clients-handle_get_user_profile w s p = grind sends

  pub clients-handle_update_user_profile :
      (w : Core D) (s : Socket) (p : Packet)
      → (handle_update_user_profile qt storage w s p).clients ≡ w.clients
  unfolding handle_update_user_profile
  clients-handle_update_user_profile w s p = grind sends

  pub clients-handle_get_user_info :
      (w : Core D) (s : Socket) (p : Packet)
      → (handle_get_user_info qt storage w s p).clients ≡ w.clients
  unfolding handle_get_user_info
  clients-handle_get_user_info w s p = grind sends

  pub clients-handle_get_chats :
      (w : Core D) (s : Socket) (p : Packet)
      → (handle_get_chats qt storage w s p).clients ≡ w.clients
  unfolding handle_get_chats
  clients-handle_get_chats w s p = grind sends

  pub clients-handle_search_chats :
      (w : Core D) (s : Socket) (p : Packet)
      → (handle_search_chats qt storage w s p).clients ≡ w.clients
  unfolding handle_search_chats
  clients-handle_search_chats w s p = grind sends

  pub clients-handle_create_chat :
      (w : Core D) (s : Socket) (fresh : QUuid) (now : ℕ) (p : Packet)
      → (handle_create_chat qt storage w s fresh now p).clients ≡ w.clients
  unfolding handle_create_chat
  clients-handle_create_chat w s fresh now p = grind (sends, clients-send_updated_chat_lists)

  pub clients-handle_authorized_packet :
      (w : Core D) (p : Packet) → (handle_authorized_packet qt storage w p).clients ≡ w.clients
  unfolding handle_authorized_packet
  clients-handle_authorized_packet w p = grind (sends, clients-route)
