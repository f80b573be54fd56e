-- ===== src/Client/ChatManager/Received.antt =====
-- client/src/ChatManager.cpp: which chats there are after onChatListReceived, and what any calls
-- and signals leave.
use qt_chat_app.Prelude.{
  ◌≡◌, refl, sym, ap, subst, ◌∙◌, Bool, true, false, not, ◌&&◌, ◌||◌, Option, none, some, List, [],
  ◌∷◌, has_value, ◌==◌, ==_iff, Bool-cases, Option-cases, inl, inr, arith,
}
use qt_chat_app.Qt.{QUuid, is_null}
use qt_chat_app.Shared.Payload.ChatList.{ChatInfo}
use qt_chat_app.Client.Hash.{lookup, insert, uuid_key, lookup-insert, lookup-insert_other}
use qt_chat_app.Client.UserResolver.{UserResolver}
use qt_chat_app.Client.Chat.{Chat, make_chat}
use qt_chat_app.Client.ChatManager.{
  ChatManager, select_chat, add_chat, remove_chat, set_other_members, members_of, receive_chat,
  receive_chats, is_listed, remove_unlisted, reselect, on_chat_list_received,
}
use qt_chat_app.Client.ChatManager.Valid.{
  has_chat, is_in, IsValid, has_chat-add_chat, has_chat-remove_chat, select_chat-IsValid,
  add_chat-IsValid, remove_chat-IsValid,
}

-- A chat of the table is replaced.
abbrev replaced : QUuid → Chat → ChatManager → ChatManager
replaced k c m = record m { chat_storage = insert uuid_key k c m.chat_storage }

has_chat-replaced :
    (j k : QUuid) (c : Chat) (m : ChatManager)
    → has_chat k m ≡ true
    → has_chat j (replaced k c m) ≡ has_chat j m
has_chat-replaced j k c m known = elim (Bool-cases (k == j)) [
  | inr other ↦ ap has_value (lookup-insert_other uuid_key j k c m.chat_storage other)
  | inl same ↦
      subst (λ x. has_chat x (replaced k c m) ≡ has_chat x m) ((==_iff k j).0 same)
        (ap has_value (lookup-insert uuid_key k c m.chat_storage) ∙ sym known)
]

has_chat-known :
    (j k : QUuid) (m : ChatManager) → has_chat k m ≡ true → has_chat j m ≡ (k == j || has_chat j m)
has_chat-known j k m known = elim (Bool-cases (k == j)) [
  | inr other ↦ rw other refl
  | inl same ↦ rw same (subst (λ x. has_chat x m ≡ true) ((==_iff k j).0 same) known)
]

replaced-IsValid :
    (k : QUuid) (c : Chat) (m : ChatManager)
    → has_chat k m ≡ true
    → IsValid m
    → IsValid (replaced k c m)
replaced-IsValid k c m known v = record {
  listed = λ j. v.listed j ∙ sym (has_chat-replaced j k c m known);
  selected = λ j e. has_chat-replaced j k c m known ∙ v.selected j e;
}

module _ (connected : Bool) (user : Option QUuid) where
  -- What the first loop does for one chat.
  receive_chat_lem :
      (info : ChatInfo) (r : UserResolver) (m : ChatManager)
      → IsValid m
      → IsValid (receive_chat connected user info r m).value
        × ((j : QUuid)
            → has_chat j (receive_chat connected user info r m).value
              ≡ (info.id == j || has_chat j m))
  unfolding receive_chat make_chat
  receive_chat_lem info r m v = elim (Option-cases (lookup uuid_key info.id m.chat_storage)) [
    | inl fresh ↦
        let c = (make_chat connected r info.id (members_of user info)).value in
        let e : (receive_chat connected user info r m).value ≡ add_chat c m = ground arith in
        rw e (add_chat-IsValid c m v, λ j. has_chat-add_chat j c m)
    | inr (existing, found) ↦
        let c = (set_other_members connected r (members_of user info) existing).value in
        let e : (receive_chat connected user info r m).value ≡ replaced info.id c m =
          ground arith in
        let known : has_chat info.id m ≡ true = ground arith in
        rw e (
          replaced-IsValid info.id c m known v,
          λ j. has_chat-replaced j info.id c m known ∙ has_chat-known j info.id m known,
        )
  ]

  receive_chats_lem :
      (infos : List ChatInfo) (r : UserResolver) (m : ChatManager)
      → IsValid m
      → IsValid (receive_chats connected user infos r m).value
        × ((j : QUuid)
            → has_chat j (receive_chats connected user infos r m).value
              ≡ (is_listed j infos || has_chat j m))
  unfolding receive_chats is_listed
  receive_chats_lem [] r m v = (v, λ j. refl)
  receive_chats_lem (info ∷ infos) r m v =
      let c = receive_chat connected user info r m in
      let (valid, has) = receive_chat_lem info r m v in
      let (valid', has') = receive_chats_lem infos c.resolver c.value valid in
      (valid', λ j. rw (has' j, has j) (ground arith))

is_listed-same :
    (infos : List ChatInfo) (k j : QUuid) (b : Bool)
    → is_listed k infos ≡ b
    → k == j ≡ true
    → is_listed j infos ≡ b
is_listed-same infos k j b h same = subst (λ x. is_listed x infos ≡ b) ((==_iff k j).0 same) h

remove_unlisted_lem :
    (infos : List ChatInfo) (ids : List QUuid) (m : ChatManager)
    → IsValid m
    → IsValid (remove_unlisted infos ids m)
      × ((j : QUuid)
          → has_chat j (remove_unlisted infos ids m)
            ≡ (has_chat j m && (is_listed j infos || not (is_in j ids))))
unfolding remove_unlisted
remove_unlisted_lem infos [] m v = (v, λ j. ground arith)
remove_unlisted_lem infos (id ∷ ids) m v = elim (Bool-cases (is_listed id infos)) [
  | inl listed ↦
      let (valid, has) = remove_unlisted_lem infos ids m v in
      rw (remove_unlisted, listed)
        (
          valid,
          λ j. elim (Bool-cases (id == j)) [
            | inl same ↦ rw (has j, same, is_listed-same infos id j true listed same) refl
            | inr apart ↦ rw (has j, apart) refl
          ],
        )
  | inr other ↦
      let (valid, has) =
        remove_unlisted_lem infos ids (remove_chat id m) (remove_chat-IsValid id m v) in
      rw (remove_unlisted, other)
        (
          valid,
          λ j. elim (Bool-cases (id == j)) [
            | inl same ↦
                rw
                  (
                    has j,
                    has_chat-remove_chat j id m,
                    same,
                    is_listed-same infos id j false other same,
                  )
                  (ground arith)
            | inr apart ↦ rw (has j, has_chat-remove_chat j id m, apart) (ground arith)
          ],
        )
]

reselect-chats :
    (o : Option QUuid) (m : ChatManager)
    → IsValid m
    → IsValid (reselect o m) × ((j : QUuid) → has_chat j (reselect o m) ≡ has_chat j m)
unfolding select_chat
reselect-chats none m v = (v, λ j. refl)
reselect-chats (some id) m v = elim (Bool-cases (is_null id)) [
  | inl null ↦ rw null (v, λ j. refl)
  | inr other ↦ rw other (select_chat-IsValid id m v, λ j. ground arith)
]

-- From chats in which the list, the table and the selection agree,
-- ChatManager::onChatListReceived leads to chats in which they agree again, and the client has
-- exactly the chats of the server's list.
pub on_chat_list_received-is_listed :
    (connected : Bool) (user : Option QUuid) (infos : List ChatInfo) (r : UserResolver)
    → (m : ChatManager) → IsValid m
    → let m' = (on_chat_list_received connected user infos r m).value in
      IsValid m' × ((j : QUuid) → has_chat j m' ≡ is_listed j infos)
unfolding on_chat_list_received
on_chat_list_received-is_listed connected user infos r m v =
    let m₁ = (receive_chats connected user infos r m).value in
    let (valid₁, has₁) = receive_chats_lem connected user infos r m v in
    let (valid₂, has₂) = remove_unlisted_lem infos m₁.chat_list m₁ valid₁ in
    let (valid₃, has₃) =
      reselect-chats m.selected_chat (remove_unlisted infos m₁.chat_list m₁) valid₂ in
    (valid₃, λ j. rw (has₃ j, has₂ j, valid₁.listed j, has₁ j) (ground arith))
