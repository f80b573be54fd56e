-- ===== src/Client/ChatCreator/Pending.antt =====
-- client/src/ChatCreator.cpp: a user that is asked for while there is no connection.
use qt_chat_app.Prelude.{◌≡◌, refl, Bool, true, false, Option, none, some, [], arith}
use qt_chat_app.Qt.{Qt, QString}
use qt_chat_app.Shared.Payload.Profile.{ProfileInfo}
use qt_chat_app.Shared.Username.{normalize_username, is_valid_username}
use qt_chat_app.Client.Hash.{lookup, string_key}
use qt_chat_app.Client.UserResolver.{UserResolver, resolve_username}
use qt_chat_app.Client.ChatManager.{ChatManager}
use qt_chat_app.Client.ChatCreator.{ChatCreator, add_user, create_chat, has_member, is_own_name}

module _ (qt : Qt) where
  -- A name that the client does not know, without a connection.
  resolve_username-unconnected :
      (r : UserResolver) (text : QString)
      → lookup string_key (normalize_username qt text) r.username_cache ≡ none
      → resolve_username qt false r text ≡ record { state = r; info = none; requests = [] }
  unfolding resolve_username
  resolve_username-unconnected r text h = ground arith

  add_user-waiting :
      (connected : Bool) (profile : Option ProfileInfo) (text name : QString) (r : UserResolver)
      → (c : ChatCreator) → c.pending_username ≡ some name
      → add_user qt connected profile text r c ≡ record { value = c; resolver = r; requests = [] }
  unfolding add_user
  add_user-waiting connected profile text name r c h = ground arith

  create_chat-waiting :
      (manager : ChatManager) (name : QString) (c : ChatCreator)
      → c.pending_username ≡ some name
      → create_chat manager c ≡ c
  unfolding create_chat
  create_chat-waiting manager name c h = ground arith

  -- Without a connection, ChatCreator::addUser, while nobody is waited for, with a valid name
  -- that is neither the user's own nor a member's nor known to the client, sends no request and
  -- waits for the name; from then on no call of addUser, connected or not, changes the creator
  -- or the known users or sends a request, and createChat changes nothing in the creator and
  -- asks for no chat.
  pub add_user-unconnected :
      (profile : Option ProfileInfo) (text : QString) (r : UserResolver) (c : ChatCreator)
      → c.pending_username ≡ none
      → is_valid_username (normalize_username qt text) ≡ true
      → is_own_name (normalize_username qt text) profile ≡ false
      → has_member (normalize_username qt text) c.members ≡ false
      → lookup string_key (normalize_username qt (normalize_username qt text)) r.username_cache
        ≡ none
      → let a = add_user qt false profile text r c in
        (a.requests ≡ [])
        × (a.resolver ≡ r)
        × (a.value.pending_username ≡ some (normalize_username qt text))
        × ((connected : Bool) (profile' : Option ProfileInfo) (other : QString) (r' : UserResolver)
            → add_user qt connected profile' other r' a.value
              ≡ record { value = a.value; resolver = r'; requests = [] })
        × ((manager : ChatManager) → create_chat manager a.value ≡ a.value)
  unfolding add_user
  add_user-unconnected profile text r c free valid own member unknown =
      let name = normalize_username qt text in
      let waiting = record c { pending_username = some name; status_text = "Loading..." } in
      let e : add_user qt false profile text r c
          ≡ record { value = waiting; resolver = r; requests = [] } =
        ground (arith, resolve_username-unconnected r name unknown) in
      rw e (
        refl,
        refl,
        refl,
        λ connected profile' other r'.
            add_user-waiting connected profile' other name r' waiting refl,
        λ manager. create_chat-waiting manager name waiting refl,
      )
