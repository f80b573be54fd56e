-- ===== src/Client/Chat/Label.antt =====
-- client/src/Chat.cpp: the label of a chat, which names its other members.
use qt_chat_app.Prelude.{Bool, Option, none, some, [], ◌∷◌, ◌++◌, if◌then◌else◌, str_eq}
use qt_chat_app.Qt.{QString, is_null}
use qt_chat_app.Shared.Payload.Profile.{PublicUserInfo}
use qt_chat_app.Client.UserResolver.{UserResolver, resolve_user}
use qt_chat_app.Client.ChatMessage.{Made}
use Prim.Native.String.{◌++◌ as str_append}
use qt_chat_app.Client.Chat.{Chat, UuidSet}

-- `userInfo.has_value() ? userInfo->displayName() : "Loading..."`
abbrev display_name_of : Option PublicUserInfo → QString
display_name_of none = "Loading..."
display_name_of (some info) = info.display_name

abbrev append_name : QString → QString → QString
append_name label name =
    if str_eq label "" then str_append label name else str_append (str_append label ", ") name

-- The loop of Chat::label, with the label so far.
unfoldable pub label_of : Bool → QString → UserResolver → UuidSet → Made QString
unfolding resolve_user
label_of connected label r [] = record { value = label; resolver = r; requests = [] }
label_of connected label r ((user, u) ∷ users) =
    let found = resolve_user connected r user in
    let known =
      label_of connected (append_name label (display_name_of found.info)) found.state users in
    let unknown = label_of connected (append_name label "Unknown") r users in
    if is_null user then unknown else record known { requests = found.requests ++ known.requests }

-- Chat::label
unfoldable pub chat_label : Bool → UserResolver → Chat → Made QString
unfolding label_of
chat_label connected r c = label_of connected "" r c.other_members
