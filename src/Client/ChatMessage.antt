-- ===== src/Client/ChatMessage.antt =====
-- client/src/ChatMessage (.h, .cpp): a message in a chat of the client.
--
-- The signals of the setters only refresh the user interface. A QTime is a number of milliseconds.
use qt_chat_app.Prelude.{
  ℕ, Bool, true, false, not, ◌&&◌, Option, none, some, List, [], if◌then◌else◌, has_value, leb,
  ◌==◌,
}
use qt_chat_app.Qt.{QUuid, QString, is_null}
use qt_chat_app.Shared.Payload.Profile.{PublicUserInfo}
use qt_chat_app.Shared.Payload.Request.{UserInfoRequest}
use qt_chat_app.Client.UserResolver.{UserResolver, resolve_user}

pub data Status : Type 0 where
  loading sent delivered read failed received : Status

-- the values of the enum
unfoldable pub int_of_status : Status → ℕ
int_of_status loading = 0
int_of_status sent = 1
int_of_status delivered = 2
int_of_status read = 3
int_of_status failed = 4
int_of_status received = 5

-- `is_waiting`: the message is connected to userResolved.
pub record ChatMessage : Type 0 where
  pub id : QUuid
  pub is_own : Bool
  pub content : QString
  pub sender_user_id : QUuid
  pub sender : QString
  pub time_sent : Option ℕ
  pub time_received : Option ℕ
  pub status : Status
  pub is_waiting : Bool

-- What a constructor gives: the message, the resolver behind it, and the requests that were sent.
pub record Made (A : Type 0) : Type 0 where
  pub value : A
  pub resolver : UserResolver
  pub requests : List UserInfoRequest

abbrev bare_message : QUuid → Bool → QString → QUuid → ChatMessage
bare_message id is_own content sender_user_id = record {
  id = id;
  is_own = is_own;
  content = content;
  sender_user_id = sender_user_id;
  sender = "";
  time_sent = none;
  time_received = none;
  status = loading;
  is_waiting = false;
}

-- `if (m_sender == sender) return; m_sender = …`
abbrev set_sender : QString → ChatMessage → ChatMessage
set_sender sender m = record m { sender = sender }

abbrev named_by : ChatMessage → Option PublicUserInfo → ChatMessage
named_by m (some info) = record m { sender = info.display_name }
named_by m none = record m { sender = "Loading..."; is_waiting = true }

-- ChatMessage::resolveSender, with AccountManager's profileDisplayName
unfoldable pub resolve_sender : Bool → QString → UserResolver → ChatMessage → Made ChatMessage
unfolding resolve_user
resolve_sender connected own_name r m =
    if m.is_own
    then record { value = set_sender own_name m; resolver = r; requests = [] }
    else if is_null m.sender_user_id
    then record { value = set_sender "Unknown" m; resolver = r; requests = [] }
    else let found = resolve_user connected r m.sender_user_id in
      record { value = named_by m found.info; resolver = found.state; requests = found.requests }

-- ChatMessage::ChatMessage, with the UUID that QUuid::createUuid made
unfoldable pub new_message :
    Bool → QString → UserResolver → QUuid → Bool → QString → QUuid → Made ChatMessage
unfolding resolve_sender
new_message connected own_name r id is_own content sender_user_id =
    resolve_sender connected own_name r (bare_message id is_own content sender_user_id)

-- ChatMessage::setTimeSent, setTimeReceived and setStatus
abbrev pub set_time_sent : ℕ → ChatMessage → ChatMessage
set_time_sent time m = record m { time_sent = some time }

abbrev pub set_time_received : ℕ → ChatMessage → ChatMessage
set_time_received time m = record m { time_received = some time }

abbrev pub set_status : Status → ChatMessage → ChatMessage
set_status status m = record m { status = status }

-- ChatMessage::markAsSent, with the present time
unfoldable pub mark_as_sent : ℕ → ChatMessage → ChatMessage
mark_as_sent now m = set_time_sent now (set_status sent m)

-- ChatMessage::markAsReceived, with the present time
unfoldable pub mark_as_received : ℕ → ChatMessage → ChatMessage
mark_as_received now m = set_time_received now (set_status received m)

-- ChatMessage::isSent
unfoldable pub is_sent : ChatMessage → Bool
unfolding int_of_status
is_sent m = m.is_own && leb (int_of_status sent) (int_of_status m.status) && has_value m.time_sent

-- ChatMessage::isReceived
unfoldable pub is_received : ChatMessage → Bool
unfolding int_of_status
is_received m =
    not m.is_own && (int_of_status m.status == int_of_status received) && has_value m.time_received

abbrev format_or_empty : (ℕ → QString) → Option ℕ → QString
format_or_empty format none = ""
format_or_empty format (some time) = format time

-- ChatMessage::formattedTimeSent, with QTime::toString("hh:mm")
unfoldable pub formatted_time_sent : (ℕ → QString) → ChatMessage → QString
formatted_time_sent format m = format_or_empty format m.time_sent

-- ChatMessage::formattedTimeReceived
unfoldable pub formatted_time_received : (ℕ → QString) → ChatMessage → QString
formatted_time_received format m = format_or_empty format m.time_received

-- ChatMessage::statusText
unfoldable pub message_status_text : ChatMessage → QString
message_status_text m = elim m.status [
  | loading ↦ "Sending"
  | sent ↦ "Sent"
  | delivered ↦ "Delivered"
  | read ↦ "Read"
  | failed ↦ "Failed"
  | received ↦ "Received"
]

-- The slot for UserResolver::userResolved.
unfoldable pub on_sender_resolved : QUuid → PublicUserInfo → ChatMessage → ChatMessage
on_sender_resolved user info m =
    if m.is_waiting && (user == m.sender_user_id) then set_sender info.display_name m else m
