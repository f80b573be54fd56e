-- ===== src/Client/AccountManager.antt =====
-- client/src/AccountManager (.h, .cpp): the account's state machine.
--
-- The signals of the setters only refresh the user interface. Whether the client is connected is an
-- argument, and what RequestManager is asked for is part of the state.
pub mod Valid
pub mod Logins
use qt_chat_app.Prelude.{
  Bool, true, false, not, ◌||◌, ◌&&◌, Option, none, some, List, [], ◌∷◌, ◌++◌, if◌then◌else◌,
  str_eq,
}
use qt_chat_app.Qt.{Qt, QUuid, QString}
use qt_chat_app.Shared.Payload.Profile.{ProfileInfo}
use qt_chat_app.Shared.Payload.Result.{OperationResult, OperationResultType, success}
use qt_chat_app.Shared.Username.{normalize_username, is_valid_username}
use qt_chat_app.Client.Hasher.{Hashing, sha256}

pub data Mode : Type 0 where
  login_mode register_mode account_mode : Mode

pub data PendingAction : Type 0 where
  no_action register_action login_action fetch_profile_action logout_action : PendingAction

-- A call of loginUser, registerUser, logoutCurrentUser or getCurrentUserProfile.
pub data AccountRequest : Type 0 where
  login_request : QString → QString → AccountRequest
  registration_request : QString → QString → QString → QString → AccountRequest
  logout_request profile_request : AccountRequest

pub record AccountManager : Type 0 where
  pub user_profile : Option ProfileInfo
  pub mode : Mode
  pub logged_in : Bool
  pub busy : Bool
  pub pending_action : PendingAction
  pub status_text : QString
  pub requested : List AccountRequest

-- AccountManager::AccountManager
abbrev pub new_account_manager : AccountManager
new_account_manager = record {
  user_profile = none;
  mode = login_mode;
  logged_in = false;
  busy = false;
  pending_action = no_action;
  status_text = "";
  requested = [];
}

-- AccountManager::showLogin
unfoldable pub show_login : AccountManager → AccountManager
show_login a =
    if a.busy
    then a
    else record a { status_text = ""; mode = if a.logged_in then account_mode else login_mode }

-- AccountManager::showRegister
unfoldable pub show_register : AccountManager → AccountManager
show_register a =
    if a.busy || a.logged_in then a else record a { status_text = ""; mode = register_mode }

-- What login, registerAccount and logout do when they ask the server.
abbrev pub ask :
    AccountManager → PendingAction → Option ProfileInfo → AccountRequest → AccountManager
ask a action profile request = record a {
  pending_action = action;
  user_profile = profile;
  status_text = "";
  busy = true;
  requested = a.requested ++ request ∷ [];
}

-- AccountManager::login
unfoldable pub login : Qt → Hashing → Bool → AccountManager → QString → QString → AccountManager
unfolding sha256
login qt h connected a name password =
    let normalized = normalize_username qt name in
    if a.busy || not connected
    then a
    else if str_eq normalized "" || str_eq password ""
    then a
    else ask a login_action none (login_request normalized (sha256 qt h password))

-- AccountManager::registerAccount
unfoldable pub register_account :
    Qt → Hashing → Bool → AccountManager → QString → QString → QString → QString → AccountManager
unfolding sha256
register_account qt h connected a username display_name email password =
    let name = normalize_username qt username in
    let shown = qt.trimmed display_name in
    if a.busy || not connected
    then a
    else if not (is_valid_username name)
    then record a {
      status_text =
          "Username must be 2-20 characters and contain only lowercase latin letters, numbers, and underscores";
    }
    else if str_eq shown "" || (str_eq (qt.trimmed email) "" || str_eq password "")
    then a
    else ask a register_action none
        (registration_request name shown (qt.trimmed email) (sha256 qt h password))

-- AccountManager::logout
unfoldable pub log_out : Bool → AccountManager → AccountManager
log_out connected a =
    if a.busy || not connected
    then a
    else if not a.logged_in
    then a
    else ask a logout_action a.user_profile logout_request

abbrev pub user_of : Option ProfileInfo → Option QUuid
user_of none = none
user_of (some profile) = some profile.user_id

-- AccountManager::userId
unfoldable pub user_id : AccountManager → Option QUuid
user_id a = user_of a.user_profile

-- AccountManager::canSendMessages
unfoldable pub can_send_messages : Bool → AccountManager → Bool
can_send_messages connected a = connected && a.logged_in

-- setBusy(false) and PendingAction::None
abbrev pub finish : AccountManager → AccountManager
finish a = record a { busy = false; pending_action = no_action }

-- AccountManager::resetAuthorizationState
unfoldable pub reset_authorization_state : AccountManager → AccountManager
reset_authorization_state a = record a {
  user_profile = none;
  logged_in = false;
  status_text = "";
  mode = login_mode;
}

-- AccountManager::onConnectionStatusChanged
unfoldable pub on_connection_status_changed : Bool → AccountManager → AccountManager
unfolding reset_authorization_state
on_connection_status_changed connected a =
    if connected then a else reset_authorization_state (finish a)

abbrev pub is_success : OperationResultType → Bool
is_success success = true
is_success _ = false

-- The switch of onOperationResultReceived.
unfoldable pub on_result : AccountManager → PendingAction → Bool → QString → AccountManager
unfolding reset_authorization_state
on_result a no_action done message = a
on_result a register_action false message = record (finish a) { status_text = message }
on_result a register_action true message = record (finish a) { status_text = ""; mode = login_mode }
on_result a login_action false message = record (finish a) { status_text = message }
on_result a login_action true message = record a {
  pending_action = fetch_profile_action;
  status_text = "";
  mode = account_mode;
  requested = a.requested ++ profile_request ∷ [];
}
on_result a fetch_profile_action false message = record (reset_authorization_state (finish a)) {
  status_text = message;
}
on_result a fetch_profile_action true message = a
on_result a logout_action false message = record (finish a) { status_text = message }
on_result a logout_action true message = reset_authorization_state (finish a)

-- AccountManager::onOperationResultReceived
unfoldable pub on_operation_result_received : AccountManager → OperationResult → AccountManager
unfolding on_result
on_operation_result_received a result =
    on_result a a.pending_action (is_success result.type) result.text

-- Behind the profile of onCurrentUserProfileReceived, for each pending action.
abbrev pub on_profile : AccountManager → PendingAction → ProfileInfo → AccountManager
on_profile a fetch_profile_action profile = record a {
  user_profile = some profile;
  pending_action = no_action;
  status_text = "";
  logged_in = true;
  mode = account_mode;
  busy = false;
}
on_profile a _ profile = if not a.logged_in then a else record a { user_profile = some profile }

-- AccountManager::onCurrentUserProfileReceived
unfoldable pub on_current_user_profile_received : AccountManager → ProfileInfo → AccountManager
on_current_user_profile_received a profile = on_profile a a.pending_action profile
