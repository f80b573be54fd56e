-- ===== src/Client/UserResolver.antt =====
-- client/src/UserResolver (.h, .cpp): the users that the client knows, and the requests for others.
pub mod Requests
pub mod Keyed
use qt_chat_app.Prelude.{
  ℕ, Bool, true, false, not, Option, none, some, List, [], ◌∷◌, if◌then◌else◌, has_value, str_eq,
}
use qt_chat_app.Qt.{Qt, QUuid, QString, null_uuid, is_null}
use qt_chat_app.Shared.Payload.Profile.{PublicUserInfo}
use qt_chat_app.Shared.Payload.Request.{UserInfoRequest, request_by_id, request_by_name}
use qt_chat_app.Shared.Payload.Result.{
  OperationResult, OperationResultType, success, error, unlisted,
}
use qt_chat_app.Shared.Username.{normalize_username, remove_at_sign}
use qt_chat_app.Client.Hash.{lookup, insert, remove, uuid_key, string_key}

pub record UserResolver : Type 0 where
  pub cache : List (QUuid × PublicUserInfo)
  pub username_cache : List (QString × QUuid)
  pub pending_requests : List (QUuid × Unit {0})
  pub pending_username_requests : List (QString × Unit {0})

-- What a call of resolveUser gives: the state behind it, the result, and the requests that
-- RequestManager::getUserInfo was called with.
pub record Resolution : Type 0 where
  pub state : UserResolver
  pub info : Option PublicUserInfo
  pub requests : List UserInfoRequest

abbrev pub resolution : UserResolver → Option PublicUserInfo → Resolution
resolution r info = record { state = r; info = info; requests = [] }

-- What QHash::value gives for a key that is missing.
abbrev pub no_info : PublicUserInfo
no_info = record { user_id = null_uuid; username = ""; display_name = "" }

abbrev pub value_or_default : Option PublicUserInfo → PublicUserInfo
value_or_default none = no_info
value_or_default (some info) = info

abbrev pub request_user : Bool → UserResolver → QUuid → Resolution
request_user connected r user =
    if has_value (lookup uuid_key user r.pending_requests)
    then resolution r none
    else if not connected
    then resolution r none
    else record {
      state = record r { pending_requests = insert uuid_key user tt r.pending_requests };
      info = none;
      requests = request_by_id user ∷ [];
    }

abbrev pub resolve_cached : Bool → UserResolver → QUuid → Option PublicUserInfo → Resolution
resolve_cached connected r user (some info) = resolution r (some info)
resolve_cached connected r user none = request_user connected r user

-- UserResolver::resolveUser(const QUuid&), with Client::instance().connected()
unfoldable pub resolve_user : Bool → UserResolver → QUuid → Resolution
unfolding lookup insert
resolve_user connected r user =
    if is_null user
    then resolution r none
    else resolve_cached connected r user (lookup uuid_key user r.cache)

-- RequestManager::getUserInfo(QString) trims the name again, and drops an '@' in front of it.
abbrev pub request_named : Qt → QString → UserInfoRequest
request_named qt name = request_by_name (remove_at_sign (qt.trimmed name))

abbrev pub request_username : Qt → Bool → UserResolver → QString → Resolution
request_username qt connected r name =
    if has_value (lookup string_key name r.pending_username_requests)
    then resolution r none
    else if not connected
    then resolution r none
    else record {
      state = record r {
        pending_username_requests = insert string_key name tt r.pending_username_requests;
      };
      info = none;
      requests = request_named qt name ∷ [];
    }

abbrev pub resolve_named : Qt → Bool → UserResolver → QString → Option QUuid → Resolution
resolve_named qt connected r name (some user) =
    resolution r (some (value_or_default (lookup uuid_key user r.cache)))
resolve_named qt connected r name none = request_username qt connected r name

-- UserResolver::resolveUser(QString)
unfoldable pub resolve_username : Qt → Bool → UserResolver → QString → Resolution
unfolding lookup insert remove_at_sign
resolve_username qt connected r username =
    let name = normalize_username qt username in
    if str_eq name ""
    then resolution r none
    else resolve_named qt connected r name (lookup string_key name r.username_cache)

abbrev pub forget_name : Option PublicUserInfo → List (QString × QUuid) → List (QString × QUuid)
forget_name none names = names
forget_name (some info) names = remove string_key info.username names

-- UserResolver::invalidateUser(const QUuid&)
unfoldable pub invalidate_user : UserResolver → QUuid → UserResolver
unfolding lookup remove
invalidate_user r user = record r {
  cache = remove uuid_key user r.cache;
  username_cache = forget_name (lookup uuid_key user r.cache) r.username_cache;
  pending_requests = remove uuid_key user r.pending_requests;
}

abbrev pub forget_user : UserResolver → QString → Option QUuid → UserResolver
forget_user r name none = r
forget_user r name (some user) = record r {
  cache = remove uuid_key user r.cache;
  username_cache = remove string_key name r.username_cache;
  pending_requests = remove uuid_key user r.pending_requests;
}

abbrev pub forget_pending : UserResolver → QString → UserResolver
forget_pending r name = record r {
  pending_username_requests = remove string_key name r.pending_username_requests;
}

-- UserResolver::invalidateUser(QString)
unfoldable pub invalidate_username : Qt → UserResolver → QString → UserResolver
unfolding lookup remove
invalidate_username qt r username =
    let name = normalize_username qt username in
    if str_eq name ""
    then r
    else forget_pending (forget_user r name (lookup string_key name r.username_cache)) name

-- UserResolver::clearCache
unfoldable pub clear_cache : UserResolver → UserResolver
clear_cache r = record {
  cache = [];
  username_cache = [];
  pending_requests = [];
  pending_username_requests = [];
}

-- UserResolver::onPublicUserInfoReceived
unfoldable pub on_public_user_info_received : UserResolver → PublicUserInfo → UserResolver
unfolding insert remove
on_public_user_info_received r info = if is_null info.user_id then r else record {
  cache = insert uuid_key info.user_id info r.cache;
  username_cache = insert string_key info.username info.user_id r.username_cache;
  pending_requests = remove uuid_key info.user_id r.pending_requests;
  pending_username_requests = remove string_key info.username r.pending_username_requests;
}

abbrev pub clear_pending : UserResolver → UserResolver
clear_pending r = record r { pending_requests = []; pending_username_requests = [] }

abbrev pub is_error : OperationResultType → Bool
is_error error = true
is_error _ = false

-- UserResolver::onOperationResultReceived
unfoldable pub on_operation_result_received : UserResolver → OperationResult → UserResolver
on_operation_result_received r result = if is_error result.type then clear_pending r else r

-- UserResolver::onConnectionStatusChanged
unfoldable pub on_connection_status_changed : Bool → UserResolver → UserResolver
on_connection_status_changed connected r = if connected then r else clear_pending r
