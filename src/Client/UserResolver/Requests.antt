-- ===== src/Client/UserResolver/Requests.antt =====
-- client/src/UserResolver.cpp: what is found after an answer, and which requests are sent.
use qt_chat_app.Prelude.{◌≡◌, Bool, true, false, none, some, [], ◌∷◌, str_eq, arith}
use qt_chat_app.Qt.{Qt, QUuid, QString, is_null}
use qt_chat_app.Shared.Payload.Profile.{PublicUserInfo}
use qt_chat_app.Shared.Payload.Request.{request_by_id}
use qt_chat_app.Shared.Payload.Result.{OperationResult, error}
use qt_chat_app.Shared.Username.{normalize_username}
use qt_chat_app.Client.Hash.{
  lookup, uuid_key, string_key, lookup-insert, lookup-insert_other, lookup-remove,
  lookup-remove_other,
}
use qt_chat_app.Client.UserResolver.{
  UserResolver, resolution, no_info, resolve_user, resolve_username, invalidate_user,
  on_public_user_info_received, on_operation_result_received,
}

-- A second resolveUser with the same id, connected or not, sends no request if nothing came in
-- since the first one, which was made on a connection.
pub resolve_user-twice :
    (connected : Bool) (r : UserResolver) (u : QUuid)
    → (resolve_user connected (resolve_user true r u).state u).requests ≡ []
unfolding resolve_user
resolve_user-twice connected r u = ground (arith, lookup-insert uuid_key u tt r.pending_requests)

-- Once data of a user with an id that is not null and a name that is not empty came in,
-- resolveUser gives that data for any name that normalizes to the user's, and sends no request.
pub resolve_username-received :
    (qt : Qt) (connected : Bool) (r : UserResolver) (info : PublicUserInfo) (name : QString)
    → is_null info.user_id ≡ false
    → normalize_username qt name ≡ info.username
    → str_eq info.username "" ≡ false
    → resolve_username qt connected (on_public_user_info_received r info) name
      ≡ resolution (on_public_user_info_received r info) (some info)
unfolding resolve_username on_public_user_info_received
resolve_username-received qt connected r info name h e f = rw (
  h,
  e,
  f,
  lookup-insert string_key info.username info.user_id r.username_cache,
  lookup-insert uuid_key info.user_id info r.cache,
)

-- After data of a user, whose id is not null and whose name is not empty, came in under that
-- name and then under another one, and the user was invalidated, resolveUser with the old name
-- gives the data of nobody: a null id and empty names.
pub resolve_username-stale :
    (qt : Qt) (connected : Bool) (r : UserResolver) (old new : PublicUserInfo) (name : QString)
    → is_null old.user_id ≡ false
    → new.user_id ≡ old.user_id
    → str_eq new.username old.username ≡ false
    → normalize_username qt name ≡ old.username
    → str_eq old.username "" ≡ false
    → (resolve_username qt connected
        (invalidate_user
          (on_public_user_info_received (on_public_user_info_received r old) new)
          old.user_id)
        name).info
      ≡ some no_info
unfolding resolve_username on_public_user_info_received invalidate_user
resolve_username-stale qt connected r old new name h s n e f =
    rw (s, h, e, f, lookup-insert)
      (rw (
        lookup-remove_other string_key old.username new.username _ n,
        lookup-insert_other string_key old.username new.username old.user_id _ n,
        lookup-insert,
        lookup-remove,
      ))

-- After an OPERATION_RESULT of an error, resolveUser on a connection sends one request for an id
-- that is not null and not in m_cache, whatever was pending before.
pub resolve_user-after_error :
    (r : UserResolver) (u : QUuid) (result : OperationResult)
    → is_null u ≡ false
    → lookup uuid_key u r.cache ≡ none
    → result.type ≡ error
    → (resolve_user true (on_operation_result_received r result) u).requests ≡ request_by_id u ∷ []
unfolding resolve_user on_operation_result_received lookup
resolve_user-after_error r u result h n e = rw (e, h, n)
