-- ===== src/Tests/Resolving.antt =====
-- The theorems on the client's user resolver at concrete inputs.
use qt_chat_app.Prelude.{◌≡◌, refl, true, false, some, [], ◌∷◌}
use qt_chat_app.Shared.Payload.Profile.{PublicUserInfo}
use qt_chat_app.Shared.Payload.Request.{request_by_id}
use qt_chat_app.Shared.Payload.Result.{OperationResult, error}
use qt_chat_app.Shared.Username.{normalize_username}
use qt_chat_app.Client.UserResolver.{
  UserResolver, resolution, no_info, resolve_user, resolve_username, invalidate_user,
  on_public_user_info_received, on_operation_result_received,
}
use qt_chat_app.Client.UserResolver.Requests.{
  resolve_username-received, resolve_username-stale, resolve_user-after_error,
}
use qt_chat_app.Client.UserResolver.Keyed.{
  IsKeyed, Reach, at_start, after, resolved, info_received, Reach-IsKeyed,
}
use qt_chat_app.Tests.SampleQt.{sample_qt}

abbrev empty : UserResolver
empty = record {
  cache = [];
  username_cache = [];
  pending_requests = [];
  pending_username_requests = [];
}

abbrev ann : PublicUserInfo
ann = record { user_id = 7; username = "ann"; display_name = "Ann" }

-- The same user under a new name.
abbrev anna : PublicUserInfo
anna = record { user_id = 7; username = "anna"; display_name = "Ann" }

abbrev not_found : OperationResult
not_found = record { type = error; text = "User not found" }

resolve_username-received_example :
    resolve_username sample_qt false (on_public_user_info_received empty ann) "@ann"
    ≡ resolution (on_public_user_info_received empty ann) (some ann)
unfolding normalize_username
resolve_username-received_example =
    resolve_username-received sample_qt false empty ann "@ann" refl refl refl

resolve_username-stale_example :
    (resolve_username sample_qt true
      (invalidate_user
        (on_public_user_info_received (on_public_user_info_received empty ann) anna)
        7)
      "ann").info
    ≡ some no_info
unfolding normalize_username
resolve_username-stale_example =
    resolve_username-stale sample_qt true empty ann anna "ann" refl refl refl refl refl

resolve_user-after_error_example :
    (resolve_user true
      (on_operation_result_received (resolve_user true empty 7).state not_found)
      7).requests
    ≡ request_by_id 7 ∷ []
unfolding resolve_user
resolve_user-after_error_example =
    resolve_user-after_error (resolve_user true empty 7).state 7 not_found refl refl refl

asked_and_answered :
    Reach sample_qt empty (on_public_user_info_received (resolve_user true empty 7).state ann)
asked_and_answered =
    after (after at_start (resolved empty true 7))
      (info_received (resolve_user true empty 7).state ann)

Reach-IsKeyed_example :
    IsKeyed (on_public_user_info_received (resolve_user true empty 7).state ann).cache
Reach-IsKeyed_example =
    Reach-IsKeyed sample_qt empty
      (on_public_user_info_received (resolve_user true empty 7).state ann) refl asked_and_answered
