-- ===== src/Client/AccountManager/Logins.antt =====
-- client/src/AccountManager.cpp: how a login ends.
use qt_chat_app.Prelude.{◌≡◌, refl, true, false, none, some, [], ◌∷◌, ◌++◌, str_eq, append_assoc}
use qt_chat_app.Qt.{Qt, QString}
use qt_chat_app.Shared.Payload.Profile.{ProfileInfo}
use qt_chat_app.Shared.Payload.Result.{OperationResult, success, error}
use qt_chat_app.Shared.Username.{normalize_username}
use qt_chat_app.Client.Hasher.{Hashing, sha256}
use qt_chat_app.Client.AccountManager.{
  AccountManager, no_action, account_mode, login_request, profile_request, login, can_send_messages,
  user_id, on_result, on_operation_result_received, on_current_user_profile_received,
}

-- A login on a connection, with a name and a password that are not empty, while nothing is
-- pending, followed by a success and a profile, ends logged in with that profile, in account
-- mode and not busy, after one request for the login with the normalized name and the hashed
-- password and one for the profile.
pub login-logged_in :
    (qt : Qt) (h : Hashing) (a : AccountManager) (name password : QString)
    (accepted : OperationResult) (profile : ProfileInfo)
    → a.busy ≡ false
    → str_eq (normalize_username qt name) "" ≡ false
    → str_eq password "" ≡ false
    → accepted.type ≡ success
    → on_current_user_profile_received
        (on_operation_result_received (login qt h true a name password) accepted)
        profile
      ≡ record {
        user_profile = some profile;
        mode = account_mode;
        logged_in = true;
        busy = false;
        pending_action = no_action;
        status_text = "";
        requested =
            a.requested
            ++ login_request (normalize_username qt name) (sha256 qt h password)
              ∷ profile_request
              ∷ [];
      }
unfolding login on_operation_result_received on_current_user_profile_received on_result
login-logged_in qt h a name password accepted profile b n p s = rw (b, n, p, s) (rw append_assoc)

-- A login on a connection, with a name and a password that are not empty, while logged in and
-- with nothing pending, that the server refuses, leaves the account manager able to send
-- messages, but without a user id.
pub login-refused_again :
    (qt : Qt) (h : Hashing) (a : AccountManager) (name password : QString)
    (refused : OperationResult)
    → a.logged_in ≡ true
    → a.busy ≡ false
    → str_eq (normalize_username qt name) "" ≡ false
    → str_eq password "" ≡ false
    → refused.type ≡ error
    → let b : AccountManager =
        on_operation_result_received (login qt h true a name password) refused in
      (can_send_messages true b ≡ true) × (user_id b ≡ none)
unfolding login on_operation_result_received on_result can_send_messages user_id
login-refused_again qt h a name password refused l b n p s = rw (b, n, p, s) (l, refl)
