-- ===== src/Tests/LoggingIn.antt =====
-- The theorems on the client's account manager at concrete inputs.
use qt_chat_app.Prelude.{◌≡◌, refl, true, false, none, some, [], ◌∷◌, ◌++◌}
use qt_chat_app.Shared.Payload.Profile.{ProfileInfo}
use qt_chat_app.Shared.Payload.Result.{OperationResult, success, error}
use qt_chat_app.Shared.Username.{normalize_username}
use qt_chat_app.Client.Hasher.{Hashing, sha256}
use qt_chat_app.Client.AccountManager.{
  AccountManager, account_mode, no_action, login_request, profile_request, new_account_manager,
  can_send_messages, user_id, on_operation_result_received, on_current_user_profile_received,
}
use qt_chat_app.Client.AccountManager as account
use qt_chat_app.Client.AccountManager.Valid.{
  IsValid, AccountReach, created, after, login_asked, result_received, AccountReach-IsValid,
}
use qt_chat_app.Client.AccountManager.Logins.{login-logged_in, login-refused_again}
use qt_chat_app.Tests.SampleQt.{sample_qt}

abbrev pub sample_hashing : Hashing
sample_hashing = record { hash = λ bytes. bytes; hex_text = λ bytes. "00" }

abbrev accepted : OperationResult
accepted = record { type = success; text = "Login successful" }

abbrev refused : OperationResult
refused = record { type = error; text = "Invalid login or password" }

abbrev pub anns_profile : ProfileInfo
anns_profile = record { user_id = 7; username = "ann"; display_name = "Ann"; email = "a" }

-- Ann is logged in.
abbrev at_home : AccountManager
at_home = record {
  user_profile = some anns_profile;
  mode = account_mode;
  logged_in = true;
  busy = false;
  pending_action = no_action;
  status_text = "";
  requested = [];
}

refused_login : AccountReach sample_qt sample_hashing (
    on_operation_result_received
      (account.login sample_qt sample_hashing true new_account_manager "ann" "secret")
      refused)
refused_login = after (after created (login_asked new_account_manager true "ann" "secret")) (
    result_received (account.login sample_qt sample_hashing true new_account_manager "ann" "secret")
      refused)

AccountReach-IsValid_example : IsValid (
    on_operation_result_received
      (account.login sample_qt sample_hashing true new_account_manager "ann" "secret")
      refused)
AccountReach-IsValid_example =
    AccountReach-IsValid sample_qt sample_hashing
      (on_operation_result_received
        (account.login sample_qt sample_hashing true new_account_manager "ann" "secret") refused)
      refused_login

login-logged_in_example :
    on_current_user_profile_received
      (on_operation_result_received
        (account.login sample_qt sample_hashing true new_account_manager "@ann" "secret")
        accepted)
      anns_profile
    ≡ record {
      user_profile = some anns_profile;
      mode = account_mode;
      logged_in = true;
      busy = false;
      pending_action = no_action;
      status_text = "";
      requested =
          []
          ++ login_request
              (normalize_username sample_qt "@ann")
              (sha256 sample_qt sample_hashing "secret")
            ∷ profile_request
            ∷ [];
    }
unfolding normalize_username
login-logged_in_example =
    login-logged_in sample_qt sample_hashing new_account_manager "@ann" "secret" accepted
      anns_profile refl refl refl refl

login-refused_again_example :
    (can_send_messages true (
        on_operation_result_received
          (account.login sample_qt sample_hashing true at_home "bob" "guess")
          refused)
      ≡ true)
    × (user_id (
          on_operation_result_received
            (account.login sample_qt sample_hashing true at_home "bob" "guess")
            refused)
        ≡ none)
unfolding normalize_username
login-refused_again_example =
    login-refused_again sample_qt sample_hashing at_home "bob" "guess" refused refl refl refl refl
      refl
