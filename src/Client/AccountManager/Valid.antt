-- ===== src/Client/AccountManager/Valid.antt =====
-- client/src/AccountManager.cpp: what the account's state can be.
use qt_chat_app.Prelude.{
  ◌≡◌, refl, sym, ap, ◌∙◌, Bool, true, false, not, ◌||◌, none, some, has_value, if◌then◌else◌,
  str_eq, arith,
}
use qt_chat_app.Qt.{Qt, QString}
use qt_chat_app.Shared.Payload.Profile.{ProfileInfo}
use qt_chat_app.Shared.Payload.Result.{OperationResult}
use qt_chat_app.Shared.Username.{normalize_username, is_valid_username}
use qt_chat_app.Client.Hasher.{Hashing, sha256}
use qt_chat_app.Client.AccountManager.{
  AccountManager, AccountRequest, ask, PendingAction, no_action, login_action, register_action,
  fetch_profile_action, logout_action, login_request, registration_request, logout_request,
  new_account_manager, show_login, show_register, login, register_account, log_out,
  on_connection_status_changed, on_result, on_operation_result_received,
  on_current_user_profile_received, is_success, on_profile,
}

abbrev pub is_pending : PendingAction → Bool
is_pending no_action = false
is_pending _ = true

abbrev pub is_logout : PendingAction → Bool
is_logout logout_action = true
is_logout _ = false

-- Busy exactly while an action is pending; a profile, or a logout that is pending, only while
-- logged in.
pub record IsValid (a : AccountManager) : Type 0 where
  pub busy : a.busy ≡ is_pending a.pending_action
  pub profile : has_value a.user_profile ≡ true → a.logged_in ≡ true
  pub logout : is_logout a.pending_action ≡ true → a.logged_in ≡ true

-- What can happen to an account manager.
pub data Step (qt : Qt) (h : Hashing) : AccountManager → AccountManager → Type 0 where
  login_shown : (a : AccountManager) → Step qt h a (show_login a)
  register_shown : (a : AccountManager) → Step qt h a (show_register a)
  login_asked :
      (a : AccountManager) (connected : Bool) (name password : QString)
      → Step qt h a (login qt h connected a name password)
  registration_asked :
      (a : AccountManager) (connected : Bool) (name shown email password : QString)
      → Step qt h a (register_account qt h connected a name shown email password)
  logout_asked : (a : AccountManager) (connected : Bool) → Step qt h a (log_out connected a)
  connection_changed :
      (a : AccountManager) (connected : Bool)
      → Step qt h a (on_connection_status_changed connected a)
  result_received :
      (a : AccountManager) (result : OperationResult)
      → Step qt h a (on_operation_result_received a result)
  profile_received :
      (a : AccountManager) (profile : ProfileInfo)
      → Step qt h a (on_current_user_profile_received a profile)

pub data AccountReach (qt : Qt) (h : Hashing) : AccountManager → Type 0 where
  created : AccountReach qt h new_account_manager
  after : {a b : AccountManager} → AccountReach qt h a → Step qt h a b → AccountReach qt h b

if-IsValid :
    (test : Bool) {a b : AccountManager}
    → (test ≡ true → IsValid a)
    → (test ≡ false → IsValid b)
    → IsValid (if test then a else b)
if-IsValid true v w = v refl
if-IsValid false v w = w refl

on_result-IsValid :
    (a : AccountManager) (action : PendingAction) (done : Bool) (message : QString)
    → a.pending_action ≡ action
    → IsValid a
    → IsValid (on_result a action done message)
unfolding on_result
on_result-IsValid a no_action done message e v = v
on_result-IsValid a register_action true message e v = record {
  busy = refl;
  profile = v.profile;
  logout = λ l. cc;
}
on_result-IsValid a register_action false message e v = record {
  busy = refl;
  profile = v.profile;
  logout = λ l. cc;
}
on_result-IsValid a login_action true message e v = record {
  busy = v.busy ∙ ap is_pending e;
  profile = v.profile;
  logout = λ l. cc;
}
on_result-IsValid a login_action false message e v = record {
  busy = refl;
  profile = v.profile;
  logout = λ l. cc;
}
on_result-IsValid a fetch_profile_action true message e v = v
on_result-IsValid a fetch_profile_action false message e v = record {
  busy = refl;
  profile = λ h. cc;
  logout = λ l. cc;
}
on_result-IsValid a logout_action true message e v = record {
  busy = refl;
  profile = λ h. cc;
  logout = λ l. cc;
}
on_result-IsValid a logout_action false message e v = record {
  busy = refl;
  profile = v.profile;
  logout = λ l. cc;
}

profile_kept :
    (a : AccountManager) (profile : ProfileInfo)
    → IsValid a
    → IsValid (if not a.logged_in then a else record a { user_profile = some profile })
profile_kept a profile v =
    if-IsValid (not a.logged_in) (λ h. v)
      λ h. record { busy = v.busy; profile = λ l. ground arith; logout = λ l. ground arith }

on_profile-IsValid :
    (a : AccountManager) (action : PendingAction) (profile : ProfileInfo)
    → a.pending_action ≡ action
    → IsValid a
    → IsValid (on_profile a action profile)
on_profile-IsValid a fetch_profile_action profile e v = record {
  busy = refl;
  profile = λ h. refl;
  logout = λ l. refl;
}
on_profile-IsValid a _ profile e v = profile_kept a profile v

ask-IsValid :
    (a : AccountManager) (next : PendingAction) (request : AccountRequest)
    → is_pending next ≡ true
    → is_logout next ≡ false
    → IsValid (ask a next none request)
ask-IsValid a next request p l = record {
  busy = sym p;
  profile = λ e. ground arith;
  logout = λ e. ground arith;
}

ask_logout-IsValid :
    (a : AccountManager)
    → not a.logged_in ≡ false
    → IsValid a
    → IsValid (ask a logout_action a.user_profile logout_request)
ask_logout-IsValid a l v = record { busy = refl; profile = v.profile; logout = λ e. ground arith }

Step-IsValid :
    {qt : Qt} {h : Hashing} {a b : AccountManager} → Step qt h a b → IsValid a → IsValid b
unfolding show_login show_register login register_account log_out on_connection_status_changed
    on_operation_result_received on_current_user_profile_received
Step-IsValid (login_shown a) v =
    if-IsValid a.busy (λ h. v) λ h. record { busy = v.busy; profile = v.profile; logout = v.logout }
Step-IsValid (register_shown a) v =
    if-IsValid (a.busy || a.logged_in) (λ h. v)
      λ h. record { busy = v.busy; profile = v.profile; logout = v.logout }
Step-IsValid {qt} {h} (login_asked a connected name password) v =
    if-IsValid (a.busy || not connected) (λ e. v)
      λ e.
        if-IsValid (str_eq (normalize_username qt name) "" || str_eq password "") (λ e. v)
          λ e.
            ask-IsValid a login_action
              (login_request (normalize_username qt name) (sha256 qt h password)) refl refl
Step-IsValid {qt} {h} (registration_asked a connected name shown email password) v =
    if-IsValid (a.busy || not connected) (λ e. v)
      λ e.
        if-IsValid (not (is_valid_username (normalize_username qt name)))
          (λ e. record { busy = v.busy; profile = v.profile; logout = v.logout })
          λ e.
            if-IsValid
              (str_eq (qt.trimmed shown) "" || (str_eq (qt.trimmed email) "" || str_eq password ""))
              (λ e. v)
              λ e.
                ask-IsValid a register_action
                  (registration_request (normalize_username qt name) (qt.trimmed shown)
                    (qt.trimmed email) (sha256 qt h password))
                  refl refl
Step-IsValid (logout_asked a connected) v =
    if-IsValid (a.busy || not connected) (λ h. v)
      λ h. if-IsValid (not a.logged_in) (λ h. v) λ l. ask_logout-IsValid a l v
Step-IsValid (connection_changed a true) v = v
Step-IsValid (connection_changed a false) v = record {
  busy = refl;
  profile = λ h. cc;
  logout = λ l. cc;
}
Step-IsValid (result_received a result) v =
    on_result-IsValid a a.pending_action (is_success result.type) result.text refl v
Step-IsValid (profile_received a profile) v = on_profile-IsValid a a.pending_action profile refl v

-- Whatever calls and signals follow on the start, the account manager is busy exactly while an
-- action is pending, it has a profile only while it is logged in, and a logout is pending only
-- while it is logged in.
pub AccountReach-IsValid :
    (qt : Qt) (h : Hashing) (a : AccountManager) → AccountReach qt h a → IsValid a
AccountReach-IsValid qt h a created = record { busy = refl; profile = λ e. cc; logout = λ l. cc }
AccountReach-IsValid qt h a (after path step) = Step-IsValid step (AccountReach-IsValid qt h _ path)
