-- ===== src/Server/Sessions/Login.antt =====
-- server/src/Server.cpp: what handleLoginUser does for a user that the database authenticated.
use qt_chat_app.Prelude.{◌≡◌, ◌≢◌, sym, ◌∙◌, true, false, some, [], ◌∷◌, arith, if◌then◌else◌, ◌==◌}
use qt_chat_app.Qt.{Qt, QUuid}
use qt_chat_app.Model.{User}
use qt_chat_app.Server.Session.{
  ClientConnection, Sessions, find_connection, authorize, authorized_user, is_logged_in_elsewhere,
}
use qt_chat_app.Server.Session.Table.{find-modify_connection}
use qt_chat_app.Server.Storage.{Storage}
use qt_chat_app.Server.Core.{Core, send_error}
use qt_chat_app.Server.Auth.{login_with}
use qt_chat_app.Server.Sessions.{IsValid}
use qt_chat_app.Server.Sessions.Unchanged.{clients-send_success}

logged_in_there :
    (session user j : QUuid) (d : ClientConnection) (cs : Sessions)
    → find_connection j cs ≡ some d
    → authorized_user d ≡ some user
    → d.session_id ≢ session
    → is_logged_in_elsewhere session user cs ≡ true
unfolding is_logged_in_elsewhere find_connection
logged_in_there session user j d [] e a n = cc
logged_in_there session user j d ((k, c) ∷ cs) e a n =
    ground (arith, logged_in_there session user j d cs)

module _ (qt : Qt) {D : Type 0} (storage : Storage D) where
  -- In valid sessions, a user who is logged in on one session and is authenticated on another
  -- one is refused there with an error, and neither a session nor the database changes.
  pub login_with-duplicate :
      (w : Core D) (j k : QUuid) (c d : ClientConnection) (user : User)
      → IsValid w.clients
      → find_connection k w.clients ≡ some c
      → find_connection j w.clients ≡ some d
      → authorized_user d ≡ some user.id
      → j ≢ k
      → login_with qt storage w k c (some user)
        ≡ send_error qt w c.session_id "User is already logged in from another device"
  unfolding login_with
  login_with-duplicate w j k c d user v e f a n = rw (
      logged_in_there c.session_id user.id j d w.clients f a
        (λ same. n (sym (v.keyed j d f) ∙ same ∙ v.keyed k c e)))

  -- After a user was authenticated on a session of the table and is not logged in on another
  -- one, the table holds the session as authorized for that user, and every other session as it
  -- was.
  pub login_with-fresh :
      (w : Core D) (j k : QUuid) (c : ClientConnection) (user : User)
      → find_connection k w.clients ≡ some c
      → is_logged_in_elsewhere c.session_id user.id w.clients ≡ false
      → find_connection j (login_with qt storage w k c (some user)).clients
        ≡ (if k == j then some (authorize user.id c) else find_connection j w.clients)
  unfolding login_with
  login_with-fresh w j k c user e f =
      rw (f, clients-send_success)
        (ground (arith, find-modify_connection j k (authorize user.id) w.clients))
