-- ===== src/Tests/SampleServer.antt =====
-- A small server at which the theorems are run: three users, one chat of two of them, and a
-- session for each.
use qt_chat_app.Prelude.{
  ℕ, ◌+◌, true, false, Option, none, some, [], ◌∷◌, ◌==◌, if◌then◌else◌, str_eq,
}
use qt_chat_app.Qt.{QUuid, QString}
use qt_chat_app.Model.{User}
use qt_chat_app.Server.Session.{ClientConnection, Sessions}
use qt_chat_app.Server.Storage.{Storage}
use qt_chat_app.Server.Core.{Core}
use qt_chat_app.Server.Reading.{Server, Fresh}

abbrev pub user_named : QUuid → QString → User
user_named id name = record {
  id = id;
  username = name;
  display_name = name;
  password_hash = "hash";
  email = "";
}

abbrev user_with_id : QUuid → Option User
user_with_id u =
    if u == 7
    then some (user_named 7 "ann")
    else if u == 8
    then some (user_named 8 "bob")
    else if u == 9
    then some (user_named 9 "eve")
    else none

abbrev user_with_name : QString → Option User
user_with_name s =
    if str_eq s "ann"
    then some (user_named 7 "ann")
    else if str_eq s "bob"
    then some (user_named 8 "bob")
    else if str_eq s "eve"
    then some (user_named 9 "eve")
    else none

-- The state counts the writes.
abbrev pub sample_storage : Storage ℕ
sample_storage = record {
  get_user_by_username = λ db s. user_with_name s;
  get_user_by_email = λ db s. none;
  get_user_by_id = λ db u. user_with_id u;
  authenticate_user = λ db info. user_with_name info.login;
  create_user = λ db u. (true, db + 1);
  update_user_profile = λ db u info. (user_with_id u, db + 1);
  get_profile_info_by_user_id = λ db u. none;
  get_public_user_info_by_user_id = λ db u. none;
  get_public_user_info_by_username = λ db s. none;
  get_chats_by_user_id = λ db u. [];
  search_chats = λ db s. [];
  get_user_ids_by_chat_id = λ db c. if c == 5 then 7 ∷ 8 ∷ [] else [];
  create_chat = λ db c. (true, db + 1);
  create_chat_member = λ db m. (true, db + 1);
  delete_chat = λ db c. (true, db + 1);
}

abbrev pub session_of : QUuid → ℕ → Option QUuid → ClientConnection
session_of id socket user = record {
  session_id = id;
  socket = socket;
  user_id = user;
  is_authorized = true;
}

-- Users 7, 8 and 9 on sessions 101, 102 and 103, and a session 104 without a user.
abbrev pub sample_sessions : Sessions
sample_sessions =
    (101, session_of 101 1 (some 7))
    ∷ (102, session_of 102 2 (some 8))
    ∷ (103, session_of 103 3 (some 9))
    ∷ (104, record { session_id = 104; socket = 4; user_id = none; is_authorized = false })
    ∷ []

abbrev pub sample_core : Core ℕ
sample_core = record { uuid = 1; clients = sample_sessions; db = 0; written = [] }

abbrev pub sample_server : Server ℕ
sample_server = record { core = sample_core; socket_buffers = []; is_running = true }

-- A server to which nobody is connected.
abbrev pub idle_server : Server ℕ
idle_server = record {
  core = record { uuid = 1; clients = []; db = 0; written = [] };
  socket_buffers = [];
  is_running = true;
}

abbrev pub sample_fresh : Core ℕ → Fresh
sample_fresh w = record { uuid = 50; now = 60 }
