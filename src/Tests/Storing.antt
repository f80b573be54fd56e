-- ===== src/Tests/Storing.antt =====
-- The database over the small tables: users, profile updates and migrations.
use qt_chat_app.Prelude.{
  ◌≡◌, ◌⊎◌, refl, true, List, [], ◌∷◌, Option, none, some, if◌then◌else◌, str_eq, arith,
}
use qt_chat_app.Qt.{QString}
use qt_chat_app.Qt.JsonValue.{pos}
use qt_chat_app.Model.{User, UserStats, Content}
use qt_chat_app.Shared.Payload.Account.{RegisterInfo}
use qt_chat_app.Shared.Payload.Profile.{ProfileUpdateInfo}
use qt_chat_app.Shared.Username.{is_valid_username}
use qt_chat_app.Server.Session.{find_connection, authorize, is_logged_in_elsewhere}
use qt_chat_app.Server.Core.{Core, send_success, send_packet}
use qt_chat_app.Server.Auth.{register_with, login_with}
use qt_chat_app.Database.Sql.{value_of, int}
use qt_chat_app.Database.Users.{
  user_of_row, create_user, get_user_by_id, get_user_by_username, get_user_by_email,
  authenticate_user,
}
use qt_chat_app.Database.Contents.{create_content, get_content_by_id}
use qt_chat_app.Database.Stats.{get_user_stats_by_id}
use qt_chat_app.Database.Profile.{update_user_profile, updated_user, is_among}
use qt_chat_app.Database.Profile.Atomic.{IsStored, update_user_profile-IsStored}
use qt_chat_app.Database.Profile.Updated.{update_user_profile-updated_user}
use qt_chat_app.Database.Profile.Remembered.{update_user_profile-get_user_stats_by_id}
use qt_chat_app.Database.Migrations.{version_of_rows, migrate_all, init}
use qt_chat_app.Database.Migrations.Laws.{IsVersion}
use qt_chat_app.Database.Migrations.Steps.{LoopEnds, migrate_all-LoopEnds}
use qt_chat_app.Database.Migrations.Versions.{VersionsEnd, init-VersionsEnd, init_again}
use qt_chat_app.Database.Created.{create_user-get_user, create_content-get_content_by_id}
use qt_chat_app.Database.Handlers.{database_storage, register_with-login_with}
use qt_chat_app.Tests.Digits.{marks, count_marks}
use qt_chat_app.Tests.SampleQt.{sample_qt, sample_laws, sample_text_laws}
use qt_chat_app.Tests.SampleServer.{session_of}
use qt_chat_app.Tests.Tables.{Db, last_version, sample_engine, run_query, run_command}
use qt_chat_app.Tests.Tables.Filled.{
  sample_engine_laws, sample-CreateLaws, sample-MigrationLaws, IsUnsaved, sample_history_laws,
}

abbrev empty_db : Db
empty_db = record { rows = []; saved = none }

abbrev ann : User
ann = record {
  id = 7;
  username = "ann";
  display_name = "Ann";
  password_hash = "hash";
  email = "ann@example.org";
}

abbrev renamed : ProfileUpdateInfo
renamed = record { username = some "anna"; display_name = none; email = none; password_hash = none }

abbrev note : Content
note = record { id = 5; content = "hello"; file = ""; file_size = 0 }

unfoldable with_ann : Db
unfolding create_user
with_ann = (create_user sample_qt sample_engine empty_db ann).1

create_user-get_user_example :
    let d' = (create_user sample_qt sample_engine empty_db ann).1 in
    (get_user_by_id sample_qt sample_engine d' 7 ≡ some ann)
    × (get_user_by_username sample_qt sample_engine d' "ann" ≡ some ann)
    × (get_user_by_email sample_qt sample_engine d' "ann@example.org" ≡ some ann)
    × (authenticate_user sample_qt sample_engine d'
          (record { login = "ann"; password_hash = "hash" })
        ≡ some ann)
unfolding create_user run_command
create_user-get_user_example =
    create_user-get_user sample_qt sample_engine sample_engine_laws sample_laws empty_db ann
      (omega arith) refl

create_content-get_content_by_id_example :
    get_content_by_id sample_qt sample_engine
      (create_content sample_qt sample_engine empty_db note).1
      5
    ≡ some note
unfolding create_content run_command
create_content-get_content_by_id_example =
    create_content-get_content_by_id sample_qt sample_engine sample_engine_laws sample_laws empty_db
      note (omega arith) refl

update_user_profile-IsStored_example :
    let result = update_user_profile sample_qt sample_engine with_ann 7 renamed in
    (result ≡ (none, with_ann))
    ⊎ ((current : User) × (get_user_by_id sample_qt sample_engine with_ann 7 ≡ some current)
        × IsStored sample_qt sample_engine 7 current (updated_user current renamed) with_ann result)
update_user_profile-IsStored_example =
    update_user_profile-IsStored sample_qt sample_engine sample_engine_laws with_ann 7 renamed

abbrev anna : User
anna = record ann { username = "anna" }

update_user_profile-updated_user_example :
    (u : User) × (get_user_by_id sample_qt sample_engine with_ann 7 ≡ some u)
    × (anna ≡ updated_user u renamed)
    × (get_user_by_id sample_qt sample_engine
          (update_user_profile sample_qt sample_engine with_ann 7 renamed).1
          7
        ≡ some (updated_user u renamed))
unfolding with_ann update_user_profile run_command run_query marks user_of_row count_marks
update_user_profile-updated_user_example =
    update_user_profile-updated_user sample_qt sample_engine sample_engine_laws with_ann 7 renamed
      anna refl

update_user_profile-get_user_stats_by_id_example :
    let d' = (update_user_profile sample_qt sample_engine with_ann 7 renamed).1 in
    (s : UserStats) × (get_user_stats_by_id sample_qt sample_engine d' 7 ≡ some s)
    × (is_among "ann" s.ex_usernames ≡ true)
unfolding with_ann update_user_profile run_command run_query marks user_of_row count_marks
update_user_profile-get_user_stats_by_id_example =
    update_user_profile-get_user_stats_by_id sample_qt sample_laws sample_text_laws sample_engine
      sample_engine_laws sample_history_laws with_ann 7 renamed ann anna refl refl refl

-- A directory of two migrations.
abbrev migration_files : List QString
migration_files = "001_create_users.sql" ∷ "002_create_content.sql" ∷ []

abbrev read_file : QString → Option QString
read_file name = some "CREATE TABLE"

-- The second file is missing.
abbrev read_first : QString → Option QString
read_first name = if str_eq name "001_create_users.sql" then some "CREATE TABLE" else none

migrate_all-LoopEnds_example :
    LoopEnds sample_engine read_first 0 migration_files empty_db
      (migrate_all sample_engine read_first 0 migration_files empty_db)
migrate_all-LoopEnds_example =
    migrate_all-LoopEnds sample_engine read_first 0 migration_files empty_db

init-VersionsEnd_example :
    VersionsEnd sample_engine 0 2 (init sample_engine read_file migration_files empty_db)
unfolding run_command run_query version_of_rows
init-VersionsEnd_example =
    init-VersionsEnd sample_qt sample_engine sample_engine_laws IsUnsaved read_file
      (sample-MigrationLaws read_file) migration_files empty_db 0 refl refl refl (_, refl, refl)
      (omega arith)

abbrev migrated_db : Db
migrated_db = record {
  rows = ("schema_migrations", ("version", int (pos 2)) ∷ []) ∷ [];
  saved = none;
}

init_again_example :
    (init sample_engine read_file migration_files migrated_db ≡ (true, migrated_db))
    × IsVersion sample_engine migrated_db 2
unfolding run_command run_query last_version version_of_rows value_of
init_again_example =
    init_again sample_engine sample-CreateLaws read_file migration_files migrated_db refl
      (_, refl, refl)

abbrev bob : RegisterInfo
bob = record {
  username = "bob";
  display_name = "Bob";
  email = "bob@example.org";
  password_hash = "secret";
}

-- A server with one session, over the empty tables.
abbrev empty_core : Core Db
empty_core = record {
  uuid = 1;
  clients = (101, session_of 101 1 none) ∷ [];
  db = empty_db;
  written = [];
}

register_with-login_with_example :
    let w' =
      register_with sample_qt
        (database_storage sample_qt sample_engine)
        empty_core
        101
        9
        (some bob) in
    find_connection 101
      (login_with sample_qt
        (database_storage sample_qt sample_engine)
        w'
        101
        (session_of 101 1 none)
        (authenticate_user sample_qt sample_engine w'.db
          (record { login = "bob"; password_hash = "secret" }))).clients
    ≡ some (authorize 9 (session_of 101 1 none))
unfolding is_valid_username get_user_by_username run_query create_user run_command find_connection
    register_with database_storage send_success send_packet is_logged_in_elsewhere
register_with-login_with_example =
    register_with-login_with sample_qt sample_laws sample_engine sample_engine_laws empty_core 101 9
      bob 101 (session_of 101 1 none) (omega arith) (refl, refl, refl, refl) refl refl
