-- ===== src/Database/Users.antt =====
-- server/src/Database.cpp: the users, and what the handlers read of them.
use qt_chat_app.Prelude.{Bool, false, List, [], ◌∷◌, Option, none, some}
use qt_chat_app.Qt.{Qt, QUuid, QString}
use qt_chat_app.Model.{User}
use qt_chat_app.Shared.Payload.Account.{LoginInfo}
use qt_chat_app.Shared.Payload.Profile.{ProfileInfo, PublicUserInfo}
use qt_chat_app.Database.Sql.{
  Value, string, Row, first, all, insert_into, delete_from, Engine, value_of, first_row, all_rows,
  when_open, run_insert, run_delete,
}

abbrev pub user_columns : List QString
user_columns = "id" ∷ "username" ∷ "display_name" ∷ "password_hash" ∷ "email" ∷ []

-- INSERT INTO users (…) VALUES (…)
abbrev pub user_row : Qt → User → Row
user_row qt u =
    ("id", string (qt.uuid_to_string u.id))
    ∷ ("username", string u.username)
    ∷ ("display_name", string u.display_name)
    ∷ ("password_hash", string u.password_hash)
    ∷ ("email", string u.email)
    ∷ []

module _ {D : Type 0} (qt : Qt) (engine : Engine D) where
  -- a model::User of a row
  unfoldable pub user_of_row : List Value → User
  unfolding value_of
  user_of_row row = record {
    id = qt.uuid_of_string (engine.to_string (value_of 0 row));
    username = engine.to_string (value_of 1 row);
    display_name = engine.to_string (value_of 2 row);
    password_hash = engine.to_string (value_of 3 row);
    email = engine.to_string (value_of 4 row);
  }

  -- Database::getUserByUsername
  unfoldable pub get_user_by_username : D → QString → Option User
  unfolding first_row
  get_user_by_username d username = when_open engine d none (
      first_row user_of_row
        (engine.query d (first user_columns "users" (("username", username) ∷ []))))

  -- Database::getUserByEmail
  unfoldable pub get_user_by_email : D → QString → Option User
  unfolding first_row
  get_user_by_email d email =
      when_open engine d none (
        first_row user_of_row (engine.query d (first user_columns "users" (("email", email) ∷ []))))

  -- Database::authenticateUser
  unfoldable pub authenticate_user : D → LoginInfo → Option User
  unfolding first_row
  authenticate_user d info = when_open engine d none (
      first_row user_of_row (
        engine.query d (
          first user_columns "users"
            (("username", info.login) ∷ ("password_hash", info.password_hash) ∷ []))))

  -- Database::createUser
  unfoldable pub create_user : D → User → Bool × D
  unfolding run_insert
  create_user d u =
      when_open engine d (false, d) (run_insert engine d (insert_into "users" (user_row qt u)))

  -- Database::deleteUser
  unfoldable pub delete_user : D → QUuid → Bool × D
  unfolding run_delete
  delete_user d id =
      when_open engine d (false, d)
        (run_delete engine d (delete_from "users" (("id", qt.uuid_to_string id) ∷ [])))

  -- Database::getUserById
  unfoldable pub get_user_by_id : D → QUuid → Option User
  unfolding first_row
  get_user_by_id d id = when_open engine d none (
      first_row user_of_row
        (engine.query d (first user_columns "users" (("id", qt.uuid_to_string id) ∷ []))))

  -- Database::getProfileInfoByUserId
  unfoldable pub get_profile_info_by_user_id : D → QUuid → Option ProfileInfo
  unfolding get_user_by_id
  get_profile_info_by_user_id d id = elim (get_user_by_id d id) [
    | none ↦ none
    | some u ↦ some (record {
      user_id = u.id;
      username = u.username;
      display_name = u.display_name;
      email = u.email;
    })
  ]

  abbrev public_info : User → PublicUserInfo
  public_info u = record { user_id = u.id; username = u.username; display_name = u.display_name }

  -- Database::getPublicUserInfoByUserId
  unfoldable pub get_public_user_info_by_user_id : D → QUuid → Option PublicUserInfo
  unfolding get_user_by_id
  get_public_user_info_by_user_id d id = elim (get_user_by_id d id) [
    | none ↦ none
    | some u ↦ some (public_info u)
  ]

  -- Database::getPublicUserInfoByUsername
  unfoldable pub get_public_user_info_by_username : D → QString → Option PublicUserInfo
  unfolding get_user_by_username
  get_public_user_info_by_username d username = elim (get_user_by_username d username) [
    | none ↦ none
    | some u ↦ some (public_info u)
  ]

  -- Database::getAllUsers
  unfoldable pub get_all_users : D → List User
  unfolding all_rows
  get_all_users d =
      when_open engine d [] (all_rows user_of_row (engine.query d (all user_columns "users" [])))
