-- ===== src/Database/Profile.antt =====
-- server/src/Database.cpp: updateUserProfile, which changes a user in one transaction.
pub mod Atomic
pub mod Updated
pub mod History
pub mod Remembered
use qt_chat_app.Prelude.{
  Bool, true, false, not, List, [], ◌∷◌, ◌++◌, Option, none, some, if◌then◌else◌, str_eq,
}
use qt_chat_app.Qt.{Qt, QUuid, QString}
use qt_chat_app.Model.{User}
use qt_chat_app.Shared.Payload.Profile.{ProfileUpdateInfo}
use qt_chat_app.Database.Sql.{
  Value, string, cast, Row, Query, first, Command, update, insert_into, Engine, value_of,
  is_sql_null, when_open,
}
use qt_chat_app.Database.Users.{get_user_by_id}
use qt_chat_app.Database.Usernames.{usernames_to_json, usernames_of_items, usernames_of_document}

-- a field's new value, or the current one
abbrev pub value_or : Option QString → QString → QString
value_or none current = current
value_or (some s) current = s

-- The user whose fields stand in the UPDATE.
abbrev pub updated_user : User → ProfileUpdateInfo → User
updated_user u info = record u {
  username = value_or info.username u.username;
  display_name = value_or info.display_name u.display_name;
  email = value_or info.email u.email;
  password_hash = value_or info.password_hash u.password_hash;
}

-- the SET of the UPDATE
abbrev pub user_sets : User → Row
user_sets u =
    ("username", string u.username)
    ∷ ("display_name", string u.display_name)
    ∷ ("email", string u.email)
    ∷ ("password_hash", string u.password_hash)
    ∷ []

-- UPDATE users SET …
abbrev pub user_update : Qt → QUuid → User → Command
user_update qt id u = update "users" (user_sets u) (("id", qt.uuid_to_string id) ∷ [])

-- QStringList::contains
unfoldable pub is_among : QString → List QString → Bool
is_among name [] = false
is_among name (n ∷ names) = if str_eq n name then true else is_among name names

-- `if (!exUsernames.contains(…)) exUsernames.append(…);`
unfoldable pub with_former : QString → List QString → List QString
unfolding is_among
with_former name names = if is_among name names then names else names ++ (name ∷ [])

-- SELECT ex_usernames::text FROM user_stats …
abbrev pub history_query : Qt → QUuid → Query
history_query qt id =
    first ("ex_usernames::text" ∷ []) "user_stats" (("user_id", qt.uuid_to_string id) ∷ [])

module _ {D : Type 0} (qt : Qt) (engine : Engine D) where
  -- the usernames that the row of user_stats holds
  unfoldable pub former_usernames : List Value → List QString
  unfolding value_of is_sql_null usernames_of_items
  former_usernames row =
      if is_sql_null (value_of 0 row)
      then []
      else usernames_of_document (qt.from_json (qt.to_utf8 (engine.to_string (value_of 0 row))))

  -- UPDATE user_stats or, when there is no row, INSERT INTO user_stats
  unfoldable pub history_command : QUuid → QString → List (List Value) → Command
  unfolding former_usernames with_former usernames_to_json
  history_command id former [] = insert_into "user_stats" (
      ("user_id", string (qt.uuid_to_string id))
      ∷ ("ex_usernames", cast "jsonb" (usernames_to_json qt (with_former former [])))
      ∷ [])
  history_command id former (row ∷ rows) =
      update "user_stats"
        ((
          "ex_usernames",
          cast "jsonb" (usernames_to_json qt (with_former former (former_usernames row))),
        )
          ∷ [])
        (("user_id", qt.uuid_to_string id) ∷ [])

  -- `m_db.rollback(); return std::nullopt;`
  abbrev give_up : D → Option User × D
  give_up d = let (rolled_back, d') = engine.rollback d in (none, d')

  -- `if (!m_db.commit()) return std::nullopt; return getUserById(userId);`
  unfoldable pub commit_update : QUuid → D → Option User × D
  unfolding get_user_by_id
  commit_update id d =
      let (committed, d') = engine.commit d in
      (if committed then get_user_by_id qt engine d' id else none, d')

  -- `if (!writeStatsQuery.exec())` and what follows it
  unfoldable pub write_history : QUuid → Command → D → Option User × D
  unfolding commit_update
  write_history id command d =
      let (written, d') = engine.exec d command in
      elim written [ none ↦ give_up d' | some n ↦ commit_update id d' ]

  -- the block of `if (newUsername != currentUser.username())`
  unfoldable pub keep_history : QUuid → QString → D → Option User × D
  unfolding history_command write_history
  keep_history id former d = elim (engine.query d (history_query qt id)) [
    | none ↦ give_up d
    | some rows ↦ write_history id (history_command id former rows) d
  ]

  -- from the UPDATE on
  unfoldable pub store_user : QUuid → User → User → D → Option User × D
  unfolding keep_history commit_update
  store_user id current wanted d =
      let (stored, d') = engine.exec d (user_update qt id wanted) in
      elim stored [
        | none ↦ give_up d'
        | some n ↦
            if not (str_eq wanted.username current.username)
            then keep_history id current.username d'
            else commit_update id d'
      ]

  -- from the call of transaction() on
  unfoldable pub update_in_transaction : QUuid → User → User → D → Option User × D
  unfolding store_user
  update_in_transaction id current wanted d =
      let (begun, d') = engine.transaction d in
      if begun then store_user id current wanted d' else (none, d')

  -- Database::updateUserProfile
  unfoldable pub update_user_profile : D → QUuid → ProfileUpdateInfo → Option User × D
  unfolding get_user_by_id update_in_transaction
  update_user_profile d id info =
      when_open engine d (none, d)
        (elim (get_user_by_id qt engine d id) [
          | none ↦ (none, d)
          | some u ↦ update_in_transaction id u (updated_user u info) d
        ])
