-- ===== src/Database/Profile/Remembered.antt =====
-- server/src/Database.cpp: after a change of the username, user_stats has the former one.
use qt_chat_app.Prelude.{
  ◌≡◌, ◌⊎◌, refl, true, false, List, [], ◌∷◌, some, inl, inr, has_value, str_eq, arith,
}
use qt_chat_app.Qt.{Qt, QtLaws, QUuid, QString}
use qt_chat_app.Model.{User, UserStats}
use qt_chat_app.Shared.Payload.Profile.{ProfileUpdateInfo}
use qt_chat_app.Database.Sql.{
  Value, string, cast, first, Command, insert_into, update, Engine, value_of, is_sql_null,
  first_row,
}
use qt_chat_app.Database.Users.{get_user_by_id}
use qt_chat_app.Database.Usernames.{usernames_to_json, json_to_usernames}
use qt_chat_app.Database.Usernames.RoundTrip.{
  JsonTextLaws, from_json-usernames_to_json, usernames_of_items-username_items,
}
use qt_chat_app.Database.Stats.{stats_columns, stats_of_row, get_user_stats_by_id}
use qt_chat_app.Database.Laws.{EngineLaws, exec_all, AllSucceed}
use qt_chat_app.Database.Profile.{
  updated_user, with_former, is_among, former_usernames, history_query, history_command,
  commit_update, update_user_profile,
}
use qt_chat_app.Database.Profile.Atomic.{IsUpdate, update_user_profile-IsStored}
use qt_chat_app.Database.Profile.History.{with_former_lem}

module _ {D : Type 0} (qt : Qt) (engine : Engine D) where
  -- A statement that writes a JSON text to the row of a user in user_stats.
  abbrev pub WritesHistory : D → QUuid → QString → Command → Type 0
  WritesHistory d id json c =
      (c
        ≡ insert_into "user_stats"
            (("user_id", string (qt.uuid_to_string id)) ∷ ("ex_usernames", cast "jsonb" json) ∷ []))
      ⊎ ((c
            ≡ update "user_stats" (("ex_usernames", cast "jsonb" json) ∷ [])
                (("user_id", qt.uuid_to_string id) ∷ []))
          × ((row : List Value) × (rows : List (List Value)) × (engine.query d (history_query qt id)
                ≡ some (row ∷ rows))))

  -- The row of a user in user_stats, with a text of the same JSON value as the one written.
  abbrev pub ReadsHistory : D → QUuid → QString → Type 0
  ReadsHistory d id json =
      (a : Value) × (b : Value) × (c : Value) × (v : Value) × (engine.query d
          (first stats_columns "user_stats" (("user_id", qt.uuid_to_string id) ∷ []))
        ≡ some ((a ∷ b ∷ c ∷ v ∷ []) ∷ []))
      × (is_sql_null v ≡ false)
      × (str_eq (engine.to_string v) "" ≡ false)
      × (qt.from_json (qt.to_utf8 (engine.to_string v)) ≡ qt.from_json (qt.to_utf8 json))

  -- A column of type jsonb gives back the JSON value that was written to it.
  pub record HistoryLaws : Type 0 where
    pub history_read :
        (d : D) (id : QUuid) (json : QString) (c : Command)
        → str_eq json "" ≡ false
        → WritesHistory d id json c
        → has_value (engine.exec d c).0 ≡ true
        → ReadsHistory (engine.exec d c).1 id json

-- The former usernames of a row, or of none.
abbrev names_before : {D : Type 0} → Qt → Engine D → List (List Value) → List QString
names_before qt engine [] = []
names_before qt engine (row ∷ rows) = former_usernames qt engine row

module _ {D : Type 0} (qt : Qt) (qt_laws : QtLaws qt) (text_laws : JsonTextLaws qt)
    (engine : Engine D) (laws : EngineLaws qt engine) (history : HistoryLaws qt engine) where
  text-not_empty : (names : List QString) → str_eq (usernames_to_json qt names) "" ≡ false
  unfolding usernames_to_json
  text-not_empty names = text_laws.text_not_empty _

  history_command-WritesHistory :
      (d : D) (id : QUuid) (former : QString) (rows : List (List Value))
      → engine.query d (history_query qt id) ≡ some rows
      → WritesHistory qt engine d id
          (usernames_to_json qt (with_former former (names_before qt engine rows)))
          (history_command qt engine id former rows)
  unfolding history_command
  history_command-WritesHistory d id former [] found = inl refl
  history_command-WritesHistory d id former (row ∷ rows) found = inr (refl, (row, rows, found))

  stats_of_row-history :
      (a b c v : Value) (names : List QString)
      → is_sql_null v ≡ false
      → str_eq (engine.to_string v) "" ≡ false
      → qt.from_json (qt.to_utf8 (engine.to_string v))
        ≡ qt.from_json (qt.to_utf8 (usernames_to_json qt names))
      → (stats_of_row qt engine (a ∷ b ∷ c ∷ v ∷ [])).ex_usernames ≡ names
  unfolding stats_of_row value_of json_to_usernames
  stats_of_row-history a b c v names filled text same =
      rw
        (
          filled,
          json_to_usernames,
          text,
          same,
          from_json-usernames_to_json qt qt_laws text_laws names,
        )
        (usernames_of_items-username_items names)

  -- The row of user_stats behind the commands of an update that changes the username.
  history_kept :
      (d : D) (id : QUuid) (u wanted : User) (commands : List Command)
      → IsUpdate qt engine id u wanted d commands
      → str_eq wanted.username u.username ≡ false
      → AllSucceed engine commands d
      → (names : List QString) × ReadsHistory qt engine
          (exec_all engine commands d)
          id
          (usernames_to_json qt (with_former u.username names))
  history_kept d id u wanted commands (inl (same, e)) other succeeded = absurd (ground arith)
  history_kept d id u wanted commands (inr (_, (rows, found, e))) other succeeded =
      let (done, (written, end)) = rw e at succeeded in
      (
        names_before qt engine rows,
        rw e (
            history.history_read _ id _ _ (text-not_empty _)
              (history_command-WritesHistory _ id u.username rows found) written),
      )

  commit_update-stats :
      (d : D) (id : QUuid) (v : User) (names : List QString)
      → (commit_update qt engine id d).0 ≡ some v
      → ReadsHistory qt engine d id (usernames_to_json qt names)
      → (s : UserStats) × (get_user_stats_by_id qt engine (commit_update qt engine id d).1 id
          ≡ some s)
        × (s.ex_usernames ≡ names)
  unfolding commit_update get_user_stats_by_id first_row
  commit_update-stats d id v names h (x, y, z, w, found, filled, text, same) =
      let committed : (engine.commit d).0 ≡ true = ground arith in
      (
        stats_of_row qt engine (x ∷ y ∷ z ∷ w ∷ []),
        rw (laws.commit_open d committed, laws.commit_keeps d _ committed, found) refl,
        stats_of_row-history x y z w names filled text same,
      )

  -- After Database::updateUserProfile has returned a user whose username differs from the former
  -- one, getUserStatsById finds statistics of the user in which the former username is among the
  -- earlier ones. Qt's functions and the engine satisfy their laws.
  pub update_user_profile-get_user_stats_by_id :
      (d : D) (id : QUuid) (info : ProfileUpdateInfo) (u v : User)
      → get_user_by_id qt engine d id ≡ some u
      → (update_user_profile qt engine d id info).0 ≡ some v
      → str_eq (updated_user u info).username u.username ≡ false
      → let d' = (update_user_profile qt engine d id info).1 in
        (s : UserStats) × (get_user_stats_by_id qt engine d' id ≡ some s)
        × (is_among u.username s.ex_usernames ≡ true)
  update_user_profile-get_user_stats_by_id d id info u v known h other =
      elim (update_user_profile-IsStored qt engine laws d id info) [
        | inl refused ↦ absurd (ground arith)
        | inr (current, found, (begun, (commands, written, succeeded, e))) ↦
            let same : current ≡ u = grind (arith, known, found) in
            let (names, reads) =
              history_kept _ id u (updated_user u info) commands (rw same at written) other
                succeeded in
            let (s, now, kept) = commit_update-stats _ id v _ (rw e at h) reads in
            (s, rw e now, rw kept (with_former_lem u.username names).0)
      ]
