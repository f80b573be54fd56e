-- ===== src/Database/Created.antt =====
-- server/src/Database.cpp: a user or a content that was created is read back.
use qt_chat_app.Prelude.{◌≡◌, refl, true, List, [], ◌∷◌, some, inl, inr, has_value, arith}
use qt_chat_app.Qt.{Qt, QtLaws, IsUuid}
use qt_chat_app.Model.{User, Content}
use qt_chat_app.Database.Sql.{
  Value, string, Condition, first, insert_into, Engine, value_of, first_row, run_insert,
}
use qt_chat_app.Database.Users.{
  user_columns, user_row, user_of_row, get_user_by_username, get_user_by_email, authenticate_user,
  create_user, get_user_by_id,
}
use qt_chat_app.Database.Contents.{
  content_columns, content_row, content_of_row, create_content, get_content_by_id,
}
use qt_chat_app.Database.Laws.{is_keyed, Matches, id_condition, EngineLaws}

module _ {D : Type 0} (qt : Qt) (engine : Engine D) (laws : EngineLaws qt engine)
    (qt_laws : QtLaws qt) where
  pub user_values : User → List Value
  user_values u =
      string (qt.uuid_to_string u.id)
      ∷ string u.username
      ∷ string u.display_name
      ∷ string u.password_hash
      ∷ string u.email
      ∷ []

  pub user_of_row-user_values : (u : User) → IsUuid u.id → user_of_row qt engine (user_values u) ≡ u
  unfolding user_of_row value_of user_values
  user_of_row-user_values u h = simp (laws.to_string_string, qt_laws.uuid_string_round_trip u.id h)

  -- The query for the user that was inserted.
  abbrev Finds : D → User → Condition → Type 0
  Finds d u conditions =
      first_row (user_of_row qt engine) (engine.query d (first user_columns "users" conditions))
      ≡ some u

  created_row-Finds :
      (d : D) (u : User) (conditions : Condition)
      → IsUuid u.id
      → has_value (engine.exec d (insert_into "users" (user_row qt u))).0 ≡ true
      → is_keyed "users" conditions ≡ true
      → Matches conditions (user_row qt u)
      → Finds (engine.exec d (insert_into "users" (user_row qt u))).1 u conditions
  unfolding first_row user_values
  created_row-Finds d u conditions small done keyed matches =
      rw
        (
          laws.insert_read d "users" (user_row qt u) u.id conditions user_columns (user_values u)
              (inl refl) refl keyed matches refl done,
          user_of_row-user_values u small,
        )
        refl

  create_user_effect :
      (d : D) (u : User)
      → (create_user qt engine d u).0 ≡ true
      → (engine.is_open d ≡ true)
        × (has_value (engine.exec d (insert_into "users" (user_row qt u))).0 ≡ true)
        × ((create_user qt engine d u).1 ≡ (engine.exec d (insert_into "users" (user_row qt u))).1)
  unfolding create_user run_insert
  create_user_effect d u done = ground arith

  -- A user with an id of 128 bits that Database::createUser stored is found by its id, its
  -- username and its email, and by authenticateUser with the username and the hash. Qt's
  -- functions and the engine satisfy their laws.
  pub create_user-get_user :
      (d : D) (u : User)
      → IsUuid u.id
      → (create_user qt engine d u).0 ≡ true
      → let d' = (create_user qt engine d u).1 in
        (get_user_by_id qt engine d' u.id ≡ some u)
        × (get_user_by_username qt engine d' u.username ≡ some u)
        × (get_user_by_email qt engine d' u.email ≡ some u)
        × (authenticate_user qt engine d'
              (record { login = u.username; password_hash = u.password_hash })
            ≡ some u)
  unfolding get_user_by_id get_user_by_username get_user_by_email authenticate_user
  create_user-get_user d u small done =
      let (opened, inserted, e) = create_user_effect d u done in
      let still = laws.exec_open d _ opened inserted in
      rw (e, still)
        (
          created_row-Finds d u _ small inserted refl (refl, tt),
          created_row-Finds d u _ small inserted refl (refl, tt),
          created_row-Finds d u _ small inserted refl (refl, tt),
          created_row-Finds d u _ small inserted refl (refl, (refl, tt)),
        )

  -- A content that was created is read back by its id.
  pub create_content-get_content_by_id :
      (d : D) (c : Content)
      → IsUuid c.id
      → (create_content qt engine d c).0 ≡ true
      → get_content_by_id qt engine (create_content qt engine d c).1 c.id ≡ some c
  unfolding create_content get_content_by_id run_insert first_row content_of_row value_of
  create_content-get_content_by_id d c small done =
      let inserted : has_value (engine.exec d (insert_into "contents" (content_row qt c))).0
          ≡ true =
        ground arith in
      let opened : engine.is_open d ≡ true = ground arith in
      rw
        (
          opened,
          laws.exec_open d _ opened inserted,
          laws.insert_read d "contents" (content_row qt c) c.id (id_condition qt c.id)
              content_columns _ (inr refl) refl refl (refl, tt) refl inserted,
        )
        (simp
          (laws.to_string_string, laws.to_double_double, qt_laws.uuid_string_round_trip c.id small))
