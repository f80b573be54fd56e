-- ===== src/Database/Profile/Updated.antt =====
-- server/src/Database.cpp: the user that updateUserProfile returns.
use qt_chat_app.Prelude.{
  ◌≡◌, refl, ap, ◌∙◌, true, List, [], ◌∷◌, some, inl, inr, Option-cases, length, arith,
}
use qt_chat_app.Qt.{Qt, QUuid, QString}
use qt_chat_app.Model.{User}
use qt_chat_app.Shared.Payload.Profile.{ProfileUpdateInfo}
use qt_chat_app.Database.Sql.{Value, Query, first, Command, Engine, value_of, first_row}
use qt_chat_app.Database.Users.{user_columns, user_of_row, get_user_by_id}
use qt_chat_app.Database.Laws.{EngineLaws, AllSucceed, exec_all, assign, IsOnStats, id_condition}
use qt_chat_app.Database.Profile.{
  updated_user, user_sets, history_command, commit_update, update_user_profile,
}
use qt_chat_app.Database.Profile.Atomic.{IsUpdate, update_user_profile-IsStored}

history_command-IsOnStats :
    {D : Type 0} (qt : Qt) (engine : Engine D) (id : QUuid) (former : QString)
    → (rows : List (List Value)) → IsOnStats (history_command qt engine id former rows)
unfolding history_command
history_command-IsOnStats qt engine id former [] = refl
history_command-IsOnStats qt engine id former (row ∷ rows) = refl

module _ {D : Type 0} (qt : Qt) (engine : Engine D) (laws : EngineLaws qt engine) where
  -- The query of getUserById.
  abbrev by_id : QUuid → Query
  by_id id = first user_columns "users" (id_condition qt id)

  user_of_row-assign :
      (vs : List Value) (u : User) (info : ProfileUpdateInfo)
      → length vs ≡ 5
      → user_of_row qt engine vs ≡ u
      → user_of_row qt engine (assign user_columns (user_sets (updated_user u info)) vs)
        ≡ updated_user u info
  unfolding user_of_row value_of
  user_of_row-assign (a ∷ b ∷ c ∷ d ∷ e ∷ []) u info h same =
      simp (laws.to_string_string, ap (λ (x : User). x.id) same)
  user_of_row-assign [] u info h same = absurd (omega arith)
  user_of_row-assign (a ∷ []) u info h same = absurd (omega arith)
  user_of_row-assign (a ∷ b ∷ []) u info h same = absurd (omega arith)
  user_of_row-assign (a ∷ b ∷ c ∷ []) u info h same = absurd (omega arith)
  user_of_row-assign (a ∷ b ∷ c ∷ d ∷ []) u info h same = absurd (omega arith)
  user_of_row-assign (a ∷ b ∷ c ∷ d ∷ e ∷ f ∷ vs) u info h same = absurd (omega arith)

  -- The row behind a user that is found.
  get_user_by_id-row :
      (d : D) (id : QUuid) (u : User)
      → get_user_by_id qt engine d id ≡ some u
      → (vs : List Value) × (engine.query d (by_id id) ≡ some (vs ∷ []))
        × (length vs ≡ 5)
        × (user_of_row qt engine vs ≡ u)
  unfolding get_user_by_id first_row
  get_user_by_id-row d id u h = elim (Option-cases (engine.query d (by_id id))) [
    | inl failed ↦ absurd (ground arith)
    | inr ([], e) ↦ absurd (ground arith)
    | inr (vs ∷ rest, e) ↦
        let (single, width) = laws.first_row_only d user_columns "users" _ vs rest e in
        (vs, rw single at e, width, ground arith)
  ]

  -- Behind the commands of an update the row holds the new fields.
  commands_read :
      (d : D) (id : QUuid) (u wanted : User) (commands : List Command) (vs : List Value)
      → IsUpdate qt engine id u wanted d commands
      → AllSucceed engine commands d
      → engine.query d (by_id id) ≡ some (vs ∷ [])
      → engine.query (exec_all engine commands d) (by_id id)
        ≡ some (assign user_columns (user_sets wanted) vs ∷ [])
  commands_read d id u wanted commands vs (inl (same, e)) succeeded found =
      let (done, end) = rw e at succeeded in
      rw e (
        laws.update_read d "users" (user_sets wanted) id user_columns vs (inl refl) refl found done)
  commands_read d id u wanted commands vs (inr (other, (rows, history, e))) succeeded found =
      let (done, (written, end)) = rw e at succeeded in
      rw e (
        laws.stats_keep_users _ _ user_columns _
          (history_command-IsOnStats qt engine id u.username rows) written
        ∙ laws.update_read d "users" (user_sets wanted) id user_columns vs (inl refl) refl found
            done)

  commit_update-some :
      (d : D) (id : QUuid) (v : User)
      → (commit_update qt engine id d).0 ≡ some v
      → ((engine.commit d).0 ≡ true)
        × (get_user_by_id qt engine (commit_update qt engine id d).1 id ≡ some v)
  unfolding commit_update
  commit_update-some d id v h = ground arith

  commit_update-get_user_by_id :
      (d : D) (id : QUuid) (vs : List Value)
      → (engine.commit d).0 ≡ true
      → engine.query d (by_id id) ≡ some (vs ∷ [])
      → get_user_by_id qt engine (commit_update qt engine id d).1 id
        ≡ some (user_of_row qt engine vs)
  unfolding commit_update get_user_by_id first_row
  commit_update-get_user_by_id d id vs committed found =
      rw (laws.commit_open d committed, laws.commit_keeps d (by_id id) committed, found) refl

  -- A user that Database::updateUserProfile returns is the user that had the id, with the fields
  -- of the update in place of its own, and getUserById gives it from then on. The engine
  -- satisfies its laws.
  pub update_user_profile-updated_user :
      (d : D) (id : QUuid) (info : ProfileUpdateInfo) (v : User)
      → (update_user_profile qt engine d id info).0 ≡ some v
      → (u : User) × (get_user_by_id qt engine d id ≡ some u)
        × (v ≡ updated_user u info)
        × (get_user_by_id qt engine (update_user_profile qt engine d id info).1 id
            ≡ some (updated_user u info))
  update_user_profile-updated_user d id info v h =
      elim (update_user_profile-IsStored qt engine laws d id info) [
        | inl refused ↦ absurd (ground arith)
        | inr (u, known, (begun, (commands, update, succeeded, e))) ↦
            let (vs, found, width, read) = get_user_by_id-row d id u known in
            let (committed, returned) = commit_update-some _ id v (rw e at h) in
            let wanted = updated_user u info in
            let stored =
              commands_read _ id u wanted commands vs update succeeded
                (laws.transaction_keeps d (by_id id) begun ∙ found) in
            let now =
              commit_update-get_user_by_id _ id _ committed stored
              ∙ ap some (user_of_row-assign vs u info width read) in
            let same : v ≡ wanted = grind (arith, now, returned) in (u, known, same, rw e now)
      ]
