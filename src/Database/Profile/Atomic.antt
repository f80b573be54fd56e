-- ===== src/Database/Profile/Atomic.antt =====
-- server/src/Database.cpp: updateUserProfile either does all of its commands or none.
use qt_chat_app.Prelude.{
  All, ◌≡◌, ◌⊎◌, refl, ap, ◌∙◌, true, false, List, [], ◌∷◌, Option, none, some, inl, inr,
  Bool-cases, Option-cases, has_value, str_eq, arith,
}
use qt_chat_app.Qt.{Qt, QUuid, QString}
use qt_chat_app.Model.{User}
use qt_chat_app.Shared.Payload.Profile.{ProfileUpdateInfo}
use qt_chat_app.Database.Sql.{Value, Command, Engine}
use qt_chat_app.Database.Users.{get_user_by_id}
use qt_chat_app.Database.Laws.{IsRowCommand, EngineLaws, exec_all, AllSucceed}
use qt_chat_app.Database.Profile.{
  updated_user, user_update, history_query, history_command, commit_update, write_history,
  keep_history, store_user, update_in_transaction, update_user_profile,
}

module _ {D : Type 0} (qt : Qt) (engine : Engine D) where
  -- What a transaction of the update executes: the user's row, and the history of its names when
  -- the username changes.
  abbrev pub IsUpdate : QUuid → User → User → D → List Command → Type 0
  IsUpdate id current wanted begun commands =
      ((str_eq wanted.username current.username ≡ true)
        × (commands ≡ user_update qt id wanted ∷ []))
      ⊎ ((str_eq wanted.username current.username ≡ false)
          × ((rows : List (List Value)) × (engine.query
                  (engine.exec begun (user_update qt id wanted)).1 (history_query qt id)
                ≡ some rows)
              × (commands
                  ≡ user_update qt id wanted
                    ∷ history_command qt engine id current.username rows
                    ∷ [])))

  -- The state after COMMIT was tried behind all commands of the update.
  abbrev pub IsStored : QUuid → User → User → D → Option User × D → Type 0
  IsStored id current wanted d result =
      (engine.transaction d).0 ≡ true
      × ((commands : List Command) × IsUpdate id current wanted (engine.transaction d).1 commands
          × AllSucceed engine commands (engine.transaction d).1
          × (result
              ≡ commit_update qt engine id (exec_all engine commands (engine.transaction d).1)))

  -- How the part behind the call of transaction() ends: taken back, or committed.
  abbrev Ends : QUuid → User → User → D → Option User × D → Type 0
  Ends id current wanted d result =
      ((commands : List Command) × All IsRowCommand commands
        × (result ≡ (none, (engine.rollback (exec_all engine commands d)).1)))
      ⊎ ((commands : List Command) × IsUpdate id current wanted d commands
          × AllSucceed engine commands d
          × (result ≡ commit_update qt engine id (exec_all engine commands d)))

  history_command-IsRowCommand :
      (id : QUuid) (former : QString) (rows : List (List Value))
      → IsRowCommand (history_command qt engine id former rows)
  unfolding history_command
  history_command-IsRowCommand id former [] = tt
  history_command-IsRowCommand id former (row ∷ rows) = tt

  write_history_ends :
      (id : QUuid) (command : Command) (d : D)
      → (write_history qt engine id command d
          ≡ (none, (engine.rollback (engine.exec d command).1).1))
        ⊎ ((has_value (engine.exec d command).0 ≡ true)
            × (write_history qt engine id command d
                ≡ commit_update qt engine id (engine.exec d command).1))
  unfolding write_history
  write_history_ends id command d = elim (Option-cases (engine.exec d command).0) [
    | inl failed ↦ inl (ground arith)
    | inr (n, done) ↦ inr (ground arith)
  ]

  keep_history-Ends :
      (id : QUuid) (current wanted : User) (d : D)
      → has_value (engine.exec d (user_update qt id wanted)).0 ≡ true
      → str_eq wanted.username current.username ≡ false
      → Ends id current wanted d
          (keep_history qt engine id current.username (engine.exec d (user_update qt id wanted)).1)
  unfolding keep_history
  keep_history-Ends id current wanted d done other =
      let stored = (engine.exec d (user_update qt id wanted)).1 in
      elim (Option-cases (engine.query stored (history_query qt id))) [
        | inl failed ↦ inl (user_update qt id wanted ∷ [], (tt, tt), ground arith)
        | inr (rows, found) ↦
            let command = history_command qt engine id current.username rows in
            let e : keep_history qt engine id current.username stored
                ≡ write_history qt engine id command stored =
              ground arith in
            elim (write_history_ends id command stored) [
              | inl undone ↦ inl (
                user_update qt id wanted ∷ command ∷ [],
                (tt, (history_command-IsRowCommand id current.username rows, tt)),
                e ∙ undone,
              )
              | inr (written, kept) ↦ inr (
                user_update qt id wanted ∷ command ∷ [],
                inr (other, (rows, found, refl)),
                (done, (written, tt)),
                e ∙ kept,
              )
            ]
      ]

  store_user-Ends :
      (id : QUuid) (current wanted : User) (d : D)
      → Ends id current wanted d (store_user qt engine id current wanted d)
  unfolding store_user
  store_user-Ends id current wanted d =
      let stored = engine.exec d (user_update qt id wanted) in
      elim (Option-cases stored.0) [
        | inl failed ↦ inl (user_update qt id wanted ∷ [], (tt, tt), ground arith)
        | inr (n, done) ↦
            let succeeded : has_value stored.0 ≡ true = rw done refl in
            elim (Bool-cases (str_eq wanted.username current.username)) [
              | inl same ↦
                  inr
                    (user_update qt id wanted ∷ [], inl (same, refl), (succeeded, tt), ground arith)
              | inr other ↦
                  let e : store_user qt engine id current wanted d
                      ≡ keep_history qt engine id current.username stored.1 =
                    ground arith in
                  rw e (keep_history-Ends id current wanted d succeeded other)
            ]
      ]

  -- Database::updateUserProfile returns nothing and leaves the database as it was, or the user
  -- is there, every command of its transaction succeeded (the UPDATE of the user with the fields
  -- of the update in place of its own, and, exactly if the username changes, the write of the
  -- username history that was read behind it) and COMMIT was tried. The engine satisfies its
  -- laws.
  pub update_user_profile-IsStored :
      (laws : EngineLaws qt engine) (d : D) (id : QUuid) (info : ProfileUpdateInfo)
      → let result = update_user_profile qt engine d id info in
        (result ≡ (none, d))
        ⊎ ((current : User) × (get_user_by_id qt engine d id ≡ some current)
            × IsStored id current (updated_user current info) d result)
  unfolding update_user_profile update_in_transaction
  update_user_profile-IsStored laws d id info = elim (Bool-cases (engine.is_open d)) [
    | inr closed ↦ inl (ground arith)
    | inl opened ↦ elim (Option-cases (get_user_by_id qt engine d id)) [
      | inl unknown ↦ inl (ground arith)
      | inr (current, known) ↦ elim (Bool-cases (engine.transaction d).0) [
        | inr failed ↦ inl (ground (arith, laws.transaction_fails d failed))
        | inl begun ↦
            let wanted = updated_user current info in
            let e : update_user_profile qt engine d id info
                ≡ store_user qt engine id current wanted (engine.transaction d).1 =
              ground arith in
            elim (store_user-Ends id current wanted (engine.transaction d).1) [
              | inl (commands, written, undone) ↦ inl (
                  e
                  ∙ undone
                  ∙ ap (λ (d' : D). (none, d')) (laws.rollback_undoes d commands written begun))
              | inr (commands, update, succeeded, done) ↦
                  inr (current, known, (begun, (commands, update, succeeded, e ∙ done)))
            ]
      ]
    ]
  ]
