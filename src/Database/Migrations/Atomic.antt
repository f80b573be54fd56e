-- ===== src/Database/Migrations/Atomic.antt =====
-- server/src/Database.cpp: a migration of init is done as a whole or taken back.
use qt_chat_app.Prelude.{
  ℕ, ◌≡◌, ◌⊎◌, refl, ap, ◌∙◌, Bool, true, false, [], ◌∷◌, inl, inr, Bool-cases, Option-cases,
  has_value,
}
use qt_chat_app.Qt.{Qt, QString}
use qt_chat_app.Qt.JsonValue.{pos}
use qt_chat_app.Database.Sql.{int, script, insert_into, Engine}
use qt_chat_app.Database.Laws.{EngineLaws, exec_all, AllSucceed}
use qt_chat_app.Database.Migrations.{record_version, migrate}
use qt_chat_app.Database.Migrations.Laws.{IsUndone}
use qt_chat_app.Database.Migrations.Steps.{migration}

module _ {D : Type 0} (engine : Engine D) where
  -- The state behind the two commands of a migration.
  abbrev pub behind : ℕ → QString → D → D
  behind version sql d = exec_all engine (migration version sql) (engine.transaction d).1

  record_version_ends :
      (version : ℕ) (d : D)
      → let recorded =
          engine.exec d (insert_into "schema_migrations" (("version", int (pos version)) ∷ [])) in
        (record_version engine version d ≡ (false, (engine.rollback recorded.1).1))
        ⊎ ((has_value recorded.0 ≡ true)
            × (record_version engine version d ≡ engine.commit recorded.1))
  unfolding record_version
  record_version_ends version d =
      elim (Option-cases
        (engine.exec d (insert_into "schema_migrations" (("version", int (pos version)) ∷ []))).0) [
          | inl failed ↦ inl (rw (record_version, failed) refl)
          | inr (n, done) ↦ inr (rw done refl, rw (record_version, done) refl)
        ]

  -- The commands of a migration succeeded, and COMMIT was tried.
  abbrev pub IsTried : ℕ → QString → D → Bool × D → Type 0
  IsTried version sql d result =
      ((engine.transaction d).0 ≡ true)
      × AllSucceed engine (migration version sql) (engine.transaction d).1
      × (result ≡ engine.commit (behind version sql d))

  -- A migration whose text can be taken back leaves the database as it was, or all its commands succeeded and COMMIT was tried.
  pub migrate-IsTried :
      (qt : Qt)
      → EngineLaws qt engine
      → (version : ℕ) (sql : QString) (d : D) → IsUndone engine sql d
      → (migrate engine version sql d ≡ (false, d))
        ⊎ IsTried version sql d (migrate engine version sql d)
  unfolding migrate
  migrate-IsTried qt laws version sql d undone_lem =
      let begun = (engine.transaction d).1 in
      let executed = engine.exec begun (script sql) in
      elim (Bool-cases (engine.transaction d).0) [
        | inr failed ↦
            inl
              (rw (migrate, failed) (ap (λ (x : D). (false, x)) (laws.transaction_fails d failed)))
        | inl ok ↦ elim (Option-cases executed.0) [
          | inl failed ↦
              inl (rw (migrate, ok, failed) (ap (λ (x : D). (false, x)) (undone_lem [] tt ok)))
          | inr (n, done) ↦
              let e : migrate engine version sql d ≡ record_version engine version executed.1 =
                rw (migrate, ok, done) refl in
              elim (record_version_ends version executed.1) [
                | inl undone ↦ inl (
                    e
                    ∙ undone
                    ∙ ap (λ (x : D). (false, x))
                        (undone_lem
                          (insert_into "schema_migrations" (("version", int (pos version)) ∷ [])
                            ∷ [])
                          (tt, tt) ok))
                | inr (recorded, kept) ↦ inr (ok, (rw done refl, (recorded, tt)), e ∙ kept)
              ]
        ]
      ]
