-- ===== src/Server/Profile/Update.antt =====
-- server/src/Server.cpp: which profile updates handleUpdateUserProfile stores.
use qt_chat_app.Prelude.{
  ◌≡◌, ◌⊎◌, refl, Bool, true, false, not, Option, none, some, arith, Bool-cases, inl, inr,
  Option-cases, str_eq,
}
use qt_chat_app.Qt.{Qt, QUuid, QString, QByteArray}
use qt_chat_app.Model.{User}
use qt_chat_app.Shared.Packet.{Packet, is_type, update_user_profile}
use qt_chat_app.Server.Auth.{is_ignored}
use qt_chat_app.Shared.Payload.Profile.{ProfileUpdateInfo, deserialize_update}
use qt_chat_app.Shared.Username.{is_valid_username}
use qt_chat_app.Server.Session.{Socket, ClientConnection, find_connection}
use qt_chat_app.Server.Storage.{Storage}
use qt_chat_app.Server.Core.{Core, send_packet, send_error, send_success, send_user_profile_data}
use qt_chat_app.Server.Core.Kept.{db-send_error}
use qt_chat_app.Server.Profile.{
  Checked, fine, refused, UpdateCheck, valid, invalid, check_username, check_display_name,
  check_email, check_password_hash, and_then, is_taken, find_by, check_update, user_on, updated,
  store_update, handle_update_user_profile,
}

-- A field that is set satisfies the test.
abbrev pub Passes : (QString → Bool) → Option QString → Type 0
Passes test none = Unit
Passes test (some s) = test s ≡ true

abbrev pub is_filled : QString → Bool
is_filled s = not (str_eq s "")

-- The update may be stored: the name is valid, and no other text is empty.
abbrev pub IsAcceptable : ProfileUpdateInfo → Type 0
IsAcceptable i =
    Passes is_valid_username i.username
    × Passes is_filled i.display_name
    × Passes is_filled i.email
    × Passes is_filled i.password_hash

-- Nobody but the user has the value of the field.
abbrev pub IsFree : (QString → Option User) → QUuid → Option QString → Type 0
IsFree find self none = Unit
IsFree find self (some s) = (other : User) → find s ≡ some other → other.id ≡ self

username-Passes :
    (qt : Qt) (s t : Option QString) → check_username qt s ≡ fine t → Passes is_valid_username t
username-Passes qt none none h = tt
username-Passes qt none (some t) h = cc
username-Passes qt (some s) none h = tt
username-Passes qt (some s) (some t) h = ground arith

display_name-Passes :
    (qt : Qt) (s t : Option QString) → check_display_name qt s ≡ fine t → Passes is_filled t
display_name-Passes qt none none h = tt
display_name-Passes qt none (some t) h = cc
display_name-Passes qt (some s) none h = tt
display_name-Passes qt (some s) (some t) h = ground arith

email-Passes : (qt : Qt) (s t : Option QString) → check_email qt s ≡ fine t → Passes is_filled t
email-Passes qt none none h = tt
email-Passes qt none (some t) h = cc
email-Passes qt (some s) none h = tt
email-Passes qt (some s) (some t) h = ground arith

password_hash-Passes : (s t : Option QString) → check_password_hash s ≡ fine t → Passes is_filled t
password_hash-Passes none none h = tt
password_hash-Passes none (some t) h = cc
password_hash-Passes (some s) none h = tt
password_hash-Passes (some s) (some t) h = ground arith

-- Four checks that let an update through let its fields through.
all_fine :
    (a b c d : Checked) (j : ProfileUpdateInfo)
    → and_then a (λ name. and_then b λ display_name. and_then c λ email. and_then d λ hash.
      valid (record {
        username = name;
        display_name = display_name;
        email = email;
        password_hash = hash;
      }))
      ≡ valid j
    → (a ≡ fine j.username)
      × (b ≡ fine j.display_name)
      × (c ≡ fine j.email)
      × (d ≡ fine j.password_hash)
all_fine (refused m) b c d j h = cc
all_fine (fine x) (refused m) c d j h = cc
all_fine (fine x) (fine y) (refused m) d j h = cc
all_fine (fine x) (fine y) (fine z) (refused m) j h = cc
all_fine (fine x) (fine y) (fine z) (fine u) j h = ground arith

-- What check_update lets through.
check_update-IsAcceptable :
    (qt : Qt) (i j : ProfileUpdateInfo) → check_update qt i ≡ valid j → IsAcceptable j
unfolding check_update
check_update-IsAcceptable qt i j h =
    let (a, b, c, d) = all_fine _ _ _ _ j h in
    (
      username-Passes qt i.username _ a,
      display_name-Passes qt i.display_name _ b,
      email-Passes qt i.email _ c,
      password_hash-Passes i.password_hash _ d,
    )

not_taken :
    (find : QString → Option User) (self : QUuid) (s : Option QString)
    → is_taken self (find_by find s) ≡ false
    → IsFree find self s
not_taken find self none h = tt
not_taken find self (some s) h = λ other e. ground arith

-- The update that a packet stores: whose it is, that it was checked, and the state behind it.
abbrev pub Stored : {D : Type 0} → Qt → Storage D → Core D → Socket → Packet → D → Type 0
Stored qt storage w s p db =
    (c : ClientConnection) × (user : QUuid) × (bytes : QByteArray) × (asked : ProfileUpdateInfo)
    × (info : ProfileUpdateInfo) × (find_connection p.sender w.clients ≡ some c)
    × (user_on s c ≡ some user)
    × (p.payload ≡ some bytes)
    × (deserialize_update qt bytes ≡ some asked)
    × (check_update qt asked ≡ valid info)
    × IsAcceptable info
    × IsFree (storage.get_user_by_username w.db) user info.username
    × IsFree (storage.get_user_by_email w.db) user info.email
    × (db ≡ (storage.update_user_profile w.db user info).1)

module _ (qt : Qt) {D : Type 0} (storage : Storage D) where
  db-updated :
      (w : Core D) (session user : QUuid) (r : Option User × D)
      → (updated qt storage w session user r).db ≡ r.1
  unfolding send_error send_success send_user_profile_data send_packet
  db-updated w session user (none, db) = ground arith
  db-updated w session user (some u, db) = ground arith

  store_update-db :
      (w : Core D) (session user : QUuid) (r : UpdateCheck)
      → ((store_update qt storage w session user r).db ≡ w.db)
        ⊎ ((info : ProfileUpdateInfo) × (r ≡ valid info)
            × IsFree (storage.get_user_by_username w.db) user info.username
            × IsFree (storage.get_user_by_email w.db) user info.email
            × ((store_update qt storage w session user r).db
                ≡ (storage.update_user_profile w.db user info).1))
  unfolding store_update
  store_update-db w session user (invalid m) = inl (db-send_error qt w session m)
  store_update-db w session user (valid info) =
      elim (Bool-cases
        (is_taken user (find_by (storage.get_user_by_username w.db) info.username))) [
          | inl y ↦ inl (rw y (db-send_error qt w session _))
          | inr a ↦
              elim (Bool-cases
                (is_taken user (find_by (storage.get_user_by_email w.db) info.email))) [
                  | inl y ↦ inl (rw (a, y) (db-send_error qt w session _))
                  | inr b ↦ inr (
                    info,
                    refl,
                    not_taken _ user info.username a,
                    not_taken _ user info.email b,
                    rw (a, b)
                        (db-updated w session user (storage.update_user_profile w.db user info)),
                  )
                ]
        ]

  -- handleUpdateUserProfile leaves the database as it is, or as updateUserProfile leaves it, for
  -- the user of the packet's session on this socket and for an update that the checks made of
  -- the payload's: its username is valid if it is set, no other text that is set is empty, and
  -- no other user has its username or its email.
  pub handle_update_user_profile-Stored :
      (w : Core D) (s : Socket) (p : Packet)
      → ((handle_update_user_profile qt storage w s p).db ≡ w.db)
        ⊎ Stored qt storage w s p (handle_update_user_profile qt storage w s p).db
  unfolding handle_update_user_profile
  handle_update_user_profile-Stored w s p =
      elim (Option-cases (find_connection p.sender w.clients)) [
        | inl n ↦ inl (ground arith)
        | inr (c, e) ↦ elim (Option-cases (user_on s c)) [
          | inl n ↦ inl (grind (arith, db-send_error))
          | inr (user, u) ↦ elim (Option-cases p.payload) [
            | inl n ↦ inl (grind (arith, db-send_error))
            | inr (bytes, b) ↦ elim (Option-cases (deserialize_update qt bytes)) [
              | inl n ↦ inl (grind (arith, db-send_error))
              | inr (asked, a) ↦ elim (Bool-cases (is_ignored s (is_type update_user_profile p))) [
                | inl y ↦ inl (rw y refl)
                | inr f ↦
                    rw (f, e, u, b, a)
                      (elim (store_update-db w c.session_id user (check_update qt asked)) [
                        | inl same ↦ inl same
                        | inr (info, v, free, free', db) ↦ inr (
                          c,
                          user,
                          bytes,
                          asked,
                          info,
                          refl,
                          u,
                          refl,
                          a,
                          v,
                          check_update-IsAcceptable qt asked info v,
                          free,
                          free',
                          db,
                        )
                      ])
              ]
            ]
          ]
        ]
      ]
