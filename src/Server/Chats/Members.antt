-- ===== src/Server/Chats/Members.antt =====
-- server/src/Server.cpp: the members that handleCreateChat gives a new chat.
use qt_chat_app.Prelude.{
  ◌≡◌, refl, ap, ◌∙◌, Bool, false, ◌||◌, ◌&&◌, List, [], ◌∷◌, ◌++◌, arith, if◌then◌else◌, ◌==◌,
  Bool-cases, inl, inr, has_value,
}
use qt_chat_app.Qt.{Qt, QUuid, is_null}
use qt_chat_app.Server.Storage.{Storage}
use qt_chat_app.Server.Core.{contains_uuid}
use qt_chat_app.Server.Chats.{insert_uuid, collect_members}

-- No member stands in the list twice.
abbrev pub Nodup : List QUuid → Type 0
Nodup [] = Unit
Nodup (u ∷ us) = (contains_uuid u us ≡ false) × Nodup us

contains-append :
    (u v : QUuid) (us : List QUuid) → contains_uuid u (us ++ v ∷ []) ≡ contains_uuid u us || v == u
unfolding contains_uuid
contains-append u v [] = ground arith
contains-append u v (x ∷ us) = ground (arith, contains-append u v us)

Nodup-append :
    (v : QUuid) (us : List QUuid) → contains_uuid v us ≡ false → Nodup us → Nodup (us ++ v ∷ [])
unfolding contains_uuid
Nodup-append v [] h n = (refl, tt)
Nodup-append v (u ∷ us) h n = ground (arith, contains-append u v us, Nodup-append v us)

insert_uuid-Nodup : (v : QUuid) (us : List QUuid) → Nodup us → Nodup (insert_uuid v us)
unfolding insert_uuid
insert_uuid-Nodup v us n = elim (Bool-cases (contains_uuid v us)) [
  | inl y ↦ rw y n
  | inr no_v ↦ rw no_v (Nodup-append v us no_v n)
]

contains-insert_uuid :
    (u v : QUuid) (us : List QUuid)
    → contains_uuid u (insert_uuid v us) ≡ contains_uuid u us || v == u
unfolding insert_uuid
contains-insert_uuid u v us = ground (arith, contains-append u v us, seen u v us)
  where
    seen : (u v : QUuid) (us : List QUuid) → v ≡ u → contains_uuid v us ≡ contains_uuid u us
    seen u v us e = ap (λ x. contains_uuid x us) e

module _ (qt : Qt) {D : Type 0} (storage : Storage D) (db : D) (creator : QUuid) where
  -- A requested id that is taken into the chat: neither null nor the creator's, and a user's.
  abbrev pub is_accepted : QUuid → Bool
  is_accepted u =
      if is_null u || u == creator then false else has_value (storage.get_user_by_id db u)

  -- What one round of the loop makes of the members.
  one_member-Nodup :
      (u : QUuid) (members : List QUuid)
      → Nodup members
      → Nodup (if is_accepted u then insert_uuid u members else members)
  one_member-Nodup u members n = elim (Bool-cases (is_accepted u)) [
    | inl y ↦ rw y (insert_uuid-Nodup u members n)
    | inr f ↦ rw f n
  ]

  collect-step :
      (u : QUuid) (us members : List QUuid)
      → collect_members qt storage db creator members (u ∷ us)
        ≡ collect_members qt storage db creator
            (if is_accepted u then insert_uuid u members else members)
            us
  unfolding collect_members
  collect-step u us members = ground arith

  collect-Nodup :
      (us members : List QUuid)
      → Nodup members
      → Nodup (collect_members qt storage db creator members us)
  collect-Nodup [] members n = unfold collect_members in n
  collect-Nodup (u ∷ us) members n =
      rw (collect-step u us members) (collect-Nodup us _ (one_member-Nodup u members n))

  collect-contains :
      (x : QUuid) (us members : List QUuid)
      → contains_uuid x (collect_members qt storage db creator members us)
        ≡ contains_uuid x members || (contains_uuid x us && is_accepted x)
  collect-contains x [] members = unfold collect_members contains_uuid in ground arith
  collect-contains x (u ∷ us) members =
      rw (collect-step u us members, collect-contains x us)
        (unfold contains_uuid in ground (arith, contains-insert_uuid x u members))

  -- The members that handleCreateChat collects, from the creator on, hold no user twice, and a
  -- user is among them exactly if it is the creator, or it is requested and it is not null and
  -- in the database.
  pub collect_members-from_creator :
      (us : List QUuid)
      → Nodup (collect_members qt storage db creator (creator ∷ []) us)
        × ((x : QUuid)
            → contains_uuid x (collect_members qt storage db creator (creator ∷ []) us)
              ≡ creator == x || (contains_uuid x us && is_accepted x))
  collect_members-from_creator us = (
    collect-Nodup us (creator ∷ []) (unfold contains_uuid in (refl, tt)),
    λ x. collect-contains x us (creator ∷ []) ∙ (unfold contains_uuid in ground arith),
  )
