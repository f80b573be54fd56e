-- ===== src/Client/ChatManager/Valid.antt =====
-- client/src/ChatManager.cpp: the list of chats, their table and the selected chat agree.
use qt_chat_app.Prelude.{
  ◌≡◌, refl, sym, subst, ◌∙◌, Bool, true, false, not, ◌&&◌, ◌||◌, Option, none, some, List, [], ◌∷◌,
  ◌++◌, has_value, ◌==◌, ==_iff, Bool-cases, inl, inr, arith,
}
use qt_chat_app.Qt.{QUuid}
use qt_chat_app.Client.Hash.{
  lookup, uuid_key, lookup-insert, lookup-insert_other, lookup-remove, lookup-remove_other,
}
use qt_chat_app.Client.Chat.{Chat, remove_all}
use qt_chat_app.Client.ChatManager.{ChatManager, select_chat, add_chat, unselected, remove_chat}

-- m_chatStorage.contains
abbrev pub has_chat : QUuid → ChatManager → Bool
has_chat id m = has_value (lookup uuid_key id m.chat_storage)

abbrev pub is_in : QUuid → List QUuid → Bool
is_in id [] = false
is_in id (j ∷ ids) = j == id || is_in id ids

-- A chat stands in the list exactly if it is in the table, and a selected chat is there.
pub record IsValid (m : ChatManager) : Type 0 where
  pub listed : (j : QUuid) → is_in j m.chat_list ≡ has_chat j m
  pub selected : (j : QUuid) → m.selected_chat ≡ some j → has_chat j m ≡ true

is_in-append :
    (j k : QUuid) (ids : List QUuid) → is_in j (ids ++ (k ∷ [])) ≡ (is_in j ids || k == j)
is_in-append j k [] = ground arith
is_in-append j k (i ∷ ids) = ground (arith, is_in-append j k ids)

is_in-remove_all :
    (j k : QUuid) (ids : List QUuid) → is_in j (remove_all k ids) ≡ (is_in j ids && not (k == j))
unfolding remove_all
is_in-remove_all j k [] = refl
is_in-remove_all j k (i ∷ ids) = ground (arith, is_in-remove_all j k ids)

has_chat-added : (c : Chat) (m : ChatManager) → has_chat c.id (add_chat c m) ≡ true
unfolding add_chat
has_chat-added c m = ground (arith, lookup-insert uuid_key c.id c m.chat_storage)

has_chat-removed : (k : QUuid) (m : ChatManager) → has_chat k (remove_chat k m) ≡ false
unfolding remove_chat
has_chat-removed k m = ground (arith, lookup-remove uuid_key k m.chat_storage)

pub has_chat-add_chat :
    (j : QUuid) (c : Chat) (m : ChatManager)
    → has_chat j (add_chat c m) ≡ (c.id == j || has_chat j m)
unfolding add_chat
has_chat-add_chat j c m = elim (Bool-cases (c.id == j)) [
  | inl same ↦
      let h : has_chat j (add_chat c m) ≡ true =
        subst (λ x. has_chat x (add_chat c m) ≡ true) ((==_iff c.id j).0 same)
          (has_chat-added c m) in
      rw (h, same) refl
  | inr other ↦ ground (arith, lookup-insert_other uuid_key j c.id c m.chat_storage other)
]

pub has_chat-remove_chat :
    (j k : QUuid) (m : ChatManager) → has_chat j (remove_chat k m) ≡ (has_chat j m && not (k == j))
unfolding remove_chat
has_chat-remove_chat j k m = elim (Bool-cases (k == j)) [
  | inl same ↦
      let h : has_chat j (remove_chat k m) ≡ false =
        subst (λ x. has_chat x (remove_chat k m) ≡ false) ((==_iff k j).0 same)
          (has_chat-removed k m) in
      rw (h, same) (ground arith)
  | inr other ↦ ground (arith, lookup-remove_other uuid_key j k m.chat_storage other)
]

pub select_chat-IsValid : (id : QUuid) (m : ChatManager) → IsValid m → IsValid (select_chat id m)
unfolding select_chat
select_chat-IsValid id m v = elim (Bool-cases (has_chat id m)) [
  | inr unknown ↦ rw (select_chat, unknown) v
  | inl known ↦
      rw (select_chat, known)
        (record {
          listed = v.listed;
          selected = λ j e.
              let same : id ≡ j = ground arith in subst (λ x. has_chat x m ≡ true) same known;
        })
]

pub add_chat-IsValid : (c : Chat) (m : ChatManager) → IsValid m → IsValid (add_chat c m)
unfolding add_chat
add_chat-IsValid c m v = elim (Bool-cases (has_chat c.id m)) [
  | inl known ↦ let e : add_chat c m ≡ m = ground arith in rw e v
  | inr fresh ↦
      let list : (add_chat c m).chat_list ≡ m.chat_list ++ (c.id ∷ []) = ground arith in
      let still : (add_chat c m).selected_chat ≡ m.selected_chat = ground arith in
      record {
        listed = λ j.
            rw (list, has_chat-add_chat j c m, is_in-append j c.id m.chat_list, v.listed j)
              (ground arith);
        selected = λ j e. rw (has_chat-add_chat j c m, v.selected j (sym still ∙ e)) (ground arith);
      }
]

unselected-some :
    (id j : QUuid) (o : Option QUuid) → unselected id o ≡ some j → (o ≡ some j) × (id == j ≡ false)
unselected-some id j none e = cc
unselected-some id j (some k) e = ground arith

pub remove_chat-IsValid : (id : QUuid) (m : ChatManager) → IsValid m → IsValid (remove_chat id m)
unfolding remove_chat
remove_chat-IsValid id m v = elim (Bool-cases (has_chat id m)) [
  | inr unknown ↦ let e : remove_chat id m ≡ m = ground arith in rw e v
  | inl known ↦
      let list : (remove_chat id m).chat_list ≡ remove_all id m.chat_list = ground arith in
      let now : (remove_chat id m).selected_chat ≡ unselected id m.selected_chat = ground arith in
      record {
        listed = λ j.
            rw (list, has_chat-remove_chat j id m, is_in-remove_all j id m.chat_list, v.listed j)
              refl;
        selected = λ j e.
            let (was, other) = unselected-some id j m.selected_chat (sym now ∙ e) in
            rw (has_chat-remove_chat j id m, v.selected j was, other) refl;
      }
]
