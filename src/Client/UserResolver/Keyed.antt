-- ===== src/Client/UserResolver/Keyed.antt =====
-- client/src/UserResolver.cpp: the invariant of m_cache.
use qt_chat_app.Prelude.{
  ◌≡◌, sym, ◌∙◌, subst, Bool, true, false, Option, none, some, List, [], ◌==◌, str_eq, Bool-cases,
  inl, inr, arith,
}
use qt_chat_app.Qt.{Qt, QUuid, QString, is_null}
use qt_chat_app.Shared.Payload.Profile.{PublicUserInfo}
use qt_chat_app.Shared.Payload.Result.{OperationResult}
use qt_chat_app.Shared.Username.{normalize_username}
use qt_chat_app.Client.Hash.{
  lookup, insert, remove, uuid_key, lookup-insert, lookup-insert_other, lookup-remove-some,
}
use qt_chat_app.Client.UserResolver.{
  UserResolver, resolve_user, resolve_username, invalidate_user, invalidate_username, clear_cache,
  on_public_user_info_received, on_operation_result_received, on_connection_status_changed,
  forget_user, is_error,
}

abbrev pub Cache : Type 0
Cache = List (QUuid × PublicUserInfo)

-- What the cache holds for a user is that user's data.
abbrev pub IsKeyed : Cache → Type 0
IsKeyed cache =
    (u : QUuid) (info : PublicUserInfo)
    → lookup uuid_key u cache ≡ some info
    → (info.user_id ≡ u) × (is_null u ≡ false)

insert-IsKeyed :
    (cache : Cache) (info : PublicUserInfo)
    → is_null info.user_id ≡ false
    → IsKeyed cache
    → IsKeyed (insert uuid_key info.user_id info cache)
insert-IsKeyed cache info n v u found e = elim (Bool-cases (info.user_id == u)) [
  | inl y ↦ ground (arith, lookup-insert uuid_key info.user_id info cache)
  | inr f ↦ v u found (sym (lookup-insert_other uuid_key u info.user_id info cache f) ∙ e)
]

remove-IsKeyed : (cache : Cache) (i : QUuid) → IsKeyed cache → IsKeyed (remove uuid_key i cache)
remove-IsKeyed cache i v u info e = v u info (lookup-remove-some uuid_key u i info cache e)

-- What can happen to a resolver.
pub data Step (qt : Qt) : UserResolver → UserResolver → Type 0 where
  resolved :
      (r : UserResolver) (connected : Bool) (u : QUuid)
      → Step qt r (resolve_user connected r u).state
  resolved_username :
      (r : UserResolver) (connected : Bool) (name : QString)
      → Step qt r (resolve_username qt connected r name).state
  invalidated : (r : UserResolver) (u : QUuid) → Step qt r (invalidate_user r u)
  invalidated_username :
      (r : UserResolver) (name : QString) → Step qt r (invalidate_username qt r name)
  cleared : (r : UserResolver) → Step qt r (clear_cache r)
  info_received :
      (r : UserResolver) (info : PublicUserInfo) → Step qt r (on_public_user_info_received r info)
  result_received :
      (r : UserResolver) (result : OperationResult)
      → Step qt r (on_operation_result_received r result)
  connection_changed :
      (r : UserResolver) (connected : Bool) → Step qt r (on_connection_status_changed connected r)

pub data Reach (qt : Qt) (start : UserResolver) : UserResolver → Type 0 where
  at_start : Reach qt start start
  after : {a b : UserResolver} → Reach qt start a → Step qt a b → Reach qt start b

cache-resolve_user :
    (connected : Bool) (r : UserResolver) (u : QUuid)
    → (resolve_user connected r u).state.cache ≡ r.cache
unfolding resolve_user
cache-resolve_user connected r u = ground arith

cache-resolve_username :
    (qt : Qt) (connected : Bool) (r : UserResolver) (name : QString)
    → (resolve_username qt connected r name).state.cache ≡ r.cache
unfolding resolve_username
cache-resolve_username qt connected r name = ground arith

forget_user-IsKeyed :
    (r : UserResolver) (name : QString) (found : Option QUuid)
    → IsKeyed r.cache
    → IsKeyed (forget_user r name found).cache
forget_user-IsKeyed r name none v = v
forget_user-IsKeyed r name (some u) v = remove-IsKeyed r.cache u v

Step-IsKeyed : {qt : Qt} {a b : UserResolver} → Step qt a b → IsKeyed a.cache → IsKeyed b.cache
unfolding invalidate_user invalidate_username clear_cache on_public_user_info_received
    on_operation_result_received on_connection_status_changed lookup
Step-IsKeyed (resolved r connected u) v = subst IsKeyed (sym (cache-resolve_user connected r u)) v
Step-IsKeyed {qt} (resolved_username r connected name) v =
    subst IsKeyed (sym (cache-resolve_username qt connected r name)) v
Step-IsKeyed (invalidated r u) v = remove-IsKeyed r.cache u v
Step-IsKeyed {qt} (invalidated_username r name) v =
    elim (Bool-cases (str_eq (normalize_username qt name) "")) [
      | inl y ↦ rw y v
      | inr f ↦ rw f (forget_user-IsKeyed r (normalize_username qt name) _ v)
    ]
Step-IsKeyed (cleared r) v = λ u info e. cc
Step-IsKeyed (info_received r info) v = elim (Bool-cases (is_null info.user_id)) [
  | inl y ↦ rw y v
  | inr f ↦ rw f (insert-IsKeyed r.cache info f v)
]
Step-IsKeyed (result_received r result) v = elim (Bool-cases (is_error result.type)) [
  | inl y ↦ rw y v
  | inr f ↦ rw f v
]
Step-IsKeyed (connection_changed r true) v = v
Step-IsKeyed (connection_changed r false) v = v

-- From a resolver with an empty m_cache, whatever calls and signals follow, m_cache holds data
-- under the user id that the data has, and none under the null id.
pub Reach-IsKeyed :
    (qt : Qt) (start r : UserResolver) → start.cache ≡ [] → Reach qt start r → IsKeyed r.cache
unfolding lookup
Reach-IsKeyed qt start r e at_start = subst IsKeyed (sym e) (λ u info found. cc)
Reach-IsKeyed qt start r e (after path step) = Step-IsKeyed step (Reach-IsKeyed qt start _ e path)
