-- ===== src/App/Manage/Laws.antt =====
-- What a request to change roles achieves, and who may make it.
use micro_conf.User.Accounts.{UserInfo, is_admin, stored}
use micro_conf.Text.Fold.{equal_fold}
use micro_conf.Text.Bytes.{Bytes, Lacks}
use micro_conf.Store.{IsRaftStore, RaftStore}
use micro_conf.Json.{Json}
use micro_conf.Http.{Gate, next, stop, success}
use micro_conf.Commons.{Str}
use micro_conf.Base.Outcome.{Result, err, ok}
use micro_conf.Base.{
  Option, [], ap, arith, inl, inr, not, refl, some, sym, true, ◌&&◌, ◌||◌, ◌↔◌, ◌∙◌, ◌∷◌, ◌≡◌, ◌≢◌,
  ◌⊎◌,
}
use micro_conf.App.UserApps.Frame.{add_app-Keeps, remove_app-Keeps}
use micro_conf.App.UserApps.{add_user_app, remove_user_app, user_app_key}
use micro_conf.App.Roles.Laws.{Holds, add_role-Holds, members, remove_role-Holds}
use micro_conf.App.Roles.{Role, add_role, other, owner, remove_role}
use micro_conf.App.Permission.Laws.{require_permission_iff}
use micro_conf.App.Permission.{require_permission}
use micro_conf.App.Members.{contains}
use micro_conf.App.Manage.{
  RoleRequest, add, apply_action, del, manage_role, manage_role_route, reply_then,
}
use micro_conf.App.Info.{AppInfo, app_info_key, find_app}

-- The keys of applications and of users' lists differ in their first byte.
app_info_key-ne : (u id : Bytes) → user_app_key u ≢ app_info_key id
unfolding user_app_key app_info_key
app_info_key-ne u id e = ground arith

module _ (rs : RaftStore) (laws : IsRaftStore rs) (apps : Json AppInfo) (users : Json UserInfo)
    (sha1 : Bytes → Bytes) (str : Str) where
  find_app-add_user_app :
      (u id j : Bytes) (s : rs.State)
      → find_app rs apps j (add_user_app rs str u id s).0 ≡ find_app rs apps j s
  unfolding find_app add_user_app
  find_app-add_user_app u id j s =
      rw (add_app-Keeps rs laws str (user_app_key u) id (app_info_key j) (app_info_key-ne u j) s)

  find_app-remove_user_app :
      (u id j : Bytes) (s : rs.State)
      → find_app rs apps j (remove_user_app rs str u id s).0 ≡ find_app rs apps j s
  unfolding find_app remove_user_app
  find_app-remove_user_app u id j s =
      rw (remove_app-Keeps rs laws str (user_app_key u) id (app_info_key j) (app_info_key-ne u j) s)

  reply_then-success :
      (next_call : rs.State → rs.State) (p : rs.State × Result (Unit {0})) (t : rs.State)
      → reply_then next_call p ≡ (t, success ∷ [])
      → (p ≡ (p.0, ok tt)) × (t ≡ next_call p.0)
  unfolding reply_then
  reply_then-success next_call (s, ok a) t h = (refl, sym (ap (λ q. q.0) h))
  reply_then-success next_call (s, err e) t h = cc h

  module _ (r : Role) (hr : r ≢ other) (id u : Bytes) (hu : u ≢ []) (app : AppInfo) (s t : rs.State)
      (found : find_app rs apps id s ≡ ok app) where
    -- The role is not the unknown one, the user's name is not empty and has no comma, and the
    -- application is stored: when the action "add" is answered by success alone, the application
    -- that is stored then has the user among the holders of the role, and is otherwise as the
    -- addition of a role leaves it.
    pub apply_action-add :
        Lacks b',' u
        → apply_action rs apps users sha1 str add r id u s ≡ (t, success ∷ [])
        → (app' : AppInfo) × (find_app rs apps id t ≡ ok app')
          × Holds app app' r (λ x. contains (members r app) x || equal_fold u x)
    unfolding apply_action
    apply_action-add hc h =
        let p = add_role rs apps r id u s in
        let (ran, e) = reply_then-success (λ x. (add_user_app rs str u id x).0) p t h in
        let (app', stored, holds) =
          add_role-Holds rs laws apps id u hu app s p.0 r hr found hc ran in
        (app', rw e (find_app-add_user_app u id id p.0 ∙ stored), holds)

    -- The role is not the unknown one, the user's name is not empty, and the application is stored:
    -- when the action "remove" is answered by success alone, the application that is stored then
    -- has no spelling of the user among the holders of the role, and all other holders.
    pub apply_action-del :
        apply_action rs apps users sha1 str del r id u s ≡ (t, success ∷ [])
        → (app' : AppInfo) × (find_app rs apps id t ≡ ok app')
          × Holds app app' r (λ x. contains (members r app) x && not (equal_fold u x))
    unfolding apply_action
    apply_action-del h =
        let p = remove_role rs apps str r id u s in
        let (ran, e) = reply_then-success (λ x. (remove_user_app rs str u id x).0) p t h in
        let (app', stored, holds) =
          remove_role-Holds rs laws apps id u hu app s p.0 r hr found str ran in
        (app', rw e (find_app-remove_user_app u id id p.0 ∙ stored), holds)

-- The user is an administrator, or an owner of the application.
abbrev pub MayManage :
    (rs : RaftStore)
    → Json AppInfo
    → Json UserInfo
    → (Bytes → Bytes)
    → UserInfo
    → Bytes
    → rs.State
    → Type 0
MayManage rs apps users sha1 u id s =
    (is_admin rs users sha1 u.username s ≡ true)
    ⊎ ((app : AppInfo) × (find_app rs apps id s ≡ ok app) × (contains app.owners u.username ≡ true))

-- For a user with a name, the route runs the handler on the application of the path for an
-- administrator or an owner of the application of the query, whatever their roles in that of the
-- path, and for nobody else: then the state stays as it is.
pub manage_role_route-gate :
    (rs : RaftStore) (apps : Json AppInfo) (users : Json UserInfo) (sha1 : Bytes → Bytes)
    (str : Str) (u : UserInfo) (query_app path_app : Bytes) (body : Option RoleRequest)
    (s : rs.State)
    → u.username ≢ []
    → (MayManage rs apps users sha1 u query_app s
        × (manage_role_route rs apps users sha1 str (some u) query_app path_app body s
            ≡ manage_role rs apps users sha1 str path_app body s))
      ⊎ ((¬ MayManage rs apps users sha1 u query_app s)
          × ((manage_role_route rs apps users sha1 str (some u) query_app path_app body s).0 ≡ s))
unfolding manage_role_route
manage_role_route-gate rs apps users sha1 str u query_app path_app body s h =
    let iff = require_permission_iff rs apps users sha1 u query_app owner s h in
    go (require_permission rs apps users sha1 (some u) query_app owner s) refl iff
  where
    go :
        (g : Gate)
        → require_permission rs apps users sha1 (some u) query_app owner s ≡ g
        → (require_permission rs apps users sha1 (some u) query_app owner s ≡ next)
          ↔ MayManage rs apps users sha1 u query_app s
        → (MayManage rs apps users sha1 u query_app s
            × (manage_role_route rs apps users sha1 str (some u) query_app path_app body s
                ≡ manage_role rs apps users sha1 str path_app body s))
          ⊎ ((¬ MayManage rs apps users sha1 u query_app s)
              × ((manage_role_route rs apps users sha1 str (some u) query_app path_app body s).0
                  ≡ s))
    go next e iff = inl (iff.0 e, rw (e, manage_role_route))
    go (stop r) e iff = inr ((λ m. cc (sym e ∙ iff.1 m)), rw (e, manage_role_route))
