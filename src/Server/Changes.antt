-- ===== src/Server/Changes.antt =====
-- What the routes of applications and of roles do to the record of an application.
use micro_conf.Server.Area.Apps.{create_default_namespace-Touches}
use micro_conf.Commons.{Str}
use micro_conf.App.UserApps.{add_user_app, remove_user_app}
use micro_conf.App.Roles.{Role, add_role, owner, remove_role}
use micro_conf.App.Permission.{require_admin, require_permission}
use micro_conf.App.Manage.{
  Action, RoleRequest, action_of, add, apply_action, del, manage_role, manage_role_route,
  reply_then, role_of, unknown,
}
use micro_conf.User.Accounts.{find_user, UserInfo}
use micro_conf.Server.Records.{
  kept, RecordStep-behind, add_role-RecordStep, modify_app_info-RecordStep, remove_role-RecordStep,
  RecordStep, RecordStep-before, find_app-kept, kept, store_app-created,
}
use micro_conf.Json.{Json}
use micro_conf.Http.{reply_of, Gate-cases, Gate, Reply, next, stop}
use micro_conf.Base.Outcome.{Result, Result-cases, err, ok}
use micro_conf.Base.{Bool-cases, List, Option, inl, inr, none, refl, some, ◌∙◌}
use micro_conf.App.Info.{
  modify_app_info, AppInfo, app_info_key, app_valid, create_default_namespace, find_app, fresh_app,
  new_app,
}
use micro_conf.App.Handlers.{modify_app, modify_app_route, create_app}
use micro_conf.Text.Bytes.{Bytes, codes, has_prefix}
use micro_conf.Store.{RaftStore, IsRaftStore}
use micro_conf.Store.Touches.{Touches, Outside}
use micro_conf.Server.Area.{
  add_user_app-Touches, remove_user_app-Touches, user_lists, accounts, configs, instances,
}
use micro_conf.Server.{guarded}

pub info-accounts : (id : Bytes) → Outside accounts (app_info_key id)
unfolding app_info_key has_prefix
info-accounts id = (refl, tt)

pub info-user_lists : (id : Bytes) → Outside user_lists (app_info_key id)
unfolding app_info_key has_prefix
info-user_lists id = (refl, tt)

pub info-configs : (id : Bytes) → Outside configs (app_info_key id)
unfolding app_info_key has_prefix
info-configs id = (refl, tt)

pub info-instances : (id : Bytes) → Outside instances (app_info_key id)
unfolding app_info_key has_prefix
info-instances id = (refl, (refl, tt))

module _ (rs : RaftStore) (laws : IsRaftStore rs) (apps : Json AppInfo) where
  new_app-RecordStep :
      (token now : Bytes) (info : AppInfo) (j : Bytes) (s : rs.State)
      → RecordStep rs apps j s (new_app rs apps token now info s).0
  unfolding new_app fresh_app
  new_app-RecordStep token now info j s = elim (Bool-cases (app_valid info)) [
    | inr n ↦ rw (n, new_app) (kept refl)
    | inl y ↦ elim (Result-cases (find_app rs apps info.app_id s)) [
      | inl (old, q) ↦ rw (y, q, new_app) (kept refl)
      | inr (e, q) ↦
          let t =
            (create_default_namespace rs apps info.app_id (codes "default") (codes "app.props")
              s).0 in
          let touched =
            create_default_namespace-Touches rs laws apps info.app_id (codes "default")
              (codes "app.props") s in
          let same_key = touched (app_info_key j) (info-configs j) in
          let missing =
            find_app-kept rs apps info.app_id s t
              (touched (app_info_key info.app_id) (info-configs info.app_id))
            ∙ q in
          rw (y, q, new_app)
            (RecordStep-before rs apps j s t _ same_key (
              store_app-created rs apps laws info.app_id j (fresh_app rs apps token now info) e t
                missing refl))
    ]
  ]

  -- A handler that may be left out.
  pub guarded-RecordStep :
      (g : Gate) (h : rs.State → rs.State × List Reply) (j : Bytes) (s : rs.State)
      → RecordStep rs apps j s (h s).0
      → RecordStep rs apps j s (guarded g h s).0
  guarded-RecordStep next h j s k = k
  guarded-RecordStep (stop r) h j s k = kept refl

  reply_of-RecordStep :
      (p : rs.State × Result (Unit {0})) (j : Bytes) (s : rs.State)
      → RecordStep rs apps j s p.0
      → RecordStep rs apps j s (reply_of p).0
  reply_of-RecordStep (t, ok a) j s h = h
  reply_of-RecordStep (t, err e) j s h = h

  pub create_app-RecordStep :
      (token now : Bytes) (session : Option UserInfo) (body : Option AppInfo) (j : Bytes)
      (s : rs.State)
      → RecordStep rs apps j s (create_app rs apps token now session body s).0
  unfolding create_app
  create_app-RecordStep token now session none j s = kept refl
  create_app-RecordStep token now none (some info) j s = kept refl
  create_app-RecordStep token now (some u) (some info) j s =
      let made : AppInfo = record info { creator = u.username } in
      let m = new_app rs apps token now made s in
      let step = new_app-RecordStep token now made j s in
      elim (Result-cases m.1) [
        | inl (a, q) ↦ rw (q, create_app) step
        | inr (e, q) ↦ rw (q, create_app) step
      ]

  -- What follows a change of roles touches the lists of the users alone.
  reply_then-RecordStep :
      (next_call : rs.State → rs.State) (p : rs.State × Result (Unit {0})) (j : Bytes)
      (s : rs.State)
      → RecordStep rs apps j s p.0
      → ((t : rs.State) → Touches rs user_lists t (next_call t))
      → RecordStep rs apps j s (reply_then next_call p).0
  unfolding reply_then
  reply_then-RecordStep next_call (t, err e) j s h k = h
  reply_then-RecordStep next_call (t, ok a) j s h k =
      RecordStep-behind rs apps j s t (next_call t) h (k t (app_info_key j) (info-user_lists j))

  module _ (users : Json UserInfo) (sha1 : Bytes → Bytes) (str : Str) where
    apply_action-RecordStep :
        (a : Action) (r : Role) (id u j : Bytes) (s : rs.State)
        → RecordStep rs apps j s (apply_action rs apps users sha1 str a r id u s).0
    unfolding apply_action
    apply_action-RecordStep add r id u j s =
        reply_then-RecordStep (λ t. (add_user_app rs str u id t).0) (add_role rs apps r id u s) j s
          (add_role-RecordStep rs apps laws r id u j s) (add_user_app-Touches rs laws str u id)
    apply_action-RecordStep del r id u j s =
        reply_then-RecordStep (λ t. (remove_user_app rs str u id t).0)
          (remove_role rs apps str r id u s) j s
          (remove_role-RecordStep rs apps laws str r id u j s)
          (remove_user_app-Touches rs laws str u id)
    apply_action-RecordStep unknown r id u j s = kept refl

    manage_role-RecordStep :
        (id : Bytes) (body : Option RoleRequest) (j : Bytes) (s : rs.State)
        → RecordStep rs apps j s (manage_role rs apps users sha1 str id body s).0
    unfolding manage_role
    manage_role-RecordStep id none j s = kept refl
    manage_role-RecordStep id (some req) j s =
        elim (Result-cases (find_user rs users sha1 req.user s)) [
          | inr (e, q) ↦ rw (q, manage_role) (kept refl)
          | inl (u, q) ↦
              rw (q, manage_role)
                (apply_action-RecordStep (action_of req.action) (role_of req.role) id req.user j s)
        ]

    pub manage_role_route-RecordStep :
        (session : Option UserInfo) (query_app path_app : Bytes) (body : Option RoleRequest)
        (j : Bytes) (s : rs.State)
        → RecordStep rs apps j s
            (manage_role_route rs apps users sha1 str session query_app path_app body s).0
    unfolding manage_role_route
    manage_role_route-RecordStep session query_app path_app body j s =
        elim (Gate-cases (require_permission rs apps users sha1 session query_app owner s)) [
          | inl q ↦ rw (q, manage_role_route) (manage_role-RecordStep path_app body j s)
          | inr (r, q) ↦ rw (q, manage_role_route) (kept refl)
        ]

    modify_app-RecordStep :
        (id : Bytes) (body : Option AppInfo) (j : Bytes) (s : rs.State)
        → RecordStep rs apps j s (modify_app rs apps id body s).0
    unfolding modify_app
    modify_app-RecordStep id none j s = kept refl
    modify_app-RecordStep id (some info) j s =
        reply_of-RecordStep (modify_app_info rs apps (record info { app_id = id }) s) j s
          (modify_app_info-RecordStep rs apps laws (record info { app_id = id }) j s)

    pub modify_app_route-RecordStep :
        (secret inner : Bytes) (session : Option UserInfo) (query_app path_app : Bytes)
        (body : Option AppInfo) (j : Bytes) (s : rs.State)
        → RecordStep rs apps j s
            (modify_app_route rs apps users sha1 secret inner session query_app path_app body s).0
    unfolding modify_app_route
    modify_app_route-RecordStep secret inner session query_app path_app body j s =
        elim (Gate-cases (require_admin rs apps users sha1 secret inner session s)) [
          | inr (r, q) ↦ rw (q, modify_app_route) (kept refl)
          | inl q ↦
              elim (Gate-cases (require_permission rs apps users sha1 session query_app owner s)) [
                | inr (r, p) ↦ rw (q, p, modify_app_route) (kept refl)
                | inl p ↦ rw (q, p, modify_app_route) (modify_app-RecordStep path_app body j s)
              ]
        ]
