-- ===== src/Server/Area/Apps.antt =====
-- What the administration of applications touches.
use micro_conf.User.Accounts.{UserInfo, find_user}
use micro_conf.Server.Area.Configs.{app_config_key-Inside}
use micro_conf.Json.{Json}
use micro_conf.Commons.{Str}
use micro_conf.Base.Outcome.{Result, Result-cases, err, message, not_found, ok, panic}
use micro_conf.Base.{Bool-cases, Option, [], inl, inr, none, refl, some}
use micro_conf.App.UserApps.{add_user_app, remove_user_app}
use micro_conf.App.Manage.{
  Action, RoleRequest, action_of, add, apply_action, del, manage_role, reply_then, role_of, unknown,
}
use micro_conf.App.Info.{
  AppInfo, app_config_key, app_info_key, app_valid, create_default_at, create_default_namespace,
  find_app, fresh_app, merge, modify_app_info, new_app, store_app,
}
use micro_conf.App.Handlers.{create_app, modify_app}
use micro_conf.Text.Bytes.{Bytes, codes, has_prefix}
use micro_conf.Store.{RaftStore, IsRaftStore, never}
use micro_conf.Store.Touches.{
  Touches-after, Touches-refl, Touches-reply_of, Touches-set, Touches-trans, Touches, Inside,
}
use micro_conf.Server.Area.{
  add_user_app-Touches, remove_user_app-Touches, user_lists, configs, app_area,
}
use micro_conf.App.Roles.{with_role, without_role, Role, finish, add_role, remove_role}

module _ (rs : RaftStore) (laws : IsRaftStore rs) (apps : Json AppInfo) where
  create_default_at-Touches :
      (k : Bytes) (r : Result Bytes) (s : rs.State)
      → Inside configs k
      → Touches rs configs s (create_default_at rs apps k r s).0
  unfolding create_default_at
  create_default_at-Touches k (ok v) s h = Touches-refl rs configs s
  create_default_at-Touches k (err not_found) s h =
      Touches-after rs configs s (rs.set k [] never s) _
        (Touches-set rs configs laws k [] never s h) (λ t _. Touches-refl rs configs t)
  create_default_at-Touches k (err panic) s h = Touches-refl rs configs s
  create_default_at-Touches k (err (message m)) s h = Touches-refl rs configs s

  pub create_default_namespace-Touches :
      (a g n : Bytes) (s : rs.State)
      → Touches rs configs s (create_default_namespace rs apps a g n s).0
  unfolding create_default_namespace
  create_default_namespace-Touches a g n s =
      create_default_at-Touches (app_config_key a g n) (rs.get (app_config_key a g n) s) s
        (app_config_key-Inside a g n)

  widen_configs : (s t : rs.State) → Touches rs configs s t → Touches rs app_area s t
  widen_configs s t h j (o, (o2, (o3, o4))) = h j (o2, tt)

  widen_user_lists : (s t : rs.State) → Touches rs user_lists s t → Touches rs app_area s t
  widen_user_lists s t h j (o, (o2, (o3, o4))) = h j (o3, tt)

  store_app-Touches :
      (id : Bytes) (app : AppInfo) (s : rs.State)
      → Touches rs app_area s (store_app rs apps id app s).0
  unfolding store_app app_info_key has_prefix
  store_app-Touches id app s =
      Touches-set rs app_area laws (app_info_key id) (apps.marshal app) never s (inl refl)

  new_app-Touches :
      (token now : Bytes) (info : AppInfo) (s : rs.State)
      → Touches rs app_area s (new_app rs apps token now info s).0
  unfolding new_app
  new_app-Touches token now info s = elim (Bool-cases (app_valid info)) [
    | inr n ↦ rw (n, new_app) (Touches-refl rs app_area s)
    | inl y ↦ elim (Result-cases (find_app rs apps info.app_id s)) [
      | inl (old, q) ↦ rw (y, q, new_app) (Touches-refl rs app_area s)
      | inr (e, q) ↦
          let t =
            (create_default_namespace rs apps info.app_id (codes "default") (codes "app.props")
              s).0 in
          rw (y, q, new_app)
            (Touches-trans rs app_area s t _
              (widen_configs s t (
                create_default_namespace-Touches info.app_id (codes "default") (codes "app.props")
                  s))
              (store_app-Touches info.app_id (fresh_app rs apps token now info) t))
    ]
  ]

  pub create_app-Touches :
      (token now : Bytes) (session : Option UserInfo) (body : Option AppInfo) (s : rs.State)
      → Touches rs app_area s (create_app rs apps token now session body s).0
  unfolding create_app
  create_app-Touches token now session none s = Touches-refl rs app_area s
  create_app-Touches token now none (some info) s = Touches-refl rs app_area s
  create_app-Touches token now (some u) (some info) s =
      let made : AppInfo = record info { creator = u.username } in
      let step = new_app-Touches token now made s in
      elim (Result-cases (new_app rs apps token now made s).1) [
        | inl (a, q) ↦ rw (q, create_app) step
        | inr (e, q) ↦ rw (q, create_app) step
      ]

  pub modify_app-Touches :
      (id : Bytes) (body : Option AppInfo) (s : rs.State)
      → Touches rs app_area s (modify_app rs apps id body s).0
  unfolding modify_app modify_app_info
  modify_app-Touches id none s = Touches-refl rs app_area s
  modify_app-Touches id (some info) s =
      Touches-reply_of rs app_area s (modify_app_info rs apps (record info { app_id = id }) s)
        (elim (Result-cases (find_app rs apps id s)) [
          | inl (a, q) ↦
              rw (q, modify_app_info)
                (store_app-Touches id (merge rs apps a (record info { app_id = id })) s)
          | inr (e, q) ↦ rw (q, modify_app_info) (Touches-refl rs app_area s)
        ])

  finish-Touches :
      (id : Bytes) (r : Result (Option AppInfo)) (s : rs.State)
      → Touches rs app_area s (finish rs apps id r s).0
  unfolding finish
  finish-Touches id (ok none) s = Touches-refl rs app_area s
  finish-Touches id (ok (some app)) s = store_app-Touches id app s
  finish-Touches id (err e) s = Touches-refl rs app_area s

  add_role-Touches :
      (r : Role) (id u : Bytes) (s : rs.State) → Touches rs app_area s (add_role rs apps r id u s).0
  unfolding add_role
  add_role-Touches r id u s = elim (Result-cases (find_app rs apps id s)) [
    | inl (a, q) ↦ rw (q, add_role) (finish-Touches id (with_role r u a) s)
    | inr (e, q) ↦ rw (q, add_role) (Touches-refl rs app_area s)
  ]

  remove_role-Touches :
      (str : Str) (r : Role) (id u : Bytes) (s : rs.State)
      → Touches rs app_area s (remove_role rs apps str r id u s).0
  unfolding remove_role
  remove_role-Touches str r id u s = elim (Result-cases (find_app rs apps id s)) [
    | inl (a, q) ↦ rw (q, remove_role) (finish-Touches id (without_role str r u a) s)
    | inr (e, q) ↦ rw (q, remove_role) (Touches-refl rs app_area s)
  ]

  reply_then-Touches :
      (next_call : rs.State → rs.State) (p : rs.State × Result (Unit {0})) (s : rs.State)
      → Touches rs app_area s p.0
      → ((t : rs.State) → Touches rs user_lists t (next_call t))
      → Touches rs app_area s (reply_then next_call p).0
  unfolding reply_then
  reply_then-Touches next_call (t, err e) s h k = h
  reply_then-Touches next_call (t, ok a) s h k =
      Touches-trans rs app_area s t (next_call t) h (widen_user_lists t (next_call t) (k t))

  module _ (users : Json UserInfo) (sha1 : Bytes → Bytes) (str : Str) where
    apply_action-Touches :
        (a : Action) (r : Role) (id u : Bytes) (s : rs.State)
        → Touches rs app_area s (apply_action rs apps users sha1 str a r id u s).0
    unfolding apply_action
    apply_action-Touches add r id u s =
        reply_then-Touches (λ t. (add_user_app rs str u id t).0) (add_role rs apps r id u s) s
          (add_role-Touches r id u s) (add_user_app-Touches rs laws str u id)
    apply_action-Touches del r id u s =
        reply_then-Touches (λ t. (remove_user_app rs str u id t).0)
          (remove_role rs apps str r id u s) s (remove_role-Touches str r id u s)
          (remove_user_app-Touches rs laws str u id)
    apply_action-Touches unknown r id u s = Touches-refl rs app_area s

    pub manage_role-Touches :
        (id : Bytes) (body : Option RoleRequest) (s : rs.State)
        → Touches rs app_area s (manage_role rs apps users sha1 str id body s).0
    unfolding manage_role
    manage_role-Touches id none s = Touches-refl rs app_area s
    manage_role-Touches id (some req) s = elim (Result-cases (find_user rs users sha1 req.user s)) [
      | inr (e, q) ↦ rw (q, manage_role) (Touches-refl rs app_area s)
      | inl (u, q) ↦
          rw (q, manage_role)
            (apply_action-Touches (action_of req.action) (role_of req.role) id req.user s)
    ]
