-- ===== src/Server/Routes.antt =====
-- What each request touches.
use micro_conf.Inner.Laws.{key_operation-get}
use micro_conf.Inner.{KeyCmd, RaftCmd, cluster_operation, key_operation}
use micro_conf.Base.Outcome.{Result}
use micro_conf.User.Accounts.{UserInfo}
use micro_conf.Server.Area.Instances.{app_start-Touches, route_heartbeat-Touches}
use micro_conf.Server.Area.Configs.{
  change_namespace_content-Touches, create_namespace-Touches, namespace_operation-Touches,
  release_namespace-Touches, remove_namespace-Touches,
}
use micro_conf.Server.Area.Apps.{create_app-Touches, manage_role-Touches, modify_app-Touches}
use micro_conf.Http.{reply_of, reply_of-state, Gate, Gate-cases, Reply, next, stop}
use micro_conf.Cfg.Admin.{
  change_namespace_content, create_namespace, namespace_operation, release_namespace,
  remove_namespace,
}
use micro_conf.Base.{
  Bool-cases, [], ap, arith, none, null, refl, some, sym, true, ◌||◌, ◌∙◌, ◌∷◌, ◌≡◌, ◌≢◌, List,
  Option, inl, inr,
}
use micro_conf.App.Permission.{require_admin}
use micro_conf.App.Manage.{RoleRequest, manage_role_route}
use micro_conf.App.Info.{AppInfo}
use micro_conf.App.Handlers.{app_start, create_app, modify_app_route}
use micro_conf.Api.{require_token}
use micro_conf.Text.Bytes.{codes, has_prefix, same, Bytes}
use micro_conf.Store.{RaftStore, IsRaftStore}
use micro_conf.Store.Touches.{Touches-refl, Touches}
use micro_conf.Server.Area.{
  modify_user_bookmark-Touches, register-Touches, user_lists, accounts, configs, instances,
  app_area,
}
use micro_conf.App.Roles.{developer, owner}
use micro_conf.Server.{
  Setting, app_start_route, change_content_route, create_app_route, create_namespace_route, guarded,
  has_instance, passes_role, release_route, remove_namespace_route, shown, username_of, put_app,
  post_app, post_signup, post_role, post_bookmark, post_reg, post_namespace, delete_namespace,
  put_namespace, post_release, heartbeat, post_key, post_cluster, KeepsKeys, handle, Route,
}

abbrev pub area : Route → List Bytes
area (post_signup logged_in body) = accounts
area (post_app inner session token now body) = app_area
area (put_app inner session query_app path_app body) = app_area
area (post_role session query_app path_app body) = app_area
area (post_bookmark session body) = user_lists
area (post_reg now query body) = instances
area (post_namespace session query_app body) = configs
area (delete_namespace session query_app body) = configs
area (put_namespace session query_app app_id group namespace body) = configs
area (post_release session query_app app_id group namespace now) = configs
area (post_key none) = []
area (post_key (some c)) = c.key ∷ []
area (post_cluster body) = []
area (heartbeat info) = instances

-- The request is none between nodes that names the key.
abbrev pub Spares : Bytes → Route → Type 0
Spares k (post_key (some c)) = c.key ≢ k
Spares k _ = Unit

module _ (rs : RaftStore) where
  guarded-Touches :
      (ps : List Bytes) (g : Gate) (h : rs.State → rs.State × List Reply) (s : rs.State)
      → Touches rs ps s (h s).0
      → Touches rs ps s (guarded g h s).0
  guarded-Touches ps next h s k = k
  guarded-Touches ps (stop r) h s k = Touches-refl rs ps s

module _ (env : Setting) (laws : IsRaftStore env.rs) (members : KeepsKeys env) where
  pub post_key-Spares :
      (body : Option KeyCmd) (k : Bytes) (s : env.rs.State)
      → Spares k (post_key body)
      → env.rs.get k (handle env (post_key body) s).0 ≡ env.rs.get k s
  unfolding handle key_operation
  post_key-Spares none k s n = refl
  post_key-Spares (some c) k s n = (key_operation-get env.rs laws c s).0 k n

  prefix_self : (k : Bytes) → has_prefix k k ≡ true
  unfolding has_prefix
  prefix_self [] = refl
  prefix_self (c ∷ k) = ground (arith, prefix_self k)

  post_key-Touches :
      (body : Option KeyCmd) (s : env.rs.State)
      → Touches env.rs (area (post_key body)) s (handle env (post_key body) s).0
  post_key-Touches none s k o = post_key-Spares none k s tt
  post_key-Touches (some c) s k (o, os) =
      post_key-Spares (some c) k s (λ e. cc (sym (prefix_self k) ∙ ap (has_prefix k) (sym e) ∙ o))

  reply_of-get :
      (p : env.rs.State × Result (Unit {0})) (k : Bytes)
      → env.rs.get k (reply_of p).0 ≡ env.rs.get k p.0
  reply_of-get p k = ap (env.rs.get k) (reply_of-state p)

  post_cluster-Touches :
      (body : Option RaftCmd) (s : env.rs.State)
      → Touches env.rs [] s (handle env (post_cluster body) s).0
  unfolding handle cluster_operation
  post_cluster-Touches none s k o = refl
  post_cluster-Touches (some c) s k o =
      elim (Bool-cases (null c.cmd || (null c.addr || null c.node_id))) [
        | inl e ↦ rw e
        | inr e ↦ elim (Bool-cases (same c.cmd (codes "remove"))) [
          | inl r ↦
              rw (e, r)
                (reply_of-get (env.remove_node c.node_id c.addr s) k
                  ∙ members.1 c.node_id c.addr k s)
          | inr r ↦ elim (Bool-cases (same c.cmd (codes "join"))) [
            | inl j ↦
                rw (e, r, j)
                  (reply_of-get (env.join_node c.node_id c.addr s) k
                    ∙ members.0 c.node_id c.addr k s)
            | inr j ↦ rw (e, r, j)
          ]
        ]
      ]

  put_app-Touches :
      (inner : Bytes) (session : Option UserInfo) (query_app path_app : Bytes)
      (body : Option AppInfo) (s : env.rs.State)
      → Touches env.rs app_area s
          (modify_app_route env.rs env.apps env.users env.sha1 env.secret inner session query_app
            path_app body s).0
  unfolding modify_app_route
  put_app-Touches inner session query_app path_app body s =
      elim (Gate-cases
        (require_admin env.rs env.apps env.users env.sha1 env.secret inner session s)) [
          | inr (r, q) ↦ rw (q, modify_app_route) (Touches-refl env.rs app_area s)
          | inl q ↦ elim (Gate-cases (passes_role env owner session query_app s)) [
            | inr (r, p) ↦ rw (q, p, modify_app_route) (Touches-refl env.rs app_area s)
            | inl p ↦
                rw (q, p, modify_app_route)
                  (modify_app-Touches env.rs laws env.apps path_app body s)
          ]
        ]

  post_role-Touches :
      (session : Option UserInfo) (query_app path_app : Bytes) (body : Option RoleRequest)
      (s : env.rs.State)
      → Touches env.rs app_area s
          (manage_role_route env.rs env.apps env.users env.sha1 env.str session query_app path_app
            body s).0
  unfolding manage_role_route
  post_role-Touches session query_app path_app body s =
      elim (Gate-cases (passes_role env owner session query_app s)) [
        | inr (r, p) ↦ rw (p, manage_role_route) (Touches-refl env.rs app_area s)
        | inl p ↦
            rw (p, manage_role_route)
              (manage_role-Touches env.rs laws env.apps env.users env.sha1 env.str path_app body s)
      ]

  -- Every change that a request makes lies in its area.
  pub handle-Touches : (q : Route) (s : env.rs.State) → Touches env.rs (area q) s (handle env q s).0
  unfolding handle create_app_route app_start_route create_namespace_route remove_namespace_route
      change_content_route release_route
  handle-Touches (post_signup logged_in body) s =
      register-Touches env.rs laws env.users env.sha1 logged_in body s
  handle-Touches (post_app inner session token now body) s =
      guarded-Touches env.rs app_area
        (require_admin env.rs env.apps env.users env.sha1 env.secret inner session s)
        (λ t. let (u, r) = create_app env.rs env.apps token now session body t in (u, shown r)) s
        (create_app-Touches env.rs laws env.apps token now session body s)
  handle-Touches (put_app inner session query_app path_app body) s =
      put_app-Touches inner session query_app path_app body s
  handle-Touches (post_role session query_app path_app body) s =
      post_role-Touches session query_app path_app body s
  handle-Touches (post_bookmark session body) s =
      modify_user_bookmark-Touches env.rs laws env.str env.apps env.users env.sha1 session body s
  handle-Touches (post_reg now query body) s =
      guarded-Touches env.rs instances (require_token env.rs env.apps env.sha256 now query s)
        (app_start env.rs env.apps env.str env.marshal body) s
        (app_start-Touches env.rs laws env.marshal env.str env.apps body s)
  handle-Touches (post_namespace session query_app body) s =
      let f = create_namespace env.rs env.str env.apps in
      guarded-Touches env.rs configs (passes_role env owner session query_app s)
        (namespace_operation env.rs env.str env.apps f body) s
        (namespace_operation-Touches env.rs laws env.str env.apps f body s
          (λ ns. create_namespace-Touches env.rs laws env.str env.apps ns s))
  handle-Touches (delete_namespace session query_app body) s =
      let f = remove_namespace env.rs env.str env.apps (has_instance env) in
      guarded-Touches env.rs configs (passes_role env owner session query_app s)
        (namespace_operation env.rs env.str env.apps f body) s
        (namespace_operation-Touches env.rs laws env.str env.apps f body s
          (λ ns. remove_namespace-Touches env.rs laws env.str env.apps (has_instance env) ns s))
  handle-Touches (put_namespace session query_app app_id group namespace body) s =
      guarded-Touches env.rs configs (passes_role env developer session query_app s)
        (change_namespace_content env.rs env.readings env.histories app_id group namespace body) s
        (change_namespace_content-Touches env.rs laws env.readings env.histories app_id group
          namespace body s)
  handle-Touches (post_release session query_app app_id group namespace now) s =
      guarded-Touches env.rs configs (passes_role env owner session query_app s)
        (release_namespace env.rs env.readings env.histories app_id group namespace
          (username_of session) now)
        s
        (release_namespace-Touches env.rs laws env.readings env.histories app_id group namespace
          (username_of session) now s)
  handle-Touches (post_key body) s = post_key-Touches body s
  handle-Touches (post_cluster body) s = post_cluster-Touches body s
  handle-Touches (heartbeat info) s = route_heartbeat-Touches env.rs laws env.marshal info s
