-- ===== src/Server.antt =====
-- The routes of the HTTP server that change the store, as service/service.go and user/api.go
-- register them: each request runs through its middleware to its handler. Those between nodes have
-- no middleware.
pub mod Accounts
pub mod Area
pub mod Authority
pub mod Delivery
pub mod Routes
pub mod Applications
pub mod Records
pub mod Changes
use micro_conf.User.Accounts.{UserInfo, register}
use micro_conf.Http.{Gate, Handler, Reply, next, stop, success}
use micro_conf.Conn.Heartbeat.{HeartBeat, route_heartbeat}
use micro_conf.Inner.{KeyCmd, RaftCmd, key_operation, cluster_operation}
use micro_conf.Base.Outcome.{Call, err, ok}
use micro_conf.Base.{
  Bool, List, Option, [], inl, inr, length, ltb, none, some, true, ℕ, ◌∷◌, ◌≡◌, ◌⊎◌,
}
use micro_conf.App.Permission.{require_admin, require_permission}
use micro_conf.App.Manage.{BookmarkAction, RoleRequest, manage_role_route, modify_user_bookmark}
use micro_conf.App.Listeners.{get_namespace_instances}
use micro_conf.App.Instances.{InstanceInfo}
use micro_conf.App.Info.{AppInfo}
use micro_conf.App.Handlers.{app_start, create_app, modify_app_route}
use micro_conf.Text.Bytes.{Bytes}
use micro_conf.Text.Decimal.{ℤ}
use micro_conf.Store.{RaftStore}
use micro_conf.Json.{Json}
use micro_conf.Dict.{Dict}
use micro_conf.Commons.{Str}
use micro_conf.Cfg.Codec.{Formats, Readings}
use micro_conf.Api.{require_token}
use micro_conf.App.Roles.{owner, developer, Role}
use micro_conf.Cfg.Admin.{
  change_namespace_content, create_namespace, namespace_operation, release_namespace,
  remove_namespace, NamespaceReq, NamespaceEditHistory,
}

-- The store, the libraries and the configured secret.
pub record Setting : Type 1 where
  pub rs : RaftStore
  pub str : Str
  pub apps : Json AppInfo
  pub users : Json UserInfo
  pub histories : Json NamespaceEditHistory
  pub formats : Formats
  pub readings : Readings
  pub marshal : List (Bytes × Bytes) → Bytes
  pub bound : Bytes → ℤ
  pub sha1 : Bytes → Bytes
  pub sha256 : Bytes → Bytes
  pub secret : Bytes
  pub join_node : Bytes → Bytes → Call rs.State (Unit {0})
  pub remove_node : Bytes → Bytes → Call rs.State (Unit {0})

-- What is used of Join and Remove: the members of the cluster are no keys of the store.
abbrev pub KeepsKeys : Setting → Type 0
KeepsKeys env =
    ((id addr k : Bytes) (s : env.rs.State)
      → env.rs.get k (env.join_node id addr s).0 ≡ env.rs.get k s)
    × ((id addr k : Bytes) (s : env.rs.State)
        → env.rs.get k (env.remove_node id addr s).0 ≡ env.rs.get k s)

-- A session is the user that JWTSession finds, and a body that cannot be read is none. `query_app` is
-- the parameter app of the URL's query, `inner` the header _inner_auth.
pub data Route : Type 0 where
  post_signup : (logged_in : Bool) → (body : Option UserInfo) → Route
  post_app :
      (inner : Bytes)
      → (session : Option UserInfo) → (token now : Bytes) → (body : Option AppInfo) → Route
  put_app :
      (inner : Bytes)
      → (session : Option UserInfo) → (query_app path_app : Bytes) → (body : Option AppInfo) → Route
  post_role :
      (session : Option UserInfo)
      → (query_app path_app : Bytes) → (body : Option RoleRequest) → Route
  post_bookmark : (session : Option UserInfo) → (body : Option BookmarkAction) → Route
  post_reg : (now : ℕ) → (query : Dict (List Bytes)) → (body : Option InstanceInfo) → Route
  post_namespace :
      (session : Option UserInfo) → (query_app : Bytes) → (body : Option NamespaceReq) → Route
  delete_namespace :
      (session : Option UserInfo) → (query_app : Bytes) → (body : Option NamespaceReq) → Route
  put_namespace :
      (session : Option UserInfo)
      → (query_app app_id group namespace : Bytes) → (body : Option Bytes) → Route
  post_release :
      (session : Option UserInfo) → (query_app app_id group namespace now : Bytes) → Route
  -- requests between nodes, which anybody can send
  post_key : (body : Option KeyCmd) → Route
  post_cluster : (body : Option RaftCmd) → Route
  -- a message on a websocket
  heartbeat : HeartBeat → Route

-- The handler behind a middleware.
abbrev pub guarded : {S : Type 0} → Gate → Handler S → Handler S
guarded next h s = h s
guarded (stop r) h s = (s, r ∷ [])

-- What a handler that shows a value writes.
abbrev pub shown : {A : Type 0} → Reply ⊎ A → List Reply
shown (inl r) = r ∷ []
shown (inr a) = success ∷ []

unfoldable pub username_of : Option UserInfo → Bytes
username_of none = []
username_of (some u) = u.username

module _ (env : Setting) where
  abbrev pub passes_role : Role → Option UserInfo → Bytes → env.rs.State → Gate
  passes_role r session query_app s =
      require_permission env.rs env.apps env.users env.sha1 session query_app r s

  -- POST /api/app/new
  unfoldable pub create_app_route :
      Bytes → Option UserInfo → Bytes → Bytes → Option AppInfo → Handler env.rs.State
  unfolding require_admin create_app
  create_app_route inner session token now body s =
      guarded (require_admin env.rs env.apps env.users env.sha1 env.secret inner session s)
        (λ t. let (u, r) = create_app env.rs env.apps token now session body t in (u, shown r)) s

  -- POST /api/app/reg
  unfoldable pub app_start_route :
      ℕ → Dict (List Bytes) → Option InstanceInfo → Handler env.rs.State
  unfolding require_token app_start
  app_start_route now query body s =
      guarded (require_token env.rs env.apps env.sha256 now query s)
        (app_start env.rs env.apps env.str env.marshal body) s

  -- hasInstance. A panic ends the request, which removes as little as one that finds an instance.
  unfoldable pub has_instance : NamespaceReq → env.rs.State → Bool
  unfolding get_namespace_instances
  has_instance ns s =
      elim (get_namespace_instances env.rs env.bound ns.app_id ns.group ns.namespace s) [
        | err e ↦ true
        | ok infos ↦ ltb 0 (length infos)
      ]

  -- POST /api/cfg/admin/app/{appId}/group/{groupId}/namespace
  unfoldable pub create_namespace_route :
      Option UserInfo → Bytes → Option NamespaceReq → Handler env.rs.State
  unfolding require_permission namespace_operation create_namespace
  create_namespace_route session query_app body s =
      guarded (passes_role owner session query_app s)
        (namespace_operation env.rs env.str env.apps (create_namespace env.rs env.str env.apps)
          body)
        s

  -- DELETE /api/cfg/admin/app/{appId}/group/{groupId}/namespace
  unfoldable pub remove_namespace_route :
      Option UserInfo → Bytes → Option NamespaceReq → Handler env.rs.State
  unfolding require_permission namespace_operation remove_namespace has_instance
  remove_namespace_route session query_app body s =
      guarded (passes_role owner session query_app s)
        (namespace_operation env.rs env.str env.apps
          (remove_namespace env.rs env.str env.apps has_instance) body)
        s

  -- PUT /api/cfg/admin/app/{appId}/group/{group}/namespace/{namespace}
  unfoldable pub change_content_route :
      Option UserInfo → Bytes → Bytes → Bytes → Bytes → Option Bytes → Handler env.rs.State
  unfolding require_permission change_namespace_content
  change_content_route session query_app app_id group namespace body s =
      guarded (passes_role developer session query_app s)
        (change_namespace_content env.rs env.readings env.histories app_id group namespace body) s

  -- POST /api/cfg/admin/app/{appId}/group/{group}/namespace/{namespace}/release
  unfoldable pub release_route :
      Option UserInfo → Bytes → Bytes → Bytes → Bytes → Bytes → Handler env.rs.State
  unfolding require_permission release_namespace username_of
  release_route session query_app app_id group namespace now s =
      guarded (passes_role owner session query_app s)
        (release_namespace env.rs env.readings env.histories app_id group namespace
          (username_of session) now)
        s

  -- RegisterAPI and RouteInner, for the requests above.
  unfoldable pub handle : Route → Handler env.rs.State
  unfolding register create_app_route modify_app_route manage_role_route modify_user_bookmark
      app_start_route create_namespace_route remove_namespace_route change_content_route
      release_route route_heartbeat key_operation cluster_operation
  handle (post_signup logged_in body) = register env.rs env.users env.sha1 logged_in body
  handle (post_app inner session token now body) = create_app_route inner session token now body
  handle (put_app inner session query_app path_app body) =
      modify_app_route env.rs env.apps env.users env.sha1 env.secret inner session query_app
        path_app body
  handle (post_role session query_app path_app body) =
      manage_role_route env.rs env.apps env.users env.sha1 env.str session query_app path_app body
  handle (post_bookmark session body) =
      modify_user_bookmark env.rs env.apps env.users env.sha1 env.str session body
  handle (post_reg now query body) = app_start_route now query body
  handle (post_namespace session query_app body) = create_namespace_route session query_app body
  handle (delete_namespace session query_app body) = remove_namespace_route session query_app body
  handle (put_namespace session query_app app_id group namespace body) =
      change_content_route session query_app app_id group namespace body
  handle (post_release session query_app app_id group namespace now) =
      release_route session query_app app_id group namespace now
  handle (post_key body) = key_operation env.rs body
  handle (post_cluster body) = cluster_operation env.join_node env.remove_node body
  handle (heartbeat info) = λ s. ((route_heartbeat env.rs env.marshal info s).0, [])

  -- Requests that are served one after the other.
  unfoldable pub handle_all : List Route → env.rs.State → env.rs.State
  unfolding handle
  handle_all [] s = s
  handle_all (q ∷ qs) s = handle_all qs (handle q s).0
