-- ===== src/Server/Authority.antt =====
-- Who may change the record of an application.
use micro_conf.App.Roles.Laws.{members}
use micro_conf.Server.Routes.{post_key-Spares, handle-Touches}
use micro_conf.Server.Changes.{info-accounts, info-configs, info-instances, info-user_lists}
use micro_conf.App.Permission.Laws.{check_role_lem}
use micro_conf.App.Manage.{manage_role_route}
use micro_conf.App.Handlers.{create_app, modify_app_route}
use micro_conf.User.Accounts.{UserInfo, is_admin}
use micro_conf.Text.Fold.{equal_fold}
use micro_conf.Http.{Gate-cases, Gate, Reply, next, stop}
use micro_conf.Base.Outcome.{Result-cases, ok}
use micro_conf.Base.{
  Bool-cases, List, Option, arith, inl, inr, none, refl, some, true, ◌≡◌, ◌≢◌, ◌⊎◌,
}
use micro_conf.App.Permission.{check_role, require_admin, require_permission, role_str}
use micro_conf.App.Members.{contains}
use micro_conf.App.Info.{app_info_key, AppInfo, find_app}
use micro_conf.Text.Bytes.{eq_of_same, same, same_iff, Bytes}
use micro_conf.Store.{IsRaftStore}
use micro_conf.Server.{
  create_app_route, shown, guarded, passes_role, put_app, post_app, post_signup, post_role,
  post_bookmark, post_reg, post_namespace, delete_namespace, put_namespace, post_release, heartbeat,
  post_key, post_cluster, KeepsKeys, handle, Route, Setting,
}
use micro_conf.App.Roles.{owner}

module _ (env : Setting) where
  -- The session is that of an administrator.
  abbrev pub IsAdminSession : Option UserInfo → env.rs.State → Type 0
  IsAdminSession session s =
      (u : UserInfo) × (session ≡ some u) × (is_admin env.rs env.users env.sha1 u.username s ≡ true)

  -- The request has the token of the nodes, or the session of an administrator.
  abbrev pub IsTrusted : Bytes → Option UserInfo → env.rs.State → Type 0
  IsTrusted inner session s = (equal_fold env.secret inner ≡ true) ⊎ IsAdminSession session s

  -- The session is that of an administrator, or of an owner of the application of the query.
  abbrev pub IsOwner : Option UserInfo → Bytes → env.rs.State → Type 0
  IsOwner session query_app s =
      IsAdminSession session s
      ⊎ ((u : UserInfo) × (app : AppInfo) × (session ≡ some u)
          × (find_app env.rs env.apps query_app s ≡ ok app)
          × (contains app.owners u.username ≡ true))

  -- The requests that may change the record of an application, and what they need: one between
  -- nodes needs only the key, and no authority.
  abbrev pub MayWrite : Bytes → Route → env.rs.State → Type 0
  MayWrite id (post_app inner session token now body) s = IsTrusted inner session s
  MayWrite id (put_app inner session query_app path_app body) s =
      IsTrusted inner session s × IsOwner session query_app s
  MayWrite id (post_role session query_app path_app body) s = IsOwner session query_app s
  MayWrite id (post_key (some c)) s = c.key ≡ app_info_key id
  MayWrite id _ s = ⊥

  IsTrusted-of_gate :
      (inner : Bytes) (session : Option UserInfo) (s : env.rs.State)
      → require_admin env.rs env.apps env.users env.sha1 env.secret inner session s ≡ next
      → IsTrusted inner session s
  unfolding require_admin
  IsTrusted-of_gate inner none s h = inl (ground (arith, h))
  IsTrusted-of_gate inner (some u) s h = elim (Bool-cases (equal_fold env.secret inner)) [
    | inl e ↦ inl e
    | inr e ↦ inr (u, refl, ground (arith, h))
  ]

  owner_of_check :
      (app : AppInfo) (u : Bytes)
      → check_role (role_str owner app) u ≡ next
      → contains app.owners u ≡ true
  unfolding role_str
  owner_of_check app u h = ground (arith, h, check_role_lem app.owners u)

  owner_of_gate :
      (session : Option UserInfo) (query_app : Bytes) (s : env.rs.State)
      → passes_role env owner session query_app s ≡ next
      → IsOwner session query_app s
  unfolding require_permission
  owner_of_gate none query_app s h = absurd (cc h)
  owner_of_gate (some u) query_app s h =
      elim (Bool-cases (is_admin env.rs env.users env.sha1 u.username s)) [
        | inl y ↦ inl (u, refl, y)
        | inr n ↦ elim (Result-cases (find_app env.rs env.apps query_app s)) [
          | inl (app, q) ↦
              inr (
                u,
                app,
                refl,
                q,
                owner_of_check app u.username (rw (n, q, require_permission) at h),
              )
          | inr (e, q) ↦ absurd (cc (rw (n, q, require_permission) at h))
        ]
      ]

  stopped :
      (g : Gate) (h : env.rs.State → env.rs.State × List Reply) (k : Bytes) (s : env.rs.State)
      → env.rs.get k (guarded g h s).0 ≢ env.rs.get k s
      → g ≡ next
  stopped next h k s c = refl
  stopped (stop r) h k s c = absurd (c refl)

  -- A request changes the record of an application only as one of these: a creation by an
  -- administrator or with the token of the nodes; a change by such, who besides is an owner of the
  -- application that the query names or an administrator; a change of roles by such an owner or an
  -- administrator; or a request between nodes for the key of the record, by anybody.
  pub handle-MayWrite :
      (laws : IsRaftStore env.rs) (members : KeepsKeys env) (q : Route) (id : Bytes)
      (s : env.rs.State)
      → env.rs.get (app_info_key id) (handle env q s).0 ≢ env.rs.get (app_info_key id) s
      → MayWrite id q s
  unfolding handle create_app_route manage_role_route modify_app_route
  handle-MayWrite laws members (post_signup l b) id s c =
      absurd (
        c (
          handle-Touches env laws members (post_signup l b) s (app_info_key id) (info-accounts id)))
  handle-MayWrite laws members (post_app inner session token now body) id s c =
      IsTrusted-of_gate inner session s (
        stopped (require_admin env.rs env.apps env.users env.sha1 env.secret inner session s)
          (λ t. let (u, r) = create_app env.rs env.apps token now session body t in (u, shown r))
          (app_info_key id) s c)
  handle-MayWrite laws members (put_app inner session query_app path_app body) id s c =
      elim (Gate-cases
        (require_admin env.rs env.apps env.users env.sha1 env.secret inner session s)) [
          | inr (r, g) ↦ absurd (c (rw (g, modify_app_route) refl))
          | inl g ↦ elim (Gate-cases (passes_role env owner session query_app s)) [
            | inr (r, p) ↦ absurd (c (rw (g, p, modify_app_route) refl))
            | inl p ↦ (IsTrusted-of_gate inner session s g, owner_of_gate session query_app s p)
          ]
        ]
  handle-MayWrite laws members (post_role session query_app path_app body) id s c =
      elim (Gate-cases (passes_role env owner session query_app s)) [
        | inr (r, p) ↦ absurd (c (rw (p, manage_role_route) refl))
        | inl p ↦ owner_of_gate session query_app s p
      ]
  handle-MayWrite laws members (post_bookmark se b) id s c = c (
      handle-Touches env laws members (post_bookmark se b) s (app_info_key id) (info-user_lists id))
  handle-MayWrite laws members (post_reg n q b) id s c =
      c (handle-Touches env laws members (post_reg n q b) s (app_info_key id) (info-instances id))
  handle-MayWrite laws members (post_namespace se q b) id s c = c (
      handle-Touches env laws members (post_namespace se q b) s (app_info_key id) (info-configs id))
  handle-MayWrite laws members (delete_namespace se q b) id s c = c (
      handle-Touches env laws members (delete_namespace se q b) s (app_info_key id)
        (info-configs id))
  handle-MayWrite laws members (put_namespace se q a g n b) id s c = c (
      handle-Touches env laws members (put_namespace se q a g n b) s (app_info_key id)
        (info-configs id))
  handle-MayWrite laws members (post_release se q a g n t) id s c = c (
      handle-Touches env laws members (post_release se q a g n t) s (app_info_key id)
        (info-configs id))
  handle-MayWrite laws members (heartbeat i) id s c =
      c (handle-Touches env laws members (heartbeat i) s (app_info_key id) (info-instances id))
  handle-MayWrite laws members (post_key none) id s c =
      c (post_key-Spares env laws members none (app_info_key id) s tt)
  handle-MayWrite laws members (post_key (some b)) id s c =
      elim (Bool-cases (same b.key (app_info_key id))) [
        | inl e ↦ eq_of_same b.key (app_info_key id) e
        | inr e ↦ absurd (
            c (
              post_key-Spares env laws members (some b) (app_info_key id) s
                (λ p. ground (arith, same_iff b.key (app_info_key id), p, e))))
      ]
  handle-MayWrite laws members (post_cluster b) id s c =
      c (handle-Touches env laws members (post_cluster b) s (app_info_key id) tt)
