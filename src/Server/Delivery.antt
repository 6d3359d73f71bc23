-- ===== src/Server/Delivery.antt =====
-- From an edit of a namespace over its release to a client that fetches it.
use micro_conf.Tests.Namespaces.{released}
use micro_conf.Dict.{Dict, insert}
use micro_conf.Cfg.Differ.{NamespaceDiff}
use micro_conf.Cfg.Client.KeyParts.{parts_at-app_config_key}
use micro_conf.Cfg.Admin.Release.{change_namespace_content-success, release_namespace-success}
use micro_conf.Cfg.Admin.{change_namespace_content, release_namespace, unreleased_key}
use micro_conf.User.Accounts.{UserInfo, is_admin}
use micro_conf.Server.Routes.{post_key-Spares, handle-Touches, area}
use micro_conf.Http.{Gate, Reply, next, stop, success}
use micro_conf.Base.Outcome.{ok, Result-cases}
use micro_conf.Base.{
  All, refl, ◌++◌, ◌∙◌, Bool-cases, List, Option, [], arith, false, inl, inr, none, some, ◌∷◌, ◌≡◌,
  ◌≢◌,
}
use micro_conf.App.Permission.{check_role, require_permission}
use micro_conf.App.Info.{app_config_key, find_app}
use micro_conf.Text.Bytes.{Bytes, codes, has_prefix, Lacks}
use micro_conf.Store.{IsRaftStore}
use micro_conf.Store.Touches.{Outside}
use micro_conf.Server.{
  change_content_route, release_route, username_of, guarded, passes_role, post_signup,
  post_bookmark, post_reg, put_namespace, post_release, heartbeat, post_key, post_cluster,
  KeepsKeys, handle, Route, Setting, handle_all,
}
use micro_conf.App.Roles.{Role, developer, owner}
use micro_conf.Cfg.Diff.{diff}
use micro_conf.Cfg.Client.{Parts, add_content, content_map, query_namespace_content, ns_key}

-- The requests that are not about namespaces or applications: sign-ups, bookmarks, registrations of
-- instances, heartbeats, changes of the cluster, and requests between nodes for other keys than
-- those of the namespace.
abbrev pub IsAside : Bytes → Bytes → Bytes → Route → Type 0
IsAside a g n (post_signup logged_in body) = Unit
IsAside a g n (post_bookmark session body) = Unit
IsAside a g n (post_reg now query body) = Unit
IsAside a g n (heartbeat info) = Unit
IsAside a g n (post_cluster body) = Unit
IsAside a g n (post_key none) = Unit
IsAside a g n (post_key (some c)) = (c.key ≢ app_config_key a g n) × (c.key ≢ unreleased_key a g n)
IsAside a g n _ = ⊥

module _ (env : Setting) where
  gate-not-success :
      (r : Role) (session : Option UserInfo) (query_app : Bytes) (s : env.rs.State)
      → passes_role env r session query_app s ≢ stop success
  unfolding require_permission check_role
  gate-not-success r none query_app s h = absurd (cc h)
  gate-not-success r (some u) query_app s h =
      elim (Bool-cases (is_admin env.rs env.users env.sha1 u.username s)) [
        | inl y ↦ cc (rw (y, require_permission) at h)
        | inr n ↦ elim (Result-cases (find_app env.rs env.apps query_app s)) [
          | inl (app, q) ↦ ground (arith, rw (n, q, require_permission) at h)
          | inr (e, q) ↦ cc (rw (n, q, require_permission) at h)
        ]
      ]

  guarded-success :
      (g : Gate) (h : env.rs.State → env.rs.State × List Reply) (s t : env.rs.State)
      → g ≢ stop success
      → guarded g h s ≡ (t, success ∷ [])
      → h s ≡ (t, success ∷ [])
  guarded-success next h s t n e = e
  guarded-success (stop r) h s t n e = let p : r ≡ success = cc e in absurd (n (λ i. stop (p i)))

  -- Both keys of the namespace are left alone.
  abbrev Quiet : Bytes → Bytes → Bytes → env.rs.State → env.rs.State → Type 0
  Quiet a g n s t =
      (env.rs.get (app_config_key a g n) t ≡ env.rs.get (app_config_key a g n) s)
      × (env.rs.get (unreleased_key a g n) t ≡ env.rs.get (unreleased_key a g n) s)

  module _ (laws : IsRaftStore env.rs) (members : KeepsKeys env) (a g n : Bytes) where
    by_area :
        (q : Route) (s : env.rs.State)
        → Outside (area q) (app_config_key a g n)
        → Outside (area q) (unreleased_key a g n)
        → Quiet a g n s (handle env q s).0
    by_area q s o p = (
      handle-Touches env laws members q s (app_config_key a g n) o,
      handle-Touches env laws members q s (unreleased_key a g n) p,
    )

    handle-Quiet :
        (q : Route) (s : env.rs.State) → IsAside a g n q → Quiet a g n s (handle env q s).0
    unfolding app_config_key unreleased_key has_prefix
    handle-Quiet (post_signup l b) s h = by_area (post_signup l b) s (refl, tt) (refl, tt)
    handle-Quiet (post_bookmark u b) s h = by_area (post_bookmark u b) s (refl, tt) (refl, tt)
    handle-Quiet (post_reg w q b) s h =
        by_area (post_reg w q b) s (refl, (refl, tt)) (refl, (refl, tt))
    handle-Quiet (heartbeat info) s h =
        by_area (heartbeat info) s (refl, (refl, tt)) (refl, (refl, tt))
    handle-Quiet (post_cluster b) s h = by_area (post_cluster b) s tt tt
    handle-Quiet (post_key none) s h = by_area (post_key none) s tt tt
    handle-Quiet (post_key (some c)) s (h, k) = (
      post_key-Spares env laws members (some c) (app_config_key a g n) s h,
      post_key-Spares env laws members (some c) (unreleased_key a g n) s k,
    )
    handle-Quiet _ s h = absurd h

    handle_all-Quiet :
        (qs : List Route) (s : env.rs.State)
        → All (IsAside a g n) qs
        → Quiet a g n s (handle_all env qs s)
    unfolding handle_all
    handle_all-Quiet [] s h = (refl, refl)
    handle_all-Quiet (q ∷ qs) s (h, hs) =
        let (x, y) = handle-Quiet q s h in
        let (u, v) = handle_all-Quiet qs (handle env q s).0 hs in (u ∙ x, v ∙ y)

  module _ (laws : IsRaftStore env.rs) (members : KeepsKeys env) (a g name format : Bytes) where
    abbrev n : Bytes
    n = name ++ (codes "." ++ format)

    put_namespace-success :
        (session : Option UserInfo) (query_app content : Bytes) (s t : env.rs.State)
        → handle env (put_namespace session query_app a g n (some content)) s ≡ (t, success ∷ [])
        → (env.rs.get (unreleased_key a g n) t ≡ ok content)
          × (env.rs.get (app_config_key a g n) t ≡ env.rs.get (app_config_key a g n) s)
    unfolding handle change_content_route
    put_namespace-success session query_app content s t h =
        change_namespace_content-success env.rs laws env.readings env.histories a g n content s t (
          guarded-success (passes_role env developer session query_app s)
            (change_namespace_content env.rs env.readings env.histories a g n (some content)) s t
            (gate-not-success developer session query_app s) h)

    post_release-success :
        (session : Option UserInfo) (query_app now current waiting : Bytes) (d : NamespaceDiff)
        (s t : env.rs.State)
        → env.rs.get (app_config_key a g n) s ≡ ok current
        → env.rs.get (unreleased_key a g n) s ≡ ok waiting
        → diff env.readings n current waiting ≡ ok d
        → d.is_same ≡ false
        → handle env (post_release session query_app a g n now) s ≡ (t, success ∷ [])
        → env.rs.get (app_config_key a g n) t ≡ ok waiting
    unfolding handle release_route
    post_release-success session query_app now current waiting d s t hc hw hd hs h =
        (release_namespace-success env.rs laws env.readings env.histories a g n
          (username_of session) now current waiting s t d hc hw hd hs
          (guarded-success (passes_role env owner session query_app s)
            (release_namespace env.rs env.readings env.histories a g n (username_of session) now) s
            t (gate-not-success owner session query_app s) h)).0

    module _ (da : Lacks b'.' a) (dg : Lacks b'.' g) (dn : Lacks b'.' name)
        (df : Lacks b'.' format) where
      abbrev parts : Parts
      parts = record { app = a; group = g; namespace = n; format = format }

      fetch :
          (content : Bytes) (m : Dict Bytes) (s : env.rs.State)
          → env.rs.get (app_config_key a g n) s ≡ ok content
          → content_map env.formats format content ≡ some (ok m)
          → query_namespace_content env.rs env.formats (app_config_key a g n ∷ []) s []
            ≡ ok ((ns_key parts, m) ∷ [])
      unfolding query_namespace_content insert
      fetch content m s h c =
          rw (h, add_content, parts_at-app_config_key a g name format da dg dn df, c) refl

      module _ (session : Option UserInfo) (query_app content now : Bytes)
          (before after : List Route) (aside_before : All (IsAside a g n) before)
          (aside_after : All (IsAside a g n) after) where
        -- An edit that is answered by success, then requests aside, a release that is answered by
        -- success and in which the versions differ, and requests aside again; those are sign-ups,
        -- bookmarks, registrations of instances, heartbeats, changes of the cluster, and requests
        -- between nodes for other keys than those of the namespace. A client that fetches the
        -- namespace then gets the content of the edit, if its name, its format, its group and its
        -- application have no dot and the content can be read.
        pub edit-release-fetch :
            (current : Bytes) (d : NamespaceDiff) (m : Dict Bytes) (s t u : env.rs.State)
            → env.rs.get (app_config_key a g n) s ≡ ok current
            → diff env.readings n current content ≡ ok d
            → d.is_same ≡ false
            → content_map env.formats format content ≡ some (ok m)
            → handle env (put_namespace session query_app a g n (some content)) s
              ≡ (t, success ∷ [])
            → handle env (post_release session query_app a g n now) (handle_all env before t)
              ≡ (u, success ∷ [])
            → query_namespace_content env.rs env.formats
                (app_config_key a g n ∷ [])
                (handle_all env after u)
                []
              ≡ ok ((ns_key parts, m) ∷ [])
        edit-release-fetch current d m s t u hc hd hs hm edited released =
            let (waiting, kept_current) =
              put_namespace-success session query_app content s t edited in
            let (same_current, same_waiting) =
              handle_all-Quiet laws members a g n before t aside_before in
            let live =
              post_release-success session query_app now current content d (handle_all env before t)
                u (same_current ∙ kept_current ∙ hc) (same_waiting ∙ waiting) hd hs released in
            fetch content m (handle_all env after u)
              ((handle_all-Quiet laws members a g n after u aside_after).0 ∙ live) hm
