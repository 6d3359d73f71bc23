-- ===== src/Server/Applications.antt =====
-- What requests do to the records of applications.
use micro_conf.Server.Changes.{
  manage_role_route-RecordStep, modify_app_route-RecordStep, create_app-RecordStep,
  guarded-RecordStep, info-accounts, info-configs, info-instances, info-user_lists,
}
use mathlib.Core.Path.{subst}
use micro_conf.Server.Routes.{Spares, post_key-Spares, area, handle-Touches}
use micro_conf.App.Permission.{require_admin}
use micro_conf.Server.Records.{
  created, changed, kept, Identity, changed, RecordStep, find_app-kept, kept,
}
use micro_conf.Base.Outcome.{ok-injective, ok}
use micro_conf.Base.{All, [], ap, sym, ◌∷◌, ◌≡◌, List, refl, ◌∙◌}
use micro_conf.App.Info.{AppInfo, app_info_key, find_app}
use micro_conf.App.Handlers.{create_app}
use micro_conf.Text.Bytes.{Bytes}
use micro_conf.Store.{IsRaftStore}
use micro_conf.Store.Touches.{Outside}
use micro_conf.Server.{
  handle_all, shown, put_app, post_app, post_signup, post_role, post_bookmark, post_reg,
  post_namespace, delete_namespace, put_namespace, post_release, heartbeat, post_key, post_cluster,
  KeepsKeys, handle, Route, handle, Setting, create_app_route, post_app, post_signup,
}

-- Every application lies under its own id.
abbrev pub OwnIds : (env : Setting) → env.rs.State → Type 0
OwnIds env s = (id : Bytes) (a : AppInfo) → find_app env.rs env.apps id s ≡ ok a → a.app_id ≡ id

module _ (env : Setting) (laws : IsRaftStore env.rs) (members : KeepsKeys env) where
  by_area :
      (q : Route) (j : Bytes) (s : env.rs.State)
      → Outside (area q) (app_info_key j)
      → RecordStep env.rs env.apps j s (handle env q s).0
  by_area q j s o = kept (handle-Touches env laws members q s (app_info_key j) o)

  -- Whatever the request, but one between nodes for the very key, the record of an application is
  -- left alone, or keeps its id, creator, time and token, or is made where none was, under its own
  -- id.
  pub handle-RecordStep :
      (q : Route) (j : Bytes) (s : env.rs.State)
      → Spares (app_info_key j) q
      → RecordStep env.rs env.apps j s (handle env q s).0
  unfolding handle create_app_route
  handle-RecordStep (post_key body) j s n =
      kept (post_key-Spares env laws members body (app_info_key j) s n)
  handle-RecordStep (post_cluster body) j s n = by_area (post_cluster body) j s tt
  handle-RecordStep (post_signup logged_in body) j s n =
      by_area (post_signup logged_in body) j s (info-accounts j)
  handle-RecordStep (post_app inner session token now body) j s n =
      guarded-RecordStep env.rs laws env.apps
        (require_admin env.rs env.apps env.users env.sha1 env.secret inner session s)
        (λ t. let (u, r) = create_app env.rs env.apps token now session body t in (u, shown r)) j s
        (create_app-RecordStep env.rs laws env.apps token now session body j s)
  handle-RecordStep (put_app inner session query_app path_app body) j s n =
      modify_app_route-RecordStep env.rs laws env.apps env.users env.sha1 env.str env.secret inner
        session query_app path_app body j s
  handle-RecordStep (post_role session query_app path_app body) j s n =
      manage_role_route-RecordStep env.rs laws env.apps env.users env.sha1 env.str session query_app
        path_app body j s
  handle-RecordStep (post_bookmark session body) j s n =
      by_area (post_bookmark session body) j s (info-user_lists j)
  handle-RecordStep (post_reg now query body) j s n =
      by_area (post_reg now query body) j s (info-instances j)
  handle-RecordStep (post_namespace session query_app body) j s n =
      by_area (post_namespace session query_app body) j s (info-configs j)
  handle-RecordStep (delete_namespace session query_app body) j s n =
      by_area (delete_namespace session query_app body) j s (info-configs j)
  handle-RecordStep (put_namespace session query_app app_id group namespace body) j s n =
      by_area (put_namespace session query_app app_id group namespace body) j s (info-configs j)
  handle-RecordStep (post_release session query_app app_id group namespace now) j s n =
      by_area (post_release session query_app app_id group namespace now) j s (info-configs j)
  handle-RecordStep (heartbeat info) j s n = by_area (heartbeat info) j s (info-instances j)

  -- Requests neither remove an application nor change its id, its creator, the time of its creation
  -- or its token, but for a request between nodes for its very key, which anybody can send.
  pub handle_all-Identity :
      (qs : List Route) (id : Bytes) (a : AppInfo) (s : env.rs.State)
      → All (Spares (app_info_key id)) qs
      → find_app env.rs env.apps id s ≡ ok a
      → (b : AppInfo) × (find_app env.rs env.apps id (handle_all env qs s) ≡ ok b) × Identity a b
  unfolding handle_all
  handle_all-Identity [] id a s n h = (a, h, (refl, refl, refl, refl))
  handle_all-Identity (q ∷ qs) id a s (n, ns) h =
      let (b, found, (i, c, w, k)) =
        after_one id a s (handle env q s).0 h (handle-RecordStep q id s n) in
      let (d, later, (i2, c2, w2, k2)) = handle_all-Identity qs id b (handle env q s).0 ns found in
      (d, later, (i2 ∙ i, c2 ∙ c, w2 ∙ w, k2 ∙ k))
    where
      after_one :
          (id : Bytes) (a : AppInfo) (s t : env.rs.State)
          → find_app env.rs env.apps id s ≡ ok a
          → RecordStep env.rs env.apps id s t
          → (b : AppInfo) × (find_app env.rs env.apps id t ≡ ok b) × Identity a b
      after_one id a s t h (kept k) =
          (a, find_app-kept env.rs env.apps id s t k ∙ h, (refl, refl, refl, refl))
      after_one id a s t h (changed old b f g same_id) =
          (b, g, subst (λ x. Identity x b) (ok-injective (sym f ∙ h)) same_id)
      after_one id a s t h (created e b f g own_id) = absurd (cc (sym f ∙ h))

  -- If every application lies under its own id, then every application does so after any requests,
  -- but for requests between nodes for the key of an application, which anybody can send.
  pub handle_all-OwnIds :
      (qs : List Route) (s : env.rs.State)
      → All (λ q. (id : Bytes) → Spares (app_info_key id) q) qs
      → OwnIds env s
      → OwnIds env (handle_all env qs s)
  unfolding handle_all
  handle_all-OwnIds [] s n h = h
  handle_all-OwnIds (q ∷ qs) s (n, ns) h =
      handle_all-OwnIds qs (handle env q s).0 ns
        λ id a f. own id s (handle env q s).0 h (handle-RecordStep q id s (n id)) a f
    where
      own :
          (id : Bytes) (s t : env.rs.State)
          → OwnIds env s
          → RecordStep env.rs env.apps id s t
          → (a : AppInfo) → find_app env.rs env.apps id t ≡ ok a
          → a.app_id ≡ id
      own id s t h (kept k) a f = h id a (sym (find_app-kept env.rs env.apps id s t k) ∙ f)
      own id s t h (changed old b g i same_id) a f =
          ap (λ x. x.app_id) (ok-injective (sym f ∙ i)) ∙ same_id.0 ∙ h id old g
      own id s t h (created e b g i own_id) a f =
          ap (λ x. x.app_id) (ok-injective (sym f ∙ i)) ∙ own_id
