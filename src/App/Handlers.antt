-- ===== src/App/Handlers.antt =====
-- Handlers of service/app/api.go and service/svc/service.go: creation and change of applications,
-- registration of instances, and what is shown of them. The reply `server_error panic` stands for a
-- request that a panic ends.
use micro_conf.User.Accounts.{stored, UserInfo}
use micro_conf.Text.Split.{split}
use micro_conf.Text.Decimal.{ℤ}
use micro_conf.Text.Bytes.{Bytes, codes}
use micro_conf.Store.{RaftStore}
use micro_conf.Json.{Json}
use micro_conf.Http.{Handler, Reply, bad_request, next, reply_of, server_error, stop}
use micro_conf.Dict.{Dict, insert}
use micro_conf.Commons.{Str}
use micro_conf.Base.Outcome.{Result, bind, err, message, not_found, ok, panic}
use micro_conf.App.UserApps.Lists.{UserApps, app_list}
use micro_conf.App.Service.{ServiceInfo, service_infos}
use micro_conf.App.Roles.{owner}
use micro_conf.App.Permission.{require_admin, require_permission}
use micro_conf.App.Listeners.Namespaces.{NamespaceInfo, get_namespaces}
use micro_conf.App.Instances.{InstanceInfo, reg_app}
use micro_conf.App.Info.{AppInfo, app_info_key, fresh_app, modify_app_info, new_app}
use micro_conf.Base.{List, Option, [], if◌then◌else◌, inl, inr, none, null, some, ◌∷◌, ◌⊎◌}

-- What appDetail shows.
pub record AppDetail : Type 0 where
  pub app : AppInfo
  pub groups : Dict (List ServiceInfo)
  pub namespaces : Dict (List NamespaceInfo)

module _ (rs : RaftStore) (apps : Json AppInfo) where
  -- createApp on the user of the session: the reply, or the application that it shows.
  unfoldable pub create_app :
      Bytes → Bytes → Option UserInfo → Option AppInfo → rs.State → rs.State × (Reply ⊎ AppInfo)
  unfolding new_app fresh_app
  create_app token now session none s = (s, inl bad_request)
  create_app token now none (some info) s = (s, inl (server_error panic))
  create_app token now (some u) (some info) s =
      let created : AppInfo = record info { creator = u.username } in
      let (t, r) = new_app rs apps token now created s in
      elim r [
        | err e ↦ (t, inl (server_error e))
        | ok a ↦ (t, inr (fresh_app rs apps token now created))
      ]

  -- modifyApp
  unfoldable pub modify_app : Bytes → Option AppInfo → Handler rs.State
  unfolding modify_app_info
  modify_app path_app none s = (s, bad_request ∷ [])
  modify_app path_app (some info) s =
      reply_of (modify_app_info rs apps (record info { app_id = path_app }) s)

  -- PUT /api/app/{app}: the middleware for administrators, that for owners, and the handler.
  unfoldable pub modify_app_route :
      Json UserInfo
      → (Bytes → Bytes)
      → Bytes
      → Bytes
      → Option UserInfo
      → Bytes
      → Bytes
      → Option AppInfo
      → Handler rs.State
  unfolding require_admin require_permission modify_app
  modify_app_route users sha1 secret inner session query_app path_app body s =
      elim (require_admin rs apps users sha1 secret inner session s) [
        | stop r ↦ (s, r ∷ [])
        | next ↦ elim (require_permission rs apps users sha1 session query_app owner s) [
          | stop r ↦ (s, r ∷ [])
          | next ↦ modify_app path_app body s
        ]
      ]

  -- appStart
  unfoldable pub app_start :
      Str → (List (Bytes × Bytes) → Bytes) → Option InstanceInfo → Handler rs.State
  unfolding reg_app
  app_start str marshal none s = (s, bad_request ∷ [])
  app_start str marshal (some a) s = reply_of (reg_app rs str apps marshal a s)

  -- getUserApps: a request without a session is dereferenced.
  unfoldable pub get_user_apps : Option UserInfo → rs.State → Result UserApps
  unfolding app_list
  get_user_apps none s = err panic
  get_user_apps (some u) s = ok (app_list rs apps u.username s)

  -- The loop of allAppList.
  unfoldable pub readable_apps : Dict Bytes → Dict AppInfo
  readable_apps [] = []
  readable_apps ((k, v) ∷ m) = elim (apps.unmarshal v) [
    | none ↦ readable_apps m
    | some info ↦ insert k info (readable_apps m)
  ]

  unfoldable pub all_app_list : rs.State → Dict AppInfo
  unfolding readable_apps app_info_key
  all_app_list s = readable_apps (rs.scan_kvs (app_info_key []) s)

  module _ (unmarshal : Bytes → Option (List (Bytes × Bytes))) (bound : Bytes → ℤ) where
    -- The loop of appDetail over the groups.
    unfoldable pub group_details :
        Bytes → List Bytes → rs.State → Result (Dict (List ServiceInfo) × Dict (List NamespaceInfo))
    unfolding service_infos get_namespaces
    group_details app_id [] s = ok ([], [])
    group_details app_id (g ∷ gs) s = bind (service_infos rs unmarshal app_id g s) (λ infos.
        bind (get_namespaces rs bound app_id g s) (λ names.
          bind (group_details app_id gs s)
            (λ rest. ok (insert g infos rest.0, insert g names rest.1))))

    -- appDetail: the reply, or what it shows.
    unfoldable pub app_detail : Bytes → rs.State → Result (Reply ⊎ AppDetail)
    unfolding group_details app_info_key
    app_detail app_id s =
        if null app_id then ok (inl bad_request) else elim (rs.get (app_info_key app_id) s) [
          | err e ↦ elim e [
            | not_found ↦ ok (inl bad_request)
            | panic ↦ ok (inl (server_error panic))
            | message m ↦ ok (inl (server_error (message m)))
          ]
          | ok stored ↦ elim (apps.unmarshal stored) [
            | none ↦ ok (inl (server_error (message "json")))
            | some info ↦
                bind (group_details app_id (split b',' info.groups) s)
                  (λ d. ok (inr (record { app = info; groups = d.0; namespaces = d.1 })))
          ]
        ]

    -- getServiceInstanceList of service/svc: `body` is the application and the group asked for.
    unfoldable pub get_service_instance_list :
        Option (Bytes × Bytes) → rs.State → Result (Reply ⊎ List ServiceInfo)
    unfolding service_infos
    get_service_instance_list none s = ok (inl bad_request)
    get_service_instance_list (some (app, group)) s =
        let named = if null group then codes "default" else group in
        if null app
        then ok (inl bad_request)
        else bind (service_infos rs unmarshal app named s) (λ infos. ok (inr infos))
