-- ===== src/Cfg/Admin/Create.antt =====
-- When createNamespace creates.
use micro_conf.Text.Bytes.{Bytes}
use micro_conf.Store.{IsRaftStore, RaftStore}
use micro_conf.Json.{Json}
use micro_conf.Commons.{Str}
use micro_conf.Base.Outcome.{Result, err, message, not_found, ok, panic}
use micro_conf.Base.{[], refl, ◌≡◌}
use micro_conf.App.Info.{AppInfo, app_config_key}
use micro_conf.Cfg.Admin.{create_at, create_namespace, req_valid, NamespaceReq}

module _ (rs : RaftStore) (laws : IsRaftStore rs) (str : Str) (apps : Json AppInfo) where
  create_at-ok :
      (key : Bytes) (r : Result Bytes) (s t : rs.State)
      → create_at rs str apps key r s ≡ (t, ok tt)
      → (r ≡ err not_found) × (rs.get key t ≡ ok [])
  unfolding create_at
  create_at-ok key (ok v) s t h = cc h
  create_at-ok key (err not_found) s t h = (refl, laws.get-set_self key [] s t h)
  create_at-ok key (err panic) s t h = cc h
  create_at-ok key (err (message m)) s t h = cc h

  -- A creation that succeeds was of a valid request for a namespace that was not there; it is
  -- there then, and empty.
  pub create_namespace-ok :
      (ns : NamespaceReq) (s t : rs.State)
      → create_namespace rs str apps ns s ≡ (t, ok tt)
      → (req_valid rs str apps ns s ≡ ok tt)
        × (rs.get (app_config_key ns.app_id ns.group ns.namespace) s ≡ err not_found)
        × (rs.get (app_config_key ns.app_id ns.group ns.namespace) t ≡ ok [])
  unfolding create_namespace
  create_namespace-ok ns s t h = go (req_valid rs str apps ns s) refl
    where
      key : Bytes
      key = app_config_key ns.app_id ns.group ns.namespace

      go :
          (r : Result (Unit {0}))
          → req_valid rs str apps ns s ≡ r
          → (req_valid rs str apps ns s ≡ ok tt)
            × (rs.get (app_config_key ns.app_id ns.group ns.namespace) s ≡ err not_found)
            × (rs.get (app_config_key ns.app_id ns.group ns.namespace) t ≡ ok [])
      go (err e) q = cc (rw (q, create_namespace) at h)
      go (ok a) q =
          let (missing, made) =
            create_at-ok key (rs.get key s) s t (rw (q, create_namespace) at h) in
          (q, missing, made)
