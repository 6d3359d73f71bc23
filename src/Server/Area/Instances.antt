-- ===== src/Server/Area/Instances.antt =====
-- What the registration and the heartbeats of instances touch.
use micro_conf.Server.Area.{instances}
use micro_conf.Json.{Json}
use micro_conf.Conn.Heartbeat.Laws.{route_heartbeat-foreign}
use micro_conf.Conn.Heartbeat.{HeartBeat, route_heartbeat}
use micro_conf.Commons.{Str}
use micro_conf.Base.Outcome.{Result-cases}
use micro_conf.Base.{All, List, Option, [], inl, inr, map, none, refl, some, ◌∷◌}
use micro_conf.App.Instances.{
  InstanceInfo, inst_key, instance_expire, instance_valid, meta_expire, meta_key, meta_string,
  namespace_key, ns_keys, reg_app, set_all, state_up,
}
use micro_conf.App.Info.{AppInfo}
use micro_conf.App.Handlers.{app_start}
use micro_conf.Text.Bytes.{Bytes, has_prefix}
use micro_conf.Text.Decimal.{ℤ}
use micro_conf.Store.{RaftStore, IsRaftStore}
use micro_conf.Store.Touches.{
  Touches-after, Touches-refl, Touches-reply_of, Touches-set, Touches-trans, Touches, Inside,
}

meta_key-Inside : (a g ip : Bytes) (port : ℤ) → Inside instances (meta_key a g ip port)
unfolding meta_key has_prefix
meta_key-Inside a g ip port = inl refl

inst_key-Inside : (a g ip : Bytes) (port : ℤ) → Inside instances (inst_key a g ip port)
unfolding inst_key has_prefix
inst_key-Inside a g ip port = inl refl

namespace_key-Inside :
    (a g n ip : Bytes) (port : ℤ) → Inside instances (namespace_key a g n ip port)
unfolding namespace_key has_prefix
namespace_key-Inside a g n ip port = inr (inl refl)

module _ (rs : RaftStore) (laws : IsRaftStore rs) (marshal : List (Bytes × Bytes) → Bytes) where
  module _ (str : Str) (apps : Json AppInfo) where
    set_all-Touches :
        (ks : List Bytes) (timeout : ℤ) (s : rs.State)
        → All (Inside instances) ks
        → Touches rs instances s (set_all rs str apps marshal ks timeout s)
    unfolding set_all
    set_all-Touches [] timeout s h = Touches-refl rs instances s
    set_all-Touches (k ∷ ks) timeout s (h, hs) =
        let t = (rs.set k state_up timeout s).0 in
        Touches-trans rs instances s t (set_all rs str apps marshal ks timeout t)
          (Touches-set rs instances laws k state_up timeout s h) (set_all-Touches ks timeout t hs)

    ns_keys-Inside :
        (a : InstanceInfo) (vs : List Bytes)
        → All (Inside instances) (map (λ v. namespace_key a.app_id a.group v a.ip a.port) vs)
    ns_keys-Inside a [] = tt
    ns_keys-Inside a (v ∷ vs) =
        (namespace_key-Inside a.app_id a.group v a.ip a.port, ns_keys-Inside a vs)

    reg_app-Touches :
        (a : InstanceInfo) (s : rs.State)
        → Touches rs instances s (reg_app rs str apps marshal a s).0
    unfolding reg_app ns_keys
    reg_app-Touches a s = elim (Result-cases (instance_valid rs str apps marshal a s)) [
      | inr (e, q) ↦ rw (q, reg_app) (Touches-refl rs instances s)
      | inl (u, q) ↦
          rw (q, reg_app)
            (Touches-after rs instances s
              (rs.set (meta_key a.app_id a.group a.ip a.port) (meta_string marshal a.meta)
                meta_expire s)
              (λ t _.
                rs.set (inst_key a.app_id a.group a.ip a.port) a.state instance_expire
                  (set_all rs str apps marshal (ns_keys a) instance_expire t))
              (Touches-set rs instances laws (meta_key a.app_id a.group a.ip a.port) _ meta_expire s
                (meta_key-Inside a.app_id a.group a.ip a.port))
              (λ t _.
                let v = set_all rs str apps marshal (ns_keys a) instance_expire t in
                Touches-trans rs instances t v _
                  (set_all-Touches (ns_keys a) instance_expire t (ns_keys-Inside a a.namespaces))
                  (Touches-set rs instances laws (inst_key a.app_id a.group a.ip a.port) _
                    instance_expire v (inst_key-Inside a.app_id a.group a.ip a.port))))
    ]

    pub app_start-Touches :
        (body : Option InstanceInfo) (s : rs.State)
        → Touches rs instances s (app_start rs apps str marshal body s).0
    unfolding app_start
    app_start-Touches none s = Touches-refl rs instances s
    app_start-Touches (some a) s =
        Touches-reply_of rs instances s (reg_app rs str apps marshal a s) (reg_app-Touches a s)

  pub route_heartbeat-Touches :
      (info : HeartBeat) (s : rs.State)
      → Touches rs instances s (route_heartbeat rs marshal info s).0
  route_heartbeat-Touches info s j (o, (o2, rest)) =
      route_heartbeat-foreign rs marshal laws j (o, o2) info s
