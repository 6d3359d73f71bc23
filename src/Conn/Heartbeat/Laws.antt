-- ===== src/Conn/Heartbeat/Laws.antt =====
-- A heartbeat never panics, and changes only keys of its instance.
use mathlib.Core.Path.{subst}
use micro_conf.Text.Decimal.{ℤ}
use micro_conf.Text.Bytes.{codes, has_prefix, Bytes}
use micro_conf.Store.{IsRaftStore, RaftStore}
use micro_conf.Base.Outcome.{ok-injective, Result, err, ok}
use micro_conf.Base.{◌∙◌, false, sym, ◌≢◌, Bool-cases, List, [], inl, inr, refl, ◌∷◌, ◌≡◌}
use micro_conf.App.Listeners.Shared.{extract_app_group_ns-shared}
use micro_conf.App.Listeners.{is_ns_shared}
use micro_conf.App.Instances.{meta_expire, inst_key, meta_key, namespace_key, state_up}
use micro_conf.Conn.Heartbeat.{
  beat_valid, set_app_heart_beat, set_cfg_ns_heart_beat, listener_key, route_heartbeat,
  set_listeners, timeout_of, HeartBeat,
}

-- Keys that no instance and no listener is stored under.
abbrev pub IsForeign : Bytes → Type 0
IsForeign j =
    (has_prefix j (codes "app.instance.") ≡ false) × (has_prefix j (codes "app.ns.") ≡ false)

module _ (rs : RaftStore) (marshal : List (Bytes × Bytes) → Bytes) where
  listener_key-ok : (info : HeartBeat) (v : Bytes) → (key : Bytes) × (listener_key info v ≡ ok key)
  unfolding listener_key
  listener_key-ok info v = elim (Bool-cases (is_ns_shared v)) [
    | inl e ↦
        let (p, q) = extract_app_group_ns-shared v e in
        (namespace_key p.0 p.1 p.2 info.ip info.port, rw (e, q))
    | inr e ↦ (namespace_key info.app_id info.group v info.ip info.port, rw e)
  ]

  set_listeners-ok :
      (info : HeartBeat) (vs : List Bytes) (s : rs.State)
      → (set_listeners rs marshal info vs s).1 ≡ ok tt
  unfolding set_listeners
  set_listeners-ok info [] s = refl
  set_listeners-ok info (v ∷ vs) s =
      let (key, e) = listener_key-ok info v in
      rw (e, set_listeners)
        (set_listeners-ok info vs (rs.set key state_up (timeout_of info.timeout) s).0)

  set_cfg_ns_heart_beat-ok :
      (info : HeartBeat) (s : rs.State) → (set_cfg_ns_heart_beat rs marshal info s).1 ≡ ok tt
  unfolding set_cfg_ns_heart_beat
  set_cfg_ns_heart_beat-ok info s = elim (Bool-cases info.enable_cfg) [
    | inl e ↦ rw e (set_listeners-ok info info.namespaces s)
    | inr e ↦ rw e
  ]

  -- Whatever a heartbeat holds, its handling ends without a panic.
  pub route_heartbeat-ok :
      (info : HeartBeat) (s : rs.State) → (route_heartbeat rs marshal info s).1 ≡ ok tt
  unfolding route_heartbeat
  route_heartbeat-ok info s = go (beat_valid info) refl
    where
      go :
          (r : Result (Unit {0}))
          → beat_valid info ≡ r
          → (route_heartbeat rs marshal info s).1 ≡ ok tt
      go (err e) q = rw (q, route_heartbeat)
      go (ok a) q =
          rw (q, route_heartbeat)
            (set_cfg_ns_heart_beat-ok info (set_app_heart_beat rs marshal info s))

  module _ (laws : IsRaftStore rs) (j : Bytes) (foreign : IsForeign j) (info : HeartBeat) where
    meta_key-ne : meta_key info.app_id info.group info.ip info.port ≢ j
    unfolding meta_key has_prefix
    meta_key-ne e = cc (rw (sym e) at foreign.0)

    inst_key-ne : inst_key info.app_id info.group info.ip info.port ≢ j
    unfolding inst_key has_prefix
    inst_key-ne e = cc (rw (sym e) at foreign.0)

    namespace_key-ne : (a g v : Bytes) → namespace_key a g v info.ip info.port ≢ j
    unfolding namespace_key has_prefix
    namespace_key-ne a g v e = cc (rw (sym e) at foreign.1)

    set-foreign :
        (k v : Bytes) (exp : ℤ) (s : rs.State) → k ≢ j → rs.get j (rs.set k v exp s).0 ≡ rs.get j s
    set-foreign k v exp s n =
        laws.get-set_ne k j v exp s (rs.set k v exp s).0 (rs.set k v exp s).1 refl n

    set_app_heart_beat-foreign :
        (s : rs.State) → rs.get j (set_app_heart_beat rs marshal info s) ≡ rs.get j s
    unfolding set_app_heart_beat
    set_app_heart_beat-foreign s =
        set-foreign (inst_key info.app_id info.group info.ip info.port) _ _ _ inst_key-ne
        ∙ set-foreign (meta_key info.app_id info.group info.ip info.port) _ meta_expire s
            meta_key-ne

    listener_key-ne : (v key : Bytes) → listener_key info v ≡ ok key → key ≢ j
    unfolding listener_key
    listener_key-ne v key h = elim (Bool-cases (is_ns_shared v)) [
      | inl e ↦
          let (p, q) = extract_app_group_ns-shared v e in
          subst (λ k. k ≢ j) (ok-injective (rw (e, q, listener_key) at h))
            (namespace_key-ne p.0 p.1 p.2)
      | inr e ↦
          subst (λ k. k ≢ j) (ok-injective (rw (e, listener_key) at h))
            (namespace_key-ne info.app_id info.group v)
    ]

    set_listeners-foreign :
        (vs : List Bytes) (s : rs.State)
        → rs.get j (set_listeners rs marshal info vs s).0 ≡ rs.get j s
    unfolding set_listeners
    set_listeners-foreign [] s = refl
    set_listeners-foreign (v ∷ vs) s =
        let (key, e) = listener_key-ok info v in
        rw (e, set_listeners)
          (set_listeners-foreign vs (rs.set key state_up (timeout_of info.timeout) s).0
            ∙ set-foreign key state_up (timeout_of info.timeout) s (listener_key-ne v key e))

    set_cfg_ns_heart_beat-foreign :
        (s : rs.State) → rs.get j (set_cfg_ns_heart_beat rs marshal info s).0 ≡ rs.get j s
    unfolding set_cfg_ns_heart_beat
    set_cfg_ns_heart_beat-foreign s = elim (Bool-cases info.enable_cfg) [
      | inl e ↦ rw e (set_listeners-foreign info.namespaces s)
      | inr e ↦ rw e
    ]

    -- A heartbeat, whatever it holds, leaves every key alone that no instance and no listener is
    -- stored under: accounts, applications and configurations stay as they are.
    pub route_heartbeat-foreign :
        (s : rs.State) → rs.get j (route_heartbeat rs marshal info s).0 ≡ rs.get j s
    unfolding route_heartbeat
    route_heartbeat-foreign s = go (beat_valid info) refl
      where
        go :
            (r : Result (Unit {0}))
            → beat_valid info ≡ r
            → rs.get j (route_heartbeat rs marshal info s).0 ≡ rs.get j s
        go (err e) q = rw (q, route_heartbeat)
        go (ok a) q =
            rw (q, route_heartbeat)
              (set_cfg_ns_heart_beat-foreign (set_app_heart_beat rs marshal info s)
                ∙ set_app_heart_beat-foreign s)
