-- ===== src/Conn/Heartbeat.antt =====
-- service/conn/heartbeat.go: a heartbeat of a client renews its keys.
pub mod Laws
use micro_conf.Text.Decimal.{negsuc, pos, ℤ}
use micro_conf.Store.{RaftStore}
use micro_conf.Base.Outcome.{Call, Result, bind, err, message, ok}
use micro_conf.Base.{Bool, List, [], false, if◌then◌else◌, length, ltb, not, null, true, ◌∷◌}
use micro_conf.App.Listeners.{extract_app_group_ns, is_ns_shared}
use micro_conf.App.Instances.{
  inst_key, meta_expire, meta_key, meta_string, namespace_key, positive, state_disabled, state_up,
}
use micro_conf.Text.Bytes.{Bytes}

pub record HeartBeat : Type 0 where
  pub app_id : Bytes
  pub group : Bytes
  pub ip : Bytes
  pub port : ℤ
  pub enable_svc : Bool
  pub enable_cfg : Bool
  pub meta : List (Bytes × Bytes)
  pub namespaces : List Bytes
  pub timeout : ℤ

unfoldable pub beat_valid : HeartBeat → Result (Unit {0})
unfolding positive
beat_valid b =
    if null b.app_id
    then err (message "invalid appId")
    else if null b.group
    then err (message "invalid group")
    else if ltb (length b.ip) 7
    then err (message "invalid IP")
    else if not (positive b.port)
    then err (message "invalid port")
    else ok tt

-- A timeout below a second is taken for ten.
unfoldable pub timeout_of : ℤ → ℤ
timeout_of (pos n) = if ltb n 1000000000 then pos 10000000000 else pos n
timeout_of (negsuc n) = pos 10000000000

-- The text of a read whose error is ignored.
unfoldable pub or_empty : Result Bytes → Bytes
or_empty (ok v) = v
or_empty (err e) = []

-- The state that the instance key gets, out of the one that it has.
unfoldable pub next_state : Bool → Bytes → Bytes
next_state false old = state_disabled
next_state true old = if null old then state_up else old

-- The key of a namespace that the client listens to, its own or a shared one.
unfoldable pub listener_key : HeartBeat → Bytes → Result Bytes
unfolding is_ns_shared extract_app_group_ns namespace_key
listener_key info v =
    if is_ns_shared v
    then bind (extract_app_group_ns v) (λ p. ok (namespace_key p.0 p.1 p.2 info.ip info.port))
    else ok (namespace_key info.app_id info.group v info.ip info.port)

module _ (rs : RaftStore) (marshal : List (Bytes × Bytes) → Bytes) where
  -- The metadata that is stored again: what is there, or what the heartbeat brings.
  unfoldable pub renewed_meta : HeartBeat → Result Bytes → Bytes
  unfolding meta_string
  renewed_meta info (ok v) = v
  renewed_meta info (err e) = meta_string marshal info.meta

  -- setAppHeartBeat: a failed write is only logged.
  unfoldable pub set_app_heart_beat : HeartBeat → rs.State → rs.State
  unfolding renewed_meta next_state or_empty timeout_of meta_key inst_key
  set_app_heart_beat info s =
      let mkey = meta_key info.app_id info.group info.ip info.port in
      let ikey = inst_key info.app_id info.group info.ip info.port in
      let t = (rs.set mkey (renewed_meta info (rs.get mkey s)) meta_expire s).0 in
      (rs.set ikey (next_state info.enable_svc (or_empty (rs.get ikey t))) (timeout_of info.timeout)
        t).0

  -- The loop of setCfgNsHeartBeat; a panic ends it.
  unfoldable pub set_listeners : HeartBeat → List Bytes → Call rs.State (Unit {0})
  unfolding listener_key timeout_of
  set_listeners info [] s = (s, ok tt)
  set_listeners info (v ∷ vs) s = elim (listener_key info v) [
    | err e ↦ (s, err e)
    | ok key ↦ set_listeners info vs (rs.set key state_up (timeout_of info.timeout) s).0
  ]

  -- setCfgNsHeartBeat
  unfoldable pub set_cfg_ns_heart_beat : HeartBeat → Call rs.State (Unit {0})
  unfolding set_listeners
  set_cfg_ns_heart_beat info s =
      if not info.enable_cfg then (s, ok tt) else set_listeners info info.namespaces s

  -- routeHeartbeat
  unfoldable pub route_heartbeat : HeartBeat → Call rs.State (Unit {0})
  unfolding beat_valid set_app_heart_beat set_cfg_ns_heart_beat
  route_heartbeat info s = elim (beat_valid info) [
    | err e ↦ (s, ok tt)
    | ok _ ↦ set_cfg_ns_heart_beat info (set_app_heart_beat info s)
  ]
