-- ===== src/Cfg/Push.antt =====
-- service/cfg/change_listener.go: a released difference becomes events for the instances that
-- listen, and is told to the other nodes. Time passes in seconds; the registry of connections is
-- read at a second. Requests and pauses of a forward are calls on the state `W` of the network.
pub mod Replay
pub mod Wait
pub mod Peers
pub mod Queue
pub mod Delivered
use micro_conf.Conn.Sockets.{Client}
use micro_conf.App.Instances.{at_port}
use micro_conf.Text.Split.{split}
use micro_conf.Text.Fold.{equal_fold}
use micro_conf.Text.Decimal.{atoi, format_int, ℤ}
use micro_conf.Text.Bytes.{Bytes, codes, same}
use micro_conf.Store.{RaftStore}
use micro_conf.Raft.Redirect.{Body, code_text, minus_thousand}
use micro_conf.Raft.Cluster.{ClusterState, PeerState}
use micro_conf.Json.{Json}
use micro_conf.Inner.{is_self}
use micro_conf.Http.{Reply, bad_request, success}
use micro_conf.Dict.{Dict}
use micro_conf.Conn.Clients.{get_client}
use micro_conf.Cfg.Differ.{NamespaceDiff, StringPair}
use micro_conf.Base.Outcome.{Call, Result, bind, err, ok, panic}
use micro_conf.App.Listeners.{NamespaceInstance, get_namespace_instances}
use micro_conf.Base.{
  Bool, List, Option, [], false, if◌then◌else◌, keep, map, none, not, some, suc, true, zero, ◌++◌,
  ◌∷◌, ℕ,
}

abbrev pub config_add : Bytes
config_add = codes "add"

abbrev pub config_remove : Bytes
config_remove = codes "remove"

abbrev pub config_change : Bytes
config_change = codes "change"

pub record ConfigChangeEvent : Type 0 where
  pub namespace : Bytes
  pub key : Bytes
  pub kind : Bytes
  pub current : Bytes
  pub before : Bytes

pub record ConfigChangeRequest : Type 0 where
  pub app_id : Bytes
  pub group : Bytes
  pub diff : Option NamespaceDiff

-- (t *EventType) Byte of service/app/def.go
unfoldable pub event_byte : Bytes → ℕ
unfolding equal_fold
event_byte t =
    if equal_fold t (codes "cfg")
    then 1
    else if equal_fold t (codes "info")
    then 2
    else if equal_fold t (codes "svc")
    then 3
    else 0

-- (e *AppEvent) String: the content, and the type as one byte behind it.
unfoldable pub event_string : {C : Type 0} → Json C → Bytes → C → Bytes
unfolding event_byte
event_string json t content = json.marshal content ++ event_byte t ∷ []

-- fmt.Sprintf("%s.%s.%s", …)
unfoldable pub event_namespace : Bytes → Bytes → Bytes → Bytes
event_namespace app_id group name = app_id ++ (codes "." ++ (group ++ (codes "." ++ name)))

-- The bodies of the three loops of doPush.
unfoldable pub added_event : Bytes → Bytes × Bytes → ConfigChangeEvent
added_event ns (k, v) = record {
  namespace = ns;
  key = k;
  kind = config_add;
  current = v;
  before = [];
}

unfoldable pub removed_event : Bytes → Bytes × Bytes → ConfigChangeEvent
removed_event ns (k, v) = record {
  namespace = ns;
  key = k;
  kind = config_remove;
  current = v;
  before = [];
}

unfoldable pub changed_event : Bytes → Bytes × StringPair → ConfigChangeEvent
changed_event ns (k, v) = record {
  namespace = ns;
  key = k;
  kind = config_change;
  current = v.right;
  before = v.left;
}

-- The events of doPush for one client, in the order in which they are sent.
unfoldable pub events_of : Bytes → Bytes → NamespaceDiff → List ConfigChangeEvent
unfolding event_namespace added_event removed_event changed_event
events_of app_id group d =
    let ns = event_namespace app_id group d.namespace in
    map (added_event ns) d.added
    ++ (map (removed_event ns) d.removed ++ map (changed_event ns) d.changed)

-- ClientKeyFormat of service/app/def.go
unfoldable pub client_key : Bytes → Bytes → ℤ → Bytes
unfolding at_port
client_key app_id ip port = app_id ++ (codes ":" ++ at_port ip port)

-- waitClientReconnectTime
abbrev pub reconnect_time : ℕ
reconnect_time = 30

module _ {Client : Type 0} (registry : ℕ → Dict Client) where
  -- The loop that waits for a client: a second passes before each look.
  unfoldable pub wait_client : ℕ → Bytes → ℕ → ℕ × Option Client
  unfolding get_client
  wait_client zero key now = (now, none)
  wait_client (suc n) key now = elim (get_client key (registry (suc now))) [
    | some c ↦ (suc now, some c)
    | none ↦ wait_client n key (suc now)
  ]

  unfoldable pub find_client : Bytes → ℕ → ℕ × Option Client
  unfolding wait_client get_client
  find_client key now = elim (get_client key (registry now)) [
    | some c ↦ (now, some c)
    | none ↦ wait_client reconnect_time key now
  ]

  -- The loop over the instances: what is sent, and to whom.
  unfoldable pub push_instances :
      Bytes → List Bytes → List NamespaceInstance → ℕ → List (Client × Bytes)
  unfolding find_client client_key
  push_instances app_id messages [] now = []
  push_instances app_id messages (i ∷ is) now =
      let (moment, found) = find_client (client_key app_id i.ip i.port) now in
      let rest = push_instances app_id messages is moment in
      elim found [ none ↦ rest | some c ↦ map (λ m. (c, m)) messages ++ rest ]

  module _ (rs : RaftStore) (bound : Bytes → ℤ) (json : Json ConfigChangeEvent) where
    -- doPush. A request without a difference is dereferenced.
    unfoldable pub do_push : ConfigChangeRequest → ℕ → rs.State → Result (List (Client × Bytes))
    unfolding get_namespace_instances events_of event_string push_instances
    do_push r now s = elim r.diff [
      | none ↦ err panic
      | some d ↦ bind (get_namespace_instances rs bound r.app_id r.group d.namespace s) (λ is. ok (
          push_instances r.app_id
            (map (event_string json (codes "cfg")) (events_of r.app_id r.group d)) is now))
    ]

    -- acceptConfigChange; `none` is a body that is no JSON.
    unfoldable pub accept_config_change :
        Option ConfigChangeRequest → ℕ → rs.State → Result (List (Client × Bytes) × Reply)
    unfolding do_push
    accept_config_change none now s = ok ([], bad_request)
    accept_config_change (some r) now s = bind (do_push r now s) (λ sent. ok (sent, success))

-- maxRetryCount
abbrev pub max_retry_count : ℕ
max_retry_count = 20

-- The error of strconv.Atoi is ignored: `bound` is the value that it returns beside one.
unfoldable pub port_of : (Bytes → ℤ) → Bytes → ℤ
port_of bound port = elim (atoi port) [ none ↦ bound port | some n ↦ n ]

-- The address in sendFollowerChange; a missing port is an index out of range.
unfoldable pub follower_url : (Bytes → ℤ) → List Bytes → Result Bytes
unfolding minus_thousand port_of
follower_url bound (host ∷ port ∷ rest) =
    let http_port = format_int (minus_thousand (port_of bound port)) in
    ok (codes "http://" ++ (host ++ (codes ":" ++ (http_port ++ codes "/api/cfg/listen"))))
follower_url bound _ = err panic

-- Whether responseData.Code is "0".
unfoldable pub accepted : Body → Bool
accepted (code_text c) = same c (codes "0")
accepted _ = false

module _ {W : Type 0} (post : Bytes → Bytes → Call W Body) (pause : ℕ → W → W) (bound : Bytes → ℤ)
    (requests : Json ConfigChangeRequest) where
  -- sendFollowerChange. A request that fails leaves no response, and its status is read all the
  -- same.
  unfoldable pub send_follower_change : PeerState → ConfigChangeRequest → Call W Bool
  unfolding follower_url accepted
  send_follower_change p r w = elim (follower_url bound (split b':' p.addr)) [
    | err e ↦ (w, err e)
    | ok url ↦
        let (v, answer) = post url (requests.marshal r) w in
        elim answer [ err e ↦ (v, err panic) | ok body ↦ (v, ok (accepted body)) ]
  ]

  -- The retries, with a pause that grows by a second.
  unfoldable pub retry_change : ℕ → ℕ → PeerState → ConfigChangeRequest → Call W (Unit {0})
  unfolding send_follower_change
  retry_change zero i p r w = (w, ok tt)
  retry_change (suc n) i p r w =
      let (v, sent) = send_follower_change p r (pause i w) in
      elim sent [
        | err e ↦ (v, err e)
        | ok b ↦ elim b [ true ↦ (v, ok tt) | false ↦ retry_change n (suc i) p r v ]
      ]

  -- The goroutine that pushChange starts for a peer.
  unfoldable pub tell_peer : PeerState → ConfigChangeRequest → Call W (Unit {0})
  unfolding retry_change send_follower_change
  tell_peer p r w =
      let (v, sent) = send_follower_change p r w in
      elim sent [
        | err e ↦ (v, err e)
        | ok b ↦ elim b [ true ↦ (v, ok tt) | false ↦ retry_change (suc max_retry_count) 0 p r v ]
      ]

-- The loop of pushChange over the peers: those that a goroutine is started for. The nodes of the
-- cluster stay the same during the loop.
unfoldable pub told_peers : Bytes → Option ClusterState → List PeerState
unfolding is_self
told_peers peer_id none = []
told_peers peer_id (some info) = keep (λ p. not (is_self peer_id info)) info.peers

-- pushChange: what is sent to the clients of this node, and the peers that are told.
module _ {C : Type 0} (registry : ℕ → Dict C) (rs : RaftStore) (bound : Bytes → ℤ)
    (json : Json ConfigChangeEvent) where
  unfoldable pub push_change :
      Bytes
      → Bytes
      → NamespaceDiff
      → (peer_id : Bytes) → Option ClusterState
      → ℕ
      → rs.State
      → Result (List (C × Bytes) × List PeerState)
  unfolding do_push told_peers
  push_change app_id group d peer_id info now s =
      let request : ConfigChangeRequest = record {
        app_id = app_id;
        group = group;
        diff = some d;
      } in
      bind (do_push registry rs bound json request now s)
        (λ sent. ok (sent, told_peers peer_id info))
