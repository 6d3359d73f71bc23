-- ===== src/Raft/Node.antt =====
-- store/raft/raft.go: the store of one node. hashicorp/raft and the network are parameters.
use micro_conf.Text.Decimal.{negsuc, pos, ℤ}
use micro_conf.Raft.Redirect.{Body, get_leader_addr, read_reply}
use micro_conf.Raft.Machine.{Badger, Command, apply_entry, cmd_del, cmd_set, cmd_set_ex}
use micro_conf.Raft.Cluster.{Server}
use micro_conf.Json.{Json}
use micro_conf.Dict.{Dict}
use micro_conf.Cfg.Differ.Buckets.{entry}
use micro_conf.Base.Outcome.{Call, Result, after, err, ok}
use micro_conf.Base.{
  Bool, List, [], any, false, if◌then◌else◌, map, not, suc, true, zero, ℕ, ◌%◌, ◌++◌, ◌+◌, ◌-◌, ◌/◌,
  ◌^◌, ◌||◌, ◌∷◌,
}
use micro_conf.Text.Bytes.{codes, same, Bytes}

-- A request to another node.
pub data Request : Type 0 where
  key_request : (cmd : Bytes) → (key : Bytes) → (value : Bytes) → (exp : ℤ) → Request
  remove_request : (node_id : Bytes) → (addr : Bytes) → Request

-- What the code calls of hashicorp/raft and of the network. `data` is the node's copy of the
-- database, and `apply` hands an entry to the cluster, whose state machine is the first argument.
pub record Consensus (Db : Type 0) : Type 1 where
  pub State : Type 0
  pub data_of : State → Db
  pub is_leader : State → Bool
  pub leader_addr : State → Bytes
  pub leader_id : State → Bytes
  pub configuration : State → Result (List Server)
  pub apply : (Bytes → Db → Db) → Bytes → Call State (Unit {0})
  pub add_voter : Bytes → Bytes → Call State (Unit {0})
  pub remove_server : Bytes → Call State (Unit {0})
  pub post : Bytes → Request → Call State Body

-- The sum of the time and of a duration in nanoseconds, as a uint64: Go's division rounds to zero.
unfoldable pub exp_at : ℕ → ℤ → ℕ
exp_at now (pos n) = (now + n / 1000000) % 2 ^ 64
exp_at now (negsuc n) = (now + (2 ^ 64 - ((n + 1) / 1000000) % 2 ^ 64)) % 2 ^ 64

unfoldable pub cmd_of : ℤ → Bytes
cmd_of (pos zero) = cmd_set
cmd_of (pos (suc n)) = cmd_set_ex
cmd_of (negsuc n) = cmd_set

unfoldable pub set_command : ℕ → Bytes → Bytes → ℤ → Command
unfolding cmd_of exp_at
set_command now key value exp = record {
  op = cmd_of exp;
  key = key;
  value = value;
  exp = exp_at now exp;
}

unfoldable pub delete_command : Bytes → Command
delete_command key = record { op = codes "delete"; key = key; value = []; exp = 0 }

unfoldable pub matches : Bytes → Bytes → Server → Bool
matches node_id addr srv = same srv.id node_id || same srv.address addr

module _ (badger : Badger) (raft : Consensus badger.Db) (commands : Json Command) where
  -- Get
  unfoldable pub store_get : Bytes → raft.State → Result Bytes
  store_get key s = badger.find key (raft.data_of s)

  -- ScanKvs
  unfoldable pub store_scan_kvs : Bytes → raft.State → Dict Bytes
  store_scan_kvs p s = badger.prefixed p (raft.data_of s)

  -- ScanKeys
  unfoldable pub store_scan_keys : Bytes → raft.State → List Bytes
  store_scan_keys p s = map (λ e. e.0) (badger.prefixed p (raft.data_of s))

  -- RedirectKeyRequest and RedirectRaftRequest, by their request.
  unfoldable pub redirect_request : Bytes → Request → Call raft.State (Unit {0})
  unfolding get_leader_addr read_reply
  redirect_request path r s = elim (get_leader_addr (raft.leader_addr s)) [
    | err e ↦ (s, err e)
    | ok addr ↦ let (t, b) = raft.post (addr ++ path) r s in (t, read_reply b)
  ]

  -- What a node does with a committed entry; the response of the state machine is not looked at.
  unfoldable pub machine : ℕ → ℕ → Bytes → badger.Db → badger.Db
  unfolding apply_entry
  machine now later entry d = (apply_entry badger commands now later entry d).0

  -- Set; `sent` is the leader's time, `now` and `later` are those of the state machine.
  unfoldable pub store_set : ℕ → ℕ → ℕ → Bytes → Bytes → ℤ → Call raft.State (Unit {0})
  unfolding redirect_request machine set_command cmd_of
  store_set sent now later key value exp s =
      if not (raft.is_leader s)
      then redirect_request (codes "/api/store/key") (key_request (cmd_of exp) key value exp) s
      else raft.apply (machine now later) (commands.marshal (set_command sent key value exp)) s

  -- Delete
  unfoldable pub store_delete : ℕ → ℕ → Bytes → Call raft.State (Unit {0})
  unfolding redirect_request machine delete_command
  store_delete now later key s =
      if not (raft.is_leader s)
      then redirect_request (codes "/api/store/key") (key_request cmd_del key [] (pos 0)) s
      else raft.apply (machine now later) (commands.marshal (delete_command key)) s

  -- Join
  unfoldable pub join_node : Bytes → Bytes → Call raft.State (Unit {0})
  unfolding matches
  join_node node_id addr s = elim (raft.configuration s) [
    | err e ↦ (s, err e)
    | ok servers ↦
        if any (matches node_id addr) servers then (s, ok tt) else raft.add_voter node_id addr s
  ]

  -- The loop of Remove: the first failure ends it.
  unfoldable pub remove_matching : Bytes → Bytes → List Server → Call raft.State (Unit {0})
  unfolding matches
  remove_matching node_id addr [] s = (s, ok tt)
  remove_matching node_id addr (srv ∷ servers) s = elim (matches node_id addr srv) [
    | true ↦ after (raft.remove_server srv.id s) (λ t _. remove_matching node_id addr servers t)
    | false ↦ remove_matching node_id addr servers s
  ]

  -- Remove
  unfoldable pub remove_node : Bytes → Bytes → Call raft.State (Unit {0})
  unfolding redirect_request remove_matching
  remove_node node_id addr s =
      if not (raft.is_leader s)
      then redirect_request (codes "/api/raft/cluster") (remove_request node_id addr) s
      else elim (raft.configuration s) [
        | err e ↦ (s, err e)
        | ok servers ↦ remove_matching node_id addr servers s
      ]
