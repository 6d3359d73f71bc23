-- ===== src/Inner.antt =====
-- The package service/base: requests between the nodes of a cluster, and the administrator's view
-- of the store.
pub mod Forwarded
pub mod Laws
use micro_conf.Text.Split.{join}
use micro_conf.Text.Fold.{equal_fold}
use micro_conf.Text.Decimal.{ℤ}
use micro_conf.Store.{RaftStore, never}
use micro_conf.Raft.Node.{join_node, remove_node}
use micro_conf.Raft.Machine.{cmd_del, cmd_set, cmd_set_ex}
use micro_conf.Raft.Cluster.{ClusterState}
use micro_conf.Http.{Handler, Reply, bad_request, reply_of, server_error}
use micro_conf.Dict.{Dict, remove}
use micro_conf.Base.Outcome.{Call, err, ok}
use micro_conf.Base.{
  Bool, Option, [], any, if◌then◌else◌, inl, inr, none, null, some, ◌||◌, ◌∷◌, ◌⊎◌,
}
use micro_conf.Text.Bytes.{codes, same, Bytes}

pub record KeyCmd : Type 0 where
  pub cmd : Bytes
  pub key : Bytes
  pub value : Bytes
  pub exp : ℤ

pub record RaftCmd : Type 0 where
  pub cmd : Bytes
  pub node_id : Bytes
  pub addr : Bytes

module _ (rs : RaftStore) where
  -- The switch of keyOperation.
  unfoldable pub run_key_cmd : KeyCmd → Handler rs.State
  run_key_cmd c s =
      if same c.cmd cmd_del
      then reply_of (rs.delete c.key s)
      else if same c.cmd cmd_set
      then reply_of (rs.set c.key c.value never s)
      else if same c.cmd cmd_set_ex
      then reply_of (rs.set c.key c.value c.exp s)
      else (s, bad_request ∷ [])

  -- keyOperation; `none` is a body that is no JSON.
  unfoldable pub key_operation : Option KeyCmd → Handler rs.State
  unfolding run_key_cmd
  key_operation none s = (s, bad_request ∷ [])
  key_operation (some c) s =
      if null c.key || null c.cmd then (s, bad_request ∷ []) else run_key_cmd c s

  -- get and scan of store_op.go: the reply, or what it shows.
  unfoldable pub get_key : Bytes → rs.State → Reply ⊎ Bytes
  get_key key s = elim (rs.get key s) [ err e ↦ inl (server_error e) | ok val ↦ inr val ]

  unfoldable pub scan_prefix : Bytes → rs.State → Dict Bytes
  scan_prefix key s = rs.scan_kvs key s

module _ {S : Type 0} (join_node remove_node : Bytes → Bytes → Call S (Unit {0})) where
  -- clusterOperation
  unfoldable pub cluster_operation : Option RaftCmd → Handler S
  cluster_operation none s = (s, bad_request ∷ [])
  cluster_operation (some c) s =
      if null c.cmd || (null c.addr || null c.node_id)
      then (s, bad_request ∷ [])
      else if same c.cmd (codes "remove")
      then reply_of (remove_node c.node_id c.addr s)
      else if same c.cmd (codes "join")
      then reply_of (join_node c.node_id c.addr s)
      else (s, bad_request ∷ [])

-- IsSelf, which no peer is passed to: whether the node itself is among the peers.
unfoldable pub is_self : Bytes → ClusterState → Bool
is_self peer_id info = any (λ p. equal_fold peer_id p.id) info.peers
