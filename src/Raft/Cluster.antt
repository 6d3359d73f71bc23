-- ===== src/Raft/Cluster.antt =====
-- store/raft/state.go: what a node tells of its cluster.
use micro_conf.Text.Fold.{equal_fold}
use micro_conf.Base.{List, if◌then◌else◌, map}
use micro_conf.Text.Bytes.{codes, Bytes}

-- raft.Server.
pub record Server : Type 0 where
  pub id : Bytes
  pub address : Bytes
  pub suffrage : Bytes

pub record PeerState : Type 0 where
  pub id : Bytes
  pub addr : Bytes
  pub role : Bytes
  pub state : Bytes

pub record ClusterState : Type 0 where
  pub leader_id : Bytes
  pub leader_addr : Bytes
  pub peers : List PeerState

unfoldable pub peer_of : Bytes → Server → PeerState
peer_of addr v = record {
  id = v.id;
  addr = v.address;
  role = if equal_fold addr v.address then codes "leader" else codes "follower";
  state = v.suffrage;
}

-- NewClusterInfo
unfoldable pub new_cluster_info : Bytes → Bytes → List Server → ClusterState
unfolding peer_of
new_cluster_info addr id servers = record {
  leader_id = id;
  leader_addr = addr;
  peers = map (peer_of addr) servers;
}
