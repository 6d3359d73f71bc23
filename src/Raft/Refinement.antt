-- ===== src/Raft/Refinement.antt =====
-- The store of a node as the interface that the services use.
use micro_conf.Text.Bytes.{has_prefix, Bytes}
use micro_conf.Store.{IsRaftStore, RaftStore}
use micro_conf.Raft.Machine.{Badger, Command}
use micro_conf.Raft.Laws.{
  store_get-set_or, IsBadger, IsConsensus, store_delete-data, store_get-set, store_get-set_ne,
}
use micro_conf.Json.{Json}
use micro_conf.Base.Outcome.{Result, ok}
use micro_conf.Base.{All, All-of_map, ap, none, true, ℕ, ◌≡◌, ◌≢◌}
use micro_conf.Raft.Node.{
  store_scan_keys, store_scan_kvs, store_delete, store_get, store_set, Consensus,
}

module _ (badger : Badger) (raft : Consensus badger.Db) (commands : Json Command)
    (sent now later : ℕ) where
  abbrev pub raft_store : RaftStore
  raft_store = record {
    State = raft.State;
    get = store_get badger raft commands;
    scan_kvs = store_scan_kvs badger raft commands;
    scan_keys = store_scan_keys badger raft commands;
    set = store_set badger raft commands sent now later;
    delete = store_delete badger raft commands now later;
  }

  module _ (laws : IsConsensus badger.Db raft) (bl : IsBadger badger)
      (leads : (s : raft.State) → raft.is_leader s ≡ true)
      (takes : (k v : Bytes) (d : badger.Db) → (badger.put k v none d).1 ≡ ok tt) where
    get-delete :
        (k j : Bytes) (s t : raft.State) (r : Result (Unit {0}))
        → store_delete badger raft commands now later k s ≡ (t, r)
        → k ≢ j
        → store_get badger raft commands j t ≡ store_get badger raft commands j s
    unfolding store_get
    get-delete k j s t r h n =
        ap (badger.find j)
          (store_delete-data badger raft laws commands now later k s t r (leads s) h)

    scan_keys :
        (p : Bytes) (s : raft.State)
        → All (λ k. has_prefix k p ≡ true) (store_scan_keys badger raft commands p s)
    unfolding store_scan_keys
    scan_keys p s =
        All-of_map (λ k. has_prefix k p ≡ true) (λ e. e.0) (badger.prefixed p (raft.data_of s))
          (bl.prefixed-has p (raft.data_of s))

    -- If the node leads and badger takes every write, then the store keeps what the services rely
    -- on.
    pub raft_store-IsRaftStore : IsRaftStore raft_store
    raft_store-IsRaftStore = record {
      get-set_self = λ k v s t h.
          store_get-set badger raft laws commands now later bl sent k v s t (leads s) h
            (takes k v (raft.data_of s));
      get-set_ne = λ k j v exp s t r h n.
          store_get-set_ne badger raft laws commands now later bl sent k j v exp s t r (leads s) h
            n;
      get-set_or = λ k v s t r h.
          store_get-set_or badger raft laws commands now later bl sent k v s t r (leads s) h
            (takes k v (raft.data_of s));
      scan_keys-prefix = scan_keys;
      get-delete_ne = get-delete;
    }
