-- ===== src/Store.antt =====
-- The interface RaftStore of store/raft_store.go, through which every service keeps its state.
pub mod Touches
use micro_conf.Base.{All, true, ◌⊎◌, ◌≡◌, ◌≢◌, List}
use micro_conf.Base.Outcome.{Result, ok, Call}
use micro_conf.Text.Bytes.{has_prefix, Bytes}
use micro_conf.Text.Decimal.{ℤ, negsuc}
use micro_conf.Dict.{Dict}

-- The operations that the services call; `State` is what the store holds at a moment.
pub record RaftStore : Type 1 where
  pub State : Type 0
  pub get : Bytes → State → Result Bytes
  pub scan_kvs : Bytes → State → Dict Bytes
  pub scan_keys : Bytes → State → List Bytes
  pub set : Bytes → Bytes → ℤ → Call State (Unit {0})
  pub delete : Bytes → Call State (Unit {0})

-- A key that never expires; the services write it as the expiry of what they keep.
abbrev pub never : ℤ
never = negsuc 0

-- What the services rely on. A write that reports success is read back, and one without expiry that
-- reports a failure may have been done or not; a write or a delete, whether it succeeds or fails,
-- touches its own key only. A scan lists keys with the prefix that it is given.
pub record IsRaftStore (rs : RaftStore) : Type 0 where
  pub get-set_self :
      (k v : Bytes) (s t : rs.State) → rs.set k v never s ≡ (t, ok tt) → rs.get k t ≡ ok v
  pub get-set_ne :
      (k j v : Bytes) (exp : ℤ) (s t : rs.State) (r : Result (Unit {0}))
      → rs.set k v exp s ≡ (t, r)
      → k ≢ j
      → rs.get j t ≡ rs.get j s
  pub get-set_or :
      (k v : Bytes) (s t : rs.State) (r : Result (Unit {0}))
      → rs.set k v never s ≡ (t, r)
      → (rs.get k t ≡ ok v) ⊎ (rs.get k t ≡ rs.get k s)
  pub scan_keys-prefix :
      (p : Bytes) (s : rs.State) → All (λ k. has_prefix k p ≡ true) (rs.scan_keys p s)
  pub get-delete_ne :
      (k j : Bytes) (s t : rs.State) (r : Result (Unit {0}))
      → rs.delete k s ≡ (t, r)
      → k ≢ j
      → rs.get j t ≡ rs.get j s
