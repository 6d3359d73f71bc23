-- ===== src/Inner/Laws.antt =====
-- What a request of another node does to the store.
use micro_conf.Text.Decimal.{ℤ}
use micro_conf.Text.Bytes.{same, Bytes}
use micro_conf.Store.{never, IsRaftStore, RaftStore}
use micro_conf.Raft.Machine.{cmd_del, cmd_set_ex, cmd_set}
use micro_conf.Http.{reply_of-state, reply_of, success}
use micro_conf.Base.Outcome.{Result, err, ok}
use micro_conf.Base.{Bool-cases, ap, inl, inr, null, ◌||◌, ◌∙◌, [], refl, some, ◌∷◌, ◌≡◌, ◌≢◌}
use micro_conf.Inner.{run_key_cmd, key_operation, KeyCmd}

module _ (rs : RaftStore) (laws : IsRaftStore rs) where
  set-other :
      (k v j : Bytes) (exp : ℤ) (s : rs.State)
      → k ≢ j
      → rs.get j (reply_of (rs.set k v exp s)).0 ≡ rs.get j s
  set-other k v j exp s n =
      ap (rs.get j) (reply_of-state (rs.set k v exp s))
      ∙ laws.get-set_ne k j v exp s (rs.set k v exp s).0 (rs.set k v exp s).1 refl n

  delete-other :
      (k j : Bytes) (s : rs.State) → k ≢ j → rs.get j (reply_of (rs.delete k s)).0 ≡ rs.get j s
  delete-other k j s n =
      ap (rs.get j) (reply_of-state (rs.delete k s))
      ∙ laws.get-delete_ne k j s (rs.delete k s).0 (rs.delete k s).1 refl n

  set-done :
      (k v : Bytes) (s : rs.State)
      → (reply_of (rs.set k v never s)).1 ≡ success ∷ []
      → rs.get k (reply_of (rs.set k v never s)).0 ≡ ok v
  set-done k v s h = go (rs.set k v never s) refl h
    where
      go :
          (p : rs.State × Result (Unit {0}))
          → rs.set k v never s ≡ p
          → (reply_of p).1 ≡ success ∷ []
          → rs.get k (reply_of p).0 ≡ ok v
      go (t, ok a) e q = laws.get-set_self k v s t e
      go (t, err x) e q = cc q

  run_key_cmd-other :
      (c : KeyCmd) (s : rs.State) (j : Bytes)
      → c.key ≢ j
      → rs.get j (run_key_cmd rs c s).0 ≡ rs.get j s
  unfolding run_key_cmd
  run_key_cmd-other c s j n = elim (Bool-cases (same c.cmd cmd_del)) [
    | inl e ↦ rw e (delete-other c.key j s n)
    | inr e ↦ elim (Bool-cases (same c.cmd cmd_set)) [
      | inl e2 ↦ rw (e, e2) (set-other c.key c.value j never s n)
      | inr e2 ↦ elim (Bool-cases (same c.cmd cmd_set_ex)) [
        | inl e3 ↦ rw (e, e2, e3) (set-other c.key c.value j c.exp s n)
        | inr e3 ↦ rw (e, e2, e3)
      ]
    ]
  ]

  run_key_cmd-set :
      (c : KeyCmd) (s : rs.State)
      → c.cmd ≡ cmd_set
      → run_key_cmd rs c s ≡ reply_of (rs.set c.key c.value never s)
  unfolding run_key_cmd same
  run_key_cmd-set c s h = rw (h, run_key_cmd)

  module _ (c : KeyCmd) (s : rs.State) where
    -- Whatever the command is and however it is answered, only its own key may change; and if a
    -- "set" is answered by success, the key holds the value of the command.
    pub key_operation-get :
        ((j : Bytes) → c.key ≢ j → rs.get j (key_operation rs (some c) s).0 ≡ rs.get j s)
        × (c.cmd ≡ cmd_set
            → (key_operation rs (some c) s).1 ≡ success ∷ []
            → rs.get c.key (key_operation rs (some c) s).0 ≡ ok c.value)
    unfolding key_operation
    key_operation-get = (
      (λ j n. elim (Bool-cases (null c.key || null c.cmd)) [
        | inl e ↦ rw e
        | inr e ↦ rw e (run_key_cmd-other c s j n)
      ]),
      λ is_set replied. elim (Bool-cases (null c.key || null c.cmd)) [
        | inl e ↦ cc (rw (e, key_operation) at replied)
        | inr e ↦
            rw (e, run_key_cmd-set c s is_set)
              (set-done c.key c.value s
                (rw (e, run_key_cmd-set c s is_set, key_operation) at replied))
      ],
    )
