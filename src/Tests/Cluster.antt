-- ===== src/Tests/Cluster.antt =====
-- A node that leads, with a key that is deleted, and the reply that a follower gets.
use micro_conf.Raft.Replicas.{Untimed, run_log, run_log-agree}
use micro_conf.Raft.Machine.{
  Command, apply_command, apply_entry, apply_set, cmd_del, cmd_set, cmd_set_ex, expired,
}
use micro_conf.Text.Decimal.{format_int, pos}
use micro_conf.Samples.Memory.{memory}
use micro_conf.Inner.Forwarded.{Mirrors, redirected-Mirrors}
use micro_conf.Raft.Membership.{remove_node-gone}
use micro_conf.Raft.Cluster.{Server}
use micro_conf.Text.Bytes.{same, Bytes, Lacks, codes}
use micro_conf.Store.{IsRaftStore}
use micro_conf.Samples.Pack.{commands}
use micro_conf.Raft.Refinement.{raft_store, raft_store-IsRaftStore}
use micro_conf.Raft.Redirect.{get_leader_addr}
use micro_conf.Raft.Node.{store_set, matches, remove_node, store_delete}
use micro_conf.Raft.Laws.{store_delete-data}
use micro_conf.Raft.Address.{get_leader_addr-format_int}
use micro_conf.Dict.{insert, lookup, Dict}
use micro_conf.Base.Outcome.{ok}
use micro_conf.Base.{inl, inr, ℕ, All, List, false, [], arith, refl, ◌∷◌, ◌≡◌}
use micro_conf.Samples.Node.{
  table-erased, behind, code_body, code_body-IsReplyFormat, members_only, members_only-IsMembership,
  alone, alone-IsConsensus, table, table-IsBadger,
}

abbrev kept : Dict Bytes
kept = (codes "k", codes "v") ∷ []

store_delete-data_example : (store_delete table alone commands 5 6 (codes "k") kept).0 ≡ kept
store_delete-data_example =
    store_delete-data table alone alone-IsConsensus commands 5 6 (codes "k") kept
      (store_delete table alone commands 5 6 (codes "k") kept).0
      (store_delete table alone commands 5 6 (codes "k") kept).1 refl refl

raft_store-IsRaftStore_example : IsRaftStore (raft_store table alone commands 4 5 6)
raft_store-IsRaftStore_example =
    raft_store-IsRaftStore table alone commands 4 5 6 alone-IsConsensus table-IsBadger (λ s. refl)
      (λ k v d. refl)

host-Lacks : Lacks b':' (codes "10.0.0.1")
host-Lacks = omega arith

abbrev three : List Server
three =
    record { id = codes "n1"; address = codes "a1"; suffrage = codes "Voter" }
    ∷ record { id = codes "n2"; address = codes "a2"; suffrage = codes "Voter" }
    ∷ record { id = codes "n3"; address = codes "a3"; suffrage = codes "Voter" }
    ∷ []

abbrev two_left : List Server
two_left = (remove_node table members_only commands (codes "n2") (codes "a2") three).0

removed :
    remove_node table members_only commands (codes "n2") (codes "a2") three ≡ (two_left, ok tt)
unfolding remove_node same
removed = refl

remove_node-gone_example :
    (left : List Server) × (members_only.configuration two_left ≡ ok left)
    × All (λ w. matches (codes "n2") (codes "a2") w ≡ false) left
remove_node-gone_example =
    remove_node-gone table members_only commands members_only-IsMembership (codes "n2") (codes "a2")
      three three two_left refl refl removed

followed-addr : get_leader_addr (behind.leader_addr kept) ≡ ok (codes "http://10.0.0.1:8080")
unfolding format_int
followed-addr = get_leader_addr-format_int (codes "10.0.0.1") 8080 host-Lacks (omega arith)

redirected-Mirrors_example :
    Mirrors table behind commands memory
      (λ s. s)
      code_body
      (store_set table behind commands 4 5 6 (codes "k") (codes "w") (pos 3) kept)
      (memory.set (codes "k") (codes "w") (pos 3) kept)
    × Mirrors table behind commands memory
        (λ s. s)
        code_body
        (store_delete table behind commands 5 6 (codes "k") kept)
        (memory.delete (codes "k") kept)
redirected-Mirrors_example =
    redirected-Mirrors table behind commands memory (λ s. s) code_body code_body-IsReplyFormat kept
      (codes "http://10.0.0.1:8080") followed-addr refl 4 5 6 (codes "k") (codes "w") (pos 3) refl
      (refl, refl) (refl, refl)

abbrev log_entry : Bytes → Bytes → Bytes → ℕ → Command
log_entry op key value exp = record { op = op; key = key; value = value; exp = exp }

abbrev entries : List Command
entries =
    log_entry cmd_set (codes "k") (codes "v") 0
    ∷ log_entry cmd_set_ex (codes "m") (codes "w") 5
    ∷ log_entry cmd_del (codes "k") [] 0
    ∷ log_entry cmd_set (codes "k") (codes "u") 0
    ∷ []

entries-Untimed : All (Untimed (codes "k")) entries
unfolding same
entries-Untimed = (inl refl, (inr (ground arith), (inl refl, (inl refl, tt))))

run_log-agree_example :
    table.find (codes "k") (run_log table commands (λ i. (i, i)) 0 entries [])
    ≡ table.find (codes "k") (run_log table commands (λ i. (9, 9)) 0 entries [])
run_log-agree_example =
    run_log-agree table table-IsBadger (λ k v d. refl) table-erased commands (λ i. (i, i))
      (λ i. (9, 9)) (codes "k") 0 0 entries [] [] entries-Untimed refl

-- A command that sets an expiry, run too late, leaves the value that was there.
revived :
    table.find (codes "m") (
      run_log table commands
        (λ i. (9, 9))
        0
        (log_entry cmd_set (codes "m") (codes "v") 0
          ∷ log_entry cmd_set_ex (codes "m") (codes "w") 5
          ∷ [])
        [])
    ≡ ok (codes "v")
unfolding run_log apply_entry apply_command apply_set same expired insert lookup
revived = refl
