-- ===== src/Cfg/Push/Peers.antt =====
-- Which nodes pushChange tells of a release.
use micro_conf.Text.Fold.{equal_fold}
use micro_conf.Text.Bytes.{Bytes}
use micro_conf.Raft.Cluster.{Server, new_cluster_info}
use micro_conf.Inner.{is_self}
use micro_conf.Cfg.Push.{told_peers}
use micro_conf.Base.{List, [], ap, arith, false, keep, not, refl, some, true, ◌++◌, ◌∙◌, ◌∷◌, ◌≡◌}

is_self-cluster :
    (peer_id addr leader_id : Bytes) (before behind : List Server) (own : Server)
    → equal_fold peer_id own.id ≡ true
    → is_self peer_id (new_cluster_info addr leader_id (before ++ own ∷ behind)) ≡ true
unfolding is_self new_cluster_info
is_self-cluster peer_id addr leader_id [] behind own h = ground (arith, h)
is_self-cluster peer_id addr leader_id (v ∷ before) behind own h =
    ground (arith, is_self-cluster peer_id addr leader_id before behind own h)

keep_none : {A : Type 0} (xs : List A) → keep (λ x. false) xs ≡ []
keep_none [] = refl
keep_none (x ∷ xs) = keep_none xs

-- A node that is a server of the cluster itself tells no other node of a release.
pub told_peers-member :
    (peer_id addr leader_id : Bytes) (before behind : List Server) (own : Server)
    → equal_fold peer_id own.id ≡ true
    → told_peers peer_id (some (new_cluster_info addr leader_id (before ++ own ∷ behind))) ≡ []
unfolding told_peers
told_peers-member peer_id addr leader_id before behind own h =
    ap (λ b. keep (λ p. not b) (new_cluster_info addr leader_id (before ++ own ∷ behind)).peers)
      (is_self-cluster peer_id addr leader_id before behind own h)
    ∙ keep_none (new_cluster_info addr leader_id (before ++ own ∷ behind)).peers
