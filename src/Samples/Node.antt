-- ===== src/Samples/Node.antt =====
-- A database in memory, and a cluster of one node that leads and never fails.
use micro_conf.Text.Fold.{equal_fold}
use micro_conf.Inner.Forwarded.{IsReplyFormat}
use micro_conf.Inner.{key_operation}
use micro_conf.Raft.Membership.{IsMembership}
use micro_conf.Raft.Cluster.{Server}
use micro_conf.Text.Bytes.{has_prefix, same, Bytes, codes, same_ne, same_refl}
use micro_conf.Samples.Memory.{memory, with_prefix-All, read, with_prefix}
use micro_conf.Raft.Redirect.{Body, code_text, no_json}
use micro_conf.Raft.Machine.{Badger}
use micro_conf.Raft.Laws.{IsBadger, IsConsensus}
use micro_conf.Dict.{Dict, insert, lookup, lookup-insert, lookup-remove, remove}
use micro_conf.Http.{success, bad_request, unauthorized, biz_error, redirect, server_error, Reply}
use micro_conf.Raft.Node.{Request, key_request, remove_request}
use micro_conf.Base.Outcome.{not_found, Result, message, ok-injective, Error, err, ok}
use micro_conf.Base.{
  All, refl, List, false, some, keep, not, ◌++◌, ◌∙◌, Option, [], ap, arith, inr, none, sym, true,
  ℕ, ◌∷◌, ◌≡◌, ◌≢◌, ◌⊎◌,
}
use micro_conf.Raft.Node.{Consensus}

abbrev pub table : Badger
table = record {
  Db = Dict Bytes;
  find = λ k d. read (lookup k d);
  prefixed = with_prefix;
  put = λ k v ttl d. (insert k v d, ok tt);
  erase = λ k d. (remove k d, ok tt);
}

table-find-put :
    (k v : Bytes) (d e : Dict Bytes) → table.put k v none d ≡ (e, ok tt) → table.find k e ≡ ok v
table-find-put k v d e h = ground (arith, lookup-insert k k v d, same_refl k, ap (λ p. p.0) h)

table-find-put_ne :
    (k j v : Bytes) (ttl : Option ℕ) (d : Dict Bytes)
    → k ≢ j
    → table.find j (table.put k v ttl d).0 ≡ table.find j d
table-find-put_ne k j v ttl d n = ground (arith, lookup-insert k j v d, same_ne k j n)

table-find-erase_ne :
    (k j : Bytes) (d : Dict Bytes) → k ≢ j → table.find j (table.erase k d).0 ≡ table.find j d
table-find-erase_ne k j d n = ground (arith, lookup-remove k j d, same_ne k j n)

table-prefixed :
    (p : Bytes) (d : Dict Bytes) → All (λ e. has_prefix e.0 p ≡ true) (table.prefixed p d)
table-prefixed p d = with_prefix-All p d

pub table-IsBadger : IsBadger table
table-IsBadger = record {
  find-put = table-find-put;
  find-put_ne = table-find-put_ne;
  prefixed-has = table-prefixed;
  find-erase_ne = table-find-erase_ne;
}

pub table-erased : (k : Bytes) (d : Dict Bytes) → table.find k (table.erase k d).0 ≡ err not_found
table-erased k d = ground (arith, lookup-remove k k d, same_refl k)

abbrev pub alone : Consensus (Dict Bytes)
alone = record {
  State = Dict Bytes;
  data_of = λ s. s;
  is_leader = λ s. true;
  leader_addr = λ s. codes "10.0.0.1:9080";
  leader_id = λ s. codes "n1";
  configuration = λ s.
      ok (
        record { id = codes "n1"; address = codes "10.0.0.1:9080"; suffrage = codes "Voter" } ∷ []);
  apply = λ f e s. (f e s, ok tt);
  add_voter = λ i a s. (s, ok tt);
  remove_server = λ i s. (s, ok tt);
  post = λ u r s. (s, ok no_json);
}

alone-apply-ok :
    (f : Bytes → Dict Bytes → Dict Bytes) (log : Bytes) (s t : Dict Bytes)
    → alone.apply f log s ≡ (t, ok tt)
    → t ≡ f log s
alone-apply-ok f log s t h = sym (ap (λ p. p.0) h)

alone-apply-err :
    (f : Bytes → Dict Bytes → Dict Bytes) (log : Bytes) (s t : Dict Bytes) (e : Error)
    → alone.apply f log s ≡ (t, err e)
    → (t ≡ s) ⊎ (t ≡ f log s)
alone-apply-err f log s t e h = inr (sym (ap (λ p. p.0) h))

pub alone-IsConsensus : IsConsensus (Dict Bytes) alone
alone-IsConsensus = record { apply-ok = alone-apply-ok; apply-err = alone-apply-err }

-- A cluster that is its list of servers, with a leader that keeps no data.
abbrev pub members_only : Consensus (Dict Bytes)
members_only = record {
  State = List Server;
  data_of = λ s. [];
  is_leader = λ s. true;
  leader_addr = λ s. codes "10.0.0.1:9080";
  leader_id = λ s. codes "n1";
  configuration = λ s. ok s;
  apply = λ f e s. (s, ok tt);
  add_voter = λ i a s. (s ++ record { id = i; address = a; suffrage = codes "Voter" } ∷ [], ok tt);
  remove_server = λ i s. (keep (λ v. not (same v.id i)) s, ok tt);
  post = λ u r s. (s, ok no_json);
}

members_only-remove :
    (id : Bytes) (servers s t : List Server)
    → members_only.configuration s ≡ ok servers
    → members_only.remove_server id s ≡ (t, ok tt)
    → members_only.configuration t ≡ ok (keep (λ v. not (same v.id id)) servers)
members_only-remove id servers s t c h =
    ap (λ p. ok p.0) (sym h) ∙ ap (λ r. ok (keep (λ v. not (same v.id id)) r)) (ok-injective c)

pub members_only-IsMembership : IsMembership (Dict Bytes) members_only
members_only-IsMembership = record { configuration-remove_server = members_only-remove }

-- A reply as JSON, with the code alone.
abbrev pub code_body : List Reply → Body
code_body [] = no_json
code_body (success ∷ rest) = code_text (codes "0")
code_body (r ∷ rest) = code_text (codes "500")

code_body-other :
    (r : Reply)
    → r ≢ success
    → (c : Bytes) × (code_body (r ∷ []) ≡ code_text c) × (equal_fold c (codes "0") ≡ false)
unfolding equal_fold same micro_conf.Text.Fold.lower
code_body-other success n = absurd (n refl)
code_body-other bad_request n = (codes "500", refl, refl)
code_body-other unauthorized n = (codes "500", refl, refl)
code_body-other biz_error n = (codes "500", refl, refl)
code_body-other redirect n = (codes "500", refl, refl)
code_body-other (server_error e) n = (codes "500", refl, refl)

pub code_body-IsReplyFormat : IsReplyFormat code_body
code_body-IsReplyFormat = record { success-code = refl; other-code = code_body-other }

abbrev answer_of : Dict Bytes × List Reply → Dict Bytes × Result Body
answer_of (s, rs) = (s, ok (code_body rs))

abbrev serve_request : Request → Dict Bytes → Dict Bytes × Result Body
serve_request (key_request c k v e) s =
    answer_of (key_operation memory (some (record { cmd = c; key = k; value = v; exp = e })) s)
serve_request (remove_request i a) s = (s, ok no_json)

-- A node that follows a leader with a store in memory.
abbrev pub behind : Consensus (Dict Bytes)
behind = record {
  State = Dict Bytes;
  data_of = λ s. s;
  is_leader = λ s. false;
  leader_addr = λ s. codes "10.0.0.1:9080";
  leader_id = λ s. codes "n1";
  configuration = λ s. ok [];
  apply = λ f e s. (s, err (message "node is not the leader"));
  add_voter = λ i a s. (s, err (message "node is not the leader"));
  remove_server = λ i s. (s, err (message "node is not the leader"));
  post = λ u r s. serve_request r s;
}
