-- ===== src/Tests/Pushes.antt =====
-- The events of a difference, a client that comes back, and the peers that are not told.
use micro_conf.Samples.Wire.{working, working-IsOpen}
use micro_conf.Cfg.Push.Queue.Order.{InOrder, push_turns-InOrder, in_turn, under_way}
use micro_conf.Cfg.Push.Queue.{selecting, sending, push_turns}
use micro_conf.Cfg.Push.Delivered.{messages, push-Agrees}
use micro_conf.Text.Fold.{equal_fold, lower}
use micro_conf.Text.Split.{split}
use micro_conf.Text.Decimal.{atoi, format_int, pos, ℤ}
use micro_conf.Text.Bytes.{same, Bytes, codes}
use micro_conf.Raft.Cluster.{PeerState, Server}
use micro_conf.Dict.{insert, remove, Dict, IsMap, lookup}
use micro_conf.Conn.Clients.{get_client}
use micro_conf.Samples.Pack.{events}
use micro_conf.Cfg.Push.Wait.{Absent, find_client-bounds}
use micro_conf.Cfg.Push.Replay.{replay_events}
use micro_conf.Cfg.Push.{ConfigChangeEvent, events_of, find_client, follower_url, reconnect_time}
use micro_conf.Cfg.Differ.Same.{Agrees}
use micro_conf.Cfg.Differ.{place_new, place_old, scan_new, scan_old, build_namespace_diff}
use micro_conf.Base.Outcome.{ok}
use micro_conf.Base.{
  map, ◌++◌, false, true, arith, List, [], if◌then◌else◌, ltb, none, refl, some, suc, ◌+◌, ◌∷◌, ◌≡◌,
  ◌≤◌, ◌⊎◌, ℕ,
}

abbrev before_push : Dict Bytes
before_push = (codes "a", codes "1") ∷ (codes "b", codes "on") ∷ (codes "c", codes "y") ∷ []

abbrev after_push : Dict Bytes
after_push = (codes "a", codes "2") ∷ (codes "b", codes "ON") ∷ (codes "d", codes "w") ∷ []

before_push-IsMap : IsMap before_push
unfolding lookup same
before_push-IsMap = (refl, (refl, (refl, tt)))

after_push-IsMap : IsMap after_push
unfolding lookup same
after_push-IsMap = (refl, (refl, (refl, tt)))

abbrev pushed : List ConfigChangeEvent
pushed =
    events_of (codes "app") (codes "g")
      (build_namespace_diff (codes "x.yaml") before_push after_push)

-- The text that only changed its case stays.
replayed :
    replay_events pushed before_push
    ≡ (codes "a", codes "2") ∷ (codes "b", codes "on") ∷ (codes "d", codes "w") ∷ []
unfolding events_of build_namespace_diff scan_new place_new lookup same insert scan_old place_old
    equal_fold lower remove
replayed = refl

-- A client that is connected in the seconds from 103 on.
abbrev registry : ℕ → Dict ℕ
registry t = if ltb t 103 then [] else (codes "app:10.0.0.1:80", 7) ∷ []

awaited : find_client registry (codes "app:10.0.0.1:80") 100 ≡ (103, some 7)
unfolding find_client lookup same
awaited = refl

missed : find_client registry (codes "app:10.0.0.2:80") 100 ≡ (130, none)
unfolding find_client lookup same
missed = refl

find_client-bounds_example :
    ((n : ℕ) × (c : ℕ) × (n ≤ reconnect_time)
      × Absent registry (codes "k") 100 n
      × (get_client (codes "k") (registry (100 + n)) ≡ some c)
      × (find_client registry (codes "k") 100 ≡ (100 + n, some c)))
    ⊎ (Absent registry (codes "k") 100 (suc reconnect_time)
        × (find_client registry (codes "k") 100 ≡ (100 + reconnect_time, none)))
find_client-bounds_example = find_client-bounds registry (codes "k") 100

abbrev own : Server
own = record { id = codes "n2"; address = codes "10.0.0.2:9000"; suffrage = codes "Voter" }

abbrev others : List Server
others = record { id = codes "n1"; address = codes "10.0.0.1:9000"; suffrage = codes "Voter" } ∷ []

abbrev peer : PeerState
peer = record {
  id = codes "n1";
  addr = codes "10.0.0.1:9000";
  role = codes "leader";
  state = codes "Voter";
}

abbrev unread : Bytes → ℤ
unread s = pos 0

follower :
    follower_url unread (split b':' peer.addr) ≡ ok (codes "http://10.0.0.1:8000/api/cfg/listen")
unfolding follower_url split format_int atoi
follower = refl

push-Agrees_example :
    (v : List Bytes × Bytes) × (es : List ConfigChangeEvent) × (push_turns working (in_turn 9) (
        under_way
          (codes "app:10.0.0.1:80")
          (messages events (codes "app") (codes "g") (codes "x.yaml") before_push after_push)
          (codes "old" ∷ [])
          ([], []))
      ≡ under_way (codes "app:10.0.0.1:80") [] [] v)
    × (v.0 ≡ codes "old" ∷ map (λ e. events.marshal e ++ 1 ∷ []) es)
    × Agrees (lookup (codes "a") (replay_events es before_push)) (lookup (codes "a") after_push)
unfolding events_of build_namespace_diff scan_new place_new lookup same insert scan_old place_old
    equal_fold lower remove
push-Agrees_example =
    push-Agrees working (λ w. w.0) working-IsOpen events (codes "app") (codes "g") (codes "x.yaml")
      before_push after_push (codes "app:10.0.0.1:80") (codes "old" ∷ []) ([], []) 9 (codes "a")
      (omega arith) before_push-IsMap after_push-IsMap refl

-- A send, a tick and a message that is taken.
push_turns-InOrder_example :
    InOrder working
      (λ w. w.0)
      working-IsOpen
      (codes "a")
      (push_turns working
        (sending ∷ selecting false ∷ selecting true ∷ [])
        (under_way (codes "a") (codes "two" ∷ codes "three" ∷ []) (codes "one" ∷ []) ([], [])))
      (codes "two" ∷ codes "three" ∷ [])
      (codes "one" ∷ [])
      ([], [])
push_turns-InOrder_example =
    push_turns-InOrder working (λ w. w.0) working-IsOpen (codes "a")
      (sending ∷ selecting false ∷ selecting true ∷ []) (codes "two" ∷ codes "three" ∷ [])
      (codes "one" ∷ []) ([], [])
