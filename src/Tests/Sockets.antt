-- ===== src/Tests/Sockets.antt =====
-- A client that connects twice, and a text that cannot be written.
use micro_conf.Conn.Sockets.Closing.{close-Reach}
use micro_conf.Samples.Wire.{working, working-IsOpen}
use micro_conf.Conn.Sockets.Written.{Drained, write_loop-Drained}
use micro_conf.Dict.{insert, lookup}
use micro_conf.Text.Bytes.{same, codes}
use micro_conf.Conn.Sockets.Registered.{IsRegistry, Reach-IsRegistry}
use micro_conf.Conn.Sockets.Reconnect.{close-serve_ws}
use micro_conf.Conn.Sockets.{
  close, close_channel, fresh_client, leave_registry, mark_closed, Client, marking, shutting,
  unregistering, write_loop, Node, Reach, WebSocket, finish_close, drained, get_elem?, onward,
  no_clients, pulled, serve, serve_ws, fresh_node, tick, write_turn,
}
use micro_conf.Conn.Clients.{get_client}
use micro_conf.Base.Outcome.{err, message, ok, panic}
use micro_conf.Base.{arith, ◌∷◌, [], false, none, refl, some, true, ◌≡◌, ℕ}

abbrev first_node : Node
first_node = (serve_ws (codes "a:10.0.0.1:80") true no_clients).1

first-Reach : Reach first_node
first-Reach = onward fresh_node (serve (codes "a:10.0.0.1:80") true)

-- The goroutines of the first client end: one of them sets the flag and closes the channel.
abbrev half_closed : Node
half_closed = close_channel 0 (mark_closed 0 first_node)

half_closed-Reach : Reach half_closed
unfolding mark_closed serve_ws
half_closed-Reach = onward (onward first-Reach (marking 0 refl refl)) (shutting 0 refl refl refl)

-- The registry still names the client, whose channel is closed.
still_named :
    (get_client (codes "a:10.0.0.1:80") half_closed.clients ≡ some 0)
    × (get_elem? half_closed.made 0
        ≡ some (record (fresh_client (codes "a:10.0.0.1:80")) { closed = true; shut = true }))
unfolding get_client lookup serve_ws insert same mark_closed close_channel
still_named = (refl, refl)

Reach-IsRegistry_example : IsRegistry (leave_registry 0 half_closed)
unfolding close_channel mark_closed serve_ws
Reach-IsRegistry_example =
    Reach-IsRegistry (onward half_closed-Reach (unregistering 0 refl refl refl))

-- The other goroutine finds the flag set.
second_close : close 0 half_closed ≡ half_closed
unfolding close mark_closed close_channel serve_ws
second_close = refl

closed_alone : Reach (close 0 first_node)
closed_alone = close-Reach 0 first-Reach

abbrev second_node : Node
second_node = (serve_ws (codes "a:10.0.0.1:80") true first_node).1

close-serve_ws_example :
    ((serve_ws (codes "a:10.0.0.1:80") true first_node).0 ≡ some 0)
    × (get_client (codes "a:10.0.0.1:80") (finish_close 0 second_node).clients ≡ none)
    × (get_elem? (finish_close 0 second_node).made 1 ≡ some (fresh_client (codes "a:10.0.0.1:80")))
unfolding get_client lookup serve_ws insert same
close-serve_ws_example = close-serve_ws (codes "a:10.0.0.1:80") 0 first_node first-Reach refl

abbrev broken : WebSocket ℕ
broken = record {
  set_read_limit = λ n w. w;
  set_read_deadline = λ w. (w, ok tt);
  set_write_deadline = λ w. (w, ok tt);
  write_close = λ d w. (w, ok tt);
  write_ping = λ w. (w, ok tt);
  next_writer = λ w. (w, ok tt);
  write = λ s w. (w, err (message "broken pipe"));
  flush = λ w. (w, ok tt);
}

-- The log line of a message that is not written reads a nil error.
unwritten : write_turn broken (pulled (codes "m")) 0 ≡ (0, err panic)
unfolding write_turn
unwritten = refl

ticks : write_turn broken tick 0 ≡ (0, ok true)
unfolding write_turn
ticks = refl

ends : write_turn broken drained 0 ≡ (0, ok false)
unfolding write_turn
ends = refl

abbrev waiting : Client
waiting = record {
  key = codes "a";
  queue = codes "one" ∷ codes "two" ∷ [];
  closed = true;
  shut = true;
  left = false;
}

write_loop-Drained_example :
    Drained working
      (λ w. w.0)
      working-IsOpen
      (write_loop working (true ∷ false ∷ true ∷ true ∷ []) (waiting, ([], [])))
      true
      (codes "one" ∷ codes "two" ∷ [])
write_loop-Drained_example =
    write_loop-Drained working (λ w. w.0) working-IsOpen (true ∷ false ∷ true ∷ true ∷ []) waiting
      ([], []) (omega arith)
