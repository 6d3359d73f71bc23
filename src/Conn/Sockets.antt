-- ===== src/Conn/Sockets.antt =====
-- service/conn/client.go and websocket.go: the clients of a node, each with two goroutines, and the
-- registry that names some of them. A client is known by its position in the list of all that were
-- made; the websocket itself is a parameter. Close sets a flag under the client's lock, then closes
-- the channel, then takes the client from the registry: three steps, between which others run.
pub mod Closing
pub mod Registered
pub mod Reconnect
pub mod Written
use micro_conf.Text.Bytes.{Bytes, codes}
use micro_conf.Store.{RaftStore}
use micro_conf.Json.{Json}
use micro_conf.Dict.{Dict}
use micro_conf.Conn.Heartbeat.{HeartBeat, route_heartbeat}
use micro_conf.Conn.Clients.{get_client, register_client, unregister_client}
use micro_conf.Base.Outcome.{Call, Result, after, err, ok, panic}
use micro_conf.Base.{
  Bool, List, Option, [], false, if◌then◌else◌, length, ltb, none, some, suc, true, zero, ◌++◌, ◌∷◌,
  ◌≡◌, ℕ,
}

pub record Client : Type 0 where
  pub key : Bytes
  pub queue : List Bytes
  -- The flag that Close sets first.
  pub closed : Bool
  -- Whether the channel is closed.
  pub shut : Bool
  -- Whether Close has come past unregisterClient.
  pub left : Bool

pub record Node : Type 0 where
  pub made : List Client
  pub clients : Dict ℕ

abbrev pub no_clients : Node
no_clients = record { made = []; clients = [] }

abbrev pub get_elem? {ℓ} : {A : Type ℓ} → List A → ℕ → Option A
get_elem? [] n = none
get_elem? (x ∷ xs) zero = some x
get_elem? (x ∷ xs) (suc n) = get_elem? xs n

abbrev pub modify {ℓ} : {A : Type ℓ} → (A → A) → List A → ℕ → List A
modify f [] n = []
modify f (x ∷ xs) zero = f x ∷ xs
modify f (x ∷ xs) (suc n) = x ∷ modify f xs n

-- The channel of a client holds 256 messages.
abbrev pub queue_size : ℕ
queue_size = 256

-- Send: none where the sender waits for room. The panic of a send on a closed channel is recovered.
unfoldable pub send : Bytes → Client → Option Client
send msg c =
    if c.shut
    then some c
    else if ltb (length c.queue) queue_size
    then some (record c { queue = c.queue ++ msg ∷ [] })
    else none

-- The first step of Close, under the client's lock.
unfoldable pub mark_closed : ℕ → Node → Node
mark_closed i n = record n { made = modify (λ c. record c { closed = true }) n.made i }

-- The second: close(c.send).
unfoldable pub close_channel : ℕ → Node → Node
close_channel i n = record n { made = modify (λ c. record c { shut = true }) n.made i }

-- The third: unregisterClient(c). Closing the websocket, which comes after, changes nothing here.
unfoldable pub leave_registry : ℕ → Node → Node
unfolding unregister_client
leave_registry i n = elim (get_elem? n.made i) [
  | none ↦ n
  | some c ↦ record {
    made = modify (λ d. record d { left = true }) n.made i;
    clients = unregister_client c.key n.clients;
  }
]

-- The steps of Close where nobody runs between them. A step that is already done changes nothing
-- when it is done again.
unfoldable pub finish_close : ℕ → Node → Node
unfolding mark_closed close_channel leave_registry
finish_close i n = leave_registry i (close_channel i (mark_closed i n))

-- A Close of the client at a position that runs alone.
unfoldable pub close : ℕ → Node → Node
unfolding finish_close
close i n = elim (get_elem? n.made i) [
  | none ↦ n
  | some c ↦ if c.closed then n else finish_close i n
]

abbrev pub fresh_client : Bytes → Client
fresh_client key = record { key = key; queue = []; closed = false; shut = false; left = false }

-- The end of serveWs: a new client under a key.
unfoldable pub join_client : Bytes → Node → Node
unfolding register_client
join_client key n = record {
  made = n.made ++ fresh_client key ∷ [];
  clients = register_client key (length n.made) n.clients;
}

-- serveWs: the client that it asks to close, and the node behind it. `upgraded` tells whether the
-- connection becomes a websocket.
unfoldable pub serve_ws : Bytes → (upgraded : Bool) → Node → Option ℕ × Node
unfolding get_client join_client
serve_ws key upgraded n = (get_client key n.clients, if upgraded then join_client key n else n)

-- What the loop of Write takes: a message, the end of the closed channel, or a tick of the clock.
pub data Pulled : Type 0 where
  pulled : Bytes → Pulled
  drained : Pulled
  tick : Pulled

-- What the select of Write takes from the channel: none where it waits.
unfoldable pub pull_from : Client → List Bytes → Option (Pulled × Client)
pull_from c [] = if c.shut then some (drained, c) else none
pull_from c (msg ∷ queue) = some (pulled msg, record c { queue = queue })

unfoldable pub pull : Client → Option (Pulled × Client)
unfolding pull_from
pull c = pull_from c c.queue

-- gorilla/websocket on the state `W` of a connection.
pub record WebSocket (W : Type 0) : Type 0 where
  pub set_read_limit : ℕ → W → W
  pub set_read_deadline : Call W (Unit {0})
  pub set_write_deadline : Call W (Unit {0})
  pub write_close : Bytes → Call W (Unit {0})
  pub write_ping : Call W (Unit {0})
  pub next_writer : Call W (Unit {0})
  pub write : Bytes → Call W (Unit {0})
  pub flush : Call W (Unit {0})

module _ {W : Type 0} (ws : WebSocket W) where
  -- A call whose error ends the loop: the result tells whether the loop goes on.
  abbrev pub or_leave : Call W (Unit {0}) → Call W Bool → Call W Bool
  or_leave m k w = let (v, r) = m w in elim r [ err e ↦ (v, ok false) | ok a ↦ k v ]

  -- One turn of the loop of Write. Where the message cannot be written, the log line reads the nil
  -- error of the call before.
  unfoldable pub write_turn : Pulled → Call W Bool
  write_turn (pulled msg) = or_leave ws.set_write_deadline (
      or_leave ws.next_writer (λ w.
        let (v, r) = ws.write msg w in
        elim r [ err e ↦ (v, err panic) | ok a ↦ or_leave ws.flush (λ u. (u, ok true)) v ]))
  write_turn drained =
      or_leave ws.set_write_deadline (or_leave (ws.write_close []) (λ w. (w, ok false)))
  write_turn tick = or_leave ws.set_write_deadline (or_leave ws.write_ping (λ w. (w, ok true)))

  -- What Read does before its loop: whether it goes on to it. The pong handler, which is set there,
  -- is the next function.
  unfoldable pub read_begin : Call W Bool
  read_begin w = or_leave ws.set_read_deadline (λ v. (v, ok true)) (ws.set_read_limit 512 w)

  unfoldable pub on_pong : Call W (Unit {0})
  on_pong w = ws.set_read_deadline w

  -- TryClose
  unfoldable pub try_close : W → W
  try_close w = (ws.write_close (codes "tryClose connection closing old...") w).0

  -- What the select of Write does with a side that is ready: the channel or the clock.
  unfoldable pub select_turn : (channel : Bool) → Call (Client × W) Bool
  unfolding pull write_turn
  select_turn true (c, w) = elim (pull c) [
    | none ↦ ((c, w), ok true)
    | some (p, d) ↦ let (v, r) = write_turn p w in ((d, v), r)
  ]
  select_turn false (c, w) = let (v, r) = write_turn tick w in ((c, v), r)

  -- The loop of Write along the sides that its selects look at.
  unfoldable pub write_loop : List Bool → Call (Client × W) Bool
  unfolding select_turn
  write_loop [] s = (s, ok true)
  write_loop (channel ∷ turns) s =
      after (select_turn channel s)
        (λ t more. elim more [ true ↦ write_loop turns t | false ↦ (t, ok false) ])

-- One turn of the loop of Read: a message that is no heartbeat is skipped, an error ends the loop.
module _ (rs : RaftStore) (marshal : List (Bytes × Bytes) → Bytes) (beats : Json HeartBeat) where
  unfoldable pub read_turn : Result Bytes → Call rs.State Bool
  read_turn (err e) s = (s, ok false)
  read_turn (ok body) s = elim (beats.unmarshal body) [
    | none ↦ (s, ok true)
    | some info ↦ after (route_heartbeat rs marshal info s) (λ t a. (t, ok true))
  ]

-- What may happen to the clients of a node, in any order: a request for a websocket, a message to
-- a client, a message or the end of the channel that its Write takes, and the steps of the Close
-- that the two goroutines of a client end with: the one that finds the flag set returns at once.
pub data Step (n : Node) : Node → Type 0 where
  serve : (key : Bytes) (upgraded : Bool) → Step n (serve_ws key upgraded n).1
  deliver :
      (i : ℕ) (msg : Bytes) {c d : Client}
      → get_elem? n.made i ≡ some c
      → send msg c ≡ some d
      → Step n (record n { made = modify (λ x. d) n.made i })
  taken :
      (i : ℕ) (p : Pulled) {c d : Client}
      → get_elem? n.made i ≡ some c
      → pull c ≡ some (p, d)
      → Step n (record n { made = modify (λ x. d) n.made i })
  marking :
      (i : ℕ) {c : Client}
      → get_elem? n.made i ≡ some c
      → c.closed ≡ false
      → Step n (mark_closed i n)
  shutting :
      (i : ℕ) {c : Client}
      → get_elem? n.made i ≡ some c
      → c.closed ≡ true
      → c.shut ≡ false
      → Step n (close_channel i n)
  unregistering :
      (i : ℕ) {c : Client}
      → get_elem? n.made i ≡ some c
      → c.shut ≡ true
      → c.left ≡ false
      → Step n (leave_registry i n)

pub data Reach : Node → Type 0 where
  fresh_node : Reach no_clients
  onward : {m n : Node} → Reach m → Step m n → Reach n
