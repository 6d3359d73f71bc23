-- ===== src/Cfg/Push/Queue.antt =====
-- The sends of doPush beside the loop of Write of the client that gets them.
pub mod Order
use micro_conf.Conn.Sockets.{Client, WebSocket, select_turn, send}
use micro_conf.Text.Bytes.{Bytes}
use micro_conf.Base.{false, Bool, List, [], if◌then◌else◌, none, some, ◌∷◌}
use micro_conf.Base.Outcome.{Result, err, ok}

-- The messages that doPush has still to send, the client, its connection, and whether its loop of
-- Write runs.
pub record Pushing (W : Type 0) : Type 0 where
  pub pending : List Bytes
  pub client : Client
  pub conn : W
  pub writing : Bool

-- Who is next: doPush with a send, or the select of Write, which looks at the channel or the clock.
pub data Turn : Type 0 where
  sending : Turn
  selecting : (channel : Bool) → Turn

-- A turn of the loop that fails ends it.
unfoldable pub goes_on : Result Bool → Bool
goes_on (ok more) = more
goes_on (err e) = false

module _ {W : Type 0} (ws : WebSocket W) where
  unfoldable pub send_next : List Bytes → Pushing W → Pushing W
  unfolding send
  send_next [] p = p
  send_next (msg ∷ rest) p = elim (send msg p.client) [
    | none ↦ p
    | some d ↦ record p { pending = rest; client = d }
  ]

  unfoldable pub push_turn : Turn → Pushing W → Pushing W
  unfolding send_next select_turn goes_on
  push_turn sending p = send_next p.pending p
  push_turn (selecting channel) p =
      if p.writing
      then (let (s, r) = select_turn ws channel (p.client, p.conn) in
          record p { client = s.0; conn = s.1; writing = goes_on r })
      else p

  unfoldable pub push_turns : List Turn → Pushing W → Pushing W
  unfolding push_turn
  push_turns [] p = p
  push_turns (t ∷ ts) p = push_turns ts (push_turn t p)
