-- ===== src/Conn/Sockets/Written.antt =====
-- What the loop of Write sends to a client.
use micro_conf.Text.Bytes.{Bytes}
use micro_conf.Conn.Sockets.{
  Client, pull, pull_from, select_turn, write_loop, or_leave, WebSocket, drained, pulled, tick,
  write_turn,
}
use micro_conf.Base.Outcome.{after, Call, Result, err, panic, ok}
use mathlib.Core.Path.{subst}
use micro_conf.Base.{
  arith, length, refl, sym, ◌≤◌, ap, ◌∙◌, append-nil, append_assoc, if◌then◌else◌, not, ◌+◌, List,
  [], Bool, false, true, ◌++◌, ◌∷◌, ◌≡◌, ℕ,
}

-- How often the selects of the loop look at the channel.
abbrev pub channel_turns : List Bool → ℕ
channel_turns [] = 0
channel_turns (true ∷ turns) = 1 + channel_turns turns
channel_turns (false ∷ turns) = channel_turns turns

-- What gorilla/websocket documents of a connection on which no write fails: a writer's message is
-- sent when it is closed, and control frames are no messages. `texts` is what the peer has got.
pub record IsOpen {W : Type 0} (ws : WebSocket W) (texts : W → List Bytes) : Type 0 where
  pub deadline :
      (w : W)
      → ((ws.set_write_deadline w).1 ≡ ok tt) × (texts (ws.set_write_deadline w).0 ≡ texts w)
  pub close_frame :
      (payload : Bytes) (w : W)
      → ((ws.write_close payload w).1 ≡ ok tt) × (texts (ws.write_close payload w).0 ≡ texts w)
  pub ping : (w : W) → ((ws.write_ping w).1 ≡ ok tt) × (texts (ws.write_ping w).0 ≡ texts w)
  pub next_writer-ok : (w : W) → (ws.next_writer w).1 ≡ ok tt
  pub write-ok : (msg : Bytes) (w : W) → (ws.write msg w).1 ≡ ok tt
  pub flush-ok : (w : W) → (ws.flush w).1 ≡ ok tt
  pub texts-flush :
      (msg : Bytes) (w : W)
      → texts (ws.flush (ws.write msg (ws.next_writer w).0).0).0 ≡ texts w ++ msg ∷ []

module _ {W : Type 0} (ws : WebSocket W) where
  or_leave-ok :
      (m : Call W (Unit {0})) (k : Call W Bool) (w : W)
      → (m w).1 ≡ ok tt
      → or_leave ws m k w ≡ k (m w).0
  or_leave-ok m k w h = ap (λ r. elim r [ err e ↦ ((m w).0, ok false) | ok a ↦ k (m w).0 ]) h

module _ {W : Type 0} (ws : WebSocket W) (texts : W → List Bytes) (free : IsOpen ws texts) where
  -- After a turn the loop goes on or not, and the peer has got those texts.
  abbrev pub Sends : W × Result Bool → Bool → List Bytes → Type 0
  Sends p more got = (p.1 ≡ ok more) × (texts p.0 ≡ got)

  written :
      (msg : Bytes) (w : W)
      → write_turn ws (pulled msg) w
        ≡ ((ws.flush (ws.write msg (ws.next_writer (ws.set_write_deadline w).0).0).0).0, ok true)
  unfolding write_turn
  written msg w =
      let v = (ws.set_write_deadline w).0 in
      let u = (ws.next_writer v).0 in
      let x = (ws.write msg u).0 in
      let put : Call W Bool = λ y.
        let (z, r) = ws.write msg y in
        elim r [ err e ↦ (z, err panic) | ok a ↦ or_leave ws ws.flush (λ u. (u, ok true)) z ] in
      or_leave-ok ws ws.set_write_deadline (or_leave ws ws.next_writer put) w (free.deadline w).0
      ∙ or_leave-ok ws ws.next_writer put v (free.next_writer-ok v)
      ∙ ap
          (λ r. elim r [
            | err e ↦ (x, err panic)
            | ok a ↦ or_leave ws ws.flush (λ u. (u, ok true)) x
          ])
          (free.write-ok msg u)
      ∙ or_leave-ok ws ws.flush (λ u. (u, ok true)) x (free.flush-ok x)

  pub write_turn-pulled :
      (msg : Bytes) (w : W) → Sends (write_turn ws (pulled msg) w) true (texts w ++ msg ∷ [])
  write_turn-pulled msg w = (
    ap (λ p. p.1) (written msg w),
    ap (λ p. texts p.0) (written msg w)
        ∙ free.texts-flush msg (ws.set_write_deadline w).0
        ∙ ap (λ g. g ++ msg ∷ []) (free.deadline w).1,
  )

  write_turn-drained : (w : W) → Sends (write_turn ws drained w) false (texts w)
  unfolding write_turn
  write_turn-drained w =
      let v = (ws.set_write_deadline w).0 in
      let e =
        or_leave-ok ws ws.set_write_deadline (or_leave ws (ws.write_close []) (λ x. (x, ok false)))
          w (free.deadline w).0
        ∙ or_leave-ok ws (ws.write_close []) (λ x. (x, ok false)) v (free.close_frame [] v).0 in
      (ap (λ p. p.1) e, ap (λ p. texts p.0) e ∙ (free.close_frame [] v).1 ∙ (free.deadline w).1)

  pub write_turn-tick : (w : W) → Sends (write_turn ws tick w) true (texts w)
  unfolding write_turn
  write_turn-tick w =
      let v = (ws.set_write_deadline w).0 in
      let e =
        or_leave-ok ws ws.set_write_deadline (or_leave ws ws.write_ping (λ x. (x, ok true))) w
          (free.deadline w).0
        ∙ or_leave-ok ws ws.write_ping (λ x. (x, ok true)) v (free.ping v).0 in
      (ap (λ p. p.1) e, ap (λ p. texts p.0) e ∙ (free.ping v).1 ∙ (free.deadline w).1)

  -- One turn of the loop: it goes on with the next, or ends.
  loop_on :
      (channel : Bool) (turns : List Bool) (s t : Client × W)
      → select_turn ws channel s ≡ (t, ok true)
      → write_loop ws (channel ∷ turns) s ≡ write_loop ws turns t
  unfolding write_loop
  loop_on channel turns s t h =
      ap
        (λ p.
          after p (λ t more. elim more [ true ↦ write_loop ws turns t | false ↦ (t, ok false) ]))
        h

  loop_off :
      (channel : Bool) (turns : List Bool) (s t : Client × W)
      → select_turn ws channel s ≡ (t, ok false)
      → write_loop ws (channel ∷ turns) s ≡ (t, ok false)
  unfolding write_loop
  loop_off channel turns s t h =
      ap
        (λ p.
          after p (λ t more. elim more [ true ↦ write_loop ws turns t | false ↦ (t, ok false) ]))
        h

  -- The peer has got the texts, nothing is left in the channel, and the loop goes on unless the
  -- channel is closed.
  abbrev pub Drained : (Client × W) × Result Bool → Bool → List Bytes → Type 0
  Drained p shut got = (texts p.0.1 ≡ got) × (p.0.0.queue ≡ []) × (p.1 ≡ ok (not shut))

  loop_empties :
      (turns : List Bool) (key : Bytes) (queue : List Bytes) (closed shut left : Bool) (w : W)
      → length queue + (if shut then 1 else 0) ≤ channel_turns turns
      → Drained
          (write_loop ws turns
            (record { key = key; queue = queue; closed = closed; shut = shut; left = left }, w))
          shut
          (texts w ++ queue)
  unfolding select_turn pull pull_from write_loop
  loop_empties [] key [] closed true left w h = absurd (omega (arith, h))
  loop_empties [] key [] closed false left w h = (sym (append-nil (texts w)), refl, refl)
  loop_empties [] key (msg ∷ queue) closed shut left w h = absurd (ground (arith, h))
  loop_empties (false ∷ turns) key queue closed shut left w h =
      let c : Client = record {
        key = key;
        queue = queue;
        closed = closed;
        shut = shut;
        left = left;
      } in
      let (r, g) = write_turn-tick w in
      let v = (write_turn ws tick w).0 in
      subst (λ p. Drained p shut (texts w ++ queue))
        (sym (loop_on false turns (c, w) (c, v) (ap (λ x. ((c, v), x)) r)))
        (subst (λ x. Drained (write_loop ws turns (c, v)) shut (x ++ queue)) g
          (loop_empties turns key queue closed shut left v h))
  loop_empties (true ∷ turns) key [] closed true left w h =
      let c : Client = record {
        key = key;
        queue = [];
        closed = closed;
        shut = true;
        left = left;
      } in
      let (r, g) = write_turn-drained w in
      let v = (write_turn ws drained w).0 in
      subst (λ p. Drained p true (texts w ++ []))
        (sym (loop_off true turns (c, w) (c, v) (ap (λ x. ((c, v), x)) r)))
        (g ∙ sym (append-nil (texts w)), refl, refl)
  loop_empties (true ∷ turns) key [] closed false left w h =
      loop_empties turns key [] closed false left w (omega arith)
  loop_empties (true ∷ turns) key (msg ∷ queue) closed shut left w h =
      let c : Client = record {
        key = key;
        queue = msg ∷ queue;
        closed = closed;
        shut = shut;
        left = left;
      } in
      let d : Client = record {
        key = key;
        queue = queue;
        closed = closed;
        shut = shut;
        left = left;
      } in
      let (r, g) = write_turn-pulled msg w in
      let v = (write_turn ws (pulled msg) w).0 in
      subst (λ p. Drained p shut (texts w ++ msg ∷ queue))
        (sym (loop_on true turns (c, w) (d, v) (ap (λ x. ((d, v), x)) r)))
        (subst (λ x. Drained (write_loop ws turns (d, v)) shut x)
          (ap (λ x. x ++ queue) g ∙ append_assoc (texts w) (msg ∷ []) queue)
          (loop_empties turns key queue closed shut left v (omega (arith, h))))

  -- On a connection on which no write fails: whatever the order in which the selects of Write look
  -- at the channel and at the clock, once they have looked at the channel as often as it holds
  -- messages, and once more where it is closed, the peer has got all of them in their order, the
  -- channel is empty, and the loop has ended exactly where the channel is closed.
  pub write_loop-Drained :
      (turns : List Bool) (c : Client) (w : W)
      → length c.queue + (if c.shut then 1 else 0) ≤ channel_turns turns
      → Drained (write_loop ws turns (c, w)) c.shut (texts w ++ c.queue)
  write_loop-Drained turns c w h = loop_empties turns c.key c.queue c.closed c.shut c.left w h
