-- ===== src/Cfg/Push/Queue/Order.antt =====
-- The order of the texts that a push sends.
use micro_conf.Cfg.Push.Queue.{
  Pushing, Turn, sending, selecting, goes_on, send_next, push_turn, push_turns,
}
use micro_conf.Conn.Sockets.{
  Client, WebSocket, pulled, tick, queue_size, write_turn, send, pull, pull_from, select_turn,
}
use micro_conf.Conn.Sockets.Written.{IsOpen, write_turn-pulled, write_turn-tick}
use micro_conf.Text.Bytes.{same, Bytes}
use micro_conf.Base.{
  Bool, Bool-cases, List, Option, [], ap, append_assoc, append-nil, arith, false, if◌then◌else◌,
  inl, inr, length, length-append, ltb, none, refl, some, sym, true, ℕ, zero, suc, ◌++◌, ◌+◌, ◌-◌,
  ◌≤◌, ◌∙◌, ◌∷◌, ◌≡◌, ◌⊎◌,
}

-- doPush and Write in turn, n times.
abbrev pub in_turn : ℕ → List Turn
in_turn zero = []
in_turn (suc n) = sending ∷ selecting true ∷ in_turn n

module _ {W : Type 0} (key : Bytes) where
  -- A client that is open, and whose loop of Write runs.
  abbrev pub under_way : List Bytes → List Bytes → W → Pushing W
  under_way pending queue w = record {
    pending = pending;
    client = record { key = key; queue = queue; closed = false; shut = false; left = false };
    conn = w;
    writing = true;
  }

module _ {W : Type 0} (ws : WebSocket W) (texts : W → List Bytes) (free : IsOpen ws texts)
    (key : Bytes) where
  -- Nothing is lost, doubled or put in another order.
  abbrev Keeps : Pushing W → List Bytes → List Bytes → W → ℕ → Type 0
  Keeps p pending queue w left =
      (ms : List Bytes) × (q : List Bytes) × (v : W) × (p ≡ under_way key ms q v)
      × (texts v ++ (q ++ ms) ≡ texts w ++ (queue ++ pending))
      × (length q + length ms ≡ left)

  -- Something is in the channel, or nothing is left at all.
  abbrev Filled : List Bytes → List Bytes → Type 0
  Filled q ms = (1 ≤ length q) ⊎ (length q + length ms ≡ 0)

  -- A send to a client that is open, by whether there is room.
  room : (m : Bytes) (ms q : List Bytes) (w : W) → Bool → Pushing W
  room m ms q w b =
      let sent : Option Client =
        if b
        then some
            (record { key = key; queue = q ++ m ∷ []; closed = false; shut = false; left = false })
        else none in
      elim sent [
        | none ↦ under_way key (m ∷ ms) q w
        | some d ↦ record (under_way key (m ∷ ms) q w) { pending = ms; client = d }
      ]

  sending-room :
      (m : Bytes) (ms q : List Bytes) (w : W) (b : Bool)
      → ltb (length q) queue_size ≡ b
      → push_turn ws sending (under_way key (m ∷ ms) q w) ≡ room m ms q w b
  unfolding push_turn send_next send room
  sending-room m ms q w b e = ap (room m ms q w) e

  sending-Keeps :
      (ms q : List Bytes) (w : W)
      → (ms' : List Bytes) × (q' : List Bytes) × (push_turn ws sending (under_way key ms q w)
          ≡ under_way key ms' q' w)
        × (q' ++ ms' ≡ q ++ ms)
        × Filled q' ms'
  unfolding push_turn send_next room
  sending-Keeps [] [] w = ([], [], refl, refl, inr refl)
  sending-Keeps [] (x ∷ q) w = ([], x ∷ q, refl, refl, inl (omega arith))
  sending-Keeps (m ∷ ms) q w = elim (Bool-cases (ltb (length q) queue_size)) [
    | inl e ↦ (
      ms,
      q ++ m ∷ [],
      sending-room m ms q w true e,
      append_assoc q (m ∷ []) ms,
      inl (omega (arith, length-append q (m ∷ []))),
    )
    | inr e ↦ (m ∷ ms, q, sending-room m ms q w false e, refl, inl (ground (arith, e)))
  ]

  clock-Keeps :
      (ms q : List Bytes) (w : W)
      → Keeps (push_turn ws (selecting false) (under_way key ms q w)) ms q w (length q + length ms)
  unfolding push_turn select_turn goes_on
  clock-Keeps ms q w =
      let (r, g) = write_turn-tick ws texts free w in
      (
        ms,
        q,
        (write_turn ws tick w).0,
        ap (λ x. record (under_way key ms q (write_turn ws tick w).0) { writing = goes_on x }) r,
        ap (λ x. x ++ (q ++ ms)) g,
        refl,
      )

  channel-Keeps :
      (ms q : List Bytes) (w : W)
      → Keeps
          (push_turn ws (selecting true) (under_way key ms q w))
          ms
          q
          w
          (length q - 1 + length ms)
  unfolding push_turn select_turn goes_on pull pull_from
  channel-Keeps ms [] w = (ms, [], w, refl, refl, refl)
  channel-Keeps ms (m ∷ q) w =
      let (r, g) = write_turn-pulled ws texts free m w in
      let v = (write_turn ws (pulled m) w).0 in
      (
        ms,
        q,
        v,
        ap (λ x. record (under_way key ms q v) { writing = goes_on x }) r,
        ap (λ x. x ++ (q ++ ms)) g ∙ append_assoc (texts w) (m ∷ []) (q ++ ms),
        omega arith,
      )

  round-Keeps :
      (ms q : List Bytes) (w : W)
      → Keeps
          (push_turn ws (selecting true) (push_turn ws sending (under_way key ms q w)))
          ms
          q
          w
          (length q + length ms - 1)
  round-Keeps ms q w =
      let (ms', q', e, same, filled) = sending-Keeps ms q w in
      let (ms'', q'', v, f, in_order, left) = channel-Keeps ms' q' w in
      let sum : length q' + length ms' ≡ length q + length ms =
        sym (length-append q' ms') ∙ ap length same ∙ length-append q ms in
      (
        ms'',
        q'',
        v,
        ap (push_turn ws (selecting true)) e ∙ f,
        in_order ∙ ap (λ x. texts w ++ x) same,
        omega (arith, left, sum, filled),
      )

  -- The client is open, its loop runs, and nothing is lost, doubled or put in another order.
  abbrev pub InOrder : Pushing W → List Bytes → List Bytes → W → Type 0
  InOrder p pending queue w =
      (ms : List Bytes) × (q : List Bytes) × (v : W) × (p ≡ under_way key ms q v)
      × (texts v ++ (q ++ ms) ≡ texts w ++ (queue ++ pending))

  turn-InOrder :
      (t : Turn) (ms q : List Bytes) (w : W)
      → InOrder (push_turn ws t (under_way key ms q w)) ms q w
  turn-InOrder sending ms q w =
      let (ms', q', e, same, filled) = sending-Keeps ms q w in
      (ms', q', w, e, ap (λ x. texts w ++ x) same)
  turn-InOrder (selecting true) ms q w =
      let (ms', q', v, e, same, left) = channel-Keeps ms q w in (ms', q', v, e, same)
  turn-InOrder (selecting false) ms q w =
      let (ms', q', v, e, same, left) = clock-Keeps ms q w in (ms', q', v, e, same)

  -- In whatever order doPush and the selects of Write take their turns: what the peer has got, what
  -- is in the channel and what doPush has still to send are, one after the other, the same texts as
  -- before.
  pub push_turns-InOrder :
      (ts : List Turn) (ms q : List Bytes) (w : W)
      → InOrder (push_turns ws ts (under_way key ms q w)) ms q w
  unfolding push_turns
  push_turns-InOrder [] ms q w = (ms, q, w, refl, refl)
  push_turns-InOrder (t ∷ ts) ms q w =
      let (ms', q', v, e, same) = turn-InOrder t ms q w in
      let (ms'', q'', u, f, later_order) = push_turns-InOrder ts ms' q' v in
      (ms'', q'', u, ap (push_turns ws ts) e ∙ f, later_order ∙ same)

  -- If they take turns, as often as there are texts in the channel and to send, then the peer has
  -- got all of them in their order.
  pub push_turns-in_turn :
      (n : ℕ) (ms q : List Bytes) (w : W)
      → length q + length ms ≤ n
      → (v : W) × (push_turns ws (in_turn n) (under_way key ms q w) ≡ under_way key [] [] v)
        × (texts v ≡ texts w ++ (q ++ ms))
  unfolding push_turns
  push_turns-in_turn zero [] [] w h = (w, refl, sym (append-nil (texts w)))
  push_turns-in_turn zero (m ∷ ms) q w h = absurd (omega (arith, h))
  push_turns-in_turn zero [] (x ∷ q) w h = absurd (omega (arith, h))
  push_turns-in_turn (suc n) ms q w h =
      let (ms', q', v, e, same, left) = round-Keeps ms q w in
      let (u, f, got) = push_turns-in_turn n ms' q' v (omega (arith, h, left)) in
      (u, ap (push_turns ws (in_turn n)) e ∙ f, got ∙ same)
