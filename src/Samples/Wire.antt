-- ===== src/Samples/Wire.antt =====
-- A connection that never fails.
use micro_conf.Text.Bytes.{Bytes}
use micro_conf.Conn.Sockets.{WebSocket}
use micro_conf.Conn.Sockets.Written.{IsOpen}
use micro_conf.Base.{List, [], refl, ◌++◌, ◌∷◌}
use micro_conf.Base.Outcome.{ok}

-- A connection that keeps what its peer has got, and the message under way.
abbrev pub working : WebSocket (List Bytes × Bytes)
working = record {
  set_read_limit = λ n w. w;
  set_read_deadline = λ w. (w, ok tt);
  set_write_deadline = λ w. (w, ok tt);
  write_close = λ d w. (w, ok tt);
  write_ping = λ w. (w, ok tt);
  next_writer = λ w. ((w.0, []), ok tt);
  write = λ s w. ((w.0, w.1 ++ s), ok tt);
  flush = λ w. ((w.0 ++ w.1 ∷ [], []), ok tt);
}

pub working-IsOpen : IsOpen working (λ w. w.0)
working-IsOpen = record {
  deadline = λ w. (refl, refl);
  close_frame = λ d w. (refl, refl);
  ping = λ w. (refl, refl);
  next_writer-ok = λ w. refl;
  write-ok = λ s w. refl;
  flush-ok = λ w. refl;
  texts-flush = λ s w. refl;
}
