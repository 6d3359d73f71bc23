-- ===== src/Cfg/Push/Delivered.antt =====
-- A push from its difference to the texts that the client gets.
use micro_conf.Text.Fold.{equal_fold, lower}
use micro_conf.Dict.{Dict, IsMap, lookup}
use micro_conf.Conn.Sockets.Written.{IsOpen}
use micro_conf.Conn.Sockets.{WebSocket}
use micro_conf.Cfg.Push.Replay.{replay_events, replay_events-events_of}
use micro_conf.Cfg.Push.Queue.Order.{in_turn, push_turns-in_turn, under_way}
use micro_conf.Cfg.Push.Queue.{push_turns}
use micro_conf.Cfg.Differ.Same.{Agrees}
use micro_conf.Cfg.Differ.{build_namespace_diff}
use micro_conf.Json.{Json}
use micro_conf.Cfg.Push.{event_byte, events_of, ConfigChangeEvent, event_string}
use micro_conf.Text.Bytes.{same, codes, Bytes}
use micro_conf.Base.{List, [], ap, length, map, null, false, refl, ◌++◌, ◌+◌, ◌≤◌, ◌∙◌, ◌∷◌, ◌≡◌, ℕ}

-- The event of a change of the configuration has the byte 1.
event_byte-cfg : event_byte (codes "cfg") ≡ 1
unfolding event_byte equal_fold lower same
event_byte-cfg = refl

map-event_string :
    (json : Json ConfigChangeEvent) (es : List ConfigChangeEvent)
    → map (event_string json (codes "cfg")) es ≡ map (λ e. json.marshal e ++ 1 ∷ []) es
unfolding event_string
map-event_string json es = ap (λ b. map (λ e. json.marshal e ++ b ∷ []) es) event_byte-cfg

module _ (json : Json ConfigChangeEvent) (app_id group namespace : Bytes)
    (old new : Dict Bytes) where
  -- The texts of doPush for a client.
  abbrev pub messages : List Bytes
  messages =
      map (event_string json (codes "cfg"))
        (events_of app_id group (build_namespace_diff namespace old new))

module _ {W : Type 0} (ws : WebSocket W) (texts : W → List Bytes) (free : IsOpen ws texts)
    (json : Json ConfigChangeEvent) (app_id group namespace : Bytes) (old new : Dict Bytes) where
  -- On a connection on which no write fails, to a client that is open and may have other texts in
  -- its channel: where doPush and the client's Write take turns, as often as there are texts in the
  -- channel and to send, the peer gets the texts in the channel and then, for each event of a list,
  -- the JSON of the event followed by the byte 1; and if the new version has an entry, applying
  -- these events to a copy of the old version gives a copy that agrees with the new one on every
  -- key up to the case of letters.
  pub push-Agrees :
      (key : Bytes) (queue : List Bytes) (w : W) (n : ℕ) (k : Bytes)
      → length queue + length (messages json app_id group namespace old new) ≤ n
      → IsMap old
      → IsMap new
      → null new ≡ false
      → (v : W) × (es : List ConfigChangeEvent) × (push_turns ws
            (in_turn n)
            (under_way key (messages json app_id group namespace old new) queue w)
          ≡ under_way key [] [] v)
        × (texts v ≡ texts w ++ (queue ++ map (λ e. json.marshal e ++ 1 ∷ []) es))
        × Agrees (lookup k (replay_events es old)) (lookup k new)
  push-Agrees key queue w n k enough ho hn h =
      let es = events_of app_id group (build_namespace_diff namespace old new) in
      let (v, e, got) =
        push_turns-in_turn ws texts free key n (messages json app_id group namespace old new) queue
          w enough in
      (
        v,
        es,
        e,
        got ∙ ap (λ x. texts w ++ (queue ++ x)) (map-event_string json es),
        replay_events-events_of app_id group namespace old new k ho hn h,
      )
