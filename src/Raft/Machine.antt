-- ===== src/Raft/Machine.antt =====
-- store/raft/command.go and the state machine of store/raft/fsm.go. The database is badger's, a
-- parameter; `now` and `later` are the two readings of the clock, in milliseconds.
use micro_conf.Json.{Json}
use micro_conf.Dict.{Dict}
use micro_conf.Cfg.Differ.Buckets.{entry}
use micro_conf.Base.{
  Bool, leb, ◌||◌, if◌then◌else◌, ltb, none, some, ◌%◌, ◌*◌, ◌+◌, ◌-◌, ◌^◌, ℕ, Option,
}
use micro_conf.Base.Outcome.{err, message, ok, panic, Result, Call}
use micro_conf.Text.Bytes.{codes, same, Bytes}

pub record Command : Type 0 where
  pub op : Bytes
  pub key : Bytes
  pub value : Bytes
  pub exp : ℕ

-- What the code calls of badger: a read, and transactions of one write each. `ttl` is a time to
-- live in nanoseconds, none for a key that stays.
pub record Badger : Type 1 where
  pub Db : Type 0
  pub find : Bytes → Db → Result Bytes
  pub prefixed : Bytes → Db → Dict Bytes
  pub put : Bytes → Bytes → (ttl : Option ℕ) → Call Db (Unit {0})
  pub erase : Bytes → Call Db (Unit {0})

abbrev pub cmd_set : Bytes
cmd_set = codes "set"

abbrev pub cmd_set_ex : Bytes
cmd_set_ex = codes "setex"

abbrev pub cmd_del : Bytes
cmd_del = codes "del"

-- Differences of uint64 wrap around, and a nanosecond is the millionth part of a millisecond.
unfoldable pub ttl_of : ℕ → ℕ → ℕ
ttl_of exp later = ((exp + (2 ^ 64 - later % 2 ^ 64)) * 1000000) % 2 ^ 64

-- The expiry is compared as an int64, so one from 2^63 on counts as negative.
unfoldable pub expired : ℕ → ℕ → Bool
expired exp now = leb (2 ^ 63) exp || ltb exp now

module _ (badger : Badger) where
  -- applySet. A key that has expired already is not written.
  unfoldable pub apply_set : ℕ → ℕ → Bytes → Bytes → Option ℕ → Call badger.Db (Unit {0})
  unfolding ttl_of expired
  apply_set now later key value none d = badger.put key value none d
  apply_set now later key value (some exp) d =
      if expired exp now then (d, ok tt) else badger.put key value (some (ttl_of exp later)) d

  unfoldable pub apply_delete : Bytes → Call badger.Db (Unit {0})
  apply_delete key d = badger.erase key d

  -- (f *fsm) Apply on a decoded command.
  unfoldable pub apply_command : ℕ → ℕ → Command → Call badger.Db (Unit {0})
  unfolding apply_set apply_delete
  apply_command now later c d =
      if same c.op cmd_set
      then apply_set now later c.key c.value none d
      else if same c.op cmd_set_ex
      then apply_set now later c.key c.value (some c.exp) d
      else if same c.op cmd_del
      then apply_delete c.key d
      else (d, err (message "unknown command"))

  -- (f *fsm) Apply on a log entry: what cannot be decoded is a panic.
  unfoldable pub apply_entry : Json Command → ℕ → ℕ → Bytes → Call badger.Db (Unit {0})
  unfolding apply_command
  apply_entry commands now later entry d = elim (commands.unmarshal entry) [
    | none ↦ (d, err panic)
    | some c ↦ apply_command now later c d
  ]
