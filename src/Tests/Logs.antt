-- ===== src/Tests/Logs.antt =====
-- Four entries, of which two are deleted one by one, and entries that are read back.
use micro_conf.Raft.Snapshot.{persist, persist_iff}
use micro_conf.Text.Order.{less}
use micro_conf.Raft.Log.{last_index}
use micro_conf.Text.Word.{put_word}
use micro_conf.Text.Bytes.{same, Bytes, codes}
use micro_conf.Samples.Logs.{entries, log_db, log_db-IsHealthy, log_db-IsLogDb}
use micro_conf.Raft.Log.Keys.{IsLog, put_word-IsKey}
use micro_conf.Raft.Log.Healthy.{delete_range-total}
use micro_conf.Raft.Log.Entries.{get_log-store_logs}
use micro_conf.Raft.Log.Delete.{outside}
use micro_conf.Raft.Log.{delete_range, first_index, get_log, get_uint64, set_uint64, store_logs}
use micro_conf.Dict.{insert, lookup, remove, Dict}
use micro_conf.Base.Outcome.{Call, Error, message, err, ok, panic}
use micro_conf.Base.{suc, ◌↔◌, ◌⊎◌, [], arith, keep, none, refl, some, ◌∷◌, ◌≡◌, ℕ}

abbrev key_of : ℕ → Bytes
key_of u = put_word 8 u

abbrev four : Dict Bytes
four =
    (key_of 3, codes "c")
    ∷ (key_of 255, codes "e")
    ∷ (key_of 256, codes "f")
    ∷ (key_of 300, codes "g")
    ∷ []

abbrev two : Dict Bytes
two = (key_of 3, codes "c") ∷ (key_of 300, codes "g") ∷ []

-- Each transaction takes one delete, so the second key begins the second of them.
deleted : delete_range log_db 5 4 256 four ≡ some (two, ok tt)
unfolding delete_range remove same
deleted = refl

-- Fuel for fewer transactions than there are keys in the range.
unfinished : delete_range log_db 1 4 256 four ≡ none
unfolding delete_range remove same
unfinished = refl

ends : (first_index log_db four ≡ ok 3) × (last_index log_db four ≡ ok 300)
unfolding first_index put_word last_index
ends = (refl, refl)

-- A key that is no index stops the node.
short_key : first_index log_db ((codes "k", codes "v") ∷ []) ≡ err panic
unfolding first_index
short_key = refl

setting : get_uint64 log_db (codes "term") (set_uint64 log_db (codes "term") 7 []).0 ≡ ok 7
unfolding get_uint64 lookup set_uint64 insert same
setting = refl

four-IsLog : IsLog (log_db.keys four)
unfolding less put_word
four-IsLog = (
  (
    put_word-IsKey 3 (omega arith),
    (
      put_word-IsKey 255 (omega arith),
      (put_word-IsKey 256 (omega arith), (put_word-IsKey 300 (omega arith), tt)),
    ),
  ),
  ((refl, (refl, (refl, tt))), ((refl, (refl, tt)), ((refl, tt), (tt, tt)))),
)

delete_range-total_example :
    (t : Dict Bytes) × (delete_range log_db 5 4 256 four ≡ some (t, ok tt))
    × (log_db.keys t ≡ keep (outside 4 256) (log_db.keys four))
delete_range-total_example =
    delete_range-total log_db log_db-IsHealthy log_db-IsLogDb 5 4 256 four four-IsLog (omega arith)
      (omega arith)

abbrev stored_entries : Dict Bytes
stored_entries = (store_logs log_db entries ((7, codes "x") ∷ []) []).0

get_log-store_logs_example : get_log log_db entries 7 stored_entries ≡ ok (7, codes "x")
unfolding store_logs
get_log-store_logs_example =
    get_log-store_logs log_db entries [] 7 (omega arith) log_db-IsLogDb ((7, codes "x") ∷ [])
      stored_entries (omega arith, tt) refl

abbrev lost : Error
lost = message "disk full"

abbrev no_room : Call ℕ (Unit {0})
no_room s = (s, err lost)

abbrev close_sink : Call ℕ (Unit {0})
close_sink s = (suc s, ok tt)

-- A backup that fails into a sink that can be closed: the snapshot counts as taken.
persist_iff_example : (persist no_room close_sink close_sink 0 ≡ (1, ok tt)) ↔ (
    (no_room 0 ≡ (1, ok tt))
    ⊎ ((u : ℕ) × (e : Error) × (no_room 0 ≡ (u, err e)) × (close_sink u ≡ (1, ok tt))))
persist_iff_example = persist_iff no_room close_sink close_sink 0 1
