-- ===== src/Raft/Log.antt =====
-- store/raft/badger_store.go and util.go: the log of raft and its settings, kept in badger under
-- keys of eight bytes. The database is badger's, a parameter; so is the format of an entry.
pub mod Keys
pub mod Sweep
pub mod Delete
pub mod Healthy
pub mod Entries
use mathlib.Core.List.{reverse}
use micro_conf.Text.Word.{get_word, put_word}
use micro_conf.Text.Order.{less}
use micro_conf.Text.Bytes.{Bytes}
use micro_conf.Base.Outcome.{Call, Error, Result, bind, err, message, not_found, ok, panic}
use micro_conf.Base.{
  Bool, false, true, List, Option, [], if◌then◌else◌, keep, leb, length, ltb, map, none, not, some,
  suc, take, zero, ◌++◌, ◌∷◌, ◌≡◌, ℕ,
}

-- What a transaction holds: txn.Set and txn.Delete.
pub data Write : Type 0 where
  put : Bytes → Bytes → Write
  erase : Bytes → Write

-- What badger answers to one more write; `too_big` is its ErrTxnTooBig.
pub data Verdict : Type 0 where
  fine : Verdict
  too_big : Verdict
  refused : Error → Verdict

pub record LogDb : Type 1 where
  pub State : Type 0
  -- All keys, in the order of badger's iterators.
  pub keys : State → List Bytes
  pub find : Bytes → State → Result Bytes
  -- A write offered to a transaction that holds some writes.
  pub admit : State → List Write → Write → Verdict
  pub commit : List Write → Call State (Unit {0})

-- go-msgpack at the entries of raft's log.
pub record Codec (E : Type 0) : Type 0 where
  pub encode : E → Result Bytes
  pub decode : Bytes → Result E
  pub index : E → ℕ
  pub decode-encode : (e : E) (b : Bytes) → encode e ≡ ok b → decode b ≡ ok e

-- raft.ErrLogNotFound
abbrev pub log_not_found : Error
log_not_found = message "log not found"

abbrev pub txn_too_big : Error
txn_too_big = message "Txn is too big to fit into one request"

unfoldable pub uint64_to_bytes : ℕ → Bytes
unfolding put_word
uint64_to_bytes u = put_word 8 u

-- binary.BigEndian.Uint64 panics on less than eight bytes.
unfoldable pub bytes_to_uint64 : Bytes → Result ℕ
unfolding get_word
bytes_to_uint64 b = if ltb (length b) 8 then err panic else ok (get_word 0 (take 8 b))

-- it.Seek and the keys from there on.
unfoldable pub keys_from : Bytes → List Bytes → List Bytes
unfolding less
keys_from start = keep (λ k. not (less k start))

-- it.Item().KeyCopy(key) for eight bytes of zeros: a longer key goes elsewhere.
unfoldable pub copy_key : Bytes → Bytes
copy_key k = if leb (length k) 8 then take 8 (k ++ uint64_to_bytes 0) else uint64_to_bytes 0

-- firstIndex: the first key of the iterator, 0 for an empty log.
unfoldable pub first_of : List Bytes → Result ℕ
unfolding bytes_to_uint64
first_of [] = ok 0
first_of (k ∷ ks) = bytes_to_uint64 k

module _ (db : LogDb) where
  unfoldable pub first_index : db.State → Result ℕ
  unfolding first_of
  first_index s = first_of (db.keys s)

  unfoldable pub last_index : db.State → Result ℕ
  unfolding first_of
  last_index s = first_of (reverse (db.keys s))

  -- Update with one transaction of writes; an error ends it, and nothing is written.
  unfoldable pub set_entry : Bytes → Bytes → Call db.State (Unit {0})
  set_entry k v s = elim (db.admit s [] (put k v)) [
    | fine ↦ db.commit (put k v ∷ []) s
    | too_big ↦ (s, err txn_too_big)
    | refused e ↦ (s, err e)
  ]

  -- Get: badger's ErrKeyNotFound becomes the package's own.
  unfoldable pub get_entry : Bytes → db.State → Result Bytes
  get_entry k s = db.find k s

  unfoldable pub set_uint64 : Bytes → ℕ → Call db.State (Unit {0})
  unfolding set_entry uint64_to_bytes
  set_uint64 k u = set_entry k (uint64_to_bytes u)

  unfoldable pub get_uint64 : Bytes → db.State → Result ℕ
  unfolding get_entry bytes_to_uint64
  get_uint64 k s = bind (get_entry k s) bytes_to_uint64

  module _ {E : Type 0} (c : Codec E) where
    unfoldable pub get_log : ℕ → db.State → Result E
    unfolding uint64_to_bytes
    get_log u s = elim (db.find (uint64_to_bytes u) s) [
      | ok b ↦ c.decode b
      | err e ↦ elim e [
        | not_found ↦ err log_not_found
        | panic ↦ err panic
        | message m ↦ err (message m)
      ]
    ]

    -- The loop of StoreLogs, up to the commit.
    unfoldable pub log_writes : db.State → List Write → List E → Result (List Write)
    unfolding uint64_to_bytes
    log_writes s held [] = ok held
    log_writes s held (l ∷ ls) = elim (c.encode l) [
      | err e ↦ err e
      | ok b ↦ elim (db.admit s held (put (uint64_to_bytes (c.index l)) b)) [
        | fine ↦ log_writes s (held ++ put (uint64_to_bytes (c.index l)) b ∷ []) ls
        | too_big ↦ err txn_too_big
        | refused e ↦ err e
      ]
    ]

    unfoldable pub store_logs : List E → Call db.State (Unit {0})
    unfolding log_writes
    store_logs ls s = elim (log_writes s [] ls) [ err e ↦ (s, err e) | ok ws ↦ db.commit ws s ]

    unfoldable pub store_log : E → Call db.State (Unit {0})
    unfolding store_logs
    store_log l = store_logs (l ∷ [])

-- How the loop of DeleteRange ends: at the end of the range, at the key that no longer fits, or
-- with an error.
pub data Stop : Type 0 where
  finished : Stop
  again : Bytes → Stop
  failed : Error → Stop

-- One turn of the loop, by what it asks: whether the key is beyond the range, and badger's answer.
unfoldable pub turn : Bytes → Bool → Verdict → List Bytes × Stop → List Bytes × Stop
turn key true v r = ([], finished)
turn key false fine r = (key ∷ r.0, r.1)
turn key false too_big r = ([], again key)
turn key false (refused e) r = ([], failed e)

module _ (db : LogDb) where
  -- The keys that the loop deletes, after `held`, and how it ends.
  unfoldable pub sweep : db.State → ℕ → List Write → List Bytes → List Bytes × Stop
  unfolding copy_key get_word turn
  sweep s max held [] = ([], finished)
  sweep s max held (k ∷ ks) =
      let key = copy_key k in
      turn key (ltb max (get_word 0 key)) (db.admit s held (erase key))
        (sweep s max (held ++ erase key ∷ []) ks)

  -- The commit after ErrTxnTooBig: the rest of the range follows, unless it fails.
  abbrev pub retry :
      db.State × Result (Unit {0})
      → (db.State → Option (db.State × Result (Unit {0})))
      → Option (db.State × Result (Unit {0}))
  retry (t, err e) f = some (t, err e)
  retry (t, ok a) f = f t

  -- DeleteRange. The result is none where the fuel runs out.
  unfoldable pub delete_range :
      (fuel min max : ℕ) → db.State → Option (db.State × Result (Unit {0}))
  unfolding sweep keys_from uint64_to_bytes get_word
  delete_range zero min max s = none
  delete_range (suc n) min max s =
      let (ds, how) = sweep s max [] (keys_from (uint64_to_bytes min) (db.keys s)) in
      elim how [
        | finished ↦ some (db.commit (map erase ds) s)
        | failed e ↦ some (s, err e)
        | again key ↦ retry (db.commit (map erase ds) s) (delete_range n (get_word 0 key) max)
      ]
