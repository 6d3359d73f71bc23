-- ===== src/Samples/Logs.antt =====
-- A log in memory whose transactions take one write, and entries of a term and a text.
use micro_conf.Text.Bytes.{Bytes, same}
use micro_conf.Samples.Memory.{keys, read}
use micro_conf.Raft.Log.Keys.{IsLogDb, has, replay, without}
use micro_conf.Raft.Log.Healthy.{IsHealthy}
use micro_conf.Raft.Log.Delete.{keep-keep, keep_ext}
use micro_conf.Raft.Log.{Codec, LogDb, Write, erase, fine, put, refused, too_big}
use micro_conf.Dict.{Dict, insert, lookup, lookup-insert, lookup-remove, remove}
use micro_conf.Base.Outcome.{Error, Result, err, message, ok, ok-injective}
use micro_conf.Base.{
  Bool, List, [], ap, arith, false, if◌then◌else◌, keep, map, not, null, refl, sym, true, ◌&&◌, ◌∙◌,
  ◌∷◌, ◌≡◌, ◌≢◌, ℕ,
}

abbrev pub apply_write : Write → Dict Bytes → Dict Bytes
apply_write (put k v) m = insert k v m
apply_write (erase k) m = remove k m

abbrev pub apply_writes : List Write → Dict Bytes → Dict Bytes
apply_writes [] m = m
apply_writes (w ∷ ws) m = apply_writes ws (apply_write w m)

abbrev pub log_db : LogDb
log_db = record {
  State = Dict Bytes;
  keys = keys;
  find = λ k m. read (lookup k m);
  admit = λ s held w. if null held then fine else too_big;
  commit = λ ws m. (apply_writes ws m, ok tt);
}

find-apply_writes :
    (ws : List Write) (k : Bytes) (m : Dict Bytes)
    → read (lookup k (apply_writes ws m)) ≡ replay k ws (read (lookup k m))
find-apply_writes [] k m = refl
find-apply_writes (put j v ∷ ws) k m =
    find-apply_writes ws k (insert j v m) ∙ ap (replay k ws) (ground (arith, lookup-insert j k v m))
find-apply_writes (erase j ∷ ws) k m =
    find-apply_writes ws k (remove j m) ∙ ap (replay k ws) (ground (arith, lookup-remove j k m))

keys-remove : (d : Bytes) (m : Dict Bytes) → keys (remove d m) ≡ keep (λ k. not (same k d)) (keys m)
unfolding remove
keys-remove d [] = refl
keys-remove d ((k, v) ∷ m) = ground (arith, keys-remove d m)

without_nil : (ks : List Bytes) → without [] ks ≡ ks
without_nil [] = refl
without_nil (k ∷ ks) = ap (λ r. k ∷ r) (without_nil ks)

keys-apply_writes :
    (ds : List Bytes) (m : Dict Bytes) → keys (apply_writes (map erase ds) m) ≡ without ds (keys m)
keys-apply_writes [] m = sym (without_nil (keys m))
keys-apply_writes (d ∷ ds) m =
    keys-apply_writes ds (remove d m)
    ∙ ap (without ds) (keys-remove d m)
    ∙ keep-keep (λ k. not (same k d)) (λ k. not (has k ds)) (keys m)
    ∙ keep_ext (λ k. not (same k d) && not (has k ds)) (λ k. not (has k (d ∷ ds))) (keys m)
        (λ k h. ground arith)

pub log_db-IsLogDb : IsLogDb log_db
log_db-IsLogDb = record {
  find-commit = λ ws k s t h. ap (λ p. read (lookup k p.0)) (sym h) ∙ find-apply_writes ws k s;
  keys-commit = λ ds s t h. ap (λ p. keys p.0) (sym h) ∙ keys-apply_writes ds s;
  admit_first = λ s k. refl;
}

admit-null : (b : Bool) (e : Error) → (if b then fine else too_big) ≢ refused e
admit-null true e h = cc h
admit-null false e h = cc h

pub log_db-IsHealthy : IsHealthy log_db
log_db-IsHealthy = record {
  commits = λ ws s. refl;
  admits = λ s held w e. admit-null (null held) e;
}

-- An entry is its index and its data.
abbrev pub Entry : Type 0
Entry = ℕ × Bytes

abbrev decode_entry : Bytes → Result Entry
decode_entry [] = err (message "EOF")
decode_entry (x ∷ d) = ok (x, d)

abbrev pub entries : Codec Entry
entries = record {
  encode = λ e. ok (e.0 ∷ e.1);
  decode = decode_entry;
  index = λ e. e.0;
  decode-encode = λ e b h. ap decode_entry (sym (ok-injective h));
}
