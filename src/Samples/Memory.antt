-- ===== src/Samples/Memory.antt =====
-- A store in memory that never fails and never forgets, and one that refuses every write.
use micro_conf.Text.Decimal.{ℤ}
use micro_conf.Text.Bytes.{Bytes, has_prefix, same_ne, same_refl}
use micro_conf.Store.{IsRaftStore, RaftStore, never}
use micro_conf.Dict.{Dict, insert, lookup, lookup-insert, lookup-remove, remove}
use micro_conf.Base.Outcome.{Result, err, not_found, ok}
use micro_conf.Base.{
  All, All-of_map, [], inl, sym, true, ◌∙◌, ◌∷◌, List, Option, ap, arith, keep, map, none, some,
  ◌≡◌, ◌≢◌,
}

abbrev pub read : Option Bytes → Result Bytes
read (some v) = ok v
read none = err not_found

abbrev pub keys : Dict Bytes → List Bytes
keys = map (λ e. e.0)

abbrev pub with_prefix : Bytes → Dict Bytes → Dict Bytes
with_prefix p = keep (λ e. has_prefix e.0 p)

abbrev pub memory : RaftStore
memory = record {
  State = Dict Bytes;
  get = λ k m. read (lookup k m);
  scan_kvs = with_prefix;
  scan_keys = λ p m. keys (with_prefix p m);
  set = λ k v exp m. (insert k v m, ok tt);
  delete = λ k m. (remove k m, ok tt);
}

memory-get-set :
    (k v : Bytes) (s t : Dict Bytes) → memory.set k v never s ≡ (t, ok tt) → memory.get k t ≡ ok v
memory-get-set k v s t h = ground (arith, lookup-insert k k v s, same_refl k, ap (λ p. p.0) h)

memory-get-set_ne :
    (k j v : Bytes) (exp : ℤ) (s t : Dict Bytes) (r : Result (Unit {0}))
    → memory.set k v exp s ≡ (t, r)
    → k ≢ j
    → memory.get j t ≡ memory.get j s
memory-get-set_ne k j v exp s t r h n =
    ground (arith, lookup-insert k j v s, same_ne k j n, ap (λ p. p.0) h)

memory-get-delete_ne :
    (k j : Bytes) (s t : Dict Bytes) (r : Result (Unit {0}))
    → memory.delete k s ≡ (t, r)
    → k ≢ j
    → memory.get j t ≡ memory.get j s
memory-get-delete_ne k j s t r h n =
    ground (arith, lookup-remove k j s, same_ne k j n, ap (λ p. p.0) h)

pub with_prefix-All :
    (p : Bytes) (m : Dict Bytes) → All (λ e. has_prefix e.0 p ≡ true) (with_prefix p m)
with_prefix-All p [] = tt
with_prefix-All p ((k, v) ∷ m) = ground (arith, with_prefix-All p m)

pub memory-IsRaftStore : IsRaftStore memory
memory-IsRaftStore = record {
  get-set_self = memory-get-set;
  get-set_ne = memory-get-set_ne;
  get-set_or =
      λ k v s t r h. inl (memory-get-set k v s t (h ∙ (λ i. (t, ap (λ p. p.1) (sym h) i))));
  scan_keys-prefix = λ p m.
      All-of_map (λ k. has_prefix k p ≡ true) (λ e. e.0) (with_prefix p m) (with_prefix-All p m);
  get-delete_ne = memory-get-delete_ne;
}
