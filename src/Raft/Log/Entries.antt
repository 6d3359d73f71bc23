-- ===== src/Raft/Log/Entries.antt =====
-- StoreLogs, then GetLog.
use mathlib.Core.Path.{subst}
use micro_conf.Text.Word.{fits_eight, same-put_word}
use micro_conf.Text.Bytes.{Bytes, same}
use micro_conf.Raft.Log.Keys.{IsLogDb, replay}
use micro_conf.Raft.Log.{
  get_log, log_not_found, store_logs, Verdict, fine, refused, too_big, txn_too_big, Codec, LogDb,
  Write, erase, log_writes, put, uint64_to_bytes,
}
use micro_conf.Base.Outcome.{message, panic, ok-injective, Result, err, not_found, ok}
use micro_conf.Base.{
  arith, Bool, ap, false, sym, true, ◌∙◌, All, List, Option, [], if◌then◌else◌, none, refl, some,
  ◌++◌, ◌<◌, ◌==◌, ◌^◌, ◌∷◌, ◌≡◌, ℕ,
}

module _ {E : Type 0} (c : Codec E) where
  -- The last of the entries with an index.
  abbrev pub last_of : ℕ → List E → Option E
  last_of u [] = none
  last_of u (l ∷ ls) = elim (last_of u ls) [
    | some x ↦ some x
    | none ↦ if c.index l == u then some l else none
  ]

  -- What GetLog returns after StoreLogs: the last of the entries with the index, or what it
  -- returned before.
  abbrev pub read_after : Option E → Result E → Result E
  read_after (some l) r = ok l
  read_after none r = r

replay-snoc :
    (k j v : Bytes) (ws : List Write) (r : Result Bytes)
    → replay k (ws ++ put j v ∷ []) r ≡ (if same j k then ok v else replay k ws r)
replay-snoc k j v [] r = refl
replay-snoc k j v (put i w ∷ ws) r = replay-snoc k j v ws (if same i k then ok w else r)
replay-snoc k j v (erase i ∷ ws) r = replay-snoc k j v ws (if same i k then err not_found else r)

module _ (db : LogDb) {E : Type 0} (c : Codec E) (s : db.State) (u : ℕ) (fits : u < 2 ^ 64) where
  -- What the writes of a list of entries do to the key of an index.
  abbrev Written : Option E → Result Bytes → Result Bytes → Type 0
  Written none before r = r ≡ before
  Written (some l) before r = (b : Bytes) × (c.encode l ≡ ok b) × (r ≡ ok b)

  same-uint64_to_bytes :
      (v : ℕ) → v < 2 ^ 64 → same (uint64_to_bytes v) (uint64_to_bytes u) ≡ (v == u)
  unfolding uint64_to_bytes
  same-uint64_to_bytes v h = same-put_word 8 v u (fits_eight v h) (fits_eight u fits)

  Written-if :
      (p : Bool) (l : E) (b : Bytes) (before r : Result Bytes)
      → c.encode l ≡ ok b
      → r ≡ (if p then ok b else before)
      → Written (if p then some l else none) before r
  Written-if true l b before r e h = (b, e, h)
  Written-if false l b before r e h = h

  Written-cons :
      (l : E) (o : Option E) (b : Bytes) (before r : Result Bytes)
      → c.encode l ≡ ok b
      → Written o (if c.index l == u then ok b else before) r
      → Written
          (elim o [ some x ↦ some x | none ↦ if c.index l == u then some l else none ])
          before
          r
  Written-cons l none b before r e h = Written-if (c.index l == u) l b before r e h
  Written-cons l (some x) b before r e h = h

  admitted :
      (v : Verdict) (x : Result (List Write)) (ws : List Write)
      → (elim v [ fine ↦ x | too_big ↦ err txn_too_big | refused f ↦ err f ]) ≡ ok ws
      → x ≡ ok ws
  admitted fine x ws h = h
  admitted too_big x ws h = absurd (cc h)
  admitted (refused e) x ws h = absurd (cc h)

  log_writes-Written :
      (held ws : List Write) (ls : List E) (r : Result Bytes)
      → All (λ l. c.index l < 2 ^ 64) ls
      → log_writes db c s held ls ≡ ok ws
      → Written
          (last_of c u ls)
          (replay (uint64_to_bytes u) held r)
          (replay (uint64_to_bytes u) ws r)
  unfolding log_writes
  log_writes-Written held ws [] r a h =
      ap (λ x. replay (uint64_to_bytes u) x r) (sym (ok-injective h))
  log_writes-Written held ws (l ∷ ls) r (small, rest) h =
      go (c.encode l) (λ b. db.admit s held (put (uint64_to_bytes (c.index l)) b)) refl
        (λ b. log_writes-Written (held ++ put (uint64_to_bytes (c.index l)) b ∷ []) ws ls r rest) h
    where
      before : Result Bytes
      before = replay (uint64_to_bytes u) held r

      after_put : Bytes → List Write
      after_put b = held ++ put (uint64_to_bytes (c.index l)) b ∷ []

      put_lem :
          (b : Bytes)
          → replay (uint64_to_bytes u) (after_put b) r ≡ (if c.index l == u then ok b else before)
      put_lem b =
          replay-snoc (uint64_to_bytes u) (uint64_to_bytes (c.index l)) b held r
          ∙ ap (λ p. if p then ok b else before) (same-uint64_to_bytes (c.index l) small)

      go :
          (e : Result Bytes) (v : Bytes → Verdict)
          → c.encode l ≡ e
          → ((b : Bytes)
              → log_writes db c s (after_put b) ls ≡ ok ws
              → Written
                  (last_of c u ls)
                  (replay (uint64_to_bytes u) (after_put b) r)
                  (replay (uint64_to_bytes u) ws r))
          → (elim e [
            | err f ↦ err f
            | ok b ↦ elim (v b) [
              | fine ↦ log_writes db c s (after_put b) ls
              | too_big ↦ err txn_too_big
              | refused f ↦ err f
            ]
          ])
            ≡ ok ws
          → Written (last_of c u (l ∷ ls)) before (replay (uint64_to_bytes u) ws r)
      go (err f) v e ih q = absurd (cc q)
      go (ok b) v e ih q =
          Written-cons l (last_of c u ls) b before (replay (uint64_to_bytes u) ws r) e (
            subst (λ x. Written (last_of c u ls) x (replay (uint64_to_bytes u) ws r)) (put_lem b)
              (ih b (admitted (v b) (log_writes db c s (after_put b) ls) ws q)))

  get_log-Written :
      (o : Option E) (t : db.State)
      → Written o (db.find (uint64_to_bytes u) s) (db.find (uint64_to_bytes u) t)
      → get_log db c u t ≡ read_after c o (get_log db c u s)
  unfolding get_log
  get_log-Written none t h =
      ap
        (λ x. elim x [
          | ok b ↦ c.decode b
          | err e ↦ elim e [
            | not_found ↦ err log_not_found
            | panic ↦ err panic
            | message m ↦ err (message m)
          ]
        ])
        h
  get_log-Written (some l) t (b, e, h) = ground (arith, h, c.decode-encode l b e)

  -- Where StoreLogs reports success, a later GetLog of an index returns the last of the entries
  -- with this index that were stored, and what it returned before where there is none.
  pub get_log-store_logs :
      IsLogDb db
      → (ls : List E) (t : db.State) → All (λ l. c.index l < 2 ^ 64) ls
      → store_logs db c ls s ≡ (t, ok tt)
      → get_log db c u t ≡ read_after c (last_of c u ls) (get_log db c u s)
  unfolding store_logs
  get_log-store_logs laws ls t small h = go (log_writes db c s [] ls) refl h
    where
      key : Bytes
      key = uint64_to_bytes u

      go :
          (w : Result (List Write))
          → log_writes db c s [] ls ≡ w
          → (elim w [ err e ↦ (s, err e) | ok ws ↦ db.commit ws s ]) ≡ (t, ok tt)
          → get_log db c u t ≡ read_after c (last_of c u ls) (get_log db c u s)
      go (err e) l q = absurd (cc q)
      go (ok ws) l q = get_log-Written (last_of c u ls) t (
          subst (Written (last_of c u ls) (db.find key s)) (sym (laws.find-commit ws key s t q))
            (log_writes-Written [] ws ls (db.find key s) small l))
