-- ===== src/Raft/Log/Healthy.antt =====
-- DeleteRange on a database that does not fail.
use micro_conf.Text.Bytes.{Bytes}
use micro_conf.Raft.Log.Keys.{IsLog, IsLogDb, num}
use micro_conf.Raft.Log.Delete.{delete_range-Removes, outside, resume}
use micro_conf.Raft.Log.{
  LogDb, Stop, Verdict, Write, again, copy_key, delete_range, erase, failed, fine, finished,
  keys_from, refused, retry, sweep, too_big, turn, uint64_to_bytes,
}
use micro_conf.Base.Outcome.{Error, Result, err, ok}
use micro_conf.Base.{
  Bool, List, Option, [], false, keep, length, ltb, map, refl, some, suc, true, zero, ◌++◌, ◌<◌,
  ◌^◌, ◌∙◌, ◌∷◌, ◌≡◌, ◌≢◌, ℕ,
}

-- Every commit succeeds, and a write fits into its transaction or is too big for it.
pub record IsHealthy (db : LogDb) : Type 0 where
  pub commits : (ws : List Write) (s : db.State) → (db.commit ws s).1 ≡ ok tt
  pub admits :
      (s : db.State) (held : List Write) (w : Write) (e : Error) → db.admit s held w ≢ refused e

abbrev fails : Stop → Bool
fails finished = false
fails (again key) = false
fails (failed e) = true

turn-fails :
    (key : Bytes) (b : Bool) (v : Verdict) (r : List Bytes × Stop)
    → ((e : Error) → v ≢ refused e)
    → fails r.1 ≡ false
    → fails (turn key b v r).1 ≡ false
unfolding turn
turn-fails key true v r h f = refl
turn-fails key false fine r h f = f
turn-fails key false too_big r h f = refl
turn-fails key false (refused e) r h f = absurd (h e refl)

module _ (db : LogDb) (healthy : IsHealthy db) where
  sweep-fails :
      (s : db.State) (max : ℕ) (held : List Write) (xs : List Bytes)
      → fails (sweep db s max held xs).1 ≡ false
  unfolding sweep
  sweep-fails s max held [] = refl
  sweep-fails s max held (x ∷ xs) =
      turn-fails (copy_key x) (ltb max (num (copy_key x))) (db.admit s held (erase (copy_key x)))
        (sweep db s max (held ++ erase (copy_key x) ∷ []) xs)
        (healthy.admits s held (erase (copy_key x)))
        (sweep-fails s max (held ++ erase (copy_key x) ∷ []) xs)

  -- No result is an error.
  abbrev Succeeds : Option (db.State × Result (Unit {0})) → Type 0
  Succeeds o = (t : db.State) (r : Result (Unit {0})) → o ≡ some (t, r) → r ≡ ok tt

  retry-Succeeds :
      (p : db.State × Result (Unit {0})) (f : db.State → Option (db.State × Result (Unit {0})))
      → p.1 ≡ ok tt
      → ((t : db.State) → Succeeds (f t))
      → Succeeds (retry db p f)
  retry-Succeeds (t, err e) f h g = absurd (cc h)
  retry-Succeeds (t, ok a) f h g = g t

  commit-Succeeds : (p : db.State × Result (Unit {0})) → p.1 ≡ ok tt → Succeeds (some p)
  commit-Succeeds (u, q) h t r e = cc (h, e)

  resume-Succeeds :
      (s : db.State) (n min max : ℕ) (how : Stop) (ds : List Bytes)
      → fails how ≡ false
      → ((key : Bytes) (t : db.State) → Succeeds (delete_range db n (num key) max t))
      → Succeeds (resume db s n min max how ds)
  resume-Succeeds s n min max finished ds f h =
      commit-Succeeds (db.commit (map erase ds) s) (healthy.commits (map erase ds) s)
  resume-Succeeds s n min max (failed e) ds f h = absurd (cc f)
  resume-Succeeds s n min max (again key) ds f h =
      retry-Succeeds (db.commit (map erase ds) s) (delete_range db n (num key) max)
        (healthy.commits (map erase ds) s) (h key)

  delete_range-Succeeds :
      (fuel min max : ℕ) (s : db.State) → Succeeds (delete_range db fuel min max s)
  unfolding delete_range
  delete_range-Succeeds zero min max s = λ t r e. cc e
  delete_range-Succeeds (suc n) min max s =
      let xs = keys_from (uint64_to_bytes min) (db.keys s) in
      resume-Succeeds s n min max (sweep db s max [] xs).1 (sweep db s max [] xs).0
        (sweep-fails s max [] xs) (λ key t. delete_range-Succeeds n (num key) max t)

  -- On a log whose keys are ascending indices, in a database that does not fail, DeleteRange
  -- returns without an error, if it may begin more transactions than there are keys; then the
  -- indices from min to max are gone, and all others are kept in their order.
  pub delete_range-total :
      IsLogDb db
      → (fuel min max : ℕ) (s : db.State) → IsLog (db.keys s)
      → min < 2 ^ 64
      → length (db.keys s) < fuel
      → (t : db.State) × (delete_range db fuel min max s ≡ some (t, ok tt))
        × (db.keys t ≡ keep (outside min max) (db.keys s))
  delete_range-total laws fuel min max s h hmin f =
      let (t, r, e, keys) = delete_range-Removes db laws fuel min max s h hmin f in
      let fine = delete_range-Succeeds fuel min max s t r e in
      (t, e ∙ (λ i. some (t, fine i)), keys fine)
