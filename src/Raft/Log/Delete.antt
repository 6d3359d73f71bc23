-- ===== src/Raft/Log/Delete.antt =====
-- DeleteRange over all its transactions.
use mathlib.Core.Path.{subst}
use micro_conf.Text.Word.{fits_eight, get_word-put_word, put_word}
use micro_conf.Text.Order.{less}
use micro_conf.Text.Bytes.{Bytes, same_iff, same_refl}
use micro_conf.Raft.Log.Sweep.{sweep-Swept, sweep-turn, Swept}
use micro_conf.Raft.Log.Keys.{
  keep-IsLog, copy_key-IsKey, has-All, IsKey, IsLog, IsLogDb, has, has-keep, less-IsKey, num,
  put_word-IsKey,
}
use micro_conf.Raft.Log.{
  failed, Stop, fine, retry, turn, LogDb, again, delete_range, erase, finished, keys_from, sweep,
  uint64_to_bytes,
}
use micro_conf.Base.Outcome.{err, Result, ok}
use micro_conf.Base.{
  ap, ltb, suc, sym, zero, Bool, List, Option, [], arith, false, keep, leb, length, map, not, refl,
  some, true, ◌&&◌, ◌<◌, ◌^◌, ◌∙◌, ◌∷◌, ◌≡◌, ◌≤◌, ℕ,
}

abbrev pub outside : ℕ → ℕ → Bytes → Bool
outside min max k = not (leb min (num k) && leb (num k) max)

pub keep_ext :
    (p q : Bytes → Bool) (ks : List Bytes)
    → ((k : Bytes) → has k ks ≡ true → p k ≡ q k)
    → keep p ks ≡ keep q ks
keep_ext p q [] h = refl
keep_ext p q (k ∷ ks) h =
    ground
      (arith, h k (ground (arith, same_refl k)), keep_ext p q ks (λ j e. h j (ground (arith, e))))

pub keep-keep :
    (p q : Bytes → Bool) (ks : List Bytes) → keep q (keep p ks) ≡ keep (λ k. p k && q k) ks
keep-keep p q [] = refl
keep-keep p q (k ∷ ks) = ground (arith, keep-keep p q ks)

length-keep : (p : Bytes → Bool) (ks : List Bytes) → length (keep p ks) ≤ length ks
length-keep p [] = omega arith
length-keep p (k ∷ ks) = ground (arith, length-keep p ks)

length-keep_dropped :
    (p : Bytes → Bool) (k : Bytes) (ks : List Bytes)
    → has k ks ≡ true
    → p k ≡ false
    → length (keep p ks) < length ks
length-keep_dropped p k [] h e = absurd (cc h)
length-keep_dropped p k (j ∷ ks) h e =
    ground (arith, same_iff k j, length-keep p ks, length-keep_dropped p k ks)

has-keys_from :
    (min : ℕ) (k : Bytes) (ks : List Bytes)
    → min < 2 ^ 64
    → IsKey k
    → has k (keys_from (uint64_to_bytes min) ks) ≡ (has k ks && leb min (num k))
unfolding keys_from uint64_to_bytes
has-keys_from min k ks h hk =
    has-keep (λ j. not (less j (put_word 8 min))) k ks
    ∙ ap (λ b. has k ks && not b)
        (less-IsKey k (put_word 8 min) hk (put_word-IsKey min h)
          ∙ ap (ltb (num k)) (get_word-put_word 8 min (fits_eight min h)))
    ∙ ground arith

keys_from-IsLog :
    (min : ℕ) (ks : List Bytes) → IsLog ks → IsLog (keys_from (uint64_to_bytes min) ks)
unfolding keys_from
keys_from-IsLog min ks h = keep-IsLog (λ k. not (less k (uint64_to_bytes min))) ks h

-- A first delete that fits comes before the key that no longer does.
abbrev Begun : List Bytes → Bytes → List Bytes × Stop → Type 0
Begun xs key r = r.1 ≡ again key → (y : Bytes) × IsKey y × (has y xs ≡ true) × (has y r.0 ≡ true)

turn-Begun :
    (x : Bytes) (xs : List Bytes) (key : Bytes) (b : Bool) (r : List Bytes × Stop)
    → IsKey x
    → Begun (x ∷ xs) key (turn x b fine r)
unfolding turn
turn-Begun x xs key true r hx = λ e. absurd (cc e)
turn-Begun x xs key false r hx =
    λ e. (x, hx, ground (arith, same_refl x), ground (arith, same_refl x))

-- What follows the loop, by how it ended.
module _ (db : LogDb) (s : db.State) (n min max : ℕ) where
  abbrev pub resume : Stop → List Bytes → Option (db.State × Result (Unit {0}))
  resume how ds = elim how [
    | finished ↦ some (db.commit (map erase ds) s)
    | failed e ↦ some (s, err e)
    | again key ↦ retry db (db.commit (map erase ds) s) (delete_range db n (num key) max)
  ]

module _ (db : LogDb) (laws : IsLogDb db) where
  sweep-Begun :
      (s : db.State) (max : ℕ) (xs : List Bytes) (key : Bytes)
      → IsLog xs
      → Begun xs key (sweep db s max [] xs)
  unfolding sweep
  sweep-Begun s max [] key h = λ e. absurd (cc e)
  sweep-Begun s max (x ∷ xs) key ((hx, hs), a) =
      subst (Begun (x ∷ xs) key)
        (sym (
          sweep-turn db s max [] x xs (copy_key-IsKey x hx)
          ∙ ap (λ v. turn x (ltb max (num x)) v (sweep db s max (erase x ∷ []) xs))
              (laws.admit_first s x)))
        (turn-Begun x xs key (ltb max (num x)) (sweep db s max (erase x ∷ []) xs) hx)

  -- What DeleteRange comes to: a result, and if it reports no error, the keys of the range are gone
  -- and the others stay.
  abbrev Removes : db.State → ℕ → ℕ → Option (db.State × Result (Unit {0})) → Type 0
  Removes s min max o =
      (t : db.State) × (r : Result (Unit {0})) × (o ≡ some (t, r))
      × (r ≡ ok tt → db.keys t ≡ keep (outside min max) (db.keys s))

  Removes-finished :
      (s : db.State) (min max : ℕ) (ds : List Bytes)
      → IsLog (db.keys s)
      → min < 2 ^ 64
      → Swept (keys_from (uint64_to_bytes min) (db.keys s)) max ds finished
      → Removes s min max (some (db.commit (map erase ds) s))
  Removes-finished s min max ds h hmin w =
      let (t, r) = db.commit (map erase ds) s in
      (
        t,
        r,
        refl,
        λ e.
            laws.keys-commit ds s t (λ i. (t, e i))
            ∙ keep_ext (λ k. not (has k ds)) (outside min max) (db.keys s)
                (λ k hk.
                  let key = has-All IsKey k (db.keys s) h.0 hk in
                  ground (arith, w k key, has-keys_from min k (db.keys s) hmin key)),
      )

  Removes-again :
      (s : db.State) (n min max : ℕ) (ds : List Bytes) (key : Bytes)
      → IsLog (db.keys s)
      → min < 2 ^ 64
      → Swept (keys_from (uint64_to_bytes min) (db.keys s)) max ds (again key)
      → length (db.keys s) < suc n
      → Begun (keys_from (uint64_to_bytes min) (db.keys s)) key (ds, again key)
      → IsKey key
      → ((t : db.State)
          → IsLog (db.keys t)
          → length (db.keys t) < n
          → Removes t (num key) max (delete_range db n (num key) max t))
      → Removes s min max (retry db (db.commit (map erase ds) s) (delete_range db n (num key) max))
  Removes-again s n min max ds key h hmin (inside, below, w) small b hkey rest =
      go (db.commit (map erase ds) s).0 (db.commit (map erase ds) s).1 refl
    where
      go :
          (t : db.State) (r : Result (Unit {0}))
          → db.commit (map erase ds) s ≡ (t, r)
          → Removes s min max (retry db (t, r) (delete_range db n (num key) max))
      go t (err e) c = (t, err e, refl, λ q. absurd (cc q))
      go t (ok a) c =
          let kept = laws.keys-commit ds s t c in
          let (y, hy, first, gone) = b refl in
          let (u, q, e, post) =
            rest t (subst IsLog (sym kept) (keep-IsLog (λ k. not (has k ds)) (db.keys s) h)) (
              ground (
                arith,
                ap length kept,
                length-keep_dropped (λ k. not (has k ds)) y (db.keys s),
                has-keys_from min y (db.keys s) hmin hy,
              )) in
          (
            u,
            q,
            e,
            λ o.
                post o
                ∙ ap (keep (outside (num key) max)) kept
                ∙ keep-keep (λ k. not (has k ds)) (outside (num key) max) (db.keys s)
                ∙ keep_ext (λ k. not (has k ds) && outside (num key) max k) (outside min max)
                    (db.keys s)
                    (λ k hk.
                      let one = has-All IsKey k (db.keys s) h.0 hk in
                      ground (
                        arith,
                        w k one,
                        has-keys_from min k (db.keys s) hmin one,
                        has-keys_from min key (db.keys s) hmin hkey,
                      )),
          )

  module _ (s : db.State) (n min max : ℕ) where
    resume-Removes :
        (how : Stop) (ds : List Bytes)
        → IsLog (db.keys s)
        → min < 2 ^ 64
        → length (db.keys s) < suc n
        → Swept (keys_from (uint64_to_bytes min) (db.keys s)) max ds how
        → ((key : Bytes) → Begun (keys_from (uint64_to_bytes min) (db.keys s)) key (ds, how))
        → ((key : Bytes) (t : db.State)
            → IsLog (db.keys t)
            → num key < 2 ^ 64
            → length (db.keys t) < n
            → Removes t (num key) max (delete_range db n (num key) max t))
        → Removes s min max (resume db s n min max how ds)
    resume-Removes finished ds h hmin small w b rest = Removes-finished s min max ds h hmin w
    resume-Removes (failed e) ds h hmin small w b rest = (s, err e, refl, λ q. absurd (cc q))
    resume-Removes (again key) ds h hmin small w b rest =
        Removes-again s n min max ds key h hmin w small (b key) (hkey w.0)
          (λ t a l. rest key t a (hkey w.0).0 l)
      where
        hkey : has key (keys_from (uint64_to_bytes min) (db.keys s)) ≡ true → IsKey key
        hkey =
            has-All IsKey key (keys_from (uint64_to_bytes min) (db.keys s))
              (keys_from-IsLog min (db.keys s) h).0

  pub delete_range-Removes :
      (fuel min max : ℕ) (s : db.State)
      → IsLog (db.keys s)
      → min < 2 ^ 64
      → length (db.keys s) < fuel
      → Removes s min max (delete_range db fuel min max s)
  unfolding delete_range
  delete_range-Removes zero min max s h hmin f = absurd (omega arith)
  delete_range-Removes (suc n) min max s h hmin f =
      let xs = keys_from (uint64_to_bytes min) (db.keys s) in
      let logs = keys_from-IsLog min (db.keys s) h in
      resume-Removes s n min max (sweep db s max [] xs).1 (sweep db s max [] xs).0 h hmin f
        (sweep-Swept db s max [] xs logs) (λ key. sweep-Begun s max xs key logs)
        (λ key t a l small. delete_range-Removes n (num key) max t a l small)
