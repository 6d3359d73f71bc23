-- ===== src/Raft/Log/Keys.antt =====
-- What the log relies on of badger, and keys that hold indices in ascending order.
use mathlib.Core.Path.{subst}
use micro_conf.Text.Word.{
  fits_eight, get_word, get_word-put_word, length-put_word, less-put_word, put_word,
}
use micro_conf.Text.Order.{less}
use micro_conf.Text.Bytes.{eq_of_same, same_iff, Bytes, same}
use micro_conf.Raft.Log.{uint64_to_bytes, LogDb, Write, copy_key, erase, fine, put}
use micro_conf.Base.Outcome.{Result, err, not_found, ok}
use micro_conf.Base.{
  false, sym, take, take-append, ◌++◌, ◌||◌, All, All-keep, Bool, List, [], any, ap, arith,
  if◌then◌else◌, keep, length, ltb, map, not, refl, true, ◌&&◌, ◌<◌, ◌^◌, ◌∙◌, ◌∷◌, ◌≡◌, ℕ,
}

-- An element of a slice of keys.
abbrev pub has : Bytes → List Bytes → Bool
has k = any (same k)

abbrev pub num : Bytes → ℕ
num k = get_word 0 k

abbrev pub without : List Bytes → List Bytes → List Bytes
without ds = keep (λ k. not (has k ds))

-- What a read of a key gives after some writes.
abbrev pub replay : Bytes → List Write → Result Bytes → Result Bytes
replay k [] r = r
replay k (put j v ∷ ws) r = replay k ws (if same j k then ok v else r)
replay k (erase j ∷ ws) r = replay k ws (if same j k then err not_found else r)

-- Badger's promises: a transaction that is committed has made its writes, in their order; one that
-- holds nothing yet takes a delete.
pub record IsLogDb (db : LogDb) : Type 0 where
  pub find-commit :
      (ws : List Write) (k : Bytes) (s t : db.State)
      → db.commit ws s ≡ (t, ok tt)
      → db.find k t ≡ replay k ws (db.find k s)
  pub keys-commit :
      (ds : List Bytes) (s t : db.State)
      → db.commit (map erase ds) s ≡ (t, ok tt)
      → db.keys t ≡ without ds (db.keys s)
  pub admit_first : (s : db.State) (k : Bytes) → db.admit s [] (erase k) ≡ fine

-- A key that uint64ToBytes writes.
abbrev pub IsKey : Bytes → Type 0
IsKey k = (num k < 2 ^ 64) × (k ≡ put_word 8 (num k))

abbrev pub Ascending : List Bytes → Type 0
Ascending [] = Unit
Ascending (k ∷ ks) = All (λ j. less k j ≡ true) ks × Ascending ks

-- The keys of a log are indices, in the order in which badger iterates.
abbrev pub IsLog : List Bytes → Type 0
IsLog ks = All IsKey ks × Ascending ks

pub put_word-IsKey : (u : ℕ) → u < 2 ^ 64 → IsKey (put_word 8 u)
put_word-IsKey u h = (
  omega (arith, get_word-put_word 8 u (fits_eight u h)),
  ap (put_word 8) (sym (get_word-put_word 8 u (fits_eight u h))),
)

pub length-IsKey : (k : Bytes) → IsKey k → length k ≡ 8
length-IsKey k h = ap length h.1 ∙ length-put_word 8 (num k)

pub copy_key-IsKey : (k : Bytes) → IsKey k → copy_key k ≡ k
unfolding copy_key
copy_key-IsKey k h = ground (
  arith,
  length-IsKey k h,
  ap (λ n. take n (k ++ uint64_to_bytes 0)) (sym (length-IsKey k h))
      ∙ take-append k (uint64_to_bytes 0),
)

pub less-IsKey : (k j : Bytes) → IsKey k → IsKey j → less k j ≡ ltb (num k) (num j)
less-IsKey k j hk hj =
    (λ i. less (hk.1 i) (hj.1 i))
    ∙ less-put_word 8 (num k) (num j) (fits_eight (num k) hk.0) (fits_eight (num j) hj.0)

pub has-All : (P : Bytes → Type 0) (k : Bytes) (ks : List Bytes) → All P ks → has k ks ≡ true → P k
has-All P k [] a h = absurd (cc h)
has-All P k (j ∷ ks) (a, rest) h = go (same k j) refl (has-All P k ks rest) h
  where
    go : (b : Bool) → same k j ≡ b → (has k ks ≡ true → P k) → (b || has k ks) ≡ true → P k
    go true e f g = subst P (sym (eq_of_same k j e)) a
    go false e f g = f g

pub has-keep :
    (p : Bytes → Bool) (k : Bytes) (ks : List Bytes) → has k (keep p ks) ≡ (has k ks && p k)
has-keep p k [] = refl
has-keep p k (j ∷ ks) = ground (arith, same_iff k j, has-keep p k ks)

pub keep-Ascending : (p : Bytes → Bool) (ks : List Bytes) → Ascending ks → Ascending (keep p ks)
keep-Ascending p [] h = tt
keep-Ascending p (k ∷ ks) (h, rest) = go (p k) (keep-Ascending p ks rest)
  where
    go : (b : Bool) → Ascending (keep p ks) → Ascending (if b then k ∷ keep p ks else keep p ks)
    go true r = (All-keep (λ j. less k j ≡ true) (λ j. less k j ≡ true) p (λ j a _. a) ks h, r)
    go false r = r

pub keep-IsLog : (p : Bytes → Bool) (ks : List Bytes) → IsLog ks → IsLog (keep p ks)
keep-IsLog p ks h = (All-keep IsKey IsKey p (λ k a _. a) ks h.0, keep-Ascending p ks h.1)
