-- ===== src/Raft/Log/Sweep.antt =====
-- One pass of the loop of DeleteRange over ascending keys.
use mathlib.Core.Path.{subst}
use micro_conf.Text.Order.{less}
use micro_conf.Text.Bytes.{Bytes, same_iff, same_refl}
use micro_conf.Raft.Log.Keys.{copy_key-IsKey, IsKey, IsLog, has, has-All, less-IsKey, num}
use micro_conf.Raft.Log.{
  turn, Verdict, copy_key, erase, fine, refused, too_big, LogDb, Stop, Write, again, failed,
  finished, sweep,
}
use micro_conf.Base.{
  Bool, ap, false, sym, ◌++◌, All, List, [], arith, leb, ltb, refl, true, ◌&&◌, ◌<◌, ◌∷◌, ◌≡◌, ◌≤◌,
  ℕ,
}

-- The deleted keys are those up to the end of the range, or those before the key that no longer
-- fits, which is in the range.
abbrev pub Swept : List Bytes → ℕ → List Bytes → Stop → Type 0
Swept xs max ds finished = (k : Bytes) → IsKey k → has k ds ≡ (has k xs && leb (num k) max)
Swept xs max ds (again key) =
    (has key xs ≡ true)
    × (leb (num key) max ≡ true)
    × ((k : Bytes) → IsKey k → has k ds ≡ (has k xs && ltb (num k) (num key)))
Swept xs max ds (failed e) = Unit

module _ (x : Bytes) (xs : List Bytes) (hx : IsKey x) (least : All (λ j. less x j ≡ true) xs) where
  smaller : (k : Bytes) → IsKey k → has k xs ≡ true → num x < num k
  smaller k hk h = ground (arith, less-IsKey x k hx hk, has-All (λ j. less x j ≡ true) k xs least h)

  Swept-outside : (max : ℕ) → max < num x → Swept (x ∷ xs) max [] finished
  Swept-outside max h k hk = ground (arith, smaller k hk, same_iff k x)

  Swept-stopped : (max : ℕ) → num x ≤ max → Swept (x ∷ xs) max [] (again x)
  Swept-stopped max h = (
    ground (arith, same_refl x),
    ground arith,
    λ k hk. ground (arith, smaller k hk, same_iff k x),
  )

  Swept-cons :
      (max : ℕ) (ds : List Bytes) (how : Stop)
      → All IsKey xs
      → num x ≤ max
      → Swept xs max ds how
      → Swept (x ∷ xs) max (x ∷ ds) how
  Swept-cons max ds finished keys h w = λ k hk. ground (arith, smaller k hk, same_iff k x, w k hk)
  Swept-cons max ds (again key) keys h (inside, below, w) = (
    ground arith,
    below,
    λ k hk.
        ground (arith, same_iff k x, w k hk, smaller key (has-All IsKey key xs keys inside) inside),
  )
  Swept-cons max ds (failed e) keys h w = tt

  turn-Swept :
      (max : ℕ) (v : Verdict) (r : List Bytes × Stop) (b : Bool)
      → All IsKey xs
      → ltb max (num x) ≡ b
      → Swept xs max r.0 r.1
      → Swept (x ∷ xs) max (turn x b v r).0 (turn x b v r).1
  unfolding turn
  turn-Swept max v r true keys e w = Swept-outside max (ground arith)
  turn-Swept max fine (ds, how) false keys e w = Swept-cons max ds how keys (ground arith) w
  turn-Swept max too_big r false keys e w = Swept-stopped max (ground arith)
  turn-Swept max (refused f) r false keys e w = tt

module _ (db : LogDb) (s : db.State) (max : ℕ) where
  pub sweep-turn :
      (held : List Write) (x : Bytes) (xs : List Bytes)
      → copy_key x ≡ x
      → sweep db s max held (x ∷ xs)
        ≡ turn x
            (ltb max (num x))
            (db.admit s held (erase x))
            (sweep db s max (held ++ erase x ∷ []) xs)
  unfolding sweep
  sweep-turn held x xs e =
      ap
        (λ key.
          turn key (ltb max (num key)) (db.admit s held (erase key))
            (sweep db s max (held ++ erase key ∷ []) xs))
        e

  pub sweep-Swept :
      (held : List Write) (xs : List Bytes)
      → IsLog xs
      → Swept xs max (sweep db s max held xs).0 (sweep db s max held xs).1
  unfolding sweep
  sweep-Swept held [] h = λ k hk. refl
  sweep-Swept held (x ∷ xs) ((hx, hs), (least, asc)) =
      subst (λ r. Swept (x ∷ xs) max r.0 r.1) (sym (sweep-turn held x xs (copy_key-IsKey x hx)))
        (turn-Swept x xs hx least max (db.admit s held (erase x))
          (sweep db s max (held ++ erase x ∷ []) xs) (ltb max (num x)) hs refl
          (sweep-Swept (held ++ erase x ∷ []) xs (hs, asc)))
