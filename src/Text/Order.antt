-- ===== src/Text/Order.antt =====
-- The order of Go's strings and of badger's keys.
use micro_conf.Base.{
  refl, Bool, [], arith, false, length, ltb, true, ℕ, ◌&&◌, ◌++◌, ◌==◌, ◌||◌, ◌∷◌, ◌≡◌,
}
use micro_conf.Text.Bytes.{same, Bytes}

-- Byte by byte.
unfoldable pub less : Bytes → Bytes → Bool
less s [] = false
less [] (y ∷ t) = true
less (x ∷ s) (y ∷ t) = ltb x y || (x == y && less s t)

-- The last byte decides between texts of one length that agree before it.
pub less-snoc :
    (s t : Bytes) (x y : ℕ)
    → length s ≡ length t
    → less (s ++ x ∷ []) (t ++ y ∷ []) ≡ (less s t || (same s t && ltb x y))
unfolding less same
less-snoc [] [] x y h = ground arith
less-snoc [] (b ∷ t) x y h = absurd (omega arith)
less-snoc (a ∷ s) [] x y h = absurd (omega arith)
less-snoc (a ∷ s) (b ∷ t) x y h = ground (arith, less-snoc s t x y)

pub less_asymm : (s t : Bytes) → less s t ≡ true → less t s ≡ false
unfolding less
less_asymm s [] h = absurd (cc h)
less_asymm [] (y ∷ t) h = refl
less_asymm (x ∷ s) (y ∷ t) h = ground (arith, less_asymm s t)

pub less_total : (s t : Bytes) → same s t ≡ false → (less s t || less t s) ≡ true
unfolding less same
less_total [] [] h = absurd (cc h)
less_total [] (y ∷ t) h = refl
less_total (x ∷ s) [] h = refl
less_total (x ∷ s) (y ∷ t) h = ground (arith, less_total s t)

pub less_trans : (s t u : Bytes) → less s t ≡ true → less t u ≡ true → less s u ≡ true
unfolding less
less_trans s [] u h k = absurd (cc h)
less_trans s (y ∷ t) [] h k = absurd (cc k)
less_trans [] (y ∷ t) (z ∷ u) h k = refl
less_trans (x ∷ s) (y ∷ t) (z ∷ u) h k = ground (arith, less_trans s t u)
