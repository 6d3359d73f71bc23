-- ===== src/Text/Index.antt =====
-- strings.Index and strings.LastIndex of one byte; `none` is the -1 of the source.
use micro_conf.Base.{
  ℕ, suc, ◌≡◌, refl, true, false, Option, none, some, [], ◌∷◌, ◌++◌, arith, ◌==◌, length,
  if◌then◌else◌,
}
use micro_conf.Text.Bytes.{Bytes, Lacks}

unfoldable pub index : ℕ → Bytes → Option ℕ
index c [] = none
index c (x ∷ s) = elim (x == c) [
  | true ↦ some 0
  | false ↦ elim (index c s) [ some i ↦ some (suc i) | none ↦ none ]
]

unfoldable pub last_index : ℕ → Bytes → Option ℕ
last_index c [] = none
last_index c (x ∷ s) = elim (last_index c s) [
  | some i ↦ some (suc i)
  | none ↦ if x == c then some 0 else none
]

pub index-append : (c : ℕ) (p s : Bytes) → Lacks c p → index c (p ++ c ∷ s) ≡ some (length p)
unfolding index
index-append c [] s h = ground arith
index-append c (x ∷ p) s (hx, hp) = ground (arith, index-append c p s hp)

pub index-Lacks : (c : ℕ) (s : Bytes) → Lacks c s → index c s ≡ none
unfolding index
index-Lacks c [] h = refl
index-Lacks c (x ∷ s) (hx, hs) = ground (arith, index-Lacks c s hs)

pub last_index-Lacks : (c : ℕ) (s : Bytes) → Lacks c s → last_index c s ≡ none
unfolding last_index
last_index-Lacks c [] h = refl
last_index-Lacks c (x ∷ s) (hx, hs) = ground (arith, last_index-Lacks c s hs)

pub last_index-append :
    (c : ℕ) (p s : Bytes) → Lacks c s → last_index c (p ++ c ∷ s) ≡ some (length p)
unfolding last_index
last_index-append c [] s h = ground (arith, last_index-Lacks c s h)
last_index-append c (x ∷ p) s h = ground (arith, last_index-append c p s h)
