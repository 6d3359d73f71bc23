-- ===== src/Text/Split.antt =====
-- strings.Split and strings.Join at a separator of one byte.
use micro_conf.Base.{
  ℕ, ◌≡◌, ◌≢◌, refl, ◌∙◌, ap, List, [], ◌∷◌, ◌++◌, arith, ◌==◌, ==_iff, All, if◌then◌else◌,
  append-nil,
}
use micro_conf.Text.Bytes.{Bytes, Lacks}

-- Puts a byte in front of the first part.
unfoldable pub onto_first : ℕ → List Bytes → List Bytes
onto_first c [] = (c ∷ []) ∷ []
onto_first c (p ∷ ps) = (c ∷ p) ∷ ps

unfoldable pub split : ℕ → Bytes → List Bytes
unfolding onto_first
split sep [] = [] ∷ []
split sep (c ∷ s) = let rest = split sep s in if c == sep then [] ∷ rest else onto_first c rest

-- Every part behind a separator.
unfoldable pub separated : ℕ → List Bytes → Bytes
separated sep [] = []
separated sep (p ∷ ps) = sep ∷ (p ++ separated sep ps)

unfoldable pub join : ℕ → List Bytes → Bytes
unfolding separated
join sep [] = []
join sep (p ∷ ps) = p ++ separated sep ps

pub split-ne-nil : (sep : ℕ) (s : Bytes) → split sep s ≢ []
unfolding split
split-ne-nil sep [] = cc
split-ne-nil sep (c ∷ s) = split-ne-nil_step (split sep s)
  where
    split-ne-nil_step : (r : List Bytes) → (if c == sep then [] ∷ r else onto_first c r) ≢ []
    split-ne-nil_step [] = ground arith
    split-ne-nil_step (p ∷ ps) = ground arith

join-onto_first : (sep c : ℕ) (ps : List Bytes) → join sep (onto_first c ps) ≡ c ∷ join sep ps
unfolding join onto_first
join-onto_first sep c [] = refl
join-onto_first sep c (p ∷ ps) = refl

join-empty : (sep : ℕ) (ps : List Bytes) → ps ≢ [] → join sep ([] ∷ ps) ≡ sep ∷ join sep ps
unfolding join
join-empty sep [] h = absurd (h refl)
join-empty sep (p ∷ ps) h = refl

-- Joining the parts of a split gives the text back.
pub join-split : (sep : ℕ) (s : Bytes) → join sep (split sep s) ≡ s
unfolding split
join-split sep [] = unfold join in refl
join-split sep (c ∷ s) = ground (
  arith,
  join-split sep s,
  join-onto_first sep c (split sep s),
  join-empty sep (split sep s) (split-ne-nil sep s),
)

-- The text up to the first separator is the first part.
pub split-append :
    (sep : ℕ) (p s : Bytes) → Lacks sep p → split sep (p ++ sep ∷ s) ≡ p ∷ split sep s
unfolding split
split-append sep [] s h = ground arith
split-append sep (c ∷ p) s (hc, hp) = ground (arith, split-append sep p s hp)

pub split_single : (sep : ℕ) (p : Bytes) → Lacks sep p → split sep p ≡ p ∷ []
unfolding split
split_single sep [] h = refl
split_single sep (c ∷ p) (hc, hp) = ground (arith, split_single sep p hp)

-- Splitting a join gives the parts back, if there is a part and none holds the separator.
pub split-join :
    (sep : ℕ) (p : Bytes) (ps : List Bytes)
    → All (Lacks sep) (p ∷ ps)
    → split sep (join sep (p ∷ ps)) ≡ p ∷ ps
unfolding join
split-join sep p [] (hp, _) = rw append-nil (split_single sep p hp)
split-join sep p (q ∷ ps) (hp, hps) =
    split-append sep p (join sep (q ∷ ps)) hp ∙ ap (λ r. p ∷ r) (split-join sep q ps hps)

onto_first-append :
    (c : ℕ) (ps qs : List Bytes) → ps ≢ [] → onto_first c ps ++ qs ≡ onto_first c (ps ++ qs)
unfolding onto_first
onto_first-append c [] qs h = absurd (h refl)
onto_first-append c (p ∷ ps) qs h = refl

-- A separator between two texts splits them apart.
pub split-sep : (sep : ℕ) (s t : Bytes) → split sep (s ++ sep ∷ t) ≡ split sep s ++ split sep t
unfolding split
split-sep sep [] t = ground arith
split-sep sep (c ∷ s) t =
    ground (
      arith,
      split-sep sep s t,
      onto_first-append c (split sep s) (split sep t) (split-ne-nil sep s),
    )

-- No part of a split holds the separator.
pub split-Lacks : (sep : ℕ) (s : Bytes) → All (Lacks sep) (split sep s)
unfolding split
split-Lacks sep [] = (tt, tt)
split-Lacks sep (c ∷ s) = go (split sep s) (split-Lacks sep s)
  where
    go :
        (r : List Bytes)
        → All (Lacks sep) r
        → All (Lacks sep) (if c == sep then [] ∷ r else onto_first c r)
    go [] h = ground (arith, ==_iff c sep)
    go (p ∷ ps) h = ground (arith, ==_iff c sep)
