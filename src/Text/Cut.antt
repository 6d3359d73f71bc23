-- ===== src/Text/Cut.antt =====
-- strings.SplitN(s, sep, 2), strings.TrimSpace over the ASCII spaces, and the replacement of a
-- byte.
use micro_conf.Text.Bytes.{Bytes, Lacks}
use micro_conf.Base.{
  Bool, Option, [], arith, false, if◌then◌else◌, leb, none, not, null, refl, some, true, ℕ, ◌&&◌,
  ◌++◌, ◌==◌, ◌||◌, ◌∷◌, ◌≡◌,
}

-- The text before the first separator and, if there is one, the text behind it.
unfoldable pub cut : ℕ → Bytes → Bytes × Option Bytes
cut sep [] = ([], none)
cut sep (c ∷ s) = let rest = cut sep s in if c == sep then ([], some s) else (c ∷ rest.0, rest.1)

pub cut-append : (sep : ℕ) (p s : Bytes) → Lacks sep p → cut sep (p ++ sep ∷ s) ≡ (p, some s)
unfolding cut
cut-append sep [] s h = ground arith
cut-append sep (c ∷ p) s (hc, hp) = ground (arith, cut-append sep p s hp)

pub cut-Lacks : (sep : ℕ) (s : Bytes) → Lacks sep s → cut sep s ≡ (s, none)
unfolding cut
cut-Lacks sep [] h = refl
cut-Lacks sep (c ∷ s) (hc, hs) = ground (arith, cut-Lacks sep s hs)

-- Tab, line feed, vertical tab, form feed, carriage return and space.
unfoldable pub is_space : ℕ → Bool
is_space c = (leb 9 c && leb c 13) || c == 32

unfoldable pub trim_left : Bytes → Bytes
unfolding is_space
trim_left [] = []
trim_left (c ∷ s) = let rest = trim_left s in if is_space c then rest else c ∷ s

unfoldable pub trim_right : Bytes → Bytes
unfolding is_space
trim_right [] = []
trim_right (c ∷ s) = let rest = trim_right s in if is_space c && null rest then [] else c ∷ rest

unfoldable pub trim_space : Bytes → Bytes
unfolding trim_left trim_right
trim_space s = trim_right (trim_left s)

-- The text does not begin with a space.
abbrev pub StartsInk : Bytes → Type 0
StartsInk [] = ⊥
StartsInk (c ∷ s) = is_space c ≡ false

-- The text is empty or does not end with a space.
unfoldable pub ends_ink : Bytes → Bool
ends_ink [] = true
ends_ink (c ∷ []) = not (is_space c)
ends_ink (c ∷ d ∷ s) = ends_ink (d ∷ s)

pub trim_right-ends_ink : (s : Bytes) → ends_ink s ≡ true → trim_right s ≡ s
unfolding trim_right ends_ink
trim_right-ends_ink [] h = refl
trim_right-ends_ink (c ∷ []) h = ground arith
trim_right-ends_ink (c ∷ d ∷ s) h = rw (trim_right-ends_ink (d ∷ s) h) (ground arith)

pub trim_left-StartsInk : (s : Bytes) → StartsInk s → trim_left s ≡ s
unfolding trim_left
trim_left-StartsInk [] h = refl
trim_left-StartsInk (c ∷ s) h = rw h

-- A text with no space at its ends stays as it is.
pub trim_space-ink : (s : Bytes) → StartsInk s → ends_ink s ≡ true → trim_space s ≡ s
unfolding trim_space
trim_space-ink s h e = rw (trim_left-StartsInk s h) (trim_right-ends_ink s e)

-- strings.ReplaceAll(s, old, new) for `old` of one byte.
unfoldable pub replace_byte : ℕ → Bytes → Bytes → Bytes
replace_byte old new [] = []
replace_byte old new (c ∷ s) =
    let rest = replace_byte old new s in if c == old then new ++ rest else c ∷ rest

pub replace_byte-Lacks : (old : ℕ) (new s : Bytes) → Lacks old s → replace_byte old new s ≡ s
unfolding replace_byte
replace_byte-Lacks old new [] h = refl
replace_byte-Lacks old new (c ∷ s) (hc, hs) = ground (arith, replace_byte-Lacks old new s hs)
