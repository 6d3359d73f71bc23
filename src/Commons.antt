-- ===== src/Commons.antt =====
-- What the services use of the package str of winjeg/go-commons, whose source is elsewhere.
use mathlib.Core.List.{reverse}
use micro_conf.Base.{[], false, ℕ, ◌==◌, ◌≡◌, Bool, List, ◌∷◌, any}
use micro_conf.Text.Bytes.{Bytes, same, has_suffix}
use micro_conf.Text.Split.{join}

abbrev pub begins_with : ℕ → Bytes → Bool
begins_with c [] = false
begins_with c (x ∷ s) = x == c

-- No comma at either end.
abbrev pub Trimmed : Bytes → Type 0
Trimmed s = (begins_with b',' s ≡ false) × (begins_with b',' (reverse s) ≡ false)

pub record Str : Type 0 where
  -- str.Join(parts, ",")
  pub join_comma : List Bytes → Bytes
  -- str.TrimComma(s)
  pub trim_comma : Bytes → Bytes
  -- str.Contains(parts, s)
  pub contains : List Bytes → Bytes → Bool
  -- str.EndsWith(s, suffix)
  pub ends_with : Bytes → Bytes → Bool
  pub join_comma_lem : (ps : List Bytes) → join_comma ps ≡ join b',' ps
  pub trim_comma_trimmed : (s : Bytes) → Trimmed s → trim_comma s ≡ s
  pub trim_comma_front : (s : Bytes) → Trimmed s → trim_comma (b',' ∷ s) ≡ s
  pub contains_lem : (ps : List Bytes) (s : Bytes) → contains ps s ≡ any (λ p. same p s) ps
  pub ends_with_lem : (s suffix : Bytes) → ends_with s suffix ≡ has_suffix s suffix
