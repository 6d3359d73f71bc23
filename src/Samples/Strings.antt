-- ===== src/Samples/Strings.antt =====
-- A library of strings that does what the services rely on, and a digest.
use micro_conf.Text.Split.{join}
use micro_conf.Text.Bytes.{Bytes, has_suffix, same}
use micro_conf.Commons.{Str, Trimmed, begins_with}
use micro_conf.Base.{[], any, false, if◌then◌else◌, null, refl, ◌==◌, ◌∷◌, ◌≡◌}
use mathlib.Core.List.{reverse, reverse-reverse}

abbrev pub strip : Bytes → Bytes
strip [] = []
strip (x ∷ s) = let rest = strip s in if x == b',' then rest else x ∷ s

strip_front : (s : Bytes) → begins_with b',' s ≡ false → strip s ≡ s
strip_front [] h = refl
strip_front (x ∷ s) h = rw h

abbrev pub trim : Bytes → Bytes
trim s = reverse (strip (reverse (strip s)))

pub trim-Trimmed : (s : Bytes) → Trimmed s → trim s ≡ s
trim-Trimmed s (front, back) =
    rw (strip_front s front, strip_front (reverse s) back) (reverse-reverse s)

pub trim_front : (s : Bytes) → Trimmed s → trim (b',' ∷ s) ≡ s
trim_front s h = trim-Trimmed s h

abbrev pub strings : Str
strings = record {
  join_comma = λ ps. join b',' ps;
  trim_comma = trim;
  contains = λ ps s. any (λ p. same p s) ps;
  ends_with = has_suffix;
  join_comma_lem = λ ps. refl;
  trim_comma_trimmed = trim-Trimmed;
  trim_comma_front = trim_front;
  contains_lem = λ ps s. refl;
  ends_with_lem = λ s suffix. refl;
}

-- It keeps the text; the digests of the program differ from it in what they hide.
abbrev pub digest : Bytes → Bytes
digest s = b'0' ∷ s

pub digest-null : (s : Bytes) → null (digest s) ≡ false
digest-null s = refl
