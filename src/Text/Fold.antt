-- ===== src/Text/Fold.antt =====
-- strings.EqualFold, with the folding of the ASCII letters.
use micro_conf.Base.{ℕ, ◌+◌, ◌≡◌, ◌↔◌, ◌∙◌, Bool, true, ◌&&◌, map, arith, leb, if◌then◌else◌}
use micro_conf.Text.Bytes.{Bytes, same, same_iff, same_refl}

unfoldable pub lower : ℕ → ℕ
lower c = if leb b'A' c && leb c b'Z' then c + 32 else c

unfoldable pub equal_fold : Bytes → Bytes → Bool
equal_fold s t = same (map lower s) (map lower t)

pub equal_fold_iff : (s t : Bytes) → (equal_fold s t ≡ true) ↔ (map lower s ≡ map lower t)
unfolding equal_fold
equal_fold_iff s t = same_iff (map lower s) (map lower t)

pub equal_fold_refl : (s : Bytes) → equal_fold s s ≡ true
unfolding equal_fold
equal_fold_refl s = same_refl (map lower s)

pub equal_fold_comm : (s t : Bytes) → equal_fold s t ≡ equal_fold t s
equal_fold_comm s t = ground (arith, equal_fold_iff s t, equal_fold_iff t s)

pub equal_fold_trans :
    (s t u : Bytes) → equal_fold s t ≡ true → equal_fold t u ≡ true → equal_fold s u ≡ true
equal_fold_trans s t u p q =
    (equal_fold_iff s u).1 ((equal_fold_iff s t).0 p ∙ (equal_fold_iff t u).0 q)

-- Texts that fold alike answer every comparison alike.
pub equal_fold_cong : (s t u : Bytes) → equal_fold s t ≡ true → equal_fold s u ≡ equal_fold t u
equal_fold_cong s t u p = ground (arith, equal_fold_iff s u, equal_fold_iff t u, equal_fold_iff s t)
