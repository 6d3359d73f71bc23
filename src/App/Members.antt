-- ===== src/App/Members.antt =====
-- Comma-separated member lists: `contains` and `removePart` of service/app/app.go.
pub mod Laws
use micro_conf.Base.{◌≡◌, ◌∷◌, ◌++◌, Bool, true, false, not, ◌||◌, any, keep, null, if◌then◌else◌}
use micro_conf.Text.Bytes.{Bytes}
use micro_conf.Text.Fold.{equal_fold}
use micro_conf.Text.Split.{split}
use micro_conf.Commons.{Str}

unfoldable pub contains : Bytes → Bytes → Bool
contains whole part = if null whole then false else any (λ v. equal_fold v part) (split b',' whole)

unfoldable pub remove_part : Str → Bytes → Bytes → Bytes
remove_part str whole part =
    if null whole || null part
    then whole
    else str.join_comma (keep (λ v. not (equal_fold v part)) (split b',' whole))

-- `if len(l) == 0 { l = username } else { l = l + "," + username }` of addRole.
unfoldable pub add_part : Bytes → Bytes → Bytes
add_part whole part = if null whole then part else whole ++ b',' ∷ part
