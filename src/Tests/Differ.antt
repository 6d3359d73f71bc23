-- ===== src/Tests/Differ.antt =====
-- Two versions of a namespace, with an added, a removed, a changed and a recased entry.
use micro_conf.Text.Fold.{equal_fold, lower}
use micro_conf.Text.Bytes.{Bytes, codes, same}
use micro_conf.Dict.{Dict, IsMap, insert, lookup}
use micro_conf.Cfg.Differ.Same.{Agrees, is_same_iff}
use micro_conf.Cfg.Differ.Buckets.{entry, entry-build_namespace_diff}
use micro_conf.Cfg.Differ.{build_namespace_diff, place_new, place_old, scan_new, scan_old}
use micro_conf.Base.{[], false, none, null, refl, some, true, ◌↔◌, ◌∷◌, ◌≡◌, ◌⊎◌}

abbrev old_version : Dict Bytes
old_version =
    (codes "a", codes "1")
    ∷ (codes "b", codes "on")
    ∷ (codes "c", codes "y")
    ∷ (codes "e", codes "z")
    ∷ []

abbrev new_version : Dict Bytes
new_version =
    (codes "a", codes "2")
    ∷ (codes "b", codes "ON")
    ∷ (codes "d", codes "w")
    ∷ (codes "e", codes "z")
    ∷ []

old_version-IsMap : IsMap old_version
unfolding lookup same
old_version-IsMap = (refl, (refl, (refl, (refl, tt))))

new_version-IsMap : IsMap new_version
unfolding lookup same
new_version-IsMap = (refl, (refl, (refl, (refl, tt))))

abbrev app_yaml : Bytes
app_yaml = codes "app.yaml"

entry-build_namespace_diff_example :
    entry (build_namespace_diff app_yaml old_version new_version) (codes "a") ≡ record {
      added = none;
      removed = none;
      changed = some (record { left = codes "1"; right = codes "2" });
      unchanged = none;
    }
unfolding lookup same equal_fold lower
entry-build_namespace_diff_example =
    entry-build_namespace_diff app_yaml old_version new_version (codes "a") old_version-IsMap
      new_version-IsMap refl

is_same_iff_example : ((build_namespace_diff app_yaml old_version []).is_same ≡ true) ↔ (
    (null {A = Bytes × Bytes} [] ≡ true)
    ⊎ ((k : Bytes) → Agrees (lookup k old_version) (lookup k [])))
is_same_iff_example = is_same_iff app_yaml old_version [] old_version-IsMap tt

-- The whole difference of the two versions.
diff_run : build_namespace_diff app_yaml old_version new_version ≡ record {
  namespace = app_yaml;
  is_same = false;
  added = (codes "d", codes "w") ∷ [];
  removed = (codes "c", codes "y") ∷ [];
  changed = (codes "a", record { left = codes "1"; right = codes "2" }) ∷ [];
  unchanged = (codes "b", codes "on") ∷ (codes "e", codes "z") ∷ [];
}
unfolding build_namespace_diff scan_old scan_new place_old place_new lookup insert same equal_fold
    lower
diff_run = refl
