-- ===== src/Cfg/Differ/Buckets.antt =====
-- Which of the four maps of a difference holds a key.
use micro_conf.Base.{
  ◌≡◌, ◌∙◌, refl, ap, false, Option, none, some, [], ◌∷◌, arith, if◌then◌else◌, null,
}
use micro_conf.Text.Bytes.{Bytes, same, same_iff}
use micro_conf.Text.Fold.{equal_fold}
use micro_conf.Dict.{Dict, lookup, lookup-insert, IsMap}
use micro_conf.Cfg.Differ.{
  StringPair, Maps, no_maps, place_old, scan_old, place_new, scan_new, compare_maps, NamespaceDiff,
  build_namespace_diff,
}

-- What the four maps hold under one key: added, removed, changed, unchanged.
pub record Entry : Type 0 where
  pub added : Option Bytes
  pub removed : Option Bytes
  pub changed : Option StringPair
  pub unchanged : Option Bytes

abbrev pub at : Maps → Bytes → Entry
at m k = record {
  added = lookup k m.added_map;
  removed = lookup k m.removed_map;
  changed = lookup k m.changed_map;
  unchanged = lookup k m.unchanged_map;
}

abbrev pub nowhere : Entry
nowhere = record { added = none; removed = none; changed = none; unchanged = none }

-- What the old and the new value of a key call for, on top of `e`.
abbrev pub verdict : Entry → Option Bytes → Option Bytes → Entry
verdict e none none = e
verdict e none (some nv) = record e { added = some nv }
verdict e (some v) none = record e { removed = some v }
verdict e (some v) (some nv) =
    if equal_fold nv v
    then record e { unchanged = some v }
    else record e { changed = some (record { left = v; right = nv }) }

-- Without an old value the first loop leaves a key alone.
abbrev old_side : Entry → Option Bytes → Option Bytes → Entry
old_side e none nv = e
old_side e (some v) nv = verdict e (some v) nv

at-place_old :
    (i w k : Bytes) (nv : Option Bytes) (m : Maps)
    → at (place_old i w nv m) k ≡ (if same i k then verdict (at m k) (some w) nv else at m k)
unfolding place_old
at-place_old i w k none m = ground (arith, lookup-insert i k w m.removed_map)
at-place_old i w k (some nv) m = ground (
  arith,
  lookup-insert i k w m.unchanged_map,
  lookup-insert i k (record { left = w; right = nv }) m.changed_map,
)

at-scan_old :
    (new old : Dict Bytes) (m : Maps) (k : Bytes)
    → IsMap old
    → at (scan_old new old m) k ≡ old_side (at m k) (lookup k old) (lookup k new)
unfolding scan_old lookup
at-scan_old new [] m k h = refl
at-scan_old new ((i, w) ∷ old) m k (fresh, h) = ground (
  arith,
  at-scan_old new old (place_old i w (lookup i new) m) k h,
  at-place_old i w k (lookup i new) m,
  same_iff i k,
)

-- With an old value the second loop leaves a key alone.
abbrev new_side : Entry → Option Bytes → Option Bytes → Entry
new_side e (some v) nv = e
new_side e none nv = verdict e none nv

at-place_new :
    (i w k : Bytes) (ov : Option Bytes) (m : Maps)
    → at (place_new i w ov m) k ≡ (if same i k then new_side (at m k) ov (some w) else at m k)
unfolding place_new
at-place_new i w k none m = ground (arith, lookup-insert i k w m.added_map)
at-place_new i w k (some ov) m = ground arith

at-scan_new :
    (old new : Dict Bytes) (m : Maps) (k : Bytes)
    → IsMap new
    → at (scan_new old new m) k ≡ new_side (at m k) (lookup k old) (lookup k new)
unfolding scan_new lookup
at-scan_new old [] m k h = ground arith
at-scan_new old ((i, w) ∷ new) m k (fresh, h) = ground (
  arith,
  at-scan_new old new (place_new i w (lookup i old) m) k h,
  at-place_new i w k (lookup i old) m,
  same_iff i k,
)

both_sides :
    (old new : Option Bytes) → new_side (old_side nowhere old new) old new ≡ verdict nowhere old new
both_sides none none = refl
both_sides none (some nv) = refl
both_sides (some v) new = refl

pub at-compare_maps :
    (old new : Dict Bytes) (k : Bytes)
    → IsMap old
    → IsMap new
    → at (compare_maps old new) k ≡ verdict nowhere (lookup k old) (lookup k new)
unfolding compare_maps lookup
at-compare_maps old new k ho hn =
    at-scan_new old new (scan_old new old no_maps) k hn
    ∙ ap (λ e. new_side e (lookup k old) (lookup k new)) (at-scan_old new old no_maps k ho)
    ∙ both_sides (lookup k old) (lookup k new)

-- What a difference says of one key.
abbrev pub entry : NamespaceDiff → Bytes → Entry
entry d k = record {
  added = lookup k d.added;
  removed = lookup k d.removed;
  changed = lookup k d.changed;
  unchanged = lookup k d.unchanged;
}

-- If the new version has an entry, the difference of two maps says of every key exactly what its
-- old and new values call for: added, removed, changed with both values, unchanged (where the two
-- differ in the case of letters at most), or nothing for a key of neither map.
pub entry-build_namespace_diff :
    (namespace : Bytes) (old new : Dict Bytes) (k : Bytes)
    → IsMap old
    → IsMap new
    → null new ≡ false
    → entry (build_namespace_diff namespace old new) k
      ≡ verdict nowhere (lookup k old) (lookup k new)
unfolding build_namespace_diff
entry-build_namespace_diff namespace old new k ho hn h = rw h (at-compare_maps old new k ho hn)
