-- ===== src/Cfg/Differ/Unique.antt =====
-- No map of a difference has a key twice.
use micro_conf.Text.Fold.{equal_fold}
use micro_conf.Text.Bytes.{Bytes}
use micro_conf.Dict.{Dict, IsMap, insert, insert-IsMap, lookup}
use micro_conf.Cfg.Differ.{
  Maps, build_namespace_diff, compare_maps, no_maps, place_new, place_old, scan_new, scan_old,
}
use micro_conf.Base.{Bool, Option, [], false, if◌then◌else◌, none, null, some, true, ◌∷◌, ◌≡◌}

-- The maps of a difference have no key twice.
abbrev HasMaps : Maps → Type 0
HasMaps m = IsMap m.added_map × IsMap m.removed_map × IsMap m.changed_map

place_old-HasMaps :
    (k v : Bytes) (nv : Option Bytes) (m : Maps) → HasMaps m → HasMaps (place_old k v nv m)
unfolding place_old
place_old-HasMaps k v none m (a, r, c) = (a, insert-IsMap k v m.removed_map r, c)
place_old-HasMaps k v (some nv) m (a, r, c) = go (equal_fold nv v)
  where
    go :
        (b : Bool)
        → HasMaps (
            if b then record m { unchanged_map = insert k v m.unchanged_map } else record m {
              changed_map = insert k (record { left = v; right = nv }) m.changed_map;
            })
    go true = (a, r, c)
    go false = (a, r, insert-IsMap k (record { left = v; right = nv }) m.changed_map c)

scan_old-HasMaps : (new old : Dict Bytes) (m : Maps) → HasMaps m → HasMaps (scan_old new old m)
unfolding scan_old
scan_old-HasMaps new [] m h = h
scan_old-HasMaps new ((k, v) ∷ old) m h =
    scan_old-HasMaps new old (place_old k v (lookup k new) m)
      (place_old-HasMaps k v (lookup k new) m h)

place_new-HasMaps :
    (k v : Bytes) (ov : Option Bytes) (m : Maps) → HasMaps m → HasMaps (place_new k v ov m)
unfolding place_new
place_new-HasMaps k v none m (a, r, c) = (insert-IsMap k v m.added_map a, r, c)
place_new-HasMaps k v (some ov) m h = h

scan_new-HasMaps : (old new : Dict Bytes) (m : Maps) → HasMaps m → HasMaps (scan_new old new m)
unfolding scan_new
scan_new-HasMaps old [] m h = h
scan_new-HasMaps old ((k, v) ∷ new) m h =
    scan_new-HasMaps old new (place_new k v (lookup k old) m)
      (place_new-HasMaps k v (lookup k old) m h)

compare_maps-HasMaps : (old new : Dict Bytes) → HasMaps (compare_maps old new)
unfolding compare_maps
compare_maps-HasMaps old new =
    scan_new-HasMaps old new (scan_old new old no_maps)
      (scan_old-HasMaps new old no_maps (tt, tt, tt))

pub build_namespace_diff-HasMaps :
    (namespace : Bytes) (old new : Dict Bytes)
    → null new ≡ false
    → IsMap (build_namespace_diff namespace old new).added
      × IsMap (build_namespace_diff namespace old new).removed
      × IsMap (build_namespace_diff namespace old new).changed
unfolding build_namespace_diff
build_namespace_diff-HasMaps namespace old new h = rw h (compare_maps-HasMaps old new)
