-- ===== src/Cfg/Differ.antt =====
-- service/cfg/differ.go: the difference between two versions of a namespace. A Go map is a `Dict`,
-- and a `range` loop visits its entries in the order of the list; a nil map is the empty one.
pub mod Buckets
pub mod Same
pub mod Unique
use micro_conf.Base.{
  Bool, true, false, ◌&&◌, Option, none, some, List, [], ◌∷◌, if◌then◌else◌, null,
}
use micro_conf.Text.Bytes.{Bytes}
use micro_conf.Text.Fold.{equal_fold}
use micro_conf.Dict.{Dict, lookup, insert}

-- StringPair of codec.go; in a changed entry `left` is the old value and `right` the new one.
pub record StringPair : Type 0 where
  pub left : Bytes
  pub right : Bytes

pub record NamespaceDiff : Type 0 where
  pub namespace : Bytes
  pub is_same : Bool
  pub added : Dict Bytes
  pub removed : Dict Bytes
  pub changed : Dict StringPair
  pub unchanged : Dict Bytes

-- The four maps that the loops of buildNamespaceDiff fill.
pub record Maps : Type 0 where
  pub added_map : Dict Bytes
  pub removed_map : Dict Bytes
  pub changed_map : Dict StringPair
  pub unchanged_map : Dict Bytes

abbrev pub no_maps : Maps
no_maps = record { added_map = []; removed_map = []; changed_map = []; unchanged_map = [] }

-- The body of the loop over the old map.
unfoldable pub place_old : Bytes → Bytes → Option Bytes → Maps → Maps
place_old k v none m = record m { removed_map = insert k v m.removed_map }
place_old k v (some nv) m =
    if equal_fold nv v
    then record m { unchanged_map = insert k v m.unchanged_map }
    else record m { changed_map = insert k (record { left = v; right = nv }) m.changed_map }

unfoldable pub scan_old : Dict Bytes → Dict Bytes → Maps → Maps
scan_old new [] m = m
scan_old new ((k, v) ∷ old) m = scan_old new old (place_old k v (lookup k new) m)

-- The body of the loop over the new map.
unfoldable pub place_new : Bytes → Bytes → Option Bytes → Maps → Maps
place_new k v none m = record m { added_map = insert k v m.added_map }
place_new k v (some ov) m = m

unfoldable pub scan_new : Dict Bytes → Dict Bytes → Maps → Maps
scan_new old [] m = m
scan_new old ((k, v) ∷ new) m = scan_new old new (place_new k v (lookup k old) m)

unfoldable pub compare_maps : Dict Bytes → Dict Bytes → Maps
compare_maps old new = scan_new old new (scan_old new old no_maps)

unfoldable pub build_namespace_diff : Bytes → Dict Bytes → Dict Bytes → NamespaceDiff
unfolding compare_maps
build_namespace_diff namespace old new =
    if null new
    then record {
      namespace = namespace;
      is_same = true;
      added = [];
      removed = [];
      changed = [];
      unchanged = old;
    }
    else (let m = compare_maps old new in
        record {
          namespace = namespace;
          is_same = null m.added_map && null m.removed_map && null m.changed_map;
          added = m.added_map;
          removed = m.removed_map;
          changed = m.changed_map;
          unchanged = m.unchanged_map;
        })
