-- ===== src/Cfg/Differ/Same.antt =====
-- When a difference is reported as no difference.
use micro_conf.Base.{
  ◌≡◌, ◌↔◌, ◌⊎◌, inl, inr, Bool, true, ◌&&◌, Option, none, some, arith, null, Bool-cases,
}
use micro_conf.Text.Bytes.{Bytes}
use micro_conf.Text.Fold.{equal_fold}
use micro_conf.Dict.{Dict, lookup, IsMap, null_iff}
use micro_conf.Cfg.Differ.{Maps, compare_maps, build_namespace_diff}
use micro_conf.Cfg.Differ.Buckets.{at, at-compare_maps, Entry, nowhere, verdict}

-- Both versions lack a key, or hold values for it that differ in the case of letters at most.
abbrev pub Agrees : Option Bytes → Option Bytes → Type 0
Agrees none none = Unit {0}
Agrees none (some nv) = ⊥
Agrees (some v) none = ⊥
Agrees (some v) (some nv) = equal_fold nv v ≡ true

-- The three maps that a push would send are silent about a key.
record IsSilent (e : Entry) : Type 0 where
  added : e.added ≡ none
  removed : e.removed ≡ none
  changed : e.changed ≡ none

silent→agrees : (old new : Option Bytes) → IsSilent (verdict nowhere old new) → Agrees old new
silent→agrees none none h = tt
silent→agrees none (some nv) h = cc h.added
silent→agrees (some v) none h = cc h.removed
silent→agrees (some v) (some nv) h = ground (arith, h.changed)

agrees→silent : (old new : Option Bytes) → Agrees old new → IsSilent (verdict nowhere old new)
agrees→silent none none h = ground arith
agrees→silent none (some nv) h = absurd h
agrees→silent (some v) none h = absurd h
agrees→silent (some v) (some nv) h = ground arith

maps_null : Maps → Bool
maps_null m = null m.added_map && null m.removed_map && null m.changed_map

maps_null→silent : (m : Maps) (k : Bytes) → maps_null m ≡ true → IsSilent (at m k)
unfolding maps_null
maps_null→silent m k h = record {
  added = (null_iff m.added_map).0 (ground arith) k;
  removed = (null_iff m.removed_map).0 (ground arith) k;
  changed = (null_iff m.changed_map).0 (ground arith) k;
}

silent→maps_null : (m : Maps) → ((k : Bytes) → IsSilent (at m k)) → maps_null m ≡ true
unfolding maps_null
silent→maps_null m h = ground (
  arith,
  (null_iff m.added_map).1 (λ k. (h k).added),
  (null_iff m.removed_map).1 (λ k. (h k).removed),
  (null_iff m.changed_map).1 (λ k. (h k).changed),
)

module _ (old new : Dict Bytes) (ho : IsMap old) (hn : IsMap new) where
  maps_null_iff :
      (maps_null (compare_maps old new) ≡ true)
      ↔ ((k : Bytes) → Agrees (lookup k old) (lookup k new))
  maps_null_iff = (
    (λ h k.
        silent→agrees (lookup k old) (lookup k new)
          (rw (at-compare_maps old new k ho hn) at (maps_null→silent (compare_maps old new) k h))),
    (λ h. silent→maps_null (compare_maps old new) (λ k.
        rw (at-compare_maps old new k ho hn) (agrees→silent (lookup k old) (lookup k new) (h k)))),
  )

-- A difference is reported as "same" exactly when the new version is empty, whatever the old one
-- held, or the two versions agree on every key up to the case of letters.
pub is_same_iff :
    (namespace : Bytes) (old new : Dict Bytes)
    → IsMap old
    → IsMap new
    → ((build_namespace_diff namespace old new).is_same ≡ true)
      ↔ ((null new ≡ true) ⊎ ((k : Bytes) → Agrees (lookup k old) (lookup k new)))
unfolding build_namespace_diff maps_null
is_same_iff namespace old new ho hn = elim (Bool-cases (null new)) [
  | inl e ↦ (λ _. inl e, λ _. rw e)
  | inr f ↦ (
    (λ h. inr ((maps_null_iff old new ho hn).0 (rw f at h))),
    (λ h. rw f (elim h [ inl e ↦ cc | inr a ↦ (maps_null_iff old new ho hn).1 a ])),
  )
]
