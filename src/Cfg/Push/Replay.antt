-- ===== src/Cfg/Push/Replay.antt =====
-- The events of a difference, applied by a client to its copy of the old version.
use micro_conf.Cfg.Differ.Unique.{build_namespace_diff-HasMaps}
use mathlib.Core.Path.{subst}
use micro_conf.Text.Fold.{equal_fold, equal_fold_refl}
use micro_conf.Text.Bytes.{Bytes, same, same_iff}
use micro_conf.Dict.{Dict, IsMap, insert, lookup, lookup-cons, lookup-insert, lookup-remove, remove}
use micro_conf.Cfg.Push.{
  event_namespace, ConfigChangeEvent, added_event, changed_event, config_remove, events_of,
  removed_event,
}
use micro_conf.Cfg.Differ.Same.{Agrees}
use micro_conf.Cfg.Differ.Buckets.{entry, entry-build_namespace_diff, Entry, nowhere, verdict}
use micro_conf.Cfg.Differ.{NamespaceDiff, StringPair, build_namespace_diff}
use micro_conf.Base.{
  sym, Bool, List, Option, [], ap, arith, false, if◌then◌else◌, map, none, null, refl, some, true,
  ◌++◌, ◌∙◌, ◌∷◌, ◌≡◌,
}

-- What an event asks of a client: a key that is removed goes, any other gets its current value.
abbrev pub apply_event : ConfigChangeEvent → Dict Bytes → Dict Bytes
apply_event e m = if same e.kind config_remove then remove e.key m else insert e.key e.current m

abbrev pub replay_events : List ConfigChangeEvent → Dict Bytes → Dict Bytes
replay_events [] m = m
replay_events (e ∷ es) m = replay_events es (apply_event e m)

replay_events-append :
    (es fs : List ConfigChangeEvent) (m : Dict Bytes)
    → replay_events (es ++ fs) m ≡ replay_events fs (replay_events es m)
replay_events-append [] fs m = refl
replay_events-append (e ∷ es) fs m = replay_events-append es fs (apply_event e m)

apply_event-added :
    (ns k v : Bytes) (m : Dict Bytes) → apply_event (added_event ns (k, v)) m ≡ insert k v m
unfolding added_event same
apply_event-added ns k v m = refl

apply_event-removed :
    (ns k v : Bytes) (m : Dict Bytes) → apply_event (removed_event ns (k, v)) m ≡ remove k m
unfolding removed_event same
apply_event-removed ns k v m = refl

apply_event-changed :
    (ns k : Bytes) (v : StringPair) (m : Dict Bytes)
    → apply_event (changed_event ns (k, v)) m ≡ insert k v.right m
unfolding changed_event same
apply_event-changed ns k v m = refl

-- The value of a key after some events: `over` where they set it, `gone` where they remove it.
abbrev over : Option Bytes → Option Bytes → Option Bytes
over (some v) r = some v
over none r = r

abbrev gone : Option Bytes → Option Bytes → Option Bytes
gone (some v) r = none
gone none r = r

abbrev new_value : Option StringPair → Option Bytes
new_value (some p) = some p.right
new_value none = none

module _ (ns k : Bytes) where
  lookup-replay_added :
      (d m : Dict Bytes)
      → IsMap d
      → lookup k (replay_events (map (added_event ns) d) m) ≡ over (lookup k d) (lookup k m)
  unfolding lookup
  lookup-replay_added [] m h = refl
  lookup-replay_added ((i, w) ∷ d) m (fresh, h) =
      ap (λ n. lookup k (replay_events (map (added_event ns) d) n)) (apply_event-added ns i w m)
      ∙ lookup-replay_added d (insert i w m) h
      ∙ ground (arith, lookup-insert i k w m, lookup-cons i k w d, same_iff i k)

  lookup-replay_removed :
      (d m : Dict Bytes)
      → IsMap d
      → lookup k (replay_events (map (removed_event ns) d) m) ≡ gone (lookup k d) (lookup k m)
  unfolding lookup
  lookup-replay_removed [] m h = refl
  lookup-replay_removed ((i, w) ∷ d) m (fresh, h) =
      ap (λ n. lookup k (replay_events (map (removed_event ns) d) n)) (apply_event-removed ns i w m)
      ∙ lookup-replay_removed d (remove i m) h
      ∙ ground (arith, lookup-remove i k m, lookup-cons i k w d, same_iff i k)

  lookup-replay_changed :
      (d : Dict StringPair) (m : Dict Bytes)
      → IsMap d
      → lookup k (replay_events (map (changed_event ns) d) m)
        ≡ over (new_value (lookup k d)) (lookup k m)
  unfolding lookup
  lookup-replay_changed [] m h = refl
  lookup-replay_changed ((i, w) ∷ d) m (fresh, h) =
      ap (λ n. lookup k (replay_events (map (changed_event ns) d) n)) (apply_event-changed ns i w m)
      ∙ lookup-replay_changed d (insert i w.right m) h
      ∙ ground (arith, lookup-insert i k w.right m, lookup-cons i k w d, same_iff i k)

-- What the events of one key make of its old value.
abbrev settled : Entry → Option Bytes → Option Bytes
settled e old = over (new_value e.changed) (gone e.removed (over e.added old))

settled-verdict : (old new : Option Bytes) → Agrees (settled (verdict nowhere old new) old) new
settled-verdict none none = tt
settled-verdict none (some nv) = equal_fold_refl nv
settled-verdict (some v) none = tt
settled-verdict (some v) (some nv) = go (equal_fold nv v) refl
  where
    go :
        (b : Bool)
        → equal_fold nv v ≡ b
        → Agrees
            (settled
              (if b
                then record nowhere { unchanged = some v }
                else record nowhere { changed = some (record { left = v; right = nv }) })
              (some v))
            (some nv)
    go true e = e
    go false e = equal_fold_refl nv

lookup-replay_events :
    (app_id group k : Bytes) (d : NamespaceDiff) (m : Dict Bytes)
    → IsMap d.added
    → IsMap d.removed
    → IsMap d.changed
    → lookup k (replay_events (events_of app_id group d) m) ≡ settled (entry d k) (lookup k m)
unfolding events_of
lookup-replay_events app_id group k d m ha hr hc =
    let ns = event_namespace app_id group d.namespace in
    ap (lookup k) (
      replay_events-append (map (added_event ns) d.added)
        (map (removed_event ns) d.removed ++ map (changed_event ns) d.changed) m
      ∙ replay_events-append (map (removed_event ns) d.removed) (map (changed_event ns) d.changed)
          (replay_events (map (added_event ns) d.added) m))
    ∙ rw (
      lookup-replay_changed ns k d.changed
          (replay_events (map (removed_event ns) d.removed)
            (replay_events (map (added_event ns) d.added) m))
          hc,
      lookup-replay_removed ns k d.removed (replay_events (map (added_event ns) d.added) m) hr,
      lookup-replay_added ns k d.added m ha,
    )

module _ (app_id group namespace : Bytes) (old new : Dict Bytes) where
  -- If the new version has an entry, a client that applies the events of the difference, in the
  -- order in which they are sent, to its copy of the old version ends with a copy that agrees with
  -- the new version on every key up to the case of letters.
  pub replay_events-events_of :
      (k : Bytes)
      → IsMap old
      → IsMap new
      → null new ≡ false
      → Agrees
          (lookup k
            (replay_events (events_of app_id group (build_namespace_diff namespace old new)) old))
          (lookup k new)
  replay_events-events_of k ho hn h =
      let d = build_namespace_diff namespace old new in
      let (ha, hr, hc) = build_namespace_diff-HasMaps namespace old new h in
      subst (λ v. Agrees v (lookup k new))
        (sym (
          lookup-replay_events app_id group k d old ha hr hc
          ∙ ap (λ e. settled e (lookup k old))
              (entry-build_namespace_diff namespace old new k ho hn h)))
        (settled-verdict (lookup k old) (lookup k new))
