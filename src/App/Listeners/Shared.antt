-- ===== src/App/Listeners/Shared.antt =====
-- The full name of a shared namespace comes apart into the parts it was put together from.
use micro_conf.Text.Split.{join, split, split-join}
use micro_conf.Text.Bytes.{Bytes, Lacks, codes}
use micro_conf.Base.Outcome.{ok}
use micro_conf.Base.{All, List, [], ap, arith, length, refl, true, ◌++◌, ◌==◌, ◌∷◌, ◌≡◌}
use micro_conf.App.Listeners.{extract_app_group_ns, parts_of, is_ns_shared}

-- The application, the group, the name and the format of a full name have no dot: then the name is
-- taken for a shared one, and comes apart into these.
pub extract_app_group_ns-join :
    (app group name format : Bytes)
    → All (Lacks b'.') (app ∷ group ∷ name ∷ format ∷ [])
    → (is_ns_shared (join b'.' (app ∷ group ∷ name ∷ format ∷ [])) ≡ true)
      × (extract_app_group_ns (join b'.' (app ∷ group ∷ name ∷ format ∷ []))
          ≡ ok (app, group, name ++ (codes "." ++ format)))
unfolding is_ns_shared extract_app_group_ns
extract_app_group_ns-join app group name format h =
    let e = split-join b'.' app (group ∷ name ∷ format ∷ []) h in
    (ap (λ ps. length ps == 4) e, ap parts_of e)

-- A full name that is taken for a shared one comes apart without a panic.
pub extract_app_group_ns-shared :
    (v : Bytes)
    → is_ns_shared v ≡ true
    → (p : Bytes × Bytes × Bytes) × (extract_app_group_ns v ≡ ok p)
unfolding is_ns_shared extract_app_group_ns
extract_app_group_ns-shared v h = go (split b'.' v) h
  where
    go :
        (ps : List Bytes)
        → (length ps == 4) ≡ true
        → (p : Bytes × Bytes × Bytes) × (parts_of ps ≡ ok p)
    go [] q = ground arith
    go (a ∷ []) q = ground arith
    go (a ∷ b ∷ []) q = ground arith
    go (a ∷ b ∷ c ∷ []) q = ground arith
    go (a ∷ b ∷ c ∷ d ∷ ps) q = ((a, b, c ++ (codes "." ++ d)), refl)
