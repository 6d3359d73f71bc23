-- ===== src/Cfg/Client/KeyParts.antt =====
-- The key of a namespace comes apart into the parts it was put together from.
use micro_conf.Text.Index.{last_index, last_index-append}
use micro_conf.Text.Bytes.{Bytes, Lacks, codes}
use micro_conf.Base.{
  [], ap, append_assoc, arith, drop, length, refl, some, sym, take, take-append, ◌++◌, ◌+◌, ◌∙◌,
  ◌∷◌, ◌≡◌,
}
use micro_conf.App.Info.{app_config_key}
use micro_conf.Cfg.Client.{parts_at}

drop-dot : (p s : Bytes) → drop (length p + 1) (p ++ b'.' ∷ s) ≡ s
drop-dot [] s = refl
drop-dot (x ∷ p) s = ground (arith, drop-dot p s)

module _ (app group name format : Bytes) (da : Lacks b'.' app) (dg : Lacks b'.' group)
    (dn : Lacks b'.' name) (df : Lacks b'.' format) where
  abbrev k0 : Bytes
  k0 = codes "app.cfg.current"

  abbrev k1 : Bytes
  k1 = k0 ++ b'.' ∷ app

  abbrev k2 : Bytes
  k2 = k1 ++ b'.' ∷ group

  abbrev k3 : Bytes
  k3 = k2 ++ b'.' ∷ name

  abbrev key : Bytes
  key = app_config_key app group (name ++ (codes "." ++ format))

  key-k1 : key ≡ k1 ++ b'.' ∷ (group ++ b'.' ∷ (name ++ b'.' ∷ format))
  unfolding app_config_key
  key-k1 = simp append_assoc

  key-k2 : key ≡ k2 ++ b'.' ∷ (name ++ b'.' ∷ format)
  key-k2 = key-k1 ∙ sym (append_assoc k1 (b'.' ∷ group) (b'.' ∷ (name ++ b'.' ∷ format)))

  key-k3 : key ≡ k3 ++ b'.' ∷ format
  key-k3 = key-k2 ∙ sym (append_assoc k2 (b'.' ∷ name) (b'.' ∷ format))

  take-k1 : take (length k1) key ≡ k1
  take-k1 =
      ap (take (length k1)) key-k1
      ∙ take-append k1 (b'.' ∷ (group ++ b'.' ∷ (name ++ b'.' ∷ format)))

  take-k2 : take (length k2) key ≡ k2
  take-k2 = ap (take (length k2)) key-k2 ∙ take-append k2 (b'.' ∷ (name ++ b'.' ∷ format))

  take-k3 : take (length k3) key ≡ k3
  take-k3 = ap (take (length k3)) key-k3 ∙ take-append k3 (b'.' ∷ format)

  -- If the application, the group, the name and the format have no dot, the key of the namespace
  -- comes apart into the application, the group, the namespace with its format, and the format.
  pub parts_at-app_config_key :
      parts_at key
      ≡ some
          (record { app = app; group = group; namespace = name ++ b'.' ∷ format; format = format })
  unfolding parts_at
  parts_at-app_config_key = rw (
    ap (last_index b'.') key-k3 ∙ last_index-append b'.' k3 format df,
    take-k3,
    last_index-append b'.' k2 name dn,
    take-k2,
    last_index-append b'.' k1 group dg,
    take-k1,
    last_index-append b'.' k0 app da,
    parts_at,
    take-k1,
    take-k2,
    drop-dot k0 app,
    drop-dot k1 group,
    ap (drop (length k2 + 1)) key-k2 ∙ drop-dot k2 (name ++ b'.' ∷ format),
    ap (drop (length k3 + 1)) key-k3 ∙ drop-dot k3 format,
  )
