-- ===== src/Cfg/History/Stems.antt =====
-- What getNamespaces shows of a namespace.
use micro_conf.Text.Index.{last_index}
use micro_conf.Text.Index.{last_index-append}
use micro_conf.Text.Bytes.{Bytes, Lacks, codes}
use micro_conf.Cfg.History.{stem}
use micro_conf.Base.Outcome.{err, panic, ok}
use micro_conf.App.Info.{app_config_key}
use micro_conf.Base.{ap, append_assoc, none, take, take-append, ◌∙◌, length, some, ◌++◌, ◌∷◌, ◌≡◌}

stem-dots :
    (p q r : Bytes) → Lacks b'.' q → Lacks b'.' r → stem ((p ++ b'.' ∷ q) ++ b'.' ∷ r) ≡ ok p
unfolding stem
stem-dots p q r hq hr =
    ap
      (λ o. elim o [
        | none ↦ err panic
        | some i ↦ elim (last_index b'.' (take i ((p ++ b'.' ∷ q) ++ b'.' ∷ r))) [
          | none ↦ err panic
          | some j ↦ ok (take j ((p ++ b'.' ∷ q) ++ b'.' ∷ r))
        ]
      ])
      (last_index-append b'.' (p ++ b'.' ∷ q) r hr)
    ∙ ap (λ o. elim o [ none ↦ err panic | some j ↦ ok (take j ((p ++ b'.' ∷ q) ++ b'.' ∷ r)) ])
        (ap (last_index b'.') (take-append (p ++ b'.' ∷ q) (b'.' ∷ r))
          ∙ last_index-append b'.' p q hq)
    ∙ ap ok (
        ap (take (length p)) (append_assoc p (b'.' ∷ q) (b'.' ∷ r))
        ∙ take-append p (b'.' ∷ (q ++ b'.' ∷ r)))

key_split :
    (app_id group name format : Bytes)
    → app_config_key app_id group (name ++ b'.' ∷ format)
      ≡ ((codes "app.cfg.current." ++ (app_id ++ b'.' ∷ group)) ++ b'.' ∷ name) ++ b'.' ∷ format
unfolding app_config_key
key_split app_id group name format = simp append_assoc

-- For a namespace whose name and format have no dot, getNamespaces shows the key without both,
-- which is the same text for all namespaces of a group.
pub stem-app_config_key :
    (app_id group name format : Bytes)
    → Lacks b'.' name
    → Lacks b'.' format
    → stem (app_config_key app_id group (name ++ b'.' ∷ format))
      ≡ ok (codes "app.cfg.current." ++ (app_id ++ b'.' ∷ group))
unfolding app_config_key
stem-app_config_key app_id group name format hn hf =
    ap stem (key_split app_id group name format)
    ∙ stem-dots (codes "app.cfg.current." ++ (app_id ++ b'.' ∷ group)) name format hn hf
