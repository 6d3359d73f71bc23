-- ===== src/Cfg/History.antt =====
-- The listings of service/cfg/cfg_admin.go: the former versions of a namespace, and the namespaces
-- of a group.
pub mod Stems
use micro_conf.Text.Index.{last_index}
use micro_conf.Text.Bytes.{Bytes}
use micro_conf.Store.{RaftStore}
use micro_conf.Json.{Json}
use micro_conf.Dict.{Dict}
use micro_conf.Cfg.Admin.{NamespaceEditHistory, history_scan_key}
use micro_conf.Base.Outcome.{Result, bind, err, ok, panic}
use micro_conf.App.Info.{app_config_key}
use micro_conf.Base.{Bool, List, [], if◌then◌else◌, none, some, take, ◌∷◌, ℕ}

-- Insertion by time.Time's After, which is a parameter as the times are.
unfoldable pub insert_newest :
    (Bytes → Bytes → Bool)
    → NamespaceEditHistory
    → List NamespaceEditHistory
    → List NamespaceEditHistory
insert_newest is_after h [] = h ∷ []
insert_newest is_after h (g ∷ hs) =
    let rest = insert_newest is_after h hs in
    if is_after g.time h.time then g ∷ rest else h ∷ g ∷ hs

-- sort.Sort of a NamespaceHistory.
unfoldable pub sort_newest :
    (Bytes → Bytes → Bool) → List NamespaceEditHistory → List NamespaceEditHistory
unfolding insert_newest
sort_newest is_after [] = []
sort_newest is_after (h ∷ hs) = insert_newest is_after h (sort_newest is_after hs)

module _ (rs : RaftStore) (histories : Json NamespaceEditHistory) where
  -- The loop over the stored versions: what cannot be read is skipped.
  unfoldable pub readable : Dict Bytes → List NamespaceEditHistory
  readable [] = []
  readable ((k, v) ∷ m) = elim (histories.unmarshal v) [
    | none ↦ readable m
    | some h ↦ h ∷ readable m
  ]

  unfoldable pub query_namespace_history :
      (Bytes → Bytes → Bool) → Bytes → Bytes → Bytes → rs.State → List NamespaceEditHistory
  unfolding sort_newest readable history_scan_key
  query_namespace_history is_after app_id group namespace s =
      sort_newest is_after (readable (rs.scan_kvs (history_scan_key app_id group namespace) s))

-- The loop of getNamespaces: each key up to the dot before its last two parts. A key with fewer
-- than two dots is a slice out of range.
unfoldable pub stem : Bytes → Result Bytes
stem v = elim (last_index b'.' v) [
  | none ↦ err panic
  | some i ↦ elim (last_index b'.' (take i v)) [ none ↦ err panic | some j ↦ ok (take j v) ]
]

unfoldable pub stems : List Bytes → Result (List Bytes)
unfolding stem
stems [] = ok []
stems (v ∷ vs) = bind (stem v) (λ s. bind (stems vs) (λ rest. ok (s ∷ rest)))

-- getNamespaces
unfoldable pub list_namespaces : (rs : RaftStore) → Bytes → Bytes → rs.State → Result (List Bytes)
unfolding stems app_config_key
list_namespaces rs app_id group s = stems (rs.scan_keys (app_config_key app_id group []) s)
