-- ===== src/App/Listeners/Namespaces.antt =====
-- service/app/cfg.go: the namespaces of a group, with their texts and the instances that listen.
use micro_conf.Text.Index.{last_index}
use micro_conf.Text.Decimal.{ℤ}
use micro_conf.Text.Bytes.{Bytes, codes}
use micro_conf.Store.{RaftStore}
use micro_conf.Dict.{Dict, lookup}
use micro_conf.Base.Outcome.{Result, bind, ok}
use micro_conf.App.Listeners.{NamespaceInstance, extract_namespace, get_all_namespace_instances}
use micro_conf.Base.{List, [], drop, if◌then◌else◌, none, null, some, ◌++◌, ◌+◌, ◌∷◌}

pub record NamespaceInfo : Type 0 where
  pub namespace : Bytes
  pub format : Bytes
  pub instances : List NamespaceInstance
  pub content : Bytes
  pub original : Bytes

-- namespaceScanPattern
unfoldable pub future_scan_key : Bytes → Bytes → Bytes
future_scan_key app_id group =
    codes "app.cfg.future." ++ (app_id ++ (codes "." ++ (group ++ codes ".")))

-- namespaceScanCurrentPattern
unfoldable pub current_scan_key : Bytes → Bytes → Bytes
current_scan_key app_id group =
    codes "app.cfg.current." ++ (app_id ++ (codes "." ++ (group ++ codes ".")))

-- The value of a key of a map of texts, empty for a missing one.
unfoldable pub text_at : Bytes → Dict Bytes → Bytes
text_at k m = elim (lookup k m) [ none ↦ [] | some v ↦ v ]

unfoldable pub listeners_at : Bytes → Dict (List NamespaceInstance) → List NamespaceInstance
listeners_at k m = elim (lookup k m) [ none ↦ [] | some v ↦ v ]

-- The text behind the last dot, the whole text if there is none.
unfoldable pub format_of : Bytes → Bytes
format_of namespace = elim (last_index b'.' namespace) [
  | none ↦ namespace
  | some i ↦ drop (i + 1) namespace
]

-- The loop of getNamespaces: the text that waits for its release, if it is not empty, hides the
-- one in force.
unfoldable pub infos_of :
    Bytes → Dict Bytes → Dict (List NamespaceInstance) → Dict Bytes → List NamespaceInfo
unfolding extract_namespace text_at format_of listeners_at
infos_of prefix waiting listeners [] = []
infos_of prefix waiting listeners ((k, v) ∷ current) =
    let rest = infos_of prefix waiting listeners current in
    let namespace = extract_namespace k in
    let waits = text_at (prefix ++ namespace) waiting in
    if null namespace
    then rest
    else record {
      namespace = namespace;
      format = format_of namespace;
      instances = listeners_at namespace listeners;
      content = if null waits then v else waits;
      original = v;
    }
      ∷ rest

-- getNamespaces
unfoldable pub get_namespaces :
    (rs : RaftStore) → (Bytes → ℤ) → Bytes → Bytes → rs.State → Result (List NamespaceInfo)
unfolding infos_of future_scan_key current_scan_key get_all_namespace_instances
get_namespaces rs bound app_id group s =
    bind (get_all_namespace_instances rs bound app_id group s) (λ listeners. ok (
      infos_of (future_scan_key app_id group) (rs.scan_kvs (future_scan_key app_id group) s)
        listeners (rs.scan_kvs (current_scan_key app_id group) s)))
