-- ===== src/Cfg/Client.antt =====
-- service/cfg/cfg_api.go: a client fetches the namespaces that it listens to.
pub mod KeyParts
use micro_conf.Text.Index.{last_index}
use micro_conf.Store.{RaftStore}
use micro_conf.Dict.{Dict, insert}
use micro_conf.Cfg.Flat.{json_to_flat_map, properties_to_map, yaml_to_flat_map}
use micro_conf.Cfg.Diff.{lenient}
use micro_conf.Cfg.Codec.{Formats}
use micro_conf.Base.Outcome.{Result, bind, err, ok}
use micro_conf.Base.{List, Option, [], drop, if◌then◌else◌, map, none, some, take, ◌++◌, ◌+◌, ◌∷◌}
use micro_conf.App.Listeners.{extract_app_group_ns, is_ns_shared}
use micro_conf.App.Info.{app_config_key}
use micro_conf.Text.Bytes.{codes, same, Bytes}

pub record NamespaceClientRequest : Type 0 where
  pub app_id : Bytes
  pub group : Bytes
  pub namespaces : List Bytes
  pub shared_namespaces : List Bytes

-- The loop over the shared namespaces: a name that is not taken for a shared one is left out.
unfoldable pub shared_keys : List Bytes → Result (List Bytes)
unfolding is_ns_shared extract_app_group_ns app_config_key
shared_keys [] = ok []
shared_keys (v ∷ vs) =
    let rest = shared_keys vs in
    if is_ns_shared v
    then bind (extract_app_group_ns v)
        (λ p. bind rest (λ keys. ok (app_config_key p.0 p.1 p.2 ∷ keys)))
    else rest

-- Keys
unfoldable pub request_keys : NamespaceClientRequest → Result (List Bytes)
unfolding shared_keys app_config_key
request_keys r =
    bind (shared_keys r.shared_namespaces)
      (λ keys. ok (map (λ v. app_config_key r.app_id r.group v) r.namespaces ++ keys))

pub record Parts : Type 0 where
  pub app : Bytes
  pub group : Bytes
  pub namespace : Bytes
  pub format : Bytes

-- The positions of the last four dots of a key, and what stands between them.
unfoldable pub parts_at : Bytes → Option Parts
parts_at key = elim (last_index b'.' key) [
  | none ↦ none
  | some idx ↦ elim (last_index b'.' (take idx key)) [
    | none ↦ none
    | some ns_idx ↦ elim (last_index b'.' (take ns_idx key)) [
      | none ↦ none
      | some group_idx ↦ elim (last_index b'.' (take group_idx key)) [
        | none ↦ none
        | some app_idx ↦ some (record {
          app = drop (app_idx + 1) (take group_idx key);
          group = drop (group_idx + 1) (take ns_idx key);
          namespace = drop (ns_idx + 1) key;
          format = drop (idx + 1) key;
        })
      ]
    ]
  ]
]

-- The flat map of a content; a format that is not among the three has none.
unfoldable pub content_map : Formats → Bytes → Bytes → Option (Result (Dict Bytes))
unfolding lenient
content_map formats format content =
    if same format (codes "yaml")
    then some (lenient (yaml_to_flat_map formats content))
    else if same format (codes "props")
    then some (lenient (properties_to_map content))
    else if same format (codes "json")
    then some (lenient (json_to_flat_map formats content))
    else none

unfoldable pub ns_key : Parts → Bytes
ns_key p = p.app ++ (codes "." ++ (p.group ++ (codes "." ++ p.namespace)))

-- One round of the loop of queryNamespaceContent.
unfoldable pub add_content :
    Formats → Bytes → Result Bytes → Dict (Dict Bytes) → Result (Dict (Dict Bytes))
unfolding parts_at content_map ns_key
add_content formats key (err e) result = ok result
add_content formats key (ok content) result = elim (parts_at key) [
  | none ↦ ok result
  | some p ↦ elim (content_map formats p.format content) [
    | none ↦ ok result
    | some r ↦ bind r (λ m. ok (insert (ns_key p) m result))
  ]
]

-- queryNamespaceContent
unfoldable pub query_namespace_content :
    (rs : RaftStore)
    → Formats
    → List Bytes
    → rs.State
    → Dict (Dict Bytes)
    → Result (Dict (Dict Bytes))
unfolding add_content
query_namespace_content rs formats [] s result = ok result
query_namespace_content rs formats (key ∷ keys) s result =
    bind (add_content formats key (rs.get key s) result)
      (λ r. query_namespace_content rs formats keys s r)
