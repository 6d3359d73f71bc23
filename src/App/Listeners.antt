-- ===== src/App/Listeners.antt =====
-- service/app/cfg.go: which instances listen to a namespace, read back from their keys.
pub mod Shared
pub mod Namespaces
use micro_conf.Text.Split.{split}
use micro_conf.Text.Index.{index, last_index}
use micro_conf.Text.Decimal.{atoi, ℤ}
use micro_conf.Store.{RaftStore}
use micro_conf.Dict.{Dict, insert, lookup}
use micro_conf.Base.Outcome.{Result, bind, err, ok, panic}
use micro_conf.Base.{
  Bool, List, Option, [], drop, if◌then◌else◌, length, map, none, some, take, ℕ, ◌++◌, ◌+◌, ◌-◌,
  ◌==◌, ◌∷◌,
}
use micro_conf.Text.Bytes.{codes, Bytes}

pub record NamespaceInstance : Type 0 where
  pub ip : Bytes
  pub port : ℤ
  pub namespace : Bytes
  pub format : Bytes

-- The position of the n-th dot, as the loop of extractNamespaceInfo finds it.
unfoldable pub nth_dot : ℕ → Bytes → Option ℕ
nth_dot n [] = none
nth_dot n (x ∷ s) =
    let left = if x == b'.' then n - 1 else n in
    elim (nth_dot left s) [
      | none ↦ if left == 0 then some 0 else none
      | some i ↦ if left == 0 then some 0 else some (i + 1)
    ]

-- The error of strconv.Atoi is ignored: `bound` is the value that it returns beside one.
unfoldable pub listener_of : (Bytes → ℤ) → Bytes → Bytes → List Bytes → Option NamespaceInstance
listener_of bound namespace format (ip ∷ port ∷ []) = elim (atoi port) [
  | none ↦ some (record { ip = ip; port = bound port; namespace = namespace; format = format })
  | some p ↦ some (record { ip = ip; port = p; namespace = namespace; format = format })
]
listener_of bound namespace format _ = none

-- The part of extractNamespaceInfo behind the fourth dot.
unfoldable pub extract_listener : (Bytes → ℤ) → Bytes → Option NamespaceInstance
unfolding listener_of
extract_listener bound remain_key = elim (index b'.' remain_key) [
  | none ↦ none
  | some ns_idx ↦ elim (index b'.' (drop (ns_idx + 1) remain_key)) [
    | none ↦ none
    | some format_idx ↦
        listener_of bound (take (ns_idx + format_idx + 1) remain_key)
          (take format_idx (drop (ns_idx + 1) remain_key))
          (split b':' (drop (ns_idx + format_idx + 2) remain_key))
  ]
]

-- extractNamespaceInfo
unfoldable pub extract_namespace_info : (Bytes → ℤ) → Bytes → Option NamespaceInstance
unfolding nth_dot extract_listener
extract_namespace_info bound key = elim (nth_dot 4 key) [
  | none ↦ none
  | some idx ↦ extract_listener bound (drop (idx + 1) key)
]

-- The grouping loop of GetAllNamespaceInstances: a nil instance is dereferenced.
unfoldable pub group_by_namespace :
    List (Option NamespaceInstance)
    → Dict (List NamespaceInstance)
    → Result (Dict (List NamespaceInstance))
group_by_namespace [] result = ok result
group_by_namespace (none ∷ infos) result = err panic
group_by_namespace (some info ∷ infos) result = group_by_namespace infos (
    insert info.namespace
      (elim (lookup info.namespace result) [ none ↦ info ∷ [] | some is ↦ is ++ info ∷ [] ]) result)

module _ (rs : RaftStore) (bound : Bytes → ℤ) where
  unfoldable pub get_all_namespace_instances :
      Bytes → Bytes → rs.State → Result (Dict (List NamespaceInstance))
  unfolding group_by_namespace extract_namespace_info
  get_all_namespace_instances app_id group s =
      group_by_namespace
        (map (extract_namespace_info bound)
          (rs.scan_keys (codes "app.ns." ++ (app_id ++ (codes "." ++ (group ++ codes ".")))) s))
        []

  unfoldable pub get_namespace_instances :
      Bytes → Bytes → Bytes → rs.State → Result (List NamespaceInstance)
  unfolding get_all_namespace_instances
  get_namespace_instances app_id group namespace s =
      bind (get_all_namespace_instances app_id group s)
        (λ infos. elim (lookup namespace infos) [ none ↦ ok [] | some is ↦ ok is ])

-- IsNsShared
unfoldable pub is_ns_shared : Bytes → Bool
is_ns_shared v = length (split b'.' v) == 4

unfoldable pub parts_of : List Bytes → Result (Bytes × Bytes × Bytes)
parts_of (app_id ∷ group ∷ name ∷ format ∷ rest) = ok (app_id, group, name ++ (codes "." ++ format))
parts_of _ = err panic

-- ExtractAppGroupNs
unfoldable pub extract_app_group_ns : Bytes → Result (Bytes × Bytes × Bytes)
unfolding parts_of
extract_app_group_ns v = parts_of (split b'.' v)

-- extractNamespace
unfoldable pub extract_namespace : Bytes → Bytes
extract_namespace k = elim (last_index b'.' k) [
  | none ↦ []
  | some idx ↦ elim (last_index b'.' (take idx k)) [ none ↦ [] | some idx2 ↦ drop (idx2 + 1) k ]
]
