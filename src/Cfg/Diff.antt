-- ===== src/Cfg/Diff.antt =====
-- `diff` of service/cfg/differ.go, which reads the two versions by the format of the namespace.
pub mod Laws
use micro_conf.Text.Index.{last_index}
use micro_conf.Text.Bytes.{Bytes, codes, same}
use micro_conf.Dict.{Dict}
use micro_conf.Cfg.Flat.{json_to_flat_map, properties_to_map, yaml_to_flat_map}
use micro_conf.Cfg.Differ.{NamespaceDiff, build_namespace_diff}
use micro_conf.Cfg.Codec.{Readings, Formats}
use micro_conf.Base.Outcome.{Result, bind, err, message, ok, panic}
use micro_conf.Base.{Option, [], drop, if◌then◌else◌, none, some, ◌+◌}

-- The text behind the last dot of a namespace.
unfoldable pub format_of : Bytes → Option Bytes
format_of namespace = elim (last_index b'.' namespace) [
  | none ↦ none
  | some i ↦ some (drop (i + 1) namespace)
]

-- A map whose error is overwritten by that of the next call: the map is nil beside it.
unfoldable pub lenient : Result (Dict Bytes) → Result (Dict Bytes)
lenient (ok m) = ok m
lenient (err panic) = err panic
lenient (err e) = ok []

unfoldable pub both : Result (Dict Bytes) → Result (Dict Bytes) → Result (Dict Bytes × Dict Bytes)
unfolding lenient
both old new = bind (lenient old) (λ o. bind new (λ n. ok (o, n)))

-- The switch over the format. A JSON namespace reads the new version twice; a format that is not
-- among the three leaves both maps nil.
unfoldable pub read_versions : Readings → Bytes → Bytes → Bytes → Result (Dict Bytes × Dict Bytes)
unfolding both
read_versions readings format old new =
    if same format (codes "yaml")
    then both (yaml_to_flat_map readings.first old) (yaml_to_flat_map readings.second new)
    else if same format (codes "json")
    then both (json_to_flat_map readings.first new) (json_to_flat_map readings.second new)
    else if same format (codes "props")
    then both (properties_to_map old) (properties_to_map new)
    else ok ([], [])

unfoldable pub diff : Readings → Bytes → Bytes → Bytes → Result NamespaceDiff
unfolding format_of read_versions
diff readings namespace old new = elim (format_of namespace) [
  | none ↦ err (message "namespace illegal")
  | some format ↦
      bind (read_versions readings format old new)
        (λ maps. ok (build_namespace_diff namespace maps.0 maps.1))
]
