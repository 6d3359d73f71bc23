-- ===== src/Cfg/Flat.antt =====
-- The part of service/cfg/codec.go that reads lines of properties, and the flat maps of a YAML, a
-- JSON or a properties text. Where the code indexes past the end of a slice or asks for the kind of
-- nil, the result is a panic.
pub mod Leaves
pub mod RoundTrip
use micro_conf.Text.Split.{split}
use micro_conf.Text.Cut.{cut, replace_byte, trim_space}
use micro_conf.Text.Bytes.{Bytes, codes, contains_text, has_prefix, has_suffix, same}
use micro_conf.Dict.{Dict, insert}
use micro_conf.Cfg.Codec.{Fields, Formats, Value, do_map_to_properties, end, field, nil_value}
use micro_conf.Base.Outcome.{Result, bind, err, message, ok, panic}
use micro_conf.Base.{
  Bool, List, Option, [], false, if◌then◌else◌, none, not, null, some, true, ◌&&◌, ◌++◌, ◌-◌, ◌||◌,
  ◌∷◌,
}

-- The loop of MapToProperties: the kind of a nil value is a panic.
unfoldable pub top_lines : List Bytes → Fields → Result (List Bytes)
top_lines lines end = ok lines
top_lines lines (field k nil_value fs) = err panic
top_lines lines (field k v fs) = top_lines (do_map_to_properties lines v k) fs

-- Each line with a line feed behind it.
unfoldable pub print_lines : List Bytes → Bytes
print_lines [] = []
print_lines (l ∷ ls) = l ++ 10 ∷ print_lines ls

unfoldable pub map_to_properties : Fields → Result Bytes
unfolding top_lines print_lines
map_to_properties fs = bind (top_lines [] fs) (λ lines. ok (print_lines lines))

unfoldable pub yaml_to_properties : Formats → Bytes → Result Bytes
unfolding map_to_properties
yaml_to_properties formats content = elim (formats.unmarshal_yaml content) [
  | none ↦ err (message "yaml")
  | some fs ↦ map_to_properties fs
]

-- The loop of GetPropertiesItemLineList, whose test is on the whole content.
unfoldable pub gather : Bool → Bytes → List Bytes → List Bytes
gather true pending [] = []
gather true pending (l ∷ ls) = gather true (pending ++ (l ++ 10 ∷ [])) ls
gather false pending [] = []
gather false pending (l ∷ ls) = (pending ++ l) ∷ gather false [] ls

unfoldable pub get_properties_item_line_list : Bytes → List Bytes
unfolding gather
get_properties_item_line_list content =
    if null content then [] else gather (has_suffix content (codes "\\")) [] (split 10 content)

-- The values[1] of a split at the first equals sign.
unfoldable pub second : Bytes × Option Bytes → Result (Bytes × Bytes)
second (left, none) = err panic
second (left, some right) = ok (left, right)

-- The loop of YamlToKvList.
unfoldable pub pairs_of : List Bytes → Result (List (Bytes × Bytes))
unfolding second
pairs_of [] = ok []
pairs_of (l ∷ ls) =
    let rest = pairs_of ls in
    let element = trim_space l in
    if null element
    then rest
    else bind (second (cut b'=' element)) (λ p. bind rest (λ ps. ok (p ∷ ps)))

unfoldable pub has_mark : Bytes → Bool
has_mark content = contains_text content (codes ":") || contains_text content (codes "-")

unfoldable pub yaml_to_kv_list : Formats → Bytes → Result (List (Bytes × Bytes))
unfolding yaml_to_properties get_properties_item_line_list pairs_of
yaml_to_kv_list formats content =
    if not (has_mark content)
    then ok []
    else bind (yaml_to_properties formats content)
        (λ property. pairs_of (get_properties_item_line_list property))

-- The assignments of a list of pairs, in order.
unfoldable pub fill : List (Bytes × Bytes) → Dict Bytes → Dict Bytes
fill [] m = m
fill ((k, v) ∷ ps) m = fill ps (insert k v m)

unfoldable pub yaml_to_flat_map : Formats → Bytes → Result (Dict Bytes)
unfolding fill yaml_to_kv_list
yaml_to_flat_map formats content = bind (yaml_to_kv_list formats content) (λ kvs. ok (fill kvs []))

unfoldable pub object_to_yaml : Formats → Value → Result Bytes
object_to_yaml formats v = elim (formats.marshal_yaml v) [
  | none ↦ err (message "ObjectToYaml error")
  | some t ↦ ok t
]

unfoldable pub json_to_yaml : Formats → Bytes → Result Bytes
unfolding object_to_yaml
json_to_yaml formats content =
    if not (has_prefix content (codes "{")) && not (has_prefix content (codes "["))
    then err (message "content is not json")
    else if same content (codes "[]")
    then ok []
    else elim (formats.unmarshal_json (replace_byte 39 (codes "\"") content)) [
      | none ↦ err (message "json")
      | some v ↦ object_to_yaml formats v
    ]

unfoldable pub json_to_kv_list : Formats → Bytes → Result (List (Bytes × Bytes))
unfolding json_to_yaml yaml_to_kv_list
json_to_kv_list formats content =
    bind (json_to_yaml formats content) (λ y. yaml_to_kv_list formats y)

unfoldable pub json_to_flat_map : Formats → Bytes → Result (Dict Bytes)
unfolding fill json_to_kv_list
json_to_flat_map formats content = bind (json_to_kv_list formats content) (λ kvs. ok (fill kvs []))

-- A value that holds a line feed gets the mark of a YAML block in front.
unfoldable pub block_value : Bytes → Bytes
block_value v = if contains_text v (10 ∷ []) then codes "|" ++ 10 ∷ v else v

-- The loop of PropertiesToMap.
unfoldable pub properties_loop : List Bytes → Dict Bytes → Result (Dict Bytes)
unfolding second block_value
properties_loop [] m = ok m
properties_loop (l ∷ ls) m =
    let line = trim_space l in
    let skipped = properties_loop ls m in
    if null line
    then skipped
    else bind (second (cut b'=' line)) (λ p. properties_loop ls (insert p.0 (block_value p.1) m))

unfoldable pub properties_to_map : Bytes → Result (Dict Bytes)
unfolding get_properties_item_line_list properties_loop
properties_to_map content =
    if contains_text content (codes "=")
    then properties_loop (get_properties_item_line_list content) []
    else err (message "the content is illegal for properties")
