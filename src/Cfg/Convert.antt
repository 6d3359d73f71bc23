-- ===== src/Cfg/Convert.antt =====
-- The other conversions of service/cfg/codec.go and its checks of a format.
use micro_conf.Text.Split.{join}
use micro_conf.Text.Cut.{cut, trim_space}
use micro_conf.Text.Bytes.{Bytes, codes, contains_text, has_prefix}
use micro_conf.Dict.{Dict}
use micro_conf.Cfg.Yaml.Print.{properties_to_yaml}
use micro_conf.Cfg.Yaml.{Nodes, YamlNode, append_space_for_array_value}
use micro_conf.Cfg.Flat.{
  get_properties_item_line_list, has_mark, json_to_yaml, object_to_yaml, yaml_to_properties,
}
use micro_conf.Cfg.Codec.{Fields, Formats, Items, Value, end, field, seq, tree}
use micro_conf.Base.Outcome.{not_found, panic, Result, bind, err, message, ok}
use micro_conf.Base.{
  Bool, List, Option, [], false, if◌then◌else◌, none, not, null, some, true, ◌&&◌, ◌++◌, ◌||◌, ◌∷◌,
}

-- What these use of yaml.v2 and jsoniter besides Formats: a reader for any document, one for a
-- list, one for a map, and the writer of JSON.
pub record MoreFormats : Type 0 where
  pub read_yaml : Bytes → Option Value
  pub read_list : Bytes → Option Items
  pub read_json_map : Bytes → Option Fields
  pub write_json : Value → Option Bytes

-- Whether a call reports no error; a panic ends the test too.
unfoldable pub is_ok {ℓ} : {A : Type ℓ} → Result A → Result Bool
is_ok (ok a) = ok true
is_ok (err panic) = err panic
is_ok (err not_found) = ok false
is_ok (err (message m)) = ok false

-- The loop of propertiesAppendPrefixKey: lines without an equals sign go.
unfoldable pub prefixed_lines : Bytes → List Bytes → List Bytes
prefixed_lines key [] = []
prefixed_lines key (l ∷ ls) =
    let rest = prefixed_lines key ls in
    elim (cut b'=' l).1 [
      | none ↦ rest
      | some v ↦ (key ++ (codes "." ++ ((cut b'=' l).0 ++ (codes "=" ++ v)))) ∷ rest
    ]

unfoldable pub properties_append_prefix_key : Bytes → Bytes → Bytes
unfolding prefixed_lines get_properties_item_line_list
properties_append_prefix_key key content =
    join 10 (prefixed_lines key (get_properties_item_line_list content))

-- The text that PropertiesEntityToYaml hands to PropertiesToYaml.
unfoldable pub entity_lines : Dict Bytes → Bytes
entity_lines [] = []
entity_lines ((k, v) ∷ m) = k ++ (codes "=" ++ (v ++ 10 ∷ entity_lines m))

-- PropertiesEntityToYaml; none is a nil map.
unfoldable pub properties_entity_to_yaml :
    ((YamlNode → YamlNode → Bool) → Nodes → Nodes) → Option (Dict Bytes) → Result Bytes
unfolding entity_lines properties_to_yaml
properties_entity_to_yaml sort_slice none = err (message "PropertiesEntityToYaml value is empty")
properties_entity_to_yaml sort_slice (some m) = ok (properties_to_yaml sort_slice (entity_lines m))

pub data TypeEnum : Type 0 where
  yaml_type : TypeEnum
  properties_type : TypeEnum
  json_type : TypeEnum
  string_type : TypeEnum
  other_type : TypeEnum

module _ (formats : Formats) where
  unfoldable pub is_yaml : Bytes → Result Bool
  unfolding has_mark yaml_to_properties is_ok
  is_yaml content =
      if has_mark content then is_ok (yaml_to_properties formats content) else ok false

  unfoldable pub is_property : ((YamlNode → YamlNode → Bool) → Nodes → Nodes) → Bytes → Result Bool
  unfolding properties_to_yaml yaml_to_properties is_ok
  is_property sort_slice content =
      if contains_text content (codes "=")
      then is_ok (yaml_to_properties formats (properties_to_yaml sort_slice content))
      else ok false

  unfoldable pub is_json : Bytes → Bool
  is_json content =
      if not (has_prefix content (codes "{")) && not (has_prefix content (codes "["))
      then false
      else elim (formats.unmarshal_json content) [ none ↦ false | some v ↦ true ]

  unfoldable pub yaml_check : Bytes → Result (Unit {0})
  unfolding has_mark yaml_to_properties
  yaml_check content =
      if null content
      then err (message "yaml is empty")
      else if not (has_mark content)
      then err (message "yaml content does not contain ':' nor '-'")
      else if contains_text content (codes "---" ++ 10 ∷ [])
      then err (message "yaml not support import for content of '---'")
      else bind (yaml_to_properties formats content) (λ t. ok tt)

  module _ (more : MoreFormats) where
    -- JsonToMap, whose first test refuses what begins like an object or a list.
    unfoldable pub json_to_map : Bytes → Result Fields
    json_to_map content =
        if null content || (has_prefix content (codes "{") || has_prefix content (codes "["))
        then err (message "invalid json")
        else elim (more.read_json_map content) [ none ↦ err (message "json") | some fs ↦ ok fs ]

    unfoldable pub yaml_to_json : Bytes → Result Bytes
    yaml_to_json content = elim (more.read_yaml content) [
      | none ↦ err (message "yaml")
      | some v ↦ elim (more.write_json v) [ none ↦ err (message "json") | some t ↦ ok t ]
    ]

    unfoldable pub yaml_to_list : Bytes → Result Items
    yaml_to_list content =
        if not (has_prefix (trim_space content) (codes "-"))
        then err (message "the content of yaml not start with '-'")
        else elim (more.read_list content) [ none ↦ err (message "yaml") | some xs ↦ ok xs ]

    unfoldable pub yaml_to_properties_with_key : Bytes → Bytes → Result Bytes
    unfolding has_mark yaml_to_list object_to_yaml yaml_to_properties properties_append_prefix_key
    yaml_to_properties_with_key key content =
        let trimmed = trim_space content in
        if null key
        then err (message "key is nil")
        else if null content
        then ok (key ++ codes "=\"\"")
        else if not (has_mark content)
        then err (message "content is illegal for yaml")
        else if has_prefix trimmed (codes "-")
        then bind (yaml_to_list trimmed) (λ xs.
          bind (object_to_yaml formats (tree (field key (seq xs) end)))
            (λ t. yaml_to_properties formats t))
        else bind (yaml_to_properties formats trimmed)
            (λ t. ok (properties_append_prefix_key key t))

    unfoldable pub kv_to_properties : Bytes → Bytes → TypeEnum → Result Bytes
    unfolding yaml_to_properties_with_key properties_append_prefix_key json_to_yaml
    kv_to_properties key value yaml_type = yaml_to_properties_with_key key value
    kv_to_properties key value json_type =
        bind (json_to_yaml formats value) (λ y. yaml_to_properties_with_key key y)
    kv_to_properties key value properties_type = ok (properties_append_prefix_key key value)
    kv_to_properties key value string_type =
        ok (key ++ (codes "=" ++ append_space_for_array_value value))
    kv_to_properties key value other_type = ok []
