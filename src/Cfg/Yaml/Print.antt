-- ===== src/Cfg/Yaml/Print.antt =====
-- service/cfg/codec.go: the tree of a properties text as lines of YAML, and PropertiesToYaml.
use micro_conf.Text.Split.{join, split}
use micro_conf.Text.Cut.{cut, trim_space}
use micro_conf.Text.Bytes.{Bytes, codes, has_prefix}
use micro_conf.Cfg.Yaml.{
  Nodes, YamlNode, append_space_for_array_value, no_nodes, nodes, string_value_wrap, word_to_node,
  yaml_node,
}
use micro_conf.Cfg.Flat.{block_value, get_properties_item_line_list}
use micro_conf.Base.{
  Bool, List, Option, [], false, if◌then◌else◌, length, ltb, none, not, null, some, suc, true, zero,
  ◌++◌, ◌+◌, ◌==◌, ◌∷◌, ℕ,
}

-- How deep a tree is: the fuel of its print.
unfoldable mutual
  pub depth : YamlNode → ℕ
  depth (yaml_node name value cs arr last vs) = suc (depth_all cs + depth_all vs)

  pub depth_all : Nodes → ℕ
  depth_all no_nodes = 0
  depth_all (nodes x xs) = depth x + depth_all xs

-- The test that sort.Slice gets in resortValue.
unfoldable pub index_before : YamlNode → YamlNode → Bool
index_before (yaml_node n v cs arr none vs) b = false
index_before (yaml_node n v cs arr (some i) vs) (yaml_node m w ds brr none ws) = false
index_before (yaml_node n v cs arr (some i) vs) (yaml_node m w ds brr (some j) ws) = ltb i j

abbrev pub map_nodes : (YamlNode → YamlNode) → Nodes → Nodes
map_nodes f no_nodes = no_nodes
map_nodes f (nodes x xs) = nodes (f x) (map_nodes f xs)

-- name, the equals sign and the value of a line.
unfoldable pub entry_text : Bytes → Bytes → Bytes
unfolding string_value_wrap
entry_text name value =
    name ++ ((if null value then codes ":" else codes ": ") ++ string_value_wrap value)

-- Whether the node before in the array has the same index.
unfoldable pub same_item : Option ℕ → Option ℕ → Bool
same_item none last = false
same_item (some i) none = false
same_item (some i) (some j) = i == j

-- The line of a node.
unfoldable pub line_of : Bool → Bytes → Option ℕ → Option ℕ → Bytes → Bytes → Bytes
unfolding entry_text same_item string_value_wrap
line_of in_array blanks previous last name value =
    if not in_array
    then blanks ++ entry_text name value
    else if null name
    then blanks ++ (codes "- " ++ string_value_wrap value)
    else if same_item previous last
    then blanks ++ (codes "  " ++ entry_text name value)
    else blanks ++ (codes "- " ++ entry_text name value)

-- The loop of PropertiesToYaml over the lines: comments and lines without an equals sign go.
unfoldable pub nodes_of : List Bytes → Nodes → Nodes
unfolding word_to_node block_value
nodes_of [] ns = ns
nodes_of (l ∷ ls) ns =
    let line = trim_space l in
    let skipped = nodes_of ls ns in
    if has_prefix line (codes "#") then skipped else elim (cut b'=' line).1 [
      | none ↦ skipped
      | some v ↦
          let words = split b'.' (cut b'=' line).0 in
          let value = append_space_for_array_value (block_value v) in
          nodes_of ls (word_to_node (length words) words ns false none value).1
    ]

module _ (sort_slice : (YamlNode → YamlNode → Bool) → Nodes → Nodes) where
  -- resortValue, which sorts the items of an array in place, and those of its items.
  unfoldable pub resort_value : ℕ → YamlNode → YamlNode
  unfolding index_before
  resort_value zero x = x
  resort_value (suc n) (yaml_node name value cs false last vs) =
      yaml_node name value cs false last vs
  resort_value (suc n) (yaml_node name value cs true last vs) =
      yaml_node name value cs true last (map_nodes (resort_value n) (sort_slice index_before vs))

  -- formatPropertiesToYaml: the lines that it appends.
  unfoldable pub format_nodes :
      ℕ → Nodes → (in_array : Bool) → (blanks : Bytes) → (previous : Option ℕ) → List Bytes
  unfolding resort_value line_of
  format_nodes zero xs in_array blanks previous = []
  format_nodes (suc n) no_nodes in_array blanks previous = []
  format_nodes (suc n) (nodes x xs) in_array blanks previous = elim (resort_value n x) [
    | yaml_node name value cs arr last vs ↦
        let deeper = if in_array then codes "    " ++ blanks else codes "  " ++ blanks in
        let items = format_nodes n vs true deeper none in
        let fields = format_nodes n cs false deeper none in
        let rest = format_nodes (suc n) xs in_array blanks (if in_array then last else none) in
        line_of in_array blanks previous last name value ∷ ((if arr then items else fields) ++ rest)
  ]

  unfoldable pub properties_to_yaml : Bytes → Bytes
  unfolding get_properties_item_line_list nodes_of format_nodes depth_all
  properties_to_yaml content =
      let ns = nodes_of (get_properties_item_line_list content) no_nodes in
      join 10 (format_nodes (suc (depth_all ns)) ns false [] none) ++ 10 ∷ []
