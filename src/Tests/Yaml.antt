-- ===== src/Tests/Yaml.antt =====
-- Properties that become YAML.
use micro_conf.Cfg.Yaml.Tree.{leaf_at}
use micro_conf.Cfg.Yaml.Lines.{PlainLine, key_words, leaf-lines}
use micro_conf.Cfg.Flat.Leaves.{Pair, line}
use micro_conf.Text.Index.{last_index}
use micro_conf.Text.Split.{join, split}
use micro_conf.Text.Decimal.{atoi}
use micro_conf.Text.Cut.{ends_ink, is_space, cut, trim_space}
use micro_conf.Text.Bytes.{contains_text, has_prefix, has_suffix, same, Bytes, codes}
use micro_conf.Samples.Trees.{formats}
use micro_conf.Cfg.Yaml.Print.{nodes_of, properties_to_yaml}
use micro_conf.Cfg.Yaml.{no_nodes, Nodes, YamlNode, peel_array}
use micro_conf.Cfg.Convert.{MoreFormats, json_to_map}
use micro_conf.Base.Outcome.{err, message}
use micro_conf.Base.{arith, map, none, Bool, [], refl, some, ◌++◌, ◌∷◌, ◌≡◌}

-- A sort that leaves the items as they are.
abbrev unsorted : (YamlNode → YamlNode → Bool) → Nodes → Nodes
unsorted is_less ns = ns

abbrev lf : Bytes
lf = 10 ∷ []

flat :
    properties_to_yaml unsorted (codes "a=1" ++ lf ++ codes "# c" ++ lf ++ codes "b=")
    ≡ codes "a: 1" ++ lf ++ codes "b:" ++ lf
unfolding properties_to_yaml join has_suffix split trim_space cut last_index same contains_text
flat = refl

nested :
    properties_to_yaml unsorted (codes "a.b=1" ++ lf ++ codes "a.c[0]=x" ++ lf ++ codes "a.c[1]=y")
    ≡ codes "a:"
      ++ lf
      ++ codes "  b: 1"
      ++ lf
      ++ codes "  c:"
      ++ lf
      ++ codes "    - x"
      ++ lf
      ++ codes "    - y"
      ++ lf
unfolding properties_to_yaml join has_suffix split trim_space cut last_index same contains_text atoi
nested = refl

-- A key that is there already keeps its first value.
repeated : properties_to_yaml unsorted (codes "a=1" ++ lf ++ codes "a=2") ≡ codes "a: 1" ++ lf
unfolding properties_to_yaml join has_suffix split trim_space cut last_index same contains_text
repeated = refl

peeled : peel_array (codes "c[10]") ≡ (codes "c", some 10)
unfolding peel_array last_index contains_text has_suffix atoi
peeled = refl

-- JsonToMap refuses every object.
refused_object :
    (more : MoreFormats) → json_to_map formats more (codes "{}") ≡ err (message "invalid json")
unfolding json_to_map has_prefix
refused_object more = refl

abbrev pair : Bytes → Bytes → Pair
pair k v = record { key = k; value = v }

abbrev child : Pair
child = pair (codes "a.c") (codes "2")

abbrev sibling : Pair
sibling = pair (codes "a.b") (codes "1")

abbrev other_key : Pair
other_key = pair (codes "b") (codes "3")

child-PlainLine : PlainLine child
unfolding ends_ink is_space has_prefix split peel_array last_index
child-PlainLine = (
  (
    refl,
    (omega arith, (omega arith, (omega arith, tt))),
    (omega arith, (omega arith, (omega arith, tt))),
    (omega arith, tt),
    refl,
  ),
  refl,
  (refl, (refl, tt)),
)

sibling-PlainLine : PlainLine sibling
unfolding ends_ink is_space has_prefix split peel_array last_index
sibling-PlainLine = (
  (
    refl,
    (omega arith, (omega arith, (omega arith, tt))),
    (omega arith, (omega arith, (omega arith, tt))),
    (omega arith, tt),
    refl,
  ),
  refl,
  (refl, (refl, tt)),
)

other_key-PlainLine : PlainLine other_key
unfolding ends_ink is_space has_prefix split peel_array last_index
other_key-PlainLine =
    ((refl, (omega arith, tt), (omega arith, tt), (omega arith, tt), refl), refl, (refl, tt))

nothing_there : leaf_at (key_words sibling) (nodes_of (map line (child ∷ [])) no_nodes) ≡ none
unfolding leaf_at nodes_of split trim_space cut last_index same has_prefix contains_text
nothing_there = refl

leaf-lines_example :
    leaf_at (key_words sibling) (nodes_of (map line (child ∷ sibling ∷ other_key ∷ [])) no_nodes)
    ≡ some (codes "1")
leaf-lines_example =
    leaf-lines (child ∷ []) sibling (other_key ∷ []) (child-PlainLine, tt) sibling-PlainLine
      (other_key-PlainLine, tt) nothing_there
