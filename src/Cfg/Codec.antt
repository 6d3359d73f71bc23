-- ===== src/Cfg/Codec.antt =====
-- The part of service/cfg/codec.go that flattens a namespace: from a YAML or JSON tree to lines of
-- properties, and from lines to pairs and maps.
use micro_conf.Text.Decimal.{format_int, pos}
use micro_conf.Text.Cut.{replace_byte}
use micro_conf.Text.Bytes.{Bytes, codes}
use micro_conf.Base.{List, Option, [], if◌then◌else◌, null, ℕ, ◌++◌, ◌+◌, ◌∷◌}

-- What yaml.Unmarshal and jsoniter.Unmarshal put into an interface{}. `scalar` holds what the verb
-- v of fmt prints for a number or a truth value, and a key is what it prints for the key.
mutual
  pub data Value : Type 0 where
    nil_value : Value
    text : Bytes → Value
    scalar : Bytes → Value
    seq : Items → Value
    tree : Fields → Value

  pub data Items : Type 0 where
    done : Items
    item : Value → Items → Items

  pub data Fields : Type 0 where
    end : Fields
    field : Bytes → Value → Fields → Fields

-- yaml.v2 and jsoniter, whose sources are elsewhere.
pub record Formats : Type 0 where
  pub unmarshal_yaml : Bytes → Option Fields
  pub marshal_yaml : Value → Option Bytes
  pub unmarshal_json : Bytes → Option Value

-- The libraries as two calls in a row see them: each call ranges over Go's maps in an order of its
-- own.
pub record Readings : Type 0 where
  pub first : Formats
  pub second : Formats

unfoldable pub prefix_with_dot : Bytes → Bytes
prefix_with_dot prefix = if null prefix then [] else prefix ++ codes "."

unfoldable pub index_suffix : ℕ → Bytes
index_suffix i = codes "[" ++ (format_int (pos i) ++ codes "]")

-- A line of text: every line feed in the value gets a backslash in front.
unfoldable pub text_line : Bytes → Bytes → Bytes
text_line prefix t = prefix ++ (codes "=" ++ replace_byte 10 (codes "\\" ++ 10 ∷ []) t)

unfoldable pub scalar_line : Bytes → Bytes → Bytes
scalar_line prefix t = prefix ++ (codes "=" ++ t)

-- doMapToProperties. An empty map returns an empty list in place of the lines so far.
unfoldable mutual
  unfolding prefix_with_dot index_suffix text_line scalar_line

  pub do_map_to_properties : List Bytes → Value → Bytes → List Bytes
  do_map_to_properties lines nil_value prefix = lines ++ text_line prefix [] ∷ []
  do_map_to_properties lines (text t) prefix = lines ++ text_line prefix t ∷ []
  do_map_to_properties lines (scalar t) prefix = lines ++ scalar_line prefix t ∷ []
  do_map_to_properties lines (seq xs) prefix = items_to_properties lines xs prefix 0
  do_map_to_properties lines (tree fs) prefix = tree_to_properties lines fs prefix

  pub items_to_properties : List Bytes → Items → Bytes → ℕ → List Bytes
  items_to_properties lines done prefix i = lines
  items_to_properties lines (item v xs) prefix i =
      items_to_properties (do_map_to_properties lines v (prefix ++ index_suffix i)) xs prefix
        (i + 1)

  pub tree_to_properties : List Bytes → Fields → Bytes → List Bytes
  tree_to_properties lines end prefix = []
  tree_to_properties lines (field k v fs) prefix =
      fields_to_properties (do_map_to_properties lines v (prefix_with_dot prefix ++ k)) fs prefix

  pub fields_to_properties : List Bytes → Fields → Bytes → List Bytes
  fields_to_properties lines end prefix = lines
  fields_to_properties lines (field k v fs) prefix =
      fields_to_properties (do_map_to_properties lines v (prefix_with_dot prefix ++ k)) fs prefix
