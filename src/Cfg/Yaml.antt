-- ===== src/Cfg/Yaml.antt =====
-- The part of service/cfg/codec.go that builds YAML from properties: the keys of the lines become a
-- tree, which is printed. The parent of a node is stored there and never read, so it is left out;
-- an index of -1 is none. sort.Slice is a parameter, since the test that it gets is no order.
pub mod Fuel
pub mod Lines
pub mod Print
pub mod Tree
use micro_conf.Text.Split.{join, onto_first}
use micro_conf.Text.Decimal.{atoi, digits, negsuc, pos}
use micro_conf.Text.Bytes.{Bytes, codes, contains_text, has_prefix, has_suffix, same}
use micro_conf.Cfg.Flat.Leaves.{line}
use micro_conf.Text.Index.{index, last_index}
use micro_conf.Base.{
  Bool, List, Option, [], drop, false, if◌then◌else◌, leb, length, map, none, not, null, some, suc,
  take, true, zero, ◌&&◌, ◌++◌, ◌+◌, ◌-◌, ◌==◌, ◌||◌, ◌∷◌, ℕ,
}

mutual
  pub data YamlNode : Type 0 where
    -- name, value, children, arrayFlag, lastNodeIndex, valueList
    yaml_node : Bytes → Bytes → Nodes → Bool → Option ℕ → Nodes → YamlNode

  pub data Nodes : Type 0 where
    no_nodes : Nodes
    nodes : YamlNode → Nodes → Nodes

abbrev pub append_nodes : Nodes → Nodes → Nodes
append_nodes no_nodes ys = ys
append_nodes (nodes x xs) ys = nodes x (append_nodes xs ys)

unfoldable pub is_digit : ℕ → Bool
is_digit c = leb b'0' c && leb c b'9'

unfoldable pub all_digits : Bytes → Bool
unfolding is_digit
all_digits [] = true
all_digits (c ∷ s) = is_digit c && all_digits s

-- The digits between the last bracket and one at the end.
unfoldable pub bracketed : Bytes → Option Bytes
unfolding all_digits
bracketed inner =
    let digits = take (length inner - 1) inner in
    if has_suffix inner (codes "]") && all_digits digits then some digits else none

-- The index behind a name: none for no digits, and no name either for a number out of range.
unfoldable pub indexed : Bytes → Bytes → Bytes × Option ℕ
indexed name digits = if null digits then (name, none) else elim (atoi digits) [
  | none ↦ ([], none)
  | some z ↦ elim z [ pos n ↦ (name, some n) | negsuc n ↦ (name, none) ]
]

-- peelArray, with the pattern ^(.*)\[(\d*)\]$, whose dot takes no line feed.
unfoldable pub peel_array : Bytes → Bytes × Option ℕ
unfolding bracketed indexed
peel_array node_name = elim (last_index b'[' node_name) [
  | none ↦ (node_name, none)
  | some i ↦
      if contains_text (take i node_name) (10 ∷ [])
      then (node_name, none)
      else elim (bracketed (drop (i + 1) node_name)) [
        | none ↦ (node_name, none)
        | some digits ↦ indexed (take i node_name) digits
      ]
]

-- strings.Split at a backslash and an n.
unfoldable pub split_escaped : Bytes → List Bytes
unfolding onto_first
split_escaped [] = [] ∷ []
split_escaped (x ∷ []) = (x ∷ []) ∷ []
split_escaped (x ∷ y ∷ s) =
    let behind = split_escaped s in
    let rest = split_escaped (y ∷ s) in
    if x == 92 && y == b'n' then [] ∷ behind else onto_first x rest

unfoldable pub indent : Bytes → Bytes
indent line =
    codes "  " ++ (if has_suffix line (codes "\\") then take (length line - 1) line else line)

-- YamlNewLineDom
abbrev pub block_mark : Bytes
block_mark = codes "|" ++ 10 ∷ []

unfoldable pub append_space_for_array_value : Bytes → Bytes
unfolding split_escaped indent
append_space_for_array_value value =
    if has_prefix value block_mark
    then block_mark ++ join 10 (map indent (split_escaped (drop 2 value)))
    else value

unfoldable pub string_value_wrap : Bytes → Bytes
string_value_wrap value =
    if null value
    then []
    else if has_prefix value (codes "[") && has_suffix value (codes "]")
    then codes "'" ++ (value ++ codes "'")
    else value

-- Whether a node with an index may take what belongs to another one.
unfoldable pub index_fits : Option ℕ → Option ℕ → Bool
index_fits index none = true
index_fits none (some j) = false
index_fits (some i) (some j) = i == j

-- The loop of wordToNode over the nodes, for a name with an index: `rec` is the recursive call, and
-- the words that it leaves are those of the next match.
unfoldable pub merge_arrays :
    Bytes
    → Option ℕ
    → (List Bytes → Nodes → List Bytes × Nodes)
    → List Bytes
    → Nodes
    → Bool × List Bytes × Nodes
unfolding index_fits
merge_arrays name index rec words no_nodes = (false, words, no_nodes)
merge_arrays name index rec words (nodes (yaml_node n v cs arr last vs) ns) =
    if same name n && (arr && index_fits index last)
    then (let (left, us) = rec words vs in
        let (found, behind, rest) = merge_arrays name index rec left ns in
        (true, behind, nodes (yaml_node n v cs arr last us) rest))
    else (let (found, behind, rest) = merge_arrays name index rec words ns in
        (found, behind, nodes (yaml_node n v cs arr last vs) rest))

-- The same loop for a name without an index.
unfoldable pub merge_children :
    Bool
    → Bytes
    → Option ℕ
    → (List Bytes → Nodes → List Bytes × Nodes)
    → List Bytes
    → Nodes
    → Bool × List Bytes × Nodes
unfolding index_fits
merge_children in_array name index rec words no_nodes = (false, words, no_nodes)
merge_children in_array name index rec words (nodes (yaml_node n v cs arr last vs) ns) =
    if same name n && (not in_array || index_fits index last)
    then (let (left, us) = rec words cs in
        let (found, behind, rest) = merge_children in_array name index rec left ns in
        (true, behind, nodes (yaml_node n v us arr last vs) rest))
    else (let (found, behind, rest) = merge_children in_array name index rec words ns in
        (found, behind, nodes (yaml_node n v cs arr last vs) rest))

-- What wordToNode does with the first word once it is peeled: `rec` is the recursive call.
unfoldable pub add_word :
    (List Bytes → Nodes → (in_array : Bool) → (index : Option ℕ) → List Bytes × Nodes)
    → Bytes × Option ℕ
    → List Bytes
    → Nodes
    → (in_array : Bool) → (index : Option ℕ) → (value : Bytes) → List Bytes × Nodes
unfolding merge_arrays merge_children
add_word rec (name, some j) ws ns in_array index value =
    let (found, left, merged) = merge_arrays name index (λ us vs. rec us vs true (some j)) ws ns in
    let (behind, vs) = rec left no_nodes true (some j) in
    if found
    then (left, merged)
    else (behind, append_nodes merged (nodes (yaml_node name [] no_nodes true index vs) no_nodes))
add_word rec (name, none) ws ns in_array index value =
    let (found, left, merged) =
      merge_children in_array name index (λ us vs. rec us vs in_array none) ws ns in
    let (behind, cs) = rec left no_nodes false none in
    let own = if null ws then value else [] in
    if found
    then (left, merged)
    else (behind, append_nodes merged (nodes (yaml_node name own cs false index no_nodes) no_nodes))

-- wordToNode: each call takes a word, so as much fuel as there are words is enough.
unfoldable pub word_to_node :
    ℕ
    → List Bytes
    → Nodes
    → (in_array : Bool) → (index : Option ℕ) → (value : Bytes) → List Bytes × Nodes
unfolding peel_array append_space_for_array_value add_word
word_to_node fuel [] ns in_array index value = (
  [],
  if in_array
      then append_nodes ns (nodes (yaml_node [] value no_nodes false none no_nodes) no_nodes)
      else ns,
)
word_to_node zero (w ∷ ws) ns in_array index value = (w ∷ ws, ns)
word_to_node (suc n) (w ∷ ws) ns in_array index value =
    add_word (λ us vs b i. word_to_node n us vs b i (append_space_for_array_value value))
      (peel_array w) ws ns in_array index value
