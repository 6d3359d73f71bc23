-- ===== src/Cfg/Yaml/Fuel/Printed.antt =====
-- The fuel that PropertiesToYaml gives its printer.
use micro_conf.Text.Split.{join}
use micro_conf.Cfg.Flat.{get_properties_item_line_list}
use micro_conf.Cfg.Yaml.Print.{
  nodes_of, properties_to_yaml, format_nodes, line_of, depth, depth_all, index_before, map_nodes,
  resort_value,
}
use micro_conf.Cfg.Yaml.{Nodes, YamlNode, no_nodes, nodes, yaml_node}
use micro_conf.Text.Bytes.{Bytes, codes}
use micro_conf.Base.{
  [], Bool, List, Option, ap, arith, false, none, refl, suc, true, zero, ◌++◌, ◌+◌, ◌<◌, ◌≤◌, ◌∙◌,
  ◌∷◌, ◌≡◌, ℕ, if◌then◌else◌,
}

-- What sort.Slice documents and is used of: it moves the nodes and changes none.
abbrev pub KeepsNodes : ((YamlNode → YamlNode → Bool) → Nodes → Nodes) → Type 0
unfolding depth_all
KeepsNodes sort =
    (f : YamlNode → YamlNode → Bool) (xs : Nodes) → depth_all (sort f xs) ≡ depth_all xs

depth_all-map_nodes :
    (f : YamlNode → YamlNode)
    → ((x : YamlNode) → depth (f x) ≡ depth x)
    → (xs : Nodes) → depth_all (map_nodes f xs) ≡ depth_all xs
unfolding depth_all
depth_all-map_nodes f h no_nodes = refl
depth_all-map_nodes f h (nodes x xs) = omega (arith, h x, depth_all-map_nodes f h xs)

-- The functions agree on nodes that are not deeper than b.
abbrev pub SameUpTo : ℕ → (YamlNode → YamlNode) → (YamlNode → YamlNode) → Type 0
SameUpTo b f g = (x : YamlNode) → depth x ≤ b → f x ≡ g x

map_nodes-SameUpTo :
    (f g : YamlNode → YamlNode) (b : ℕ)
    → SameUpTo b f g
    → (xs : Nodes) → depth_all xs ≤ b
    → map_nodes f xs ≡ map_nodes g xs
unfolding depth_all
map_nodes-SameUpTo f g b h no_nodes le = refl
map_nodes-SameUpTo f g b h (nodes x xs) le =
    ap (λ y. nodes y (map_nodes f xs)) (h x (omega (arith, le)))
    ∙ ap (nodes (g x)) (map_nodes-SameUpTo f g b h xs (omega (arith, le)))

depth-positive : (x : YamlNode) → 1 ≤ depth x
unfolding depth
depth-positive (yaml_node name value cs arr last vs) = omega arith

module _ (sort_slice : (YamlNode → YamlNode → Bool) → Nodes → Nodes)
    (moves : KeepsNodes sort_slice) where
  depth-resort_value : (n : ℕ) (x : YamlNode) → depth (resort_value sort_slice n x) ≡ depth x
  unfolding resort_value depth
  depth-resort_value zero x = refl
  depth-resort_value (suc n) (yaml_node name value cs false last vs) = refl
  depth-resort_value (suc n) (yaml_node name value cs true last vs) =
      ap (λ d. suc (depth_all cs + d))
        (depth_all-map_nodes (resort_value sort_slice n) (depth-resort_value n)
            (sort_slice index_before vs)
          ∙ moves index_before vs)

  resort_value-SameUpTo :
      (n m b : ℕ)
      → b ≤ n
      → b ≤ m
      → SameUpTo b (resort_value sort_slice n) (resort_value sort_slice m)
  unfolding resort_value depth
  resort_value-SameUpTo zero m b hn hm (yaml_node name value cs arr last vs) h =
      absurd (omega (arith, hn, h))
  resort_value-SameUpTo (suc n) zero b hn hm (yaml_node name value cs arr last vs) h =
      absurd (omega (arith, hm, h))
  resort_value-SameUpTo (suc n) (suc m) b hn hm (yaml_node name value cs false last vs) h = refl
  resort_value-SameUpTo (suc n) (suc m) b hn hm (yaml_node name value cs true last vs) h =
      ap (yaml_node name value cs true last) (
        map_nodes-SameUpTo (resort_value sort_slice n) (resort_value sort_slice m) (depth_all vs)
          (resort_value-SameUpTo n m (depth_all vs) (omega (arith, hn, h)) (omega (arith, hm, h)))
          (sort_slice index_before vs) (omega (arith, moves index_before vs)))

  -- What follows the sort of a node, with one fuel.
  printed : ℕ → Nodes → (in_array : Bool) → Bytes → Option ℕ → YamlNode → List Bytes
  unfolding format_nodes line_of
  printed n xs in_array blanks previous (yaml_node name value cs arr last vs) =
      let deeper = if in_array then codes "    " ++ blanks else codes "  " ++ blanks in
      let items = format_nodes sort_slice n vs true deeper none in
      let fields = format_nodes sort_slice n cs false deeper none in
      let rest =
        format_nodes sort_slice (suc n) xs in_array blanks (if in_array then last else none) in
      line_of in_array blanks previous last name value ∷ ((if arr then items else fields) ++ rest)

  module _ (n m : ℕ) (xs : Nodes) (in_array : Bool) (blanks : Bytes) (previous : Option ℕ)
      (inner : (ys : Nodes) (b : Bool) (bs : Bytes)
        → depth_all ys < n
        → depth_all ys < m
        → format_nodes sort_slice n ys b bs none ≡ format_nodes sort_slice m ys b bs none)
      (later : (o : Option ℕ)
        → format_nodes sort_slice (suc n) xs in_array blanks o
          ≡ format_nodes sort_slice (suc m) xs in_array blanks o) where
    abbrev below : Bytes
    below = if in_array then codes "    " ++ blanks else codes "  " ++ blanks

    printed-enough :
        (y : YamlNode)
        → depth y ≤ n
        → depth y ≤ m
        → printed n xs in_array blanks previous y ≡ printed m xs in_array blanks previous y
    unfolding printed depth
    printed-enough (yaml_node name value cs arr last vs) ln lm =
        let items = inner vs true below (omega (arith, ln)) (omega (arith, lm)) in
        let fields = inner cs false below (omega (arith, ln)) (omega (arith, lm)) in
        let rest = later (if in_array then last else none) in
        λ i.
          line_of in_array blanks previous last name value
          ∷ ((if arr then items i else fields i) ++ rest i)

  -- Where sort.Slice changes no node: more fuel than the tree is deep prints the same lines.
  pub format_nodes-enough :
      (n m : ℕ) (xs : Nodes) (in_array : Bool) (blanks : Bytes) (previous : Option ℕ)
      → depth_all xs < n
      → depth_all xs < m
      → format_nodes sort_slice n xs in_array blanks previous
        ≡ format_nodes sort_slice m xs in_array blanks previous
  unfolding format_nodes printed depth_all
  format_nodes-enough zero m xs in_array blanks previous hn hm = absurd (omega (arith, hn))
  format_nodes-enough (suc n) zero xs in_array blanks previous hn hm = absurd (omega (arith, hm))
  format_nodes-enough (suc n) (suc m) no_nodes in_array blanks previous hn hm = refl
  format_nodes-enough (suc n) (suc m) (nodes x xs) in_array blanks previous hn hm =
      let positive = depth-positive x in
      let same =
        resort_value-SameUpTo n m (depth x) (omega (arith, hn)) (omega (arith, hm)) x
          (omega arith) in
      let deep = depth-resort_value m x in
      ap (printed n xs in_array blanks previous) same
      ∙ printed-enough n m xs in_array blanks previous
          (λ ys b bs ln lm. format_nodes-enough n m ys b bs none ln lm)
          (λ o.
            format_nodes-enough (suc n) (suc m) xs in_array blanks o (omega (arith, hn, positive))
              (omega (arith, hm, positive)))
          (resort_value sort_slice m x) (omega (arith, hn, deep)) (omega (arith, hm, deep))

  -- Where sort.Slice changes no node: however much more fuel its printer gets, PropertiesToYaml
  -- writes the same text.
  properties_to_yaml-enough :
      (content : Bytes) (n : ℕ)
      → let ns = nodes_of (get_properties_item_line_list content) no_nodes in
        depth_all ns < n
        → join b'\n' (format_nodes sort_slice n ns false [] none) ++ b'\n' ∷ []
          ≡ properties_to_yaml sort_slice content
  unfolding properties_to_yaml
  properties_to_yaml-enough content n h =
      let ns = nodes_of (get_properties_item_line_list content) no_nodes in
      ap (λ ls. join b'\n' ls ++ b'\n' ∷ [])
        (format_nodes-enough n (suc (depth_all ns)) ns false [] none h (omega arith))
