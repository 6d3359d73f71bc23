-- ===== src/Cfg/Yaml/Lines.antt =====
-- The loop of PropertiesToYaml in service/cfg/codec.go over lines of plain properties.
use micro_conf.Text.Split.{split, split-ne-nil}
use micro_conf.Text.Cut.{StartsInk, cut-append}
use micro_conf.Cfg.Yaml.Tree.Leaves.{leaf-grow, leaf-kept}
use micro_conf.Cfg.Yaml.Tree.{IsName, leaf_at, value-kept}
use micro_conf.Cfg.Yaml.Print.{nodes_of}
use micro_conf.Cfg.Yaml.{Nodes, block_mark, no_nodes, word_to_node}
use micro_conf.Cfg.Flat.RoundTrip.{Plain, trim_space-line}
use micro_conf.Cfg.Flat.{second, block_value}
use micro_conf.Base.{
  sym, All, List, [], arith, false, length, map, none, refl, some, ◌++◌, ◌∙◌, ◌∷◌, ◌≡◌, ◌≢◌,
}
use micro_conf.Text.Bytes.{Bytes, Lacks, has_prefix, codes, contains_text}
use micro_conf.Cfg.Flat.Leaves.{Pair, line}

abbrev pub key_words : Pair → List Bytes
key_words p = split b'.' p.key

-- A line that is no comment, and whose words have no index.
abbrev pub PlainLine : Pair → Type 0
PlainLine p = Plain p × (has_prefix p.key (codes "#") ≡ false) × All IsName (key_words p)

has_prefix-line : (p : Pair) → PlainLine p → has_prefix (line p) (codes "#") ≡ false
unfolding has_prefix
has_prefix-line p (plain, h, names) = head_byte p.key plain.0 h
  where
    head_byte :
        (k : Bytes)
        → StartsInk k
        → has_prefix k (codes "#") ≡ false
        → has_prefix (k ++ (codes "=" ++ p.value)) (codes "#") ≡ false
    head_byte [] s h = absurd s
    head_byte (c ∷ k) s h = h

no_line_feed : (v : Bytes) → Lacks 10 v → contains_text v (10 ∷ []) ≡ false
unfolding contains_text has_prefix
no_line_feed [] h = refl
no_line_feed (c ∷ v) (h, hs) = ground (arith, no_line_feed v hs)

not_block : (v : Bytes) → Lacks 10 v → has_prefix v block_mark ≡ false
unfolding has_prefix
not_block [] h = refl
not_block (c ∷ []) h = ground arith
not_block (c ∷ d ∷ v) (h, (k, hs)) = ground arith

-- The tree behind one line.
abbrev with_line : Pair → Nodes → Nodes
with_line p ns = (word_to_node (length (key_words p)) (key_words p) ns false none p.value).1

nodes_of-line :
    (p : Pair) (ls : List Bytes) (ns : Nodes)
    → PlainLine p
    → nodes_of (line p ∷ ls) ns ≡ nodes_of ls (with_line p ns)
unfolding nodes_of block_value
nodes_of-line p ls ns h =
    let short = not_block p.value h.0.3 in
    rw
      (
        trim_space-line p h.0,
        has_prefix-line p h,
        cut-append b'=' p.key p.value h.0.1,
        no_line_feed p.value h.0.3,
        value-kept p.value short,
        trim_space-line p h.0,
        cut-append b'=' p.key p.value h.0.1,
      )
      refl

nodes_of-append :
    (ps qs : List Pair) (ns : Nodes)
    → All PlainLine ps
    → nodes_of (map line (ps ++ qs)) ns ≡ nodes_of (map line qs) (nodes_of (map line ps) ns)
nodes_of-append [] qs ns h = unfold nodes_of in refl
nodes_of-append (p ∷ ps) qs ns (h, hs) =
    nodes_of-line p (map line (ps ++ qs)) ns h
    ∙ nodes_of-append ps qs (with_line p ns) hs
    ∙ sym (λ i. nodes_of (map line qs) (nodes_of-line p (map line ps) ns h i))

leaf-nodes_of :
    (ps : List Pair) (ns : Nodes) (path : List Bytes) (u : Bytes)
    → All PlainLine ps
    → leaf_at path ns ≡ some u
    → leaf_at path (nodes_of (map line ps) ns) ≡ some u
leaf-nodes_of [] ns path u h e = unfold nodes_of in e
leaf-nodes_of (p ∷ ps) ns path u (h, hs) e =
    (λ i. leaf_at path (nodes_of-line p (map line ps) ns h i))
    ∙ leaf-nodes_of ps (with_line p ns) path u hs
        (leaf-kept p.value (not_block p.value h.0.3) (key_words p) ns path u h.2 e)

leaf-with_line :
    (v : Bytes) (short : has_prefix v block_mark ≡ false) (ws : List Bytes) (ns : Nodes)
    → ws ≢ []
    → All IsName ws
    → leaf_at ws ns ≡ none
    → leaf_at ws (word_to_node (length ws) ws ns false none v).1 ≡ some v
leaf-with_line v short [] ns full h e = absurd (full refl)
leaf-with_line v short (w ∷ ws) ns full h e = leaf-grow v short ws ns w h e

-- What the first lines of plain properties put at the end of a path, the lines behind them keep.
pub leaf-lines_kept :
    (first second : List Pair) (path : List Bytes) (u : Bytes)
    → All PlainLine first
    → All PlainLine second
    → leaf_at path (nodes_of (map line first) no_nodes) ≡ some u
    → leaf_at path (nodes_of (map line (first ++ second)) no_nodes) ≡ some u
leaf-lines_kept first second path u hf hs e =
    (λ i. leaf_at path (nodes_of-append first second no_nodes hf i))
    ∙ leaf-nodes_of second (nodes_of (map line first) no_nodes) path u hs e

-- In the tree that PropertiesToYaml builds from lines of plain properties, the value of each line
-- is at the end of the path of its key, where the lines before it have put nothing there.
pub leaf-lines :
    (first : List Pair) (p : Pair) (second : List Pair)
    → All PlainLine first
    → PlainLine p
    → All PlainLine second
    → leaf_at (key_words p) (nodes_of (map line first) no_nodes) ≡ none
    → leaf_at (key_words p) (nodes_of (map line (first ++ p ∷ second)) no_nodes) ≡ some p.value
leaf-lines first p second hf hp hs e =
    let ns = nodes_of (map line first) no_nodes in
    (λ i. leaf_at (key_words p) (nodes_of-append first (p ∷ second) no_nodes hf i))
    ∙ (λ i. leaf_at (key_words p) (nodes_of-line p (map line second) ns hp i))
    ∙ leaf-nodes_of second (with_line p ns) (key_words p) p.value hs (
        leaf-with_line p.value (not_block p.value hp.0.3) (key_words p) ns (split-ne-nil b'.' p.key)
          hp.2 e)
