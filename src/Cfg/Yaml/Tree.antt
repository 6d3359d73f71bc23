-- ===== src/Cfg/Yaml/Tree.antt =====
-- The leaves of the tree that wordToNode of service/cfg/codec.go builds, for keys without indices.
pub mod Leaves
use micro_conf.Cfg.Yaml.Fuel.{word_to_node-spent}
use micro_conf.Base.{
  arith, length, suc, zero, ℕ, Bool, List, Option, [], false, if◌then◌else◌, inl, inr, none, null,
  refl, some, true, ◌∙◌, ◌∷◌, ◌≡◌, ◌⊎◌,
}
use micro_conf.Text.Bytes.{has_prefix, Bytes, eq_of_same, same}
use micro_conf.Cfg.Yaml.{
  add_word, append_nodes, append_space_for_array_value, block_mark, word_to_node, Nodes,
  merge_children, no_nodes, nodes, peel_array, yaml_node,
}
use mathlib.Core.Path.{subst}

-- The value and the children of the first node with a name.
unfoldable pub find_node : Bytes → Nodes → Option (Bytes × Nodes)
find_node k no_nodes = none
find_node k (nodes (yaml_node m v cs arr last vs) ns) =
    if same k m then some (v, cs) else find_node k ns

abbrev pub descend : (Nodes → Option Bytes) → Bool → Option (Bytes × Nodes) → Option Bytes
descend deeper b none = none
descend deeper true (some (v, cs)) = some v
descend deeper false (some (v, cs)) = deeper cs

-- The value of the node at the end of a path.
unfoldable pub leaf_at : List Bytes → Nodes → Option Bytes
unfolding find_node
leaf_at [] ns = none
leaf_at (w ∷ ws) ns = descend (leaf_at ws) (null ws) (find_node w ns)

abbrev pub IsName : Bytes → Type 0
IsName w = peel_array w ≡ (w, none)

pub either : (b : Bool) → (b ≡ true) ⊎ (b ≡ false)
either true = inl refl
either false = inr refl

pub found_or_none : (o : Option (Bytes × Nodes)) → (o ≡ none) ⊎ ((x : Bytes × Nodes) × (o ≡ some x))
found_or_none none = inl refl
found_or_none (some x) = inr (x, refl)

module _ (w : Bytes) (f : List Bytes → Nodes → List Bytes × Nodes) where
  abbrev pub loop : List Bytes → Nodes → Bool × List Bytes × Nodes
  loop ws ns = merge_children false w none f ws ns

  loop-missing :
      (ws : List Bytes) (ns : Nodes) → find_node w ns ≡ none → loop ws ns ≡ (false, ws, ns)
  unfolding merge_children find_node
  loop-missing ws no_nodes h = refl
  loop-missing ws (nodes (yaml_node m v cs arr last vs) ns) h = elim (either (same w m)) [
    | inl t ↦ absurd (cc (rw t at h))
    | inr e ↦
        let r = loop-missing ws ns (rw e at h) in
        rw e (λ i. ((r i).0, (r i).1, nodes (yaml_node m v cs arr last vs) (r i).2))
  ]

  module _ (idle : (vs : Nodes) → f [] vs ≡ ([], vs)) where
    loop-idle : (ns : Nodes) → (loop [] ns).2 ≡ ns
    unfolding merge_children
    loop-idle no_nodes = refl
    loop-idle (nodes (yaml_node m v cs arr last vs) ns) = elim (either (same w m)) [
      | inl t ↦
          let e = idle cs in
          let rest = (λ i. (loop (e i).0 ns).2) ∙ loop-idle ns in
          rw t (λ i. nodes (yaml_node m v (e i).1 arr last vs) (rest i))
      | inr e ↦ rw e (λ i. nodes (yaml_node m v cs arr last vs) (loop-idle ns i))
    ]

    module _ (ws : List Bytes) (spends : (vs : Nodes) → (f ws vs).0 ≡ []) where
      pub loop-found :
          (ns : Nodes) (x : Bytes × Nodes)
          → find_node w ns ≡ some x
          → ((loop ws ns).0 ≡ true) × (find_node w (loop ws ns).2 ≡ some (x.0, (f ws x.1).1))
      unfolding merge_children find_node
      loop-found no_nodes x h = absurd (cc h)
      loop-found (nodes (yaml_node m v cs arr last vs) ns) x h = elim (either (same w m)) [
        | inl t ↦
            let e : (v, cs) ≡ x = cc (rw t at h) in
            (rw t refl, rw (t, t) (λ i. some ((e i).0, (f ws (e i).1).1)))
        | inr e ↦
            let (found, behind) = loop-found ns x (rw e at h) in (rw e found, rw (e, e) behind)
      ]

      pub loop-other :
          (ns : Nodes) (q : Bytes) → same q w ≡ false → find_node q (loop ws ns).2 ≡ find_node q ns
      unfolding merge_children find_node
      loop-other no_nodes q h = refl
      loop-other (nodes (yaml_node m v cs arr last vs) ns) q h = elim (either (same w m)) [
        | inl t ↦
            let far : same q m ≡ false = subst (λ k. same q k ≡ false) (eq_of_same w m t) h in
            let rest = (λ i. (loop (spends cs i) ns).2) ∙ loop-idle ns in
            rw (t, far) (λ i. find_node q (rest i))
        | inr e ↦ elim (either (same q m)) [
          | inl t ↦ rw (e, t) refl
          | inr d ↦ rw (e, d) (loop-other ns q h)
        ]
      ]

pub find-append :
    (q : Bytes) (ns xs : Nodes)
    → (x : Bytes × Nodes) → find_node q ns ≡ some x
    → find_node q (append_nodes ns xs) ≡ some x
unfolding find_node
find-append q no_nodes xs x h = absurd (cc h)
find-append q (nodes (yaml_node m v cs arr last vs) ns) xs x h = elim (either (same q m)) [
  | inl t ↦ rw t (rw t at h)
  | inr e ↦ rw e (find-append q ns xs x (rw e at h))
]

pub find-append_none :
    (q : Bytes) (ns xs : Nodes)
    → find_node q ns ≡ none
    → find_node q (append_nodes ns xs) ≡ find_node q xs
unfolding find_node
find-append_none q no_nodes xs h = refl
find-append_none q (nodes (yaml_node m v cs arr last vs) ns) xs h = elim (either (same q m)) [
  | inl t ↦ absurd (cc (rw t at h))
  | inr e ↦ rw e (find-append_none q ns xs (rw e at h))
]

-- wordToNode for a name on its own.
module _ (v : Bytes) (short : has_prefix v block_mark ≡ false) where
  abbrev pub grow : List Bytes → Nodes → Nodes
  grow ws ns = (word_to_node (length ws) ws ns false none v).1

  abbrev pub rec : ℕ → List Bytes → Nodes → List Bytes × Nodes
  rec n us vs = word_to_node n us vs false none v

  pub rec-idle : (n : ℕ) (vs : Nodes) → rec n [] vs ≡ ([], vs)
  unfolding word_to_node
  rec-idle zero vs = refl
  rec-idle (suc n) vs = refl

  pub rec-spends : (ws : List Bytes) (vs : Nodes) → (rec (length ws) ws vs).0 ≡ []
  rec-spends ws vs = word_to_node-spent (length ws) ws vs false none v (omega arith)

  pub value-kept : append_space_for_array_value v ≡ v
  unfolding append_space_for_array_value
  value-kept = rw short refl

  grow_word :
      (w : Bytes) (ws : List Bytes) (ns : Nodes)
      → IsName w
      → word_to_node (suc (length ws)) (w ∷ ws) ns false none v
        ≡ add_word (λ us vs b i. word_to_node (length ws) us vs b i v) (w, none) ws ns false none v
  unfolding word_to_node
  grow_word w ws ns h = λ i.
      add_word (λ us vs b j. word_to_node (length ws) us vs b j (value-kept i)) (h i) ws ns false
        none v

  abbrev pub own : List Bytes → Bytes
  own ws = if null ws then v else []

  pub grow_new :
      (w : Bytes) (ws : List Bytes) (ns : Nodes)
      → IsName w
      → find_node w ns ≡ none
      → grow (w ∷ ws) ns
        ≡ append_nodes ns
            (nodes (yaml_node w (own ws) (grow ws no_nodes) false none no_nodes) no_nodes)
  unfolding add_word
  grow_new w ws ns h e =
      let r = loop-missing w (rec (length ws)) ws ns e in
      (λ i. (grow_word w ws ns h i).1) ∙ (λ i.
        (if◌then◌else◌ {A = List Bytes × Nodes} (r i).0 ((r i).1, (r i).2)
          (
            (rec (length ws) (r i).1 no_nodes).0,
            append_nodes (r i).2 (
                nodes
                  (yaml_node w (own ws) (rec (length ws) (r i).1 no_nodes).1 false none no_nodes)
                  no_nodes),
          )).1)

  pub grow_old :
      (w : Bytes) (ws : List Bytes) (ns : Nodes) (x : Bytes × Nodes)
      → IsName w
      → find_node w ns ≡ some x
      → grow (w ∷ ws) ns ≡ (loop w (rec (length ws)) ws ns).2
  unfolding add_word
  grow_old w ws ns x h e =
      let f = rec (length ws) in
      let t = (loop-found w f (rec-idle (length ws)) ws (rec-spends ws) ns x e).0 in
      (λ i. (grow_word w ws ns h i).1) ∙ rw t refl
