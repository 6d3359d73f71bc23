-- ===== src/Cfg/Yaml/Tree/Leaves.antt =====
-- What a line of properties adds to the tree that wordToNode of service/cfg/codec.go builds.
use mathlib.Core.Path.{subst}
use micro_conf.Cfg.Yaml.Tree.{
  grow, grow_new, IsName, descend, either, find-append, find-append_none, find_node, found_or_none,
  leaf_at, loop-found, loop-other, own, grow_old, rec, rec-idle, rec-spends,
}
use micro_conf.Cfg.Yaml.{Nodes, block_mark, no_nodes, word_to_node}
use micro_conf.Base.{
  All, List, [], false, inl, inr, length, none, null, refl, some, sym, ◌∙◌, ◌∷◌, ◌≡◌,
}
use micro_conf.Text.Bytes.{Bytes, eq_of_same, has_prefix, same, same_refl}

-- A tree in which a node is found as in another has the same leaves under its name.
leaf-found :
    (q : Bytes) (ps : List Bytes) (ns ms : Nodes)
    → find_node q ns ≡ find_node q ms
    → leaf_at (q ∷ ps) ns ≡ leaf_at (q ∷ ps) ms
unfolding leaf_at
leaf-found q ps ns ms e = λ i. descend (leaf_at ps) (null ps) (e i)

leaf-some :
    (q : Bytes) (ps : List Bytes) (ns : Nodes) (x : Bytes × Nodes)
    → find_node q ns ≡ some x
    → leaf_at (q ∷ ps) ns ≡ descend (leaf_at ps) (null ps) (some x)
unfolding leaf_at
leaf-some q ps ns x e = λ i. descend (leaf_at ps) (null ps) (e i)

leaf-none :
    (q : Bytes) (ps : List Bytes) (ns : Nodes) → find_node q ns ≡ none → leaf_at (q ∷ ps) ns ≡ none
unfolding leaf_at
leaf-none q ps ns e = λ i. descend (leaf_at ps) (null ps) (e i)

leaf-nothing : (ps : List Bytes) → leaf_at ps no_nodes ≡ none
unfolding leaf_at find_node
leaf-nothing [] = refl
leaf-nothing (q ∷ ps) = refl

module _ (v : Bytes) (short : has_prefix v block_mark ≡ false) where
  -- The node that is found under the first word of the key.
  find-grow :
      (w : Bytes) (ws : List Bytes) (ns : Nodes) (x : Bytes × Nodes)
      → IsName w
      → find_node w ns ≡ some x
      → find_node w (grow v short (w ∷ ws) ns) ≡ some (x.0, grow v short ws x.1)
  find-grow w ws ns x h e =
      (λ i. find_node w (grow_old v short w ws ns x h e i))
      ∙ (loop-found w (rec v short (length ws)) (rec-idle v short (length ws)) ws
          (rec-spends v short ws) ns x e).1

  find-grow_new :
      (w : Bytes) (ws : List Bytes) (ns : Nodes)
      → IsName w
      → find_node w ns ≡ none
      → find_node w (grow v short (w ∷ ws) ns) ≡ some (own v short ws, grow v short ws no_nodes)
  unfolding find_node
  find-grow_new w ws ns h e =
      (λ i. find_node w (grow_new v short w ws ns h e i))
      ∙ find-append_none w ns _ e
      ∙ rw (same_refl w) refl

  -- A node that is found under another name.
  find-grow_other :
      (w : Bytes) (ws : List Bytes) (ns : Nodes) (q : Bytes) (x : Bytes × Nodes)
      → IsName w
      → same q w ≡ false
      → find_node q ns ≡ some x
      → find_node q (grow v short (w ∷ ws) ns) ≡ some x
  find-grow_other w ws ns q x h far e = elim (found_or_none (find_node w ns)) [
    | inl missing ↦
        (λ i. find_node q (grow_new v short w ws ns h missing i)) ∙ find-append q ns _ x e
    | inr (y, found) ↦
        (λ i. find_node q (grow_old v short w ws ns y h found i))
        ∙ loop-other w (rec v short (length ws)) (rec-idle v short (length ws)) ws
            (rec-spends v short ws) ns q far
        ∙ e
  ]

  pub leaf-grow :
      (ws : List Bytes) (ns : Nodes) (u : Bytes)
      → All IsName (u ∷ ws)
      → leaf_at (u ∷ ws) ns ≡ none
      → leaf_at (u ∷ ws) (grow v short (u ∷ ws) ns) ≡ some v
  leaf-grow [] ns u (h, _) e = elim (found_or_none (find_node u ns)) [
    | inl missing ↦ leaf-some u [] _ _ (find-grow_new u [] ns h missing)
    | inr (x, found) ↦ absurd (cc (sym e ∙ leaf-some u [] ns x found))
  ]
  leaf-grow (w ∷ ws) ns u (h, hs) e = elim (found_or_none (find_node u ns)) [
    | inl missing ↦
        leaf-some u (w ∷ ws) _ _ (find-grow_new u (w ∷ ws) ns h missing)
        ∙ leaf-grow ws no_nodes w hs (leaf-nothing (w ∷ ws))
    | inr (x, found) ↦
        leaf-some u (w ∷ ws) _ _ (find-grow u (w ∷ ws) ns x h found)
        ∙ leaf-grow ws x.1 w hs (sym (leaf-some u (w ∷ ws) ns x found) ∙ e)
  ]

  kept_here :
      (w : Bytes) (ws : List Bytes) (ns : Nodes) (x : Bytes × Nodes) (ps : List Bytes) (u : Bytes)
      → IsName w
      → (leaf_at ps x.1 ≡ some u → leaf_at ps (grow v short ws x.1) ≡ some u)
      → find_node w ns ≡ some x
      → leaf_at (w ∷ ps) ns ≡ some u
      → leaf_at (w ∷ ps) (grow v short (w ∷ ws) ns) ≡ some u
  kept_here w ws ns x [] u h deeper found e =
      leaf-some w [] _ _ (find-grow w ws ns x h found) ∙ sym (leaf-some w [] ns x found) ∙ e
  kept_here w ws ns x (p ∷ ps) u h deeper found e =
      leaf-some w (p ∷ ps) _ _ (find-grow w ws ns x h found)
      ∙ deeper (sym (leaf-some w (p ∷ ps) ns x found) ∙ e)

  pub leaf-kept :
      (ws : List Bytes) (ns : Nodes) (ps : List Bytes) (u : Bytes)
      → All IsName ws
      → leaf_at ps ns ≡ some u
      → leaf_at ps (grow v short ws ns) ≡ some u
  unfolding word_to_node leaf_at
  leaf-kept [] ns ps u hs e = e
  leaf-kept (w ∷ ws) ns [] u hs e = absurd (cc e)
  leaf-kept (w ∷ ws) ns (q ∷ ps) u (h, hs) e = elim (found_or_none (find_node q ns)) [
    | inl missing ↦ absurd (cc (sym e ∙ leaf-none q ps ns missing))
    | inr (x, found) ↦ elim (either (same q w)) [
      | inl t ↦
          let k = eq_of_same q w t in
          let here = subst (λ n. find_node n ns ≡ some x) k found in
          subst (λ n. leaf_at (n ∷ ps) (grow v short (w ∷ ws) ns) ≡ some u) (sym k)
            (kept_here w ws ns x ps u h (leaf-kept ws x.1 ps u hs) here
              (subst (λ n. leaf_at (n ∷ ps) ns ≡ some u) k e))
      | inr far ↦
          leaf-some q ps _ x (find-grow_other w ws ns q x h far found)
          ∙ sym (leaf-some q ps ns x found)
          ∙ e
    ]
  ]
