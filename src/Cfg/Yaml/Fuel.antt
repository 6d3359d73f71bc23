-- ===== src/Cfg/Yaml/Fuel.antt =====
-- The fuel of wordToNode in service/cfg/codec.go: as much as there are words is enough.
pub mod Enough
pub mod Printed
use micro_conf.Base.{
  ◌-◌, null, ◌+◌, Bool, List, Option, [], arith, false, if◌then◌else◌, inl, inr, length, none, not,
  refl, some, suc, sym, true, zero, ℕ, ◌&&◌, ◌||◌, ◌∙◌, ◌∷◌, ◌≡◌, ◌≤◌, ◌⊎◌,
}
use mathlib.Core.Path.{subst}
use micro_conf.Text.Bytes.{Bytes, same}
use micro_conf.Cfg.Yaml.{
  append_nodes, Nodes, add_word, append_space_for_array_value, index_fits, merge_arrays,
  merge_children, no_nodes, nodes, peel_array, word_to_node, yaml_node,
}

-- The recursive call, which returns the words that it leaves and the nodes.
abbrev pub Rec : Type 0
Rec = List Bytes → Nodes → List Bytes × Nodes

-- It consumes all of the words, when they are at most n.
abbrev pub Spends : ℕ → Rec → Type 0
Spends n call = (us : List Bytes) (vs : Nodes) → length us ≤ n → (call us vs).0 ≡ []

abbrev pub Agree : ℕ → Rec → Rec → Type 0
Agree n f g = (us : List Bytes) (vs : Nodes) → length us ≤ n → f us vs ≡ g us vs

-- What a loop over the nodes leaves of the words is nothing, or all where no node matches.
abbrev pub Consumes : List Bytes → Bool × List Bytes × Nodes → Type 0
Consumes ws r = (r.1 ≡ []) ⊎ ((r.0 ≡ false) × (r.1 ≡ ws))

Consumes-if :
    (b : Bool) (ws : List Bytes) (x y : Bool × List Bytes × Nodes)
    → Consumes ws x
    → Consumes ws y
    → Consumes ws (if b then x else y)
Consumes-if true ws x y h k = h
Consumes-if false ws x y h k = k

Consumes-matched :
    (left : List Bytes) (r : Bool × List Bytes × Nodes) → left ≡ [] → Consumes left r → r.1 ≡ []
Consumes-matched left r e (inl h) = h
Consumes-matched left r e (inr (f, h)) = h ∙ e

length-none : (n : ℕ) (us : List Bytes) → us ≡ [] → length us ≤ n
length-none n us e = subst (λ us. length us ≤ n) (sym e) (omega arith)

pub Consumes-length :
    (n : ℕ) (ws : List Bytes) (r : Bool × List Bytes × Nodes)
    → length ws ≤ n
    → Consumes ws r
    → length r.1 ≤ n
Consumes-length n ws r h (inl e) = length-none n r.1 e
Consumes-length n ws r h (inr (f, e)) = subst (λ us. length us ≤ n) (sym e) h

-- Behind the loop, the call that makes a new node runs where no node matches.
after_loop-spent :
    (n : ℕ) (call : Rec) (ws : List Bytes) (vs : Nodes) (r : Bool × List Bytes × Nodes)
    → length ws ≤ n
    → Spends n call
    → Consumes ws r
    → (x y : Nodes)
    → (if◌then◌else◌ {A = List Bytes × Nodes} r.0 (r.1, x) ((call r.1 vs).0, y)).0 ≡ []
after_loop-spent n call ws vs (true, left, xs) h spends (inl e) x y = e
after_loop-spent n call ws vs (true, left, xs) h spends (inr (f, e)) x y = absurd (cc f)
after_loop-spent n call ws vs (false, left, xs) h spends l x y =
    spends left vs (Consumes-length n ws (false, left, xs) h l)

module _ (n : ℕ) (name : Bytes) (last : Option ℕ) (call : Rec) (spends : Spends n call) where
  pub merge_arrays-Consumes :
      (ws : List Bytes) (ns : Nodes)
      → length ws ≤ n
      → Consumes ws (merge_arrays name last call ws ns)
  unfolding merge_arrays
  merge_arrays-Consumes ws no_nodes h = inr (refl, refl)
  merge_arrays-Consumes ws (nodes (yaml_node m v cs arr k vs) ns) h =
      let left = (call ws vs).0 in
      let e = spends ws vs h in
      let r = merge_arrays name last call left ns in
      Consumes-if (same name m && (arr && index_fits last k)) ws _ _
        (inl (Consumes-matched left r e (merge_arrays-Consumes left ns (length-none n left e))))
        (merge_arrays-Consumes ws ns h)

  pub merge_children-Consumes :
      (in_array : Bool) (ws : List Bytes) (ns : Nodes)
      → length ws ≤ n
      → Consumes ws (merge_children in_array name last call ws ns)
  unfolding merge_children
  merge_children-Consumes b ws no_nodes h = inr (refl, refl)
  merge_children-Consumes b ws (nodes (yaml_node m v cs arr k vs) ns) h =
      let left = (call ws cs).0 in
      let e = spends ws cs h in
      let r = merge_children b name last call left ns in
      Consumes-if (same name m && (not b || index_fits last k)) ws _ _
        (inl (Consumes-matched left r e (merge_children-Consumes b left ns (length-none n left e))))
        (merge_children-Consumes b ws ns h)

  -- Two calls that agree on at most n words give the same loop.
  module _ (call2 : Rec) (agree : Agree n call call2) where
    pub merge_arrays-Agree :
        (ws : List Bytes) (ns : Nodes)
        → length ws ≤ n
        → merge_arrays name last call ws ns ≡ merge_arrays name last call2 ws ns
    unfolding merge_arrays
    merge_arrays-Agree ws no_nodes h = refl
    merge_arrays-Agree ws (nodes (yaml_node m v cs arr k vs) ns) h =
        let e = agree ws vs h in
        let first = merge_arrays-Agree (call ws vs).0 ns (length-none n _ (spends ws vs h)) in
        let found = first ∙ (λ i. merge_arrays name last call2 (e i).0 ns) in
        let behind = merge_arrays-Agree ws ns h in
        λ i.
          if same name m && (arr && index_fits last k)
          then (true, (found i).1, nodes (yaml_node m v cs arr k (e i).1) (found i).2)
          else ((behind i).0, (behind i).1, nodes (yaml_node m v cs arr k vs) (behind i).2)

    pub merge_children-Agree :
        (in_array : Bool) (ws : List Bytes) (ns : Nodes)
        → length ws ≤ n
        → merge_children in_array name last call ws ns
          ≡ merge_children in_array name last call2 ws ns
    unfolding merge_children
    merge_children-Agree b ws no_nodes h = refl
    merge_children-Agree b ws (nodes (yaml_node m v cs arr k vs) ns) h =
        let e = agree ws cs h in
        let first = merge_children-Agree b (call ws cs).0 ns (length-none n _ (spends ws cs h)) in
        let found = first ∙ (λ i. merge_children b name last call2 (e i).0 ns) in
        let behind = merge_children-Agree b ws ns h in
        λ i.
          if same name m && (not b || index_fits last k)
          then (true, (found i).1, nodes (yaml_node m v (e i).1 arr k vs) (found i).2)
          else ((behind i).0, (behind i).1, nodes (yaml_node m v cs arr k vs) (behind i).2)

-- The recursive calls with every flag and index.
abbrev pub Recs : Type 0
Recs = List Bytes → Nodes → Bool → Option ℕ → List Bytes × Nodes

add_word-spent :
    (n : ℕ) (call : Recs) (p : Bytes × Option ℕ) (ws : List Bytes) (ns : Nodes) (b : Bool)
    (last : Option ℕ) (value : Bytes)
    → ((c : Bool) (i : Option ℕ) → Spends n (λ us vs. call us vs c i))
    → length ws ≤ n
    → (add_word call p ws ns b last value).0 ≡ []
unfolding add_word
add_word-spent n call (name, some j) ws ns b last value spends h =
    let f : Rec = λ us vs. call us vs true (some j) in
    after_loop-spent n f ws no_nodes (merge_arrays name last f ws ns) h (spends true (some j))
      (merge_arrays-Consumes n name last f (spends true (some j)) ws ns h) _ _
add_word-spent n call (name, none) ws ns b last value spends h =
    let f : Rec = λ us vs. call us vs b none in
    after_loop-spent n (λ us vs. call us vs false none) ws no_nodes
      (merge_children b name last f ws ns) h (spends false none)
      (merge_children-Consumes n name last f (spends b none) b ws ns h) _ _

pub word_to_node-spent :
    (n : ℕ) (ws : List Bytes) (ns : Nodes) (in_array : Bool) (last : Option ℕ) (value : Bytes)
    → length ws ≤ n
    → (word_to_node n ws ns in_array last value).0 ≡ []
unfolding word_to_node
word_to_node-spent zero [] ns b last value h = refl
word_to_node-spent (suc n) [] ns b last value h = refl
word_to_node-spent zero (w ∷ ws) ns b last value h = absurd (omega arith)
word_to_node-spent (suc n) (w ∷ ws) ns b last value h =
    let inner = append_space_for_array_value value in
    add_word-spent n (λ us vs c i. word_to_node n us vs c i inner) (peel_array w) ws ns b last value
      (λ c i us vs k. word_to_node-spent n us vs c i inner k) (omega arith)
