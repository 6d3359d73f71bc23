-- ===== src/Cfg/Yaml/Fuel/Enough.antt =====
-- More fuel than there are words changes nothing for wordToNode of service/cfg/codec.go.
use micro_conf.Cfg.Yaml.Fuel.{
  Agree, Consumes-length, Rec, Recs, Spends, merge_arrays-Agree, merge_arrays-Consumes,
  merge_children-Agree, merge_children-Consumes, word_to_node-spent,
}
use micro_conf.Cfg.Yaml.{
  Nodes, add_word, append_nodes, append_space_for_array_value, merge_arrays, merge_children,
  no_nodes, nodes, peel_array, word_to_node, yaml_node,
}
use micro_conf.Base.{
  Bool, List, Option, [], arith, false, if◌then◌else◌, length, none, null, refl, some, suc, true,
  zero, ℕ, ◌+◌, ◌-◌, ◌∙◌, ◌∷◌, ◌≡◌, ◌≤◌,
}
use micro_conf.Text.Bytes.{Bytes}

add_word-Agree :
    (n : ℕ) (call call2 : Recs) (p : Bytes × Option ℕ) (ws : List Bytes) (ns : Nodes) (b : Bool)
    (last : Option ℕ) (value : Bytes)
    → ((c : Bool) (i : Option ℕ) → Spends n (λ us vs. call us vs c i))
    → ((c : Bool) (i : Option ℕ) → Agree n (λ us vs. call us vs c i) (λ us vs. call2 us vs c i))
    → length ws ≤ n
    → add_word call p ws ns b last value ≡ add_word call2 p ws ns b last value
unfolding add_word
add_word-Agree n call call2 (name, some j) ws ns b last value spends agree h =
    let f : Rec = λ us vs. call us vs true (some j) in
    let g : Rec = λ us vs. call2 us vs true (some j) in
    let r = merge_arrays name last f ws ns in
    let e =
      merge_arrays-Agree n name last f (spends true (some j)) g (agree true (some j)) ws ns h in
    let eaten = merge_arrays-Consumes n name last f (spends true (some j)) ws ns h in
    let new =
      agree true (some j) r.1 no_nodes (Consumes-length n ws r h eaten)
      ∙ (λ i. g (e i).1 no_nodes) in
    λ i.
      if◌then◌else◌ {A = List Bytes × Nodes} (e i).0 ((e i).1, (e i).2)
        (
          (new i).0,
          append_nodes (e i).2 (nodes (yaml_node name [] no_nodes true last (new i).1) no_nodes),
        )
add_word-Agree n call call2 (name, none) ws ns b last value spends agree h =
    let f : Rec = λ us vs. call us vs b none in
    let g : Rec = λ us vs. call2 us vs b none in
    let r = merge_children b name last f ws ns in
    let e = merge_children-Agree n name last f (spends b none) g (agree b none) b ws ns h in
    let eaten = merge_children-Consumes n name last f (spends b none) b ws ns h in
    let new =
      agree false none r.1 no_nodes (Consumes-length n ws r h eaten)
      ∙ (λ i. call2 (e i).1 no_nodes false none) in
    let single = if null ws then value else [] in
    λ i.
      if◌then◌else◌ {A = List Bytes × Nodes} (e i).0 ((e i).1, (e i).2)
        (
          (new i).0,
          append_nodes (e i).2
              (nodes (yaml_node name single (new i).1 false last no_nodes) no_nodes),
        )

word_to_node-more :
    (n : ℕ) (ws : List Bytes) (ns : Nodes) (in_array : Bool) (last : Option ℕ) (value : Bytes)
    → length ws ≤ n
    → word_to_node (suc n) ws ns in_array last value ≡ word_to_node n ws ns in_array last value
unfolding word_to_node
word_to_node-more zero [] ns b last value h = refl
word_to_node-more (suc n) [] ns b last value h = refl
word_to_node-more zero (w ∷ ws) ns b last value h = absurd (omega arith)
word_to_node-more (suc n) (w ∷ ws) ns b last value h =
    let inner = append_space_for_array_value value in
    add_word-Agree n (λ us vs c i. word_to_node (suc n) us vs c i inner)
      (λ us vs c i. word_to_node n us vs c i inner) (peel_array w) ws ns b last value
      (λ c i us vs k. word_to_node-spent (suc n) us vs c i inner (omega arith))
      (λ c i us vs k. word_to_node-more n us vs c i inner k) (omega arith)

word_to_node-gap :
    (k n : ℕ) (ws : List Bytes) (ns : Nodes) (in_array : Bool) (last : Option ℕ) (value : Bytes)
    → n ≡ k + length ws
    → word_to_node n ws ns in_array last value ≡ word_to_node (length ws) ws ns in_array last value
word_to_node-gap zero n ws ns b last value h =
    let e : n ≡ length ws = omega arith in λ i. word_to_node (e i) ws ns b last value
word_to_node-gap (suc k) zero ws ns b last value h = absurd (omega arith)
word_to_node-gap (suc k) (suc m) ws ns b last value h =
    word_to_node-more m ws ns b last value (omega arith)
    ∙ word_to_node-gap k m ws ns b last value (omega arith)

-- As much fuel as there are words in a key is enough for wordToNode: it takes up every word, and
-- with more fuel its result is the same.
pub word_to_node-enough :
    (n : ℕ) (ws : List Bytes) (ns : Nodes) (in_array : Bool) (last : Option ℕ) (value : Bytes)
    → length ws ≤ n
    → ((word_to_node n ws ns in_array last value).0 ≡ [])
      × (word_to_node n ws ns in_array last value
          ≡ word_to_node (length ws) ws ns in_array last value)
word_to_node-enough n ws ns b last value h = (
  word_to_node-spent n ws ns b last value h,
  word_to_node-gap (n - length ws) n ws ns b last value (omega arith),
)
