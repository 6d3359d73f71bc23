-- ===== src/Cfg/Flat/Leaves.antt =====
-- What the lines of a tree are meant to be: one for each leaf, under the path that leads to it.
use micro_conf.Cfg.Flat.{top_lines}
use micro_conf.Base.Outcome.{ok}
use mathlib.Core.List.{map-append}
use micro_conf.Text.Cut.{replace_byte-Lacks}
use micro_conf.Text.Bytes.{Bytes, Lacks, codes}
use micro_conf.Cfg.Codec.{
  do_map_to_properties, fields_to_properties, items_to_properties, scalar_line, text_line, Fields,
  Items, Value, done, end, field, index_suffix, item, nil_value, prefix_with_dot, scalar, seq, text,
  tree,
}
use micro_conf.Base.{
  ap, append-nil, append_assoc, map, refl, sym, ◌∙◌, Bool, List, [], arith, false, not, true, ℕ,
  ◌&&◌, ◌++◌, ◌+◌, ◌==◌, ◌∷◌, ◌≡◌,
}

pub record Pair : Type 0 where
  pub key : Bytes
  pub value : Bytes

abbrev pub line : Pair → Bytes
line p = p.key ++ (codes "=" ++ p.value)

unfoldable mutual
  unfolding prefix_with_dot index_suffix

  leaves_of : Value → Bytes → List Pair
  leaves_of nil_value prefix = record { key = prefix; value = [] } ∷ []
  leaves_of (text t) prefix = record { key = prefix; value = t } ∷ []
  leaves_of (scalar t) prefix = record { key = prefix; value = t } ∷ []
  leaves_of (seq xs) prefix = leaves_of_items xs prefix 0
  leaves_of (tree fs) prefix = leaves_of_fields fs prefix

  leaves_of_items : Items → Bytes → ℕ → List Pair
  leaves_of_items done prefix i = []
  leaves_of_items (item v xs) prefix i =
      leaves_of v (prefix ++ index_suffix i) ++ leaves_of_items xs prefix (i + 1)

  leaves_of_fields : Fields → Bytes → List Pair
  leaves_of_fields end prefix = []
  leaves_of_fields (field k v fs) prefix =
      leaves_of v (prefix_with_dot prefix ++ k) ++ leaves_of_fields fs prefix

-- The leaves of a whole document.
unfoldable pub leaves : Fields → List Pair
unfolding leaves_of_fields
leaves fs = leaves_of_fields fs []

unfoldable lacks : ℕ → Bytes → Bool
lacks c [] = true
lacks c (x ∷ s) = not (x == c) && lacks c s

lacks→Lacks : (c : ℕ) (s : Bytes) → lacks c s ≡ true → Lacks c s
unfolding lacks
lacks→Lacks c [] h = tt
lacks→Lacks c (x ∷ s) h = ground (arith, lacks→Lacks c s)

-- No map below is empty, and no text spans lines.
unfoldable mutual
  unfolding lacks

  clean : Value → Bool
  clean nil_value = true
  clean (text t) = lacks 10 t
  clean (scalar t) = true
  clean (seq xs) = clean_items xs
  clean (tree end) = false
  clean (tree (field k v fs)) = clean v && clean_fields fs

  clean_items : Items → Bool
  clean_items done = true
  clean_items (item v xs) = clean v && clean_items xs

  clean_fields : Fields → Bool
  clean_fields end = true
  clean_fields (field k v fs) = clean v && clean_fields fs

text_line-line :
    (prefix t : Bytes)
    → lacks 10 t ≡ true
    → text_line prefix t ≡ line (record { key = prefix; value = t })
unfolding text_line
text_line-line prefix t h =
    ap (λ r. prefix ++ (codes "=" ++ r)) (replace_byte-Lacks 10 _ t (lacks→Lacks 10 t h))

-- Lines added for one part and then for another are those for both.
regroup :
    (lines : List Bytes) (ps qs : List Pair)
    → (lines ++ map line ps) ++ map line qs ≡ lines ++ map line (ps ++ qs)
regroup lines ps qs = simp (append_assoc, map-append)

mutual
  unfolding do_map_to_properties leaves_of clean scalar_line

  do_map-leaves :
      (v : Value) (lines : List Bytes) (prefix : Bytes)
      → clean v ≡ true
      → do_map_to_properties lines v prefix ≡ lines ++ map line (leaves_of v prefix)
  do_map-leaves nil_value lines prefix h = ap (λ l. lines ++ l ∷ []) (text_line-line prefix [] refl)
  do_map-leaves (text t) lines prefix h = ap (λ l. lines ++ l ∷ []) (text_line-line prefix t h)
  do_map-leaves (scalar t) lines prefix h = refl
  do_map-leaves (seq xs) lines prefix h = items-leaves xs lines prefix 0 h
  do_map-leaves (tree end) lines prefix h = cc h
  do_map-leaves (tree (field k v fs)) lines prefix h =
      let p = prefix_with_dot prefix ++ k in
      fields-leaves fs (do_map_to_properties lines v p) prefix (ground arith)
      ∙ ap (λ l. l ++ map line (leaves_of_fields fs prefix))
          (do_map-leaves v lines p (ground arith))
      ∙ regroup lines (leaves_of v p) (leaves_of_fields fs prefix)

  items-leaves :
      (xs : Items) (lines : List Bytes) (prefix : Bytes) (i : ℕ)
      → clean_items xs ≡ true
      → items_to_properties lines xs prefix i ≡ lines ++ map line (leaves_of_items xs prefix i)
  items-leaves done lines prefix i h = sym (append-nil lines)
  items-leaves (item v xs) lines prefix i h =
      let p = prefix ++ index_suffix i in
      items-leaves xs (do_map_to_properties lines v p) prefix (i + 1) (ground arith)
      ∙ ap (λ l. l ++ map line (leaves_of_items xs prefix (i + 1)))
          (do_map-leaves v lines p (ground arith))
      ∙ regroup lines (leaves_of v p) (leaves_of_items xs prefix (i + 1))

  fields-leaves :
      (fs : Fields) (lines : List Bytes) (prefix : Bytes)
      → clean_fields fs ≡ true
      → fields_to_properties lines fs prefix ≡ lines ++ map line (leaves_of_fields fs prefix)
  fields-leaves end lines prefix h = sym (append-nil lines)
  fields-leaves (field k v fs) lines prefix h =
      let p = prefix_with_dot prefix ++ k in
      fields-leaves fs (do_map_to_properties lines v p) prefix (ground arith)
      ∙ ap (λ l. l ++ map line (leaves_of_fields fs prefix))
          (do_map-leaves v lines p (ground arith))
      ∙ regroup lines (leaves_of v p) (leaves_of_fields fs prefix)

is_nil : Value → Bool
is_nil nil_value = true
is_nil _ = false

-- A document whose values are clean, and none of them nil at the top.
unfoldable pub clean_document : Fields → Bool
unfolding clean is_nil
clean_document end = true
clean_document (field k v fs) = not (is_nil v) && clean v && clean_document fs

top_step :
    (k : Bytes) (v : Value) (fs : Fields) (lines : List Bytes)
    → clean_document (field k v fs) ≡ true
    → ((ls : List Bytes)
        → clean_document fs ≡ true
        → top_lines ls fs ≡ ok (ls ++ map line (leaves_of_fields fs [])))
    → top_lines (do_map_to_properties lines v k) fs
      ≡ ok (lines ++ map line (leaves_of v k ++ leaves_of_fields fs []))
unfolding clean_document
top_step k v fs lines h ih =
    ih (do_map_to_properties lines v k) (ground arith)
    ∙ ap (λ l. ok (l ++ map line (leaves_of_fields fs []))) (do_map-leaves v lines k (ground arith))
    ∙ ap ok (regroup lines (leaves_of v k) (leaves_of_fields fs []))

pub top_lines-leaves :
    (fs : Fields) (lines : List Bytes)
    → clean_document fs ≡ true
    → top_lines lines fs ≡ ok (lines ++ map line (leaves fs))
unfolding top_lines clean_document leaves leaves_of_fields prefix_with_dot
top_lines-leaves end lines h = ap ok (sym (append-nil lines))
top_lines-leaves (field k nil_value fs) lines h = cc h
top_lines-leaves (field k (text t) fs) lines h =
    top_step k (text t) fs lines h (top_lines-leaves fs)
top_lines-leaves (field k (scalar t) fs) lines h =
    top_step k (scalar t) fs lines h (top_lines-leaves fs)
top_lines-leaves (field k (seq xs) fs) lines h =
    top_step k (seq xs) fs lines h (top_lines-leaves fs)
top_lines-leaves (field k (tree gs) fs) lines h =
    top_step k (tree gs) fs lines h (top_lines-leaves fs)
