-- ===== src/Cfg/Flat/RoundTrip.antt =====
-- The flat list of a YAML document holds its leaves.
use micro_conf.Text.Split.{split, split-append}
use micro_conf.Text.Cut.{StartsInk, cut-append, ends_ink, is_space, trim_space, trim_space-ink}
use micro_conf.Text.Bytes.{codes, has_suffix, Bytes, Lacks}
use micro_conf.Cfg.Flat.Leaves.{Pair, clean_document, leaves, line, top_lines-leaves}
use micro_conf.Cfg.Flat.{
  gather, get_properties_item_line_list, has_mark, pairs_of, print_lines, second, yaml_to_kv_list,
  yaml_to_properties,
}
use micro_conf.Cfg.Codec.{Fields, Formats}
use micro_conf.Base.Outcome.{bind, ok}
use micro_conf.Base.{
  append_assoc, sym, All, All-append, List, [], ap, arith, false, map, null, refl, some, true, ℕ,
  ◌++◌, ◌∙◌, ◌∷◌, ◌≡◌, ◌≢◌,
}
use mathlib.Core.List.{reverse, reverse-append}

-- A leaf that survives on a line: the key begins with no space and has no equals sign, the value
-- ends with no space, and neither spans lines.
abbrev pub Plain : Pair → Type 0
Plain p =
    StartsInk p.key
    × Lacks b'=' p.key
    × Lacks 10 p.key
    × Lacks 10 p.value
    × (ends_ink p.value ≡ true)

abbrev pub to_pair : Pair → Bytes × Bytes
to_pair p = (p.key, p.value)

line-Lacks : (p : Pair) → Plain p → Lacks 10 (line p)
line-Lacks p h = All-append (λ x. x ≢ 10) p.key (b'=' ∷ p.value) h.2 ((omega arith), h.3)

StartsInk-append : (s t : Bytes) → StartsInk s → StartsInk (s ++ t)
StartsInk-append [] t h = absurd h
StartsInk-append (c ∷ s) t h = h

ends_ink_equals : (v : Bytes) → ends_ink v ≡ true → ends_ink (b'=' ∷ v) ≡ true
unfolding ends_ink is_space
ends_ink_equals [] h = refl
ends_ink_equals (c ∷ v) h = h

ends_ink-append : (s t : Bytes) (c : ℕ) → ends_ink (c ∷ t) ≡ true → ends_ink (s ++ c ∷ t) ≡ true
unfolding ends_ink
ends_ink-append [] t c h = h
ends_ink-append (x ∷ []) t c h = h
ends_ink-append (x ∷ y ∷ s) t c h = ends_ink-append (y ∷ s) t c h

pub trim_space-line : (p : Pair) → Plain p → trim_space (line p) ≡ line p
trim_space-line p h =
    trim_space-ink (line p) (StartsInk-append p.key (b'=' ∷ p.value) h.0)
      (ends_ink-append p.key p.value b'=' (ends_ink_equals p.value h.4))

null-line : (p : Pair) → Plain p → null (line p) ≡ false
null-line p h = null_of_StartsInk (line p) (StartsInk-append p.key (b'=' ∷ p.value) h.0)
  where
    null_of_StartsInk : (s : Bytes) → StartsInk s → null s ≡ false
    null_of_StartsInk [] e = absurd e
    null_of_StartsInk (c ∷ s) e = refl

pairs_of-line :
    (p : Pair) (ls : List Bytes)
    → Plain p
    → pairs_of (line p ∷ ls) ≡ bind (pairs_of ls) (λ ps. ok (to_pair p ∷ ps))
unfolding pairs_of second
pairs_of-line p ls h = rw (trim_space-line p h, null-line p h, cut-append b'=' p.key p.value h.1)

pairs_of-lines :
    (ps : List Pair) → All Plain ps → pairs_of (map line ps ++ [] ∷ []) ≡ ok (map to_pair ps)
pairs_of-lines [] h = unfold pairs_of trim_space in refl
pairs_of-lines (p ∷ ps) (hp, hps) =
    rw (pairs_of-line p (map line ps ++ [] ∷ []) hp, pairs_of-lines ps hps)

gather-false : (ls : List Bytes) → gather false [] ls ≡ ls
unfolding gather
gather-false [] = refl
gather-false (l ∷ ls) = ap (λ r. l ∷ r) (gather-false ls)

split-print_lines :
    (ls : List Bytes) → All (Lacks 10) ls → split 10 (print_lines ls) ≡ ls ++ [] ∷ []
unfolding print_lines
split-print_lines [] h = unfold split in refl
split-print_lines (l ∷ ls) (hl, hls) =
    split-append 10 l (print_lines ls) hl ∙ ap (λ r. l ∷ r) (split-print_lines ls hls)

-- The printed lines end with a line feed.
print_lines-last :
    (l : Bytes) (ls : List Bytes) → (r : Bytes) × (reverse (print_lines (l ∷ ls)) ≡ 10 ∷ r)
unfolding print_lines
print_lines-last l [] = (reverse l, reverse-append l (10 ∷ []))
print_lines-last l (m ∷ ls) =
    let (r, e) = print_lines-last m ls in
    (
      r ++ reverse (l ++ 10 ∷ []),
      ap reverse (sym (append_assoc l (10 ∷ []) (print_lines (m ∷ ls))))
          ∙ reverse-append (l ++ 10 ∷ []) (print_lines (m ∷ ls))
          ∙ ap (λ t. t ++ reverse (l ++ 10 ∷ [])) e,
    )

null-print_lines : (l : Bytes) (ls : List Bytes) → null (print_lines (l ∷ ls)) ≡ false
unfolding print_lines
null-print_lines [] ls = refl
null-print_lines (c ∷ l) ls = refl

has_suffix-print_lines :
    (l : Bytes) (ls : List Bytes) → has_suffix (print_lines (l ∷ ls)) (codes "\\") ≡ false
unfolding has_suffix
has_suffix-print_lines l ls = rw (print_lines-last l ls).1

items-print_lines :
    (ls : List Bytes)
    → All (Lacks 10) ls
    → pairs_of (get_properties_item_line_list (print_lines ls)) ≡ pairs_of (ls ++ [] ∷ [])
unfolding get_properties_item_line_list
items-print_lines [] h = unfold print_lines pairs_of trim_space in refl
items-print_lines (l ∷ ls) h = rw (
  null-print_lines l ls,
  has_suffix-print_lines l ls,
  gather-false (split 10 (print_lines (l ∷ ls))),
  split-print_lines (l ∷ ls) h,
)

map-line-Lacks : (ps : List Pair) → All Plain ps → All (Lacks 10) (map line ps)
map-line-Lacks [] h = tt
map-line-Lacks (p ∷ ps) (hp, hps) = (line-Lacks p hp, map-line-Lacks ps hps)

map_to_properties-leaves :
    (formats : Formats) (content : Bytes) (fs : Fields)
    → formats.unmarshal_yaml content ≡ some fs
    → clean_document fs ≡ true
    → yaml_to_properties formats content ≡ ok (print_lines (map line (leaves fs)))
unfolding yaml_to_properties
map_to_properties-leaves formats content fs read clean =
    ground (arith, read, top_lines-leaves fs [] clean)

-- If the library reads a document without empty maps, texts over several lines and nil values at
-- the top, and each leaf survives on a line, then the flat list is that of the leaves in order.
pub yaml_to_kv_list-leaves :
    (formats : Formats) (content : Bytes) (fs : Fields)
    → formats.unmarshal_yaml content ≡ some fs
    → has_mark content ≡ true
    → clean_document fs ≡ true
    → All Plain (leaves fs)
    → yaml_to_kv_list formats content ≡ ok (map to_pair (leaves fs))
unfolding yaml_to_kv_list
yaml_to_kv_list-leaves formats content fs read marked clean plain =
    rw (marked, map_to_properties-leaves formats content fs read clean)
      (items-print_lines (map line (leaves fs)) (map-line-Lacks (leaves fs) plain)
        ∙ pairs_of-lines (leaves fs) plain)
