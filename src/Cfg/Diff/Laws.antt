-- ===== src/Cfg/Diff/Laws.antt =====
-- What `diff` reports by format.
use micro_conf.Text.Fold.{equal_fold_refl}
use micro_conf.Cfg.Differ.Same.{Agrees, is_same_iff}
use micro_conf.Cfg.Differ.{NamespaceDiff, build_namespace_diff}
use micro_conf.Cfg.Diff.{diff, format_of, read_versions, both, lenient}
use micro_conf.Text.Cut.{cut, trim_space}
use mathlib.Core.Path.{subst}
use micro_conf.Text.Bytes.{same, codes, contains_text, Bytes}
use micro_conf.Dict.{lookup, Dict, IsMap, insert, insert-IsMap}
use micro_conf.Cfg.Flat.{
  block_value, get_properties_item_line_list, json_to_flat_map, json_to_kv_list, properties_to_map,
  fill, properties_loop, second, yaml_to_flat_map, yaml_to_kv_list,
}
use micro_conf.Cfg.Codec.{Formats, Readings}
use micro_conf.Base.Outcome.{message, not_found, panic, Result, bind, err, ok, ok-injective}
use micro_conf.Base.{
  sym, ◌∙◌, refl, true, Option, ap, none, some, Bool-cases, inl, inr, null, List, [], ◌∷◌, ◌≡◌,
}

fill-IsMap : (ps : List (Bytes × Bytes)) (m : Dict Bytes) → IsMap m → IsMap (fill ps m)
unfolding fill
fill-IsMap [] m h = h
fill-IsMap ((k, v) ∷ ps) m h = fill-IsMap ps (insert k v m) (insert-IsMap k v m h)

properties_loop-IsMap :
    (ls : List Bytes) (m n : Dict Bytes) → IsMap m → properties_loop ls m ≡ ok n → IsMap n
unfolding properties_loop second
properties_loop-IsMap [] m n h e = subst IsMap (ok-injective e) h
properties_loop-IsMap (l ∷ ls) m n h e = elim (Bool-cases (null (trim_space l))) [
  | inl q ↦ properties_loop-IsMap ls m n h (rw q at e)
  | inr q ↦ go (cut b'=' (trim_space l)) (rw q at e) (λ k v.
      properties_loop-IsMap ls (insert k (block_value v) m) n (insert-IsMap k (block_value v) m h))
]
  where
    go :
        (p : Bytes × Option Bytes)
        → bind (second p) (λ x. properties_loop ls (insert x.0 (block_value x.1) m)) ≡ ok n
        → ((k v : Bytes) → properties_loop ls (insert k (block_value v) m) ≡ ok n → IsMap n)
        → IsMap n
    go (left, none) e2 rest = cc e2
    go (left, some right) e2 rest = rest left right e2

-- The maps that `diff` compares have no key twice.
yaml_to_flat_map-IsMap :
    (formats : Formats) (content : Bytes) (m : Dict Bytes)
    → yaml_to_flat_map formats content ≡ ok m
    → IsMap m
unfolding yaml_to_flat_map
yaml_to_flat_map-IsMap formats content m e = go (yaml_to_kv_list formats content) e
  where
    go : (r : Result (List (Bytes × Bytes))) → bind r (λ kvs. ok (fill kvs [])) ≡ ok m → IsMap m
    go (ok ps) q = subst IsMap (ok-injective q) (fill-IsMap ps [] tt)
    go (err x) q = cc q

json_to_flat_map-IsMap :
    (formats : Formats) (content : Bytes) (m : Dict Bytes)
    → json_to_flat_map formats content ≡ ok m
    → IsMap m
unfolding json_to_flat_map
json_to_flat_map-IsMap formats content m e = go (json_to_kv_list formats content) e
  where
    go : (r : Result (List (Bytes × Bytes))) → bind r (λ kvs. ok (fill kvs [])) ≡ ok m → IsMap m
    go (ok ps) q = subst IsMap (ok-injective q) (fill-IsMap ps [] tt)
    go (err x) q = cc q

properties_to_map-IsMap :
    (content : Bytes) (m : Dict Bytes) → properties_to_map content ≡ ok m → IsMap m
unfolding properties_to_map
properties_to_map-IsMap content m e = elim (Bool-cases (contains_text content (codes "="))) [
  | inl q ↦ properties_loop-IsMap (get_properties_item_line_list content) [] m tt (rw q at e)
  | inr q ↦ cc (rw q at e)
]

lenient-IsMap :
    (r : Result (Dict Bytes))
    → ((m : Dict Bytes) → r ≡ ok m → IsMap m)
    → (m : Dict Bytes) → lenient r ≡ ok m
    → IsMap m
unfolding lenient
lenient-IsMap (ok x) h m e = h m e
lenient-IsMap (err panic) h m e = cc e
lenient-IsMap (err not_found) h m e = subst IsMap (ok-injective e) tt
lenient-IsMap (err (message s)) h m e = subst IsMap (ok-injective e) tt

-- What a successful `both` returns are the two maps.
both-ok :
    (r1 r2 : Result (Dict Bytes)) (maps : Dict Bytes × Dict Bytes)
    → both r1 r2 ≡ ok maps
    → (lenient r1 ≡ ok maps.0) × (r2 ≡ ok maps.1)
unfolding both
both-ok r1 r2 maps e = go (lenient r1) r2 e
  where
    go :
        (a b : Result (Dict Bytes))
        → bind a (λ o. bind b (λ n. ok (o, n))) ≡ ok maps
        → (a ≡ ok maps.0) × (b ≡ ok maps.1)
    go (ok x) (ok y) q = (ap (λ p. ok p.0) (ok-injective q), ap (λ p. ok p.1) (ok-injective q))
    go (ok x) (err z) q = cc q
    go (err z) b q = cc q

equal-Agrees : (v : Option Bytes) → Agrees v v
equal-Agrees none = tt
equal-Agrees (some v) = equal_fold_refl v

diff-at :
    (readings : Readings) (namespace old new format : Bytes)
    → format_of namespace ≡ some format
    → diff readings namespace old new
      ≡ bind
          (read_versions readings format old new)
          (λ maps. ok (build_namespace_diff namespace maps.0 maps.1))
unfolding diff read_versions
diff-at readings namespace old new format f = rw (f, diff)

-- Both calls that read a JSON content give the same entries.
abbrev pub ReadAlike : Readings → Bytes → Type 0
unfolding lenient
ReadAlike readings new =
    (m n : Dict Bytes)
    → lenient (json_to_flat_map readings.first new) ≡ ok m
    → json_to_flat_map readings.second new ≡ ok n
    → (k : Bytes) → lookup k m ≡ lookup k n

-- A JSON namespace whose new version both calls read alike never differs, whatever its versions
-- are: `diff` then fails or reports "same".
pub diff-json :
    (readings : Readings) (namespace old new : Bytes) (d : NamespaceDiff)
    → ReadAlike readings new
    → format_of namespace ≡ some (codes "json")
    → diff readings namespace old new ≡ ok d
    → d.is_same ≡ true
unfolding read_versions lenient same
diff-json readings namespace old new d alike f e =
    go (both (json_to_flat_map readings.first new) (json_to_flat_map readings.second new)) refl
      (sym (diff-at readings namespace old new (codes "json") f) ∙ e)
  where
    go :
        (r : Result (Dict Bytes × Dict Bytes))
        → both (json_to_flat_map readings.first new) (json_to_flat_map readings.second new) ≡ r
        → bind r (λ maps. ok (build_namespace_diff namespace maps.0 maps.1)) ≡ ok d
        → d.is_same ≡ true
    go (err x) q e2 = cc e2
    go (ok (m, n)) q e2 =
        let (a, b) =
          both-ok (json_to_flat_map readings.first new) (json_to_flat_map readings.second new)
            (m, n) q in
        let hm =
          lenient-IsMap (json_to_flat_map readings.first new)
            (json_to_flat_map-IsMap readings.first new) m a in
        let hn = json_to_flat_map-IsMap readings.second new n b in
        let agree : (k : Bytes) → Agrees (lookup k m) (lookup k n) =
          λ k. subst (λ x. Agrees (lookup k m) x) (alike m n a b k) (equal-Agrees (lookup k m)) in
        ap (λ x. x.is_same) (sym (ok-injective e2))
        ∙ (is_same_iff namespace m n hm hn).1 (inr agree)
