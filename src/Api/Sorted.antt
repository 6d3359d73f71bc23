-- ===== src/Api/Sorted.antt =====
-- buildParams on the parameters of a map: its text does not depend on the order of iteration.
use micro_conf.Text.Fold.{equal_fold}
use micro_conf.Dict.{lookup-remove, Dict, IsMap, lookup, remove}
use micro_conf.Text.Order.{less, less_asymm, less_total, less_trans}
use micro_conf.Text.Bytes.{eq_of_same, same_refl, codes, Bytes, same, same_iff}
use micro_conf.Api.{
  build_params, concat_values, get_pairs_from_map, print_pairs, sort_pairs, KvPair, insert_pair,
}
use micro_conf.Base.{
  Bool, sym, ◌∙◌, ap, none, null, some, ◌||◌, List, [], arith, false, if◌then◌else◌, refl, true,
  ◌∷◌, ◌≡◌,
}

-- A pair that is not smaller than another comes before what that one comes before.
less_after : (p q r : Bytes) → less r q ≡ false → less r p ≡ true → less q p ≡ true
less_after p q r a b = ground (arith, same_iff q r, less_total q r, less_trans q r p)

insert_pair_cons :
    (p q : KvPair) (ps : List KvPair)
    → insert_pair p (q ∷ ps) ≡ (if less q.key p.key then q ∷ insert_pair p ps else p ∷ q ∷ ps)
unfolding insert_pair
insert_pair_cons p q ps = refl

insert_pair_comm :
    (p q : KvPair) (ps : List KvPair)
    → same p.key q.key ≡ false
    → insert_pair p (insert_pair q ps) ≡ insert_pair q (insert_pair p ps)
unfolding insert_pair
insert_pair_comm p q [] h =
    ground (arith, less_total p.key q.key, less_asymm p.key q.key, less_asymm q.key p.key)
insert_pair_comm p q (r ∷ ps) h = ground (
  arith,
  insert_pair_cons p q (r ∷ ps),
  insert_pair_cons q p (r ∷ ps),
  insert_pair_cons p r ps,
  insert_pair_cons q r ps,
  insert_pair_cons p r (insert_pair q ps),
  insert_pair_cons q r (insert_pair p ps),
  less_after p.key q.key r.key,
  less_after q.key p.key r.key,
  less_total p.key q.key,
  less_asymm p.key q.key,
  less_asymm q.key p.key,
  insert_pair_comm p q ps h,
)

-- A parameter among sorted pairs: nothing for the signature and the empty name.
abbrev put_param : Bytes → List Bytes → List KvPair → List KvPair
put_param k v ps =
    if null k || equal_fold k (codes "sign")
    then ps
    else insert_pair (record { key = k; value = concat_values v }) ps

abbrev sorted_params : Dict (List Bytes) → List KvPair
sorted_params m = sort_pairs (get_pairs_from_map m)

sorted_params-cons :
    (k : Bytes) (v : List Bytes) (m : Dict (List Bytes))
    → sorted_params ((k, v) ∷ m) ≡ put_param k v (sorted_params m)
unfolding sort_pairs get_pairs_from_map
sorted_params-cons k v m = ground arith

put_param_comm :
    (j k : Bytes) (v w : List Bytes) (ps : List KvPair)
    → same j k ≡ false
    → put_param j v (put_param k w ps) ≡ put_param k w (put_param j v ps)
put_param_comm j k v w ps h = ground (
  arith,
  insert_pair_comm (record { key = j; value = concat_values v })
      (record { key = k; value = concat_values w }) ps h,
)

remove_missing : (k : Bytes) (m : Dict (List Bytes)) → lookup k m ≡ none → remove k m ≡ m
unfolding lookup remove
remove_missing k [] h = refl
remove_missing k ((j, w) ∷ m) h = ground (arith, remove_missing k m)

remove-IsMap : (k : Bytes) (m : Dict (List Bytes)) → IsMap m → IsMap (remove k m)
unfolding remove
remove-IsMap k [] h = tt
remove-IsMap k ((j, w) ∷ m) (fresh, h) =
    go (same j k) (ground (arith, lookup-remove k j m)) (remove-IsMap k m h)
  where
    go :
        (b : Bool)
        → lookup j (remove k m) ≡ none
        → IsMap (remove k m)
        → IsMap (if b then remove k m else (j, w) ∷ remove k m)
    go true f r = r
    go false f r = (f, r)

sorted_params-remove :
    (k : Bytes) (v : List Bytes) (m : Dict (List Bytes))
    → IsMap m
    → lookup k m ≡ some v
    → sorted_params m ≡ put_param k v (sorted_params (remove k m))
unfolding lookup remove
sorted_params-remove k v [] h e = absurd (cc e)
sorted_params-remove k v ((j, w) ∷ m) (fresh, h) e =
    go (same j k) refl e (sorted_params-remove k v m h)
  where
    go :
        (b : Bool)
        → same j k ≡ b
        → (if b then some w else lookup k m) ≡ some v
        → (lookup k m ≡ some v → sorted_params m ≡ put_param k v (sorted_params (remove k m)))
        → sorted_params ((j, w) ∷ m)
          ≡ put_param k v (sorted_params (if b then remove k m else (j, w) ∷ remove k m))
    go true q f ih =
        sorted_params-cons j w m ∙ ground (arith, eq_of_same j k q, f, remove_missing j m fresh)
    go false q f ih =
        sorted_params-cons j w m
        ∙ ap (put_param j w) (ih f)
        ∙ put_param_comm j k w v (sorted_params (remove k m)) q
        ∙ ap (put_param k v) (sym (sorted_params-cons j w (remove k m)))

sorted_params-lookup :
    (m n : Dict (List Bytes))
    → IsMap m
    → IsMap n
    → ((k : Bytes) → lookup k m ≡ lookup k n)
    → sorted_params m ≡ sorted_params n
unfolding lookup
sorted_params-lookup [] [] hm hn e = refl
sorted_params-lookup [] ((i, w) ∷ n) hm hn e = absurd (ground (arith, e i, same_refl i))
sorted_params-lookup ((k, v) ∷ m) n (fresh, hm) hn e =
    sorted_params-cons k v m
    ∙ ap (put_param k v) (
        sorted_params-lookup m (remove k n) hm (remove-IsMap k n hn)
          (λ j. ground (arith, e j, fresh, lookup-remove k j n, same_iff k j)))
    ∙ sym (sorted_params-remove k v n hn (ground (arith, e k, same_refl k)))

-- The text that is signed depends on the parameters as a map only.
pub build_params-lookup :
    (m n : Dict (List Bytes))
    → IsMap m
    → IsMap n
    → ((k : Bytes) → lookup k m ≡ lookup k n)
    → build_params (get_pairs_from_map m) ≡ build_params (get_pairs_from_map n)
unfolding build_params
build_params-lookup m n hm hn e = ap print_pairs (sorted_params-lookup m n hm hn e)
