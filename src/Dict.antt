-- ===== src/Dict.antt =====
-- Go's map[string]V as an association list without repeated keys. The order of the entries is the
-- order in which a `range` loop visits them: Go leaves it open, and so do statements about all
-- lists.
use micro_conf.Base.{
  ◌≡◌, ◌↔◌, refl, true, Option, none, some, List, [], ◌∷◌, arith, if◌then◌else◌, null,
}
use micro_conf.Text.Bytes.{Bytes, same, same_iff, same_refl}

abbrev pub Dict {ℓ} : Type ℓ → Type ℓ
Dict V = List (Bytes × V)

module _ {ℓ} {V : Type ℓ} where
  -- m[k]
  unfoldable pub lookup : Bytes → Dict V → Option V
  lookup k [] = none
  lookup k ((j, v) ∷ m) = if same j k then some v else lookup k m

  -- m[k] = v
  unfoldable pub insert : Bytes → V → Dict V → Dict V
  insert k v [] = (k, v) ∷ []
  insert k v ((j, w) ∷ m) = if same j k then (j, v) ∷ m else (j, w) ∷ insert k v m

  -- delete(m, k)
  unfoldable pub remove : Bytes → Dict V → Dict V
  remove k [] = []
  remove k ((j, w) ∷ m) = let rest = remove k m in if same j k then rest else (j, w) ∷ rest

  -- No key occurs twice, as in every Go map.
  abbrev pub IsMap : Dict V → Type ℓ
  IsMap [] = Unit
  IsMap ((k, v) ∷ m) = (lookup k m ≡ none) × IsMap m

  pub lookup-insert :
      (k j : Bytes) (v : V) (m : Dict V)
      → lookup j (insert k v m) ≡ (if same k j then some v else lookup j m)
  unfolding lookup insert
  lookup-insert k j v [] = refl
  lookup-insert k j v ((i, w) ∷ m) =
      ground (arith, same_iff k j, same_iff i k, same_iff i j, lookup-insert k j v m)

  pub lookup-remove :
      (k j : Bytes) (m : Dict V) → lookup j (remove k m) ≡ (if same k j then none else lookup j m)
  unfolding lookup remove
  lookup-remove k j [] = ground arith
  lookup-remove k j ((i, w) ∷ m) =
      ground (arith, same_iff k j, same_iff i k, same_iff i j, lookup-remove k j m)

  pub lookup-cons :
      (k j : Bytes) (v : V) (m : Dict V)
      → lookup j ((k, v) ∷ m) ≡ (if same k j then some v else lookup j m)
  unfolding lookup
  lookup-cons k j v m = refl

  pub insert-IsMap : (k : Bytes) (v : V) (m : Dict V) → IsMap m → IsMap (insert k v m)
  unfolding lookup insert
  insert-IsMap k v [] h = (refl, tt)
  insert-IsMap k v ((i, w) ∷ m) (new, h) =
      ground (arith, same_iff i k, same_iff k i, lookup-insert k i v m, insert-IsMap k v m h)

  -- A map with no entry has len 0, and only that one.
  pub null_iff : (m : Dict V) → (null m ≡ true) ↔ ((k : Bytes) → lookup k m ≡ none)
  unfolding lookup
  null_iff [] = ((λ _ k. refl), (λ _. refl))
  null_iff ((i, w) ∷ m) = ((λ h. cc), (λ h. ground (arith, h i, same_refl i)))
