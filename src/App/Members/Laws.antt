-- ===== src/App/Members/Laws.antt =====
-- Who is a member after an addition or a removal.
use micro_conf.Base.{
  Bool-cases, inl, inr, true, ◌≡◌, ◌≢◌, ◌∙◌, refl, sym, ap, Bool, false, not, ◌&&◌, ◌||◌, List, [],
  ◌∷◌, ◌++◌, arith, any, any-append, keep, All,
}
use micro_conf.Text.Bytes.{Bytes, Lacks, same}
use micro_conf.Text.Fold.{equal_fold_comm, equal_fold_trans, equal_fold, equal_fold_cong}
use micro_conf.Text.Split.{split, join, split-sep, split_single, split-join, split-Lacks}
use micro_conf.Commons.{Str}
use micro_conf.App.Members.{contains, remove_part, add_part}

-- The empty text folds alike with no other text.
fold_empty : (x : Bytes) → x ≢ [] → equal_fold [] x ≡ false
unfolding equal_fold same
fold_empty [] h = absurd (h refl)
fold_empty (c ∷ x) h = refl

-- A list contains a name that is not empty exactly if a part of it does, also if it is empty.
pub contains-any :
    (whole x : Bytes) → x ≢ [] → contains whole x ≡ any (λ v. equal_fold v x) (split b',' whole)
unfolding contains split
contains-any [] x h = ground (arith, fold_empty x h)
contains-any (c ∷ whole) x h = refl

pub contains-comma :
    (s t x : Bytes) → x ≢ [] → contains (s ++ b',' ∷ t) x ≡ (contains s x || contains t x)
contains-comma s t x h =
    rw
      (contains-any (s ++ b',' ∷ t) x h, contains-any s x h, contains-any t x h, split-sep b',' s t)
      (any-append (λ v. equal_fold v x) (split b',' s) (split b',' t))

contains_single : (u x : Bytes) → x ≢ [] → Lacks b',' u → contains u x ≡ equal_fold u x
contains_single u x h hu = rw (contains-any u x h, split_single b',' u hu) (ground arith)

pub contains_nil : (x : Bytes) → contains [] x ≡ false
unfolding contains
contains_nil x = refl

-- Adding a name makes it a member, and changes no other membership.
pub contains-add_part :
    (whole u x : Bytes)
    → x ≢ []
    → Lacks b',' u
    → contains (add_part whole u) x ≡ (contains whole x || equal_fold u x)
unfolding add_part
contains-add_part [] u x h hu = ground (arith, contains_nil x, contains_single u x h hu)
contains-add_part (c ∷ whole) u x h hu =
    contains-comma (c ∷ whole) u x h
    ∙ ap (λ b. contains (c ∷ whole) x || b) (contains_single u x h hu)

any-keep :
    (u x : Bytes) (ps : List Bytes)
    → any (λ v. equal_fold v x) (keep (λ v. not (equal_fold v u)) ps)
      ≡ (any (λ v. equal_fold v x) ps && not (equal_fold u x))
any-keep u x [] = refl
any-keep u x (p ∷ ps) = elim (Bool-cases (equal_fold p u)) [
  | inl e ↦ rw (e, any-keep u x ps, equal_fold_cong p u x e) (absorb _ (equal_fold u x))
  | inr f ↦ rw (f, any-keep u x ps) (apart _ (equal_fold p x) (equal_fold u x) (far f))
]
  where
    absorb : (r b : Bool) → (r && not b) ≡ ((b || r) && not b)
    absorb r b = ground arith

    apart : (r a b : Bool) → ¬ ((a ≡ true) × (b ≡ true)) → (a || r && not b) ≡ ((a || r) && not b)
    apart r true true h = absurd (h (refl, refl))
    apart r true false h = ground arith
    apart r false b h = refl

    far : equal_fold p u ≡ false → ¬ ((equal_fold p x ≡ true) × (equal_fold u x ≡ true))
    far f (hp, hu) = ground (arith, equal_fold_trans p x u, equal_fold_comm u x)

keep-All : (P : Bytes → Type 0) (p : Bytes → Bool) (ps : List Bytes) → All P ps → All P (keep p ps)
keep-All P p [] h = tt
keep-All P p (q ∷ ps) h = ground (arith, keep-All P p ps h.1)

pub contains-join :
    (ps : List Bytes) (x : Bytes)
    → x ≢ []
    → All (Lacks b',') ps
    → contains (join b',' ps) x ≡ any (λ v. equal_fold v x) ps
contains-join [] x h hp = unfold contains join in refl
contains-join (p ∷ ps) x h hp = rw (contains-any (join b',' (p ∷ ps)) x h, split-join b',' p ps hp)

-- Removing a name ends its membership and that of the names which fold alike, and no other.
pub contains-remove_part :
    (str : Str) (whole u x : Bytes)
    → x ≢ []
    → u ≢ []
    → contains (remove_part str whole u) x ≡ (contains whole x && not (equal_fold u x))
unfolding remove_part
contains-remove_part str whole [] x h hu = absurd (hu refl)
contains-remove_part str [] (d ∷ u) x h hu = unfold contains in refl
contains-remove_part str (c ∷ whole) (d ∷ u) x h hu =
    let ps = split b',' (c ∷ whole) in
    let q = λ (v : Bytes). not (equal_fold v (d ∷ u)) in
    ap (λ l. contains l x) (str.join_comma_lem (keep q ps))
    ∙ contains-join (keep q ps) x h (keep-All (Lacks b',') q ps (split-Lacks b',' (c ∷ whole)))
    ∙ any-keep (d ∷ u) x ps
    ∙ ap (λ b. b && not (equal_fold (d ∷ u) x)) (sym (contains-any (c ∷ whole) x h))

-- A member is known under every spelling that folds alike.
pub contains-fold :
    (whole u x : Bytes)
    → x ≢ []
    → u ≢ []
    → equal_fold u x ≡ true
    → contains whole u ≡ contains whole x
contains-fold whole u x hx hu e =
    rw (contains-any whole u hu, contains-any whole x hx) (go (split b',' whole))
  where
    go : (ps : List Bytes) → any (λ v. equal_fold v u) ps ≡ any (λ v. equal_fold v x) ps
    go [] = refl
    go (p ∷ ps) = rw (go ps, equal_fold_comm p u, equal_fold_comm p x, equal_fold_cong u x p e)

-- The list after an addition that leaves a list alone which has the name.
pub add_unless-contains :
    (whole u x : Bytes)
    → x ≢ []
    → u ≢ []
    → contains whole u ≡ true
    → contains whole x ≡ (contains whole x || equal_fold u x)
add_unless-contains whole u x hx hu h = ground (arith, contains-fold whole u x hx hu)

pub remove_unless-contains :
    (whole u x : Bytes)
    → x ≢ []
    → u ≢ []
    → contains whole u ≡ false
    → contains whole x ≡ (contains whole x && not (equal_fold u x))
remove_unless-contains whole u x hx hu h = ground (arith, contains-fold whole u x hx hu)
