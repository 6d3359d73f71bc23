-- ===== src/Store/Touches.antt =====
-- What calls leave alone: keys are told apart by their first bytes.
use micro_conf.Text.Decimal.{ℤ}
use micro_conf.Http.{reply_of}
use micro_conf.Base.Outcome.{Call, ◌>>=◌, Result, after, err, ok}
use micro_conf.Base.{
  All, Bool, List, [], ap, false, if◌then◌else◌, inl, inr, refl, sym, true, ◌∙◌, ◌∷◌, ◌≡◌, ◌≢◌, ◌⊎◌,
}
use micro_conf.Text.Bytes.{Bytes, has_prefix}
use micro_conf.Store.{RaftStore, IsRaftStore}

-- A key that begins with none of the prefixes.
abbrev pub Outside : List Bytes → Bytes → Type 0
Outside ps j = All (λ p. has_prefix j p ≡ false) ps

-- A key that begins with one of the prefixes.
abbrev pub Inside : List Bytes → Bytes → Type 0
Inside [] k = ⊥
Inside (p ∷ ps) k = (has_prefix k p ≡ true) ⊎ Inside ps k

pub Inside-ne-Outside : (ps : List Bytes) (k j : Bytes) → Inside ps k → Outside ps j → k ≢ j
Inside-ne-Outside [] k j h o e = absurd h
Inside-ne-Outside (p ∷ ps) k j (inl h) (o, os) e =
    absurd (cc (sym h ∙ ap (λ x. has_prefix x p) e ∙ o))
Inside-ne-Outside (p ∷ ps) k j (inr h) (o, os) e = Inside-ne-Outside ps k j h os e

-- What an `if` or a decision leaves of the state.
pub state_if :
    {S A : Type 0} (P : S → Type 0) (b : Bool) (x y : S × A)
    → P x.0
    → P y.0
    → P (if b then x else y).0
state_if P true x y h k = h
state_if P false x y h k = k

module _ (rs : RaftStore) (ps : List Bytes) where
  -- Every change lies under one of the prefixes.
  abbrev pub Touches : rs.State → rs.State → Type 0
  Touches s t = (j : Bytes) → Outside ps j → rs.get j t ≡ rs.get j s

  pub Touches-refl : (s : rs.State) → Touches s s
  Touches-refl s j o = refl

  pub Touches-trans : (s t u : rs.State) → Touches s t → Touches t u → Touches s u
  Touches-trans s t u h k j o = k j o ∙ h j o

  pub Touches-after :
      {A B : Type 0} (s : rs.State) (p : rs.State × Result A)
      (f : rs.State → A → rs.State × Result B)
      → Touches s p.0
      → ((t : rs.State) (a : A) → Touches t (f t a).0)
      → Touches s (after p f).0
  Touches-after s (t, ok a) f h k = Touches-trans s t (f t a).0 h (k t a)
  Touches-after s (t, err e) f h k = h

  pub Touches-bind :
      {A B : Type 0} (m : Call rs.State A) (k : Call rs.State B)
      → ((s : rs.State) → Touches s (m s).0)
      → ((s : rs.State) → Touches s (k s).0)
      → (s : rs.State) → Touches s ((m >>= λ _. k) s).0
  Touches-bind m k hm hk s = Touches-after s (m s) (λ t _. k t) (hm s) (λ t _. hk t)

  pub Touches-reply_of :
      (s : rs.State) (p : rs.State × Result (Unit {0})) → Touches s p.0 → Touches s (reply_of p).0
  Touches-reply_of s (t, ok a) h = h
  Touches-reply_of s (t, err e) h = h

  module _ (laws : IsRaftStore rs) where
    pub Touches-set :
        (k v : Bytes) (exp : ℤ) (s : rs.State) → Inside ps k → Touches s (rs.set k v exp s).0
    Touches-set k v exp s h j o =
        laws.get-set_ne k j v exp s (rs.set k v exp s).0 (rs.set k v exp s).1 refl
          (Inside-ne-Outside ps k j h o)

    pub Touches-delete : (k : Bytes) (s : rs.State) → Inside ps k → Touches s (rs.delete k s).0
    Touches-delete k s h j o =
        laws.get-delete_ne k j s (rs.delete k s).0 (rs.delete k s).1 refl
          (Inside-ne-Outside ps k j h o)
