-- ===== src/Base/Outcome.antt =====
-- Go's errors as values, a panic among them, and calls that read and write a store.
use Prim.Native.String.{String}
use mathlib.Core.Path.{◌≡◌, refl}
use mathlib.Core.Logic.{◌⊎◌, inl, inr}

-- `not_found` is badger's ErrKeyNotFound, which the code tests for with `errors.Is`; `panic` stands
-- for a run-time panic, which ends the request.
pub data Error : Type 0 where
  not_found : Error
  panic : Error
  message : String → Error

pub data Result {ℓ} (A : Type ℓ) : Type ℓ where
  ok : A → Result A
  err : Error → Result A

-- `if err != nil { return err }` behind each call.
abbrev pub bind {ℓ κ} : {A : Type ℓ} {B : Type κ} → Result A → (A → Result B) → Result B
bind (ok a) f = f a
bind (err e) f = err e

-- A call that may change the state `S` and fail.
abbrev pub Call : Type 0 → Type 0 → Type 0
Call S A = S → S × Result A

abbrev pub after : {S A B : Type 0} → S × Result A → (S → A → S × Result B) → S × Result B
after (s, ok a) f = f s a
after (s, err e) f = (s, err e)

infixl 5 ◌>>=◌ ◌>>◌
abbrev pub ◌>>=◌ : {S A B : Type 0} → Call S A → (A → Call S B) → Call S B
◌>>=◌ m f s = after (m s) (λ t a. f a t)

abbrev pub ◌>>◌ : {S A B : Type 0} → Call S A → Call S B → Call S B
m >> k = m >>= λ _. k

abbrev pub pure : {S A : Type 0} → A → Call S A
pure a s = (s, ok a)

abbrev pub fail : {S A : Type 0} → Error → Call S A
fail e s = (s, err e)

-- The error of a call as a value, for code that inspects it.
abbrev pub attempt : {S A : Type 0} → Call S A → Call S (Result A)
attempt m s = let (t, r) = m s in (t, ok r)

-- A sequence of two calls that succeeds consists of two calls that succeed.
pub after-ok :
    {S A B : Type 0} (p : S × Result A) (f : S → A → S × Result B) (t : S) (b : B)
    → after p f ≡ (t, ok b)
    → (s : S) × (a : A) × (p ≡ (s, ok a)) × (f s a ≡ (t, ok b))
after-ok (s, ok a) f t b h = (s, a, refl, h)
after-ok (s, err e) f t b h = cc h

pub ok-injective {ℓ} : {A : Type ℓ} {a b : A} → ok a ≡ ok b → a ≡ b
ok-injective h = cc h

pub Result-cases {ℓ} :
    {A : Type ℓ} (r : Result A) → ((a : A) × (r ≡ ok a)) ⊎ ((e : Error) × (r ≡ err e))
Result-cases (ok a) = inl (a, refl)
Result-cases (err e) = inr (e, refl)
