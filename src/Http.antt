-- ===== src/Http.antt =====
-- The replies that a handler writes through irisword/ret. A handler may write more than one, and
-- returns those it wrote, the first in front.
use micro_conf.Base.Outcome.{Result, err, ok, Error}
use micro_conf.Base.{inl, inr, refl, ◌≡◌, ◌⊎◌, [], ◌∷◌, List}

pub data Reply : Type 0 where
  success : Reply
  bad_request : Reply
  unauthorized : Reply
  biz_error : Reply
  redirect : Reply
  server_error : Error → Reply

-- What a middleware does: it calls the next handler, or it replies and ends the request.
pub data Gate : Type 0 where
  next : Gate
  stop : Reply → Gate

abbrev pub Handler : Type 0 → Type 0
Handler S = S → S × List Reply

-- `ret.ServerError` on an error, `ret.Ok` otherwise.
abbrev pub reply_of : {S : Type 0} → S × Result (Unit {0}) → S × List Reply
reply_of (s, ok _) = (s, success ∷ [])
reply_of (s, err e) = (s, server_error e ∷ [])

pub reply_of-state : {S : Type 0} (p : S × Result (Unit {0})) → (reply_of p).0 ≡ p.0
reply_of-state (s, ok a) = refl
reply_of-state (s, err e) = refl

pub Gate-cases : (g : Gate) → (g ≡ next) ⊎ ((r : Reply) × (g ≡ stop r))
Gate-cases next = inl refl
Gate-cases (stop r) = inr (r, refl)
