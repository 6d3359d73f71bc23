-- ===== src/Api/Token.antt =====
-- Whom RequireToken lets through.
use micro_conf.Store.{RaftStore}
use micro_conf.Json.{Json}
use micro_conf.Http.{next}
use micro_conf.App.Info.{AppInfo, find_app}
use mathlib.Core.Path.{subst}
use micro_conf.Text.Fold.{equal_fold}
use micro_conf.Text.Decimal.{atoi, ℤ}
use micro_conf.Text.Bytes.{Bytes, codes}
use micro_conf.Dict.{Dict}
use micro_conf.Base.Outcome.{ok-injective, Result, err, ok}
use micro_conf.Base.{
  Bool, Bool-cases, false, inl, inr, null, sym, ◌∙◌, List, Option, arith, none, refl, some, true, ℕ,
  ◌++◌, ◌↔◌, ◌≡◌, ◌≤◌,
}
use micro_conf.Api.{
  gate_of, require_token, build_params, check_time, distance, get_pairs_from_map, get_param,
  check_valid,
}

-- The request holds a time that is an integer within a minute of the present, and a signature that
-- is, up to the case of letters, the digest of its sorted parameters and the secret.
abbrev pub Signed : (Bytes → Bytes) → ℕ → Bytes → Dict (List Bytes) → Type 0
Signed sha256 now secret query =
    ((rt : ℤ) × (atoi (get_param query (codes "time")) ≡ some rt) × (distance rt now ≤ 60000))
    × (equal_fold (sha256 (build_params (get_pairs_from_map query) ++ secret))
          (get_param query (codes "sign"))
        ≡ true)

check_time_iff :
    (now : ℕ) (r : Option ℤ)
    → (check_time now r ≡ ok tt) ↔ ((rt : ℤ) × (r ≡ some rt) × (distance rt now ≤ 60000))
unfolding check_time
check_time_iff now none = ((λ h. cc h), λ (rt, e, d). cc e)
check_time_iff now (some rt) = (
  (λ h. (rt, refl, ground arith)),
  λ (r, e, d).
      let same_time : r ≡ rt = cc e in
      let near : distance rt now ≤ 60000 = subst (λ x. distance x now ≤ 60000) same_time d in
      ground arith,
)

-- A request passes the check of its signature exactly when it is signed with the secret, at most
-- a minute away from the present.
pub check_valid_iff :
    (sha256 : Bytes → Bytes) (now : ℕ) (secret : Bytes) (query : Dict (List Bytes))
    → (check_valid sha256 now secret query ≡ ok tt) ↔ Signed sha256 now secret query
unfolding check_valid
check_valid_iff sha256 now secret query =
    go (check_time now (atoi (get_param query (codes "time")))) refl
  where
    digest_ok : Bool
    digest_ok =
        equal_fold (sha256 (build_params (get_pairs_from_map query) ++ secret))
          (get_param query (codes "sign"))

    timely :
        (check_time now (atoi (get_param query (codes "time"))) ≡ ok tt)
        ↔ ((rt : ℤ) × (atoi (get_param query (codes "time")) ≡ some rt) × (distance rt now ≤ 60000))
    timely = check_time_iff now (atoi (get_param query (codes "time")))

    go :
        (r : Result (Unit {0}))
        → check_time now (atoi (get_param query (codes "time"))) ≡ r
        → (check_valid sha256 now secret query ≡ ok tt) ↔ Signed sha256 now secret query
    go (err e) q = ((λ h. cc (rw (q, check_valid) at h)), λ (tm, sg). cc (sym q ∙ timely.1 tm))
    go (ok a) q = elim (Bool-cases digest_ok) [
      | inl e ↦ ((λ h. (timely.0 q, e)), λ (tm, sg). rw (q, e, check_valid))
      | inr e ↦ ((λ h. cc (rw (q, e, check_valid) at h)), λ (tm, sg). cc (sym e ∙ sg))
    ]

gate_of_iff : (r : Result (Unit {0})) → (gate_of r ≡ next) ↔ (r ≡ ok tt)
unfolding gate_of
gate_of_iff (ok a) = ((λ h. refl), λ h. refl)
gate_of_iff (err e) = ((λ h. cc h), λ h. cc h)

-- RequireToken passes a request exactly when it names an application that is stored, and is signed
-- with the token of that application, at most a minute away from the present.
pub require_token_iff :
    (rs : RaftStore) (apps : Json AppInfo) (sha256 : Bytes → Bytes) (now : ℕ)
    (query : Dict (List Bytes)) (s : rs.State)
    → (require_token rs apps sha256 now query s ≡ next) ↔ (
        (null (get_param query (codes "app")) ≡ false)
        × ((info : AppInfo) × (find_app rs apps (get_param query (codes "app")) s ≡ ok info)
            × Signed sha256 now info.token query))
unfolding require_token
require_token_iff rs apps sha256 now query s =
    elim (Bool-cases (null (get_param query (codes "app")))) [
      | inl e ↦ ((λ h. cc (rw (e, require_token) at h)), λ (full, rest). cc (sym e ∙ full))
      | inr e ↦ go e (find_app rs apps (get_param query (codes "app")) s) refl
    ]
  where
    go :
        (null (get_param query (codes "app")) ≡ false)
        → (r : Result AppInfo) → find_app rs apps (get_param query (codes "app")) s ≡ r
        → (require_token rs apps sha256 now query s ≡ next) ↔ (
            (null (get_param query (codes "app")) ≡ false)
            × ((info : AppInfo) × (find_app rs apps (get_param query (codes "app")) s ≡ ok info)
                × Signed sha256 now info.token query))
    go e (err x) q =
        ((λ h. cc (rw (e, q, require_token) at h)), λ (full, (info, found, sg)). cc (sym q ∙ found))
    go e (ok info) q = (
      (λ h.
          let passed =
            (gate_of_iff (check_valid sha256 now info.token query)).0
              (rw (e, q, require_token) at h) in
          (e, (info, q, (check_valid_iff sha256 now info.token query).0 passed))),
      λ (full, (x, found, sg)).
          let same_app : x ≡ info = ok-injective (sym found ∙ q) in
          let signed = subst (λ y. Signed sha256 now y.token query) same_app sg in
          rw (e, q, require_token)
            ((gate_of_iff (check_valid sha256 now info.token query)).1
              ((check_valid_iff sha256 now info.token query).1 signed)),
    )
