-- ===== src/App/Permission/Laws.antt =====
-- Who passes RequirePermission.
use micro_conf.User.Accounts.{UserInfo, is_admin}
use micro_conf.Text.Bytes.{Bytes}
use micro_conf.Store.{RaftStore}
use micro_conf.Json.{Json}
use micro_conf.Http.{server_error, next, stop, unauthorized}
use micro_conf.Base.Outcome.{message, Result, err, ok}
use micro_conf.Base.{
  Bool-cases, inl, inr, sym, ◌∙◌, Bool, [], arith, false, if◌then◌else◌, refl, some, true, ◌++◌,
  ◌||◌, ◌↔◌, ◌∷◌, ◌≡◌, ◌≢◌, ◌⊎◌,
}
use micro_conf.App.Roles.{Role, developer, other, owner, viewer}
use micro_conf.App.Permission.{check_role, require_permission, role_str}
use micro_conf.App.Members.Laws.{contains-comma, contains_nil}
use micro_conf.App.Members.{contains}
use micro_conf.App.Info.{AppInfo, find_app}

-- The hierarchy of the roles: an owner is also a developer, and both are viewers.
abbrev pub passes_as : Role → AppInfo → Bytes → Bool
passes_as viewer app u =
    contains app.owners u || (contains app.developers u || contains app.viewers u)
passes_as developer app u = contains app.developers u || contains app.owners u
passes_as owner app u = contains app.owners u
passes_as other app u = false

contains-role_str :
    (r : Role) (app : AppInfo) (u : Bytes)
    → u ≢ []
    → contains (role_str r app) u ≡ passes_as r app u
unfolding role_str
contains-role_str viewer app u h =
    rw (contains-comma app.owners (app.developers ++ b',' ∷ app.viewers) u h)
      (rw (contains-comma app.developers app.viewers u h))
contains-role_str developer app u h = contains-comma app.developers app.owners u h
contains-role_str owner app u h = refl
contains-role_str other app u h = contains_nil u

pub check_role_lem :
    (roles u : Bytes) → check_role roles u ≡ (if contains roles u then next else stop unauthorized)
unfolding check_role contains
check_role_lem roles u = ground arith

module _ (rs : RaftStore) (apps : Json AppInfo) (users : Json UserInfo) (sha1 : Bytes → Bytes)
    (u : UserInfo) (query_app : Bytes) (r : Role) (s : rs.State) (h : u.username ≢ []) where
  gate_lem :
      (found : Result AppInfo)
      → find_app rs apps query_app s ≡ found
      → require_permission rs apps users sha1 (some u) query_app r s ≡ (
          if is_admin rs users sha1 u.username s then next else elim found [
            | err e ↦ stop (server_error (message "no app found!"))
            | ok app ↦ if passes_as r app u.username then next else stop unauthorized
          ])
  unfolding require_permission
  gate_lem (err e) found = ground (arith, found)
  gate_lem (ok app) found = ground (
    arith,
    found,
    check_role_lem (role_str r app) u.username,
    contains-role_str r app u.username h,
  )

  -- For a user with a name, the middleware passes the administrators, and else exactly those whose
  -- role in the application of the query is the one required or one above it.
  pub require_permission_iff :
      (require_permission rs apps users sha1 (some u) query_app r s ≡ next) ↔ (
        (is_admin rs users sha1 u.username s ≡ true)
        ⊎ ((app : AppInfo) × (find_app rs apps query_app s ≡ ok app)
            × (passes_as r app u.username ≡ true)))
  require_permission_iff = go (find_app rs apps query_app s) refl
    where
      Passes : Type 0
      Passes =
          (is_admin rs users sha1 u.username s ≡ true)
          ⊎ ((app : AppInfo) × (find_app rs apps query_app s ≡ ok app)
              × (passes_as r app u.username ≡ true))

      go :
          (found : Result AppInfo)
          → find_app rs apps query_app s ≡ found
          → (require_permission rs apps users sha1 (some u) query_app r s ≡ next) ↔ Passes
      go (err e) found = (
        (λ p. inl (ground (arith, gate_lem (err e) found))),
        (λ q. elim q [
          | inl a ↦ ground (arith, gate_lem (err e) found)
          | inr (app, f, x) ↦ absurd (cc (sym found ∙ f))
        ]),
      )
      go (ok app) found = (
        (λ p. elim (Bool-cases (is_admin rs users sha1 u.username s)) [
          | inl a ↦ inl a
          | inr n ↦ inr (app, found, ground (arith, gate_lem (ok app) found))
        ]),
        (λ q. elim q [
          | inl a ↦ ground (arith, gate_lem (ok app) found)
          | inr (app', f, x) ↦ ground (arith, gate_lem (ok app) found, sym found ∙ f)
        ]),
      )
