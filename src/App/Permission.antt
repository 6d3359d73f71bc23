-- ===== src/App/Permission.antt =====
-- RequirePermission and RequireAdmin of service/app/permission.go.
pub mod Laws
use micro_conf.User.Accounts.{UserInfo, is_admin}
use micro_conf.Text.Split.{split}
use micro_conf.Text.Fold.{equal_fold}
use micro_conf.Text.Bytes.{Bytes}
use micro_conf.Store.{RaftStore}
use micro_conf.Json.{Json}
use micro_conf.Http.{Gate, next, server_error, stop, unauthorized}
use micro_conf.Base.Outcome.{err, message, ok}
use micro_conf.Base.{Option, [], any, if◌then◌else◌, none, null, some, ◌++◌, ◌∷◌}
use micro_conf.App.Roles.{Role, developer, other, owner, viewer}
use micro_conf.App.Info.{AppInfo, find_app}

-- The members who pass for a role, as one list.
unfoldable pub role_str : Role → AppInfo → Bytes
role_str viewer app = app.owners ++ b',' ∷ (app.developers ++ b',' ∷ app.viewers)
role_str developer app = app.developers ++ b',' ∷ app.owners
role_str owner app = app.owners
role_str other app = []

-- The end of RequirePermission, for a user who is no administrator.
unfoldable pub check_role : Bytes → Bytes → Gate
check_role roles username =
    if null roles
    then stop unauthorized
    else if any (λ v. equal_fold v username) (split b',' roles)
    then next
    else stop unauthorized

module _ (rs : RaftStore) (apps : Json AppInfo) (users : Json UserInfo) (sha1 : Bytes → Bytes) where
  -- `session` is the user of the session, and `query_app` the parameter app of the URL's query.
  unfoldable pub require_permission : Option UserInfo → Bytes → Role → rs.State → Gate
  unfolding check_role role_str
  require_permission none query_app r s = stop unauthorized
  require_permission (some u) query_app r s =
      if is_admin rs users sha1 u.username s then next else elim (find_app rs apps query_app s) [
        | err e ↦ stop (server_error (message "no app found!"))
        | ok app ↦ check_role (role_str r app) u.username
      ]

  -- `inner` is the header _inner_auth, and `token` the digest of the configured secret.
  unfoldable pub require_admin : Bytes → Bytes → Option UserInfo → rs.State → Gate
  require_admin token inner none s = if equal_fold token inner then next else stop unauthorized
  require_admin token inner (some u) s =
      if equal_fold token inner
      then next
      else if is_admin rs users sha1 u.username s
      then next
      else stop unauthorized
