-- ===== src/App/Manage.antt =====
-- The handlers manageRole and modifyUserBookmark of service/app/api.go, and the route of the first.
pub mod Laws
use micro_conf.User.Accounts.{UserInfo, find_user}
use micro_conf.Text.Bytes.{Bytes, codes, same}
use micro_conf.Store.{RaftStore}
use micro_conf.Json.{Json}
use micro_conf.Http.{
  Handler, Reply, bad_request, next, reply_of, server_error, stop, success, unauthorized,
}
use micro_conf.Dict.{remove}
use micro_conf.Commons.{Str}
use micro_conf.Base.Outcome.{Result, err, ok}
use micro_conf.Base.{List, Option, [], if◌then◌else◌, none, some, ◌||◌, ◌∷◌}
use micro_conf.App.UserApps.{add_user_app, bookmark_app, remove_app_bookmark, remove_user_app}
use micro_conf.App.Roles.{Role, add_role, developer, other, owner, remove_role, viewer}
use micro_conf.App.Permission.{require_permission}
use micro_conf.App.Info.{AppInfo}

pub record RoleRequest : Type 0 where
  pub action : Bytes
  pub role : Bytes
  pub user : Bytes

pub record BookmarkAction : Type 0 where
  pub app_id : Bytes
  pub action : Bytes

-- The conversion role(req.Role), as the switch reads it.
unfoldable pub role_of : Bytes → Role
role_of s =
    if same s (codes "developer")
    then developer
    else if same s (codes "viewer")
    then viewer
    else if same s (codes "owner")
    then owner
    else other

-- The cases of `switch req.Action`.
pub data Action : Type 0 where
  add : Action
  del : Action
  unknown : Action

unfoldable pub action_of : Bytes → Action
action_of s =
    if same s (codes "add")
    then add
    else if same s (codes "remove") || same s (codes "del")
    then del
    else unknown

-- An error of the first call is the reply; that of the second, `next_call`, is only logged.
unfoldable pub reply_then : {S : Type 0} → (S → S) → S × Result (Unit {0}) → S × List Reply
reply_then next_call (t, err e) = (t, server_error e ∷ [])
reply_then next_call (t, ok _) = (next_call t, success ∷ [])

module _ (rs : RaftStore) (apps : Json AppInfo) (users : Json UserInfo) (sha1 : Bytes → Bytes)
    (str : Str) where
  -- The switch of manageRole. An unknown action is answered twice.
  unfoldable pub apply_action : Action → Role → Bytes → Bytes → Handler rs.State
  unfolding reply_then
  apply_action add r app_id u s =
      reply_then (λ t. (add_user_app rs str u app_id t).0) (add_role rs apps r app_id u s)
  apply_action del r app_id u s =
      reply_then (λ t. (remove_user_app rs str u app_id t).0) (remove_role rs apps str r app_id u s)
  apply_action unknown r app_id u s = (s, bad_request ∷ success ∷ [])

  -- manageRole: `app_id` is the parameter app of the path; `none` is a body that is no JSON.
  unfoldable pub manage_role : Bytes → Option RoleRequest → Handler rs.State
  unfolding apply_action role_of action_of
  manage_role app_id none s = (s, bad_request ∷ [])
  manage_role app_id (some req) s = elim (find_user rs users sha1 req.user s) [
    | err e ↦ (s, bad_request ∷ [])
    | ok u ↦ apply_action (action_of req.action) (role_of req.role) app_id req.user s
  ]

  -- POST /api/app/{app}/role: the middleware for owners, then the handler.
  unfoldable pub manage_role_route :
      Option UserInfo → Bytes → Bytes → Option RoleRequest → Handler rs.State
  unfolding manage_role
  manage_role_route session query_app path_app body s =
      elim (require_permission rs apps users sha1 session query_app owner s) [
        | next ↦ manage_role path_app body s
        | stop r ↦ (s, r ∷ [])
      ]

  unfoldable pub apply_bookmark : Action → Bytes → Bytes → Handler rs.State
  apply_bookmark add u app_id s = reply_of (bookmark_app rs str u app_id s)
  apply_bookmark del u app_id s = reply_of (remove_app_bookmark rs str u app_id s)
  apply_bookmark unknown u app_id s = (s, bad_request ∷ [])

  unfoldable pub modify_user_bookmark : Option UserInfo → Option BookmarkAction → Handler rs.State
  unfolding apply_bookmark action_of
  modify_user_bookmark none body s = (s, unauthorized ∷ [])
  modify_user_bookmark (some u) none s = (s, bad_request ∷ [])
  modify_user_bookmark (some u) (some b) s =
      apply_bookmark (action_of b.action) u.username b.app_id s
