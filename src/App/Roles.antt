-- ===== src/App/Roles.antt =====
-- addRole and removeRole of service/app/app.go.
pub mod Laws
pub mod Race
use micro_conf.Text.Bytes.{Bytes}
use micro_conf.Store.{RaftStore}
use micro_conf.Json.{Json}
use micro_conf.Commons.{Str}
use micro_conf.Base.Outcome.{Call, Result, err, message, ok}
use micro_conf.Base.{Option, if◌then◌else◌, none, not, some}
use micro_conf.App.Members.{add_part, contains, remove_part}
use micro_conf.App.Info.{AppInfo, find_app, store_app}

-- The string type `role`; `other` is any string but the three.
pub data Role : Type 0 where
  developer : Role
  viewer : Role
  owner : Role
  other : Role

-- The switch of addRole. `none` is the early return where the user has the role already.
unfoldable pub with_role : Role → Bytes → AppInfo → Result (Option AppInfo)
with_role developer u app =
    if contains app.developers u
    then ok none
    else ok (some (record app { developers = add_part app.developers u }))
with_role owner u app =
    if contains app.owners u
    then ok none
    else ok (some (record app { owners = add_part app.owners u }))
with_role viewer u app =
    if contains app.viewers u
    then ok none
    else ok (some (record app { viewers = add_part app.viewers u }))
with_role other u app = err (message "unknown role")

-- The switch of removeRole. `none` is the early return where the user does not have the role.
unfoldable pub without_role : Str → Role → Bytes → AppInfo → Result (Option AppInfo)
without_role str developer u app =
    if contains app.developers u
    then ok (some (record app { developers = remove_part str app.developers u }))
    else ok none
without_role str owner u app =
    if contains app.owners u
    then ok (some (record app { owners = remove_part str app.owners u }))
    else ok none
without_role str viewer u app =
    if contains app.viewers u
    then ok (some (record app { viewers = remove_part str app.viewers u }))
    else ok none
without_role str other u app = err (message "unknown role")

module _ (rs : RaftStore) (json : Json AppInfo) where
  -- What follows the switch: nothing, or the write of the changed application.
  unfoldable pub finish : Bytes → Result (Option AppInfo) → Call rs.State (Unit {0})
  finish id (ok none) s = (s, ok tt)
  finish id (ok (some app)) s = store_app rs json id app s
  finish id (err e) s = (s, err e)

  unfoldable pub add_role : Role → Bytes → Bytes → Call rs.State (Unit {0})
  unfolding finish
  add_role r id username s = elim (find_app rs json id s) [
    | ok app ↦ finish id (with_role r username app) s
    | err e ↦ (s, err (message "app not found"))
  ]

  unfoldable pub remove_role : Str → Role → Bytes → Bytes → Call rs.State (Unit {0})
  unfolding finish
  remove_role str r id username s = elim (find_app rs json id s) [
    | ok app ↦ finish id (without_role str r username app) s
    | err e ↦ (s, err (message "app does not exist"))
  ]
