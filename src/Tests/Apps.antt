-- ===== src/Tests/Apps.antt =====
-- Roles, permissions and lists of applications in memory.
use micro_conf.App.Roles.Race.{add_roles_at_once, add_roles_at_once-lost}
use micro_conf.Text.Split.{join, split}
use micro_conf.Samples.Strings.{digest, strings}
use micro_conf.Http.{next, success}
use micro_conf.App.UserApps.Laws.{Readable, add_app-Extended, has_other, remove_app-keeps}
use micro_conf.App.UserApps.{add_app, remains, remove_app, text_of}
use micro_conf.App.Permission.Laws.{passes_as, require_permission_iff}
use micro_conf.App.Permission.{require_permission}
use micro_conf.App.Manage.Laws.{MayManage, manage_role_route-gate}
use micro_conf.App.Manage.{RoleRequest, add, apply_action, manage_role, manage_role_route}
use micro_conf.User.Accounts.{is_admin, UserInfo}
use micro_conf.Text.Fold.{lower, equal_fold}
use micro_conf.Text.Bytes.{Bytes, Lacks, codes, same}
use micro_conf.Samples.Pack.{users, apps}
use micro_conf.Samples.Memory.{memory, memory-IsRaftStore}
use micro_conf.Dict.{Dict, insert, lookup}
use micro_conf.Base.Outcome.{ok}
use micro_conf.Base.{
  false, length, not, some, true, ◌&&◌, ◌==◌, ◌↔◌, ◌∷◌, ◌⊎◌, [], arith, refl, ◌||◌, ◌≡◌, ◌≢◌,
}
use micro_conf.App.Roles.Laws.{members, remove_role-Holds, Holds, add_role-Holds}
use micro_conf.App.Roles.{
  remove_role, viewer, without_role, add_role, developer, other, owner, with_role,
}
use micro_conf.App.Members.{contains}
use micro_conf.App.Info.{AppInfo, app_info_key, find_app, store_app}

abbrev pub shop : AppInfo
shop = record {
  app_id = codes "shop";
  name = codes "Shop";
  creator = codes "root";
  create_time = [];
  token = codes "t";
  department = [];
  detail = [];
  owners = codes "ann,bob";
  developers = [];
  viewers = codes "eve";
  groups = codes "default";
}

abbrev bob : UserInfo
bob = record { username = codes "bob"; email = []; phone = []; avatar = []; password = [] }

abbrev pub with_shop : Dict Bytes
with_shop = (store_app memory apps (codes "shop") shop []).0

pub shop_found : find_app memory apps (codes "shop") with_shop ≡ ok shop
unfolding find_app store_app app_info_key lookup insert same
shop_found = refl

abbrev dan : Bytes
dan = codes "dan"

dan-Lacks : Lacks b',' dan
dan-Lacks = omega arith

developer≢other : developer ≢ other
developer≢other = cc

owner≢other : owner ≢ other
owner≢other = cc

abbrev dan_added : Dict Bytes
dan_added = (add_role memory apps developer (codes "shop") dan with_shop).0

dan_ran : add_role memory apps developer (codes "shop") dan with_shop ≡ (dan_added, ok tt)
unfolding add_role find_app store_app app_info_key lookup insert same with_role contains
dan_ran = refl

add_role-Holds_example :
    (app' : AppInfo) × (find_app memory apps (codes "shop") dan_added ≡ ok app')
    × Holds shop app' developer (λ x. contains [] x || equal_fold dan x)
add_role-Holds_example =
    add_role-Holds memory memory-IsRaftStore apps (codes "shop") dan (cc) shop with_shop dan_added
      developer developer≢other shop_found dan-Lacks dan_ran

abbrev bob_removed : Dict Bytes
bob_removed = (remove_role memory apps strings owner (codes "shop") (codes "bob") with_shop).0

bob_ran :
    remove_role memory apps strings owner (codes "shop") (codes "bob") with_shop
    ≡ (bob_removed, ok tt)
unfolding remove_role find_app store_app app_info_key lookup insert same without_role contains split
    equal_fold lower
bob_ran = refl

remove_role-Holds_example :
    (app' : AppInfo) × (find_app memory apps (codes "shop") bob_removed ≡ ok app')
    × Holds shop app' owner (λ x. contains (codes "ann,bob") x && not (equal_fold (codes "bob") x))
remove_role-Holds_example =
    remove_role-Holds memory memory-IsRaftStore apps (codes "shop") (codes "bob") (cc) shop
      with_shop bob_removed owner owner≢other shop_found strings bob_ran

require_permission_iff_example :
    (require_permission memory apps users digest (some bob) (codes "shop") viewer with_shop ≡ next)
    ↔ ((is_admin memory users digest (codes "bob") with_shop ≡ true)
        ⊎ ((app : AppInfo) × (find_app memory apps (codes "shop") with_shop ≡ ok app)
            × (passes_as viewer app (codes "bob") ≡ true)))
require_permission_iff_example =
    require_permission_iff memory apps users digest bob (codes "shop") viewer with_shop (cc)

abbrev request : RoleRequest
request = record { action = codes "add"; role = codes "developer"; user = codes "bob" }

-- Bob owns the application of the query, and the path names another.
manage_role_route-gate_example :
    (MayManage memory apps users digest bob (codes "shop") with_shop
      × (manage_role_route memory apps users digest strings
            (some bob)
            (codes "shop")
            (codes "bank")
            (some request)
            with_shop
          ≡ manage_role memory apps users digest strings (codes "bank") (some request) with_shop))
    ⊎ ((¬ MayManage memory apps users digest bob (codes "shop") with_shop)
        × ((manage_role_route memory apps users digest strings
              (some bob)
              (codes "shop")
              (codes "bank")
              (some request)
              with_shop).0
            ≡ with_shop))
manage_role_route-gate_example =
    manage_role_route-gate memory apps users digest strings bob (codes "shop") (codes "bank")
      (some request) with_shop (cc)

abbrev dan_applied : Dict Bytes
dan_applied =
    (apply_action memory apps users digest strings add developer (codes "shop") dan with_shop).0

dan_apply_ran :
    apply_action memory apps users digest strings add developer (codes "shop") dan with_shop
    ≡ (dan_applied, success ∷ [])
unfolding apply_action add_role find_app store_app app_info_key lookup insert same with_role
    contains
dan_apply_ran = refl

abbrev two_apps : Dict Bytes
two_apps = (codes "list", codes "shop,bank") ∷ []

shop_bank_Trimmed : Readable (memory.get (codes "list") two_apps)
unfolding lookup same
shop_bank_Trimmed = (refl, refl)

abbrev three_apps : Dict Bytes
three_apps = (add_app memory strings (codes "list") (codes "pub") two_apps).0

pub_ran : add_app memory strings (codes "list") (codes "pub") two_apps ≡ (three_apps, ok tt)
unfolding add_app lookup insert same split equal_fold lower
pub_ran = refl

add_app-Extended_example :
    (v : Bytes) × (memory.get (codes "list") three_apps ≡ ok v)
    × ((x : Bytes)
        → x ≢ []
        → contains v x ≡ (
            contains (text_of (memory.get (codes "list") two_apps)) x
            || equal_fold (codes "pub") x))
add_app-Extended_example =
    add_app-Extended memory memory-IsRaftStore strings (codes "list") (codes "pub") two_apps
      three_apps (cc) (omega arith) shop_bank_Trimmed pub_ran

abbrev after_removal : Dict Bytes
after_removal = (remove_app memory strings (codes "list") (codes "shop") two_apps).0

removal_ran :
    remove_app memory strings (codes "list") (codes "shop") two_apps ≡ (after_removal, ok tt)
unfolding remove_app remains lookup insert same split join equal_fold lower
removal_ran = refl

list_read : memory.get (codes "list") two_apps ≡ ok (codes "shop,bank")
unfolding lookup same
list_read = refl

shorter :
    (length (strings.join_comma (remains (codes "shop,bank") (codes "shop")))
      == length (codes "shop,bank"))
    ≡ false
unfolding remains split join equal_fold lower same
shorter = refl

remove_app-keeps_example :
    (v : Bytes) × (memory.get (codes "list") after_removal ≡ ok v)
    × ((x : Bytes)
        → x ≢ []
        → contains v x
          ≡ (has_other (codes "shop") (codes "shop,bank") && equal_fold (codes "shop") x))
remove_app-keeps_example =
    remove_app-keeps memory memory-IsRaftStore strings (codes "list") (codes "shop")
      (codes "shop,bank") two_apps after_removal (omega arith) list_read shorter removal_ran

-- The application that was to be removed is what is left.
removal_result : memory.get (codes "list") after_removal ≡ ok (codes "shop")
unfolding remove_app remains lookup insert same split join equal_fold lower
removal_result = refl

eve-Lacks : Lacks b',' (codes "eve")
eve-Lacks = omega arith

-- Of dan and eve, who are added at once, only eve is a developer then.
add_roles_at_once-lost_example :
    (app' : AppInfo) × (find_app memory apps
        (codes "shop")
        (add_roles_at_once memory apps developer dan (codes "eve") (codes "shop") with_shop).0
      ≡ ok app')
    × (contains (members developer app') (codes "eve") ≡ true)
    × (contains (members developer app') dan ≡ false)
unfolding add_roles_at_once find_app store_app app_info_key lookup insert same with_role contains
    equal_fold lower
add_roles_at_once-lost_example =
    add_roles_at_once-lost memory memory-IsRaftStore apps (codes "shop") dan (codes "eve") shop
      with_shop developer developer≢other (cc) (cc) eve-Lacks shop_found refl refl refl refl
