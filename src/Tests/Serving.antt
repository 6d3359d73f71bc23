-- ===== src/Tests/Serving.antt =====
-- The server on a store in memory.
use micro_conf.Server.Routes.{Spares}
use micro_conf.Inner.{KeyCmd, key_operation, run_key_cmd}
use micro_conf.Cfg.Diff.{diff}
use micro_conf.Text.Index.{last_index}
use micro_conf.Dict.{remove}
use micro_conf.Samples.Pack.{users, apps, histories}
use micro_conf.User.Accounts.{
  email_pattern, is_word, register, store_user_info, user_key, username_pattern, UserInfo,
  admin_key, find_user, is_admin, stored, valid,
}
use micro_conf.Text.Split.{split}
use micro_conf.Text.Fold.{equal_fold, lower}
use micro_conf.Text.Cut.{cut, trim_space}
use micro_conf.Tests.Users.{alice, alice_found, with_alice}
use micro_conf.Tests.Namespaces.{
  differs, noon, ns_group, ns_id, one, one_dict, props, released, two, two_dict,
}
use micro_conf.Tests.Apps.{shop, shop_found, with_shop}
use micro_conf.Server.Records.{Identity}
use micro_conf.Server.Delivery.{edit-release-fetch}
use micro_conf.Server.Authority.{IsAdminSession, handle-MayWrite}
use micro_conf.Server.Applications.{OwnIds, handle_all-Identity, handle_all-OwnIds}
use micro_conf.Server.Accounts.{handle_all-find_user, handle_all-is_admin, post_key-is_admin}
use micro_conf.Samples.Strings.{digest, strings}
use micro_conf.Samples.Memory.{memory, memory-IsRaftStore}
use micro_conf.Http.{success}
use micro_conf.Cfg.Flat.{properties_to_map}
use micro_conf.Cfg.Differ.{place_new, place_old, scan_new, scan_old, build_namespace_diff}
use micro_conf.Cfg.Client.{content_map, ns_key, query_namespace_content}
use micro_conf.Cfg.Admin.{release_namespace, change_namespace_content}
use micro_conf.Base.Outcome.{ok}
use micro_conf.Base.{All, sym, List, [], arith, false, refl, some, true, ◌∷◌, ◌≡◌, ◌≢◌, ◌⊎◌}
use micro_conf.App.Permission.{require_admin, require_permission}
use micro_conf.App.Info.{
  AppInfo, app_config_key, app_info_key, app_valid, create_default_at, create_default_namespace,
  find_app, is_name_byte, name_pattern, new_app, store_app,
}
use micro_conf.App.Handlers.{create_app}
use micro_conf.Text.Bytes.{contains_text, has_suffix, Bytes, codes, same}
use micro_conf.Text.Decimal.{pos}
use micro_conf.Dict.{Dict, insert, lookup}
use micro_conf.Samples.Trees.{twice, formats}
use micro_conf.Server.{
  change_content_route, create_app_route, release_route, post_app, post_signup, post_bookmark,
  put_namespace, post_release, post_key, KeepsKeys, handle, Route, Setting, handle_all,
}

abbrev site : Setting
site = record {
  rs = memory;
  str = strings;
  apps = apps;
  users = users;
  histories = histories;
  formats = formats;
  readings = twice;
  marshal = λ m. [];
  bound = λ s. pos 0;
  sha1 = digest;
  sha256 = digest;
  secret = codes "s";
  join_node = λ i a s. (s, ok tt);
  remove_node = λ i a s. (s, ok tt);
}

site-KeepsKeys : KeepsKeys site
site-KeepsKeys = ((λ i a k s. refl), λ i a k s. refl)

abbrev write_k : KeyCmd
write_k = record { cmd = codes "set"; key = codes "k"; value = codes "v"; exp = pos 0 }

-- A registration, a bookmark, the write of another key, and the creation of an application with the
-- token of the nodes.
abbrev visits : List Route
visits =
    post_signup false (some alice)
    ∷ post_bookmark (some alice) (some (record { app_id = codes "shop"; action = codes "add" }))
    ∷ post_key (some write_k)
    ∷ post_app (codes "s") (some alice) (codes "t") [] (some shop)
    ∷ []

admin_alice_ne_k : admin_key (codes "alice") ≢ codes "k"
unfolding admin_key
admin_alice_ne_k = cc

user_alice_ne_k : user_key (codes "alice") ≢ codes "k"
unfolding user_key
user_alice_ne_k = cc

info_shop_ne_k : app_info_key (codes "shop") ≢ codes "k"
unfolding app_info_key
info_shop_ne_k = cc

visits-Spares : (k : Bytes) → k ≢ codes "k" → All (Spares k) visits
visits-Spares k n = (tt, (tt, ((λ e. n (sym e)), (tt, tt))))

handle_all-is_admin_example :
    is_admin memory users digest (codes "alice") (handle_all site visits [])
    ≡ is_admin memory users digest (codes "alice") []
handle_all-is_admin_example =
    handle_all-is_admin site memory-IsRaftStore site-KeepsKeys visits (codes "alice") []
      (visits-Spares (admin_key (codes "alice")) admin_alice_ne_k)

-- Nobody has logged in.
abbrev bob_order : Route
bob_order = post_key (
    some (record {
      cmd = codes "set";
      key = admin_key (codes "bob");
      value = codes "true";
      exp = pos 0;
    }))

bob_success :
    handle site bob_order [] ≡ (insert (admin_key (codes "bob")) (codes "true") [], success ∷ [])
unfolding handle key_operation run_key_cmd admin_key same insert
bob_success = refl

post_key-is_admin_example :
    is_admin memory users digest (codes "bob") (insert (admin_key (codes "bob")) (codes "true") [])
    ≡ true
post_key-is_admin_example =
    post_key-is_admin site memory-IsRaftStore site-KeepsKeys (codes "bob") (pos 0) []
      (insert (admin_key (codes "bob")) (codes "true") []) bob_success

handle_all-find_user_example :
    find_user memory users digest (codes "alice") (handle_all site visits with_alice)
    ≡ ok (stored memory users digest (valid alice).0)
handle_all-find_user_example =
    handle_all-find_user site memory-IsRaftStore site-KeepsKeys visits (codes "alice")
      (stored memory users digest (valid alice).0) with_alice
      (visits-Spares (user_key (codes "alice")) user_alice_ne_k) alice_found

handle_all-Identity_example :
    (b : AppInfo) × (find_app memory apps (codes "shop") (handle_all site visits with_shop) ≡ ok b)
    × Identity shop b
handle_all-Identity_example =
    handle_all-Identity site memory-IsRaftStore site-KeepsKeys visits (codes "shop") shop with_shop
      (visits-Spares (app_info_key (codes "shop")) info_shop_ne_k) shop_found

no_apps : OwnIds site []
unfolding find_app lookup
no_apps id a h = absurd (cc h)

no_app_key : (id : Bytes) → codes "k" ≢ app_info_key id
unfolding app_info_key
no_app_key id = cc

visits-apart : All (λ q. (id : Bytes) → Spares (app_info_key id) q) visits
visits-apart = ((λ id. tt), ((λ id. tt), (no_app_key, ((λ id. tt), tt))))

handle_all-OwnIds_example : OwnIds site (handle_all site visits [])
handle_all-OwnIds_example =
    handle_all-OwnIds site memory-IsRaftStore site-KeepsKeys visits [] visits-apart no_apps

abbrev creation : Route
creation = post_app (codes "s") (some alice) (codes "t") [] (some shop)

creation-writes :
    memory.get (app_info_key (codes "shop")) (handle site creation []).0
    ≢ memory.get (app_info_key (codes "shop")) []
unfolding handle create_app_route require_admin create_app new_app app_valid name_pattern
    is_name_byte find_app create_default_namespace create_default_at app_config_key store_app
    app_info_key lookup insert same equal_fold lower
creation-writes e = cc e

handle-MayWrite_example :
    (equal_fold (codes "s") (codes "s") ≡ true) ⊎ IsAdminSession site (some alice) []
handle-MayWrite_example =
    handle-MayWrite site memory-IsRaftStore site-KeepsKeys creation (codes "shop") []
      creation-writes

abbrev ann_info : UserInfo
ann_info = record { username = codes "ann"; email = []; phone = []; avatar = []; password = [] }

-- Ann administers, and the namespace has a version in force.
abbrev start : Dict Bytes
start = insert (admin_key (codes "ann")) (codes "true") released

abbrev edit : Route
edit = put_namespace (some ann_info) [] ns_id ns_group props (some two)

abbrev release : Route
release = post_release (some ann_info) [] ns_id ns_group props noon

abbrev signup : List Route
signup = post_signup false (some alice) ∷ []

abbrev after_edit : Dict Bytes
after_edit = (handle site edit start).0

abbrev after_release : Dict Bytes
after_release = (handle site release (handle_all site signup after_edit)).0

edit_done : handle site edit start ≡ (after_edit, success ∷ [])
unfolding handle change_content_route require_permission is_admin change_namespace_content
    app_config_key admin_key lookup insert same equal_fold lower
edit_done = refl

release_done :
    handle site release (handle_all site signup after_edit) ≡ (after_release, success ∷ [])
unfolding handle handle_all release_route require_permission is_admin admin_key register valid
    username_pattern is_word email_pattern find_user user_key store_user_info release_namespace
    lookup insert remove diff last_index same contains_text has_suffix split trim_space cut
    build_namespace_diff properties_to_map scan_new place_new scan_old place_old equal_fold lower
release_done = refl

start-one : memory.get (app_config_key ns_id ns_group props) start ≡ ok one
unfolding app_config_key admin_key lookup insert same
start-one = refl

two_content : content_map formats (codes "props") two ≡ some (ok two_dict)
unfolding content_map properties_to_map same contains_text has_suffix split trim_space cut insert
two_content = refl

edit-release-fetch_example :
    query_namespace_content memory formats
      (app_config_key ns_id ns_group props ∷ [])
      (handle_all site signup after_release)
      []
    ≡ ok (
        (
          ns_key
              (record { app = ns_id; group = ns_group; namespace = props; format = codes "props" }),
          two_dict,
        )
        ∷ [])
edit-release-fetch_example =
    edit-release-fetch site memory-IsRaftStore site-KeepsKeys ns_id ns_group (codes "a")
      (codes "props") (omega arith, tt) (omega arith, tt) (omega arith, tt)
      (omega arith, (omega arith, (omega arith, (omega arith, (omega arith, tt))))) (some ann_info)
      [] two noon signup signup (tt, tt) (tt, tt) one (build_namespace_diff props one_dict two_dict)
      two_dict start after_edit after_release start-one differs.0 differs.1 two_content edit_done
      release_done
