-- ===== src/Server/Area.antt =====
-- Which keys the accounts, applications and lists of users lie under, and what their handlers touch.
pub mod Apps
pub mod Configs
pub mod Instances
use micro_conf.User.Accounts.{
  UserInfo, find_user, register, register_checked, store_checked, store_user_info, user_key, valid,
}
use micro_conf.Json.{Json}
use micro_conf.Commons.{Str}
use micro_conf.Base.Outcome.{Result, Result-cases, err, ok}
use micro_conf.Base.{Bool, List, Option, [], false, inl, inr, none, refl, some, true, ◌∷◌}
use micro_conf.App.UserApps.Frame.{add_app-Keeps, remove_app-Keeps}
use micro_conf.App.UserApps.{
  add_user_app, bookmark_app, remove_app_bookmark, remove_user_app, user_app_key, user_bookmark_key,
}
use micro_conf.App.Manage.{
  Action, BookmarkAction, action_of, add, apply_bookmark, del, modify_user_bookmark, unknown,
}
use micro_conf.App.Info.{AppInfo, app_info_key}
use micro_conf.Text.Bytes.{Bytes, codes, has_prefix}
use micro_conf.Store.{RaftStore, IsRaftStore, never}
use micro_conf.Store.Touches.{
  Touches-refl, Touches-reply_of, Touches-set, Inside-ne-Outside, Touches, Inside,
}

abbrev pub accounts : List Bytes
accounts = codes "user.info." ∷ []

abbrev pub records : List Bytes
records = codes "app.info." ∷ []

abbrev pub configs : List Bytes
configs = codes "app.cfg." ∷ []

abbrev pub user_lists : List Bytes
user_lists = codes "user.app." ∷ []

abbrev pub instances : List Bytes
instances = codes "app.instance." ∷ codes "app.ns." ∷ []

-- What the administration of applications touches.
abbrev pub app_area : List Bytes
app_area = codes "app.info." ∷ codes "app.cfg." ∷ codes "user.app." ∷ []

user_key-Inside : (u : Bytes) → Inside accounts (user_key u)
unfolding user_key has_prefix
user_key-Inside u = inl refl

pub app_info_key-Inside : (id : Bytes) → Inside records (app_info_key id)
unfolding app_info_key has_prefix
app_info_key-Inside id = inl refl

user_app_key-Inside : (u : Bytes) → Inside user_lists (user_app_key u)
unfolding user_app_key has_prefix
user_app_key-Inside u = inl refl

user_bookmark_key-Inside : (u : Bytes) → Inside user_lists (user_bookmark_key u)
unfolding user_bookmark_key has_prefix
user_bookmark_key-Inside u = inl refl

module _ (rs : RaftStore) (laws : IsRaftStore rs) where
  module _ (users : Json UserInfo) (sha1 : Bytes → Bytes) where
    store_checked-Touches :
        (p : UserInfo × Result (Unit {0})) (s : rs.State)
        → Touches rs accounts s (store_checked rs users sha1 p s).0
    unfolding store_checked
    store_checked-Touches (u, err e) s = Touches-refl rs accounts s
    store_checked-Touches (u, ok a) s =
        Touches-set rs accounts laws (user_key u.username) _ never s (user_key-Inside u.username)

    register_checked-Touches :
        (p : UserInfo × Result (Unit {0})) (s : rs.State)
        → Touches rs accounts s (register_checked rs users sha1 p s).0
    unfolding register_checked store_user_info
    register_checked-Touches (u, err e) s = Touches-refl rs accounts s
    register_checked-Touches (u, ok a) s =
        elim (Result-cases (find_user rs users sha1 u.username s)) [
          | inl (old, q) ↦ rw (q, register_checked) (Touches-refl rs accounts s)
          | inr (e, q) ↦
              rw (q, register_checked)
                (Touches-reply_of rs accounts s (store_checked rs users sha1 (valid u) s)
                  (store_checked-Touches (valid u) s))
        ]

    pub register-Touches :
        (logged_in : Bool) (body : Option UserInfo) (s : rs.State)
        → Touches rs accounts s (register rs users sha1 logged_in body s).0
    unfolding register
    register-Touches true body s = Touches-refl rs accounts s
    register-Touches false none s = Touches-refl rs accounts s
    register-Touches false (some info) s = register_checked-Touches (valid info) s

  module _ (str : Str) where
    pub add_user_app-Touches :
        (u id : Bytes) (s : rs.State) → Touches rs user_lists s (add_user_app rs str u id s).0
    unfolding add_user_app
    add_user_app-Touches u id s j o =
        add_app-Keeps rs laws str (user_app_key u) id j
          (Inside-ne-Outside user_lists (user_app_key u) j (user_app_key-Inside u) o) s

    pub remove_user_app-Touches :
        (u id : Bytes) (s : rs.State) → Touches rs user_lists s (remove_user_app rs str u id s).0
    unfolding remove_user_app
    remove_user_app-Touches u id s j o =
        remove_app-Keeps rs laws str (user_app_key u) id j
          (Inside-ne-Outside user_lists (user_app_key u) j (user_app_key-Inside u) o) s

    apply_bookmark-Touches :
        (a : Action) (u id : Bytes) (s : rs.State)
        → (apps : Json AppInfo) (users : Json UserInfo) (sha1 : Bytes → Bytes)
        → Touches rs user_lists s (apply_bookmark rs apps users sha1 str a u id s).0
    unfolding apply_bookmark bookmark_app remove_app_bookmark
    apply_bookmark-Touches add u id s apps users sha1 =
        Touches-reply_of rs user_lists s (bookmark_app rs str u id s) λ j o.
          add_app-Keeps rs laws str (user_bookmark_key u) id j
            (Inside-ne-Outside user_lists (user_bookmark_key u) j (user_bookmark_key-Inside u) o) s
    apply_bookmark-Touches del u id s apps users sha1 =
        Touches-reply_of rs user_lists s (remove_app_bookmark rs str u id s) λ j o.
          remove_app-Keeps rs laws str (user_bookmark_key u) id j
            (Inside-ne-Outside user_lists (user_bookmark_key u) j (user_bookmark_key-Inside u) o) s
    apply_bookmark-Touches unknown u id s apps users sha1 = Touches-refl rs user_lists s

    pub modify_user_bookmark-Touches :
        (apps : Json AppInfo) (users : Json UserInfo) (sha1 : Bytes → Bytes)
        (session : Option UserInfo) (body : Option BookmarkAction) (s : rs.State)
        → Touches rs user_lists s (modify_user_bookmark rs apps users sha1 str session body s).0
    unfolding modify_user_bookmark
    modify_user_bookmark-Touches apps users sha1 none body s = Touches-refl rs user_lists s
    modify_user_bookmark-Touches apps users sha1 (some u) none s = Touches-refl rs user_lists s
    modify_user_bookmark-Touches apps users sha1 (some u) (some b) s =
        apply_bookmark-Touches (action_of b.action) u.username b.app_id s apps users sha1
