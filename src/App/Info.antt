-- ===== src/App/Info.antt =====
-- service/app/app.go and the type of service/app/def.go: what is kept of an application.
-- The name pattern is compiled without anchors, and `Match` looks for a match anywhere.
use micro_conf.Text.Bytes.{Bytes, codes}
use micro_conf.Store.{RaftStore, never}
use micro_conf.Json.{Json}
use micro_conf.Base.Outcome.{Call, Result, after, bind, err, message, not_found, ok}
use micro_conf.Base.{
  Bool, [], any, if◌then◌else◌, leb, none, not, null, some, ℕ, ◌&&◌, ◌++◌, ◌==◌, ◌||◌,
}

pub record AppInfo : Type 0 where
  pub app_id : Bytes
  pub name : Bytes
  pub creator : Bytes
  pub create_time : Bytes
  pub token : Bytes
  pub department : Bytes
  pub detail : Bytes
  pub owners : Bytes
  pub developers : Bytes
  pub viewers : Bytes
  pub groups : Bytes

-- [a-zA-Z\d\-_]
unfoldable pub is_name_byte : ℕ → Bool
is_name_byte c =
    (leb b'a' c && leb c b'z')
    || (leb b'A' c && leb c b'Z')
    || (leb b'0' c && leb c b'9')
    || (c == b'-' || c == b'_')

-- A match of [a-zA-Z\d\-_]+ somewhere is one such byte.
unfoldable pub name_pattern : Bytes → Bool
name_pattern s = any is_name_byte s

-- (i *AppInfo) Valid()
unfoldable pub app_valid : AppInfo → Bool
app_valid i = name_pattern i.app_id

unfoldable pub app_info_key : Bytes → Bytes
app_info_key id = codes "app.info." ++ id

-- The key of the version of a namespace that is in force, appConfigKeyPattern.
unfoldable pub app_config_key : Bytes → Bytes → Bytes → Bytes
app_config_key app_id group namespace =
    codes "app.cfg.current." ++ app_id ++ codes "." ++ group ++ codes "." ++ namespace

-- `len(s) > 0` chooses the new text over the old one.
unfoldable pub overwrite : Bytes → Bytes → Bytes
overwrite old new = if null new then old else new

module _ (rs : RaftStore) (json : Json AppInfo) where
  unfoldable pub find_app : Bytes → rs.State → Result AppInfo
  find_app id s =
      bind (rs.get (app_info_key id) s)
        (λ text. elim (json.unmarshal text) [ some a ↦ ok a | none ↦ err (message "json") ])

  -- The write at the end of every change of an application.
  unfoldable pub store_app : Bytes → AppInfo → Call rs.State (Unit {0})
  store_app id app = rs.set (app_info_key id) (json.marshal app) never

  -- createDefaultNamespace behind its read of the key. Only a key that is not found is written, and
  -- the call reports an error also then.
  unfoldable pub create_default_at : Bytes → Result Bytes → Call rs.State (Unit {0})
  create_default_at key (ok existed) s = (s, err (message "app already exists"))
  create_default_at key (err not_found) s =
      after (rs.set key [] never s) (λ t _. (t, err (message "app already exists")))
  create_default_at key (err e) s = (s, err e)

  unfoldable pub create_default_namespace : Bytes → Bytes → Bytes → Call rs.State (Unit {0})
  unfolding create_default_at app_config_key
  create_default_namespace app_id group namespace s =
      let key = app_config_key app_id group namespace in create_default_at key (rs.get key s) s

  -- The application that newApp stores: a random token, the time and one group.
  unfoldable pub fresh_app : Bytes → Bytes → AppInfo → AppInfo
  fresh_app token now info = record info {
    token = token;
    create_time = now;
    groups = codes "default";
  }

  -- newApp on an argument that is not nil. What createDefaultNamespace reports is not looked at.
  unfoldable pub new_app : Bytes → Bytes → AppInfo → Call rs.State (Unit {0})
  unfolding fresh_app find_app store_app create_default_namespace app_valid
  new_app token now info s =
      if not (app_valid info)
      then (s, err (message "app info invalid"))
      else elim (find_app info.app_id s) [
        | ok old ↦ (s, err (message "app already exist"))
        | err e ↦
            let t =
              (create_default_namespace info.app_id (codes "default") (codes "app.props") s).0 in
            store_app info.app_id (fresh_app token now info) t
      ]

  -- The fields that modifyAppInfo takes over where they are not empty.
  unfoldable pub merge : AppInfo → AppInfo → AppInfo
  unfolding overwrite
  merge app info = record app {
    name = overwrite app.name info.name;
    department = overwrite app.department info.department;
    detail = overwrite app.detail info.detail;
    groups = overwrite app.groups info.groups;
  }

  -- modifyAppInfo on an argument that is not nil.
  unfoldable pub modify_app_info : AppInfo → Call rs.State (Unit {0})
  unfolding find_app merge store_app
  modify_app_info info s = elim (find_app info.app_id s) [
    | err e ↦ (s, err (message "app does not exist"))
    | ok app ↦ store_app info.app_id (merge app info) s
  ]
