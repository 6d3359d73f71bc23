-- ===== src/App/UserApps/Lists.antt =====
-- service/app/user_app.go: the applications behind the two lists of a user.
use micro_conf.Text.Split.{split}
use micro_conf.Text.Bytes.{Bytes}
use micro_conf.Store.{RaftStore}
use micro_conf.Json.{Json}
use micro_conf.Dict.{Dict, insert}
use micro_conf.Base.Outcome.{err, message, not_found, ok, panic}
use micro_conf.App.UserApps.{text_of, user_app_key, user_bookmark_key}
use micro_conf.App.Info.{AppInfo, find_app}
use micro_conf.Base.{List, [], ◌∷◌}

pub record UserApps : Type 0 where
  pub apps : Dict AppInfo
  pub bookmarks : Dict AppInfo

module _ (rs : RaftStore) (json : Json AppInfo) where
  -- The loop of getApps: an id whose application cannot be read is skipped.
  unfoldable pub apps_of : List Bytes → Dict AppInfo → rs.State → Dict AppInfo
  unfolding find_app
  apps_of [] m s = m
  apps_of (v ∷ ids) m s = elim (find_app rs json v s) [
    | err e ↦ apps_of ids m s
    | ok app ↦ apps_of ids (insert v app m) s
  ]

  -- getApps. A read that fails gives the empty text, and with it the empty id.
  unfoldable pub get_apps : Bytes → rs.State → Dict AppInfo
  unfolding apps_of text_of
  get_apps key s = elim (rs.get key s) [
    | ok v ↦ apps_of (split b',' v) [] s
    | err e ↦ elim e [
      | not_found ↦ []
      | panic ↦ apps_of (split b',' []) [] s
      | message m ↦ apps_of (split b',' []) [] s
    ]
  ]

  unfoldable pub app_list : Bytes → rs.State → UserApps
  unfolding get_apps user_app_key user_bookmark_key
  app_list username s = record {
    apps = get_apps (user_app_key username) s;
    bookmarks = get_apps (user_bookmark_key username) s;
  }
