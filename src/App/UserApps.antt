-- ===== src/App/UserApps.antt =====
-- service/app/user_app.go: the lists of applications that a user has, or has bookmarked.
pub mod Laws
pub mod Frame
pub mod Lists
use micro_conf.Text.Split.{split}
use micro_conf.Text.Fold.{equal_fold}
use micro_conf.Text.Bytes.{Bytes, codes}
use micro_conf.Store.{RaftStore, never}
use micro_conf.Commons.{Str}
use micro_conf.Base.Outcome.{Call, Result, err, not_found, ok, ◌>>=◌}
use micro_conf.Base.{List, [], any, if◌then◌else◌, keep, length, map, not, ◌++◌, ◌==◌, ◌∷◌}

unfoldable pub user_app_key : Bytes → Bytes
user_app_key username = codes "user.app.list." ++ username

unfoldable pub user_bookmark_key : Bytes → Bytes
user_bookmark_key username = codes "user.app.bookmark." ++ username

-- The text of a read, empty beside an error.
unfoldable pub text_of : Result Bytes → Bytes
text_of (ok v) = v
text_of (err e) = []

-- What removeApp keeps: for each other entry the id that is removed, not the entry.
unfoldable pub remains : Bytes → Bytes → List Bytes
remains app_str app_id =
    map (λ v. app_id) (keep (λ v. not (equal_fold v app_id)) (split b',' app_str))

module _ (rs : RaftStore) (str : Str) where
  -- addApp behind the first write: appends the id unless it is there.
  unfoldable pub append_app : Bytes → Bytes → Bytes → Call rs.State (Unit {0})
  append_app key app_str app_id s =
      if any (λ v. equal_fold v app_id) (split b',' app_str)
      then (s, ok tt)
      else rs.set key (str.trim_comma (app_str ++ b',' ∷ app_id)) never s

  -- A key that is not found is written, and the list is taken to be empty all the same.
  unfoldable pub add_app_at : Bytes → Bytes → Result Bytes → Call rs.State (Unit {0})
  unfolding append_app
  add_app_at key app_id (err not_found) = rs.set key app_id never >>= λ _. append_app key [] app_id
  add_app_at key app_id read = append_app key (text_of read) app_id

  unfoldable pub add_app : Bytes → Bytes → Call rs.State (Unit {0})
  unfolding add_app_at text_of
  add_app key app_id s = add_app_at key app_id (rs.get key s) s

  unfoldable pub remove_app_at : Bytes → Bytes → Result Bytes → Call rs.State (Unit {0})
  unfolding remains
  remove_app_at key app_id (err not_found) s = (s, ok tt)
  remove_app_at key app_id read s =
      let modified = str.join_comma (remains (text_of read) app_id) in
      if length modified == length (text_of read) then (s, ok tt) else rs.set key modified never s

  unfoldable pub remove_app : Bytes → Bytes → Call rs.State (Unit {0})
  unfolding remove_app_at text_of
  remove_app key app_id s = remove_app_at key app_id (rs.get key s) s

  unfoldable pub add_user_app : Bytes → Bytes → Call rs.State (Unit {0})
  unfolding add_app user_app_key
  add_user_app username app_id = add_app (user_app_key username) app_id

  unfoldable pub remove_user_app : Bytes → Bytes → Call rs.State (Unit {0})
  unfolding remove_app user_app_key
  remove_user_app username app_id = remove_app (user_app_key username) app_id

  unfoldable pub bookmark_app : Bytes → Bytes → Call rs.State (Unit {0})
  unfolding add_app user_bookmark_key
  bookmark_app username app_id = add_app (user_bookmark_key username) app_id

  unfoldable pub remove_app_bookmark : Bytes → Bytes → Call rs.State (Unit {0})
  unfolding remove_app user_bookmark_key
  remove_app_bookmark username app_id = remove_app (user_bookmark_key username) app_id
