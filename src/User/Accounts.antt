-- ===== src/User/Accounts.antt =====
-- user/session/session.go, user/store.go, user/admin.go and user/user.go.
-- The name and email patterns are compiled without anchors, and `Match` looks for a match anywhere.
use micro_conf.Text.Fold.{equal_fold}
use micro_conf.Text.Bytes.{Bytes, codes}
use micro_conf.Store.{RaftStore, never}
use micro_conf.Json.{Json}
use micro_conf.Http.{Reply, Handler, bad_request, biz_error, redirect, reply_of}
use micro_conf.Base.Outcome.{Call, Result, bind, err, message, ok, ◌>>=◌}
use micro_conf.Base.{
  List, Bool, Option, [], any, false, if◌then◌else◌, leb, length, ltb, none, not, null, some, true,
  ℕ, ◌&&◌, ◌++◌, ◌==◌, ◌||◌, ◌∷◌,
}

pub record UserInfo : Type 0 where
  pub username : Bytes
  pub email : Bytes
  pub phone : Bytes
  pub avatar : Bytes
  pub password : Bytes

-- [a-zA-Z\d_]
unfoldable pub is_word : ℕ → Bool
is_word c =
    (leb b'a' c && leb c b'z')
    || (leb b'A' c && leb c b'Z')
    || (leb b'0' c && leb c b'9')
    || c == b'_'

-- A match of [a-zA-Z\d_]+ somewhere is one such byte.
unfoldable pub username_pattern : Bytes → Bool
username_pattern s = any is_word s

-- A match of [a-zA-Z\d_]+@[a-zA-Z\d_]+ somewhere is an @ between two such bytes.
unfoldable pub email_pattern : Bytes → Bool
email_pattern [] = false
email_pattern (a ∷ []) = false
email_pattern (a ∷ b ∷ []) = false
email_pattern (a ∷ b ∷ c ∷ s) = (is_word a && (b == b'@' && is_word c)) || email_pattern (b ∷ c ∷ s)

abbrev pub min_passwd_len : ℕ
min_passwd_len = 6

-- defaultAvatar of session.go
abbrev pub session_avatar : Bytes
session_avatar = codes "https://z3.ax1x.com/2021/01/03/spXp7V.png"

-- defaultAvatar of store.go
abbrev pub store_avatar : Bytes
store_avatar = codes "https://z3.ax1x.com/2021/01/03/spXCkT.png"

-- (u *UserInfo) Valid() fills in a missing avatar: the user as it leaves the call, and the verdict.
unfoldable pub valid : UserInfo → UserInfo × Result (Unit {0})
valid u =
    if null u.username || not (username_pattern u.username)
    then (u, err (message "username illegal"))
    else if null u.password || ltb (length u.password) min_passwd_len
    then (u, err (message "password illegal"))
    else (let filled : UserInfo =
          if null u.avatar then record u { avatar = session_avatar } else u in
        if null u.email || not (email_pattern u.email)
        then (filled, err (message "email illegal"))
        else (filled, ok tt))

unfoldable pub user_key : Bytes → Bytes
user_key username = codes "user.info." ++ username

unfoldable pub admin_key : Bytes → Bytes
admin_key username = codes "user.admin." ++ username

-- `sha1` is cryptos.Sha1 of go-commons on the bytes of its argument.
module _ (rs : RaftStore) (json : Json UserInfo) (sha1 : Bytes → Bytes) where
  unfoldable pub find_user : Bytes → rs.State → Result UserInfo
  find_user username s =
      bind (rs.get (user_key username) s)
        (λ text. elim (json.unmarshal text) [ some u ↦ ok u | none ↦ err (message "json") ])

  -- The user that storeUserInfo writes.
  unfoldable pub stored : UserInfo → UserInfo
  stored u = record u {
    password = sha1 u.password;
    avatar = if null u.avatar then store_avatar else u.avatar;
  }

  -- storeUserInfo behind the call of Valid.
  unfoldable pub store_checked : UserInfo × Result (Unit {0}) → Call rs.State (Unit {0})
  store_checked (u, err e) s = (s, err e)
  store_checked (u, ok _) s = rs.set (user_key u.username) (json.marshal (stored u)) never s

  unfoldable pub store_user_info : UserInfo → Call rs.State (Unit {0})
  unfolding store_checked
  store_user_info info = store_checked (valid info)

  -- The user whose password matches, with the password blanked.
  unfoldable pub check_password : Bytes → UserInfo → Option UserInfo
  check_password given u =
      let digest = sha1 given in
      if null digest
      then none
      else if equal_fold u.password digest
      then some (record u { password = [] })
      else none

  unfoldable pub login_valid : UserInfo → rs.State → Option UserInfo
  unfolding find_user check_password
  login_valid info s =
      if null info.password
      then none
      else elim (find_user info.username s) [ err e ↦ none | ok u ↦ check_password info.password u ]

  unfoldable pub is_admin : Bytes → rs.State → Bool
  is_admin username s = elim (rs.get (admin_key username) s) [
    | ok v ↦ equal_fold (codes "true") v
    | err e ↦ false
  ]

  -- The check is on the configured administrator, `admin`, and not on the argument.
  unfoldable pub add_admin : UserInfo → Bytes → Call rs.State (Unit {0})
  unfolding find_user
  add_admin admin username s = elim (find_user admin.username s) [
    | err e ↦ (s, err (message "error user not found"))
    | ok u ↦ rs.set (admin_key username) (codes "true") never s
  ]

  -- The errors are only logged.
  unfoldable pub init_admin_user : UserInfo → rs.State → rs.State
  unfolding find_user store_user_info add_admin
  init_admin_user admin s = elim (find_user admin.username s) [
    | ok u ↦ s
    | err e ↦ ((store_user_info admin >>= λ _. add_admin admin admin.username) s).0
  ]

  -- login: the replies that it writes, and the account or the error that it returns to the caller,
  -- which writes the token.
  unfoldable pub login : Option UserInfo → rs.State → List Reply × Result UserInfo
  unfolding login_valid
  login none s = (bad_request ∷ [], err (message "json"))
  login (some info) s = elim (login_valid info s) [
    | none ↦ ([], err (message "password not correct"))
    | some u ↦ ([], ok u)
  ]

  -- register behind its check that the caller is not logged in and the call of Valid.
  unfoldable pub register_checked : UserInfo × Result (Unit {0}) → Handler rs.State
  register_checked (u, err e) s = (s, bad_request ∷ [])
  register_checked (u, ok _) s = elim (find_user u.username s) [
    | ok old ↦ (s, biz_error ∷ [])
    | err e ↦ reply_of (store_user_info u s)
  ]

  -- The first argument tells whether the caller is logged in; `none` is a body that is no JSON.
  unfoldable pub register : Bool → Option UserInfo → Handler rs.State
  unfolding register_checked
  register true body s = (s, redirect ∷ [])
  register false none s = (s, bad_request ∷ [])
  register false (some info) s = register_checked (valid info) s
