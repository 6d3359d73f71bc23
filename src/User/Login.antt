-- ===== src/User/Login.antt =====
-- What registration, login and the set-up of the administrator achieve.
use micro_conf.Text.Fold.{equal_fold, equal_fold_refl}
use mathlib.Core.Path.{subst}
use micro_conf.User.Accounts.{
  session_avatar, store_checked, register_checked, user_key, UserInfo, find_user, login_valid,
  register, store_user_info, stored, valid,
}
use micro_conf.Text.Bytes.{Bytes}
use micro_conf.Store.{IsRaftStore, RaftStore, never}
use micro_conf.Json.{Json}
use micro_conf.Http.{reply_of, success}
use micro_conf.Base.Outcome.{Result, err, ok}
use micro_conf.Base.{
  Bool-cases, if◌then◌else◌, inl, inr, ◌≢◌, ap, sym, ◌∙◌, Bool, [], arith, false, null, refl, some,
  true, ◌∷◌, ◌≡◌,
}

-- `valid` changes nothing but a missing avatar.
pub valid-username : (u : UserInfo) → (valid u).0.username ≡ u.username
unfolding valid
valid-username u = ground arith

valid-password : (u : UserInfo) → (valid u).0.password ≡ u.password
unfolding valid
valid-password u = ground arith

valid-null_password : (u : UserInfo) → (valid u).1 ≡ ok tt → null u.password ≡ false
unfolding valid
valid-null_password u h = ground arith

-- A user that was found valid is found valid again, and unchanged.
valid-valid : (u : UserInfo) → (valid u).1 ≡ ok tt → valid (valid u).0 ≡ ((valid u).0, ok tt)
unfolding valid
valid-valid u h = ground arith

reply_of-success :
    {S : Type 0} (p : S × Result (Unit {0})) (t : S)
    → reply_of p ≡ (t, success ∷ [])
    → p ≡ (t, ok tt)
reply_of-success (s, ok a) t h = ground (arith, h)
reply_of-success (s, err e) t h = cc

module _ (rs : RaftStore) (laws : IsRaftStore rs) (json : Json UserInfo)
    (sha1 : Bytes → Bytes) where
  -- A user that was written is found.
  find_user-set :
      (u : UserInfo) (s t : rs.State)
      → rs.set (user_key u.username) (json.marshal u) never s ≡ (t, ok tt)
      → find_user rs json sha1 u.username t ≡ ok u
  unfolding find_user
  find_user-set u s t h =
      rw (laws.get-set_self (user_key u.username) (json.marshal u) s t h, json.unmarshal-marshal u)

  -- Nobody's account is overwritten by a registration: the state stays as it was.
  pub register-existing :
      (logged_in : Bool) (info old : UserInfo) (s : rs.State)
      → find_user rs json sha1 info.username s ≡ ok old
      → (register rs json sha1 logged_in (some info) s).0 ≡ s
  unfolding register
  register-existing true info old s h = refl
  register-existing false info old s h = go (valid info) (valid-username info)
    where
      go :
          (p : UserInfo × Result (Unit {0}))
          → p.0.username ≡ info.username
          → (register_checked rs json sha1 p s).0 ≡ s
      go (u, err e) same_name = refl
      go (u, ok a) same_name =
          let found = subst (λ k. find_user rs json sha1 k s ≡ ok old) (sym same_name) h in
          ground (arith, found)

  store_user_info-valid :
      (u : UserInfo)
      → (valid u).1 ≡ ok tt
      → store_user_info rs json sha1 (valid u).0
        ≡ rs.set (user_key u.username) (json.marshal (stored rs json sha1 (valid u).0)) never
  unfolding store_user_info
  store_user_info-valid u h =
      ap (store_checked rs json sha1) (valid-valid u h)
      ∙ ap (λ k. rs.set (user_key k) (json.marshal (stored rs json sha1 (valid u).0)) never)
          (valid-username u)

  register_checked-success :
      (u : UserInfo) (s t : rs.State)
      → register_checked rs json sha1 (u, ok tt) s ≡ (t, success ∷ [])
      → store_user_info rs json sha1 u s ≡ (t, ok tt)
  unfolding register_checked
  register_checked-success u s t h =
      ground (arith, reply_of-success (store_user_info rs json sha1 u s) t)

  -- A registration that reports success has found the data valid and written the user.
  register-stores :
      (info : UserInfo) (s t : rs.State) (r : Result (Unit {0}))
      → register rs json sha1 false (some info) s ≡ (t, success ∷ [])
      → (valid info).1 ≡ r
      → (r ≡ ok tt)
        × (rs.set
              (user_key info.username)
              (json.marshal (stored rs json sha1 (valid info).0))
              never
              s
            ≡ (t, ok tt))
  unfolding register register_checked
  register-stores info s t (ok a) h e = (
    refl,
    sym (ap (λ f. f s) (store_user_info-valid info e))
        ∙ register_checked-success (valid info).0 s t
            (ap (λ x. register_checked rs json sha1 ((valid info).0, x) s) (sym e) ∙ h),
  )
  register-stores info s t (err x) h e =
      cc (ap (λ y. register_checked rs json sha1 ((valid info).0, y) s) (sym e) ∙ h)

  -- What a user gets to see of the data that he registered with.
  abbrev pub account_of : UserInfo → UserInfo
  account_of info = record info {
    password = [];
    avatar = if null info.avatar then session_avatar else info.avatar;
  }

  stored-account_of :
      (info : UserInfo)
      → (valid info).1 ≡ ok tt
      → record (stored rs json sha1 (valid info).0) { password = [] } ≡ account_of info
  unfolding valid stored
  stored-account_of info h = elim (Bool-cases (null info.avatar)) [
    | inl e ↦ ground (arith, h, e)
    | inr e ↦ ground (arith, h, e)
  ]

  -- Whoever has registered logs in with the same name and password, and gets all the data of the
  -- registration back with the password blanked and an avatar where there was none, if digests are
  -- not empty.
  pub login_valid-register :
      ((p : Bytes) → null (sha1 p) ≡ false)
      → (info : UserInfo) (s t : rs.State)
      → register rs json sha1 false (some info) s ≡ (t, success ∷ [])
      → login_valid rs json sha1 info t ≡ some (account_of info)
  unfolding login_valid stored
  login_valid-register digest info s t h =
      let (e, written) = register-stores info s t (valid info).1 h refl in
      let u = stored rs json sha1 (valid info).0 in
      let found =
        find_user-set u s t (
          ap (λ k. rs.set (user_key k) (json.marshal u) never s) (valid-username info) ∙ written) in
      let logged : login_valid rs json sha1 info t ≡ some (record u { password = [] }) = ground (
        arith,
        valid-null_password info e,
        valid-password info,
        valid-username info,
        digest info.password,
        found,
        equal_fold_refl (sha1 info.password),
      ) in
      logged ∙ ap (λ v. some v) (stored-account_of info e)

  -- A login succeeds only with a stored account of that name whose digest is that of the given
  -- password, up to the case of its hexadecimal letters, and never shows the digest.
  pub login_valid_sound :
      (info u : UserInfo) (s : rs.State)
      → login_valid rs json sha1 info s ≡ some u
      → (old : UserInfo) × (find_user rs json sha1 info.username s ≡ ok old)
        × (equal_fold old.password (sha1 info.password) ≡ true)
        × (u ≡ record old { password = [] })
        × (info.password ≢ [])
  unfolding login_valid
  login_valid_sound info u s h = go (find_user rs json sha1 info.username s) refl
    where
      go :
          (r : Result UserInfo)
          → find_user rs json sha1 info.username s ≡ r
          → (old : UserInfo) × (find_user rs json sha1 info.username s ≡ ok old)
            × (equal_fold old.password (sha1 info.password) ≡ true)
            × (u ≡ record old { password = [] })
            × (info.password ≢ [])
      go (ok old) e = (old, e, ground arith, ground arith, ground arith)
      go (err x) e = absurd (ground arith)
