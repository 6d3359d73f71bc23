-- ===== src/Server/Accounts.antt =====
-- What requests do to the accounts and to the administrators.
use micro_conf.Text.Fold.{equal_fold, lower}
use micro_conf.Raft.Machine.{cmd_set}
use micro_conf.Inner.{key_operation, run_key_cmd}
use micro_conf.Text.Decimal.{ℤ}
use micro_conf.User.Login.{valid-username}
use micro_conf.User.Accounts.{
  UserInfo, admin_key, find_user, is_admin, register, register_checked, store_checked,
  store_user_info, user_key, valid,
}
use micro_conf.Server.Routes.{Spares, post_key-Spares, area, handle-Touches}
use micro_conf.Http.{success, reply_of}
use micro_conf.Base.Outcome.{Result, Result-cases, err, ok}
use micro_conf.Base.{
  All, Bool, Bool-cases, List, Option, [], ap, false, inl, inr, none, refl, some, sym, true, ◌∙◌,
  ◌∷◌, ◌≡◌, ◌≢◌,
}
use micro_conf.Text.Bytes.{codes, Bytes, has_prefix, same, same_refl, eq_of_same}
use micro_conf.Store.{IsRaftStore, never}
use micro_conf.Store.Touches.{Outside}
use micro_conf.Server.{
  put_app, post_app, post_signup, post_role, post_bookmark, post_reg, post_namespace,
  delete_namespace, put_namespace, post_release, heartbeat, post_key, post_cluster, KeepsKeys,
  handle, Route, handle_all, Setting,
}

user_key-ne : (u v : Bytes) → same u v ≡ false → user_key u ≢ user_key v
unfolding user_key
user_key-ne u v h e =
    let p : u ≡ v = cc e in absurd (cc (sym (same_refl v) ∙ ap (λ k. same k v) (sym p) ∙ h))

reply_of-success :
    {S : Type 0} (p : S × Result (Unit {0})) (t : S)
    → reply_of p ≡ (t, success ∷ [])
    → p ≡ (t, ok tt)
reply_of-success (s, ok tt) t e = cc e
reply_of-success (s, err x) t e = absurd (cc e)

module _ (env : Setting) (laws : IsRaftStore env.rs) (members : KeepsKeys env) where
  outside :
      (q : Route) (k : Bytes) (s : env.rs.State)
      → Outside (area q) k
      → env.rs.get k (handle env q s).0 ≡ env.rs.get k s
  outside q k s o = handle-Touches env laws members q s k o

  -- The key of an administrator is in no request's area but that of a request between nodes.
  admin-kept :
      (q : Route) (u : Bytes) (s : env.rs.State)
      → Spares (admin_key u) q
      → env.rs.get (admin_key u) (handle env q s).0 ≡ env.rs.get (admin_key u) s
  unfolding admin_key has_prefix
  admin-kept (post_key b) u s h = post_key-Spares env laws members b (admin_key u) s h
  admin-kept (post_signup l b) u s h = outside (post_signup l b) (admin_key u) s (refl, tt)
  admin-kept (post_app i se t n b) u s h =
      outside (post_app i se t n b) (admin_key u) s (refl, (refl, (refl, tt)))
  admin-kept (put_app i se q p b) u s h =
      outside (put_app i se q p b) (admin_key u) s (refl, (refl, (refl, tt)))
  admin-kept (post_role se q p b) u s h =
      outside (post_role se q p b) (admin_key u) s (refl, (refl, (refl, tt)))
  admin-kept (post_bookmark se b) u s h = outside (post_bookmark se b) (admin_key u) s (refl, tt)
  admin-kept (post_reg n q b) u s h = outside (post_reg n q b) (admin_key u) s (refl, (refl, tt))
  admin-kept (post_namespace se q b) u s h =
      outside (post_namespace se q b) (admin_key u) s (refl, tt)
  admin-kept (delete_namespace se q b) u s h =
      outside (delete_namespace se q b) (admin_key u) s (refl, tt)
  admin-kept (put_namespace se q a g n b) u s h =
      outside (put_namespace se q a g n b) (admin_key u) s (refl, tt)
  admin-kept (post_release se q a g n t) u s h =
      outside (post_release se q a g n t) (admin_key u) s (refl, tt)
  admin-kept (post_cluster b) u s h = outside (post_cluster b) (admin_key u) s tt
  admin-kept (heartbeat i) u s h = outside (heartbeat i) (admin_key u) s (refl, (refl, tt))

  handle-is_admin :
      (q : Route) (u : Bytes) (s : env.rs.State)
      → Spares (admin_key u) q
      → is_admin env.rs env.users env.sha1 u (handle env q s).0
        ≡ is_admin env.rs env.users env.sha1 u s
  unfolding is_admin
  handle-is_admin q u s h = rw (admin-kept q u s h, is_admin) refl

  -- No sequence of requests makes anybody an administrator, or ends that somebody is one, but for
  -- a request between nodes for the very key, which anybody can send.
  pub handle_all-is_admin :
      (qs : List Route) (u : Bytes) (s : env.rs.State)
      → All (Spares (admin_key u)) qs
      → is_admin env.rs env.users env.sha1 u (handle_all env qs s)
        ≡ is_admin env.rs env.users env.sha1 u s
  unfolding handle_all
  handle_all-is_admin [] u s h = refl
  handle_all-is_admin (q ∷ qs) u s (h, hs) =
      handle_all-is_admin qs u (handle env q s).0 hs ∙ handle-is_admin q u s h

  order-is_admin :
      (u : Bytes) (s t : env.rs.State)
      → reply_of (env.rs.set (admin_key u) (codes "true") never s) ≡ (t, success ∷ [])
      → is_admin env.rs env.users env.sha1 u t ≡ true
  unfolding is_admin equal_fold lower same
  order-is_admin u s t e =
      let written = reply_of-success (env.rs.set (admin_key u) (codes "true") never s) t e in
      rw (laws.get-set_self (admin_key u) (codes "true") s t written, is_admin) refl

  -- The request between nodes that has somebody written among the administrators, sent by anybody:
  -- where it is answered by success, he is an administrator after it.
  pub post_key-is_admin :
      (u : Bytes) (exp : ℤ) (s t : env.rs.State)
      → handle env
          (post_key
            (some (record { cmd = cmd_set; key = admin_key u; value = codes "true"; exp = exp })))
          s
        ≡ (t, success ∷ [])
      → is_admin env.rs env.users env.sha1 u t ≡ true
  unfolding handle key_operation run_key_cmd admin_key same
  post_key-is_admin u exp s t e = order-is_admin u s t e

  abbrev Found : Bytes → UserInfo → env.rs.State → Type 0
  Found name a s = find_user env.rs env.users env.sha1 name s ≡ ok a

  find_user-kept :
      (name : Bytes) (a : UserInfo) (s t : env.rs.State)
      → env.rs.get (user_key name) t ≡ env.rs.get (user_key name) s
      → Found name a s
      → Found name a t
  unfolding find_user
  find_user-kept name a s t k h = rw k h

  store_checked-other :
      (p : UserInfo × Result (Unit {0})) (name : Bytes) (s : env.rs.State)
      → same p.0.username name ≡ false
      → env.rs.get (user_key name) (store_checked env.rs env.users env.sha1 p s).0
        ≡ env.rs.get (user_key name) s
  unfolding store_checked
  store_checked-other (u, err e) name s h = refl
  store_checked-other (u, ok x) name s h =
      laws.get-set_ne (user_key u.username) (user_key name) _ never s _ _ refl
        (user_key-ne u.username name h)

  register_checked-Found :
      (p : UserInfo × Result (Unit {0})) (name : Bytes) (a : UserInfo) (s : env.rs.State)
      → Found name a s
      → Found name a (register_checked env.rs env.users env.sha1 p s).0
  unfolding register_checked store_user_info
  register_checked-Found (u, err e) name a s h = h
  register_checked-Found (u, ok x) name a s h =
      elim (Result-cases (find_user env.rs env.users env.sha1 u.username s)) [
        | inl (old, q) ↦ rw (q, register_checked) h
        | inr (e, q) ↦ elim (Bool-cases (same u.username name)) [
          | inl y ↦ absurd (
              cc (
                sym q
                ∙ ap (λ k. find_user env.rs env.users env.sha1 k s) (eq_of_same u.username name y)
                ∙ h))
          | inr n ↦
              let m = store_checked env.rs env.users env.sha1 (valid u) s in
              let other =
                store_checked-other (valid u) name s
                  (ap (λ k. same k name) (valid-username u) ∙ n) in
              rw (q, register_checked)
                (find_user-kept name a s (reply_of m).0 (reply_of-get m (user_key name) ∙ other) h)
        ]
      ]
    where
      reply_of-get :
          (m : env.rs.State × Result (Unit {0})) (k : Bytes)
          → env.rs.get k (reply_of m).0 ≡ env.rs.get k m.0
      reply_of-get (t, ok y) k = refl
      reply_of-get (t, err e) k = refl

  register-Found :
      (logged_in : Bool) (body : Option UserInfo) (name : Bytes) (a : UserInfo) (s : env.rs.State)
      → Found name a s
      → Found name a (register env.rs env.users env.sha1 logged_in body s).0
  unfolding register
  register-Found true body name a s h = h
  register-Found false none name a s h = h
  register-Found false (some info) name a s h = register_checked-Found (valid info) name a s h

  by_area :
      (q : Route) (name : Bytes) (a : UserInfo) (s : env.rs.State)
      → Outside (area q) (user_key name)
      → Found name a s
      → Found name a (handle env q s).0
  by_area q name a s o h =
      find_user-kept name a s (handle env q s).0
        (handle-Touches env laws members q s (user_key name) o) h

  handle-Found :
      (q : Route) (name : Bytes) (a : UserInfo) (s : env.rs.State)
      → Spares (user_key name) q
      → Found name a s
      → Found name a (handle env q s).0
  unfolding user_key has_prefix handle
  handle-Found (post_key b) name a s n h =
      find_user-kept name a s (handle env (post_key b) s).0
        (post_key-Spares env laws members b (user_key name) s n) h
  handle-Found (post_cluster b) name a s n h = by_area (post_cluster b) name a s tt h
  handle-Found (post_signup l b) name a s n h = register-Found l b name a s h
  handle-Found (post_app i se t w b) name a s n h =
      by_area (post_app i se t w b) name a s (refl, (refl, (refl, tt))) h
  handle-Found (put_app i se q p b) name a s n h =
      by_area (put_app i se q p b) name a s (refl, (refl, (refl, tt))) h
  handle-Found (post_role se q p b) name a s n h =
      by_area (post_role se q p b) name a s (refl, (refl, (refl, tt))) h
  handle-Found (post_bookmark se b) name a s n h =
      by_area (post_bookmark se b) name a s (refl, tt) h
  handle-Found (post_reg w q b) name a s n h =
      by_area (post_reg w q b) name a s (refl, (refl, tt)) h
  handle-Found (post_namespace se q b) name a s n h =
      by_area (post_namespace se q b) name a s (refl, tt) h
  handle-Found (delete_namespace se q b) name a s n h =
      by_area (delete_namespace se q b) name a s (refl, tt) h
  handle-Found (put_namespace se q i g m b) name a s n h =
      by_area (put_namespace se q i g m b) name a s (refl, tt) h
  handle-Found (post_release se q i g m t) name a s n h =
      by_area (post_release se q i g m t) name a s (refl, tt) h
  handle-Found (heartbeat info) name a s n h =
      by_area (heartbeat info) name a s (refl, (refl, tt)) h

  -- An account that is found is found unchanged, its digest of the password included, after any
  -- sequence of requests, but for a request between nodes for its very key, which anybody can send.
  pub handle_all-find_user :
      (qs : List Route) (name : Bytes) (a : UserInfo) (s : env.rs.State)
      → All (Spares (user_key name)) qs
      → find_user env.rs env.users env.sha1 name s ≡ ok a
      → find_user env.rs env.users env.sha1 name (handle_all env qs s) ≡ ok a
  unfolding handle_all
  handle_all-find_user [] name a s n h = h
  handle_all-find_user (q ∷ qs) name a s (n, ns) h =
      handle_all-find_user qs name a (handle env q s).0 ns (handle-Found q name a s n h)
