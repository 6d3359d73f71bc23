-- ===== src/App/Roles/Race.antt =====
-- Two requests that add a holder to the same role of an application at once: nothing keeps the
-- second from reading the application before the first writes it.
use micro_conf.Store.{IsRaftStore, RaftStore}
use micro_conf.Json.{Json}
use micro_conf.Cfg.Flat.{second}
use micro_conf.App.Roles.Laws.{
  Holds-set_members, finish_change, members, set_members, with_role_lem,
}
use micro_conf.App.Roles.{Role, finish, other, with_role}
use micro_conf.App.Members.Laws.{contains-add_part}
use micro_conf.App.Members.{add_part, contains}
use micro_conf.App.Info.{AppInfo, find_app}
use micro_conf.Text.Bytes.{Bytes, Lacks}
use micro_conf.Text.Fold.{equal_fold, equal_fold_refl}
use micro_conf.Base.{[], ap, false, sym, true, ◌||◌, ◌∙◌, ◌≡◌, ◌≢◌}
use micro_conf.Base.Outcome.{Result, err, message, ok}

module _ (rs : RaftStore) (json : Json AppInfo) where
  -- Both calls of addRole read, then the first writes, then the second; with the results of both.
  unfoldable pub add_roles_at_once :
      Role → (u v : Bytes) → Bytes → rs.State → rs.State × (Result (Unit {0}) × Result (Unit {0}))
  unfolding finish
  add_roles_at_once r u v id s = elim (find_app rs json id s) [
    | err e ↦ (s, (err (message "app not found"), err (message "app not found")))
    | ok app ↦
        let (t, first) = finish rs json id (with_role r u app) s in
        let (t', second) = finish rs json id (with_role r v app) t in (t', (first, second))
  ]

module _ (rs : RaftStore) (laws : IsRaftStore rs) (json : Json AppInfo) (id u v : Bytes)
    (app : AppInfo) (s : rs.State) (r : Role) where
  -- A known role that neither of two users has, whose names are not empty and do not fold alike,
  -- the second without a comma, in an application that is stored: if both are added at once and
  -- both additions report success, then the second user has the role and the first has not.
  pub add_roles_at_once-lost :
      r ≢ other
      → u ≢ []
      → v ≢ []
      → Lacks b',' v
      → find_app rs json id s ≡ ok app
      → contains (members r app) u ≡ false
      → contains (members r app) v ≡ false
      → equal_fold v u ≡ false
      → (add_roles_at_once rs json r u v id s).1 ≡ (ok tt, ok tt)
      → (app' : AppInfo) × (find_app rs json id (add_roles_at_once rs json r u v id s).0 ≡ ok app')
        × (contains (members r app') v ≡ true)
        × (contains (members r app') u ≡ false)
  unfolding add_roles_at_once
  add_roles_at_once-lost hr hu hv comma found no_u no_v apart reports =
      let t = (finish rs json id (with_role r u app) s).0 in
      let p = finish rs json id (with_role r v app) t in
      let changed = set_members r (add_part (members r app) v) app in
      let raced : add_roles_at_once rs json r u v id s
          ≡ (p.0, ((finish rs json id (with_role r u app) s).1, p.1)) =
        ap
          (λ x. elim x [
            | err e ↦ (s, (err (message "app not found"), err (message "app not found")))
            | ok app ↦
                let (t, first) = finish rs json id (with_role r u app) s in
                let (t', second) = finish rs json id (with_role r v app) t in (t', (first, second))
          ])
          found in
      let wrote : p ≡ (p.0, ok tt) =
        ap (λ x. (p.0, x)) (sym (ap (λ q. q.1.1) raced) ∙ ap (λ q. q.1) reports) in
      let after_both =
        Holds-set_members r app (add_part (members r app) v)
          (λ x. contains (members r app) x || equal_fold v x) hr
          (λ x hx. contains-add_part (members r app) v x hx comma) in
      (
        changed,
        ap (λ q. find_app rs json id q.0) raced
            ∙ finish_change rs laws json id changed t p.0 (with_role r v app) wrote
                (rw (with_role_lem r v app hr, no_v)),
        after_both.holders v hv ∙ rw (no_v, equal_fold_refl v),
        after_both.holders u hu ∙ rw (no_u, apart),
      )
