-- ===== src/App/Roles/Laws.antt =====
-- Who holds which role after a change of roles.
use micro_conf.Store.{IsRaftStore, RaftStore}
use micro_conf.Json.{Json}
use micro_conf.Commons.{Str}
use micro_conf.Base.Outcome.{Result, ok}
use micro_conf.Text.Fold.{equal_fold}
use micro_conf.Text.Bytes.{Lacks, Bytes}
use micro_conf.Base.{
  ap, sym, ◌∙◌, Bool-cases, if◌then◌else◌, inl, inr, Option, arith, none, not, some, ◌&&◌, ◌||◌,
  Bool, [], refl, ◌≡◌, ◌≢◌,
}
use micro_conf.App.Roles.{
  finish, remove_role, add_role, without_role, with_role, Role, developer, other, owner, viewer,
}
use micro_conf.App.Members.Laws.{
  add_unless-contains, remove_unless-contains, contains-remove_part, contains-add_part,
}
use micro_conf.App.Members.{add_part, remove_part, contains}
use micro_conf.App.Info.{app_info_key, find_app, store_app, AppInfo}

-- The list that a role is kept in.
abbrev pub members : Role → AppInfo → Bytes
members developer app = app.developers
members viewer app = app.viewers
members owner app = app.owners
members other app = []

-- The holders of one role are those that `p` says, and all else is as in `app`.
pub record Holds (app app' : AppInfo) (r : Role) (p : Bytes → Bool) : Type 0 where
  pub holders : (x : Bytes) → x ≢ [] → contains (members r app') x ≡ p x
  pub others : (q : Role) → q ≢ r → members q app' ≡ members q app
  pub kept : (app'.app_id ≡ app.app_id) × (app'.token ≡ app.token) × (app'.groups ≡ app.groups)

-- The application with another list for one role.
abbrev pub set_members : Role → Bytes → AppInfo → AppInfo
set_members developer l app = record app { developers = l }
set_members viewer l app = record app { viewers = l }
set_members owner l app = record app { owners = l }
set_members other l app = app

set_members-others :
    (r q : Role) (l : Bytes) (app : AppInfo)
    → q ≢ r
    → members q (set_members r l app) ≡ members q app
set_members-others developer q l app h = ground arith
set_members-others viewer q l app h = ground arith
set_members-others owner q l app h = ground arith
set_members-others other q l app h = refl

pub Holds-set_members :
    (r : Role) (app : AppInfo) (l : Bytes) (p : Bytes → Bool)
    → r ≢ other
    → ((x : Bytes) → x ≢ [] → contains l x ≡ p x)
    → Holds app (set_members r l app) r p
Holds-set_members developer app l p h hp = record {
  holders = hp;
  others = λ q. set_members-others developer q l app;
  kept = (refl, refl, refl);
}
Holds-set_members viewer app l p h hp = record {
  holders = hp;
  others = λ q. set_members-others viewer q l app;
  kept = (refl, refl, refl);
}
Holds-set_members owner app l p h hp = record {
  holders = hp;
  others = λ q. set_members-others owner q l app;
  kept = (refl, refl, refl);
}
Holds-set_members other app l p h hp = absurd (h refl)

Holds-same :
    (r : Role) (app : AppInfo) (p : Bytes → Bool)
    → ((x : Bytes) → x ≢ [] → contains (members r app) x ≡ p x)
    → Holds app app r p
Holds-same r app p hp = record { holders = hp; others = λ q h. refl; kept = (refl, refl, refl) }

pub with_role_lem :
    (r : Role) (u : Bytes) (app : AppInfo)
    → r ≢ other
    → with_role r u app ≡ (
        if contains (members r app) u
        then ok none
        else ok (some (set_members r (add_part (members r app) u) app)))
unfolding with_role
with_role_lem developer u app h = refl
with_role_lem viewer u app h = refl
with_role_lem owner u app h = refl
with_role_lem other u app h = absurd (h refl)

without_role_lem :
    (str : Str) (r : Role) (u : Bytes) (app : AppInfo)
    → r ≢ other
    → without_role str r u app ≡ (
        if contains (members r app) u
        then ok (some (set_members r (remove_part str (members r app) u) app))
        else ok none)
unfolding without_role
without_role_lem str developer u app h = refl
without_role_lem str viewer u app h = refl
without_role_lem str owner u app h = refl
without_role_lem str other u app h = absurd (h refl)

module _ (rs : RaftStore) (laws : IsRaftStore rs) (json : Json AppInfo) where
  -- An application that was written is found.
  pub find_app-store_app :
      (id : Bytes) (app : AppInfo) (s t : rs.State)
      → store_app rs json id app s ≡ (t, ok tt)
      → find_app rs json id t ≡ ok app
  unfolding find_app store_app
  find_app-store_app id app s t h =
      rw (laws.get-set_self (app_info_key id) (json.marshal app) s t h, json.unmarshal-marshal app)

  pub finish_change :
      (id : Bytes) (app : AppInfo) (s t : rs.State) (d : Result (Option AppInfo))
      → finish rs json id d s ≡ (t, ok tt)
      → d ≡ ok (some app)
      → find_app rs json id t ≡ ok app
  unfolding finish
  finish_change id app s t d h e =
      find_app-store_app id app s t (ap (λ x. finish rs json id x s) (sym e) ∙ h)

  finish_same :
      (id : Bytes) (app : AppInfo) (s t : rs.State) (d : Result (Option AppInfo))
      → find_app rs json id s ≡ ok app
      → finish rs json id d s ≡ (t, ok tt)
      → d ≡ ok none
      → find_app rs json id t ≡ ok app
  unfolding finish
  finish_same id app s t d found h e =
      ap (λ (p : rs.State × Result (Unit {0})). find_app rs json id p.0)
        (sym h ∙ ap (λ x. finish rs json id x s) e)
      ∙ found

  module _ (id u : Bytes) (hu : u ≢ []) (app : AppInfo) (s t : rs.State) (r : Role) (hr : r ≢ other)
      (found : find_app rs json id s ≡ ok app) where
    add_role_found : add_role rs json r id u s ≡ finish rs json id (with_role r u app) s
    unfolding add_role
    add_role_found = ground (arith, found)

    remove_role_found :
        (str : Str)
        → remove_role rs json str r id u s ≡ finish rs json id (without_role str r u app) s
    unfolding remove_role
    remove_role_found str = ground (arith, found)

    -- The role is not the unknown one, the user's name is not empty and has no comma, and the
    -- application is stored: after an addition that reports success, the role's holders are the
    -- former ones and the user, under every spelling that folds alike; the other roles, the id, the
    -- token and the groups stay.
    pub add_role-Holds :
        Lacks b',' u
        → add_role rs json r id u s ≡ (t, ok tt)
        → (app' : AppInfo) × (find_app rs json id t ≡ ok app')
          × Holds app app' r (λ x. contains (members r app) x || equal_fold u x)
    add_role-Holds hc h =
        let d = with_role r u app in
        let ran = sym add_role_found ∙ h in
        elim (Bool-cases (contains (members r app) u)) [
          | inl old ↦ (
            app,
            finish_same id app s t d found ran (rw (with_role_lem r u app hr, old)),
            Holds-same r app _ (λ x hx. add_unless-contains (members r app) u x hx hu old),
          )
          | inr new ↦ (
            set_members r (add_part (members r app) u) app,
            finish_change id _ s t d ran (rw (with_role_lem r u app hr, new)),
            Holds-set_members r app _ _ hr (λ x hx. contains-add_part (members r app) u x hx hc),
          )
        ]

    -- The role is not the unknown one, the user's name is not empty, and the application is stored:
    -- after a removal that reports success, the role's holders are the former ones but the user,
    -- under every spelling that folds alike; the other roles, the id, the token and the groups
    -- stay.
    pub remove_role-Holds :
        (str : Str)
        → remove_role rs json str r id u s ≡ (t, ok tt)
        → (app' : AppInfo) × (find_app rs json id t ≡ ok app')
          × Holds app app' r (λ x. contains (members r app) x && not (equal_fold u x))
    remove_role-Holds str h =
        let d = without_role str r u app in
        let ran = sym (remove_role_found str) ∙ h in
        elim (Bool-cases (contains (members r app) u)) [
          | inl old ↦ (
            set_members r (remove_part str (members r app) u) app,
            finish_change id _ s t d ran (rw (without_role_lem str r u app hr, old)),
            Holds-set_members r app _ _ hr
                (λ x hx. contains-remove_part str (members r app) u x hx hu),
          )
          | inr new ↦ (
            app,
            finish_same id app s t d found ran (rw (without_role_lem str r u app hr, new)),
            Holds-same r app _ (λ x hx. remove_unless-contains (members r app) u x hx hu new),
          )
        ]
