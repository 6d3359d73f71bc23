-- ===== src/Server/Records.antt =====
-- What the handlers do to the record of an application, which service/app/app.go keeps under its id:
-- a record is made once, and keeps its id, creator, time and token.
use micro_conf.Json.{Json}
use micro_conf.Commons.{Str}
use micro_conf.Base.Outcome.{Error, Result, Result-cases, err, ok}
use micro_conf.Base.{
  Bool-cases, Option, ap, arith, false, inl, inr, none, refl, some, sym, ◌∙◌, ◌≡◌, ◌≢◌, ◌⊎◌,
}
use micro_conf.App.Info.{AppInfo, app_info_key, find_app, merge, modify_app_info, store_app}
use mathlib.Core.Path.{subst}
use micro_conf.Text.Bytes.{same_refl, Bytes, same, eq_of_same}
use micro_conf.Store.{RaftStore, IsRaftStore, never}
use micro_conf.App.Roles.{
  Role, developer, owner, viewer, other, with_role, without_role, finish, add_role, remove_role,
}

-- What no request changes of an application.
abbrev pub Identity : AppInfo → AppInfo → Type 0
Identity a b =
    (b.app_id ≡ a.app_id)
    × (b.creator ≡ a.creator)
    × (b.create_time ≡ a.create_time)
    × (b.token ≡ a.token)

with_role-Identity :
    (r : Role) (u : Bytes) (a b : AppInfo) → with_role r u a ≡ ok (some b) → Identity a b
unfolding with_role
with_role-Identity developer u a b h = ground (arith, h)
with_role-Identity owner u a b h = ground (arith, h)
with_role-Identity viewer u a b h = ground (arith, h)
with_role-Identity other u a b h = absurd (cc h)

without_role-Identity :
    (str : Str) (r : Role) (u : Bytes) (a b : AppInfo)
    → without_role str r u a ≡ ok (some b)
    → Identity a b
unfolding without_role
without_role-Identity str developer u a b h = ground (arith, h)
without_role-Identity str owner u a b h = ground (arith, h)
without_role-Identity str viewer u a b h = ground (arith, h)
without_role-Identity str other u a b h = absurd (cc h)

app_info_key-ne : (i j : Bytes) → same i j ≡ false → app_info_key i ≢ app_info_key j
unfolding app_info_key
app_info_key-ne i j h e =
    let p : i ≡ j = cc e in absurd (cc (sym (same_refl j) ∙ ap (λ k. same k j) (sym p) ∙ h))

module _ (rs : RaftStore) (apps : Json AppInfo) where
  -- What may become of the record of the application `id`.
  pub data RecordStep (id : Bytes) (s t : rs.State) : Type 0 where
    kept : rs.get (app_info_key id) t ≡ rs.get (app_info_key id) s → RecordStep id s t
    changed :
        (a b : AppInfo)
        → find_app rs apps id s ≡ ok a
        → find_app rs apps id t ≡ ok b
        → Identity a b
        → RecordStep id s t
    created :
        (e : Error) (b : AppInfo)
        → find_app rs apps id s ≡ err e
        → find_app rs apps id t ≡ ok b
        → b.app_id ≡ id
        → RecordStep id s t

  pub find_app-kept :
      (id : Bytes) (s t : rs.State)
      → rs.get (app_info_key id) t ≡ rs.get (app_info_key id) s
      → find_app rs apps id t ≡ find_app rs apps id s
  unfolding find_app
  find_app-kept id s t h = rw h refl

  -- A call behind the step that leaves the record alone, and one before it.
  pub RecordStep-behind :
      (id : Bytes) (s t u : rs.State)
      → RecordStep id s t
      → rs.get (app_info_key id) u ≡ rs.get (app_info_key id) t
      → RecordStep id s u
  RecordStep-behind id s t u (kept h) k = kept (k ∙ h)
  RecordStep-behind id s t u (changed a b h i same_id) k =
      changed a b h (find_app-kept id t u k ∙ i) same_id
  RecordStep-behind id s t u (created e b h i own_id) k =
      created e b h (find_app-kept id t u k ∙ i) own_id

  pub RecordStep-before :
      (id : Bytes) (s t u : rs.State)
      → rs.get (app_info_key id) t ≡ rs.get (app_info_key id) s
      → RecordStep id t u
      → RecordStep id s u
  RecordStep-before id s t u k (kept h) = kept (h ∙ k)
  RecordStep-before id s t u k (changed a b h i same_id) =
      changed a b (sym (find_app-kept id s t k) ∙ h) i same_id
  RecordStep-before id s t u k (created e b h i own_id) =
      created e b (sym (find_app-kept id s t k) ∙ h) i own_id

  module _ (laws : IsRaftStore rs) where
    -- A record that is written is found, or the write has failed.
    find_app-store_app :
        (id : Bytes) (b : AppInfo) (s : rs.State)
        → (find_app rs apps id (store_app rs apps id b s).0 ≡ ok b)
          ⊎ (rs.get (app_info_key id) (store_app rs apps id b s).0 ≡ rs.get (app_info_key id) s)
    unfolding store_app find_app
    find_app-store_app id b s =
        elim (laws.get-set_or (app_info_key id) (apps.marshal b) s
          (rs.set (app_info_key id) (apps.marshal b) never s).0
          (rs.set (app_info_key id) (apps.marshal b) never s).1 refl) [
            | inl h ↦ inl (rw (h, apps.unmarshal-marshal b) refl)
            | inr h ↦ inr h
          ]

    store_app-other :
        (id j : Bytes) (b : AppInfo) (s : rs.State)
        → same id j ≡ false
        → rs.get (app_info_key j) (store_app rs apps id b s).0 ≡ rs.get (app_info_key j) s
    unfolding store_app
    store_app-other id j b s h =
        laws.get-set_ne (app_info_key id) (app_info_key j) (apps.marshal b) never s _ _ refl
          (app_info_key-ne id j h)

    -- The write of a changed record, and of a new one.
    pub store_app-changed :
        (id j : Bytes) (a b : AppInfo) (s : rs.State)
        → find_app rs apps id s ≡ ok a
        → Identity a b
        → RecordStep j s (store_app rs apps id b s).0
    store_app-changed id j a b s h same_id = elim (Bool-cases (same id j)) [
      | inr n ↦ kept (store_app-other id j b s n)
      | inl y ↦
          subst (λ k. RecordStep k s (store_app rs apps id b s).0) (eq_of_same id j y)
            (elim (find_app-store_app id b s) [ inl f ↦ changed a b h f same_id | inr k ↦ kept k ])
    ]

    pub store_app-created :
        (id j : Bytes) (b : AppInfo) (e : Error) (s : rs.State)
        → find_app rs apps id s ≡ err e
        → b.app_id ≡ id
        → RecordStep j s (store_app rs apps id b s).0
    store_app-created id j b e s h own_id = elim (Bool-cases (same id j)) [
      | inr n ↦ kept (store_app-other id j b s n)
      | inl y ↦
          subst (λ k. RecordStep k s (store_app rs apps id b s).0) (eq_of_same id j y)
            (elim (find_app-store_app id b s) [ inl f ↦ created e b h f own_id | inr k ↦ kept k ])
    ]

    finish-RecordStep :
        (id j : Bytes) (a : AppInfo) (r : Result (Option AppInfo)) (s : rs.State)
        → find_app rs apps id s ≡ ok a
        → ((b : AppInfo) → r ≡ ok (some b) → Identity a b)
        → RecordStep j s (finish rs apps id r s).0
    unfolding finish
    finish-RecordStep id j a (ok none) s h k = kept refl
    finish-RecordStep id j a (ok (some b)) s h k = store_app-changed id j a b s h (k b refl)
    finish-RecordStep id j a (err e) s h k = kept refl

    pub add_role-RecordStep :
        (r : Role) (id u j : Bytes) (s : rs.State) → RecordStep j s (add_role rs apps r id u s).0
    unfolding add_role
    add_role-RecordStep r id u j s = elim (Result-cases (find_app rs apps id s)) [
      | inl (a, q) ↦
          rw (q, add_role)
            (finish-RecordStep id j a (with_role r u a) s q (with_role-Identity r u a))
      | inr (e, q) ↦ rw (q, add_role) (kept refl)
    ]

    pub remove_role-RecordStep :
        (str : Str) (r : Role) (id u j : Bytes) (s : rs.State)
        → RecordStep j s (remove_role rs apps str r id u s).0
    unfolding remove_role
    remove_role-RecordStep str r id u j s = elim (Result-cases (find_app rs apps id s)) [
      | inl (a, q) ↦
          rw (q, remove_role)
            (finish-RecordStep id j a (without_role str r u a) s q
              (without_role-Identity str r u a))
      | inr (e, q) ↦ rw (q, remove_role) (kept refl)
    ]

    pub modify_app_info-RecordStep :
        (info : AppInfo) (j : Bytes) (s : rs.State)
        → RecordStep j s (modify_app_info rs apps info s).0
    unfolding modify_app_info merge
    modify_app_info-RecordStep info j s = elim (Result-cases (find_app rs apps info.app_id s)) [
      | inl (a, q) ↦
          rw (q, modify_app_info)
            (store_app-changed info.app_id j a (merge rs apps a info) s q (refl, refl, refl, refl))
      | inr (e, q) ↦ rw (q, modify_app_info) (kept refl)
    ]
