-- ===== src/Server/Area/Configs.antt =====
-- What the administration of namespaces touches.
use micro_conf.Server.Area.{configs}
use micro_conf.Json.{Json}
use micro_conf.Http.{reply_of}
use micro_conf.Commons.{Str}
use micro_conf.Cfg.Differ.{NamespaceDiff}
use micro_conf.Cfg.Diff.{diff}
use micro_conf.Cfg.Codec.{Readings}
use micro_conf.Cfg.Admin.{
  NamespaceEditHistory, NamespaceReq, change_namespace_content, create_at, create_namespace,
  delete_all, history_key, history_scan_key, namespace_operation, release_diff, release_namespace,
  release_read, remove_keys, remove_namespace, req_valid, unreleased_key, write_release,
}
use micro_conf.Base.Outcome.{◌>>=◌, Call, Result, Result-cases, err, message, not_found, ok, panic}
use micro_conf.Base.{
  All, All-map, Bool, List, Option, [], arith, inl, inr, none, refl, some, true, ◌∷◌, ◌≡◌,
}
use micro_conf.App.Info.{AppInfo, app_config_key}
use micro_conf.Text.Bytes.{Bytes, codes, has_prefix}
use micro_conf.Store.{RaftStore, IsRaftStore, never}
use micro_conf.Store.Touches.{
  Touches-bind, Touches-after, Touches-delete, Touches-refl, Touches-reply_of, Touches-set,
  Touches-trans, state_if, Touches, Inside,
}

pub app_config_key-Inside : (a g n : Bytes) → Inside configs (app_config_key a g n)
unfolding app_config_key has_prefix
app_config_key-Inside a g n = inl refl

unreleased_key-Inside : (a g n : Bytes) → Inside configs (unreleased_key a g n)
unfolding unreleased_key has_prefix
unreleased_key-Inside a g n = inl refl

history_key-Inside : (a g n time : Bytes) → Inside configs (history_key a g n time)
unfolding history_key history_scan_key has_prefix
history_key-Inside a g n time = inl refl

-- A key that begins with a longer text begins with each text that this one begins with.
has_prefix_trans :
    (k q p : Bytes) → has_prefix k q ≡ true → has_prefix q p ≡ true → has_prefix k p ≡ true
unfolding has_prefix
has_prefix_trans k q [] h i = refl
has_prefix_trans k [] (y ∷ p) h i = absurd (cc i)
has_prefix_trans [] (x ∷ q) (y ∷ p) h i = absurd (cc h)
has_prefix_trans (c ∷ k) (x ∷ q) (y ∷ p) h i = ground (arith, has_prefix_trans k q p)

history_scan_key-prefix :
    (a g n : Bytes) → has_prefix (history_scan_key a g n) (codes "app.cfg.") ≡ true
unfolding history_scan_key has_prefix
history_scan_key-prefix a g n = refl

module _ (rs : RaftStore) (laws : IsRaftStore rs) where
  set-Touches :
      (k v : Bytes) (s : rs.State) → Inside configs k → Touches rs configs s (rs.set k v never s).0
  set-Touches k v s h = Touches-set rs configs laws k v never s h

  module _ (str : Str) (apps : Json AppInfo) where
    create_at-Touches :
        (k : Bytes) (r : Result Bytes) (s : rs.State)
        → Inside configs k
        → Touches rs configs s (create_at rs str apps k r s).0
    unfolding create_at
    create_at-Touches k (ok v) s h = Touches-refl rs configs s
    create_at-Touches k (err not_found) s h = set-Touches k [] s h
    create_at-Touches k (err panic) s h = Touches-refl rs configs s
    create_at-Touches k (err (message m)) s h = Touches-refl rs configs s

    pub create_namespace-Touches :
        (ns : NamespaceReq) (s : rs.State)
        → Touches rs configs s (create_namespace rs str apps ns s).0
    unfolding create_namespace
    create_namespace-Touches ns s = elim (Result-cases (req_valid rs str apps ns s)) [
      | inr (e, q) ↦ rw (q, create_namespace) (Touches-refl rs configs s)
      | inl (u, q) ↦
          let k = app_config_key ns.app_id ns.group ns.namespace in
          rw (q, create_namespace)
            (create_at-Touches k (rs.get k s) s
              (app_config_key-Inside ns.app_id ns.group ns.namespace))
    ]

    delete_all-Touches :
        (ks : List Bytes) (s : rs.State)
        → All (λ k. has_prefix k (codes "app.cfg.") ≡ true) ks
        → Touches rs configs s (delete_all rs str apps ks s)
    unfolding delete_all
    delete_all-Touches [] s h = Touches-refl rs configs s
    delete_all-Touches (k ∷ ks) s (h, hs) =
        let t = (rs.delete k s).0 in
        Touches-trans rs configs s t (delete_all rs str apps ks t)
          (Touches-delete rs configs laws k s (inl h)) (delete_all-Touches ks t hs)

    remove_keys-Touches :
        (ns : NamespaceReq) (s : rs.State) → Touches rs configs s (remove_keys rs str apps ns s).0
    unfolding remove_keys
    remove_keys-Touches ns s =
        let q = history_scan_key ns.app_id ns.group ns.namespace in
        Touches-after rs configs s (rs.delete (app_config_key ns.app_id ns.group ns.namespace) s) _
          (Touches-delete rs configs laws (app_config_key ns.app_id ns.group ns.namespace) s
            (app_config_key-Inside ns.app_id ns.group ns.namespace))
          (λ t _.
            let u = (rs.delete (unreleased_key ns.app_id ns.group ns.namespace) t).0 in
            Touches-trans rs configs t u (delete_all rs str apps (rs.scan_keys q u) u)
              (Touches-delete rs configs laws (unreleased_key ns.app_id ns.group ns.namespace) t
                (unreleased_key-Inside ns.app_id ns.group ns.namespace))
              (delete_all-Touches (rs.scan_keys q u) u (
                All-map (λ k. has_prefix k q ≡ true) (λ k. has_prefix k (codes "app.cfg.") ≡ true)
                  (λ k h.
                    has_prefix_trans k q (codes "app.cfg.") h
                      (history_scan_key-prefix ns.app_id ns.group ns.namespace))
                  (rs.scan_keys q u) (laws.scan_keys-prefix q u))))

    pub remove_namespace-Touches :
        (listening : NamespaceReq → rs.State → Bool) (ns : NamespaceReq) (s : rs.State)
        → Touches rs configs s (remove_namespace rs str apps listening ns s).0
    unfolding remove_namespace
    remove_namespace-Touches listening ns s = elim (Result-cases (req_valid rs str apps ns s)) [
      | inr (e, q) ↦ rw (q, remove_namespace) (Touches-refl rs configs s)
      | inl (u, q) ↦
          rw (q, remove_namespace)
            (state_if (Touches rs configs s) (listening ns s) _ (remove_keys rs str apps ns s)
              (Touches-refl rs configs s) (remove_keys-Touches ns s))
    ]

    pub namespace_operation-Touches :
        (f : NamespaceReq → Call rs.State (Unit {0})) (body : Option NamespaceReq) (s : rs.State)
        → ((ns : NamespaceReq) → Touches rs configs s (f ns s).0)
        → Touches rs configs s (namespace_operation rs str apps f body s).0
    unfolding namespace_operation
    namespace_operation-Touches f none s h = Touches-refl rs configs s
    namespace_operation-Touches f (some ns) s h = Touches-reply_of rs configs s (f ns s) (h ns)

  module _ (readings : Readings) (histories : Json NamespaceEditHistory) (a g n : Bytes) where
    pub change_namespace_content-Touches :
        (body : Option Bytes) (s : rs.State)
        → Touches rs configs s (change_namespace_content rs readings histories a g n body s).0
    unfolding change_namespace_content
    change_namespace_content-Touches none s = Touches-refl rs configs s
    change_namespace_content-Touches (some content) s =
        elim (Result-cases (rs.get (app_config_key a g n) s)) [
          | inr (e, q) ↦ rw (q, change_namespace_content) (Touches-refl rs configs s)
          | inl (v, q) ↦
              rw (q, change_namespace_content)
                (Touches-reply_of rs configs s (rs.set (unreleased_key a g n) content never s)
                  (set-Touches (unreleased_key a g n) content s (unreleased_key-Inside a g n)))
        ]

    write_release-Touches :
        (user now current next_text : Bytes) (s : rs.State)
        → Touches rs configs s
            (write_release rs readings histories a g n user now current next_text s).0
    unfolding write_release
    write_release-Touches user now current next_text s =
        let entry : NamespaceEditHistory = record {
          time = now;
          modified_by = user;
          content = current;
        } in
        let keep_old = rs.set (history_key a g n now) (histories.marshal entry) never in
        let put_new = rs.set (app_config_key a g n) next_text never in
        let drop_old = rs.delete (unreleased_key a g n) in
        Touches-bind rs configs keep_old (put_new >>= λ _. drop_old)
          (λ t.
            set-Touches (history_key a g n now) (histories.marshal entry) t
              (history_key-Inside a g n now))
          (Touches-bind rs configs put_new drop_old
            (λ t. set-Touches (app_config_key a g n) next_text t (app_config_key-Inside a g n))
            (λ t.
              Touches-delete rs configs laws (unreleased_key a g n) t
                (unreleased_key-Inside a g n)))
          s

    release_diff-Touches :
        (user now current next_text : Bytes) (r : Result NamespaceDiff) (s : rs.State)
        → Touches rs configs s
            (release_diff rs readings histories a g n user now current next_text r s).0
    unfolding release_diff
    release_diff-Touches user now current next_text (err e) s = Touches-refl rs configs s
    release_diff-Touches user now current next_text (ok d) s =
        state_if (Touches rs configs s) d.is_same _
          (reply_of (write_release rs readings histories a g n user now current next_text s))
          (Touches-refl rs configs s)
          (Touches-reply_of rs configs s
            (write_release rs readings histories a g n user now current next_text s)
            (write_release-Touches user now current next_text s))

    release_read-Touches :
        (user now : Bytes) (current waiting : Result Bytes) (s : rs.State)
        → Touches rs configs s
            (release_read rs readings histories a g n user now current waiting s).0
    unfolding release_read
    release_read-Touches user now (err e) waiting s = Touches-refl rs configs s
    release_read-Touches user now (ok c) (err not_found) s = Touches-refl rs configs s
    release_read-Touches user now (ok c) (err panic) s = Touches-refl rs configs s
    release_read-Touches user now (ok c) (err (message m)) s = Touches-refl rs configs s
    release_read-Touches user now (ok c) (ok w) s =
        release_diff-Touches user now c w (diff readings n c w) s

    pub release_namespace-Touches :
        (user now : Bytes) (s : rs.State)
        → Touches rs configs s (release_namespace rs readings histories a g n user now s).0
    unfolding release_namespace
    release_namespace-Touches user now s =
        release_read-Touches user now (rs.get (app_config_key a g n) s)
          (rs.get (unreleased_key a g n) s) s
