-- ===== src/Cfg/Admin/Release.antt =====
-- What an edit and a release of a namespace leave in the store.
use micro_conf.Cfg.Differ.{NamespaceDiff}
use micro_conf.Cfg.Diff.Laws.{ReadAlike, diff-json}
use micro_conf.Cfg.Diff.{diff, format_of}
use micro_conf.Text.Bytes.{codes, Bytes}
use micro_conf.Store.{IsRaftStore, RaftStore, never}
use micro_conf.Json.{Json}
use micro_conf.Http.{bad_request, reply_of, success}
use micro_conf.Cfg.Codec.{Readings}
use micro_conf.Cfg.Admin.Keys.{current_ne_history, future_ne_current, future_ne_history}
use micro_conf.Base.Outcome.{message, not_found, panic, Result, after-ok, err, ok}
use micro_conf.Base.{false, [], ap, refl, some, ◌∙◌, ◌∷◌, ◌≡◌}
use micro_conf.App.Info.{app_config_key}
use micro_conf.Cfg.Admin.{
  release_read, release_diff, release_namespace, change_namespace_content, history_key,
  unreleased_key, write_release, NamespaceEditHistory,
}

module _ (rs : RaftStore) (laws : IsRaftStore rs) (readings : Readings)
    (histories : Json NamespaceEditHistory) where
  reply_of-success :
      (p : rs.State × Result (Unit {0})) (t : rs.State)
      → reply_of p ≡ (t, success ∷ [])
      → p ≡ (t, ok tt)
  reply_of-success (s, ok a) t h = ap (λ q. (q.0, ok tt)) h
  reply_of-success (s, err e) t h = cc h

  module _ (a g n : Bytes) where
    -- An edit that is answered by success alone leaves the new content as the version that waits,
    -- and the version in force as it was.
    pub change_namespace_content-success :
        (content : Bytes) (s t : rs.State)
        → change_namespace_content rs readings histories a g n (some content) s ≡ (t, success ∷ [])
        → (rs.get (unreleased_key a g n) t ≡ ok content)
          × (rs.get (app_config_key a g n) t ≡ rs.get (app_config_key a g n) s)
    unfolding change_namespace_content
    change_namespace_content-success content s t h = go (rs.get (app_config_key a g n) s) refl h
      where
        go :
            (r : Result Bytes)
            → rs.get (app_config_key a g n) s ≡ r
            → elim r [
              | err e ↦ (s, bad_request ∷ [])
              | ok _ ↦ reply_of (rs.set (unreleased_key a g n) content never s)
            ]
              ≡ (t, success ∷ [])
            → (rs.get (unreleased_key a g n) t ≡ ok content)
              × (rs.get (app_config_key a g n) t ≡ rs.get (app_config_key a g n) s)
        go (err e) q k = cc k
        go (ok c) q k =
            let wrote = reply_of-success (rs.set (unreleased_key a g n) content never s) t k in
            (
              laws.get-set_self (unreleased_key a g n) content s t wrote,
              laws.get-set_ne (unreleased_key a g n) (app_config_key a g n) content never s t
                  (ok tt) wrote (future_ne_current a g n a g n),
            )

    module _ (user now current waiting : Bytes) where
      write_release-ok :
          (s t : rs.State)
          → write_release rs readings histories a g n user now current waiting s ≡ (t, ok tt)
          → (rs.get (app_config_key a g n) t ≡ ok waiting)
            × (rs.get (history_key a g n now) t
                ≡ ok (
                    histories.marshal
                      (record { time = now; modified_by = user; content = current })))
      unfolding write_release
      write_release-ok s t h =
          let hist = history_key a g n now in
          let cur = app_config_key a g n in
          let fut = unreleased_key a g n in
          let (x, u1, logged, h1) = after-ok _ _ t tt h in
          let (y, u2, moved, deleted) = after-ok _ _ t tt h1 in
          (
            laws.get-delete_ne fut cur y t (ok tt) deleted (future_ne_current a g n a g n)
                ∙ laws.get-set_self cur waiting x y moved,
            laws.get-delete_ne fut hist y t (ok tt) deleted (future_ne_history a g n a g n now)
                ∙ laws.get-set_ne cur hist waiting never x y (ok tt) moved
                    (current_ne_history a g n a g n now)
                ∙ laws.get-set_self hist _ s x logged,
          )

      -- If the waiting version differs from the one in force by the report of `diff`, a release
      -- that is answered by success alone puts it in force, and keeps the former one in the history
      -- under the time of the release, with the name of the user.
      pub release_namespace-success :
          (s t : rs.State) (d : NamespaceDiff)
          → rs.get (app_config_key a g n) s ≡ ok current
          → rs.get (unreleased_key a g n) s ≡ ok waiting
          → diff readings n current waiting ≡ ok d
          → d.is_same ≡ false
          → release_namespace rs readings histories a g n user now s ≡ (t, success ∷ [])
          → (rs.get (app_config_key a g n) t ≡ ok waiting)
            × (rs.get (history_key a g n now) t
                ≡ ok (
                    histories.marshal
                      (record { time = now; modified_by = user; content = current })))
      unfolding release_namespace release_read release_diff
      release_namespace-success s t d hc hw hd hs h = write_release-ok s t (
          reply_of-success (write_release rs readings histories a g n user now current waiting s) t
            (rw
              (
                ap
                    (λ r.
                      release_read rs readings histories a g n user now r
                        (rs.get (unreleased_key a g n) s) s)
                    hc,
                ap (λ r. release_read rs readings histories a g n user now (ok current) r s) hw,
                ap (λ r. release_diff rs readings histories a g n user now current waiting r s) hd,
                hs,
              )
              at h))

    -- A release of a JSON namespace whose waiting version both calls read alike changes nothing,
    -- whatever versions are stored: that content does not get in force.
    pub release_namespace-json :
        (user now : Bytes) (s : rs.State)
        → format_of n ≡ some (codes "json")
        → ((waiting : Bytes)
            → rs.get (unreleased_key a g n) s ≡ ok waiting
            → ReadAlike readings waiting)
        → (release_namespace rs readings histories a g n user now s).0 ≡ s
    unfolding release_namespace release_read release_diff
    release_namespace-json user now s f alike =
        go (rs.get (app_config_key a g n) s) (rs.get (unreleased_key a g n) s) refl
      where
        compared :
            (current waiting : Bytes) (r : Result NamespaceDiff)
            → ReadAlike readings waiting
            → diff readings n current waiting ≡ r
            → (release_diff rs readings histories a g n user now current waiting r s).0 ≡ s
        compared current waiting (err e) h q = refl
        compared current waiting (ok d) h q = rw (diff-json readings n current waiting d h f q)

        go :
            (x y : Result Bytes)
            → rs.get (unreleased_key a g n) s ≡ y
            → (release_read rs readings histories a g n user now x y s).0 ≡ s
        go (err e) y h = refl
        go (ok current) (err not_found) h = refl
        go (ok current) (err panic) h = refl
        go (ok current) (err (message m)) h = refl
        go (ok current) (ok waiting) h =
            compared current waiting (diff readings n current waiting) (alike waiting h) refl
