-- ===== src/Cfg/Admin.antt =====
-- service/cfg/cfg_admin.go and NamespaceReq of service/cfg/def.go: namespaces are created, edited,
-- released and removed. A namespace has a version in force, one that waits for its release, and
-- former ones.
pub mod Keys
pub mod Release
pub mod Create
use micro_conf.Text.Split.{split}
use micro_conf.Text.Bytes.{Bytes, codes}
use micro_conf.Store.{RaftStore, never}
use micro_conf.Json.{Json}
use micro_conf.Http.{Handler, Reply, bad_request, reply_of, server_error, success}
use micro_conf.Commons.{Str}
use micro_conf.Cfg.Differ.Buckets.{entry}
use micro_conf.Cfg.Differ.{NamespaceDiff}
use micro_conf.Cfg.Diff.{diff}
use micro_conf.Cfg.Codec.{Readings}
use micro_conf.Base.Outcome.{Call, Result, after, err, message, not_found, ok, ◌>>=◌}
use micro_conf.Base.{
  Bool, List, Option, [], if◌then◌else◌, inl, inr, none, not, some, ◌&&◌, ◌++◌, ◌||◌, ◌∷◌, ◌⊎◌,
}
use micro_conf.App.Info.{AppInfo, app_config_key, find_app, name_pattern}

pub record NamespaceReq : Type 0 where
  pub app_id : Bytes
  pub group : Bytes
  pub namespace : Bytes
  pub content : Bytes

pub record NamespaceEditHistory : Type 0 where
  pub time : Bytes
  pub modified_by : Bytes
  pub content : Bytes

-- appUnreleasedKeyPattern
unfoldable pub unreleased_key : Bytes → Bytes → Bytes → Bytes
unreleased_key app_id group namespace =
    codes "app.cfg.future." ++ app_id ++ codes "." ++ group ++ codes "." ++ namespace

-- appHistoryScanPattern
unfoldable pub history_scan_key : Bytes → Bytes → Bytes → Bytes
history_scan_key app_id group namespace =
    codes "app.cfg.history." ++ app_id ++ codes "." ++ group ++ codes "." ++ namespace ++ codes "."

-- appHistoryKeyPattern
unfoldable pub history_key : Bytes → Bytes → Bytes → Bytes → Bytes
unfolding history_scan_key
history_key app_id group namespace time = history_scan_key app_id group namespace ++ time

-- The outcome of the read of a key that may be missing: an error other than that ends the call.
unfoldable pub unless_missing : Result Bytes → Result Bytes
unless_missing (ok v) = ok v
unless_missing (err not_found) = ok []
unless_missing (err e) = err e

module _ (rs : RaftStore) (str : Str) (apps : Json AppInfo) where
  -- (ns *NamespaceReq) Valid()
  unfoldable pub req_valid : NamespaceReq → rs.State → Result (Unit {0})
  req_valid ns s =
      if not (name_pattern ns.app_id) || not (name_pattern ns.group)
      then err (message "invalid appId or group")
      else if not (str.ends_with ns.namespace (codes ".yaml"))
          && (not (str.ends_with ns.namespace (codes ".yml"))
              && (not (str.ends_with ns.namespace (codes ".json"))
                  && not (str.ends_with ns.namespace (codes ".props"))))
      then err (message "invalid namespace name")
      else elim (find_app rs apps ns.app_id s) [
        | err e ↦ err (message "app doesn't exist")
        | ok app ↦
            if str.contains (split b',' app.groups) ns.group
            then ok tt
            else err (message "group doesn't exist")
      ]

  -- createNamespace behind the read of the key.
  unfoldable pub create_at : Bytes → Result Bytes → Call rs.State (Unit {0})
  create_at key (ok existed) s = (s, err (message "app already exists"))
  create_at key (err not_found) s = rs.set key [] never s
  create_at key (err e) s = (s, err e)

  unfoldable pub create_namespace : NamespaceReq → Call rs.State (Unit {0})
  unfolding req_valid create_at app_config_key
  create_namespace ns s = elim (req_valid ns s) [
    | err e ↦ (s, err e)
    | ok _ ↦
        let key = app_config_key ns.app_id ns.group ns.namespace in create_at key (rs.get key s) s
  ]

  -- Deletes the keys one after the other; an error is only logged.
  unfoldable pub delete_all : List Bytes → rs.State → rs.State
  delete_all [] s = s
  delete_all (k ∷ ks) s = delete_all ks (rs.delete k s).0

  -- The part of removeNamespace behind its checks.
  unfoldable pub remove_keys : NamespaceReq → Call rs.State (Unit {0})
  unfolding delete_all app_config_key unreleased_key history_scan_key
  remove_keys ns s = after (rs.delete (app_config_key ns.app_id ns.group ns.namespace) s) (λ t _.
      let u = (rs.delete (unreleased_key ns.app_id ns.group ns.namespace) t).0 in
      let keys = rs.scan_keys (history_scan_key ns.app_id ns.group ns.namespace) u in
      (delete_all keys u, ok tt))

  -- `listening` is hasInstance: some running instance listens to the namespace.
  unfoldable pub remove_namespace :
      (NamespaceReq → rs.State → Bool) → NamespaceReq → Call rs.State (Unit {0})
  unfolding req_valid remove_keys
  remove_namespace listening ns s = elim (req_valid ns s) [
    | err e ↦ (s, err e)
    | ok _ ↦
        if listening ns s
        then (s, err (message "namespace has active peers listening"))
        else remove_keys ns s
  ]

  -- namespaceOperation; `none` is a body that is no JSON.
  unfoldable pub namespace_operation :
      (NamespaceReq → Call rs.State (Unit {0})) → Option NamespaceReq → Handler rs.State
  namespace_operation f none s = (s, bad_request ∷ [])
  namespace_operation f (some ns) s = reply_of (f ns s)

module _ (rs : RaftStore) (readings : Readings) (histories : Json NamespaceEditHistory) where
  -- changeNamespaceContent
  unfoldable pub change_namespace_content : Bytes → Bytes → Bytes → Option Bytes → Handler rs.State
  unfolding app_config_key unreleased_key
  change_namespace_content app_id group namespace none s = (s, bad_request ∷ [])
  change_namespace_content app_id group namespace (some content) s =
      elim (rs.get (app_config_key app_id group namespace) s) [
        | err e ↦ (s, bad_request ∷ [])
        | ok _ ↦ reply_of (rs.set (unreleased_key app_id group namespace) content never s)
      ]

  -- getNamespaceContent: the reply, or the difference that it shows.
  unfoldable pub get_namespace_content : Bytes → Bytes → Bytes → rs.State → Reply ⊎ NamespaceDiff
  unfolding unless_missing app_config_key unreleased_key diff
  get_namespace_content app_id group namespace s =
      elim (unless_missing (rs.get (unreleased_key app_id group namespace) s)) [
        | err e ↦ inl (server_error e)
        | ok to_release ↦ elim (rs.get (app_config_key app_id group namespace) s) [
          | err not_found ↦ inl bad_request
          | err e ↦ inl (server_error e)
          | ok current ↦ elim (diff readings namespace current to_release) [
            | err e ↦ inl (server_error e)
            | ok d ↦ inr d
          ]
        ]
      ]

  -- The steps of releaseNamespace that write: the history, the version in force, and the deletion
  -- of the version that waited. `push` is pushChange, which leaves the store alone.
  unfoldable pub write_release :
      Bytes → Bytes → Bytes → Bytes → Bytes → Bytes → Bytes → Call rs.State (Unit {0})
  unfolding history_key app_config_key unreleased_key
  write_release app_id group namespace username now current to_release =
      let entry : NamespaceEditHistory = record {
        time = now;
        modified_by = username;
        content = current;
      } in
      rs.set (history_key app_id group namespace now) (histories.marshal entry) never >>= λ _.
      rs.set (app_config_key app_id group namespace) to_release never >>= λ _.
      rs.delete (unreleased_key app_id group namespace)

  -- Behind the comparison of the two versions.
  unfoldable pub release_diff :
      Bytes
      → Bytes
      → Bytes
      → Bytes
      → Bytes
      → Bytes
      → Bytes
      → Result NamespaceDiff
      → Handler rs.State
  unfolding write_release
  release_diff app_id group namespace username now current to_release (err e) s =
      (s, server_error e ∷ [])
  release_diff app_id group namespace username now current to_release (ok d) s =
      if d.is_same
      then (s, success ∷ [])
      else reply_of (write_release app_id group namespace username now current to_release s)

  -- Behind the reads of the version in force and of the one that waits.
  unfoldable pub release_read :
      Bytes → Bytes → Bytes → Bytes → Bytes → Result Bytes → Result Bytes → Handler rs.State
  unfolding release_diff diff
  release_read app_id group namespace username now (err e) waiting s = (s, bad_request ∷ [])
  release_read app_id group namespace username now (ok current) (err not_found) s =
      (s, bad_request ∷ [])
  release_read app_id group namespace username now (ok current) (err e) s = (s, server_error e ∷ [])
  release_read app_id group namespace username now (ok current) (ok to_release) s =
      release_diff app_id group namespace username now current to_release
        (diff readings namespace current to_release) s

  -- releaseNamespace; `now` is the time in RFC 3339, and `username` that of the session's user.
  unfoldable pub release_namespace : Bytes → Bytes → Bytes → Bytes → Bytes → Handler rs.State
  unfolding release_read app_config_key unreleased_key
  release_namespace app_id group namespace username now s =
      release_read app_id group namespace username now
        (rs.get (app_config_key app_id group namespace) s)
        (rs.get (unreleased_key app_id group namespace) s) s
