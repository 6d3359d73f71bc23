-- ===== src/App/UserApps/Frame.antt =====
-- The lists of applications lie under keys of their own.
use micro_conf.Text.Bytes.{Bytes}
use micro_conf.Store.{IsRaftStore, RaftStore, never}
use micro_conf.Commons.{Str}
use micro_conf.Base.Outcome.{Call, Result, after, err, message, not_found, ok, panic, ◌>>=◌}
use micro_conf.Base.{[], arith, refl, ◌++◌, ◌∙◌, ◌∷◌, ◌≡◌, ◌≢◌}
use micro_conf.App.UserApps.{
  add_app, add_app_at, append_app, remains, remove_app, remove_app_at, text_of,
}

module _ (rs : RaftStore) (laws : IsRaftStore rs) (lib : Str) (key id j : Bytes)
    (ne : key ≢ j) where
  -- What a call leaves under the key `j`.
  Keeps : Call rs.State (Unit {0}) → Type 0
  Keeps m = (s : rs.State) → rs.get j (m s).0 ≡ rs.get j s

  set-Keeps : (v : Bytes) → Keeps (rs.set key v never)
  unfolding Keeps
  set-Keeps v s = laws.get-set_ne key j v never s _ _ refl ne

  append_app-Keeps : (list : Bytes) → Keeps (append_app rs lib key list id)
  unfolding append_app Keeps
  append_app-Keeps list s = ground (arith, set-Keeps (lib.trim_comma (list ++ b',' ∷ id)) s)

  bind-Keeps :
      (m : Call rs.State (Unit {0})) (f : Unit {0} → Call rs.State (Unit {0}))
      → Keeps m
      → ((a : Unit {0}) → Keeps (f a))
      → Keeps (m >>= f)
  unfolding Keeps
  bind-Keeps m f km kf s = go (m s) (km s)
    where
      go :
          (p : rs.State × Result (Unit {0}))
          → rs.get j p.0 ≡ rs.get j s
          → rs.get j (after p (λ t a. f a t)).0 ≡ rs.get j s
      go (t, ok a) e = kf a t ∙ e
      go (t, err x) e = e

  add_app_at-Keeps : (read : Result Bytes) → Keeps (add_app_at rs lib key id read)
  unfolding add_app_at
  add_app_at-Keeps (ok list) = append_app-Keeps _
  add_app_at-Keeps (err not_found) =
      bind-Keeps (rs.set key id never) (λ _. append_app rs lib key [] id) (set-Keeps id)
        (λ _. append_app-Keeps [])
  add_app_at-Keeps (err panic) = append_app-Keeps _
  add_app_at-Keeps (err (message m)) = append_app-Keeps _

  pub add_app-Keeps : (s : rs.State) → rs.get j (add_app rs lib key id s).0 ≡ rs.get j s
  unfolding add_app Keeps
  add_app-Keeps s = add_app_at-Keeps (rs.get key s) s

  remove_app_at-Keeps : (read : Result Bytes) → Keeps (remove_app_at rs lib key id read)
  unfolding remove_app_at Keeps
  remove_app_at-Keeps (err not_found) s = refl
  remove_app_at-Keeps (ok list) s =
      ground (arith, set-Keeps (lib.join_comma (remains (text_of (ok list)) id)) s)
  remove_app_at-Keeps (err panic) s =
      ground (arith, set-Keeps (lib.join_comma (remains (text_of (err panic)) id)) s)
  remove_app_at-Keeps (err (message m)) s =
      ground (arith, set-Keeps (lib.join_comma (remains (text_of (err (message m))) id)) s)

  pub remove_app-Keeps : (s : rs.State) → rs.get j (remove_app rs lib key id s).0 ≡ rs.get j s
  unfolding remove_app Keeps
  remove_app-Keeps s = remove_app_at-Keeps (rs.get key s) s
