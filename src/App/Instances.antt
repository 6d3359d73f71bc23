-- ===== src/App/Instances.antt =====
-- service/app/reg.go and the key patterns of service/app/def.go: running instances register under
-- keys that expire.
use micro_conf.Text.Split.{split}
use micro_conf.Text.Decimal.{format_int, negsuc, pos, ℤ}
use micro_conf.Store.{RaftStore}
use micro_conf.Json.{Json}
use micro_conf.Commons.{Str}
use micro_conf.Base.Outcome.{Call, Result, after, err, message, ok}
use micro_conf.Base.{
  Bool, List, [], false, if◌then◌else◌, length, ltb, map, not, null, ◌++◌, ◌||◌, ◌∷◌,
}
use micro_conf.App.Info.{AppInfo, find_app, name_pattern}
use micro_conf.Text.Bytes.{codes, Bytes}

-- host:port behind a text
unfoldable pub at_port : Bytes → ℤ → Bytes
at_port ip port = ip ++ (codes ":" ++ format_int port)

-- app.group.rest
unfoldable pub dotted : Bytes → Bytes → Bytes → Bytes
dotted app_id group rest = app_id ++ (codes "." ++ (group ++ (codes "." ++ rest)))

-- MetaPattern
unfoldable pub meta_key : Bytes → Bytes → Bytes → ℤ → Bytes
unfolding at_port dotted
meta_key app_id group ip port = codes "app.instance.meta." ++ dotted app_id group (at_port ip port)

-- InstPattern
unfoldable pub inst_key : Bytes → Bytes → Bytes → ℤ → Bytes
unfolding at_port dotted
inst_key app_id group ip port = codes "app.instance.info." ++ dotted app_id group (at_port ip port)

-- NamespacePattern
unfoldable pub namespace_key : Bytes → Bytes → Bytes → Bytes → ℤ → Bytes
unfolding at_port dotted
namespace_key app_id group namespace ip port =
    codes "app.ns." ++ dotted app_id group (namespace ++ (codes "." ++ at_port ip port))

abbrev pub state_up : Bytes
state_up = codes "UP"

abbrev pub state_disabled : Bytes
state_disabled = codes "DISABLED"

-- A day and half a minute in nanoseconds.
abbrev pub meta_expire : ℤ
meta_expire = pos 86400000000000

abbrev pub instance_expire : ℤ
instance_expire = pos 30000000000

pub record InstanceInfo : Type 0 where
  pub app_id : Bytes
  pub group : Bytes
  pub ip : Bytes
  pub port : ℤ
  pub meta : List (Bytes × Bytes)
  pub state : Bytes
  pub namespaces : List Bytes

unfoldable pub positive : ℤ → Bool
positive (pos n) = ltb 0 n
positive (negsuc n) = false

-- MetaString, on the encoder of a map.
unfoldable pub meta_string : (List (Bytes × Bytes) → Bytes) → List (Bytes × Bytes) → Bytes
meta_string marshal [] = []
meta_string marshal (p ∷ ps) = marshal (p ∷ ps)

-- NSKeys
unfoldable pub ns_keys : InstanceInfo → List Bytes
unfolding namespace_key
ns_keys a = map (λ v. namespace_key a.app_id a.group v a.ip a.port) a.namespaces

module _ (rs : RaftStore) (str : Str) (apps : Json AppInfo)
    (marshal : List (Bytes × Bytes) → Bytes) where
  -- (a *InstanceInfo) Valid()
  unfoldable pub instance_valid : InstanceInfo → rs.State → Result (Unit {0})
  unfolding positive
  instance_valid a s =
      if null a.app_id
      then err (message "appId is empty")
      else if null a.group
      then err (message "group is empty")
      else if not (name_pattern a.app_id) || not (name_pattern a.group)
      then err (message "appId or group invalid")
      else if ltb (length a.ip) 7
      then err (message "ip illegal")
      else if not (positive a.port)
      then err (message "port illegal")
      else if null a.state
      then err (message "state illegal")
      else elim (find_app rs apps a.app_id s) [
        | err e ↦ err (message "app doesn't exist")
        | ok app ↦
            if str.contains (split b',' app.groups) a.group
            then ok tt
            else err (message "group doesn't exist")
      ]

  -- The loop over the namespaces: a failure is only logged.
  unfoldable pub set_all : List Bytes → ℤ → rs.State → rs.State
  set_all [] timeout s = s
  set_all (k ∷ ks) timeout s = set_all ks timeout (rs.set k state_up timeout s).0

  -- regApp
  unfoldable pub reg_app : InstanceInfo → Call rs.State (Unit {0})
  unfolding instance_valid set_all ns_keys meta_string meta_key inst_key
  reg_app a s = elim (instance_valid a s) [
    | err e ↦ (s, err e)
    | ok _ ↦
        after
          (rs.set (meta_key a.app_id a.group a.ip a.port) (meta_string marshal a.meta) meta_expire
            s)
          (λ t _.
            rs.set (inst_key a.app_id a.group a.ip a.port) a.state instance_expire
              (set_all (ns_keys a) instance_expire t))
  ]
