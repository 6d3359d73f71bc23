-- ===== src/Tests/Instances.antt =====
-- An instance of a service, its heartbeat, and a request of another node.
use micro_conf.Text.Decimal.{pos}
use micro_conf.Text.Bytes.{Bytes, Lacks, codes, has_prefix}
use micro_conf.Dict.{Dict}
use micro_conf.Conn.Heartbeat.Laws.{IsForeign, route_heartbeat-foreign}
use micro_conf.Conn.Heartbeat.{HeartBeat, route_heartbeat}
use micro_conf.Base.Outcome.{ok}
use micro_conf.Base.{All, List, [], arith, refl, some, true, ◌++◌, ◌∷◌, ◌≡◌}
use micro_conf.App.Service.RoundTrip.{extract_app_info-inst_key}
use micro_conf.App.Service.{extract_app_info}
use micro_conf.App.Instances.{inst_key}
use micro_conf.Samples.Memory.{memory, memory-IsRaftStore}

host-Dotted : Lacks b':' (codes "shop" ++ b'.' ∷ codes "default" ++ b'.' ∷ codes "10.0.0.7")
host-Dotted = omega arith

shop-Lacks : Lacks b'.' (codes "shop")
shop-Lacks = omega arith

default-Lacks : Lacks b'.' (codes "default")
default-Lacks = omega arith

extract_app_info-inst_key_example :
    extract_app_info (inst_key (codes "shop") (codes "default") (codes "10.0.0.7") (pos 8080))
    ≡ ok (
        some (record {
          app = codes "shop";
          group = codes "default";
          ip = codes "10.0.0.7";
          port = pos 8080;
        }))
extract_app_info-inst_key_example =
    extract_app_info-inst_key (codes "shop") (codes "default") (codes "10.0.0.7") (pos 8080) 8079
      refl (omega arith) (cc) (cc) (cc) shop-Lacks default-Lacks host-Dotted

names-Lacks : All (Lacks b'.') (codes "a" ∷ codes "g" ∷ codes "n" ∷ codes "yaml" ∷ [])
names-Lacks = omega arith

abbrev write_map : List (Bytes × Bytes) → Bytes
write_map ps = codes "{}"

abbrev beat : HeartBeat
beat = record {
  app_id = codes "shop";
  group = codes "default";
  ip = codes "10.0.0.7";
  port = pos 8080;
  enable_svc = true;
  enable_cfg = true;
  meta = [];
  namespaces = codes "a.g.n.yaml" ∷ codes "db.yaml" ∷ [];
  timeout = pos 0;
}

abbrev with_user : Dict Bytes
with_user = (codes "user.info.ann", codes "u") ∷ []

user-IsForeign : IsForeign (codes "user.info.ann")
unfolding has_prefix
user-IsForeign = (refl, refl)

route_heartbeat-foreign_example :
    memory.get (codes "user.info.ann") (route_heartbeat memory write_map beat with_user).0
    ≡ memory.get (codes "user.info.ann") with_user
route_heartbeat-foreign_example =
    route_heartbeat-foreign memory write_map memory-IsRaftStore (codes "user.info.ann")
      user-IsForeign beat with_user

a-Lacks : Lacks b'.' (codes "a")
a-Lacks = omega arith

yaml-Lacks : Lacks b'.' (codes "yaml")
yaml-Lacks = omega arith
