-- ===== src/App/Service.antt =====
-- service/app/service.go: the instances of a service, read back from their keys.
pub mod RoundTrip
use micro_conf.Text.Index.{index}
use micro_conf.Text.Decimal.{atoi, ℤ}
use micro_conf.Store.{RaftStore}
use micro_conf.Dict.{Dict, lookup}
use micro_conf.Base.Outcome.{Result, bind, err, ok, panic}
use micro_conf.Base.{
  List, Option, [], drop, if◌then◌else◌, leb, length, ltb, none, null, some, take, ℕ, ◌&&◌, ◌++◌,
  ◌+◌, ◌-◌, ◌==◌, ◌∷◌,
}
use micro_conf.App.Instances.{meta_key, positive}
use micro_conf.Text.Bytes.{codes, Bytes}

pub record Instance : Type 0 where
  pub app : Bytes
  pub group : Bytes
  pub ip : Bytes
  pub port : ℤ

-- s[a:b], which panics unless a ≤ b ≤ len(s).
unfoldable pub slice : ℕ → ℕ → Bytes → Result Bytes
slice a b s = if leb a b && leb b (length s) then ok (take (b - a) (drop a s)) else err panic

unfoldable pub with_port : Bytes → Bytes → Bytes → Option ℤ → Option Instance
unfolding positive
with_port app group ip none = none
with_port app group ip (some port) =
    if positive port then some (record { app = app; group = group; ip = ip; port = port }) else none

-- The part of extractAppInfo behind the prefix.
unfoldable pub extract_rest : Bytes → Result (Option Instance)
unfolding slice with_port
extract_rest key = elim (index b'.' key) [
  | none ↦ ok none
  | some app_idx ↦
      let behind = drop (app_idx + 1) key in
      if app_idx == 0 then ok none else elim (index b'.' behind) [
        | none ↦ ok none
        | some group_idx ↦ if group_idx == 0 then ok none else elim (index b':' key) [
          | none ↦ ok none
          | some ip_idx ↦ bind (slice (app_idx + 2 + group_idx) ip_idx key) (λ ip.
              if null ip
              then ok none
              else ok (
                  with_port (take app_idx key) (take group_idx behind) ip
                    (atoi (drop (ip_idx + 1) key))))
        ]
      ]
]

-- extractAppInfo: 18 is appPartStartIdx.
unfoldable pub extract_app_info : Bytes → Result (Option Instance)
unfolding extract_rest
extract_app_info key = if ltb (length key) 18 then ok none else extract_rest (drop 18 key)

pub record ServiceInfo : Type 0 where
  pub app : Bytes
  pub group : Bytes
  pub ip : Bytes
  pub port : ℤ
  pub state : Bytes
  pub meta : List (Bytes × Bytes)

-- The metadata of an instance: empty if there is none, or if it cannot be read.
unfoldable pub meta_of :
    (Bytes → Option (List (Bytes × Bytes))) → Option Bytes → List (Bytes × Bytes)
meta_of unmarshal none = []
meta_of unmarshal (some v) = elim (unmarshal v) [ none ↦ [] | some m ↦ m ]

-- The loop of ServiceInfos over the states.
unfoldable pub services_of :
    (Bytes → Option (List (Bytes × Bytes)))
    → Bytes
    → Bytes
    → Dict Bytes
    → Dict Bytes
    → Result (List ServiceInfo)
unfolding extract_app_info meta_of meta_key
services_of unmarshal app group metas [] = ok []
services_of unmarshal app group metas ((k, v) ∷ states) =
    let rest = services_of unmarshal app group metas states in
    bind (extract_app_info k) (λ found. elim found [
      | none ↦ rest
      | some i ↦
          let svc : ServiceInfo = record {
            app = app;
            group = group;
            ip = i.ip;
            port = i.port;
            state = v;
            meta = meta_of unmarshal (lookup (meta_key app group i.ip i.port) metas);
          } in
          bind rest (λ svcs. ok (svc ∷ svcs))
    ])

-- ServiceInfos
unfoldable pub service_infos :
    (rs : RaftStore)
    → (Bytes → Option (List (Bytes × Bytes)))
    → Bytes
    → Bytes
    → rs.State
    → Result (List ServiceInfo)
unfolding services_of
service_infos rs unmarshal app group s =
    services_of unmarshal app group
      (rs.scan_kvs (codes "app.instance.meta." ++ (app ++ (codes "." ++ (group ++ codes ".")))) s)
      (rs.scan_kvs (codes "app.instance.info." ++ (app ++ (codes "." ++ (group ++ codes ".")))) s)
