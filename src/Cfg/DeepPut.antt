-- ===== src/Cfg/DeepPut.antt =====
-- deepPut of service/cfg/codec.go: a value under a key of a map that may hold one already.
use micro_conf.Text.Bytes.{Bytes, same}
use micro_conf.Cfg.Codec.{Fields, Value, end, field, nil_value, scalar, seq, text, tree}
use micro_conf.Base.Outcome.{Result, bind, err, ok, panic}
use micro_conf.Base.{Option, if◌then◌else◌, none, some}

unfoldable pub field_of : Bytes → Fields → Option Value
field_of key end = none
field_of key (field k v fs) = if same k key then some v else field_of key fs

unfoldable pub set_field : Bytes → Value → Fields → Fields
set_field key value end = field key value end
set_field key value (field k v fs) =
    if same k key then field k value fs else field k v (set_field key value fs)

-- A value that is no map does not replace one that is there.
unfoldable pub put_missing : Fields → Bytes → Value → Result Fields
unfolding field_of set_field
put_missing m key value = elim (field_of key m) [
  | none ↦ ok (set_field key value m)
  | some v ↦ ok m
]

-- The map of a type assertion, a panic for what is no map.
unfoldable pub as_map : Value → Result Fields
as_map nil_value = err panic
as_map (text t) = err panic
as_map (scalar t) = err panic
as_map (seq xs) = err panic
as_map (tree fs) = ok fs

-- deepPut; the kind of a nil value is a panic where the key is there.
unfoldable mutual
  unfolding field_of set_field put_missing as_map

  pub deep_put : Fields → Bytes → Value → Result Fields
  deep_put m key nil_value = elim (field_of key m) [
    | none ↦ ok (set_field key nil_value m)
    | some v ↦ err panic
  ]
  deep_put m key (text t) = put_missing m key (text t)
  deep_put m key (scalar t) = put_missing m key (scalar t)
  deep_put m key (seq xs) = put_missing m key (seq xs)
  deep_put m key (tree fs) = elim (field_of key m) [
    | none ↦ ok (set_field key (tree fs) m)
    | some v ↦
        bind (as_map v)
          (λ left. bind (put_fields left fs) (λ merged. ok (set_field key (tree merged) m)))
  ]

  pub put_fields : Fields → Fields → Result Fields
  put_fields left end = ok left
  put_fields left (field k v fs) = bind (deep_put left k v) (λ next_map. put_fields next_map fs)
