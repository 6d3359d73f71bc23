-- ===== src/Json.antt =====
-- encoding/json at one type: what is written is read back.
use micro_conf.Base.{◌≡◌, Option, some}
use micro_conf.Text.Bytes.{Bytes}

pub record Json (A : Type 0) : Type 0 where
  pub marshal : A → Bytes
  pub unmarshal : Bytes → Option A
  pub unmarshal-marshal : (a : A) → unmarshal (marshal a) ≡ some a
