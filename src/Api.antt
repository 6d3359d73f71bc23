-- ===== src/Api.antt =====
-- The package api: the signature of a request, and RequireToken of service/app/permission.go, which
-- checks it with the token of the application.
pub mod Token
pub mod Sorted
pub mod Sender
use micro_conf.Text.Order.{less}
use micro_conf.Text.Fold.{equal_fold}
use micro_conf.Text.Decimal.{atoi, negsuc, pos, ℤ}
use micro_conf.Store.{RaftStore}
use micro_conf.Json.{Json}
use micro_conf.Http.{Gate, bad_request, next, server_error, stop, unauthorized}
use micro_conf.Dict.{Dict, lookup}
use micro_conf.Base.Outcome.{Result, bind, err, message, ok}
use micro_conf.Base.{
  Bool, List, Option, [], false, if◌then◌else◌, leb, ltb, none, null, some, true, ℕ, ◌&&◌, ◌++◌,
  ◌+◌, ◌-◌, ◌==◌, ◌^◌, ◌||◌, ◌∷◌,
}
use micro_conf.App.Info.{AppInfo, find_app}
use micro_conf.Text.Bytes.{codes, Bytes}

pub record KvPair : Type 0 where
  pub key : Bytes
  pub value : Bytes

unfoldable pub insert_pair : KvPair → List KvPair → List KvPair
unfolding less
insert_pair p [] = p ∷ []
insert_pair p (q ∷ ps) =
    let rest = insert_pair p ps in if less q.key p.key then q ∷ rest else p ∷ q ∷ ps

-- sort.Sort by key; the keys of the pairs that are sorted here are distinct.
unfoldable pub sort_pairs : List KvPair → List KvPair
unfolding insert_pair
sort_pairs [] = []
sort_pairs (p ∷ ps) = insert_pair p (sort_pairs ps)

unfoldable pub print_pairs : List KvPair → Bytes
print_pairs [] = []
print_pairs (v ∷ ps) = v.key ++ (codes "=" ++ (v.value ++ (codes "&" ++ print_pairs ps)))

-- buildParams
unfoldable pub build_params : List KvPair → Bytes
unfolding sort_pairs print_pairs
build_params params = print_pairs (sort_pairs params)

unfoldable pub concat_values : List Bytes → Bytes
concat_values [] = []
concat_values (e ∷ v) = e ++ concat_values v

-- getPairsFromMap
unfoldable pub get_pairs_from_map : Dict (List Bytes) → List KvPair
unfolding concat_values
get_pairs_from_map [] = []
get_pairs_from_map ((k, v) ∷ m) =
    let rest = get_pairs_from_map m in
    if null k || equal_fold k (codes "sign")
    then rest
    else record { key = k; value = concat_values v } ∷ rest

-- getParamFromRequest: the first value of a parameter, the empty text if there is none.
unfoldable pub first_value : Option (List Bytes) → Bytes
first_value none = []
first_value (some []) = []
first_value (some (v ∷ vs)) = v

unfoldable pub get_param : Dict (List Bytes) → Bytes → Bytes
unfolding first_value
get_param query param = first_value (lookup param query)

-- The absolute value of the difference of two int64, which wraps around, to the present time.
unfoldable pub distance : ℤ → ℕ → ℕ
distance (pos r) now = if leb now r then r - now else now - r
distance (negsuc r) now = let d = r + 1 + now in if leb d (2 ^ 63) then d else 2 ^ 64 - d

-- CheckValid, while SignHeader is off; `sign_of` is Sign, on SHA-256.
unfoldable pub check_time : ℕ → Option ℤ → Result (Unit {0})
unfolding distance
check_time now none = err (message "error parameter")
check_time now (some rt) =
    if ltb 60000 (distance rt now) then err (message "error timestamp") else ok tt

unfoldable pub check_valid : (Bytes → Bytes) → ℕ → Bytes → Dict (List Bytes) → Result (Unit {0})
unfolding check_time get_param get_pairs_from_map build_params
check_valid sha256 now secret query =
    bind (check_time now (atoi (get_param query (codes "time")))) (λ _.
      if equal_fold (sha256 (build_params (get_pairs_from_map query) ++ secret))
        (get_param query (codes "sign"))
      then ok tt
      else err (message "error verifying"))

-- The reply to a check.
unfoldable pub gate_of : Result (Unit {0}) → Gate
gate_of (ok a) = next
gate_of (err e) = stop unauthorized

-- RequireToken
unfoldable pub require_token :
    (rs : RaftStore) → Json AppInfo → (Bytes → Bytes) → ℕ → Dict (List Bytes) → rs.State → Gate
unfolding get_param check_valid gate_of
require_token rs apps sha256 now query s =
    let id = get_param query (codes "app") in
    if null id then stop bad_request else elim (find_app rs apps id s) [
      | err e ↦ stop (server_error e)
      | ok info ↦ gate_of (check_valid sha256 now info.token query)
    ]
