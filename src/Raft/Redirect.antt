-- ===== src/Raft/Redirect.antt =====
-- store/raft/redirect.go: a node that does not lead sends the request to the leader's HTTP port,
-- which is 1000 below its raft port.
use micro_conf.Text.Split.{split}
use micro_conf.Text.Fold.{equal_fold}
use micro_conf.Text.Decimal.{atoi, format_int, negsuc, pos, ℤ}
use micro_conf.Base.Outcome.{Result, err, message, ok}
use micro_conf.Base.{List, [], if◌then◌else◌, ltb, none, null, some, ◌++◌, ◌+◌, ◌-◌, ◌^◌, ◌∷◌}
use micro_conf.Text.Bytes.{codes, Bytes}

-- What jsoniter reads in a reply: no object, one without a code or with null, one whose code is a
-- text, and one whose code is something else.
pub data Body : Type 0 where
  no_json : Body
  no_code : Body
  code_text : Bytes → Body
  code_other : Body

-- An int of 64 bits less 1000.
unfoldable pub minus_thousand : ℤ → ℤ
minus_thousand (pos n) = if ltb n 1000 then negsuc (999 - n) else pos (n - 1000)
minus_thousand (negsuc n) =
    if ltb (n + 1000) (2 ^ 63) then negsuc (n + 1000) else pos (2 ^ 64 - (n + 1001))

unfoldable pub address_of : List Bytes → Result Bytes
unfolding minus_thousand
address_of (host ∷ port ∷ []) = elim (atoi port) [
  | none ↦ err (message "invalid syntax")
  | some p ↦ ok (codes "http://" ++ (host ++ (codes ":" ++ format_int (minus_thousand p))))
]
address_of _ = err (message "wrong leader addr")

unfoldable pub get_leader_addr : Bytes → Result Bytes
unfolding address_of
get_leader_addr addr =
    if null addr then err (message "wrong leader addr") else address_of (split b':' addr)

-- requestRemote behind the request. A reply that is no JSON returns the request's error, which is
-- nil there.
unfoldable pub read_reply : Result Body → Result (Unit {0})
read_reply (err e) = err e
read_reply (ok no_json) = ok tt
read_reply (ok no_code) = err (message "redirect to leader request error")
read_reply (ok (code_text c)) =
    if equal_fold c (codes "0") then ok tt else err (message "redirect to leader request error")
read_reply (ok code_other) = err (message "redirect to leader request error")
