-- ===== src/Raft/Address.antt =====
-- Where a follower finds its leader, and which replies it takes for a success.
use micro_conf.Text.Split.{split, split-append, split_single}
use micro_conf.Text.Fold.{equal_fold}
use micro_conf.Text.Decimal.{
  IsDigit-colon, atoi-format_int, format_int-Lacks, ℤ, format_int, max_int, pos,
}
use micro_conf.Raft.Redirect.{
  address_of, code_other, no_code, Body, code_text, get_leader_addr, minus_thousand, no_json,
  read_reply,
}
use micro_conf.Base.Outcome.{err, Result, ok}
use micro_conf.Base.{
  Bool-cases, [], ap, false, inl, inr, null, refl, ◌∙◌, arith, true, ℕ, ◌++◌, ◌+◌, ◌↔◌, ◌∷◌, ◌≡◌,
  ◌≤◌, ◌⊎◌,
}
use micro_conf.Text.Bytes.{Lacks, codes, Bytes}

null-colon : (s t : Bytes) → null (s ++ b':' ∷ t) ≡ false
null-colon [] t = refl
null-colon (c ∷ s) t = refl

split-address :
    (host : Bytes) (z : ℤ)
    → Lacks b':' host
    → split b':' (host ++ b':' ∷ format_int z) ≡ host ∷ format_int z ∷ []
split-address host z hl =
    split-append b':' host (format_int z) hl
    ∙ ap (λ r. host ∷ r)
        (split_single b':' (format_int z) (format_int-Lacks b':' z IsDigit-colon (omega arith)))

minus_thousand-pos : (n : ℕ) → minus_thousand (pos (1000 + n)) ≡ pos n
unfolding minus_thousand
minus_thousand-pos n = ground arith

-- The address of a leader whose raft port is an int of at least 1000 is its host with a port 1000
-- below, if the host has no colon.
pub get_leader_addr-format_int :
    (host : Bytes) (n : ℕ)
    → Lacks b':' host
    → 1000 + n ≤ max_int
    → get_leader_addr (host ++ b':' ∷ format_int (pos (1000 + n)))
      ≡ ok (codes "http://" ++ (host ++ (codes ":" ++ format_int (pos n))))
unfolding get_leader_addr address_of
get_leader_addr-format_int host n hl fits = rw (
  null-colon host (format_int (pos (1000 + n))),
  split-address host (pos (1000 + n)) hl,
  atoi-format_int (pos (1000 + n)) fits,
  minus_thousand-pos n,
  get_leader_addr,
  address_of,
)

-- A follower takes a reply for a success exactly when it is no JSON at all, or its code is "0".
pub read_reply_iff :
    (r : Result Body)
    → (read_reply r ≡ ok tt) ↔ (
        (r ≡ ok no_json)
        ⊎ ((c : Bytes) × (r ≡ ok (code_text c)) × (equal_fold c (codes "0") ≡ true)))
unfolding read_reply
read_reply_iff (err e) = ((λ h. cc h), λ h. elim h [ inl x ↦ cc x | inr (c, x, y) ↦ cc x ])
read_reply_iff (ok no_json) = ((λ h. inl refl), λ h. refl)
read_reply_iff (ok no_code) = ((λ h. cc h), λ h. elim h [ inl x ↦ cc x | inr (c, x, y) ↦ cc x ])
read_reply_iff (ok code_other) = ((λ h. cc h), λ h. elim h [ inl x ↦ cc x | inr (c, x, y) ↦ cc x ])
read_reply_iff (ok (code_text c)) = elim (Bool-cases (equal_fold c (codes "0"))) [
  | inl e ↦ (λ h. inr (c, refl, e), λ h. rw e)
  | inr e ↦ ((λ h. cc (rw e at h)), λ h. elim h [ inl x ↦ cc x | inr (d, x, y) ↦ cc ])
]
