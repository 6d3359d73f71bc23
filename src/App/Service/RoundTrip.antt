-- ===== src/App/Service/RoundTrip.antt =====
-- An instance is found again in the key that it registers under.
use micro_conf.Text.Index.{index, index-append}
use micro_conf.Text.Decimal.{atoi-format_int, max_int, pos, format_int, ℤ}
use micro_conf.Text.Bytes.{codes, Lacks, Bytes}
use micro_conf.Base.Outcome.{ok}
use micro_conf.Base.{
  ap, take, length-append, some, suc, take-append, ◌≤◌, [], append_assoc, arith, drop, false,
  length, null, refl, sym, ℕ, ◌++◌, ◌+◌, ◌==◌, ◌∙◌, ◌∷◌, ◌≡◌, ◌≢◌,
}
use micro_conf.App.Service.{extract_rest, with_port, extract_app_info, slice}
use micro_conf.App.Instances.{at_port, dotted, inst_key}

drop-past : (c : ℕ) (p s : Bytes) → drop (length p + 1) (p ++ c ∷ s) ≡ s
drop-past c [] s = refl
drop-past c (x ∷ p) s = ground (arith, drop-past c p s)

length-positive : (s : Bytes) → s ≢ [] → (length s == 0) ≡ false
length-positive [] h = absurd (h refl)
length-positive (x ∷ s) h = ground arith

null-ne : (s : Bytes) → s ≢ [] → null s ≡ false
null-ne [] h = absurd (h refl)
null-ne (x ∷ s) h = refl

slice-between :
    (c d : ℕ) (p m s : Bytes)
    → slice (length p + 1) (length (p ++ c ∷ m)) (p ++ c ∷ (m ++ d ∷ s)) ≡ ok m
unfolding slice
slice-between c d p m s = ground (
  arith,
  length-append p (c ∷ m),
  length-append p (c ∷ (m ++ d ∷ s)),
  length-append m (d ∷ s),
  drop-past c p (m ++ d ∷ s),
  take-append m (d ∷ s),
)

module _ (app group ip : Bytes) (port : ℤ) where
  abbrev front : Bytes
  front = app ++ b'.' ∷ group

  abbrev host : Bytes
  host = front ++ b'.' ∷ ip

  abbrev rest : Bytes
  rest = dotted app group (at_port ip port)

  rest-front : rest ≡ front ++ b'.' ∷ at_port ip port
  unfolding dotted
  rest-front = sym (append_assoc app (b'.' ∷ group) (b'.' ∷ at_port ip port))

  rest-host : rest ≡ host ++ b':' ∷ format_int port
  unfolding at_port
  rest-host = rest-front ∙ sym (append_assoc front (b'.' ∷ ip) (b':' ∷ format_int port))

  slice-ip : slice (length app + 2 + length group) (length host) rest ≡ ok ip
  unfolding dotted at_port
  slice-ip = rw (front_length, rest-front) (slice-between b'.' b':' front ip (format_int port))
    where
      front_length : length app + 2 + length group ≡ length front + 1
      front_length = ground (arith, length-append app (b'.' ∷ group))

  behind_app : drop (length app + 1) rest ≡ group ++ b'.' ∷ at_port ip port
  unfolding dotted
  behind_app = drop-past b'.' app (group ++ b'.' ∷ at_port ip port)

  behind_host : drop (length host + 1) rest ≡ format_int port
  behind_host = ap (drop (length host + 1)) rest-host ∙ drop-past b':' host (format_int port)

  take_app : take (length app) rest ≡ app
  unfolding dotted
  take_app = take-append app (b'.' ∷ (group ++ b'.' ∷ at_port ip port))

  index-app : Lacks b'.' app → index b'.' rest ≡ some (length app)
  unfolding dotted
  index-app h = index-append b'.' app (group ++ b'.' ∷ at_port ip port) h

  index-host : Lacks b':' host → index b':' rest ≡ some (length host)
  index-host h = ap (index b':') rest-host ∙ index-append b':' host (format_int port) h

  extract_rest-rest :
      (n : ℕ)
      → port ≡ pos (suc n)
      → suc n ≤ max_int
      → app ≢ []
      → group ≢ []
      → ip ≢ []
      → Lacks b'.' app
      → Lacks b'.' group
      → Lacks b':' host
      → extract_rest rest ≡ ok (some (record { app = app; group = group; ip = ip; port = port }))
  unfolding extract_rest with_port
  extract_rest-rest n is_pos fits ha hg hi da dg dh =
      rw
        (
          index-app da,
          behind_app,
          length-positive app ha,
          index-append b'.' group (at_port ip port) dg,
          length-positive group hg,
          index-host dh,
          slice-ip,
          null-ne ip hi,
          take_app,
          behind_app,
          take-append group (b'.' ∷ at_port ip port),
          behind_host,
          is_pos,
          atoi-format_int (pos (suc n)) fits,
          extract_rest,
        )
        (ground arith)

  -- No part is empty, the application and the group have no dot, nothing in front of the port has a
  -- colon, and the port is positive and an int: then the instance is found in its key as it
  -- registered.
  pub extract_app_info-inst_key :
      (n : ℕ)
      → port ≡ pos (suc n)
      → suc n ≤ max_int
      → app ≢ []
      → group ≢ []
      → ip ≢ []
      → Lacks b'.' app
      → Lacks b'.' group
      → Lacks b':' host
      → extract_app_info (inst_key app group ip port)
        ≡ ok (some (record { app = app; group = group; ip = ip; port = port }))
  unfolding extract_app_info inst_key
  extract_app_info-inst_key n is_pos fits ha hg hi da dg dh =
      long_enough ∙ extract_rest-rest n is_pos fits ha hg hi da dg dh
    where
      long_enough : extract_app_info (inst_key app group ip port) ≡ extract_rest rest
      long_enough = ground (arith, length-append (codes "app.instance.info.") rest)
