-- ===== src/Cfg/Push/Wait.antt =====
-- How long doPush waits for a client that is not connected.
use micro_conf.Text.Bytes.{Bytes}
use micro_conf.Dict.{Dict}
use micro_conf.Conn.Clients.{get_client}
use micro_conf.Cfg.Push.{find_client, reconnect_time, wait_client}
use micro_conf.Base.{
  Bool, false, inl, inr, refl, true, ◌==◌, ◌⊎◌, Option, ap, arith, none, some, suc, zero, ◌+◌, ◌<◌,
  ◌∙◌, ◌≡◌, ◌≤◌, ℕ,
}

module _ {Client : Type 0} (registry : ℕ → Dict Client) (key : Bytes) where
  abbrev seen : ℕ → Option Client
  seen t = get_client key (registry t)

  -- The client is absent in the seconds from one on, for a while.
  abbrev pub Absent : ℕ → ℕ → Type 0
  Absent now n = (m : ℕ) → m < n → get_client key (registry (now + m)) ≡ none

  -- What a look gives, and what follows where it gives nothing.
  abbrev look : ℕ → ℕ × Option Client → Option Client → ℕ × Option Client
  look now later o = elim o [ some c ↦ (now, some c) | none ↦ later ]

  Absent-suc : (now n : ℕ) → Absent now (suc n) → Absent (suc now) n
  Absent-suc now n a m h = ap seen (omega arith) ∙ a (suc m) (omega (arith, h))

  not_yet : (now n : ℕ) → Absent now (suc n) → seen now ≡ none
  not_yet now n a = ap seen (omega arith) ∙ a 0 (omega arith)

  wait_client-present :
      (left n now : ℕ) (c : Client)
      → n < left
      → Absent (suc now) n
      → seen (suc now + n) ≡ some c
      → wait_client registry left key now ≡ (suc now + n, some c)
  unfolding wait_client
  wait_client-present zero n now c h a f = absurd (omega (arith, h))
  wait_client-present (suc left) zero now c h a f =
      ap (look (suc now) (wait_client registry left key (suc now))) (ap seen (omega arith) ∙ f)
      ∙ ap (λ t. (t, some c)) (omega arith)
  wait_client-present (suc left) (suc n) now c h a f =
      ap (look (suc now) (wait_client registry left key (suc now))) (not_yet (suc now) n a)
      ∙ wait_client-present left n (suc now) c (omega (arith, h)) (Absent-suc (suc now) n a)
          (ap seen (omega arith) ∙ f)
      ∙ ap (λ t. (t, some c)) (omega arith)

  wait_client-missing :
      (left now : ℕ)
      → Absent (suc now) left
      → wait_client registry left key now ≡ (now + left, none)
  unfolding wait_client
  wait_client-missing zero now a = ap (λ t. (t, none)) (omega arith)
  wait_client-missing (suc left) now a =
      ap (look (suc now) (wait_client registry left key (suc now))) (not_yet (suc now) left a)
      ∙ wait_client-missing left (suc now) (Absent-suc (suc now) left a)
      ∙ ap (λ t. (t, none)) (omega arith)

  find_client-present :
      (n now : ℕ) (c : Client)
      → n ≤ reconnect_time
      → Absent now n
      → seen (now + n) ≡ some c
      → find_client registry key now ≡ (now + n, some c)
  unfolding find_client
  find_client-present zero now c h a f =
      ap (look now (wait_client registry reconnect_time key now)) (ap seen (omega arith) ∙ f)
      ∙ ap (λ t. (t, some c)) (omega arith)
  find_client-present (suc n) now c h a f =
      ap (look now (wait_client registry reconnect_time key now)) (not_yet now n a)
      ∙ wait_client-present reconnect_time n now c (omega (arith, h)) (Absent-suc now n a)
          (ap seen (omega arith) ∙ f)
      ∙ ap (λ t. (t, some c)) (omega arith)

  find_client-missing :
      (now : ℕ)
      → Absent now (suc reconnect_time)
      → find_client registry key now ≡ (now + reconnect_time, none)
  unfolding find_client
  find_client-missing now a =
      ap (look now (wait_client registry reconnect_time key now)) (not_yet now reconnect_time a)
      ∙ wait_client-missing reconnect_time now (Absent-suc now reconnect_time a)

  -- The first second of a while in which the client is connected.
  abbrev First : ℕ → ℕ → Type 0
  First now len =
      (n : ℕ) × (c : Client) × (n < len)
      × Absent now n
      × (get_client key (registry (now + n)) ≡ some c)

  Absent-snoc : (now n : ℕ) → Absent now n → seen (now + n) ≡ none → Absent now (suc n)
  Absent-snoc now n a e m h = go (m == n) refl
    where
      go : (b : Bool) → (m == n) ≡ b → seen (now + m) ≡ none
      go true q = ap (λ t. seen (now + t)) (ground arith) ∙ e
      go false q = a m (ground arith)

  earliest : (now len : ℕ) → First now len ⊎ Absent now len
  earliest now zero = inr (λ m h. absurd (omega (arith, h)))
  earliest now (suc len) = go (earliest now len) (seen (now + len)) refl
    where
      go :
          First now len ⊎ Absent now len
          → (o : Option Client) → seen (now + len) ≡ o
          → First now (suc len) ⊎ Absent now (suc len)
      go (inl (n, c, h, a, f)) o e = inl (n, c, omega (arith, h), a, f)
      go (inr a) (some c) e = inl (len, c, omega arith, a, e)
      go (inr a) none e = inr (Absent-snoc now len a e)

  -- The wait for a client ends in the first second, of those up to half a minute later, in which
  -- the client is connected, with the client; or the client is connected in none of them, and the
  -- wait ends after half a minute with nobody.
  pub find_client-bounds :
      (now : ℕ)
      → ((n : ℕ) × (c : Client) × (n ≤ reconnect_time)
          × Absent now n
          × (get_client key (registry (now + n)) ≡ some c)
          × (find_client registry key now ≡ (now + n, some c)))
        ⊎ (Absent now (suc reconnect_time)
            × (find_client registry key now ≡ (now + reconnect_time, none)))
  find_client-bounds now = go (earliest now (suc reconnect_time))
    where
      go :
          First now (suc reconnect_time) ⊎ Absent now (suc reconnect_time)
          → ((n : ℕ) × (c : Client) × (n ≤ reconnect_time)
              × Absent now n
              × (get_client key (registry (now + n)) ≡ some c)
              × (find_client registry key now ≡ (now + n, some c)))
            ⊎ (Absent now (suc reconnect_time)
                × (find_client registry key now ≡ (now + reconnect_time, none)))
      go (inl (n, c, h, a, f)) =
          inl (n, c, omega (arith, h), a, f, find_client-present n now c (omega (arith, h)) a f)
      go (inr a) = inr (a, find_client-missing now a)
