-- ===== src/Conn/Sockets/Registered.antt =====
-- Which clients the registry names.
use micro_conf.Dict.{lookup-remove, lookup, lookup-insert}
use micro_conf.Text.Bytes.{same_iff, eq_of_same, same, Bytes}
use micro_conf.Conn.Sockets.{
  close_channel, fresh_client, leave_registry, mark_closed, pull_from, taken, pull, Pulled, marking,
  shutting, unregistering, Reach, Step, deliver, onward, serve, serve_ws, fresh_node, queue_size,
  Client, Node, get_elem?, join_client, modify, send,
}
use micro_conf.Conn.Clients.{unregister_client, get_client, register_client}
use micro_conf.Base.{
  Bool-cases, inl, inr, ap, Bool, Option, ltb, none, sym, true, ◌∙◌, List, [], arith, false,
  if◌then◌else◌, length, refl, some, suc, zero, ◌++◌, ◌<◌, ◌==◌, ◌∷◌, ◌≡◌, ◌≢◌, ℕ,
}

module _ {A : Type 0} where
  pub get_elem?-snoc :
      (xs : List A) (x : A) (n : ℕ)
      → get_elem? (xs ++ x ∷ []) n ≡ (if n == length xs then some x else get_elem? xs n)
  get_elem?-snoc [] x zero = refl
  get_elem?-snoc [] x (suc n) = ground arith
  get_elem?-snoc (y ∷ xs) x zero = ground arith
  get_elem?-snoc (y ∷ xs) x (suc n) = ground (arith, get_elem?-snoc xs x n)

  pub get_elem?-modify_ne :
      (f : A → A) (xs : List A) (i n : ℕ) → i ≢ n → get_elem? (modify f xs i) n ≡ get_elem? xs n
  get_elem?-modify_ne f [] i n h = refl
  get_elem?-modify_ne f (x ∷ xs) zero zero h = absurd (h refl)
  get_elem?-modify_ne f (x ∷ xs) zero (suc n) h = refl
  get_elem?-modify_ne f (x ∷ xs) (suc i) zero h = refl
  get_elem?-modify_ne f (x ∷ xs) (suc i) (suc n) h = get_elem?-modify_ne f xs i n (omega (arith, h))

  pub get_elem?-modify_self :
      (f : A → A) (xs : List A) (i : ℕ) (x : A)
      → get_elem? xs i ≡ some x
      → get_elem? (modify f xs i) i ≡ some (f x)
  get_elem?-modify_self f [] i x h = absurd (cc h)
  get_elem?-modify_self f (y ∷ xs) zero x h = cc h
  get_elem?-modify_self f (y ∷ xs) (suc i) x h = get_elem?-modify_self f xs i x h

  pub get_elem?-length : (xs : List A) (x : A) (i : ℕ) → get_elem? xs i ≡ some x → i < length xs
  get_elem?-length [] x i h = absurd (cc h)
  get_elem?-length (y ∷ xs) x zero h = omega arith
  get_elem?-length (y ∷ xs) x (suc i) h = omega (arith, get_elem?-length xs x i h)

-- Every client that the registry names was made under that key, and its Close has not come past
-- unregisterClient.
abbrev pub IsRegistry : Node → Type 0
IsRegistry n =
    (key : Bytes) (i : ℕ)
    → get_client key n.clients ≡ some i
    → (c : Client) × (get_elem? n.made i ≡ some c) × (c.key ≡ key) × (c.left ≡ false)

-- What IsRegistry says of one key.
abbrev Names : List Client → Bytes → ℕ → Type 0
Names made key i = (c : Client) × (get_elem? made i ≡ some c) × (c.key ≡ key) × (c.left ≡ false)

Names-snoc :
    (made : List Client) (d : Client) (key : Bytes) (i : ℕ)
    → Names made key i
    → Names (made ++ d ∷ []) key i
Names-snoc made d key i (c, e, k, o) =
    (c, ground (arith, get_elem?-snoc made d i, get_elem?-length made c i e), k, o)

join_client-IsRegistry : (key : Bytes) (n : Node) → IsRegistry n → IsRegistry (join_client key n)
unfolding join_client register_client get_client
join_client-IsRegistry key n h k i e =
    go (same key k) refl (sym (lookup-insert key k (length n.made) n.clients) ∙ e)
  where
    go :
        (b : Bool)
        → same key k ≡ b
        → (if b then some (length n.made) else lookup k n.clients) ≡ some i
        → Names (n.made ++ fresh_client key ∷ []) k i
    go true q g = (
      fresh_client key,
      get_elem?-snoc n.made (fresh_client key) i ∙ ground (arith, g),
      eq_of_same key k q,
      refl,
    )
    go false q g = Names-snoc n.made (fresh_client key) k i (h k i g)

send-keeps :
    (msg : Bytes) (c d : Client) → send msg c ≡ some d → (d.key ≡ c.key) × (d.left ≡ c.left)
unfolding send
send-keeps msg c d s = go c.shut (ltb (length c.queue) queue_size) s
  where
    go :
        (p q : Bool)
        → (if p
            then some c
            else if q
            then some (record c { queue = c.queue ++ msg ∷ [] })
            else none)
          ≡ some d
        → (d.key ≡ c.key) × (d.left ≡ c.left)
    go true q e = (cc e, cc e)
    go false true e = (cc e, cc e)
    go false false e = absurd (cc e)

pull_from-keeps :
    (p : Pulled) (c d : Client) (queue : List Bytes)
    → pull_from c queue ≡ some (p, d)
    → (d.key ≡ c.key) × (d.left ≡ c.left)
unfolding pull_from
pull_from-keeps p c d [] h = elim (Bool-cases c.shut) [
  | inl o ↦ let e = (rw o at h) in (cc e, cc e)
  | inr o ↦ absurd (cc (rw o at h))
]
pull_from-keeps p c d (msg ∷ queue) h = (cc h, cc h)

pull-keeps :
    (p : Pulled) (c d : Client) → pull c ≡ some (p, d) → (d.key ≡ c.key) × (d.left ≡ c.left)
unfolding pull
pull-keeps p c d h = pull_from-keeps p c d c.queue h

replaced-IsRegistry :
    (n : Node) (i : ℕ) (c d : Client)
    → get_elem? n.made i ≡ some c
    → (d.key ≡ c.key) × (d.left ≡ c.left)
    → IsRegistry n
    → IsRegistry (record n { made = modify (λ x. d) n.made i })
replaced-IsRegistry n i c d e (same_key, same_left) h k j g = go (i == j) refl (h k j g)
  where
    go : (b : Bool) → (i == j) ≡ b → Names n.made k j → Names (modify (λ x. d) n.made i) k j
    go true q (x, f, m, o) =
        let there = get_elem?-modify_self (λ y. d) n.made i c e in
        let at_j : i ≡ j = ground (arith, q) in
        let found : x ≡ c = cc (e, f, at_j) in
        (
          d,
          ap (get_elem? (modify (λ y. d) n.made i)) (sym at_j) ∙ there,
          same_key ∙ ap (λ y. y.key) (sym found) ∙ m,
          same_left ∙ ap (λ y. y.left) (sym found) ∙ o,
        )
    go false q (x, f, m, o) = (x, get_elem?-modify_ne (λ y. d) n.made i j (ground arith) ∙ f, m, o)

-- A step of Close that only writes to the client.
written-IsRegistry :
    (f : Client → Client) (i : ℕ) (n : Node)
    → ((c : Client) → ((f c).key ≡ c.key) × ((f c).left ≡ c.left))
    → IsRegistry n
    → IsRegistry (record n { made = modify f n.made i })
written-IsRegistry f i n same h k j g = go (i == j) refl (h k j g)
  where
    go : (b : Bool) → (i == j) ≡ b → Names n.made k j → Names (modify f n.made i) k j
    go true q (x, e, m, o) =
        let at_j : i ≡ j = ground (arith, q) in
        (
          f x,
          ap (get_elem? (modify f n.made i)) (sym at_j)
              ∙ get_elem?-modify_self f n.made i x (ap (get_elem? n.made) at_j ∙ e),
          (same x).0 ∙ m,
          (same x).1 ∙ o,
        )
    go false q (x, e, m, o) = (x, get_elem?-modify_ne f n.made i j (ground arith) ∙ e, m, o)

pub leave_registry-found :
    (i : ℕ) (c : Client) (m : Node)
    → get_elem? m.made i ≡ some c
    → leave_registry i m ≡ record {
      made = modify (λ d. record d { left = true }) m.made i;
      clients = unregister_client c.key m.clients;
    }
unfolding leave_registry
leave_registry-found i c m e =
    ap
      (λ x. elim x [
        | none ↦ m
        | some d ↦ record {
          made = modify (λ d. record d { left = true }) m.made i;
          clients = unregister_client d.key m.clients;
        }
      ])
      e

leave_registry-IsRegistry : (i : ℕ) (n : Node) → IsRegistry n → IsRegistry (leave_registry i n)
unfolding leave_registry unregister_client get_client
leave_registry-IsRegistry i n h = go (get_elem? n.made i) refl
  where
    gone : Client → Client
    gone d = record d { left = true }

    removed_node : Client → Node
    removed_node c = record {
      made = modify gone n.made i;
      clients = unregister_client c.key n.clients;
    }

    removed : (c : Client) → get_elem? n.made i ≡ some c → IsRegistry (removed_node c)
    removed c e k j g = by_key (same c.key k) refl (sym (lookup-remove c.key k n.clients) ∙ g)
      where
        apart :
            same c.key k ≡ false → (x : Client) → get_elem? n.made j ≡ some x → x.key ≡ k → i ≢ j
        apart q x f m at_j =
            let found : x ≡ c = cc (e, f, at_j) in
            ground (arith, same_iff c.key k, ap (λ y. y.key) (sym found) ∙ m)

        other : same c.key k ≡ false → Names n.made k j → Names (modify gone n.made i) k j
        other q (x, f, m, o) =
            (x, get_elem?-modify_ne gone n.made i j (λ at_j. apart q x f m at_j) ∙ f, m, o)

        by_key :
            (b : Bool)
            → same c.key k ≡ b
            → (if b then none else lookup k n.clients) ≡ some j
            → Names (modify gone n.made i) k j
        by_key true q f = absurd (cc f)
        by_key false q f = other q (h k j f)

    go :
        (o : Option Client)
        → get_elem? n.made i ≡ o
        → IsRegistry (elim o [ none ↦ n | some c ↦ removed_node c ])
    go none e = h
    go (some c) e = removed c e

serve_ws-IsRegistry :
    (key : Bytes) (upgraded : Bool) (n : Node)
    → IsRegistry n
    → IsRegistry (serve_ws key upgraded n).1
unfolding serve_ws
serve_ws-IsRegistry key true n h = join_client-IsRegistry key n h
serve_ws-IsRegistry key false n h = h

Step-IsRegistry : {m n : Node} → Step m n → IsRegistry m → IsRegistry n
unfolding mark_closed close_channel
Step-IsRegistry {m} (serve key upgraded) h = serve_ws-IsRegistry key upgraded m h
Step-IsRegistry {m} (deliver i msg {c} {d} e s) h =
    replaced-IsRegistry m i c d e (send-keeps msg c d s) h
Step-IsRegistry {m} (taken i p {c} {d} e s) h = replaced-IsRegistry m i c d e (pull-keeps p c d s) h
Step-IsRegistry {m} (marking i e o) h =
    written-IsRegistry (λ c. record c { closed = true }) i m (λ c. (refl, refl)) h
Step-IsRegistry {m} (shutting i e o s) h =
    written-IsRegistry (λ c. record c { shut = true }) i m (λ c. (refl, refl)) h
Step-IsRegistry {m} (unregistering i e s o) h = leave_registry-IsRegistry i m h

-- Whatever connections come, get messages and end, in any order, and whatever runs between the
-- steps of a Close, from a node without clients on: every client that the registry names under a
-- key was made under this key, and its Close has not come past unregisterClient.
pub Reach-IsRegistry : {n : Node} → Reach n → IsRegistry n
unfolding get_client lookup
Reach-IsRegistry fresh_node = λ k i e. absurd (cc e)
Reach-IsRegistry (onward r step) = Step-IsRegistry step (Reach-IsRegistry r)
