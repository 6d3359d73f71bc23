-- ===== src/Conn/Sockets/Closing.antt =====
-- The steps of Close, and a Close that runs alone.
use mathlib.Core.Path.{subst}
use micro_conf.Conn.Sockets.Registered.{
  leave_registry-found, get_elem?-modify_ne, get_elem?-modify_self, get_elem?-snoc,
}
use micro_conf.Text.Bytes.{Bytes}
use micro_conf.Conn.Sockets.{
  marking, shutting, unregistering, taken, deliver, serve, onward, fresh_node, Reach, Step, Client,
  Node, get_elem?, modify, close, finish_close, mark_closed, close_channel, leave_registry, send,
  pull, pull_from, Pulled, queue_size, serve_ws, join_client, fresh_client,
}
use micro_conf.Base.{
  Bool, Bool-cases, List, Option, [], ap, arith, false, if◌then◌else◌, inl, inr, length, ltb, none,
  refl, some, sym, true, ◌++◌, ◌==◌, ◌∙◌, ◌∷◌, ◌≡◌, ℕ,
}

-- The channel is closed only where the flag is set, and Close has come past unregisterClient only
-- where the channel is closed.
abbrev InTurn : Client → Type 0
InTurn c = (c.shut ≡ true → c.closed ≡ true) × (c.left ≡ true → c.shut ≡ true)

abbrev Everyone : List Client → Type 0
Everyone made = (i : ℕ) (c : Client) → get_elem? made i ≡ some c → InTurn c

-- A client that was changed and the rest.
Everyone-modify :
    (f : Client → Client) (made : List Client) (i : ℕ) (c : Client)
    → get_elem? made i ≡ some c
    → InTurn (f c)
    → Everyone made
    → Everyone (modify f made i)
Everyone-modify f made i c e t h j d g = elim (Bool-cases (i == j)) [
  | inl q ↦
      let at_j : i ≡ j = ground (arith, q) in
      let same : d ≡ f c =
        cc (g, ap (get_elem? (modify f made i)) (sym at_j) ∙ get_elem?-modify_self f made i c e) in
      subst InTurn (sym same) t
  | inr q ↦ h j d (sym (get_elem?-modify_ne f made i j (ground (arith, q))) ∙ g)
]

Everyone-snoc :
    (made : List Client) (c : Client) → InTurn c → Everyone made → Everyone (made ++ c ∷ [])
Everyone-snoc made c t h j d g = elim (Bool-cases (j == length made)) [
  | inl q ↦
      let same : d ≡ c = cc (rw (get_elem?-snoc made c j, q) at g) in subst InTurn (sym same) t
  | inr q ↦ h j d (rw (get_elem?-snoc made c j, q) at g)
]

InTurn-kept :
    (c d : Client)
    → (d.closed ≡ c.closed) × (d.shut ≡ c.shut) × (d.left ≡ c.left)
    → InTurn c
    → InTurn d
InTurn-kept c d (e, f, g) (h, k) = ((λ s. e ∙ h (sym f ∙ s)), λ l. f ∙ k (sym g ∙ l))

send-flags :
    (msg : Bytes) (c d : Client)
    → send msg c ≡ some d
    → (d.closed ≡ c.closed) × (d.shut ≡ c.shut) × (d.left ≡ c.left)
unfolding send
send-flags msg c d s = elim (Bool-cases c.shut) [
  | inl p ↦ let e = (rw p at s) in (cc e, cc e, cc e)
  | inr p ↦ elim (Bool-cases (ltb (length c.queue) queue_size)) [
    | inl q ↦ let e = (rw (p, q) at s) in (cc e, cc e, cc e)
    | inr q ↦ absurd (cc (rw (p, q) at s))
  ]
]

pull_from-flags :
    (p : Pulled) (c d : Client) (queue : List Bytes)
    → pull_from c queue ≡ some (p, d)
    → (d.closed ≡ c.closed) × (d.shut ≡ c.shut) × (d.left ≡ c.left)
unfolding pull_from
pull_from-flags p c d [] h = elim (Bool-cases c.shut) [
  | inl o ↦ let e = (rw o at h) in (cc e, cc e, cc e)
  | inr o ↦ absurd (cc (rw o at h))
]
pull_from-flags p c d (msg ∷ queue) h = (cc h, cc h, cc h)

left-Everyone :
    (n : Node) (i : ℕ) (c : Client)
    → get_elem? n.made i ≡ some c
    → c.shut ≡ true
    → Everyone n.made
    → Everyone (leave_registry i n).made
left-Everyone n i c e s h =
    subst Everyone (ap (λ x. x.made) (sym (leave_registry-found i c n e)))
      (Everyone-modify (λ d. record d { left = true }) n.made i c e ((h i c e).0, λ l. s) h)

Step-Everyone : {m n : Node} → Step m n → Everyone m.made → Everyone n.made
unfolding mark_closed close_channel pull serve_ws join_client
Step-Everyone {m} (serve key true) h =
    Everyone-snoc m.made (fresh_client key) ((λ e. absurd (cc e)), λ e. absurd (cc e)) h
Step-Everyone {m} (serve key false) h = h
Step-Everyone {m} (deliver i msg {c} {d} e s) h =
    Everyone-modify (λ x. d) m.made i c e (InTurn-kept c d (send-flags msg c d s) (h i c e)) h
Step-Everyone {m} (taken i p {c} {d} e s) h =
    Everyone-modify (λ x. d) m.made i c e
      (InTurn-kept c d (pull_from-flags p c d c.queue s) (h i c e)) h
Step-Everyone {m} (marking i {c} e o) h =
    Everyone-modify (λ c. record c { closed = true }) m.made i c e ((λ s. refl), (h i c e).1) h
Step-Everyone {m} (shutting i {c} e o s) h =
    Everyone-modify (λ c. record c { shut = true }) m.made i c e ((λ s. o), λ l. refl) h
Step-Everyone {m} (unregistering i {c} e s o) h = left-Everyone m i c e s h

Reach-Everyone : {n : Node} → Reach n → Everyone n.made
Reach-Everyone fresh_node = λ i c e. absurd (cc e)
Reach-Everyone (onward r step) = Step-Everyone step (Reach-Everyone r)

not-true : (b : Bool) → (b ≡ true → false ≡ true) → b ≡ false
not-true true h = sym (h refl)
not-true false h = refl

-- The three steps of a Close that finds the flag unset.
finish_close-Reach :
    (i : ℕ) (n : Node) (c : Client)
    → Reach n
    → get_elem? n.made i ≡ some c
    → c.closed ≡ false
    → Reach (finish_close i n)
unfolding finish_close mark_closed close_channel
finish_close-Reach i n c r e o =
    let (h, k) = Reach-Everyone r i c e in
    let open_channel : c.shut ≡ false = not-true c.shut (λ s. sym o ∙ h s) in
    let named : c.left ≡ false = not-true c.left (λ l. sym open_channel ∙ k l) in
    let e1 = get_elem?-modify_self (λ d. record d { closed = true }) n.made i c e in
    let marked = onward r (marking i e o) in
    let e2 =
      get_elem?-modify_self (λ d. record d { shut = true }) (mark_closed i n).made i
        (record c { closed = true }) e1 in
    onward (onward marked (shutting i e1 refl open_channel)) (unregistering i e2 refl named)

-- A Close that runs alone takes a node that connections and messages can lead to, to another such
-- node: it returns at once, or takes the three steps, each of which is possible then.
pub close-Reach : {n : Node} (i : ℕ) → Reach n → Reach (close i n)
unfolding close
close-Reach {n} i r = go (get_elem? n.made i) refl
  where
    go2 :
        (c : Client) (b : Bool)
        → get_elem? n.made i ≡ some c
        → c.closed ≡ b
        → Reach (if b then n else finish_close i n)
    go2 c true e o = r
    go2 c false e o = finish_close-Reach i n c r e o

    go :
        (x : Option Client)
        → get_elem? n.made i ≡ x
        → Reach (elim x [ none ↦ n | some c ↦ if c.closed then n else finish_close i n ])
    go none e = r
    go (some c) e = go2 c c.closed e refl
