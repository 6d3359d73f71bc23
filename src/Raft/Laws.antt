-- ===== src/Raft/Laws.antt =====
-- What a write and a delete do to the data of the leader, and how the leader's port is found.
use mathlib.Core.Path.{subst}
use micro_conf.Text.Decimal.{ℤ}
use micro_conf.Text.Bytes.{has_prefix, Bytes, same}
use micro_conf.Store.{never}
use micro_conf.Raft.Machine.{
  expired, apply_delete, apply_set, cmd_del, cmd_set, cmd_set_ex, ttl_of, Badger, Command,
  apply_command,
}
use micro_conf.Json.{Json}
use micro_conf.Base.Outcome.{Error, Result, err, ok}
use micro_conf.Base.{
  All, Bool-cases, ap, some, Option, inl, inr, none, refl, sym, true, ℕ, ◌∙◌, ◌≡◌, ◌≢◌, ◌⊎◌,
}
use micro_conf.Raft.Node.{
  delete_command, machine, set_command, store_delete, store_get, store_set, Consensus,
}

-- What badger documents: a written key is read back, a write touches its own key only, and an
-- iteration over a prefix ends with the keys that have it.
pub record IsBadger (badger : Badger) : Type 0 where
  pub find-put :
      (k v : Bytes) (d e : badger.Db) → badger.put k v none d ≡ (e, ok tt) → badger.find k e ≡ ok v
  pub find-put_ne :
      (k j v : Bytes) (ttl : Option ℕ) (d : badger.Db)
      → k ≢ j
      → badger.find j (badger.put k v ttl d).0 ≡ badger.find j d
  pub prefixed-has :
      (p : Bytes) (d : badger.Db) → All (λ e. has_prefix e.0 p ≡ true) (badger.prefixed p d)
  pub find-erase_ne :
      (k j : Bytes) (d : badger.Db) → k ≢ j → badger.find j (badger.erase k d).0 ≡ badger.find j d

-- What hashicorp/raft documents of Apply while no other entry is under way: a future without an
-- error has run the state machine on the entry, and one with an error may have or not.
pub record IsConsensus (Db : Type 0) (raft : Consensus Db) : Type 0 where
  pub apply-ok :
      (f : Bytes → Db → Db) (log : Bytes) (s t : raft.State)
      → raft.apply f log s ≡ (t, ok tt)
      → raft.data_of t ≡ f log (raft.data_of s)
  pub apply-err :
      (f : Bytes → Db → Db) (log : Bytes) (s t : raft.State) (e : Error)
      → raft.apply f log s ≡ (t, err e)
      → (raft.data_of t ≡ raft.data_of s) ⊎ (raft.data_of t ≡ f log (raft.data_of s))

module _ (badger : Badger) (bl : IsBadger badger) (now later : ℕ) where
  apply_set-other :
      (key other_key value : Bytes) (exp : Option ℕ) (d : badger.Db)
      → key ≢ other_key
      → badger.find other_key (apply_set badger now later key value exp d).0
        ≡ badger.find other_key d
  unfolding apply_set
  apply_set-other key j value none d n = bl.find-put_ne key j value none d n
  apply_set-other key j value (some exp) d n = elim (Bool-cases (expired exp now)) [
    | inl e ↦ rw e
    | inr e ↦ rw e (bl.find-put_ne key j value (some (ttl_of exp later)) d n)
  ]

  -- A command touches its own key only, whatever its operation.
  pub apply_command-other :
      (c : Command) (j : Bytes) (d : badger.Db)
      → c.key ≢ j
      → badger.find j (apply_command badger now later c d).0 ≡ badger.find j d
  unfolding apply_command apply_delete
  apply_command-other c j d n = elim (Bool-cases (same c.op cmd_set)) [
    | inl e ↦ rw e (apply_set-other c.key j c.value none d n)
    | inr e ↦ elim (Bool-cases (same c.op cmd_set_ex)) [
      | inl e2 ↦ rw (e, e2) (apply_set-other c.key j c.value (some c.exp) d n)
      | inr e2 ↦ elim (Bool-cases (same c.op cmd_del)) [
        | inl e3 ↦ rw (e, e2, e3) (bl.find-erase_ne c.key j d n)
        | inr e3 ↦ rw (e, e2, e3)
      ]
    ]
  ]

module _ (badger : Badger) (raft : Consensus badger.Db) (laws : IsConsensus badger.Db raft)
    (commands : Json Command) (now later : ℕ) where
  -- Whatever the outcome, a property of the data that the state machine's run keeps is kept.
  apply-keeps :
      (f : Bytes → badger.Db → badger.Db) (log : Bytes) (s t : raft.State) (r : Result (Unit {0}))
      (P : badger.Db → Type 0)
      → raft.apply f log s ≡ (t, r)
      → P (raft.data_of s)
      → P (f log (raft.data_of s))
      → P (raft.data_of t)
  apply-keeps f log s t (ok a) P h p q = subst P (sym (laws.apply-ok f log s t h)) q
  apply-keeps f log s t (err e) P h p q = elim (laws.apply-err f log s t e h) [
    | inl x ↦ subst P (sym x) p
    | inr x ↦ subst P (sym x) q
  ]

  machine-command :
      (c : Command) (d : badger.Db)
      → machine badger raft commands now later (commands.marshal c) d
        ≡ (apply_command badger now later c d).0
  unfolding machine
  machine-command c d = rw (commands.unmarshal-marshal c, machine)

  machine-delete :
      (key : Bytes) (d : badger.Db)
      → machine badger raft commands now later (commands.marshal (delete_command key)) d ≡ d
  unfolding apply_command delete_command same
  machine-delete key d = machine-command (delete_command key) d

  -- A delete on the leader leaves the data as it was, whether it reports success or not.
  pub store_delete-data :
      (key : Bytes) (s t : raft.State) (r : Result (Unit {0}))
      → raft.is_leader s ≡ true
      → store_delete badger raft commands now later key s ≡ (t, r)
      → raft.data_of t ≡ raft.data_of s
  unfolding store_delete
  store_delete-data key s t r leads h =
      apply-keeps (machine badger raft commands now later) (commands.marshal (delete_command key)) s
        t r (λ d. d ≡ raft.data_of s) (rw (leads, store_delete) at h) refl
        (machine-delete key (raft.data_of s))

  machine-set :
      (sent : ℕ) (key value : Bytes) (d : badger.Db)
      → machine badger raft commands now later
          (commands.marshal (set_command sent key value never))
          d
        ≡ (badger.put key value none d).0
  unfolding apply_command set_command same
  machine-set sent key value d = machine-command (set_command sent key value never) d

  -- A write without expiry that the leader reports as done, and that badger takes, is read back.
  pub store_get-set :
      (bl : IsBadger badger) (sent : ℕ) (key value : Bytes) (s t : raft.State)
      → raft.is_leader s ≡ true
      → store_set badger raft commands sent now later key value never s ≡ (t, ok tt)
      → (badger.put key value none (raft.data_of s)).1 ≡ ok tt
      → store_get badger raft commands key t ≡ ok value
  unfolding store_get store_set
  store_get-set bl sent key value s t leads h took =
      let d = raft.data_of s in
      let log = commands.marshal (set_command sent key value never) in
      let run =
        laws.apply-ok (machine badger raft commands now later) log s t
          (rw (leads, store_set) at h) in
      ap (badger.find key) (run ∙ machine-set sent key value d)
      ∙ bl.find-put key value d (badger.put key value none d).0
          (ap (λ r. ((badger.put key value none d).0, r)) took)

  -- A write without expiry on the leader, done or failed, leaves the new value or the old one.
  pub store_get-set_or :
      (bl : IsBadger badger) (sent : ℕ) (key value : Bytes) (s t : raft.State)
      (r : Result (Unit {0}))
      → raft.is_leader s ≡ true
      → store_set badger raft commands sent now later key value never s ≡ (t, r)
      → (badger.put key value none (raft.data_of s)).1 ≡ ok tt
      → (store_get badger raft commands key t ≡ ok value)
        ⊎ (store_get badger raft commands key t ≡ store_get badger raft commands key s)
  unfolding store_get store_set
  store_get-set_or bl sent key value s t r leads h took =
      let d = raft.data_of s in
      apply-keeps (machine badger raft commands now later)
        (commands.marshal (set_command sent key value never)) s t r
        (λ e. (badger.find key e ≡ ok value) ⊎ (badger.find key e ≡ badger.find key d))
        (rw (leads, store_set) at h) (inr refl)
        (inl (
          ap (badger.find key) (machine-set sent key value d)
          ∙ bl.find-put key value d (badger.put key value none d).0
              (ap (λ r. ((badger.put key value none d).0, r)) took)))

  -- A write on the leader, with or without expiry, done or failed, leaves every other key alone.
  pub store_get-set_ne :
      (bl : IsBadger badger) (sent : ℕ) (key j value : Bytes) (exp : ℤ) (s t : raft.State)
      (r : Result (Unit {0}))
      → raft.is_leader s ≡ true
      → store_set badger raft commands sent now later key value exp s ≡ (t, r)
      → key ≢ j
      → store_get badger raft commands j t ≡ store_get badger raft commands j s
  unfolding store_get store_set set_command
  store_get-set_ne bl sent key j value exp s t r leads h n =
      let c = set_command sent key value exp in
      apply-keeps (machine badger raft commands now later) (commands.marshal c) s t r
        (λ d. badger.find j d ≡ badger.find j (raft.data_of s)) (rw (leads, store_set) at h) refl
        (ap (badger.find j) (machine-command c (raft.data_of s))
          ∙ apply_command-other badger bl now later c j (raft.data_of s) n)
