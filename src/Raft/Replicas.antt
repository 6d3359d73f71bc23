-- ===== src/Raft/Replicas.antt =====
-- Two nodes that run their state machines on the same log, each by its own clock.
use micro_conf.Raft.Machine.{
  Badger, Command, apply_command, apply_delete, apply_entry, apply_set, cmd_del, cmd_set,
  cmd_set_ex,
}
use micro_conf.Raft.Laws.{apply_command-other, IsBadger}
use micro_conf.Json.{Json}
use mathlib.Core.Path.{subst}
use micro_conf.Text.Bytes.{same_iff, Bytes, same, eq_of_same}
use micro_conf.Base.Outcome.{err, ok, not_found}
use micro_conf.Base.{
  All, arith, Bool-cases, List, [], ap, false, inl, inr, sym, ℕ, suc, ◌∙◌, ◌∷◌, ◌≡◌, ◌≢◌, ◌⊎◌, none,
  refl,
}

-- The two readings of a node's clock at the entry with an index.
abbrev pub Clock : Type 0
Clock = ℕ → ℕ × ℕ

module _ (badger : Badger) (commands : Json Command) where
  -- What a node's copy of the data becomes as its state machine runs on the log.
  unfoldable pub run_log : Clock → ℕ → List Command → badger.Db → badger.Db
  unfolding apply_entry
  run_log clock i [] d = d
  run_log clock i (c ∷ log) d =
      run_log clock (suc i) log
        (apply_entry badger commands (clock i).0 (clock i).1 (commands.marshal c) d).0

-- The command sets no expiry on the key.
abbrev pub Untimed : Bytes → Command → Type 0
Untimed k c = (same c.op cmd_set_ex ≡ false) ⊎ (c.key ≢ k)

module _ (badger : Badger) (bl : IsBadger badger)
    (takes : (k v : Bytes) (d : badger.Db) → (badger.put k v none d).1 ≡ ok tt)
    (erased : (k : Bytes) (d : badger.Db)
      → badger.find k (badger.erase k d).0 ≡ err not_found) where
  written : (k v : Bytes) (d : badger.Db) → badger.find k (badger.put k v none d).0 ≡ ok v
  written k v d =
      bl.find-put k v d (badger.put k v none d).0
        (ap (λ r. ((badger.put k v none d).0, r)) (takes k v d))

  module _ (now later now' later' : ℕ) (c : Command) (d e : badger.Db) where
    own-command :
        same c.op cmd_set_ex ≡ false
        → badger.find c.key d ≡ badger.find c.key e
        → badger.find c.key (apply_command badger now later c d).0
          ≡ badger.find c.key (apply_command badger now' later' c e).0
    unfolding apply_command apply_set apply_delete
    own-command u h = elim (Bool-cases (same c.op cmd_set)) [
      | inl s ↦ rw s (written c.key c.value d ∙ sym (written c.key c.value e))
      | inr s ↦ elim (Bool-cases (same c.op cmd_del)) [
        | inl x ↦ rw (s, u, x) (erased c.key d ∙ sym (erased c.key e))
        | inr x ↦ rw (s, u, x) h
      ]
    ]

    command-agrees :
        (k : Bytes)
        → Untimed k c
        → badger.find k d ≡ badger.find k e
        → badger.find k (apply_command badger now later c d).0
          ≡ badger.find k (apply_command badger now' later' c e).0
    command-agrees k u h = elim (Bool-cases (same c.key k)) [
      | inl s ↦
          let p = eq_of_same c.key k s in
          let untimed : same c.op cmd_set_ex ≡ false = elim u [
            | inl x ↦ x
            | inr n ↦ absurd (n p)
          ] in
          subst
            (λ k.
              badger.find k d ≡ badger.find k e
              → badger.find k (apply_command badger now later c d).0
                ≡ badger.find k (apply_command badger now' later' c e).0)
            p (own-command untimed) h
      | inr s ↦
          let n : c.key ≢ k = λ p. ground (arith, same_iff c.key k, p, s) in
          apply_command-other badger bl now later c k d n
          ∙ h
          ∙ sym (apply_command-other badger bl now' later' c k e n)
    ]

  entry-command :
      (commands : Json Command) (now later : ℕ) (c : Command) (d : badger.Db)
      → apply_entry badger commands now later (commands.marshal c) d
        ≡ apply_command badger now later c d
  unfolding apply_entry
  entry-command commands now later c d = rw (commands.unmarshal-marshal c, apply_entry) refl

  -- Where badger takes every write and finds no key that was deleted: two nodes whose copies of the
  -- data agree on a key still do so after the same log, at whatever times each of them runs it, if
  -- no command of the log sets an expiry on the key.
  pub run_log-agree :
      (commands : Json Command) (x y : Clock) (k : Bytes) (i j : ℕ) (log : List Command)
      (d e : badger.Db)
      → All (Untimed k) log
      → badger.find k d ≡ badger.find k e
      → badger.find k (run_log badger commands x i log d)
        ≡ badger.find k (run_log badger commands y j log e)
  unfolding run_log apply_entry
  run_log-agree commands x y k i j [] d e u h = h
  run_log-agree commands x y k i j (c ∷ log) d e (u, us) h =
      let f = entry-command commands (x i).0 (x i).1 c d in
      let g = entry-command commands (y j).0 (y j).1 c e in
      run_log-agree commands x y k (suc i) (suc j) log
        (apply_entry badger commands (x i).0 (x i).1 (commands.marshal c) d).0
        (apply_entry badger commands (y j).0 (y j).1 (commands.marshal c) e).0 us
        (ap (λ p. badger.find k p.0) f
          ∙ command-agrees (x i).0 (x i).1 (y j).0 (y j).1 c d e k u h
          ∙ sym (ap (λ p. badger.find k p.0) g))
