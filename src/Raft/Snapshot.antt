-- ===== src/Raft/Snapshot.antt =====
-- store/raft/fsm_snapshot.go and the snapshots of store/raft/fsm.go. Raft's sink and badger's
-- backup are calls on a state `S`, which holds what they write to.
use micro_conf.Base.Outcome.{Call, Error, Result, err, ok}
use micro_conf.Base.{ap, ◌∙◌, inl, inr, refl, ◌↔◌, ◌≡◌, ◌⊎◌}

module _ {S : Type 0} where
  -- What follows a call only if it fails.
  abbrev pub on_failure :
      S × Result (Unit {0}) → (Error → Call S (Unit {0})) → S × Result (Unit {0})
  on_failure (t, ok a) f = (t, ok a)
  on_failure (t, err e) f = f e t

  -- The function inside Persist, which tests for `err == nil`.
  unfoldable pub write_backup : Call S (Unit {0}) → Call S (Unit {0}) → Call S (Unit {0})
  write_backup backup close s = on_failure (backup s) (λ e. close)

  -- (f *fsmSnapshot) Persist
  unfoldable pub persist : (backup close cancel : Call S (Unit {0})) → Call S (Unit {0})
  unfolding write_backup
  persist backup close cancel s =
      on_failure (write_backup backup close s) (λ e t. ((cancel t).0, err e))

  -- (f *fsm) Restore: the load of a backup into the data, whose error it returns.
  unfoldable pub restore : (load : Call S (Unit {0})) → Call S (Unit {0})
  restore load s = on_failure (load s) (λ e t. (t, err e))

  on_failure-success :
      (p : S × Result (Unit {0})) (f : Error → Call S (Unit {0})) (t : S)
      → on_failure p f ≡ (t, ok tt)
      → (p ≡ (t, ok tt)) ⊎ ((u : S) × (e : Error) × (p ≡ (u, err e)) × (f e u ≡ (t, ok tt)))
  on_failure-success (u, ok a) f t h = inl h
  on_failure-success (u, err e) f t h = inr (u, e, refl, h)

  successful :
      (p : S × Result (Unit {0})) (f : Error → Call S (Unit {0})) (t : S)
      → (p ≡ (t, ok tt)) ⊎ ((u : S) × (e : Error) × (p ≡ (u, err e)) × (f e u ≡ (t, ok tt)))
      → on_failure p f ≡ (t, ok tt)
  successful p f t (inl h) = ap (λ q. on_failure q f) h
  successful p f t (inr (u, e, h, g)) = ap (λ q. on_failure q f) h ∙ g

  -- A second call that reports the failure does not succeed.
  on_failure-fails :
      (p : S × Result (Unit {0})) (g : S → S) (t : S)
      → on_failure p (λ e u. (g u, err e)) ≡ (t, ok tt)
      → p ≡ (t, ok tt)
  on_failure-fails (u, ok a) g t h = h
  on_failure-fails (u, err e) g t h = absurd (cc h)

  -- Persist reports success in two cases only: the backup succeeds, and then nothing is done to the
  -- sink after it; or the backup fails and the sink can be closed, and then the failure is lost.
  pub persist_iff :
      (backup close cancel : Call S (Unit {0})) (s t : S)
      → (persist backup close cancel s ≡ (t, ok tt)) ↔ (
          (backup s ≡ (t, ok tt))
          ⊎ ((u : S) × (e : Error) × (backup s ≡ (u, err e)) × (close u ≡ (t, ok tt))))
  unfolding persist
  persist_iff backup close cancel s t = (
    λ h.
        on_failure-success (backup s) (λ e. close) t
          (on_failure-fails (write_backup backup close s) (λ u. (cancel u).0) t h),
    λ h.
        ap (λ p. on_failure p (λ e u. ((cancel u).0, err e)))
          (successful (backup s) (λ e. close) t h),
  )
