-- ===== src/Inner/Forwarded.antt =====
-- A write on a node that does not lead, which the leader's keyOperation carries out.
use micro_conf.Text.Fold.{equal_fold}
use micro_conf.Store.{RaftStore, never}
use micro_conf.Raft.Redirect.{get_leader_addr, read_reply, Body, code_text}
use micro_conf.Raft.Node.{
  Request, store_delete, store_set, redirect_request, Consensus, cmd_of, key_request,
}
use micro_conf.Raft.Machine.{Badger, Command, cmd_del}
use micro_conf.Json.{Json}
use micro_conf.Inner.{run_key_cmd, KeyCmd, key_operation}
use micro_conf.Http.{reply_of-state, reply_of, server_error, Reply, success}
use micro_conf.Base.Outcome.{Result, err, ok}
use micro_conf.Base.{
  sym, ◌++◌, List, [], ap, false, null, refl, some, suc, zero, ℕ, ◌↔◌, ◌∙◌, ◌∷◌, ◌≡◌, ◌≢◌,
}
use micro_conf.Text.Bytes.{Bytes, codes, same}
use micro_conf.Text.Decimal.{ℤ, negsuc, pos}

-- What a node reads in the JSON that irisword writes: the code "0" for a success, and another
-- code, which is a text, for every other reply.
pub record IsReplyFormat (body_of : List Reply → Body) : Type 0 where
  pub success-code : body_of (success ∷ []) ≡ code_text (codes "0")
  pub other-code :
      (r : Reply)
      → r ≢ success
      → (c : Bytes) × (body_of (r ∷ []) ≡ code_text c) × (equal_fold c (codes "0") ≡ false)

-- The expiry that keyOperation hands on: the command "set" has none.
abbrev pub lasting : ℤ → ℤ
lasting (pos zero) = never
lasting (pos (suc n)) = pos (suc n)
lasting (negsuc n) = never

abbrev pub set_request : Bytes → Bytes → ℤ → KeyCmd
unfolding cmd_of
set_request key value exp = record { cmd = cmd_of exp; key = key; value = value; exp = exp }

abbrev pub delete_request : Bytes → KeyCmd
delete_request key = record { cmd = cmd_del; key = key; value = []; exp = pos 0 }

module _ (badger : Badger) (raft : Consensus badger.Db) (commands : Json Command)
    (leader : RaftStore) (view : raft.State → leader.State) (body_of : List Reply → Body) where
  -- The network hands the request to the leader's keyOperation, and its reply to the node. `view`
  -- is the leader's share of the state.
  abbrev pub Arrives : raft.State → Bytes → KeyCmd → Type 0
  Arrives s addr c =
      let p =
        raft.post (addr ++ codes "/api/store/key") (key_request c.cmd c.key c.value c.exp) s in
      let q = key_operation leader (some c) (view s) in (view p.0 ≡ q.0) × (p.1 ≡ ok (body_of q.1))

  -- The call has the effect of one on the leader's store, and succeeds exactly where that does.
  abbrev pub Mirrors : raft.State × Result (Unit {0}) → leader.State × Result (Unit {0}) → Type 0
  Mirrors p q = (view p.0 ≡ q.0) × ((p.1 ≡ ok tt) ↔ (q.1 ≡ ok tt))

  key_operation-set :
      (k v : Bytes) (exp : ℤ) (s : leader.State)
      → null k ≡ false
      → key_operation leader (some (set_request k v exp)) s
        ≡ reply_of (leader.set k v (lasting exp) s)
  unfolding key_operation run_key_cmd cmd_of same
  key_operation-set k v (pos zero) s g = rw g
  key_operation-set k v (pos (suc n)) s g = rw g
  key_operation-set k v (negsuc n) s g = rw g

  key_operation-delete :
      (k : Bytes) (s : leader.State)
      → null k ≡ false
      → key_operation leader (some (delete_request k)) s ≡ reply_of (leader.delete k s)
  unfolding key_operation run_key_cmd same
  key_operation-delete k s g = rw g

  module _ (format : IsReplyFormat body_of) where
    -- What a node makes of the reply to a call on the leader's store.
    read-reply_of :
        (q : leader.State × Result (Unit {0}))
        → (read_reply (ok (body_of (reply_of q).1)) ≡ ok tt) ↔ (q.1 ≡ ok tt)
    unfolding read_reply equal_fold same micro_conf.Text.Fold.lower
    read-reply_of (t, ok a) = ((λ h. refl), λ h. rw format.success-code)
    read-reply_of (t, err e) =
        let (c, b, n) = format.other-code (server_error e) (λ h. cc h) in
        ((λ h. cc (rw (b, read_reply, n) at h)), λ h. cc h)

    module _ (s : raft.State) (addr : Bytes)
        (found : get_leader_addr (raft.leader_addr s) ≡ ok addr)
        (follows : raft.is_leader s ≡ false) where
      posted :
          (r : Request)
          → redirect_request badger raft commands (codes "/api/store/key") r s ≡ (
            (raft.post (addr ++ codes "/api/store/key") r s).0,
            read_reply (raft.post (addr ++ codes "/api/store/key") r s).1,
          )
      unfolding redirect_request
      posted r =
          ap
            (λ x. elim x [
              | err e ↦ (s, err e)
              | ok a ↦ let (t, b) = raft.post (a ++ codes "/api/store/key") r s in (t, read_reply b)
            ])
            found

      redirect_request-Mirrors :
          (c : KeyCmd) (q : leader.State × Result (Unit {0}))
          → key_operation leader (some c) (view s) ≡ reply_of q
          → Arrives s addr c
          → Mirrors
              (redirect_request badger raft commands
                (codes "/api/store/key")
                (key_request c.cmd c.key c.value c.exp)
                s)
              q
      redirect_request-Mirrors c q e (went, came) =
          let r = key_request c.cmd c.key c.value c.exp in
          let answer =
            ap (λ p. p.1) (posted r) ∙ ap read_reply (came ∙ ap (λ p. ok (body_of p.1)) e) in
          (
            ap (λ p. view p.0) (posted r) ∙ went ∙ ap (λ p. p.0) e ∙ reply_of-state q,
            ((λ h. (read-reply_of q).0 (sym answer ∙ h)), λ h. answer ∙ (read-reply_of q).1 h),
          )

      -- On a node that follows a leader with a known address, where the network delivers the
      -- requests and irisword writes its codes: Set of a key that is not empty changes the leader's
      -- store as the leader's own Set does, without an expiry that is not positive, and reports a
      -- success exactly where that does; and so does Delete.
      pub redirected-Mirrors :
          (sent now later : ℕ) (k v : Bytes) (exp : ℤ)
          → null k ≡ false
          → Arrives s addr (set_request k v exp)
          → Arrives s addr (delete_request k)
          → Mirrors
              (store_set badger raft commands sent now later k v exp s)
              (leader.set k v (lasting exp) (view s))
            × Mirrors (store_delete badger raft commands now later k s) (leader.delete k (view s))
      unfolding store_set store_delete
      redirected-Mirrors sent now later k v exp g sets deletes = (
        rw follows (
            redirect_request-Mirrors (set_request k v exp) (leader.set k v (lasting exp) (view s))
              (key_operation-set k v exp (view s) g) sets),
        rw follows (
            redirect_request-Mirrors (delete_request k) (leader.delete k (view s))
              (key_operation-delete k (view s) g) deletes),
      )
