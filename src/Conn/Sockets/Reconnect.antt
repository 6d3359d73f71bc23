-- ===== src/Conn/Sockets/Reconnect.antt =====
-- A client that connects again while its former connection is still registered.
use micro_conf.Dict.{Dict, lookup-remove}
use micro_conf.Conn.Sockets.Registered.{
  leave_registry-found, get_elem?-modify_self, Reach-IsRegistry, get_elem?-length,
  get_elem?-modify_ne, get_elem?-snoc,
}
use micro_conf.Text.Bytes.{same_iff, Bytes}
use micro_conf.Conn.Sockets.{
  close_channel, finish_close, fresh_client, mark_closed, join_client, Client, Node, Reach,
  get_elem?, modify, serve_ws,
}
use micro_conf.Conn.Clients.{get_client, unregister_client}
use micro_conf.Base.{◌≢◌, ap, arith, ◌∙◌, length, none, some, true, ◌≡◌, ℕ}

module _ (key : Bytes) (i : ℕ) (n : Node) (r : Reach n)
    (old : get_client key n.clients ≡ some i) where
  unregistered : (k : Bytes) (d : Dict ℕ) → k ≡ key → get_client key (unregister_client k d) ≡ none
  unfolding get_client unregister_client
  unregistered k d e = lookup-remove k key d ∙ ground (arith, same_iff k key, e)

  -- What the three steps make of a node that has the client.
  finish_close-found :
      (c : Client) (m : Node) (j : ℕ)
      → get_elem? m.made i ≡ some c
      → c.key ≡ key
      → i ≢ j
      → (get_client key (finish_close i m).clients ≡ none)
        × (get_elem? (finish_close i m).made j ≡ get_elem? m.made j)
  unfolding finish_close mark_closed close_channel
  finish_close-found c m j e k apart =
      let marked = modify (λ (d : Client). record d { closed = true }) m.made i in
      let shut_made = modify (λ (d : Client). record d { shut = true }) marked i in
      let c1 = record c { closed = true } in
      let e1 = get_elem?-modify_self (λ d. record d { closed = true }) m.made i c e in
      let e2 = get_elem?-modify_self (λ d. record d { shut = true }) marked i c1 e1 in
      let gone =
        leave_registry-found i (record c1 { shut = true }) (record m { made = shut_made }) e2 in
      (
        ap (λ x. get_client key x.clients) gone ∙ unregistered c.key m.clients k,
        ap (λ x. get_elem? x.made j) gone
            ∙ get_elem?-modify_ne (λ d. record d { left = true }) shut_made i j apart
            ∙ get_elem?-modify_ne (λ d. record d { shut = true }) marked i j apart
            ∙ get_elem?-modify_ne (λ d. record d { closed = true }) m.made i j apart,
      )

  -- On any node that connections and messages can lead to: where a client connects again under a
  -- key that is registered, it is asked to close the former connection, and when the steps of the
  -- Close of this one have run, nobody is registered under the key, although the new connection is
  -- open.
  pub close-serve_ws :
      let m : Node = (serve_ws key true n).1 in
      ((serve_ws key true n).0 ≡ some i)
      × (get_client key (finish_close i m).clients ≡ none)
      × (get_elem? (finish_close i m).made (length n.made) ≡ some (fresh_client key))
  unfolding serve_ws join_client
  close-serve_ws =
      let (c, e, k, o) = Reach-IsRegistry r key i old in
      let m : Node = join_client key n in
      let inside = get_elem?-length n.made c i e in
      let there : get_elem? m.made i ≡ some c =
        ground (arith, get_elem?-snoc n.made (fresh_client key) i, e, inside) in
      let (nobody, elsewhere) =
        finish_close-found c m (length n.made) there k (omega (arith, inside)) in
      (
        old,
        nobody,
        elsewhere ∙ get_elem?-snoc n.made (fresh_client key) (length n.made) ∙ ground arith,
      )
