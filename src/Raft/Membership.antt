-- ===== src/Raft/Membership.antt =====
-- What Remove leaves of the configuration of a cluster.
use mathlib.Core.Path.{subst}
use micro_conf.Raft.Machine.{Badger, Command}
use micro_conf.Json.{Json}
use micro_conf.Text.Bytes.{same_refl, same_iff, Bytes, same}
use micro_conf.Raft.Cluster.{Server}
use micro_conf.Base.Outcome.{after-ok, ok}
use micro_conf.Base.{
  All-keep, All-map, ◌||◌, Bool-cases, ap, inl, inr, sym, ◌∙◌, All, Bool, List, [], any, false,
  keep, not, refl, true, ◌&&◌, ◌∷◌, ◌≡◌,
}
use micro_conf.Raft.Node.{remove_node, remove_matching, matches, Consensus}

same_server : Server → Server → Bool
same_server v w = same v.id w.id && same v.address w.address

-- What hashicorp/raft documents of RemoveServer: once it is done, the configuration is without the
-- server of that id.
pub record IsMembership (Db : Type 0) (raft : Consensus Db) : Type 0 where
  pub configuration-remove_server :
      (id : Bytes) (servers : List Server) (s t : raft.State)
      → raft.configuration s ≡ ok servers
      → raft.remove_server id s ≡ (t, ok tt)
      → raft.configuration t ≡ ok (keep (λ v. not (same v.id id)) servers)

and-true : (a b : Bool) → (a && b) ≡ true → (a ≡ true) × (b ≡ true)
and-true true b h = (refl, h)
and-true false b h = cc h

same_server-parts :
    (v w : Server) → same_server v w ≡ true → (v.id ≡ w.id) × (v.address ≡ w.address)
unfolding same_server
same_server-parts v w h =
    let both = and-true (same v.id w.id) (same v.address w.address) h in
    ((same_iff v.id w.id).0 both.0, (same_iff v.address w.address).0 both.1)

-- A server that matches is among those that the loop has still to see.
Covered : Bytes → Bytes → List Server → Server → Type 0
Covered id addr rest w = matches id addr w ≡ true → any (λ v. same_server v w) rest ≡ true

same_server_refl : (w : Server) → same_server w w ≡ true
unfolding same_server
same_server_refl w = rw (same_refl w.id, same_refl w.address)

or-true : (a b : Bool) → b ≡ true → (a || b) ≡ true
or-true true b h = refl
or-true false b h = h

own-place : (ws : List Server) → All (λ w. any (λ v. same_server v w) ws ≡ true) ws
own-place [] = tt
own-place (w ∷ ws) = (
  rw (same_server_refl w),
  All-map (λ x. any (λ v. same_server v x) ws ≡ true)
      (λ x. any (λ v. same_server v x) (w ∷ ws) ≡ true)
      (λ x h. or-true (same_server w x) (any (λ v. same_server v x) ws) h) ws (own-place ws),
)

Covered-kept :
    (id addr : Bytes) (v : Server) (rest : List Server) (w : Server)
    → Covered id addr (v ∷ rest) w
    → not (same w.id v.id) ≡ true
    → Covered id addr rest w
unfolding Covered
Covered-kept id addr v rest w h n m = elim (Bool-cases (same_server v w)) [
  | inl e ↦
      let same_id = (same_iff w.id v.id).1 (sym (same_server-parts v w e).0) in cc (rw same_id at n)
  | inr e ↦ rw e at (h m)
]

Covered-unmatched :
    (id addr : Bytes) (v : Server) (rest : List Server) (w : Server)
    → matches id addr v ≡ false
    → Covered id addr (v ∷ rest) w
    → Covered id addr rest w
unfolding Covered matches
Covered-unmatched id addr v rest w n h m = elim (Bool-cases (same_server v w)) [
  | inl e ↦
      let parts = same_server-parts v w e in
      let unmatched : matches id addr w ≡ false = rw (sym parts.0, sym parts.1) n in
      cc (sym m ∙ unmatched)
  | inr e ↦ rw e at (h m)
]

module _ (badger : Badger) (raft : Consensus badger.Db) (commands : Json Command)
    (laws : IsMembership badger.Db raft) (id addr : Bytes) where
  remove_matching-ok :
      (rest cur : List Server) (s t : raft.State)
      → remove_matching badger raft commands id addr rest s ≡ (t, ok tt)
      → raft.configuration s ≡ ok cur
      → All (Covered id addr rest) cur
      → (left : List Server) × (raft.configuration t ≡ ok left) × All (Covered id addr []) left
  unfolding remove_matching
  remove_matching-ok [] cur s t h c a =
      (cur, subst (λ x. raft.configuration x ≡ ok cur) (ap (λ p. p.0) h) c, a)
  remove_matching-ok (v ∷ rest) cur s t h c a = elim (Bool-cases (matches id addr v)) [
    | inl e ↦
        let (u, x, removed, go_on) = after-ok _ _ t tt (rw (e, remove_matching) at h) in
        remove_matching-ok rest (keep (λ w. not (same w.id v.id)) cur) u t go_on
          (laws.configuration-remove_server v.id cur s u c removed)
          (All-keep (Covered id addr (v ∷ rest)) (Covered id addr rest) (λ w. not (same w.id v.id))
            (Covered-kept id addr v rest) cur a)
    | inr e ↦ remove_matching-ok rest cur s t (rw (e, remove_matching) at h) c (
        All-map (Covered id addr (v ∷ rest)) (Covered id addr rest)
          (λ w. Covered-unmatched id addr v rest w e) cur a)
  ]

  unmatched : (w : Server) → Covered id addr [] w → matches id addr w ≡ false
  unfolding Covered
  unmatched w h = elim (Bool-cases (matches id addr w)) [ inl e ↦ cc (h e) | inr e ↦ e ]

  -- When Remove on the leader succeeds, no server of that id or of that address is left in the
  -- configuration.
  pub remove_node-gone :
      (servers : List Server) (s t : raft.State)
      → raft.is_leader s ≡ true
      → raft.configuration s ≡ ok servers
      → remove_node badger raft commands id addr s ≡ (t, ok tt)
      → (left : List Server) × (raft.configuration t ≡ ok left)
        × All (λ w. matches id addr w ≡ false) left
  unfolding remove_node Covered
  remove_node-gone servers s t leads c h =
      let covered =
        All-map (λ w. any (λ v. same_server v w) servers ≡ true) (Covered id addr servers)
          (λ w e m. e) servers (own-place servers) in
      let (left, conf, a) =
        remove_matching-ok servers servers s t (rw (leads, c, remove_node) at h) c covered in
      (left, conf, All-map (Covered id addr []) (λ w. matches id addr w ≡ false) unmatched left a)
