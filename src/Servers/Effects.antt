-- ===== src/Servers/Effects.antt =====
-- What the operations of the manager leave in the table and in the ring.
use l7_loadbalancer.Base.{
  ℕ, zero, suc, ◌+◌, ◌≤◌, ◌<◌, ◌≡◌, refl, List, [], ◌∷◌, none, some, arith, Option-cases, inl, inr,
  ◌==◌, Bool-cases, ◌∙◌, ap, if◌then◌else◌,
}
use l7_loadbalancer.Base.Assoc.{find, nat_eq, find-put, find-erase}
use l7_loadbalancer.Types.{RealServer, ServerStatus}
use l7_loadbalancer.HashRing
use l7_loadbalancer.HashRing.{
  HashRing, Entries, insert_replicas, erase_server, vnode_hash, replicas,
}
use l7_loadbalancer.HashRing.Remap.{Lacks, erase_server-Lacks}
use l7_loadbalancer.Servers.{
  Manager, RealServerConfig, add_server, remove_server, set_status, get_server, load_from_config,
}
use l7_loadbalancer.Servers.Linked.{
  IsLinked, add_server-IsLinked, remove_server-IsLinked, set_status-IsLinked, load_from-IsLinked,
}

find-HashRing_put :
    (k h v : ℕ) (m : Entries) → find h (HashRing.put k v m) ≡ (if k == h then some v else find h m)
unfolding HashRing.put find
find-HashRing_put k h v [] = refl
find-HashRing_put k h v ((j, w) ∷ m) = ground (arith, find-HashRing_put k h v m)

find-insert_replicas :
    (n i h id : ℕ) (m : Entries) → find h m ≡ some id → find h (insert_replicas n i id m) ≡ some id
unfolding insert_replicas
find-insert_replicas zero i h id m e = e
find-insert_replicas (suc n) i h id m e =
    find-insert_replicas n (i + 1) h id (HashRing.put (vnode_hash id i) id m)
      (ground (arith, find-HashRing_put (vnode_hash id i) h id m))

-- Every virtual node that is inserted stands in the ring.
insert_replicas-all :
    (n i k id : ℕ) (m : Entries)
    → i ≤ k
    → k < i + n
    → find (vnode_hash id k) (insert_replicas n i id m) ≡ some id
unfolding insert_replicas
insert_replicas-all zero i k id m low high = absurd (omega arith)
insert_replicas-all (suc n) i k id m low high = elim (Bool-cases (i == k)) [
  | inl here ↦
      let same : i ≡ k = ground arith in
      find-insert_replicas n (i + 1) (vnode_hash id k) id (HashRing.put (vnode_hash id i) id m) (
        ap (λ j. find (vnode_hash id k) (HashRing.put (vnode_hash id j) id m)) same
        ∙ ground (arith, find-HashRing_put (vnode_hash id k) (vnode_hash id k) id m))
  | inr later ↦
      insert_replicas-all n (i + 1) k id (HashRing.put (vnode_hash id i) id m) (ground arith)
        (omega arith)
]

replicas_pos : (virtual_nodes weight : ℕ) → 1 ≤ replicas virtual_nodes weight
unfolding replicas
replicas_pos virtual_nodes weight = ground arith

add_server_lem :
    (m : Manager) (rs : RealServer) (i : ℕ)
    → i < replicas m.hash_ring.virtual_nodes rs.weight
    → (get_server (add_server m rs) rs.id ≡ some rs)
      × (find (vnode_hash rs.id i) (add_server m rs).hash_ring.ring ≡ some rs.id)
unfolding get_server add_server HashRing.add_node
add_server_lem m rs i h = (
  ground (arith, find-put rs.id rs.id rs m.servers),
  insert_replicas-all (replicas m.hash_ring.virtual_nodes rs.weight) 0 i rs.id m.hash_ring.ring
      (omega arith) (omega arith),
)

remove_server_lem :
    (m : Manager) (id : ℕ)
    → IsLinked m
    → (get_server (remove_server m id) id ≡ none) × Lacks id (remove_server m id).hash_ring.ring
unfolding get_server remove_server HashRing.remove_node
remove_server_lem m id w =
    (ground (arith, find-erase id id m.servers w.table), erase_server-Lacks id m.hash_ring.ring)

set_status_lem :
    (m : Manager) (id : ℕ) (status : ServerStatus)
    → (get_server (set_status m id status) id
        ≡ elim (get_server m id) [ none ↦ none | some rs ↦ some (record rs { status = status }) ])
      × ((set_status m id status).hash_ring ≡ m.hash_ring)
unfolding get_server set_status
set_status_lem m id status = elim (Option-cases (find id m.servers)) [
  | inl gone ↦ rw (gone, set_status) (gone, refl)
  | inr (rs, found) ↦
      rw (found, set_status)
        (ground (arith, find-put id id (record rs { status = status }) m.servers), refl)
]

-- Every operation of the manager keeps one entry for a server in the table, the ring in order, and every
-- entry of the ring naming a server of the table. Moreover, after `add_server` the table has just the
-- server that was added under its number, and each of its virtual nodes, of which there is at least
-- one, stands in the ring and names it; after `remove_server` neither the table nor the ring has the
-- number; and `set_status` sets the status of that server if it is there and leaves the ring alone.
pub operations-IsLinked :
    (m : Manager) (rs : RealServer) (id i : ℕ) (status : ServerStatus) (cs : List RealServerConfig)
    → IsLinked m
    → i < replicas m.hash_ring.virtual_nodes rs.weight
    → (IsLinked (add_server m rs)
        × (1 ≤ replicas m.hash_ring.virtual_nodes rs.weight)
        × (get_server (add_server m rs) rs.id ≡ some rs)
        × (find (vnode_hash rs.id i) (add_server m rs).hash_ring.ring ≡ some rs.id))
      × (IsLinked (remove_server m id)
          × (get_server (remove_server m id) id ≡ none)
          × Lacks id (remove_server m id).hash_ring.ring)
      × (IsLinked (set_status m id status)
          × (get_server (set_status m id status) id ≡ elim (get_server m id) [
            | none ↦ none
            | some old ↦ some (record old { status = status })
          ])
          × ((set_status m id status).hash_ring ≡ m.hash_ring))
      × IsLinked (load_from_config m cs).0
unfolding load_from_config
operations-IsLinked m rs id i status cs w h = (
  (
    add_server-IsLinked m rs w,
    replicas_pos m.hash_ring.virtual_nodes rs.weight,
    (add_server_lem m rs i h).0,
    (add_server_lem m rs i h).1,
  ),
  (remove_server-IsLinked m id w, (remove_server_lem m id w).0, (remove_server_lem m id w).1),
  (
    set_status-IsLinked m id status w,
    (set_status_lem m id status).0,
    (set_status_lem m id status).1,
  ),
  load_from-IsLinked 0 m cs w,
)
