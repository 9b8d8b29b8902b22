-- ===== src/Servers/Select.antt =====
-- Which server a flow gets, and how little that changes with the set of servers.
use l7_loadbalancer.Base.{
  ℕ, ◌≡◌, refl, ap, ◌∙◌, ◌≢◌, ◌⊎◌, inl, inr, List, [], ◌∷◌, none, some, arith, Option-cases,
  if◌then◌else◌,
}
use l7_loadbalancer.Base.Assoc.{find, nat_eq, find-put, find-erase}
use l7_loadbalancer.Types.{FiveTuple, RealServer, is_available}
use l7_loadbalancer.Murmur.{Padding, hash_tuple}
use l7_loadbalancer.HashRing
use l7_loadbalancer.HashRing.{HashRing, Entries, lower_bound, begin, pick}
use l7_loadbalancer.HashRing.Remap.{get_server-add_node, get_server-remove_node}
use l7_loadbalancer.HashRing.Successor.{pick-some}
use l7_loadbalancer.Servers.{Manager, add_server, remove_server, select_server, available}
use l7_loadbalancer.Servers.Linked.{Known, IsLinked}

lower_bound-Known :
    (servers : List (ℕ × RealServer)) (h v : ℕ) (m : Entries)
    → Known servers m
    → lower_bound h m ≡ some v
    → find v servers ≢ none
unfolding lower_bound
lower_bound-Known servers h v [] q e = cc
lower_bound-Known servers h v ((k, w) ∷ m) q e =
    ground (arith, lower_bound-Known servers h v m q.1, q.0)

pick-Known :
    (servers : List (ℕ × RealServer)) (h v : ℕ) (m : Entries)
    → Known servers m
    → pick h m ≡ some v
    → find v servers ≢ none
unfolding pick begin lower_bound
pick-Known servers h v [] q e = cc
pick-Known servers h v ((k, w) ∷ m) q e = elim (Option-cases (lower_bound h ((k, w) ∷ m))) [
  | inl gone ↦ let first : some w ≡ some v = rw (gone, pick) at e in ground (arith, q.0)
  | inr (u, found) ↦
      let at_bound : some u ≡ some v = rw (found, pick) at e in
      let same : u ≡ v = cc in
      lower_bound-Known servers h v ((k, w) ∷ m) q (found ∙ ap (λ x. some x) same)
]

pick_cases :
    (h : ℕ) (m : Entries) → ((m ≡ []) × (pick h m ≡ none)) ⊎ ((v : ℕ) × (pick h m ≡ some v))
unfolding pick begin lower_bound
pick_cases h [] = inl (refl, refl)
pick_cases h (e ∷ m) = inr (pick-some h (e ∷ m) (λ c. cc))

-- `select_server` gives null on an empty ring. Otherwise the ring names a server of the table, and
-- that server is given exactly when it is up: there is no second choice.
pub select_server_cases :
    (m : Manager) (t : FiveTuple) (p : Padding)
    → IsLinked m
    → ((m.hash_ring.ring ≡ []) × (select_server m t p ≡ none))
      ⊎ ((id : ℕ) × (rs : RealServer) × (HashRing.get_server m.hash_ring t p ≡ some id)
          × (find id m.servers ≡ some rs)
          × (select_server m t p ≡ (if is_available rs then some rs else none)))
unfolding HashRing.get_server available select_server
select_server_cases m t p w = elim (pick_cases (hash_tuple t p) m.hash_ring.ring) [
  | inl (none_there, e) ↦ inl (none_there, rw (e, select_server) refl)
  | inr (v, e) ↦ elim (Option-cases (find v m.servers)) [
    | inl gone ↦ absurd (pick-Known m.servers (hash_tuple t p) v m.hash_ring.ring w.known e gone)
    | inr (rs, found) ↦ inr (v, rs, e, found, rw (e, select_server, found) refl)
  ]
]

-- Removing another server leaves a flow with the server that it had, and adding a new one leaves it
-- there or moves it to the new one.
select_server-remove_add :
    (m : Manager) (id s : ℕ) (rs new_rs : RealServer) (t : FiveTuple) (p : Padding)
    → IsLinked m
    → HashRing.get_server m.hash_ring t p ≡ some s
    → s ≢ id
    → s ≢ new_rs.id
    → find s m.servers ≡ some rs
    → (select_server (remove_server m id) t p ≡ available (some rs))
      × ((select_server (add_server m new_rs) t p ≡ available (some new_rs))
          ⊎ (select_server (add_server m new_rs) t p ≡ available (some rs)))
unfolding remove_server add_server select_server available
select_server-remove_add m id s rs new_rs t p w e ne fresh found = (removed, added)
  where
    removed : select_server (remove_server m id) t p ≡ available (some rs)
    removed =
        rw
          (
            select_server,
            get_server-remove_node m.hash_ring id s t p ne e,
            find-erase id s m.servers w.table,
          )
          (ground arith)

    added :
        (select_server (add_server m new_rs) t p ≡ available (some new_rs))
        ⊎ (select_server (add_server m new_rs) t p ≡ available (some rs))
    added = elim (get_server-add_node m.hash_ring new_rs.id new_rs.weight t p) [
      | inl to_new ↦
          inl (
            rw (select_server, to_new, find-put new_rs.id new_rs.id new_rs m.servers)
              (ground arith))
      | inr stays ↦
          inr (rw (select_server, stays ∙ e, find-put new_rs.id s new_rs m.servers) (ground arith))
    ]
