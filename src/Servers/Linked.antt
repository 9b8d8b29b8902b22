-- ===== src/Servers/Linked.antt =====
-- The table and the ring agree: whatever the ring can answer stands in the table.
use l7_loadbalancer.Base.{
  ℕ, zero, suc, ◌+◌, ◌^◌, ◌≤◌, ◌<◌, ◌≡◌, refl, ◌≢◌, List, [], ◌∷◌, none, some, arith, length, All,
  Option-cases, inl, inr, ◌==◌, u32, Bool-cases, get_elem?, ◌∙◌,
}
use l7_loadbalancer.Base.Assoc.{
  find, put, erase, IsMap, nat_eq, find-put, find-erase, put-IsMap, erase-IsMap,
}
use l7_loadbalancer.Types.{RealServer, ServerStatus}
use l7_loadbalancer.HashRing
use l7_loadbalancer.HashRing.{
  HashRing, Entries, insert_replicas, erase_server, vnode_hash, replicas,
}
use l7_loadbalancer.HashRing.Order.{
  IsRing, insert_replicas-IsSorted, insert_replicas-AreHashes, erase_server-From,
  erase_server-AreHashes,
}
use l7_loadbalancer.Servers.{
  Manager, RealServerConfig, init, add_server, remove_server, set_status, get_server, from_config,
  load_from, load_from_config,
}

-- Every entry of the ring names a server of the table.
abbrev pub Known : List (ℕ × RealServer) → Entries → Type 0
Known servers m = All (λ e. find e.1 servers ≢ none) m

pub record IsLinked (m : Manager) : Type 0 where
  pub table : IsMap m.servers
  pub ring : IsRing m.hash_ring
  pub known : Known m.servers m.hash_ring.ring

put-Known :
    (servers : List (ℕ × RealServer)) (k id : ℕ) (m : Entries)
    → find id servers ≢ none
    → Known servers m
    → Known servers (HashRing.put k id m)
unfolding HashRing.put
put-Known servers k id [] h q = (h, tt)
put-Known servers k id ((j, w) ∷ m) h q = ground (arith, put-Known servers k id m h q.1, q.0, h)

insert_replicas-Known :
    (servers : List (ℕ × RealServer)) (n i id : ℕ) (m : Entries)
    → find id servers ≢ none
    → Known servers m
    → Known servers (insert_replicas n i id m)
unfolding insert_replicas
insert_replicas-Known servers zero i id m h q = q
insert_replicas-Known servers (suc n) i id m h q =
    insert_replicas-Known servers n (i + 1) id (HashRing.put (vnode_hash id i) id m) h
      (put-Known servers (vnode_hash id i) id m h q)

-- A table that knows more keeps the ring known.
Known-put :
    (servers : List (ℕ × RealServer)) (id : ℕ) (rs : RealServer) (m : Entries)
    → Known servers m
    → Known (put id rs servers) m
Known-put servers id rs [] q = tt
Known-put servers id rs ((j, w) ∷ m) q =
    (λ e. ground (arith, find-put id w rs servers, q.0), Known-put servers id rs m q.1)

Known-erase :
    (servers : List (ℕ × RealServer)) (id : ℕ) (m : Entries)
    → IsMap servers
    → Known servers m
    → Known (erase id servers) (erase_server id m)
unfolding erase_server
Known-erase servers id [] w q = tt
Known-erase servers id ((k, v) ∷ m) w q = elim (Bool-cases (v == id)) [
  | inl same ↦ rw same (Known-erase servers id m w q.1)
  | inr other ↦
      rw other (λ e. ground (arith, find-erase id v servers w, q.0), Known-erase servers id m w q.1)
]

find-put_self :
    (servers : List (ℕ × RealServer)) (id : ℕ) (rs : RealServer)
    → find id (put id rs servers) ≢ none
find-put_self servers id rs e = ground (arith, find-put id id rs servers)

-- The empty manager is linked.
pub init-IsLinked : IsLinked init
unfolding init HashRing.new
init-IsLinked = record { table = tt; ring = record { sorted = tt; hashes = tt }; known = tt }

pub add_server-IsLinked : (m : Manager) (rs : RealServer) → IsLinked m → IsLinked (add_server m rs)
unfolding add_server HashRing.add_node
add_server-IsLinked m rs w =
    let n = replicas m.hash_ring.virtual_nodes rs.weight in
    record {
      table = put-IsMap rs.id rs m.servers w.table;
      ring = record {
        sorted = insert_replicas-IsSorted n 0 rs.id m.hash_ring.ring w.ring.sorted;
        hashes = insert_replicas-AreHashes n 0 rs.id m.hash_ring.ring w.ring.hashes;
      };
      known =
          insert_replicas-Known (put rs.id rs m.servers) n 0 rs.id m.hash_ring.ring
            (find-put_self m.servers rs.id rs)
            (Known-put m.servers rs.id rs m.hash_ring.ring w.known);
    }

pub remove_server-IsLinked : (m : Manager) (id : ℕ) → IsLinked m → IsLinked (remove_server m id)
unfolding remove_server HashRing.remove_node
remove_server-IsLinked m id w = record {
  table = erase-IsMap id m.servers w.table;
  ring = record {
    sorted = erase_server-From 0 id m.hash_ring.ring w.ring.sorted;
    hashes = erase_server-AreHashes id m.hash_ring.ring w.ring.hashes;
  };
  known = Known-erase m.servers id m.hash_ring.ring w.table w.known;
}

pub set_status-IsLinked :
    (m : Manager) (id : ℕ) (status : ServerStatus) → IsLinked m → IsLinked (set_status m id status)
unfolding set_status
set_status-IsLinked m id status w = elim (Option-cases (find id m.servers)) [
  | inl gone ↦ rw (gone, set_status) w
  | inr (rs, found) ↦
      rw (found, set_status)
        (record {
          table = put-IsMap id (record rs { status = status }) m.servers w.table;
          ring = w.ring;
          known = Known-put m.servers id (record rs { status = status }) m.hash_ring.ring w.known;
        })
]

pub load_from-IsLinked :
    (i : ℕ) (m : Manager) (cs : List RealServerConfig) → IsLinked m → IsLinked (load_from i m cs)
unfolding load_from
load_from-IsLinked i m [] w = w
load_from-IsLinked i m (c ∷ cs) w =
    load_from-IsLinked (i + 1) (add_server m (from_config i c)) cs
      (add_server-IsLinked m (from_config i c) w)

-- Loading leaves the servers of higher numbers alone.
find-load_from :
    (i k : ℕ) (m : Manager) (cs : List RealServerConfig)
    → k ≤ i
    → i + length cs < 2 ^ 32
    → find k (load_from i m cs).servers ≡ find k m.servers
unfolding load_from add_server from_config
find-load_from i k m [] h b = refl
find-load_from i k m (c ∷ cs) h b =
    find-load_from (i + 1) k (add_server m (from_config i c)) cs (omega arith) (omega arith)
    ∙ ground (arith, find-put (from_config i c).id k (from_config i c) m.servers)

find-add_config :
    (i : ℕ) (m : Manager) (c : RealServerConfig)
    → i + 1 < 2 ^ 32
    → find (i + 1) (add_server m (from_config i c)).servers ≡ some (from_config i c)
unfolding add_server from_config
find-add_config i m c b =
    let rs = from_config i c in
    let id : u32 (i + 1) ≡ i + 1 = omega arith in
    ground (arith, find-put (u32 (i + 1)) (i + 1) rs m.servers)

get-load_from :
    (i j k : ℕ) (m : Manager) (cs : List RealServerConfig) (c : RealServerConfig)
    → k ≡ i + j
    → i + length cs < 2 ^ 32
    → get_elem? cs j ≡ some c
    → find (k + 1) (load_from i m cs).servers ≡ some (from_config k c)
unfolding load_from
get-load_from i j k m [] c ek b e = cc
get-load_from i zero k m (c' ∷ cs) c ek b e =
    let ki : k ≡ i = omega arith in
    let same : c ≡ c' = cc in
    rw (ki, same)
      (find-load_from (i + 1) (i + 1) (add_server m (from_config i c')) cs (omega arith)
          (omega arith)
        ∙ find-add_config i m c' (omega arith))
get-load_from i (suc j) k m (c' ∷ cs) c ek b e =
    get-load_from (i + 1) j k (add_server m (from_config i c')) cs c (omega arith) (omega arith) e

-- After loading, entry `i` of the configuration is the server of number `i + 1`, up and with the
-- configured addresses, port and weight, as long as the numbers fit a uint32_t.
get_server-load_from_config :
    (m : Manager) (cs : List RealServerConfig) (i : ℕ) (c : RealServerConfig)
    → length cs < 2 ^ 32
    → get_elem? cs i ≡ some c
    → get_server (load_from_config m cs).0 (i + 1) ≡ some (from_config i c)
unfolding get_server load_from_config
get_server-load_from_config m cs i c b e = get-load_from 0 i i m cs c (omega arith) (omega arith) e
