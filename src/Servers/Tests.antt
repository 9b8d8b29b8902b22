-- ===== src/Servers/Tests.antt =====
-- A manager with two servers.
use l7_loadbalancer.Base.{ℕ, ◌<◌, ◌≤◌, ◌≡◌, ◌⊎◌, refl, [], ◌∷◌, none, some, arith, if◌then◌else◌}
use l7_loadbalancer.Base.Assoc.{find, nat_eq}
use l7_loadbalancer.Types.{FiveTuple, RealServer, new_server, up, down, is_available}
use l7_loadbalancer.Murmur.{fmix32, rotl32, scramble, mix_block, hash, hash_tuple, Padding}
use l7_loadbalancer.HashRing
use l7_loadbalancer.HashRing.{HashRing, pick, lower_bound, begin, replicas, vnode_hash}
use l7_loadbalancer.Servers.{
  Manager, RealServerConfig, add_server, remove_server, set_status, select_server, load_from_config,
  get_server,
}
use l7_loadbalancer.Servers.Linked.{IsLinked}
use l7_loadbalancer.Servers.Effects.{operations-IsLinked}
use l7_loadbalancer.HashRing.Remap.{Lacks}
use l7_loadbalancer.Servers.Select.{select_server_cases}

abbrev server : ℕ → RealServer
server id = record new_server { id = id; status = up }

-- Two servers, with three virtual nodes.
abbrev pair : Manager
pair = record {
  servers = (1, server 1) ∷ (2, server 2) ∷ [];
  hash_ring = record {
    virtual_nodes = 1;
    ring = (1000, 1) ∷ (2000000000, 2) ∷ (4000000000, 1) ∷ [];
  };
}

pair-IsLinked : IsLinked pair
unfolding find
pair-IsLinked = record {
  table = (refl, (refl, tt));
  ring = omega arith;
  known = (λ e. cc, (λ e. cc, (λ e. cc, tt)));
}

abbrev flow : FiveTuple
flow = record {
  src_ip = 0x01020304;
  dst_ip = 0x05060708;
  src_port = 80;
  dst_port = 8080;
  protocol = 6;
}

abbrev zeroed : Padding
zeroed = record { first = 0; second = 0; third = 0 }

flow_server : HashRing.get_server pair.hash_ring flow zeroed ≡ some 2
unfolding HashRing.get_server hash_tuple hash mix_block scramble rotl32 fmix32 pick lower_bound
flow_server = refl

abbrev one_config : RealServerConfig
one_config = record {
  ip = b'1' ∷ b'.' ∷ b'2' ∷ b'.' ∷ b'3' ∷ b'.' ∷ b'4' ∷ [];
  port = 80;
  weight = 100;
  mac = [];
}

some_node : 0 < replicas 1 100
unfolding replicas
some_node = omega arith

operations-IsLinked_example :
    (IsLinked (add_server pair (server 3))
      × (1 ≤ replicas pair.hash_ring.virtual_nodes 100)
      × (get_server (add_server pair (server 3)) 3 ≡ some (server 3))
      × (find (vnode_hash 3 0) (add_server pair (server 3)).hash_ring.ring ≡ some 3))
    × (IsLinked (remove_server pair 2)
        × (get_server (remove_server pair 2) 2 ≡ none)
        × Lacks 2 (remove_server pair 2).hash_ring.ring)
    × (IsLinked (set_status pair 2 down)
        × (get_server (set_status pair 2 down) 2 ≡ elim (get_server pair 2) [
          | none ↦ none
          | some old ↦ some (record old { status = down })
        ])
        × ((set_status pair 2 down).hash_ring ≡ pair.hash_ring))
    × IsLinked (load_from_config pair (one_config ∷ [])).0
operations-IsLinked_example =
    operations-IsLinked pair (server 3) 2 0 down (one_config ∷ []) pair-IsLinked some_node

select_server_cases_example :
    ((pair.hash_ring.ring ≡ []) × (select_server pair flow zeroed ≡ none))
    ⊎ ((id : ℕ) × (rs : RealServer) × (HashRing.get_server pair.hash_ring flow zeroed ≡ some id)
        × (find id pair.servers ≡ some rs)
        × (select_server pair flow zeroed ≡ (if is_available rs then some rs else none)))
select_server_cases_example = select_server_cases pair flow zeroed pair-IsLinked
