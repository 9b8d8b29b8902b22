-- ===== src/HashRing/Tests.antt =====
-- A small ring, and what adding and removing servers does to it.
use l7_loadbalancer.Base.{ℕ, zero, suc, ◌<◌, ◌≡◌, ◌⊎◌, refl, [], ◌∷◌, some, arith}
use l7_loadbalancer.Types.{FiveTuple}
use l7_loadbalancer.Text.{to_string, digits_from}
use l7_loadbalancer.Murmur.{fmix32, rotl32, scramble, mix_block, hash, hash_tuple, Padding}
use l7_loadbalancer.HashRing.{
  HashRing, vnode_hash, replicas, add_node, remove_node, get_server, pick, lower_bound,
}
use l7_loadbalancer.HashRing.Order.{IsRing}
use l7_loadbalancer.HashRing.Remap.{
  IsFree, get_server-add_node, get_server-remove_node, remove_node-add_node,
}
use l7_loadbalancer.HashRing.Successor.{IsNearest, get_server-IsNearest}

-- Three virtual nodes of servers 1 and 2.
abbrev small : HashRing
small = record { virtual_nodes = 1; ring = (1000, 1) ∷ (2000000000, 2) ∷ (4000000000, 1) ∷ [] }

abbrev flow : FiveTuple
flow = record {
  src_ip = 0x01020304;
  dst_ip = 0x05060708;
  src_port = 80;
  dst_port = 8080;
  protocol = 6;
}

abbrev zeroed : Padding
zeroed = record { first = 0; second = 0; third = 0 }

small-IsRing : IsRing small
small-IsRing = omega arith

flow_server : get_server small flow zeroed ≡ some 2
unfolding get_server hash_tuple hash mix_block scramble rotl32 fmix32 pick lower_bound
flow_server = refl

to_string_runs : to_string 150 ≡ b'1' ∷ b'5' ∷ b'0' ∷ []
unfolding to_string digits_from
to_string_runs = refl

get_server-add_node_example :
    (get_server (add_node small 3 100) flow zeroed ≡ some 3)
    ⊎ (get_server (add_node small 3 100) flow zeroed ≡ get_server small flow zeroed)
get_server-add_node_example = get_server-add_node small 3 100 flow zeroed

get_server-remove_node_example : get_server (remove_node small 1) flow zeroed ≡ some 2
get_server-remove_node_example =
    get_server-remove_node small 1 2 flow zeroed (omega arith) flow_server

-- The one virtual node of server 3 hits none of the three hashes.
vnode_3 : vnode_hash 3 0 ≡ 2290702390
unfolding vnode_hash hash mix_block scramble rotl32 fmix32 to_string digits_from
vnode_3 = refl

vnode_3-IsFree : (i : ℕ) → i < 1 → IsFree (vnode_hash 3 i) 3 small.ring
vnode_3-IsFree zero h = rw vnode_3 (omega arith)
vnode_3-IsFree (suc i) h = absurd (omega arith)

remove_node-add_node_example : remove_node (add_node small 3 100) 3 ≡ small
unfolding replicas
remove_node-add_node_example = remove_node-add_node small 3 100 (omega arith) vnode_3-IsFree

get_server-IsNearest_example :
    (k : ℕ) × (v : ℕ) × (get_server small flow zeroed ≡ some v)
    × IsNearest (hash_tuple flow zeroed) k v small.ring
get_server-IsNearest_example = get_server-IsNearest small flow zeroed small-IsRing (λ e. cc)
