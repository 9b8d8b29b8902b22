-- ===== src/HashRing.antt =====
-- ConsistentHashRing of include/lb/consistent_hash.h. The `std::map` from hash to server is the list
-- of its entries by rising hash. The lock makes each call one step.
pub mod Order
pub mod Remap
pub mod Successor
mod Tests
use l7_loadbalancer.Base.{
  ℕ, zero, suc, ◌+◌, ◌-◌, ◌*◌, ◌/◌, ◌%◌, ◌^◌, Bool, true, false, List, [], ◌∷◌, ◌++◌, Option, none,
  some, length, ltb, leb, ◌==◌, if◌then◌else◌, u32,
}
use l7_loadbalancer.Types.{FiveTuple}
use l7_loadbalancer.Text.{to_string}
use l7_loadbalancer.Murmur.{Padding, hash, hash_tuple}

-- Pairs of a hash and a server.
abbrev pub Entries : Type 0
Entries = List (ℕ × ℕ)

pub record HashRing : Type 0 where
  pub virtual_nodes : ℕ
  pub ring : Entries

-- `std::map`: `m[k] = v`.
unfoldable pub put : ℕ → ℕ → Entries → Entries
put k v [] = (k, v) ∷ []
put k v ((j, w) ∷ m) =
    if ltb k j then (k, v) ∷ (j, w) ∷ m else if k == j then (k, v) ∷ m else (j, w) ∷ put k v m

-- The hash of virtual node `i` of a server.
unfoldable pub vnode_hash : ℕ → ℕ → ℕ
vnode_hash server_id i = hash (to_string server_id ++ (b'#' ∷ to_string i)) 0

unfoldable pub new : ℕ → HashRing
new virtual_nodes = record { virtual_nodes = virtual_nodes; ring = [] }

unfoldable pub replicas : ℕ → ℕ → ℕ
replicas virtual_nodes weight =
    let r = u32 (virtual_nodes * weight) / 100 in if ltb r 1 then 1 else r

-- The loop of `add_node` from replica `i` on, with the rounds left first.
unfoldable pub insert_replicas : ℕ → ℕ → ℕ → Entries → Entries
insert_replicas zero i server_id m = m
insert_replicas (suc left) i server_id m =
    insert_replicas left (i + 1) server_id (put (vnode_hash server_id i) server_id m)

unfoldable pub add_node : HashRing → ℕ → ℕ → HashRing
add_node r server_id weight = record r {
  ring = insert_replicas (replicas r.virtual_nodes weight) 0 server_id r.ring;
}

-- The loop of `remove_node`.
unfoldable pub erase_server : ℕ → Entries → Entries
erase_server server_id [] = []
erase_server server_id ((k, v) ∷ m) =
    if v == server_id then erase_server server_id m else (k, v) ∷ erase_server server_id m

unfoldable pub remove_node : HashRing → ℕ → HashRing
remove_node r server_id = record r { ring = erase_server server_id r.ring }

-- `lower_bound(h)`: the server of the first entry whose hash is not below `h`.
unfoldable pub lower_bound : ℕ → Entries → Option ℕ
lower_bound h [] = none
lower_bound h ((k, v) ∷ m) = if leb h k then some v else lower_bound h m

-- The server of `begin()`.
unfoldable pub begin : Entries → Option ℕ
begin [] = none
begin ((k, v) ∷ m) = some v

-- What the ring gives for a hash: the lower bound, or else the first entry.
unfoldable pub pick : ℕ → Entries → Option ℕ
pick h m = elim (lower_bound h m) [ some v ↦ some v | none ↦ begin m ]

-- `none` is the `false` of the empty ring.
unfoldable pub get_server : HashRing → FiveTuple → Padding → Option ℕ
get_server r t p = pick (hash_tuple t p) r.ring

unfoldable pub node_count : HashRing → ℕ
node_count r = length r.ring

unfoldable pub clear : HashRing → HashRing
clear r = record r { ring = [] }
