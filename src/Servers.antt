-- ===== src/Servers.antt =====
-- RealServerManager of include/lb/real_server.h: the table of servers and the hash ring over them. A
-- pointer into the table is the server that stands there.
pub mod Linked
pub mod Effects
pub mod Select
pub mod Loaded
mod Tests
use l7_loadbalancer.Base.{
  ℕ, ◌+◌, Bool, true, false, List, [], ◌∷◌, Option, none, some, length, map, if◌then◌else◌, u32,
}
use l7_loadbalancer.Base.Assoc.{find, put, erase, nat_eq}
use l7_loadbalancer.Types.{FiveTuple, RealServer, new_server, ServerStatus, up, is_available}
use l7_loadbalancer.Murmur.{Padding}
use l7_loadbalancer.HashRing
use l7_loadbalancer.HashRing.{HashRing}
use l7_loadbalancer.Address.{ip_from_string, mac_from_string}

-- RealServerConfig of include/common/config.h.
pub record RealServerConfig : Type 0 where
  pub ip : List ℕ
  pub port : ℕ
  pub weight : ℕ
  pub mac : List ℕ

pub record Manager : Type 0 where
  pub servers : List (ℕ × RealServer)
  pub hash_ring : HashRing

unfoldable pub init : Manager
init = record { servers = []; hash_ring = HashRing.new 150 }

unfoldable pub add_server : Manager → RealServer → Manager
add_server m rs = record m {
  servers = put rs.id rs m.servers;
  hash_ring = HashRing.add_node m.hash_ring rs.id rs.weight;
}

unfoldable pub remove_server : Manager → ℕ → Manager
remove_server m id = record m {
  servers = erase id m.servers;
  hash_ring = HashRing.remove_node m.hash_ring id;
}

unfoldable pub set_status : Manager → ℕ → ServerStatus → Manager
set_status m id status = elim (find id m.servers) [
  | none ↦ m
  | some rs ↦ record m { servers = put id (record rs { status = status }) m.servers }
]

unfoldable pub get_server : Manager → ℕ → Option RealServer
get_server m id = find id m.servers

-- The second half of `select_server`, once the ring has answered.
unfoldable pub available : Option RealServer → Option RealServer
available none = none
available (some rs) = if is_available rs then some rs else none

-- `none` is the null pointer.
unfoldable pub select_server : Manager → FiveTuple → Padding → Option RealServer
unfolding available
select_server m t p = elim (HashRing.get_server m.hash_ring t p) [
  | none ↦ none
  | some server_id ↦ available (find server_id m.servers)
]

unfoldable pub get_all_servers : Manager → List RealServer
get_all_servers m = map (λ e. e.1) m.servers

unfoldable pub count : Manager → ℕ
count m = length m.servers

-- The server that `load_from_config` makes of entry `i` of the configuration.
unfoldable pub from_config : ℕ → RealServerConfig → RealServer
from_config i c = record new_server {
  id = u32 (i + 1);
  ip = ip_from_string c.ip;
  port = c.port;
  mac = mac_from_string c.mac;
  weight = c.weight;
  status = up;
}

-- The loop of `load_from_config` from entry `i` on.
unfoldable pub load_from : ℕ → Manager → List RealServerConfig → Manager
load_from i m [] = m
load_from i m (c ∷ cs) = load_from (i + 1) (add_server m (from_config i c)) cs

-- It always returns true.
unfoldable pub load_from_config : Manager → List RealServerConfig → Manager × Bool
load_from_config m cs = (load_from 0 m cs, true)
