-- ===== src/Balancer/Tests.antt =====
-- Two packets of one flow, over one server.
use l7_loadbalancer.Base.{none, Bool, false, ◌⊎◌, ◌≡◌, refl, true, [], ◌∷◌, some}
use l7_loadbalancer.Base.Assoc.{find, nat_eq}
use l7_loadbalancer.Types.{
  incr, RealServer, Session, tuple_key, new_server, up, nat, zero_stats, incr,
}
use l7_loadbalancer.Murmur.{fmix32, rotl32, scramble, mix_block, hash, hash_tuple}
use l7_loadbalancer.HashRing
use l7_loadbalancer.HashRing.{pick, lower_bound, begin}
use l7_loadbalancer.Servers
use l7_loadbalancer.Servers.{available}
use l7_loadbalancer.Sessions.{fresh_session}
use l7_loadbalancer.Packet.{to_five_tuple}
use l7_loadbalancer.Balancer.{Balancer, handle_loadbalance}
use l7_loadbalancer.Balancer.Sticky.{handle_loadbalance-lookup, handle_loadbalance-create}
use l7_loadbalancer.Base.{◌++◌, arith, replicate, List, ℕ}
use l7_loadbalancer.Packet.{read8, read16, get_ether_type, ip_header_len}
use l7_loadbalancer.Packet.Checksum.{calculate}
use l7_loadbalancer.Packet.Checksum.Update.{HasHeader, header_of}
use l7_loadbalancer.Packet.Headers.{parse_mutable, is_arp}
use l7_loadbalancer.Balancer.Dispatch.{
  Replies, count_rx, count_arp, count_tx, handle_arp, echo_reply, dispatch, process_packet,
}
use l7_loadbalancer.Balancer.Counts.{Overruns, process_packet-Counted}
use l7_loadbalancer.Balancer.Echo.{Swapped, echo_reply-Swapped}
use l7_loadbalancer.Balancer.Samples.{tunnel, meta_80, zeroed}

abbrev server : RealServer
server = record new_server { id = 1; status = up }

abbrev fresh : Balancer
fresh = record {
  running = true;
  local_ip = 0x05060708;
  local_mac = [];
  forwarder = some nat;
  servers = record {
    servers = (1, server) ∷ [];
    hash_ring = record { virtual_nodes = 1; ring = (1000, 1) ∷ [] };
  };
  sessions = record { sessions = []; timeout_sec = 300; stats = zero_stats };
  stats = zero_stats;
  frame = 7 ∷ 8 ∷ [];
}

abbrev bound : Session
bound = fresh_session 5 (to_five_tuple meta_80) 1

-- The flow has a session already, for server 1.
abbrev busy : Balancer
busy = record fresh {
  sessions = record {
    sessions = (to_five_tuple meta_80, bound) ∷ [];
    timeout_sec = 300;
    stats = zero_stats;
  };
}

busy_session : find (to_five_tuple meta_80) busy.sessions.sessions ≡ some bound
unfolding find to_five_tuple
busy_session = refl

busy_server : Servers.get_server busy.servers bound.real_server_id ≡ some server
unfolding Servers.get_server find fresh_session
busy_server = refl

fresh_server : Servers.select_server fresh.servers (to_five_tuple meta_80) zeroed ≡ some server
unfolding Servers.select_server available HashRing.get_server hash_tuple hash mix_block scramble
    rotl32 fmix32 pick lower_bound begin to_five_tuple find
fresh_server = refl

handle_loadbalance-lookup_example :
    ((handle_loadbalance tunnel zeroed meta_80 9 10 busy).1 ≡ true)
    × ((handle_loadbalance tunnel zeroed meta_80 9 10 busy).0.frame ≡ 4 ∷ 7 ∷ 8 ∷ [])
    × ((s' : Session) × (find
            (to_five_tuple meta_80)
            (handle_loadbalance tunnel zeroed meta_80 9 10 busy).0.sessions.sessions
          ≡ some s')
        × (s'.real_server_id ≡ bound.real_server_id)
        × (s'.packets ≡ incr bound.packets))
handle_loadbalance-lookup_example =
    handle_loadbalance-lookup tunnel zeroed meta_80 9 10 busy bound server busy_session busy_server
      refl

handle_loadbalance-create_example :
    ((handle_loadbalance tunnel zeroed meta_80 9 10 fresh).1 ≡ true)
    × ((handle_loadbalance tunnel zeroed meta_80 9 10 fresh).0.frame ≡ 4 ∷ 7 ∷ 8 ∷ [])
    × (find
          (to_five_tuple meta_80)
          (handle_loadbalance tunnel zeroed meta_80 9 10 fresh).0.sessions.sessions
        ≡ some (fresh_session 10 (to_five_tuple meta_80) 1))
unfolding find
handle_loadbalance-create_example =
    handle_loadbalance-create tunnel zeroed meta_80 9 10 fresh server refl fresh_server

-- ARP and ICMP code that answers every frame as it is.
abbrev mirror : Replies
mirror = record {
  arp_size = 28;
  arp = λ frame ip mac. (frame, true);
  icmp = λ frame off len. (frame, true);
}

abbrev asked : Balancer
asked = record fresh { frame = replicate 12 1 ++ 8 ∷ 6 ∷ replicate 28 0 }

process_packet-Counted_example :
    ((process_packet tunnel mirror zeroed meta_80 9 10 asked ≡ none)
      × Overruns tunnel mirror zeroed meta_80 9 10 asked.frame)
    ⊎ ((b' : Balancer) × (sent : Bool) × (process_packet tunnel mirror zeroed meta_80 9 10 asked
          ≡ some (b', sent))
        × (b'.stats.rx_packets ≡ incr asked.stats.rx_packets)
        × (((sent ≡ true)
              × (b'.stats.tx_packets ≡ incr asked.stats.tx_packets)
              × (b'.stats.dropped_packets ≡ asked.stats.dropped_packets))
            ⊎ ((sent ≡ false)
                × (b'.stats.tx_packets ≡ asked.stats.tx_packets)
                × ((b'.stats.dropped_packets ≡ asked.stats.dropped_packets)
                    ⊎ (b'.stats.dropped_packets ≡ incr asked.stats.dropped_packets)))))
process_packet-Counted_example = process_packet-Counted tunnel mirror zeroed meta_80 9 10 asked refl

-- It is answered.
asked_reply :
    process_packet tunnel mirror zeroed meta_80 9 10 asked
    ≡ some (count_tx (count_arp (count_rx asked)), true)
unfolding process_packet dispatch parse_mutable is_arp get_ether_type read16 read8 handle_arp
asked_reply = refl

abbrev ping : List ℕ
ping =
    replicate 12 1
    ++ (8 ∷ 0 ∷ 0x45 ∷ 0 ∷ 0 ∷ 28 ∷ 0 ∷ 0 ∷ 0 ∷ 0 ∷ 64 ∷ 1 ∷ 9 ∷ 9 ∷ 10 ∷ 0 ∷ 0 ∷ 1 ∷ 10 ∷ 0 ∷ 0 ∷ 2
        ∷ 0 ∷ 0 ∷ 0 ∷ 0 ∷ 0 ∷ 0 ∷ 0 ∷ 0 ∷ [])

ping-HasHeader : HasHeader ping 14
unfolding ip_header_len read8
ping-HasHeader = record {
  bytes = omega arith;
  five_words = omega arith;
  at_most = omega arith;
  inside = omega arith;
}

echo_reply-Swapped_example :
    (b' : Balancer) × (echo_reply tunnel mirror zeroed meta_80 9 10 fresh ping 14 ≡ some (b', true))
    × Swapped ping b'.frame
    × (calculate (header_of b'.frame 14) ≡ some 0)
echo_reply-Swapped_example =
    echo_reply-Swapped tunnel mirror zeroed meta_80 9 10 fresh ping ping-HasHeader
