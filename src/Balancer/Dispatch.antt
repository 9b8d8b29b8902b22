-- ===== src/Balancer/Dispatch.antt =====
-- `process_packet` of include/core/loadbalancer.h and the handlers that it chooses from. The ARP and
-- ICMP code is a parameter: `arp` and `icmp` give the frame as they leave it and whether there is a
-- reply to send. `arp_size` is `sizeof(ArpHeader)`, and `blank` what a PacketMeta holds before it is
-- parsed. `none` is a checksum that would read past the end of the frame.
use l7_loadbalancer.Base.{
  ℕ, ◌+◌, Bool, true, false, ◌&&◌, not, List, Option, none, some, ltb, ◌==◌, if◌then◌else◌, sub64,
  length,
}
use l7_loadbalancer.Types.{Statistics, incr}
use l7_loadbalancer.Murmur.{Padding}
use l7_loadbalancer.Packet.{PacketMeta, parse, is_ipv4, is_tcp, is_udp, ethernet_size}
use l7_loadbalancer.Packet.Checksum.{update}
use l7_loadbalancer.Packet.Headers.{parse_mutable, is_arp, is_icmp, swap_mac, swap_ip}
use l7_loadbalancer.Balancer.{Forward, Balancer, handle_loadbalance}

pub record Replies : Type 0 where
  pub arp_size : ℕ
  pub arp : List ℕ → ℕ → List ℕ → List ℕ × Bool
  pub icmp : List ℕ → ℕ → ℕ → List ℕ × Bool

abbrev pub count_tx : Balancer → Balancer
count_tx b = record b { stats = record b.stats { tx_packets = incr b.stats.tx_packets } }

abbrev pub drop_packet : Balancer → Balancer
drop_packet b = record b {
  stats = record b.stats { dropped_packets = incr b.stats.dropped_packets };
}

abbrev pub count_arp : Balancer → Balancer
count_arp b = record b { stats = record b.stats { arp_packets = incr b.stats.arp_packets } }

abbrev pub count_icmp : Balancer → Balancer
count_icmp b = record b { stats = record b.stats { icmp_packets = incr b.stats.icmp_packets } }

abbrev pub count_tcp : Balancer → Balancer
count_tcp b = record b { stats = record b.stats { tcp_packets = incr b.stats.tcp_packets } }

abbrev pub count_udp : Balancer → Balancer
count_udp b = record b { stats = record b.stats { udp_packets = incr b.stats.udp_packets } }

abbrev pub count_rx : Balancer → Balancer
count_rx b = record b { stats = record b.stats { rx_packets = incr b.stats.rx_packets } }

module _ (forward : Forward) (replies : Replies) (p : Padding) (blank : PacketMeta)
    (now now' : ℕ) where
  unfoldable pub handle_arp : Balancer → Balancer × Bool
  handle_arp b =
      if ltb (length b.frame) (ethernet_size + replies.arp_size)
      then (b, false)
      else (let r = replies.arp b.frame b.local_ip b.local_mac in
          let b1 = record (count_arp b) { frame = r.0 } in
          if r.1 then (count_tx b1, true) else (b1, false))

  -- What is done to a reply that `handle_echo_request` has made of the frame.
  unfoldable pub echo_reply : Balancer → List ℕ → ℕ → Option (Balancer × Bool)
  echo_reply b frame l3 = elim (update (swap_ip (swap_mac frame) l3) l3) [
    | none ↦ none
    | some frame' ↦ some (record (count_tx b) { frame = frame' }, true)
  ]

  unfoldable pub handle_icmp : Balancer → PacketMeta → Option (Balancer × Bool)
  handle_icmp b meta =
      let r = replies.icmp b.frame meta.l4_offset (sub64 (length b.frame) meta.l4_offset) in
      if r.1
      then echo_reply (count_icmp b) r.0 meta.l3_offset
      else some (record (count_icmp b) { frame = r.0 }, false)

  -- `handle_ipv4` once the frame is parsed.
  unfoldable pub handle_parsed : Balancer → PacketMeta → Option (Balancer × Bool)
  handle_parsed b meta =
      if is_icmp b.frame meta.l3_offset && meta.dst_ip == b.local_ip
      then handle_icmp b meta
      else if not (meta.dst_ip == b.local_ip)
      then some (b, false)
      else if is_tcp b.frame meta.l3_offset
      then some (handle_loadbalance forward p meta now now' (count_tcp b))
      else if is_udp b.frame meta.l3_offset
      then some (handle_loadbalance forward p meta now now' (count_udp b))
      else some (b, false)

  unfoldable pub handle_ipv4 : Balancer → Option (Balancer × Bool)
  handle_ipv4 b =
      let r = parse b.frame blank in
      if r.1 then handle_parsed b r.0 else some (drop_packet b, false)

  -- `process_packet` once the packet is counted.
  unfoldable pub dispatch : Balancer → Option (Balancer × Bool)
  dispatch b = elim (parse_mutable b.frame) [
    | none ↦ some (drop_packet b, false)
    | some eth ↦
        if is_arp b.frame
        then some (handle_arp b)
        else if is_ipv4 b.frame
        then handle_ipv4 b
        else some (drop_packet b, false)
  ]

  unfoldable pub process_packet : Balancer → Option (Balancer × Bool)
  process_packet b = if b.running then dispatch (count_rx b) else some (b, false)

unfoldable pub get_stats : Balancer → Statistics
get_stats b = b.stats

unfoldable pub stop : Balancer → Balancer
stop b = record b { running = false }
