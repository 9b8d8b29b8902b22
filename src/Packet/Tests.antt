-- ===== src/Packet/Tests.antt =====
-- A TCP frame of 54 bytes from port 80 to port 8080, in network order.
use l7_loadbalancer.Base.{ℕ, ◌+◌, ◌≤◌, ◌≡◌, refl, ◌⊎◌, List, [], ◌∷◌, ◌++◌, true, arith, replicate}
use l7_loadbalancer.Packet.{
  PacketMeta, read8, read16, get_ether_type, is_ipv4, ip_header_len, parse,
}
use l7_loadbalancer.Packet.Bounds.{HasPorts, parse_ports_lem}
use l7_loadbalancer.Packet.Checksum.{sum_words, fold, calculate, update, incremental_update}
use l7_loadbalancer.Packet.Checksum.Words.{words_sum}
use l7_loadbalancer.Packet.Checksum.Update.{
  HasHeader, header_of, with_checksum, update-calculate, incremental_update-calculate,
}
use l7_loadbalancer.Base.{some}

abbrev frame : List ℕ
frame =
    replicate 12 1
    ++ (8
        ∷ 0
        ∷ 0x45
        ∷ 0
        ∷ 0
        ∷ 40
        ∷ 0
        ∷ 0
        ∷ 0
        ∷ 0
        ∷ 64
        ∷ 6
        ∷ 0
        ∷ 0
        ∷ 10
        ∷ 0
        ∷ 0
        ∷ 1
        ∷ 10
        ∷ 0
        ∷ 0
        ∷ 2
        ∷ 0
        ∷ 80
        ∷ 0x1f
        ∷ 0x90
        ∷ replicate 16 0)

abbrev blank : PacketMeta
blank = record {
  src_mac = [];
  dst_mac = [];
  ether_type = 0;
  src_ip = 0;
  dst_ip = 0;
  ip_protocol = 0;
  ip_ttl = 0;
  src_port = 0;
  dst_port = 0;
  l2_offset = 0;
  l3_offset = 0;
  l4_offset = 0;
  payload_offset = 0;
  total_len = 0;
  payload_len = 0;
}

frame_v4 : is_ipv4 frame ≡ true
unfolding is_ipv4 get_ether_type read16 read8
frame_v4 = refl

parse_ports_lem_example :
    ((parse frame blank).0.l4_offset ≡ 14 + ip_header_len frame 14)
    × ((parse frame blank).0.l4_offset ≤ 74)
    × ((HasPorts frame (parse frame blank).0.l4_offset
          × ((parse frame blank).0.src_port ≡ read16 frame (parse frame blank).0.l4_offset)
          × ((parse frame blank).0.dst_port ≡ read16 frame ((parse frame blank).0.l4_offset + 2)))
        ⊎ ((¬ HasPorts frame (parse frame blank).0.l4_offset)
            × ((parse frame blank).0.src_port ≡ 0)
            × ((parse frame blank).0.dst_port ≡ 0)))
parse_ports_lem_example = parse_ports_lem frame blank frame_v4 (omega arith)

-- The IPv4 header of the frame, which has a checksum of 0.
frame-HasHeader : HasHeader frame 14
unfolding ip_header_len read8
frame-HasHeader = record {
  bytes = omega arith;
  five_words = omega arith;
  at_most = omega arith;
  inside = omega arith;
}

update-calculate_example :
    (c : ℕ) × (update frame 14 ≡ some (with_checksum frame 14 c))
    × (calculate (header_of (with_checksum frame 14 c) 14) ≡ some 0)
update-calculate_example = update-calculate frame 14 frame-HasHeader

-- The checksum over three words, as the second goes from 0x0203 to 0x0a03.
words_checksum : calculate (1 ∷ 0 ∷ 3 ∷ 2 ∷ 5 ∷ 0 ∷ []) ≡ some 0xfdf6
unfolding calculate fold sum_words
words_checksum = refl

incremental_update-calculate_example :
    incremental_update 0xfdf6 0x0203 0x0a03 ≡ calculate (1 ∷ 0 ∷ 3 ∷ 10 ∷ 5 ∷ 0 ∷ [])
unfolding words_sum
incremental_update-calculate_example =
    incremental_update-calculate (1 ∷ 0 ∷ 3 ∷ 2 ∷ 5 ∷ 0 ∷ []) (1 ∷ 0 ∷ 3 ∷ 10 ∷ 5 ∷ 0 ∷ []) 6 0x0203
      0x0a03 0xfdf6 (omega arith) (omega arith) (omega arith) (omega arith) (omega arith)
      (omega arith) refl refl (omega arith) words_checksum
