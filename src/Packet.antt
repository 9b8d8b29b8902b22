-- ===== src/Packet.antt =====
-- Frames as lists of bytes: the headers of include/protocol/ethernet.h and include/protocol/ip.h, the
-- PacketMeta of include/common/types.h and ProtocolParser::parse. A multi-byte field is read as a
-- little-endian machine reads it. A byte past the end of the frame is read as 0; `parse` reads none.
pub mod Bounds
pub mod Checksum
pub mod Headers
mod Tests
use Prim.Native.Nat.{bit_and}
use l7_loadbalancer.Base.{
  ℕ, ◌+◌, ◌-◌, ◌*◌, ◌/◌, ◌%◌, ◌^◌, Bool, true, false, ◌&&◌, List, [], ◌∷◌, ltb, leb, ◌==◌,
  if◌then◌else◌, u16, sub64, length, get_or, take, drop, not,
}
use l7_loadbalancer.Types.{FiveTuple}

pub record PacketMeta : Type 0 where
  pub src_mac : List ℕ
  pub dst_mac : List ℕ
  pub ether_type : ℕ
  pub src_ip : ℕ
  pub dst_ip : ℕ
  pub ip_protocol : ℕ
  pub ip_ttl : ℕ
  pub src_port : ℕ
  pub dst_port : ℕ
  pub l2_offset : ℕ
  pub l3_offset : ℕ
  pub l4_offset : ℕ
  pub payload_offset : ℕ
  pub total_len : ℕ
  pub payload_len : ℕ

-- `PacketMeta::to_five_tuple`
unfoldable pub to_five_tuple : PacketMeta → FiveTuple
to_five_tuple m = record {
  src_ip = m.src_ip;
  dst_ip = m.dst_ip;
  src_port = m.src_port;
  dst_port = m.dst_port;
  protocol = m.ip_protocol;
}

unfoldable pub read8 : List ℕ → ℕ → ℕ
read8 pkt i = get_or pkt i 0

unfoldable pub read16 : List ℕ → ℕ → ℕ
read16 pkt i = read8 pkt i + read8 pkt (i + 1) * 2 ^ 8

unfoldable pub read32 : List ℕ → ℕ → ℕ
read32 pkt i = read16 pkt i + read16 pkt (i + 2) * 2 ^ 16

abbrev pub ntohs : ℕ → ℕ
ntohs x = x % 256 * 256 + x / 256 % 256

-- `sizeof` of the four headers.
abbrev pub ethernet_size : ℕ
ethernet_size = 14

abbrev pub ipv4_size : ℕ
ipv4_size = 20

abbrev pub tcp_size : ℕ
tcp_size = 20

abbrev pub udp_size : ℕ
udp_size = 8

-- `EthernetHeader::get_ether_type` and `is_ipv4`.
unfoldable pub get_ether_type : List ℕ → ℕ
get_ether_type pkt = ntohs (read16 pkt 12)

unfoldable pub is_ipv4 : List ℕ → Bool
is_ipv4 pkt = get_ether_type pkt == 0x0800

-- The methods of IPv4Header and TcpHeader, on the header at an offset.
unfoldable pub ip_header_len : List ℕ → ℕ → ℕ
ip_header_len pkt l3 = bit_and (read8 pkt l3) 0x0f * 4

unfoldable pub ip_protocol_at : List ℕ → ℕ → ℕ
ip_protocol_at pkt l3 = read8 pkt (l3 + 9)

unfoldable pub is_tcp : List ℕ → ℕ → Bool
is_tcp pkt l3 = ip_protocol_at pkt l3 == 6

unfoldable pub is_udp : List ℕ → ℕ → Bool
is_udp pkt l3 = ip_protocol_at pkt l3 == 17

unfoldable pub tcp_header_len : List ℕ → ℕ → ℕ
tcp_header_len pkt l4 = bit_and (read8 pkt (l4 + 12) / 2 ^ 4) 0x0f * 4

-- The Ethernet part of `parse`.
unfoldable pub parse_ethernet : List ℕ → PacketMeta → PacketMeta
parse_ethernet pkt meta = record meta {
  dst_mac = take 6 pkt;
  src_mac = take 6 (drop 6 pkt);
  ether_type = get_ether_type pkt;
  l2_offset = 0;
  l3_offset = ethernet_size;
}

-- The fields that `parse` takes from the IPv4 header at `l3_offset`.
unfoldable pub parse_ip : List ℕ → PacketMeta → PacketMeta
parse_ip pkt meta = record meta {
  src_ip = read32 pkt (meta.l3_offset + 12);
  dst_ip = read32 pkt (meta.l3_offset + 16);
  ip_protocol = ip_protocol_at pkt meta.l3_offset;
  ip_ttl = read8 pkt (meta.l3_offset + 8);
  l4_offset = u16 (meta.l3_offset + ip_header_len pkt meta.l3_offset);
  total_len = u16 (length pkt);
}

-- The choice between TCP, UDP and anything else, by the header at `l4_offset`.
unfoldable pub parse_ports : List ℕ → PacketMeta → PacketMeta
parse_ports pkt meta =
    if is_tcp pkt meta.l3_offset && leb (meta.l4_offset + tcp_size) (length pkt)
    then record meta {
      src_port = read16 pkt meta.l4_offset;
      dst_port = read16 pkt (meta.l4_offset + 2);
      payload_offset = u16 (meta.l4_offset + tcp_header_len pkt meta.l4_offset);
    }
    else if is_udp pkt meta.l3_offset && leb (meta.l4_offset + udp_size) (length pkt)
    then record meta {
      src_port = read16 pkt meta.l4_offset;
      dst_port = read16 pkt (meta.l4_offset + 2);
      payload_offset = u16 (meta.l4_offset + udp_size);
    }
    else record meta { src_port = 0; dst_port = 0; payload_offset = meta.l4_offset }

unfoldable pub payload : List ℕ → PacketMeta → PacketMeta
payload pkt meta = record meta { payload_len = u16 (sub64 (length pkt) meta.payload_offset) }

-- `ProtocolParser::parse`: the record as it is then, and the result.
unfoldable pub parse : List ℕ → PacketMeta → PacketMeta × Bool
parse pkt meta =
    if ltb (length pkt) ethernet_size
    then (meta, false)
    else if not (is_ipv4 pkt)
    then (parse_ethernet pkt meta, true)
    else if ltb (length pkt) (ethernet_size + ipv4_size)
    then (parse_ethernet pkt meta, false)
    else (payload pkt (parse_ports pkt (parse_ip pkt (parse_ethernet pkt meta))), true)
