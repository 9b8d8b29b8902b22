-- ===== src/Packet/Headers.antt =====
-- The methods of EthernetHeader, Ethernet, IPv4Header, TcpHeader and UdpHeader on the bytes of a frame,
-- of include/protocol/ethernet.h and include/protocol/ip.h. A header is named by its offset.
use Prim.Native.Nat.{bit_and}
use l7_loadbalancer.Base.{
  ℕ, ◌+◌, ◌/◌, ◌%◌, ◌^◌, Bool, true, false, ◌&&◌, List, [], ◌∷◌, Option, none, some, ltb, ◌==◌,
  if◌then◌else◌, length, set, take, drop,
}
use l7_loadbalancer.Packet.{
  read8, read16, read32, ntohs, get_ether_type, ip_protocol_at, ethernet_size,
}
use l7_loadbalancer.Packet.Checksum.{store16}

-- `memcpy(frame + i, bytes, n)`.
unfoldable pub splice : List ℕ → ℕ → List ℕ → List ℕ
splice xs i [] = xs
splice xs i (b ∷ bs) = splice (set xs i b) (i + 1) bs

unfoldable pub bytes_at : List ℕ → ℕ → ℕ → List ℕ
bytes_at xs i n = take n (drop i xs)

-- `memcmp(a, b, n) == 0` for two runs of the same length.
unfoldable pub same_bytes : List ℕ → List ℕ → Bool
same_bytes [] [] = true
same_bytes (a ∷ as') (b ∷ bs) = a == b && same_bytes as' bs
same_bytes _ _ = false

-- The pointer of `parse` and `parse_mutable`: the offset of the header, or null.
unfoldable pub parse_mutable : List ℕ → Option ℕ
parse_mutable frame = if ltb (length frame) ethernet_size then none else some 0

unfoldable pub set_ether_type : List ℕ → ℕ → List ℕ
set_ether_type frame type = store16 frame 12 (ntohs type)

unfoldable pub is_arp : List ℕ → Bool
is_arp frame = get_ether_type frame == 0x0806

unfoldable pub get_dst_mac : List ℕ → List ℕ
get_dst_mac frame = bytes_at frame 0 6

unfoldable pub get_src_mac : List ℕ → List ℕ
get_src_mac frame = bytes_at frame 6 6

unfoldable pub set_dst_mac : List ℕ → List ℕ → List ℕ
set_dst_mac frame mac = splice frame 0 mac

unfoldable pub set_src_mac : List ℕ → List ℕ → List ℕ
set_src_mac frame mac = splice frame 6 mac

-- By way of a copy of the destination.
unfoldable pub swap_mac : List ℕ → List ℕ
swap_mac frame =
    let tmp = bytes_at frame 0 6 in
    let moved = splice frame 0 (bytes_at frame 6 6) in splice moved 6 tmp

abbrev pub broadcast_mac : List ℕ
broadcast_mac = 0xff ∷ 0xff ∷ 0xff ∷ 0xff ∷ 0xff ∷ 0xff ∷ []

unfoldable pub is_broadcast : List ℕ → Bool
is_broadcast frame = same_bytes (bytes_at frame 0 6) broadcast_mac

unfoldable pub mac_equal : List ℕ → List ℕ → Bool
mac_equal a b = same_bytes (take 6 a) (take 6 b)

unfoldable pub is_multicast : List ℕ → Bool
is_multicast mac = if bit_and (read8 mac 0) 1 == 0 then false else true

unfoldable pub get_version : List ℕ → ℕ → ℕ
get_version frame l3 = bit_and (read8 frame l3 / 2 ^ 4) 0x0f

unfoldable pub get_total_length : List ℕ → ℕ → ℕ
get_total_length frame l3 = ntohs (read16 frame (l3 + 2))

unfoldable pub is_icmp : List ℕ → ℕ → Bool
is_icmp frame l3 = ip_protocol_at frame l3 == 1

unfoldable pub store32 : List ℕ → ℕ → ℕ → List ℕ
store32 xs i v = store16 (store16 xs i (v % 2 ^ 16)) (i + 2) (v / 2 ^ 16)

unfoldable pub set_src_ip : List ℕ → ℕ → ℕ → List ℕ
set_src_ip frame l3 ip = store32 frame (l3 + 12) ip

unfoldable pub set_dst_ip : List ℕ → ℕ → ℕ → List ℕ
set_dst_ip frame l3 ip = store32 frame (l3 + 16) ip

unfoldable pub swap_ip : List ℕ → ℕ → List ℕ
swap_ip frame l3 =
    let tmp = read32 frame (l3 + 12) in
    let moved = set_src_ip frame l3 (read32 frame (l3 + 16)) in set_dst_ip moved l3 tmp

-- The ports of TcpHeader and UdpHeader, which stand at the same places.
unfoldable pub get_src_port : List ℕ → ℕ → ℕ
get_src_port frame l4 = ntohs (read16 frame l4)

unfoldable pub get_dst_port : List ℕ → ℕ → ℕ
get_dst_port frame l4 = ntohs (read16 frame (l4 + 2))

unfoldable pub set_src_port : List ℕ → ℕ → ℕ → List ℕ
set_src_port frame l4 port = store16 frame l4 (ntohs port)

unfoldable pub set_dst_port : List ℕ → ℕ → ℕ → List ℕ
set_dst_port frame l4 port = store16 frame (l4 + 2) (ntohs port)

-- `UdpHeader::get_length`
unfoldable pub udp_length : List ℕ → ℕ → ℕ
udp_length frame l4 = ntohs (read16 frame (l4 + 4))
