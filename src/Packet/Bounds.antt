-- ===== src/Packet/Bounds.antt =====
-- What `parse` accepts, and where it looks.
use l7_loadbalancer.Base.{
  ℕ, ◌+◌, ◌≤◌, ◌≡◌, refl, ap, ◌∙◌, ◌⊎◌, inl, inr, true, false, ◌&&◌, ◌||◌, not, List, arith, length,
  leb, ltb, Bool-cases, u16,
}
use l7_loadbalancer.Base.Bits.{bit_and_mask}
use l7_loadbalancer.Packet.{
  PacketMeta, read8, read16, is_ipv4, ip_header_len, is_tcp, is_udp, ip_protocol_at, parse_ethernet,
  parse_ip, parse_ports, payload, parse,
}

-- `parse` accepts every frame with a whole Ethernet header, and for IPv4 a whole IPv4 header too.
pub parse_accepts :
    (pkt : List ℕ) (meta : PacketMeta)
    → (parse pkt meta).1 ≡ (leb 14 (length pkt) && (not (is_ipv4 pkt) || leb 34 (length pkt)))
unfolding parse
parse_accepts pkt meta = ground arith

ip_header_len-le : (pkt : List ℕ) (l3 : ℕ) → ip_header_len pkt l3 ≤ 60
unfolding ip_header_len
ip_header_len-le pkt l3 = let m = bit_and_mask 4 (read8 pkt l3) in omega arith

-- A whole TCP or UDP header, by the protocol byte of the IP header.
abbrev pub HasPorts : List ℕ → ℕ → Type 0
HasPorts pkt l4 =
    ((read8 pkt 23 ≡ 6) × (l4 + 20 ≤ length pkt)) ⊎ ((read8 pkt 23 ≡ 17) × (l4 + 8 ≤ length pkt))

-- The result of the choice between the transports.
abbrev Ports : List ℕ → PacketMeta → Type 0
Ports pkt m =
    (HasPorts pkt m.l4_offset
      × (m.src_port ≡ read16 pkt m.l4_offset)
      × (m.dst_port ≡ read16 pkt (m.l4_offset + 2)))
    ⊎ ((¬ HasPorts pkt m.l4_offset) × (m.src_port ≡ 0) × (m.dst_port ≡ 0))

parse_ports-Ports :
    (pkt : List ℕ) (meta : PacketMeta) → meta.l3_offset ≡ 14 → Ports pkt (parse_ports pkt meta)
unfolding parse_ports is_tcp is_udp ip_protocol_at
parse_ports-Ports pkt meta at =
    let place : meta.l3_offset + 9 ≡ 23 = omega arith in
    let byte : read8 pkt (meta.l3_offset + 9) ≡ read8 pkt 23 = ap (read8 pkt) place in
    elim (Bool-cases (is_tcp pkt meta.l3_offset && leb (meta.l4_offset + 20) (length pkt))) [
      | inl tcp ↦ rw (tcp, parse_ports) (inl (ground arith, refl, refl))
      | inr not_tcp ↦
          elim (Bool-cases (is_udp pkt meta.l3_offset && leb (meta.l4_offset + 8) (length pkt))) [
            | inl udp ↦ rw (not_tcp, udp, parse_ports) (inl (ground arith, refl, refl))
            | inr not_udp ↦
                rw (not_tcp, not_udp, parse_ports) (inr ((λ h. ground arith), refl, refl))
          ]
    ]

l4_offset-parse_ports :
    (pkt : List ℕ) (meta : PacketMeta) → (parse_ports pkt meta).l4_offset ≡ meta.l4_offset
unfolding parse_ports
l4_offset-parse_ports pkt meta = ground arith

-- Of an IPv4 frame of at least 34 bytes, `parse` puts the transport header behind the IP header as long
-- as that says it is, at most 74 bytes into the frame. It takes the ports from
-- the first four bytes of that header exactly if the protocol is TCP and 20 bytes follow there, or UDP
-- and 8 bytes follow; otherwise it sets both to 0.
pub parse_ports_lem :
    (pkt : List ℕ) (meta : PacketMeta)
    → is_ipv4 pkt ≡ true
    → 34 ≤ length pkt
    → let m = (parse pkt meta).0 in
      (m.l4_offset ≡ 14 + ip_header_len pkt 14)
      × (m.l4_offset ≤ 74)
      × ((HasPorts pkt m.l4_offset
            × (m.src_port ≡ read16 pkt m.l4_offset)
            × (m.dst_port ≡ read16 pkt (m.l4_offset + 2)))
          ⊎ ((¬ HasPorts pkt m.l4_offset) × (m.src_port ≡ 0) × (m.dst_port ≡ 0)))
unfolding parse parse_ethernet parse_ip payload
parse_ports_lem pkt meta v4 long =
    let m3 = parse_ip pkt (parse_ethernet pkt meta) in
    let small = ip_header_len-le pkt 14 in
    let place : (parse_ports pkt m3).l4_offset ≡ 14 + ip_header_len pkt 14 =
      l4_offset-parse_ports pkt m3
      ∙ (let e : u16 (14 + ip_header_len pkt 14) ≡ 14 + ip_header_len pkt 14 = omega arith in e) in
    let whole : ltb (length pkt) 14 ≡ false = ground arith in
    let whole_ip : ltb (length pkt) 34 ≡ false = ground arith in
    rw (parse, whole, v4, whole_ip) (place, omega arith, parse_ports-Ports pkt m3 refl)
