-- ===== src/Balancer/Samples.antt =====
-- A forwarder, a flow and the padding of its tuple, for the tests.
use l7_loadbalancer.Base.{true, [], ◌∷◌}
use l7_loadbalancer.Murmur.{Padding}
use l7_loadbalancer.Packet.{PacketMeta}
use l7_loadbalancer.Balancer.{Forward}

-- A forwarder that puts one byte before the frame and sends it.
abbrev pub tunnel : Forward
tunnel frame meta rs = (4 ∷ frame, rs, true)

abbrev pub meta_80 : PacketMeta
meta_80 = record {
  src_mac = [];
  dst_mac = [];
  ether_type = 0x0800;
  src_ip = 0x01020304;
  dst_ip = 0x05060708;
  ip_protocol = 6;
  ip_ttl = 64;
  src_port = 80;
  dst_port = 8080;
  l2_offset = 0;
  l3_offset = 14;
  l4_offset = 34;
  payload_offset = 54;
  total_len = 54;
  payload_len = 0;
}

abbrev pub zeroed : Padding
zeroed = record { first = 0; second = 0; third = 0 }
