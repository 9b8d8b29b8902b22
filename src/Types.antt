-- ===== src/Types.antt =====
-- The records and enums of include/common/types.h. An IPv4 address is a uint32_t and a port a
-- uint16_t, both as they stand in memory; a MAC address is its list of six bytes.
use Prim.Native.Nat.{bit_xor}
use l7_loadbalancer.Base.{
  ℕ, ◌+◌, ◌≡◌, Bool, true, false, ◌&&◌, ◌↔◌, List, ◌==◌, arith, replicate, ◌*◌, ◌/◌, ltb, u64,
  sub64,
}
use l7_loadbalancer.Base.Assoc.{Eq}

pub record FiveTuple : Type 0 where
  pub src_ip : ℕ
  pub dst_ip : ℕ
  pub src_port : ℕ
  pub dst_port : ℕ
  pub protocol : ℕ

-- `operator==`
abbrev pub tuple_eq : FiveTuple → FiveTuple → Bool
tuple_eq a b =
    a.src_ip == b.src_ip
    && a.dst_ip == b.dst_ip
    && a.src_port == b.src_port
    && a.dst_port == b.dst_port
    && a.protocol == b.protocol

-- `FiveTuple::reverse`
unfoldable pub reverse : FiveTuple → FiveTuple
reverse t = record {
  src_ip = t.dst_ip;
  dst_ip = t.src_ip;
  src_port = t.dst_port;
  dst_port = t.src_port;
  protocol = t.protocol;
}

-- One line of FiveTupleHash, and all of them. The three `std::hash` are parameters.
unfoldable pub mix_in : ℕ → ℕ → ℕ
mix_in hash x = bit_xor hash (u64 (x + 0x9e3779b9 + u64 (hash * 64) + hash / 4))

unfoldable pub tuple_hash : (ℕ → ℕ) → (ℕ → ℕ) → (ℕ → ℕ) → FiveTuple → ℕ
tuple_hash hash_32 hash_16 hash_8 t =
    mix_in
      (mix_in
        (mix_in (mix_in (mix_in 0 (hash_32 t.src_ip)) (hash_32 t.dst_ip)) (hash_16 t.src_port))
        (hash_16 t.dst_port))
      (hash_8 t.protocol)

pub tuple_eq_iff : (a b : FiveTuple) → (tuple_eq a b ≡ true) ↔ (a ≡ b)
tuple_eq_iff a b = ground arith

instance abbrev pub tuple_key : Eq FiveTuple
tuple_key = record { beq = tuple_eq; beq_iff = tuple_eq_iff }

pub data ServerStatus : Type 0 where
  up down checking : ServerStatus

pub data ForwardMode : Type 0 where
  nat dr : ForwardMode

pub record RealServer : Type 0 where
  pub id : ℕ
  pub ip : ℕ
  pub port : ℕ
  pub mac : List ℕ
  pub weight : ℕ
  pub status : ServerStatus
  pub conn_count : ℕ
  pub total_conn : ℕ
  pub bytes_in : ℕ
  pub bytes_out : ℕ

-- The default constructor.
abbrev pub new_server : RealServer
new_server = record {
  id = 0;
  ip = 0;
  port = 0;
  mac = replicate 6 0;
  weight = 100;
  status = checking;
  conn_count = 0;
  total_conn = 0;
  bytes_in = 0;
  bytes_out = 0;
}

abbrev pub is_up : ServerStatus → Bool
is_up up = true
is_up _ = false

-- `RealServer::is_available`
abbrev pub is_available : RealServer → Bool
is_available rs = is_up rs.status

pub record Session : Type 0 where
  pub client_tuple : FiveTuple
  pub server_tuple : FiveTuple
  pub real_server_id : ℕ
  pub create_time : ℕ
  pub last_active : ℕ
  pub packets : ℕ
  pub bytes : ℕ

-- The default constructor of FiveTuple.
abbrev pub new_tuple : FiveTuple
new_tuple = record { src_ip = 0; dst_ip = 0; src_port = 0; dst_port = 0; protocol = 0 }

-- `Session::is_expired`, with the clock's reading as an argument. Times are uint64_t nanoseconds, and
-- the difference wraps.
unfoldable pub is_expired : ℕ → ℕ → Session → Bool
is_expired now timeout_sec s = ltb (u64 (timeout_sec * 1000000000)) (sub64 now s.last_active)

-- `Session::touch`
unfoldable pub touch : ℕ → Session → Session
touch now s = record s { last_active = u64 now }

pub record Statistics : Type 0 where
  pub rx_packets : ℕ
  pub tx_packets : ℕ
  pub dropped_packets : ℕ
  pub arp_packets : ℕ
  pub icmp_packets : ℕ
  pub tcp_packets : ℕ
  pub udp_packets : ℕ
  pub forwarded_packets : ℕ
  pub nat_translations : ℕ
  pub active_sessions : ℕ
  pub total_sessions : ℕ

-- `Statistics::reset`, and the value-initialised counters.
abbrev pub zero_stats : Statistics
zero_stats = record {
  rx_packets = 0;
  tx_packets = 0;
  dropped_packets = 0;
  arp_packets = 0;
  icmp_packets = 0;
  tcp_packets = 0;
  udp_packets = 0;
  forwarded_packets = 0;
  nat_translations = 0;
  active_sessions = 0;
  total_sessions = 0;
}

-- `++` and `--` on a uint64_t counter.
abbrev pub incr : ℕ → ℕ
incr n = u64 (n + 1)

abbrev pub decr : ℕ → ℕ
decr n = sub64 n 1
