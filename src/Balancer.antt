-- ===== src/Balancer.antt =====
-- LoadBalancer of include/core/loadbalancer.h: its members and `handle_loadbalance`. The forwarder is a parameter: from the frame, its
-- meta data and the server it gives the frame and the server as it leaves them, and whether it sent
-- the frame. The two clock readings are those of `lookup` and of what follows it.
pub mod Sticky
pub mod Dispatch
pub mod Counts
pub mod Echo
pub mod Start
mod Samples
mod Launch
mod Tests
use l7_loadbalancer.Base.{ℕ, Bool, true, false, List, Option, none, some, length, if◌then◌else◌}
use l7_loadbalancer.Base.Assoc.{find, put, nat_eq}
use l7_loadbalancer.Types.{FiveTuple, RealServer, ForwardMode, Session, Statistics, incr}
use l7_loadbalancer.Murmur.{Padding}
use l7_loadbalancer.Servers
use l7_loadbalancer.Sessions
use l7_loadbalancer.Packet.{PacketMeta, to_five_tuple}

abbrev pub Forward : Type 0
Forward = List ℕ → PacketMeta → RealServer → List ℕ × RealServer × Bool

-- The managers that the handlers reach, the members of LoadBalancer, and the frame. `forwarder` is the
-- kind of forwarder that `forwarder_` points to, if any.
pub record Balancer : Type 0 where
  pub running : Bool
  pub local_ip : ℕ
  pub local_mac : List ℕ
  pub forwarder : Option ForwardMode
  pub servers : Servers.Manager
  pub sessions : Sessions.Manager
  pub stats : Statistics
  pub frame : List ℕ

-- One call of `forward`, which writes through its two pointers.
unfoldable pub send : Forward → Balancer → PacketMeta → ℕ → RealServer → Balancer × Bool
send forward b meta id rs =
    let (frame', rs', done) = forward b.frame meta rs in
    (
      record b {
        frame = frame';
        servers = record b.servers { servers = put id rs' b.servers.servers };
      },
      done,
    )

abbrev count_sent : Statistics → Statistics
count_sent st = record st {
  forwarded_packets = incr st.forwarded_packets;
  tx_packets = incr st.tx_packets;
}

abbrev count_new : Statistics → Statistics
count_new st = record st {
  forwarded_packets = incr st.forwarded_packets;
  nat_translations = incr st.nat_translations;
  tx_packets = incr st.tx_packets;
}

abbrev count_dropped : Statistics → Statistics
count_dropped st = record st { dropped_packets = incr st.dropped_packets }

module _ (forward : Forward) (p : Padding) (meta : PacketMeta) (now now' : ℕ) where
  abbrev flow : FiveTuple
  flow = to_five_tuple meta

  -- From "new connection" on.
  unfoldable pub new_flow : Balancer → Balancer × Bool
  new_flow b = elim (Servers.select_server b.servers flow p) [
    | none ↦ (record b { stats = count_dropped b.stats }, false)
    | some rs ↦
        let b1 = record b { sessions = Sessions.create b.sessions now' flow rs.id } in
        let (b2, done) = send forward b1 meta rs.id rs in
        if done
        then (record b2 { stats = count_new b2.stats }, true)
        else (record b2 { stats = count_dropped b2.stats }, false)
  ]

  -- A session was found: `forward` to its server, and what the handler does when that fails.
  unfoldable pub old_flow : Balancer → ℕ → Session → Balancer × Bool
  old_flow b len session = elim (Servers.get_server b.servers session.real_server_id) [
    | none ↦ new_flow b
    | some rs ↦
        let (b1, done) = send forward b meta session.real_server_id rs in
        if done
        then (
          record b1 {
            sessions = Sessions.update_stats b1.sessions now' flow len;
            stats = count_sent b1.stats;
          },
          true,
        )
        else new_flow b1
  ]

  unfoldable pub handle_loadbalance : Balancer → Balancer × Bool
  handle_loadbalance b =
      let (sessions', hit) = Sessions.lookup b.sessions now flow in
      let b1 = record b { sessions = sessions' } in
      elim hit [ none ↦ new_flow b1 | some session ↦ old_flow b1 (length b.frame) session ]
