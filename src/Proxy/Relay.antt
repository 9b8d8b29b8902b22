-- ===== src/Proxy/Relay.antt =====
-- `close_connection` and `forward_data` of src/main.cpp.
use l7_loadbalancer.Base.{
  ℕ, zero, suc, Bool, true, false, List, [], ◌∷◌, none, some, ltb, ◌==◌, if◌then◌else◌, length,
  drop,
}
use l7_loadbalancer.Base.Assoc.{find, erase, nat_eq}
use l7_loadbalancer.Types.{Statistics, incr, decr}
use l7_loadbalancer.Proxy.State.{
  Sockets, Proxy, Connection, Outcome, returned, dangling, spinning, Sent, finished, blocked,
  failed, unfinished, got, nothing_yet, read_error, wrote, no_room, write_error,
}

module _ {World : Type 0} (net : Sockets World) where
  -- One of the two blocks of `close_connection`.
  unfoldable pub drop_fd : Proxy World → ℕ → Proxy World
  drop_fd s fd =
      if ltb 0 fd
      then record s {
        world = net.close (net.epoll_del s.world fd) fd;
        connections = erase fd s.connections;
      }
      else s

  unfoldable pub close_connection : Proxy World → ℕ → Outcome (Proxy World)
  close_connection s ptr = if ptr == 0 then returned s else elim (find ptr s.heap) [
    | none ↦ dangling
    | some conn ↦
        let s2 = drop_fd (drop_fd s conn.client_fd) conn.backend_fd in
        returned (record s2 {
          heap = erase ptr s2.heap;
          stats = record s2.stats { active_sessions = decr s2.stats.active_sessions };
        })
  ]

  -- The write loop of `forward_data`, on the bytes that are left. A call that writes nothing repeats
  -- it unchanged; each other round leaves fewer bytes, so `fuel` their number is enough.
  unfoldable pub write_all : ℕ → World → ℕ → List ℕ → World × Sent
  write_all fuel w fd [] = (w, finished)
  write_all zero w fd (b ∷ bs) = (w, unfinished)
  write_all (suc fuel) w fd (b ∷ bs) =
      let (w1, r) = net.write w fd (b ∷ bs) in
      elim r [
        | no_room ↦ (w1, blocked)
        | write_error ↦ (w1, failed)
        | wrote k ↦ write_all fuel w1 fd (drop k (b ∷ bs))
      ]

  unfoldable pub count_forwarded : Connection → ℕ → Statistics → Statistics
  count_forwarded conn from_fd stats =
      if from_fd == conn.client_fd
      then record stats {
        rx_packets = incr stats.rx_packets;
        forwarded_packets = incr stats.forwarded_packets;
      }
      else record stats { tx_packets = incr stats.tx_packets }

  -- The first Boolean is the result, the second is `from_closed`.
  unfoldable pub forward_data :
      Proxy World → Connection → ℕ → ℕ → Proxy World × Outcome (Bool × Bool)
  forward_data s conn from_fd to_fd =
      let (w1, r) = net.read s.world from_fd 8192 in
      elim r [
        | nothing_yet ↦ (record s { world = w1 }, returned (true, false))
        | read_error ↦ (record s { world = w1 }, returned (false, false))
        | got bytes ↦ elim bytes [
          | [] ↦ (record s { world = w1 }, returned (true, true))
          | b ∷ bs ↦
              let (w2, sent) = write_all (length (b ∷ bs)) w1 to_fd (b ∷ bs) in
              let counted = record s { world = w2; stats = count_forwarded conn from_fd s.stats } in
              elim sent [
                | failed ↦ (record s { world = w2 }, returned (false, false))
                | unfinished ↦ (record s { world = w2 }, spinning)
                | finished ↦ (counted, returned (true, false))
                | blocked ↦ (counted, returned (true, false))
              ]
        ]
      ]
