-- ===== src/Balancer/Counts.antt =====
-- What a packet does to the counters.
use l7_loadbalancer.Base.{
  ℕ, ◌≡◌, refl, ap, ◌∙◌, ◌⊎◌, inl, inr, Bool, true, false, ◌&&◌, not, List, Option, none, some,
  arith, ◌==◌, if◌then◌else◌, length, Bool-cases, Option-cases, subst, sub64,
}
use l7_loadbalancer.Types.{Session, Statistics, incr}
use l7_loadbalancer.Murmur.{Padding}
use l7_loadbalancer.Servers
use l7_loadbalancer.Sessions
use l7_loadbalancer.Packet.{PacketMeta, to_five_tuple, parse, is_ipv4, is_tcp, is_udp}
use l7_loadbalancer.Packet.Checksum.{update}
use l7_loadbalancer.Packet.Headers.{parse_mutable, is_arp, is_icmp, swap_mac, swap_ip}
use l7_loadbalancer.Balancer.{Forward, Balancer, send, new_flow, old_flow, handle_loadbalance}
use l7_loadbalancer.Balancer.Dispatch.{
  Replies, handle_arp, echo_reply, handle_icmp, handle_parsed, handle_ipv4, dispatch,
  process_packet, count_rx, count_icmp, count_tcp, count_udp,
}

-- Between two states of the counters: a packet that is sent is counted once as sent and not as dropped,
-- any other is not counted as sent and at most once as dropped. No packet is counted as received here.
abbrev pub Counted : Statistics → Statistics → Bool → Type 0
Counted st st' sent =
    (st'.rx_packets ≡ st.rx_packets)
    × (((sent ≡ true)
          × (st'.tx_packets ≡ incr st.tx_packets)
          × (st'.dropped_packets ≡ st.dropped_packets))
        ⊎ ((sent ≡ false)
            × (st'.tx_packets ≡ st.tx_packets)
            × ((st'.dropped_packets ≡ st.dropped_packets)
                ⊎ (st'.dropped_packets ≡ incr st.dropped_packets))))

module _ (forward : Forward) (replies : Replies) (p : Padding) (blank : PacketMeta)
    (now now' : ℕ) where
  new_flow-Counted :
      (meta : PacketMeta) (b : Balancer)
      → Counted b.stats
          (new_flow forward p meta now now' b).0.stats
          (new_flow forward p meta now now' b).1
  unfolding new_flow send
  new_flow-Counted meta b =
      elim (Option-cases (Servers.select_server b.servers (to_five_tuple meta) p)) [
        | inl e ↦ rw (new_flow, e) (ground arith)
        | inr (rs, e) ↦ elim (Bool-cases (forward b.frame meta rs).2) [
          | inl f ↦ rw (new_flow, e, send, f) (ground arith)
          | inr f ↦ rw (new_flow, e, send, f) (ground arith)
        ]
      ]

  old_flow-Counted :
      (meta : PacketMeta) (b : Balancer) (len : ℕ) (s : Session)
      → Counted b.stats
          (old_flow forward p meta now now' b len s).0.stats
          (old_flow forward p meta now now' b len s).1
  unfolding old_flow send
  old_flow-Counted meta b len s =
      elim (Option-cases (Servers.get_server b.servers s.real_server_id)) [
        | inl e ↦ rw (old_flow, e) (new_flow-Counted meta b)
        | inr (rs, e) ↦ elim (Bool-cases (forward b.frame meta rs).2) [
          | inl f ↦ rw (old_flow, e, send, f) (ground arith)
          | inr f ↦
              rw (old_flow, e, send, f)
                (new_flow-Counted meta (send forward b meta s.real_server_id rs).0)
        ]
      ]

  handle_loadbalance-Counted :
      (meta : PacketMeta) (b : Balancer)
      → Counted b.stats
          (handle_loadbalance forward p meta now now' b).0.stats
          (handle_loadbalance forward p meta now now' b).1
  unfolding handle_loadbalance
  handle_loadbalance-Counted meta b =
      let looked = Sessions.lookup b.sessions now (to_five_tuple meta) in
      let b1 = record b { sessions = looked.0 } in
      elim (Option-cases looked.1) [
        | inl e ↦ rw (handle_loadbalance, e) (new_flow-Counted meta b1)
        | inr (s, e) ↦ rw (handle_loadbalance, e) (old_flow-Counted meta b1 (length b.frame) s)
      ]

  -- The ICMP code makes a reply of the frame whose checksum would be summed past its end.
  abbrev OverrunsAt : PacketMeta → List ℕ → Type 0
  OverrunsAt meta frame =
      let r = replies.icmp frame meta.l4_offset (sub64 (length frame) meta.l4_offset) in
      (r.1 ≡ true) × (update (swap_ip (swap_mac r.0) meta.l3_offset) meta.l3_offset ≡ none)

  abbrev pub Overruns : List ℕ → Type 0
  Overruns frame = OverrunsAt (parse frame blank).0 frame

  -- What a handler leaves, if it does not read past the frame, and else what holds then.
  abbrev Answers : Type 0 → Statistics → Option (Balancer × Bool) → Type 0
  Answers F st none = F
  Answers F st (some r) = Counted st r.0.stats r.1

  choose-Answers :
      (F : Type 0) (st : Statistics) (c : Bool) (x y : Option (Balancer × Bool))
      → Answers F st x
      → Answers F st y
      → Answers F st (if c then x else y)
  choose-Answers F st true x y ax ay = ax
  choose-Answers F st false x y ax ay = ay

  quiet : (st : Statistics) → Counted st st false
  quiet st = (refl, inr (refl, refl, inl refl))

  handle_arp-Answers :
      (b : Balancer)
      → Answers (Overruns b.frame) b.stats (some (handle_arp forward replies p blank now now' b))
  unfolding handle_arp
  handle_arp-Answers b = ground arith

  echo_reply-Answers :
      (b : Balancer) (frame : List ℕ) (l3 : ℕ)
      → Answers
          (update (swap_ip (swap_mac frame) l3) l3 ≡ none)
          b.stats
          (echo_reply forward replies p blank now now' b frame l3)
  unfolding echo_reply
  echo_reply-Answers b frame l3 = elim (Option-cases (update (swap_ip (swap_mac frame) l3) l3)) [
    | inl e ↦ rw (echo_reply, e) refl
    | inr (f, e) ↦ rw (echo_reply, e) (refl, inl (refl, refl, refl))
  ]

  weaken-Answers :
      {F G : Type 0} (st : Statistics) (o : Option (Balancer × Bool))
      → (F → G)
      → Answers F st o
      → Answers G st o
  weaken-Answers st none f a = f a
  weaken-Answers st (some r) f a = a

  handle_icmp-Answers :
      (b : Balancer) (meta : PacketMeta)
      → Answers
          (OverrunsAt meta b.frame)
          b.stats
          (handle_icmp forward replies p blank now now' b meta)
  unfolding handle_icmp
  handle_icmp-Answers b meta =
      let r = replies.icmp b.frame meta.l4_offset (sub64 (length b.frame) meta.l4_offset) in
      let reply = echo_reply forward replies p blank now now' (count_icmp b) r.0 meta.l3_offset in
      let silent : Option (Balancer × Bool) = some (record (count_icmp b) { frame = r.0 }, false) in
      by_cases (λ c. Answers (OverrunsAt meta b.frame) b.stats (if c then reply else silent)) r.1
        (λ e.
          weaken-Answers {F = update (swap_ip (swap_mac r.0) meta.l3_offset) meta.l3_offset ≡ none}
            {G = OverrunsAt meta b.frame} b.stats reply (λ gone. (e, gone))
            (echo_reply-Answers (count_icmp b) r.0 meta.l3_offset))
        (quiet b.stats)
    where
      by_cases : (P : Bool → Type 0) (c : Bool) → (c ≡ true → P true) → P false → P c
      by_cases P true t f = t refl
      by_cases P false t f = f

  handle_parsed-Answers :
      (b : Balancer) (meta : PacketMeta)
      → Answers
          (OverrunsAt meta b.frame)
          b.stats
          (handle_parsed forward replies p blank now now' b meta)
  unfolding handle_parsed
  handle_parsed-Answers b meta =
      choose-Answers (OverrunsAt meta b.frame) b.stats
        (is_icmp b.frame meta.l3_offset && meta.dst_ip == b.local_ip) _ _
        (handle_icmp-Answers b meta)
        (choose-Answers (OverrunsAt meta b.frame) b.stats (not (meta.dst_ip == b.local_ip)) _ _
          (quiet b.stats)
          (choose-Answers (OverrunsAt meta b.frame) b.stats (is_tcp b.frame meta.l3_offset) _ _
            (handle_loadbalance-Counted meta (count_tcp b))
            (choose-Answers (OverrunsAt meta b.frame) b.stats (is_udp b.frame meta.l3_offset) _ _
              (handle_loadbalance-Counted meta (count_udp b)) (quiet b.stats))))

  handle_ipv4-Answers :
      (b : Balancer)
      → Answers (Overruns b.frame) b.stats (handle_ipv4 forward replies p blank now now' b)
  unfolding handle_ipv4
  handle_ipv4-Answers b =
      choose-Answers (Overruns b.frame) b.stats (parse b.frame blank).1 _ _
        (handle_parsed-Answers b (parse b.frame blank).0) (refl, inr (refl, refl, inr refl))

  dispatch-Answers :
      (b : Balancer)
      → Answers (Overruns b.frame) b.stats (dispatch forward replies p blank now now' b)
  unfolding dispatch
  dispatch-Answers b = elim (Option-cases (parse_mutable b.frame)) [
    | inl e ↦ rw (dispatch, e) (refl, inr (refl, refl, inr refl))
    | inr (eth, e) ↦
        rw (dispatch, e)
          (choose-Answers (Overruns b.frame) b.stats (is_arp b.frame) _ _ (handle_arp-Answers b) (
            choose-Answers (Overruns b.frame) b.stats (is_ipv4 b.frame) _ _ (handle_ipv4-Answers b)
              (refl, inr (refl, refl, inr refl))))
  ]

  running :
      (b : Balancer)
      → b.running ≡ true
      → process_packet forward replies p blank now now' b
        ≡ dispatch forward replies p blank now now' (count_rx b)
  unfolding process_packet
  running b up =
      ap
        (λ c. if c then dispatch forward replies p blank now now' (count_rx b) else some (b, false))
        up

  -- While the balancer runs, for every packet one of two things holds. Either the ICMP code makes a reply
  -- of it whose checksum is summed past the end of the frame. Or the packet is counted once as
  -- received; the result is true exactly where it is counted once as sent, and then it is not counted
  -- as dropped; any other is counted as dropped at most once.
  pub process_packet-Counted :
      (b : Balancer)
      → b.running ≡ true
      → ((process_packet forward replies p blank now now' b ≡ none) × Overruns b.frame)
        ⊎ ((b' : Balancer) × (sent : Bool) × (process_packet forward replies p blank now now' b
              ≡ some (b', sent))
            × (b'.stats.rx_packets ≡ incr b.stats.rx_packets)
            × (((sent ≡ true)
                  × (b'.stats.tx_packets ≡ incr b.stats.tx_packets)
                  × (b'.stats.dropped_packets ≡ b.stats.dropped_packets))
                ⊎ ((sent ≡ false)
                    × (b'.stats.tx_packets ≡ b.stats.tx_packets)
                    × ((b'.stats.dropped_packets ≡ b.stats.dropped_packets)
                        ⊎ (b'.stats.dropped_packets ≡ incr b.stats.dropped_packets)))))
  unfolding process_packet
  process_packet-Counted b up =
      let o = dispatch forward replies p blank now now' (count_rx b) in
      let all = dispatch-Answers (count_rx b) in
      elim (Option-cases o) [
        | inl e ↦
            inl (running b up ∙ e, subst (Answers (Overruns b.frame) (count_rx b).stats) e all)
        | inr ((b', sent), e) ↦
            let (rx, counts) = subst (Answers (Overruns b.frame) (count_rx b).stats) e all in
            inr (b', sent, running b up ∙ e, rx, counts)
      ]
