-- ===== src/Balancer/Sticky.antt =====
-- A flow stays with its server.
use l7_loadbalancer.Base.{ℕ, ◌≡◌, refl, true, List, none, some, arith, length, Bool-cases, inl, inr}
use l7_loadbalancer.Base.Assoc.{find, put, nat_eq, find-put}
use l7_loadbalancer.Types.{FiveTuple, RealServer, Session, incr, touch, tuple_key, tuple_eq_iff}
use l7_loadbalancer.Murmur.{Padding}
use l7_loadbalancer.Servers
use l7_loadbalancer.Sessions
use l7_loadbalancer.Sessions.{account, fresh_session}
use l7_loadbalancer.Packet.{PacketMeta, to_five_tuple}
use l7_loadbalancer.Balancer.{Forward, Balancer, send, new_flow, old_flow, handle_loadbalance}

find-put_self :
    (t : FiveTuple) (s : Session) (m : List (FiveTuple × Session)) → find t (put t s m) ≡ some s
find-put_self t s m = ground (arith, find-put t t s m, tuple_eq_iff t t)

lookup_found :
    (m : Sessions.Manager) (now : ℕ) (t : FiveTuple) (s : Session)
    → find t m.sessions ≡ some s
    → Sessions.lookup m now t
      ≡ (record m { sessions = put t (touch now s) m.sessions }, some (touch now s))
unfolding Sessions.lookup
lookup_found m now t s e = rw (e, Sessions.lookup) refl

lookup_missing :
    (m : Sessions.Manager) (now : ℕ) (t : FiveTuple)
    → find t m.sessions ≡ none
    → Sessions.lookup m now t ≡ (m, none)
unfolding Sessions.lookup
lookup_missing m now t e = rw (e, Sessions.lookup) refl

find-update_stats :
    (m : Sessions.Manager) (now : ℕ) (t : FiveTuple) (s : Session) (bytes : ℕ)
    → find t m.sessions ≡ some s
    → find t (Sessions.update_stats m now t bytes).sessions ≡ some (account now bytes s)
unfolding Sessions.update_stats
find-update_stats m now t s bytes e =
    rw (e, Sessions.update_stats) (find-put_self t (account now bytes s) m.sessions)

module _ (forward : Forward) (p : Padding) (meta : PacketMeta) (now now' : ℕ) where
  -- A packet of a flow whose session names a server that is in the table, and that the forwarder can
  -- send there, goes to that server, whether or not the ring would name it now; the flow keeps its
  -- session, with the same server and one packet more.
  pub handle_loadbalance-lookup :
      (b : Balancer) (s : Session) (rs : RealServer)
      → find (to_five_tuple meta) b.sessions.sessions ≡ some s
      → Servers.get_server b.servers s.real_server_id ≡ some rs
      → (forward b.frame meta rs).2 ≡ true
      → let r = handle_loadbalance forward p meta now now' b in
        (r.1 ≡ true)
        × (r.0.frame ≡ (forward b.frame meta rs).0)
        × ((s' : Session) × (find (to_five_tuple meta) r.0.sessions.sessions ≡ some s')
            × (s'.real_server_id ≡ s.real_server_id)
            × (s'.packets ≡ incr s.packets))
  unfolding handle_loadbalance old_flow send touch account
  handle_loadbalance-lookup b s rs e f sent =
      let t = to_five_tuple meta in
      let m1 = (Sessions.lookup b.sessions now t).0 in
      let again : find t m1.sessions ≡ some (touch now s) =
        rw (lookup_found b.sessions now t s e)
          (find-put_self t (touch now s) b.sessions.sessions) in
      let kept = find-update_stats m1 now' t (touch now s) (length b.frame) again in
      rw (handle_loadbalance, lookup_found b.sessions now t s e, old_flow, f, send, sent)
        (refl, refl, (account now' (length b.frame) (touch now s), kept, refl, refl))

  -- The first packet of a flow, for which a server can be selected, leaves the flow with a session for
  -- that server, and is sent there: the result is what the forwarder says.
  pub handle_loadbalance-create :
      (b : Balancer) (rs : RealServer)
      → find (to_five_tuple meta) b.sessions.sessions ≡ none
      → Servers.select_server b.servers (to_five_tuple meta) p ≡ some rs
      → let r = handle_loadbalance forward p meta now now' b in
        (r.1 ≡ (forward b.frame meta rs).2)
        × (r.0.frame ≡ (forward b.frame meta rs).0)
        × (find (to_five_tuple meta) r.0.sessions.sessions
            ≡ some (fresh_session now' (to_five_tuple meta) rs.id))
  unfolding handle_loadbalance new_flow send Sessions.create
  handle_loadbalance-create b rs e f =
      let t = to_five_tuple meta in
      let made =
        find-put_self t (fresh_session now' t rs.id)
          (Sessions.lookup b.sessions now t).0.sessions in
      elim (Bool-cases (forward b.frame meta rs).2) [
        | inl sent ↦
            rw (handle_loadbalance, lookup_missing b.sessions now t e, new_flow, f, send, sent)
              (refl, refl, made)
        | inr lost ↦
            rw (handle_loadbalance, lookup_missing b.sessions now t e, new_flow, f, send, lost)
              (refl, refl, made)
      ]
