-- ===== src/Proxy/Safety/Events.antt =====
-- `handle_event` keeps the connections safe.
use l7_loadbalancer.Base.{
  ℕ, ◌+◌, ◌^◌, ◌<◌, ◌≡◌, refl, sym, ◌∙◌, ap, ◌⊎◌, inl, inr, Bool, true, false, ◌&&◌, not, List,
  some, arith, length, if◌then◌else◌, ◌==◌, Bool-cases, Option-cases,
}
use l7_loadbalancer.Base.Assoc.{find, put, nat_eq, length-put, find-put}
use l7_loadbalancer.Murmur.{Padding}
use l7_loadbalancer.Proxy.State.{Sockets, Proxy, Connection, Event, Outcome, returned, and_then}
use l7_loadbalancer.Proxy.Accept.{handle_accept}
use l7_loadbalancer.Proxy.Relay.{close_connection, forward_data}
use l7_loadbalancer.Proxy.Events.{
  close_and_return, from_client, from_backend, on_readable, on_hangup, transfer, backend_ready,
  handle_connection, handle_event,
}
use l7_loadbalancer.Proxy.Heap.Close.{IsHeap-update}
use l7_loadbalancer.Proxy.Forward.{Writes}
use l7_loadbalancer.Proxy.Safety.{Descriptors, IsSafe}
use l7_loadbalancer.Proxy.Safety.Accept.{handle_accept-IsSafe}
use l7_loadbalancer.Proxy.Safety.Relay.{close_connection-IsSafe, forward_data-IsSafe}

module _ {World : Type 0} (net : Sockets World) (Open : World → ℕ → Type 0)
    (laws : Descriptors net Open) (sent : World → ℕ → List ℕ) (writes : Writes net sent) where
  -- The handler returns a safe state.
  abbrev Ends : Outcome (Proxy World) → Type 0
  Ends o = (s' : Proxy World) × (o ≡ returned s') × IsSafe Open s'

  -- A part of the handler returns a safe state, with the object still there if the handler goes on.
  abbrev GoesOn : ℕ → Connection → Outcome (Proxy World × Bool) → Type 0
  GoesOn ptr c o =
      (s' : Proxy World) × (b : Bool) × (o ≡ returned (s', b))
      × IsSafe Open s'
      × ((b ≡ false) ⊎ ((find ptr s'.heap ≡ some c) × (length s'.heap < 2 ^ 64)))

  choose-GoesOn :
      (ptr : ℕ) (c : Connection) (b : Bool) {x y : Outcome (Proxy World × Bool)}
      → GoesOn ptr c x
      → GoesOn ptr c y
      → GoesOn ptr c (if b then x else y)
  choose-GoesOn ptr c true p q = p
  choose-GoesOn ptr c false p q = q

  choose-Ends :
      (b : Bool) {x y : Outcome (Proxy World)} → Ends x → Ends y → Ends (if b then x else y)
  choose-Ends true p q = p
  choose-Ends false p q = q

  module _ (s : Proxy World) (ptr : ℕ) (c : Connection) (safe : IsSafe Open s)
      (small : length s.heap < 2 ^ 64) (at : find ptr s.heap ≡ some c) where
    close_and_return-GoesOn : GoesOn ptr c (close_and_return net s ptr)
    unfolding close_and_return and_then
    close_and_return-GoesOn =
        let (s', e, safe', gone) = close_connection-IsSafe net Open laws s ptr c safe small at in
        (s', false, rw (e, close_and_return, and_then) refl, safe', inl refl)

    on_hangup-Ends : (fd : ℕ) → Ends (on_hangup net s ptr c fd)
    unfolding on_hangup
    on_hangup-Ends fd = elim (Bool-cases (fd == c.backend_fd)) [
      | inl b ↦ rw (b, on_hangup) (s, refl, safe)
      | inr nb ↦
          let (s', e, safe', gone) = close_connection-IsSafe net Open laws s ptr c safe small at in
          rw (nb, on_hangup) (s', e, safe')
    ]

  module _ (s : Proxy World) (ptr : ℕ) (c : Connection) (safe : IsSafe Open s)
      (small : length s.heap < 2 ^ 64) (at : find ptr s.heap ≡ some c) where
    from_client-GoesOn : GoesOn ptr c (from_client net s ptr c)
    unfolding from_client and_then
    from_client-GoesOn =
        let r = forward_data net s c c.client_fd c.backend_fd in
        let (o, e, safe', same) =
          forward_data-IsSafe net Open laws sent writes s c c.client_fd c.backend_fd safe in
        let at' : find ptr r.0.heap ≡ some c = ap (λ h. find ptr h) same ∙ at in
        let small' : length r.0.heap < 2 ^ 64 = rw same small in
        elim (Bool-cases (o.0 && not o.1)) [
          | inl go ↦ rw (e, from_client, and_then, go) (r.0, true, refl, safe', inr (at', small'))
          | inr stop ↦
              rw (e, from_client, and_then, stop)
                (close_and_return-GoesOn r.0 ptr c safe' small' at')
        ]

    from_backend-GoesOn : GoesOn ptr c (from_backend net s ptr c)
    unfolding from_backend and_then
    from_backend-GoesOn =
        let r = forward_data net s c c.backend_fd c.client_fd in
        let (o, e, safe', same) =
          forward_data-IsSafe net Open laws sent writes s c c.backend_fd c.client_fd safe in
        let at' : find ptr r.0.heap ≡ some c = ap (λ h. find ptr h) same ∙ at in
        let small' : length r.0.heap < 2 ^ 64 = rw same small in
        elim (Bool-cases o.0) [
          | inl go ↦ rw (e, from_backend, and_then, go) (r.0, true, refl, safe', inr (at', small'))
          | inr stop ↦
              rw (e, from_backend, and_then, stop)
                (close_and_return-GoesOn r.0 ptr c safe' small' at')
        ]

    on_readable-GoesOn : (fd : ℕ) → GoesOn ptr c (on_readable net s ptr c fd)
    unfolding on_readable
    on_readable-GoesOn fd =
        let waits : GoesOn ptr c (returned (s, true)) = (s, true, refl, safe, inr (at, small)) in
        choose-GoesOn ptr c (fd == c.client_fd)
          (choose-GoesOn ptr c c.backend_connected from_client-GoesOn waits)
          (choose-GoesOn ptr c (fd == c.backend_fd) from_backend-GoesOn waits)

    input-GoesOn :
        (e : Event)
        → GoesOn ptr c (if e.readable then on_readable net s ptr c e.fd else returned (s, true))
    input-GoesOn e =
        choose-GoesOn ptr c e.readable (on_readable-GoesOn e.fd)
          (s, true, refl, safe, inr (at, small))

    transfer-Ends : (e : Event) → Ends (transfer net s ptr c e)
    unfolding transfer and_then
    transfer-Ends e =
        let (s1, go, eq, safe1, still) = input-GoesOn e in
        rw (transfer, eq, and_then)
          (elim (Bool-cases (go && e.hangup)) [
            | inr stop ↦ rw stop (s1, refl, safe1)
            | inl hang ↦ rw hang (elim still [
              | inl gone ↦ absurd (ground arith)
              | inr (at1, small1) ↦ on_hangup-Ends s1 ptr c safe1 small1 at1 e.fd
            ])
          ])

    close-Ends : Ends (close_connection net s ptr)
    close-Ends =
        let (s', e, safe', gone) = close_connection-IsSafe net Open laws s ptr c safe small at in
        (s', e, safe')

  module _ (s : Proxy World) (ptr : ℕ) (c : Connection) (safe : IsSafe Open s)
      (small : length s.heap < 2 ^ 64) (at : find ptr s.heap ≡ some c) where
    backend_ready-Ends : (e : Event) → Ends (backend_ready net s ptr c e)
    unfolding backend_ready
    backend_ready-Ends e =
        let c1 = record c { backend_connected = true } in
        let s1 : Proxy World = record s { heap = put ptr c1 s.heap } in
        let same : length (put ptr c1 s.heap) ≡ length s.heap =
          ground (arith, length-put ptr c1 s.heap) in
        let safe1 : IsSafe Open s1 = record {
          sound =
              IsHeap-update (Open s.world) s.connections s.heap s.next safe.sound ptr c at c1 refl
                refl;
          counted = safe.counted ∙ sym same;
        } in
        let at1 : find ptr (put ptr c1 s.heap) ≡ some c1 =
          ground (arith, find-put ptr ptr c1 s.heap) in
        transfer-Ends s1 ptr c1 safe1 (rw same small) at1 e

    handle_connection-Ends : (e : Event) → Ends (handle_connection net s ptr c e)
    unfolding handle_connection
    handle_connection-Ends e = choose-Ends e.error (close-Ends s ptr c safe small at) (
        choose-Ends (e.fd == c.backend_fd && not c.backend_connected)
          (choose-Ends e.writable (backend_ready-Ends e) (s, refl, safe))
          (transfer-Ends s ptr c safe small at e))

  -- If the socket API keeps `Descriptors` and `Writes`, then from a safe state `handle_event` returns
  -- whatever event arrives: it follows no pointer to a deleted connection and does not loop, and the
  -- connection map, the heap, the open descriptors and the counter of active sessions still fit each
  -- other. The condition is that the counter has room for one more.
  pub handle_event-IsSafe :
      (p : Padding) (s : Proxy World) (e : Event)
      → IsSafe Open s
      → length s.heap + 1 < 2 ^ 64
      → (s' : Proxy World) × (handle_event net p s e ≡ returned s') × IsSafe Open s'
  unfolding handle_event
  handle_event-IsSafe p s e safe small =
      choose-Ends (e.fd == s.listen_fd)
        (handle_accept net p s e.fd, refl, handle_accept-IsSafe net Open laws p s e.fd safe small)
        (elim (Option-cases (find e.fd s.connections)) [
          | inl gone ↦ rw gone (s, refl, safe)
          | inr (ptr, entry) ↦
              let (c, at, which) = safe.sound.entries e.fd ptr entry in
              rw (entry, at) (handle_connection-Ends s ptr c safe (omega arith) at e)
        ])
