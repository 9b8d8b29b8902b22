-- ===== src/Proxy/Events.antt =====
-- `handle_event` of src/main.cpp and the loop over the events of `ff_loop`.
use l7_loadbalancer.Base.{
  ℕ, Bool, true, false, ◌&&◌, not, List, [], ◌∷◌, none, some, ◌==◌, if◌then◌else◌,
}
use l7_loadbalancer.Base.Assoc.{find, put, nat_eq}
use l7_loadbalancer.Murmur.{Padding}
use l7_loadbalancer.Proxy.State.{
  Sockets, Proxy, Connection, Event, Outcome, returned, dangling, and_then,
}
use l7_loadbalancer.Proxy.Accept.{handle_accept}
use l7_loadbalancer.Proxy.Relay.{close_connection, forward_data}

module _ {World : Type 0} (net : Sockets World) where
  -- The two ways that `handle_event` stops after a transfer: the connection is closed, and it returns.
  unfoldable pub close_and_return : Proxy World → ℕ → Outcome (Proxy World × Bool)
  unfolding and_then
  close_and_return s ptr = and_then (close_connection net s ptr) (λ s'. returned (s', false))

  unfoldable pub from_client : Proxy World → ℕ → Connection → Outcome (Proxy World × Bool)
  unfolding and_then
  from_client s ptr conn =
      let (s1, r) = forward_data net s conn conn.client_fd conn.backend_fd in
      and_then r (λ o. if o.0 && not o.1 then returned (s1, true) else close_and_return s1 ptr)

  -- A backend that has closed its side leaves the connection as it is.
  unfoldable pub from_backend : Proxy World → ℕ → Connection → Outcome (Proxy World × Bool)
  unfolding and_then
  from_backend s ptr conn =
      let (s1, r) = forward_data net s conn conn.backend_fd conn.client_fd in
      and_then r (λ o. if o.0 then returned (s1, true) else close_and_return s1 ptr)

  -- The EPOLLIN part of `handle_event`; the Boolean is false where the handler returns.
  unfoldable pub on_readable : Proxy World → ℕ → Connection → ℕ → Outcome (Proxy World × Bool)
  unfolding and_then
  on_readable s ptr conn fd =
      if fd == conn.client_fd
      then (if conn.backend_connected then from_client s ptr conn else returned (s, true))
      else if fd == conn.backend_fd
      then from_backend s ptr conn
      else returned (s, true)

  -- The EPOLLHUP part of `handle_event`.
  unfoldable pub on_hangup : Proxy World → ℕ → Connection → ℕ → Outcome (Proxy World)
  on_hangup s ptr conn fd = if fd == conn.backend_fd then returned s else close_connection net s ptr

  -- `handle_event` from "forward data" on.
  unfoldable pub transfer : Proxy World → ℕ → Connection → Event → Outcome (Proxy World)
  unfolding and_then
  transfer s ptr conn e =
      and_then (if e.readable then on_readable s ptr conn e.fd else returned (s, true))
        (λ o. if o.1 && e.hangup then on_hangup o.0 ptr conn e.fd else returned o.0)

  unfoldable pub backend_ready : Proxy World → ℕ → Connection → Event → Outcome (Proxy World)
  backend_ready s ptr conn e =
      let conn1 = record conn { backend_connected = true } in
      transfer (record s { heap = put ptr conn1 s.heap }) ptr conn1 e

  -- `handle_event` once the connection is found.
  unfoldable pub handle_connection : Proxy World → ℕ → Connection → Event → Outcome (Proxy World)
  handle_connection s ptr conn e =
      if e.error
      then close_connection net s ptr
      else if e.fd == conn.backend_fd && not conn.backend_connected
      then (if e.writable then backend_ready s ptr conn e else returned s)
      else transfer s ptr conn e

  unfoldable pub handle_event : Padding → Proxy World → Event → Outcome (Proxy World)
  handle_event p s e =
      if e.fd == s.listen_fd
      then returned (handle_accept net p s e.fd)
      else elim (find e.fd s.connections) [
        | none ↦ returned s
        | some ptr ↦ elim (find ptr s.heap) [
          | none ↦ dangling
          | some conn ↦ handle_connection s ptr conn e
        ]
      ]

  -- The loop of `ff_loop` over the events of one `ff_epoll_wait`.
  unfoldable pub handle_events : Padding → Proxy World → List Event → Outcome (Proxy World)
  unfolding and_then
  handle_events p s [] = returned s
  handle_events p s (e ∷ es) = and_then (handle_event p s e) (λ s'. handle_events p s' es)
