-- ===== src/Proxy/Safety/Servers.antt =====
-- The event loop leaves the table of servers as it was loaded, so a client always gets a configured server.
use l7_loadbalancer.Base.{
  ℕ, ◌≡◌, ◌∙◌, Bool, true, false, ◌&&◌, not, List, [], ◌∷◌, Option, none, some, ◌==◌, arith,
  if◌then◌else◌,
}
use l7_loadbalancer.Base.Assoc.{find, erase, nat_eq}
use l7_loadbalancer.Types.{decr}
use l7_loadbalancer.Murmur.{Padding}
use l7_loadbalancer.Servers.{Manager}
use l7_loadbalancer.Proxy.State.{
  Sockets, Proxy, Connection, Event, Outcome, returned, dangling, spinning, and_then,
}
use l7_loadbalancer.Proxy.Accept.{open_connection, handle_accept}
use l7_loadbalancer.Proxy.Relay.{drop_fd, close_connection, forward_data}
use l7_loadbalancer.Proxy.Events.{
  close_and_return, from_client, from_backend, on_readable, on_hangup, transfer, backend_ready,
  handle_connection, handle_event, handle_events,
}

module _ {World : Type 0} (net : Sockets World) (m : Manager) where
  -- If it returns, its table of servers is `m`.
  abbrev pub Leaves : {A : Type 0} → (A → Proxy World) → Outcome A → Type 0
  Leaves f (returned a) = (f a).servers ≡ m
  Leaves f dangling = Unit
  Leaves f spinning = Unit

  then_Leaves :
      {A : Type 0} {B : Type 0} (f : A → Proxy World) (g : B → Proxy World) (o : Outcome A)
      (k : A → Outcome B)
      → Leaves f o
      → ((a : A) → (f a).servers ≡ m → Leaves g (k a))
      → Leaves g (and_then o k)
  unfolding and_then
  then_Leaves f g (returned a) k h next = next a h
  then_Leaves f g dangling k h next = tt
  then_Leaves f g spinning k h next = tt

  choose_Leaves :
      {A : Type 0} (f : A → Proxy World) (b : Bool) (x y : Outcome A)
      → Leaves f x
      → Leaves f y
      → Leaves f (if b then x else y)
  choose_Leaves f true x y h k = h
  choose_Leaves f false x y h k = k

  handle_accept-servers :
      (p : Padding) (s : Proxy World) (fd : ℕ) → (handle_accept net p s fd).servers ≡ s.servers
  unfolding handle_accept open_connection
  handle_accept-servers p s fd = grind arith

  drop_fd-servers : (s : Proxy World) (fd : ℕ) → (drop_fd net s fd).servers ≡ s.servers
  unfolding drop_fd
  drop_fd-servers s fd = grind arith

  close_connection-Leaves :
      (s : Proxy World) (ptr : ℕ) → s.servers ≡ m → Leaves (λ t. t) (close_connection net s ptr)
  unfolding close_connection
  close_connection-Leaves s ptr h =
      choose_Leaves (λ t. t) (ptr == 0) (returned s) _ h (go (find ptr s.heap))
    where
      go :
          (c : Option Connection)
          → Leaves
              (λ t. t)
              (elim c [
                | none ↦ dangling
                | some conn ↦
                    let s2 = drop_fd net (drop_fd net s conn.client_fd) conn.backend_fd in
                    returned (record s2 {
                      heap = erase ptr s2.heap;
                      stats = record s2.stats { active_sessions = decr s2.stats.active_sessions };
                    })
              ])
      go none = tt
      go (some conn) =
          drop_fd-servers (drop_fd net s conn.client_fd) conn.backend_fd
          ∙ drop_fd-servers s conn.client_fd
          ∙ h

  forward_data-servers :
      (s : Proxy World) (conn : Connection) (a b : ℕ)
      → (forward_data net s conn a b).0.servers ≡ s.servers
  unfolding forward_data
  forward_data-servers s conn a b = grind arith

  close_and_return-Leaves :
      (s : Proxy World) (ptr : ℕ) → s.servers ≡ m → Leaves (λ o. o.0) (close_and_return net s ptr)
  unfolding close_and_return
  close_and_return-Leaves s ptr h =
      then_Leaves (λ t. t) (λ o. o.0) (close_connection net s ptr) _
        (close_connection-Leaves s ptr h) (λ t e. e)

  -- What follows a transfer.
  after_transfer :
      (s : Proxy World) (conn : Connection) (ptr a b : ℕ) (go_on : Bool × Bool → Bool)
      → s.servers ≡ m
      → Leaves
          (λ o. o.0)
          (and_then (forward_data net s conn a b).1 (λ o.
            if go_on o
            then returned ((forward_data net s conn a b).0, true)
            else close_and_return net (forward_data net s conn a b).0 ptr))
  after_transfer s conn ptr a b go_on h =
      let s1 = (forward_data net s conn a b).0 in
      let same : s1.servers ≡ m = forward_data-servers s conn a b ∙ h in
      then_Leaves (λ _. s1) (λ o. o.0) (forward_data net s conn a b).1 _
        (any (forward_data net s conn a b).1 s1 same)
        (λ o e.
          choose_Leaves (λ o. o.0) (go_on o) (returned (s1, true)) (close_and_return net s1 ptr)
            same (close_and_return-Leaves s1 ptr same))
    where
      any : {A : Type 0} (o : Outcome A) (t : Proxy World) → t.servers ≡ m → Leaves (λ _. t) o
      any (returned a) t e = e
      any dangling t e = tt
      any spinning t e = tt

  on_readable-Leaves :
      (s : Proxy World) (ptr : ℕ) (conn : Connection) (fd : ℕ)
      → s.servers ≡ m
      → Leaves (λ o. o.0) (on_readable net s ptr conn fd)
  unfolding on_readable from_client from_backend
  on_readable-Leaves s ptr conn fd h =
      choose_Leaves (λ o. o.0) (fd == conn.client_fd) _ _
        (choose_Leaves (λ o. o.0) conn.backend_connected _ (returned (s, true))
          (after_transfer s conn ptr conn.client_fd conn.backend_fd (λ o. o.0 && not o.1) h) h)
        (choose_Leaves (λ o. o.0) (fd == conn.backend_fd) _ (returned (s, true))
          (after_transfer s conn ptr conn.backend_fd conn.client_fd (λ o. o.0) h) h)

  transfer-Leaves :
      (s : Proxy World) (ptr : ℕ) (conn : Connection) (e : Event)
      → s.servers ≡ m
      → Leaves (λ t. t) (transfer net s ptr conn e)
  unfolding transfer on_hangup
  transfer-Leaves s ptr conn e h =
      then_Leaves (λ o. o.0) (λ t. t) _ _
        (choose_Leaves (λ o. o.0) e.readable _ (returned (s, true))
          (on_readable-Leaves s ptr conn e.fd h) h)
        (λ o k.
          choose_Leaves (λ t. t) (o.1 && e.hangup) _ (returned o.0)
            (choose_Leaves (λ t. t) (e.fd == conn.backend_fd) (returned o.0) _ k
              (close_connection-Leaves o.0 ptr k))
            k)

  handle_connection-Leaves :
      (s : Proxy World) (ptr : ℕ) (conn : Connection) (e : Event)
      → s.servers ≡ m
      → Leaves (λ t. t) (handle_connection net s ptr conn e)
  unfolding handle_connection backend_ready
  handle_connection-Leaves s ptr conn e h =
      choose_Leaves (λ t. t) e.error _ _ (close_connection-Leaves s ptr h)
        (choose_Leaves (λ t. t) (e.fd == conn.backend_fd && not conn.backend_connected) _ _
          (choose_Leaves (λ t. t) e.writable _ (returned s) (transfer-Leaves _ ptr _ e h) h)
          (transfer-Leaves s ptr conn e h))

  handle_event-Leaves :
      (p : Padding) (s : Proxy World) (e : Event)
      → s.servers ≡ m
      → Leaves (λ t. t) (handle_event net p s e)
  unfolding handle_event
  handle_event-Leaves p s e h =
      choose_Leaves (λ t. t) (e.fd == s.listen_fd) (returned (handle_accept net p s e.fd)) _
        (handle_accept-servers p s e.fd ∙ h) (found (find e.fd s.connections))
    where
      at_object :
          (ptr : ℕ) (c : Option Connection)
          → Leaves
              (λ t. t)
              (elim c [ none ↦ dangling | some conn ↦ handle_connection net s ptr conn e ])
      at_object ptr none = tt
      at_object ptr (some conn) = handle_connection-Leaves s ptr conn e h

      found :
          (r : Option ℕ)
          → Leaves
              (λ t. t)
              (elim r [
                | none ↦ returned s
                | some ptr ↦ elim (find ptr s.heap) [
                  | none ↦ dangling
                  | some conn ↦ handle_connection net s ptr conn e
                ]
              ])
      found none = h
      found (some ptr) = at_object ptr (find ptr s.heap)

  pub handle_events-Leaves :
      (p : Padding) (s : Proxy World) (es : List Event)
      → s.servers ≡ m
      → Leaves (λ t. t) (handle_events net p s es)
  unfolding handle_events
  handle_events-Leaves p s [] h = h
  handle_events-Leaves p s (e ∷ es) h =
      then_Leaves (λ t. t) (λ t. t) (handle_event net p s e) _ (handle_event-Leaves p s e h)
        (λ t k. handle_events-Leaves p t es k)
