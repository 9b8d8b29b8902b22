-- ===== src/Proxy/Safety/Accept.antt =====
-- Taking a client keeps the connections safe.
use Prim.Native.Nat.{bit_or}
use l7_loadbalancer.Base.{
  ℕ, ◌+◌, ◌^◌, ◌<◌, ◌≡◌, sym, ◌≢◌, inl, inr, true, false, none, some, arith, length, Bool-cases,
  Option-cases,
}
use l7_loadbalancer.Base.Assoc.{find, nat_eq, length-put}
use l7_loadbalancer.Types.{RealServer}
use l7_loadbalancer.Murmur.{Padding}
use l7_loadbalancer.Servers.{select_server}
use l7_loadbalancer.Proxy.State.{Sockets, Proxy, Connection, htons, o_nonblock, is_unreachable}
use l7_loadbalancer.Proxy.Accept.{
  set_nonblocking, create_socket, connect_to_backend, open_connection, client_tuple, handle_accept,
}
use l7_loadbalancer.Proxy.Heap.{IsHeap-world, IsHeap-open, fresh_fd, heap_next}
use l7_loadbalancer.Proxy.Safety.{Keeps, Descriptors, IsSafe, IsSafe-world}

module _ {World : Type 0} (net : Sockets World) (Open : World → ℕ → Type 0)
    (laws : Descriptors net Open) where
  set_nonblocking-Keeps : (w : World) (fd : ℕ) → Keeps Open w (set_nonblocking net w fd)
  unfolding set_nonblocking
  set_nonblocking-Keeps w fd g h =
      let flags = (net.get_flags w fd).1 in
      let w1 = (net.get_flags w fd).0 in
      laws.set_flags_keeps w1 fd (bit_or flags o_nonblock) g (laws.get_flags_keeps w fd g h)

  -- A new socket is open and new, and the others stay open, also where there is none.
  create_socket_lem :
      (w : World)
      → Keeps Open w (create_socket net w).0
        × ((fd : ℕ)
            → (create_socket net w).1 ≡ some fd
            → (0 < fd) × (¬ Open w fd) × Open (create_socket net w).0 fd)
  unfolding create_socket
  create_socket_lem w = elim (Option-cases (net.socket w).1) [
    | inl e ↦ rw (e, create_socket) (laws.socket_keeps w, λ fd f. cc)
    | inr (fd, e) ↦
        let w1 = (net.socket w).0 in
        let later : Keeps Open w1 (net.reuse_addr (set_nonblocking net w1 fd) fd) = λ g h.
          laws.reuse_addr_keeps (set_nonblocking net w1 fd) fd g
            (set_nonblocking-Keeps w1 fd g h) in
        let (pos, new, is_open) = laws.socket_new w fd e in
        rw (e, create_socket)
          (
            λ g h. later g (laws.socket_keeps w g h),
            λ fd' f. let same : fd ≡ fd' = cc in rw (sym same) (pos, new, later fd is_open),
          )
  ]

  connect_to_backend_lem :
      (w : World) (rs : RealServer)
      → Keeps Open w (connect_to_backend net w rs).0
        × ((fd : ℕ)
            → (connect_to_backend net w rs).1 ≡ some fd
            → (0 < fd) × (¬ Open w fd) × Open (connect_to_backend net w rs).0 fd)
  unfolding connect_to_backend
  connect_to_backend_lem w rs =
      let (keeps, made) = create_socket_lem w in
      let w1 = (create_socket net w).0 in
      elim (Option-cases (create_socket net w).1) [
        | inl e ↦ rw (e, connect_to_backend) (keeps, λ fd f. cc)
        | inr (fd, e) ↦
            let (pos, new, is_open) = made fd e in
            let w2 = (net.connect w1 fd rs.ip (htons rs.port)).0 in
            let keeps2 : Keeps Open w w2 =
              λ g h. laws.connect_keeps w1 fd rs.ip (htons rs.port) g (keeps g h) in
            elim (Bool-cases (is_unreachable (net.connect w1 fd rs.ip (htons rs.port)).1)) [
              | inl bad ↦
                  rw (e, bad, connect_to_backend)
                    (λ g h. laws.close_other w2 fd g (λ q. new (rw q h)) (keeps2 g h), λ fd' f. cc)
              | inr good ↦
                  rw (e, good, connect_to_backend)
                    (
                      keeps2,
                      λ fd' f.
                          let same : fd ≡ fd' = cc in
                          rw (sym same)
                            (pos, new, laws.connect_keeps w1 fd rs.ip (htons rs.port) fd is_open),
                    )
            ]
      ]

  pub open_connection-IsSafe :
      (s : Proxy World) (client backend id : ℕ)
      → IsSafe Open s
      → length s.heap + 1 < 2 ^ 64
      → 0 < client
      → 0 < backend
      → client ≢ backend
      → find client s.connections ≡ none
      → find backend s.connections ≡ none
      → Open s.world client
      → Open s.world backend
      → IsSafe Open (open_connection net s client backend id)
  unfolding open_connection
  open_connection-IsSafe s client backend id safe small pc pb apart nc nb oc ob =
      let w1 = net.epoll_add s.world client in
      let keeps : Keeps Open s.world (net.epoll_add w1 backend) =
        λ g h. laws.epoll_add_keeps w1 backend g (laws.epoll_add_keeps s.world client g h) in
      let sound =
        IsHeap-world (Open s.world) s.connections s.heap s.next safe.sound
          (Open (net.epoll_add w1 backend)) keeps in
      let c : Connection = record {
        client_fd = client;
        backend_fd = backend;
        server_id = id;
        client_connected = true;
        backend_connected = false;
        client_buf_len = 0;
        backend_buf_len = 0;
      } in
      record {
        sound =
            IsHeap-open (Open (net.epoll_add w1 backend)) s.connections s.heap s.next sound c pc pb
              apart nc nb (keeps client oc) (keeps backend ob);
        counted =
            let h = heap_next (Open s.world) s.connections s.heap s.next safe.sound in
            ground (arith, length-put s.next c s.heap, safe.counted, h);
      }

  pub handle_accept-IsSafe :
      (p : Padding) (s : Proxy World) (listen_fd : ℕ)
      → IsSafe Open s
      → length s.heap + 1 < 2 ^ 64
      → IsSafe Open (handle_accept net p s listen_fd)
  unfolding handle_accept
  handle_accept-IsSafe p s l safe small =
      let w1 = (net.accept s.world l).0 in
      elim (Option-cases (net.accept s.world l).1) [
        | inl e ↦ rw (e, handle_accept) (IsSafe-world Open s w1 safe (laws.accept_keeps s.world l))
        | inr ((client, addr, port), e) ↦
            let (pos, new, is_open) = laws.accept_new s.world l client addr port e in
            let w2 = set_nonblocking net w1 client in
            let later : Keeps Open w1 w2 = set_nonblocking-Keeps w1 client in
            let keeps : Keeps Open s.world w2 = λ g h. later g (laws.accept_keeps s.world l g h) in
            elim (Option-cases (select_server s.servers (client_tuple net s addr port) p)) [
              | inl f ↦
                  rw (e, f, handle_accept)
                    (IsSafe-world Open s (net.close w2 client) safe
                      (λ g h. laws.close_other w2 client g (λ q. new (rw q h)) (keeps g h)))
              | inr (rs, f) ↦
                  let (keeps3, made) = connect_to_backend_lem w2 rs in
                  let w3 = (connect_to_backend net w2 rs).0 in
                  elim (Option-cases (connect_to_backend net w2 rs).1) [
                    | inl b ↦
                        rw (e, f, b, handle_accept)
                          (IsSafe-world Open s (net.close w3 client) safe (λ g h.
                            laws.close_other w3 client g (λ q. new (rw q h))
                              (keeps3 g (keeps g h))))
                    | inr (backend, b) ↦
                        let (pos3, new3, open3) = made backend b in
                        let old = fresh_fd (Open s.world) s.connections s.heap s.next safe.sound in
                        rw (e, f, b, handle_accept)
                          (open_connection-IsSafe (record s { world = w3 }) client backend rs.id
                            (IsSafe-world Open s w3 safe (λ g h. keeps3 g (keeps g h))) small pos
                            pos3 (λ q. new3 (rw (sym q) (later client is_open))) (old client new)
                            (old backend (λ h. new3 (keeps backend h)))
                            (keeps3 client (later client is_open)) open3)
                  ]
            ]
      ]
