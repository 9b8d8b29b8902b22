-- ===== src/Proxy/Accept.antt =====
-- How src/main.cpp opens sockets and takes a new client.
use Prim.Native.Nat.{bit_or}
use l7_loadbalancer.Base.{ℕ, ◌+◌, true, false, Option, none, some, if◌then◌else◌}
use l7_loadbalancer.Base.Assoc.{put, nat_eq}
use l7_loadbalancer.Types.{FiveTuple, RealServer, incr}
use l7_loadbalancer.Murmur.{Padding}
use l7_loadbalancer.Servers.{select_server}
use l7_loadbalancer.Proxy.State.{Sockets, Proxy, htons, o_nonblock, is_unreachable}

module _ {World : Type 0} (net : Sockets World) where
  unfoldable pub set_nonblocking : World → ℕ → World
  set_nonblocking w fd =
      let (w1, flags) = net.get_flags w fd in net.set_flags w1 fd (bit_or flags o_nonblock)

  unfoldable pub create_socket : World → World × Option ℕ
  create_socket w =
      let (w1, r) = net.socket w in
      elim r [ none ↦ (w1, none) | some fd ↦ (net.reuse_addr (set_nonblocking w1 fd) fd, some fd) ]

  unfoldable pub connect_to_backend : World → RealServer → World × Option ℕ
  connect_to_backend w rs =
      let (w1, r) = create_socket w in
      elim r [
        | none ↦ (w1, none)
        | some fd ↦
            let (w2, c) = net.connect w1 fd rs.ip (htons rs.port) in
            if is_unreachable c then (net.close w2 fd, none) else (w2, some fd)
      ]

  -- The connection object, its two entries of the map, and the two epoll registrations.
  unfoldable pub open_connection : Proxy World → ℕ → ℕ → ℕ → Proxy World
  open_connection s client_fd backend_fd server_id = record s {
    heap =
        put next
          (record {
            client_fd = client_fd;
            backend_fd = backend_fd;
            server_id = server_id;
            client_connected = true;
            backend_connected = false;
            client_buf_len = 0;
            backend_buf_len = 0;
          })
          heap;
    next = next + 1;
    connections = put backend_fd next (put client_fd next connections);
    world = net.epoll_add (net.epoll_add world client_fd) backend_fd;
    stats = record stats {
      active_sessions = incr stats.active_sessions;
      total_sessions = incr stats.total_sessions;
    };
  }
    where
      open s use {heap, next, connections, world, stats}

  -- What `handle_accept` looks a server up for.
  abbrev pub client_tuple : Proxy World → ℕ → ℕ → FiveTuple
  client_tuple s addr port = record {
    src_ip = addr;
    dst_ip = s.vip;
    src_port = port;
    dst_port = htons 8080;
    protocol = 6;
  }

  unfoldable pub handle_accept : Padding → Proxy World → ℕ → Proxy World
  handle_accept p s listen_fd =
      let (w1, r) = net.accept s.world listen_fd in
      elim r [
        | none ↦ record s { world = w1 }
        | some (client_fd, addr, port) ↦
            let w2 = set_nonblocking w1 client_fd in
            elim (select_server s.servers (client_tuple s addr port) p) [
              | none ↦ record s { world = net.close w2 client_fd }
              | some rs ↦
                  let (w3, b) = connect_to_backend w2 rs in
                  elim b [
                    | none ↦ record s { world = net.close w3 client_fd }
                    | some backend_fd ↦
                        open_connection (record s { world = w3 }) client_fd backend_fd rs.id
                  ]
            ]
      ]
