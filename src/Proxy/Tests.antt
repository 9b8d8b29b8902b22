-- ===== src/Proxy/Tests.antt =====
-- The proxy over a small network stack.
use l7_loadbalancer.Base.{◌≡◌, refl, ◌⊎◌, true, false, [], ◌∷◌, arith}
use l7_loadbalancer.Base.Assoc.{find, put, nat_eq}
use l7_loadbalancer.Types.{zero_stats}
use l7_loadbalancer.Murmur.{Padding}
use l7_loadbalancer.Proxy.State.{no_room, write_error, Proxy, Connection, Event, returned}
use l7_loadbalancer.Proxy.Accept.{open_connection}
use l7_loadbalancer.Proxy.Relay.{forward_data}
use l7_loadbalancer.Proxy.Events.{handle_event}
use l7_loadbalancer.Proxy.Forward.{StoppedBy, forward_data_prefix}
use l7_loadbalancer.Proxy.Safety.{IsSafe}
use l7_loadbalancer.Proxy.Safety.Accept.{open_connection-IsSafe}
use l7_loadbalancer.Proxy.Safety.Events.{handle_event-IsSafe}
use l7_loadbalancer.Proxy.Samples.{Stack, stack, Given, sent_to, stack-Writes, stack-Descriptors}

abbrev idle : Proxy Stack
idle = record {
  world = record { top = 9; out = λ fd. [] };
  listen_fd = 1;
  vip = 0x0100007f;
  servers = record { servers = []; hash_ring = record { virtual_nodes = 150; ring = [] } };
  connections = [];
  heap = [];
  next = 1;
  stats = zero_stats;
}

idle-IsSafe : IsSafe Given idle
unfolding find
idle-IsSafe = record {
  sound = record {
    fds = tt;
    objects = tt;
    some_next = omega arith;
    entries = λ fd p e. cc;
    live = λ p c e. cc;
  };
  counted = refl;
}

-- A client at descriptor 5 and its backend at 6.
abbrev conn : Connection
conn = record {
  client_fd = 5;
  backend_fd = 6;
  server_id = 7;
  client_connected = true;
  backend_connected = false;
  client_buf_len = 0;
  backend_buf_len = 0;
}

abbrev zeroed : Padding
zeroed = record { first = 0; second = 0; third = 0 }

abbrev arrival : Event
arrival = record { fd = 6; readable = true; writable = true; error = false; hangup = true }

handle_event-IsSafe_example :
    (s' : Proxy Stack) × (handle_event stack zeroed (open_connection stack idle 5 6 7) arrival
      ≡ returned s')
    × IsSafe Given s'
unfolding open_connection find put
handle_event-IsSafe_example =
    handle_event-IsSafe stack Given stack-Descriptors sent_to stack-Writes zeroed
      (open_connection stack idle 5 6 7) arrival
      (open_connection-IsSafe stack Given stack-Descriptors idle 5 6 7 idle-IsSafe (omega arith)
        (omega arith) (omega arith) (omega arith) refl refl (omega arith) (omega arith))
      (omega arith)

forward_data_prefix_example :
    (((forward_data stack idle conn 5 6).1 ≡ returned (true, false))
      × (sent_to (forward_data stack idle conn 5 6).0.world 6 ≡ b'a' ∷ b'b' ∷ b'c' ∷ []))
    ⊎ ((((forward_data stack idle conn 5 6).1 ≡ returned (true, false))
          × StoppedBy stack sent_to stack-Writes no_room idle.world 6
              (b'a' ∷ b'b' ∷ b'c' ∷ [])
              (forward_data stack idle conn 5 6).0.world)
        ⊎ (((forward_data stack idle conn 5 6).1 ≡ returned (false, false))
            × StoppedBy stack sent_to stack-Writes write_error idle.world 6
                (b'a' ∷ b'b' ∷ b'c' ∷ [])
                (forward_data stack idle conn 5 6).0.world))
forward_data_prefix_example =
    forward_data_prefix stack sent_to stack-Writes idle conn 5 6 b'a' (b'b' ∷ b'c' ∷ []) refl
