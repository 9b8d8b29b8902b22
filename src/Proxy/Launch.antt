-- ===== src/Proxy/Launch.antt =====
-- A command line, and a start of the proxy over the small network stack.
use l7_loadbalancer.Base.{ℕ, ◌≡◌, ◌≢◌, none, refl, true, false, List, [], ◌∷◌, some, arith}
use l7_loadbalancer.Text.Strings.{codes, pos}
use l7_loadbalancer.Config.Samples.{unset, file, one_server, file-load}
use l7_loadbalancer.Config.{get_real_servers}
use l7_loadbalancer.Murmur.{Padding}
use l7_loadbalancer.Servers
use l7_loadbalancer.Servers.{RealServerConfig, load_from_config}
use l7_loadbalancer.Proxy.State.{Proxy, Event, returned}
use l7_loadbalancer.Proxy.Arguments.{
  scan, rebuild, Part, plain, set_config, set_log, written, parse_args, parse_args-written,
}
use l7_loadbalancer.Proxy.Main.{
  Boot, ready, first_state, main, ff_loop, begun, boot_up, set_up, open_listener,
  create_listen_socket, listen_on,
}
use l7_loadbalancer.Proxy.Accept.{
  create_socket, set_nonblocking, connect_to_backend, open_connection, handle_accept,
}
use l7_loadbalancer.Types.{RealServer}
use l7_loadbalancer.Servers.Loaded.{Configured}
use l7_loadbalancer.Proxy.Safety.Served.{handle_accept-Configured}
use l7_loadbalancer.Proxy.Safety.{IsSafe}
use l7_loadbalancer.Proxy.Safety.Run.{round_returns}
use l7_loadbalancer.Proxy.Samples.{Stack, stack, Given, sent_to, stack-Writes, stack-Descriptors}

-- The options stand between the others, and the file is named twice.
abbrev line : List Part
line =
    plain (codes "-c")
    ∷ set_config (codes "a")
    ∷ set_log (codes "debug")
    ∷ plain []
    ∷ plain (codes "x")
    ∷ set_config (codes "b")
    ∷ []

parse_args-written_example :
    parse_args (codes "lb" ∷ written line)
    ≡ some (record {
      config_file = codes "b";
      log_level = codes "debug";
      argv = codes "lb" ∷ codes "-c" ∷ codes "x" ∷ [];
    })
parse_args-written_example = parse_args-written b'l' (b'b' ∷ []) line (
  (λ e. cc, λ e. cc, λ e. cc),
  (tt, (tt, ((λ e. cc, λ e. cc, λ e. cc), ((λ e. cc, λ e. cc, λ e. cc), (tt, tt))))),
)

-- Everything succeeds, and every file is the one with one server.
abbrev boot : Boot Stack
boot = record {
  ff_init = λ w argv. (w, true);
  bind = λ w fd port. (w, true);
  listen = λ w fd backlog. (w, true);
  epoll_create = λ w size. (w, some 1);
  file = λ w name. some file;
}

abbrev booted : Stack
booted = record { top = 9; out = λ fd. [] }

abbrev name : List (List ℕ)
name = codes "lb" ∷ []

abbrev zeroed : Padding
zeroed = record { first = 0; second = 0; third = 0 }

abbrev client : Event
client = record { fd = 10; readable = true; writable = false; error = false; hangup = false }

abbrev served : Proxy Stack
served =
    first_state stack boot one_server
      (load_from_config Servers.init (get_real_servers one_server)).0 (record booted { top = 10 })
      10

starts : main stack boot unset booted name ≡ ready served
unfolding main parse_args scan rebuild boot_up set_up load_from_config open_listener
    create_listen_socket create_socket listen_on set_nonblocking
starts = rw (main, file-load) refl

asked :
    parse_args name
    ≡ some (record { config_file = codes "config/lb.conf"; log_level = codes "info"; argv = name })
unfolding parse_args scan rebuild
asked = refl

round_returns_example :
    (t' : Proxy Stack) × (ff_loop stack boot zeroed true served (client ∷ [])
      ≡ returned (t', pos 0))
    × IsSafe Given t'
round_returns_example =
    round_returns stack Given stack-Descriptors sent_to stack-Writes boot (λ w fd h. omega arith)
      zeroed unset booted name served served starts begun true (client ∷ [])

named : get_real_servers one_server ≢ []
unfolding get_real_servers
named e = cc

handle_accept-Configured_example :
    (rs : RealServer) × Configured 0 (get_real_servers one_server) rs
    × (let dialled =
          connect_to_backend stack (set_nonblocking stack (stack.accept served.world 10).0 11) rs in
        handle_accept stack zeroed served 10 ≡ elim dialled.1 [
          | none ↦ record served { world = stack.close dialled.0 11 }
          | some backend ↦
              open_connection stack (record served { world = dialled.0 }) 11 backend rs.id
        ])
unfolding first_state
handle_accept-Configured_example =
    handle_accept-Configured stack boot unset booted name
      (record { config_file = codes "config/lb.conf"; log_level = codes "info"; argv = name })
      one_server zeroed served served 10 11 0x01020304 80 asked file-load named starts begun refl
