-- ===== src/Proxy/Main.antt =====
-- The start of src/main.cpp: `create_listen_socket`, `main` up to the loop, and one round of the loop.
-- `ff_run`, which repeats the rounds, is F-Stack's.
use l7_loadbalancer.Base.{ℕ, ◌≡◌, Bool, false, List, [], Option, none, some, if◌then◌else◌}
use l7_loadbalancer.Types.{zero_stats}
use l7_loadbalancer.Text.Strings.{ℤ, pos, negsuc}
use l7_loadbalancer.Murmur.{Padding}
use l7_loadbalancer.Config
use l7_loadbalancer.Config.{Config, unopened, thrown, loaded, load, get_vip, get_real_servers}
use l7_loadbalancer.Servers
use l7_loadbalancer.Servers.{RealServerConfig, load_from_config}
use l7_loadbalancer.Proxy.State.{Sockets, Proxy, Event, Outcome, returned, and_then, htons}
use l7_loadbalancer.Proxy.Accept.{create_socket}
use l7_loadbalancer.Proxy.Arguments.{Options, parse_args}
use l7_loadbalancer.Proxy.Events.{handle_events}

-- The calls that only the start makes: `ff_init`, `ff_bind` to any address, `ff_listen`, `ff_epoll_create`, and
-- the file that opens under a name.
pub record Boot (World : Type 0) : Type 0 where
  pub ff_init : World → List (List ℕ) → World × Bool
  pub bind : World → ℕ → ℕ → World × Bool
  pub listen : World → ℕ → ℕ → World × Bool
  pub epoll_create : World → ℕ → World × Option ℕ
  pub file : World → List ℕ → Option (List ℕ)

-- `main` returns, ends in an exception, or comes to `ff_run`.
pub data Started (World : Type 0) : Type 0 where
  exited : ℕ → World → Started World
  aborted : Started World
  ready : Proxy World → Started World

unfoldable pub signal_handler : Bool → Bool
signal_handler running = false

module _ {World : Type 0} (net : Sockets World) (boot : Boot World) where
  unfoldable pub listen_on : World → ℕ → World × Option ℕ
  listen_on w fd =
      let (w1, listening) = boot.listen w fd 1024 in
      if listening then (w1, some fd) else (net.close w1 fd, none)

  unfoldable pub create_listen_socket : World → ℕ → World × Option ℕ
  create_listen_socket w port =
      let (w1, r) = create_socket net w in
      elim r [
        | none ↦ (w1, none)
        | some fd ↦
            let (w2, bound) = boot.bind w1 fd (htons port) in
            if bound then listen_on w2 fd else (net.close w2 fd, none)
      ]

  -- The global variables as the loop finds them first.
  unfoldable pub first_state : Config → Servers.Manager → World → ℕ → Proxy World
  first_state cfg servers w listen_fd = record {
    world = net.epoll_add w listen_fd;
    listen_fd = listen_fd;
    vip = get_vip cfg;
    servers = servers;
    connections = [];
    heap = [];
    next = 1;
    stats = zero_stats;
  }

  unfoldable pub open_listener : Config → Servers.Manager → World → Started World
  open_listener cfg servers w =
      let (w1, l) = create_listen_socket w 8080 in
      elim l [ none ↦ exited 1 w1 | some fd ↦ ready (first_state cfg servers w1 fd) ]

  -- `main` from the loading of the servers on.
  unfoldable pub set_up : Config → World → Started World
  set_up cfg w =
      let (servers, done) = load_from_config Servers.init (get_real_servers cfg) in
      let (w1, epfd) = boot.epoll_create w 1024 in
      if done
      then elim epfd [ none ↦ exited 1 w1 | some _ ↦ open_listener cfg servers w1 ]
      else exited 1 w

  -- `main` from `ff_init` on.
  unfoldable pub boot_up : RealServerConfig → World → Options → Started World
  boot_up blank w o =
      let (w1, done) = boot.ff_init w o.argv in
      if done
      then elim (load blank Config.new (boot.file w1 o.config_file)) [
        | unopened ↦ exited 1 w1
        | thrown ↦ aborted
        | loaded cfg ↦ set_up cfg w1
      ]
      else exited 1 w1

  unfoldable pub main : RealServerConfig → World → List (List ℕ) → Started World
  main blank w argv = elim (parse_args argv) [ none ↦ exited 0 w | some o ↦ boot_up blank w o ]

  -- One round, with `g_running` and the events that `ff_epoll_wait` gives.
  unfoldable pub ff_loop : Padding → Bool → Proxy World → List Event → Outcome (Proxy World × ℤ)
  unfolding and_then
  ff_loop p running s events =
      and_then (handle_events net p s events)
        (λ s'. returned (s', if running then pos 0 else negsuc 0))

  -- The states between the rounds, whatever the signals and the events.
  pub data Runs (p : Padding) (s : Proxy World) : Proxy World → Type 0 where
    begun : Runs p s s
    round :
        {t t' : Proxy World} {result : ℤ} (running : Bool) (events : List Event)
        → Runs p s t
        → ff_loop p running t events ≡ returned (t', result)
        → Runs p s t'
