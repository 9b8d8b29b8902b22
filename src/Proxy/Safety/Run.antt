-- ===== src/Proxy/Safety/Run.antt =====
-- From the start on, the proxy serves round after round.
use l7_loadbalancer.Base.{
  ℕ, ◌^◌, ◌<◌, ◌≡◌, refl, sym, ap, Bool, true, List, [], ◌∷◌, subst, some, arith, if◌then◌else◌,
  Option-cases, Bool-cases, inl, inr,
}
use l7_loadbalancer.Base.Assoc.{find, nat_eq}
use l7_loadbalancer.Text.Strings.{pos, negsuc}
use l7_loadbalancer.Murmur.{Padding}
use l7_loadbalancer.Config
use l7_loadbalancer.Config.{
  Config, Loaded, unopened, thrown, loaded, load, get_vip, get_real_servers,
}
use l7_loadbalancer.Servers
use l7_loadbalancer.Servers.{RealServerConfig, load_from_config}
use l7_loadbalancer.Proxy.State.{Sockets, Proxy, Event, returned, and_then}
use l7_loadbalancer.Proxy.Arguments.{Options, parse_args}
use l7_loadbalancer.Proxy.Events.{handle_events}
use l7_loadbalancer.Proxy.Heap.Bound.{connections_bound}
use l7_loadbalancer.Proxy.Forward.{Writes}
use l7_loadbalancer.Proxy.Main.{
  Boot, exited, aborted, ready, first_state, create_listen_socket, open_listener, set_up, boot_up,
  main, ff_loop, Runs, begun, round,
}
use l7_loadbalancer.Proxy.Safety.{Descriptors, IsSafe}
use l7_loadbalancer.Proxy.Safety.Events.{handle_event-IsSafe}

module _ {World : Type 0} (net : Sockets World) (Open : World → ℕ → Type 0)
    (boot : Boot World) where
  first_state-IsSafe :
      (cfg : Config) (servers : Servers.Manager) (w : World) (fd : ℕ)
      → IsSafe Open (first_state net boot cfg servers w fd)
  unfolding first_state find
  first_state-IsSafe cfg servers w fd = record {
    sound = record {
      fds = tt;
      objects = tt;
      some_next = omega arith;
      entries = λ g p e. cc;
      live = λ p c e. cc;
    };
    counted = refl;
  }

  open_listener_ready :
      (cfg : Config) (servers : Servers.Manager) (w : World) (s : Proxy World)
      → open_listener net boot cfg servers w ≡ ready s
      → (w' : World) × (fd : ℕ) × (s ≡ first_state net boot cfg servers w' fd)
  unfolding open_listener
  open_listener_ready cfg servers w s e =
      elim (Option-cases (create_listen_socket net boot w 8080).1) [
        | inl l ↦ let q = rw (l, open_listener) at e in cc
        | inr (fd, l) ↦
            let q = rw (l, open_listener) at e in ((create_listen_socket net boot w 8080).0, fd, cc)
      ]

  set_up_ready :
      (cfg : Config) (w : World) (s : Proxy World)
      → set_up net boot cfg w ≡ ready s
      → (w' : World) × (fd : ℕ) × (s
          ≡ first_state net boot cfg (load_from_config Servers.init (get_real_servers cfg)).0 w' fd)
  unfolding set_up load_from_config
  set_up_ready cfg w s e = elim (Option-cases (boot.epoll_create w 1024).1) [
    | inl l ↦ let q = rw l at e in cc
    | inr (epfd, l) ↦
        let q = rw l at e in
        open_listener_ready cfg (load_from_config Servers.init (get_real_servers cfg)).0
          (boot.epoll_create w 1024).0 s q
  ]

  loaded_ready :
      (l : Loaded) (w : World) (s : Proxy World)
      → elim l [ unopened ↦ exited 1 w | thrown ↦ aborted | loaded cfg ↦ set_up net boot cfg w ]
        ≡ ready s
      → (cfg : Config) × (l ≡ loaded cfg) × (set_up net boot cfg w ≡ ready s)
  loaded_ready unopened w s e = cc
  loaded_ready thrown w s e = cc
  loaded_ready (loaded cfg) w s e = (cfg, refl, e)

  boot_up_ready :
      (blank : RealServerConfig) (w : World) (o : Options) (s : Proxy World)
      → boot_up net boot blank w o ≡ ready s
      → ((boot.ff_init w o.argv).1 ≡ true)
        × ((cfg : Config) × (load blank Config.new
                (boot.file (boot.ff_init w o.argv).0 o.config_file)
              ≡ loaded cfg)
            × (set_up net boot cfg (boot.ff_init w o.argv).0 ≡ ready s))
  unfolding boot_up
  boot_up_ready blank w o s e = elim (Bool-cases (boot.ff_init w o.argv).1) [
    | inr bad ↦ let q = rw (bad, boot_up) at e in cc
    | inl fine ↦
        let q = rw (fine, boot_up) at e in
        (
          fine,
          loaded_ready (load blank Config.new (boot.file (boot.ff_init w o.argv).0 o.config_file)) _
              s q,
        )
  ]

  -- `main` comes to its loop only where it was not asked for help, F-Stack starts with the arguments that are left
  -- for it, and the file that the command line names is read; the servers are then those of the file, the
  -- address is the configured one, and there are no connections, which is a safe state.
  pub main_ready :
      (blank : RealServerConfig) (w : World) (argv : List (List ℕ)) (s : Proxy World)
      → main net boot blank w argv ≡ ready s
      → (o : Options) × (cfg : Config) × (parse_args argv ≡ some o)
        × ((boot.ff_init w o.argv).1 ≡ true)
        × (load blank Config.new (boot.file (boot.ff_init w o.argv).0 o.config_file) ≡ loaded cfg)
        × (s.servers ≡ (load_from_config Servers.init (get_real_servers cfg)).0)
        × (s.vip ≡ get_vip cfg)
        × (s.connections ≡ [])
        × IsSafe Open s
  unfolding main first_state
  main_ready blank w argv s e = elim (Option-cases (parse_args argv)) [
    | inl l ↦ let q = rw (l, main) at e in cc
    | inr (o, l) ↦
        let q = rw (l, main) at e in
        let (started, (cfg, read, up)) = boot_up_ready blank w o s q in
        let (w', fd, first) = set_up_ready cfg (boot.ff_init w o.argv).0 s up in
        (
          o,
          cfg,
          l,
          started,
          read,
          ap (λ t. t.servers) first,
          ap (λ t. t.vip) first,
          ap (λ t. t.connections) first,
          subst (IsSafe Open) (sym first) (
              first_state-IsSafe cfg (load_from_config Servers.init (get_real_servers cfg)).0 w'
                fd),
        )
  ]

module _ {World : Type 0} (net : Sockets World) (Open : World → ℕ → Type 0)
    (laws : Descriptors net Open) (sent : World → ℕ → List ℕ) (writes : Writes net sent)
    (boot : Boot World) (fits : (w : World) (fd : ℕ) → Open w fd → fd < 2 ^ 31) where
  handle_events-IsSafe :
      (p : Padding) (s : Proxy World) (es : List Event)
      → IsSafe Open s
      → (s' : Proxy World) × (handle_events net p s es ≡ returned s') × IsSafe Open s'
  unfolding handle_events and_then
  handle_events-IsSafe p s [] safe = (s, refl, safe)
  handle_events-IsSafe p s (e ∷ es) safe =
      let few =
        connections_bound (Open s.world) s.connections s.heap s.next (2 ^ 31) safe.sound
          (fits s.world) in
      let (s1, back, safe1) =
        handle_event-IsSafe net Open laws sent writes p s e safe (omega arith) in
      let (s2, rest, safe2) = handle_events-IsSafe p s1 es safe1 in
      (s2, rw (back, handle_events) rest, safe2)

  ff_loop-IsSafe :
      (p : Padding) (s : Proxy World) (running : Bool) (es : List Event)
      → IsSafe Open s
      → (s' : Proxy World) × (ff_loop net boot p running s es
          ≡ returned (s', if running then pos 0 else negsuc 0))
        × IsSafe Open s'
  unfolding ff_loop and_then
  ff_loop-IsSafe p s running es safe =
      let (s1, back, safe1) = handle_events-IsSafe p s es safe in
      (s1, rw (back, ff_loop) refl, safe1)

  Runs-IsSafe :
      (p : Padding) (s t : Proxy World) → Runs net boot p s t → IsSafe Open s → IsSafe Open t
  Runs-IsSafe p s t begun safe = safe
  Runs-IsSafe p s t (round {t = u} {result = r} running es before e) safe =
      let (t1, back, safe1) = ff_loop-IsSafe p u running es (Runs-IsSafe p s u before safe) in
      let same : t1 ≡ t = cc in subst (IsSafe Open) same safe1

  -- Once `main` has come to its loop, whatever events and signals arrive, every round of the loop ends,
  -- with 0 while the program is not told to stop and -1 then, and leaves the connections safe. The
  -- conditions are those on the socket API, and that a descriptor is an `int`.
  pub round_returns :
      (p : Padding) (blank : RealServerConfig) (w : World) (argv : List (List ℕ))
      (s t : Proxy World)
      → main net boot blank w argv ≡ ready s
      → Runs net boot p s t
      → (running : Bool) (events : List Event)
      → (t' : Proxy World) × (ff_loop net boot p running t events
          ≡ returned (t', if running then pos 0 else negsuc 0))
        × IsSafe Open t'
  round_returns p blank w argv s t e runs running events =
      let (_, _, _, _, _, _, _, _, safe) = main_ready net Open boot blank w argv s e in
      ff_loop-IsSafe p t running events (Runs-IsSafe p s t runs safe)
