-- ===== src/Proxy/Safety/Served.antt =====
-- A client of the running proxy is dialled through to a configured server.
use l7_loadbalancer.Base.{
  ℕ, ◌≡◌, refl, sym, ap, ◌∙◌, ◌≢◌, Bool, List, [], Option, none, some, if◌then◌else◌,
}
use l7_loadbalancer.Types.{RealServer}
use l7_loadbalancer.Text.Strings.{ℤ, pos, negsuc}
use l7_loadbalancer.Murmur.{Padding}
use l7_loadbalancer.Config
use l7_loadbalancer.Config.{Config, loaded, load, get_real_servers}
use l7_loadbalancer.Servers
use l7_loadbalancer.Servers.{Manager, RealServerConfig, load_from_config, select_server}
use l7_loadbalancer.Servers.Loaded.{Configured, select_server-load_from_config}
use l7_loadbalancer.Proxy.State.{
  Sockets, Proxy, Event, Outcome, returned, dangling, spinning, and_then,
}
use l7_loadbalancer.Proxy.Arguments.{Options, parse_args}
use l7_loadbalancer.Proxy.Accept.{
  set_nonblocking, connect_to_backend, open_connection, client_tuple, handle_accept,
}
use l7_loadbalancer.Proxy.Events.{handle_events}
use l7_loadbalancer.Proxy.Main.{Boot, ready, main, ff_loop, Runs, begun, round}
use l7_loadbalancer.Proxy.Safety.Run.{main_ready}
use l7_loadbalancer.Proxy.Safety.Servers.{Leaves, handle_events-Leaves}

module _ {World : Type 0} (net : Sockets World) (boot : Boot World) where
  abbrev answer : Bool → Proxy World → Outcome (Proxy World × ℤ)
  answer running u = returned (u, if running then pos 0 else negsuc 0)

  ff_loop-servers :
      (m : Manager) (p : Padding) (running : Bool) (s t : Proxy World) (es : List Event) (r : ℤ)
      → s.servers ≡ m
      → ff_loop net boot p running s es ≡ returned (t, r)
      → t.servers ≡ m
  unfolding ff_loop and_then
  ff_loop-servers m p running s t es r h e =
      ended (handle_events net p s es) e (handle_events-Leaves net m p s es h)
    where
      ended :
          (o : Outcome (Proxy World))
          → and_then o (answer running) ≡ returned (t, r)
          → Leaves net m (λ u. u) o
          → t.servers ≡ m
      ended (returned u) q k = let same : u ≡ t = cc in ap (λ v. v.servers) (sym same) ∙ k
      ended dangling q k = cc
      ended spinning q k = cc

  Runs-servers : (p : Padding) (s t : Proxy World) → Runs net boot p s t → t.servers ≡ s.servers
  Runs-servers p s t begun = refl
  Runs-servers p s t (round {t = u} {result = r} running es before e) =
      ff_loop-servers s.servers p running u t es r (Runs-servers p s u before) e

  -- Where the file that the command line names has at least one server, the proxy, whatever has happened since its
  -- start, turns no client away for want of a server: it dials a configured server, opens the
  -- connection to just that server if it gets a socket for it, and else closes the client's.
  pub handle_accept-Configured :
      (blank : RealServerConfig) (w : World) (argv : List (List ℕ)) (o : Options) (cfg : Config)
      (p : Padding) (s t : Proxy World) (fd client addr port : ℕ)
      → parse_args argv ≡ some o
      → load blank Config.new (boot.file (boot.ff_init w o.argv).0 o.config_file) ≡ loaded cfg
      → get_real_servers cfg ≢ []
      → main net boot blank w argv ≡ ready s
      → Runs net boot p s t
      → (net.accept t.world fd).1 ≡ some (client, addr, port)
      → (rs : RealServer) × Configured 0 (get_real_servers cfg) rs
        × (let dialled =
              connect_to_backend net (set_nonblocking net (net.accept t.world fd).0 client) rs in
            handle_accept net p t fd ≡ elim dialled.1 [
              | none ↦ record t { world = net.close dialled.0 client }
              | some backend ↦
                  open_connection net (record t { world = dialled.0 }) client backend rs.id
            ])
  unfolding handle_accept
  handle_accept-Configured blank w argv o cfg p s t fd client addr port args read ne e runs came =
      let (o', cfg', args', _, read', table, _, _, _) =
        main_ready net (λ _ _. Unit) boot blank w argv s e in
      let same_o : o' ≡ o = cc in
      let file_of : Options → Option (List ℕ) =
        λ q. boot.file (boot.ff_init w q.argv).0 q.config_file in
      let again : loaded cfg' ≡ loaded cfg =
        sym read' ∙ ap (λ q. load blank Config.new (file_of q)) same_o ∙ read in
      let same : cfg' ≡ cfg = cc in
      let (rs, given, named) =
        select_server-load_from_config (get_real_servers cfg) (client_tuple net t addr port) p ne in
      let kept : t.servers ≡ (load_from_config Servers.init (get_real_servers cfg)).0 =
        Runs-servers p s t runs
        ∙ table
        ∙ ap (λ c. (load_from_config Servers.init (get_real_servers c)).0) same in
      let here : select_server t.servers (client_tuple net t addr port) p ≡ some rs =
        ap (λ m. select_server m (client_tuple net t addr port) p) kept ∙ given in
      (rs, named, rw (came, here, handle_accept) refl)
