-- ===== src/Balancer/Start.antt =====
-- `LoadBalancer::init` of include/core/loadbalancer.h: from the file, or `none` where it cannot be
-- opened, to the configuration, the managers and the members of the balancer.
use l7_loadbalancer.Base.{
  ℕ, ◌≡◌, refl, sym, ap, ◌∙◌, ◌≢◌, ◌⊎◌, inl, inr, true, List, [], Option, none, some, arith,
  if◌then◌else◌,
}
use l7_loadbalancer.Types.{RealServer}
use l7_loadbalancer.Murmur.{Padding}
use l7_loadbalancer.Servers
use l7_loadbalancer.Servers.{RealServerConfig, load_from_config}
use l7_loadbalancer.Servers.Loaded.{Configured, select_server-load_from_config}
use l7_loadbalancer.Sessions
use l7_loadbalancer.Packet.{PacketMeta, to_five_tuple}
use l7_loadbalancer.Config.{
  Config, Loaded, unopened, thrown, loaded, load, get_vip, get_vip_mac, get_real_servers,
  parse_real_servers, get_session_timeout, get_forward_mode,
}
use l7_loadbalancer.Config.Entries.{
  HasBad, with_file, server_count, load_cases, parse_real_servers_throws,
}
use l7_loadbalancer.Base.Assoc.{find}
use l7_loadbalancer.Types.{tuple_key}
use l7_loadbalancer.Sessions.{fresh_session}
use l7_loadbalancer.Balancer.{Forward, Balancer, handle_loadbalance}
use l7_loadbalancer.Balancer.Sticky.{handle_loadbalance-create}

-- It returns false, throws, or returns true.
pub data Started : Type 0 where
  failed : Config → Balancer → Started
  aborted : Started
  started : Config → Balancer → Started

-- From the first use of the loaded configuration on.
unfoldable pub set_up : Config → Balancer → Started
set_up cfg b =
    let b1 = record b { local_ip = get_vip cfg; local_mac = get_vip_mac cfg } in
    let r = load_from_config b1.servers (get_real_servers cfg) in
    let b2 = record b1 { servers = r.0 } in
    if r.1
    then started cfg (record b2 {
      sessions = Sessions.set_timeout b2.sessions (get_session_timeout cfg);
      forwarder = some (get_forward_mode cfg);
      running = true;
    })
    else failed cfg b2

unfoldable pub init : RealServerConfig → Config → Balancer → Option (List ℕ) → Started
init blank cfg b file = elim (load blank cfg file) [
  | unopened ↦ failed cfg b
  | thrown ↦ aborted
  | loaded cfg' ↦ set_up cfg' b
]

set_up-servers :
    (cfg cfg' : Config) (b b' : Balancer)
    → set_up cfg b ≡ started cfg' b'
    → (cfg ≡ cfg')
      × (b'.servers ≡ (load_from_config b.servers (get_real_servers cfg)).0)
      × (b'.running ≡ true)
unfolding set_up load_from_config
set_up-servers cfg cfg' b b' e = ground arith

init_started :
    (blank : RealServerConfig) (cfg cfg' : Config) (b b' : Balancer) (file : Option (List ℕ))
    → init blank cfg b file ≡ started cfg' b'
    → set_up cfg' b ≡ started cfg' b'
unfolding init
init_started blank cfg cfg' b b' file e = go (load blank cfg file) e
  where
    go :
        (l : Loaded)
        → elim l [ unopened ↦ failed cfg b | thrown ↦ aborted | loaded c ↦ set_up c b ]
          ≡ started cfg' b'
        → set_up cfg' b ≡ started cfg' b'
    go unopened q = cc
    go thrown q = cc
    go (loaded c) q = ap (λ x. set_up x b) (sym (set_up-servers c cfg' b b' q).0) ∙ q

set_up_total :
    (cfg : Config) (b : Balancer)
    → (b' : Balancer) × (set_up cfg b ≡ started cfg b')
      × (b'.running ≡ true)
      × (b'.servers ≡ (load_from_config b.servers (get_real_servers cfg)).0)
      × (b'.local_ip ≡ get_vip cfg)
      × (b'.sessions.timeout_sec ≡ get_session_timeout cfg)
      × (b'.forwarder ≡ some (get_forward_mode cfg))
unfolding set_up load_from_config Sessions.set_timeout
set_up_total cfg b = (_, refl, refl, refl, refl, refl, refl)

-- `init` leaves everything as it is and returns false if the file does not open; it ends in an exception
-- if the file opens and has a server with a bad port or weight; and if the file opens and has none, it
-- returns true, with the configuration read from the file, the balancer running, the servers loaded
-- and the configured address, timeout and forwarder set.
pub init_cases :
    (blank : RealServerConfig) (cfg : Config) (b : Balancer) (file : Option (List ℕ))
    → ((file ≡ none) × (init blank cfg b file ≡ failed cfg b))
      ⊎ (((bytes : List ℕ) × (file ≡ some bytes)
            × HasBad (with_file cfg bytes) (server_count (with_file cfg bytes)) 1
            × (init blank cfg b file ≡ aborted))
          ⊎ ((bytes : List ℕ) × (cfg' : Config) × (b' : Balancer) × (file ≡ some bytes)
              × (¬ HasBad (with_file cfg bytes) (server_count (with_file cfg bytes)) 1)
              × (parse_real_servers blank (with_file cfg bytes) ≡ some cfg')
              × (init blank cfg b file ≡ started cfg' b')
              × (b'.running ≡ true)
              × (b'.servers ≡ (load_from_config b.servers (get_real_servers cfg')).0)
              × (b'.local_ip ≡ get_vip cfg')
              × (b'.sessions.timeout_sec ≡ get_session_timeout cfg')
              × (b'.forwarder ≡ some (get_forward_mode cfg'))))
unfolding init load
init_cases blank cfg b none = inl (refl, refl)
init_cases blank cfg b (some bytes) = elim (load_cases blank cfg bytes) [
  | inl (bad, e) ↦ inr (inl (bytes, refl, bad, rw (e, init) refl))
  | inr (c', parsed, e) ↦
      let (b', up, runs, table, ip, time, way) = set_up_total c' b in
      let good : ¬ HasBad (with_file cfg bytes) (server_count (with_file cfg bytes)) 1 =
        λ bad. let threw = (parse_real_servers_throws blank (with_file cfg bytes)).1 bad in cc in
      inr (inr (bytes, c', b', refl, good, parsed, rw (e, init) up, runs, table, ip, time, way))
]

module _ (forward : Forward) (p : Padding) (meta : PacketMeta) (now now' : ℕ) where
  -- After `init` has set up a new manager from a configuration with at least one server, the first packet
  -- of any flow is given to one of the configured servers: the result is what the forwarder says, and
  -- the flow has a session for that server.
  pub init-handle_loadbalance :
      (blank : RealServerConfig) (cfg cfg' : Config) (b b' : Balancer) (file : Option (List ℕ))
      → b.servers ≡ Servers.init
      → init blank cfg b file ≡ started cfg' b'
      → get_real_servers cfg' ≢ []
      → find (to_five_tuple meta) b'.sessions.sessions ≡ none
      → let r = handle_loadbalance forward p meta now now' b' in
        (rs : RealServer) × Configured 0 (get_real_servers cfg') rs
        × (r.1 ≡ (forward b'.frame meta rs).2)
        × (find (to_five_tuple meta) r.0.sessions.sessions
            ≡ some (fresh_session now' (to_five_tuple meta) rs.id))
  init-handle_loadbalance blank cfg cfg' b b' file new e ne fresh =
      let (_, table, _) = set_up-servers cfg' cfg' b b' (init_started blank cfg cfg' b b' file e) in
      let (rs, given, named) =
        select_server-load_from_config (get_real_servers cfg') (to_five_tuple meta) p ne in
      let here : Servers.select_server b'.servers (to_five_tuple meta) p ≡ some rs =
        rw (table, new) given in
      let (done, _, kept) = handle_loadbalance-create forward p meta now now' b' rs fresh here in
      (rs, named, done, kept)
