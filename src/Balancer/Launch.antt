-- ===== src/Balancer/Launch.antt =====
-- A start from a file with one server.
use l7_loadbalancer.Base.{ℕ, ◌≡◌, ◌≢◌, ◌⊎◌, refl, true, false, List, [], ◌∷◌, none, some}
use l7_loadbalancer.Base.Assoc.{find}
use l7_loadbalancer.Types.{RealServer, tuple_key, nat, zero_stats}
use l7_loadbalancer.Text.{skip_space, scan_digits, scan_u, scan_x, expect}
use l7_loadbalancer.Text.Strings.{text_beq, to_lower}
use l7_loadbalancer.Address.{ip_from_string, mac_from_string, pack_ip}
use l7_loadbalancer.Servers
use l7_loadbalancer.Servers.{RealServerConfig, load_from_config}
use l7_loadbalancer.Servers.Loaded.{Configured}
use l7_loadbalancer.Sessions
use l7_loadbalancer.Sessions.{fresh_session}
use l7_loadbalancer.Packet.{to_five_tuple}
use l7_loadbalancer.Config
use l7_loadbalancer.Config.{
  Config, loaded, get_real_servers, full_key, read_item, read_trimmed, read_line, read_lines, load,
}
use l7_loadbalancer.Config.Entries.{HasBad, with_file, server_count}
use l7_loadbalancer.Balancer.{Balancer, handle_loadbalance}
use l7_loadbalancer.Balancer.Start.{
  started, failed, aborted, init, set_up, init_cases, init-handle_loadbalance,
}
use l7_loadbalancer.Config.Samples.{unset, file, one_server, file-load}
use l7_loadbalancer.Balancer.Samples.{tunnel, meta_80, zeroed}

-- Before `init`.
abbrev idle : Balancer
idle = record {
  running = false;
  local_ip = 0;
  local_mac = [];
  forwarder = none;
  servers = Servers.init;
  sessions = record { sessions = []; timeout_sec = 300; stats = zero_stats };
  stats = zero_stats;
  frame = 7 ∷ 8 ∷ [];
}

-- After it.
abbrev launched : Balancer
launched = record idle {
  running = true;
  local_mac = 0 ∷ 0 ∷ 0 ∷ 0 ∷ 0 ∷ 0 ∷ [];
  forwarder = some nat;
  servers = (load_from_config Servers.init one_server.real_servers).0;
}

idle_started : init unset Config.new idle (some file) ≡ started one_server launched
unfolding init set_up load_from_config get_real_servers Config.get_vip Config.get_vip_mac
    Config.get_forward_mode Config.get_session_timeout Config.get_int Config.int_or Config.get
    Sessions.set_timeout find text_beq to_lower ip_from_string scan_u scan_digits skip_space expect
    pack_ip mac_from_string scan_x
idle_started = rw (file-load, init) refl

init_cases_example :
    ((some file ≡ none) × (init unset Config.new idle (some file) ≡ failed Config.new idle))
    ⊎ (((bytes : List ℕ) × (some file ≡ some bytes)
          × HasBad (with_file Config.new bytes) (server_count (with_file Config.new bytes)) 1
          × (init unset Config.new idle (some file) ≡ aborted))
        ⊎ ((bytes : List ℕ) × (cfg' : Config) × (b' : Balancer) × (some file ≡ some bytes)
            × (¬ HasBad (with_file Config.new bytes) (server_count (with_file Config.new bytes)) 1)
            × (Config.parse_real_servers unset (with_file Config.new bytes) ≡ some cfg')
            × (init unset Config.new idle (some file) ≡ started cfg' b')
            × (b'.running ≡ true)
            × (b'.servers ≡ (load_from_config idle.servers (get_real_servers cfg')).0)
            × (b'.local_ip ≡ Config.get_vip cfg')
            × (b'.sessions.timeout_sec ≡ Config.get_session_timeout cfg')
            × (b'.forwarder ≡ some (Config.get_forward_mode cfg'))))
init_cases_example = init_cases unset Config.new idle (some file)

named : get_real_servers one_server ≢ []
unfolding get_real_servers
named e = cc

init-handle_loadbalance_example :
    (rs : RealServer) × Configured 0 (get_real_servers one_server) rs
    × ((handle_loadbalance tunnel zeroed meta_80 9 10 launched).1 ≡ true)
    × (find
          (to_five_tuple meta_80)
          (handle_loadbalance tunnel zeroed meta_80 9 10 launched).0.sessions.sessions
        ≡ some (fresh_session 10 (to_five_tuple meta_80) rs.id))
unfolding find
init-handle_loadbalance_example =
    init-handle_loadbalance tunnel zeroed meta_80 9 10 unset Config.new one_server idle launched
      (some file) refl idle_started named refl
