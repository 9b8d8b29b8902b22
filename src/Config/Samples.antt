-- ===== src/Config/Samples.antt =====
-- A file with one server, and what it is read as.
use l7_loadbalancer.Base.{ℕ, ◌≡◌, refl, List, [], ◌∷◌, ◌++◌, some}
use l7_loadbalancer.Base.Assoc.{find, put}
use l7_loadbalancer.Types.{tuple_key}
use l7_loadbalancer.Text.{skip_space, scan_digits, to_string, digits_from}
use l7_loadbalancer.Text.Strings.{codes, text_beq, split, break_at, trim, trim_end, stoi}
use l7_loadbalancer.Servers.{RealServerConfig}
use l7_loadbalancer.Config
use l7_loadbalancer.Config.{
  Config, loaded, get_real_servers, full_key, read_item, read_trimmed, read_line, read_lines, load,
}

abbrev pub unset : RealServerConfig
unset = record { ip = []; port = 0; weight = 0; mac = [] }

abbrev pub file : List ℕ
file = codes "[realserver]" ++ 10 ∷ codes "count = 1" ++ 10 ∷ codes "server1 = 10.0.0.2:80:100"

abbrev pub one_server : Config
one_server = record {
  config_map =
      (codes "realserver.count", codes "1")
      ∷ (codes "realserver.server1", codes "10.0.0.2:80:100")
      ∷ [];
  real_servers = record { ip = codes "10.0.0.2"; port = 80; weight = 100; mac = [] } ∷ [];
}

pub file-load : load unset Config.new (some file) ≡ loaded one_server
unfolding load split read_lines read_line read_trimmed read_item trim skip_space trim_end break_at
    full_key put text_beq Config.new Config.parse_real_servers Config.get_int Config.int_or
    Config.get find Config.servers_from Config.server_of Config.server_text Config.parse_server
    Config.number_part Config.mac_parts stoi scan_digits to_string digits_from
file-load = refl
