-- ===== src/Config/Tests.antt =====
-- A small configuration: one server, and a timeout that is set twice.
use l7_loadbalancer.Base.{ℕ, ◌≡◌, ◌↔◌, ◌≢◌, refl, false, List, [], ◌∷◌, none, some, arith}
use l7_loadbalancer.Base.Assoc.{find, put}
use l7_loadbalancer.Text.{skip_space, is_space, scan_digits, to_string, digits_from}
use l7_loadbalancer.Text.Strings.{
  codes, text_beq, text_key, split, break_at, trim, trim_end, stoi, pos,
}
use l7_loadbalancer.Servers.{RealServerConfig, from_config}
use l7_loadbalancer.Config.{
  Config, new, full_key, read_item, read_trimmed, read_line, read_lines, get, get_int, int_or,
  parse_server, number_part, server_text, server_of, servers_from, rounds, parse_real_servers, load,
  loaded,
}
use l7_loadbalancer.Config.Lines.{Item, Fits, render, last_set, get-load}
use l7_loadbalancer.Config.Entries.{HasBad, parse_real_servers_throws}
use l7_loadbalancer.Config.RoundTrip.{entry_text, from_config-parse_server}

abbrev unset : RealServerConfig
unset = record { ip = []; port = 7; weight = 9; mac = [] }

-- `[g] t=5`, then `[g] t=6`.
abbrev setting : ℕ → Item
setting digit = record { section = codes "g"; first = b't'; more = []; value = digit ∷ [] }

abbrev settings : List Item
settings = setting b'5' ∷ setting b'6' ∷ []

abbrev filled : Config
filled = record { config_map = (codes "g.t", codes "6") ∷ []; real_servers = [] }

settings-load : load unset new (some (render settings)) ≡ loaded filled
unfolding load render split read_lines read_line read_trimmed read_item trim skip_space trim_end
    break_at full_key put text_beq new parse_real_servers get_int int_or get find servers_from
settings-load = refl

setting-Fits : (digit : ℕ) → is_space digit ≡ false → digit ≢ 10 → Fits (setting digit)
unfolding skip_space trim_end
setting-Fits digit solid line = record {
  section_trimmed = record { at_start = refl; at_end = refl };
  section_line = omega arith;
  section_plain = omega arith;
  solid = refl;
  marks = (refl, refl);
  key_trimmed = record { at_start = refl; at_end = refl };
  key_line = omega arith;
  key_plain = omega arith;
  key_dotless = omega arith;
  value_trimmed = record { at_start = rw solid refl; at_end = rw solid refl };
  value_line = (line, tt);
}

get-load_example :
    get filled (codes "g") (codes "t") []
    ≡ last_set settings (codes "g") (codes "t") (get new (codes "g") (codes "t") [])
get-load_example =
    get-load unset new filled settings b'g' [] (codes "t") []
      (setting-Fits b'5' refl (λ e. omega arith), (setting-Fits b'6' refl (λ e. omega arith), tt))
      (omega arith) settings-load

-- The value set last is found.
get_last : get filled (codes "g") (codes "t") [] ≡ codes "6"
unfolding get find text_beq
get_last = refl

-- One server, whose port is no number.
abbrev broken : Config
broken = record {
  config_map =
      (codes "realserver.count", codes "1")
      ∷ (codes "realserver.server1", codes "10.0.0.1:http")
      ∷ [];
  real_servers = [];
}

parse_real_servers_throws_example :
    (parse_real_servers unset broken ≡ none)
    ↔ HasBad broken (rounds (get_int broken (codes "realserver") (codes "count") (pos 0))) 1
parse_real_servers_throws_example = parse_real_servers_throws unset broken

broken_throws : parse_real_servers unset broken ≡ none
unfolding parse_real_servers servers_from server_of server_text parse_server number_part get_int
    int_or get find text_beq split trim skip_space trim_end stoi scan_digits to_string digits_from
broken_throws = refl

from_config-parse_server_example :
    (c : RealServerConfig) × (parse_server unset
        (entry_text 0x0100000a 80 100 (1 ∷ 2 ∷ 3 ∷ 4 ∷ 5 ∷ 6 ∷ []))
      ≡ some c)
    × ((from_config 0 c).ip ≡ 0x0100000a)
    × ((from_config 0 c).port ≡ 80)
    × ((from_config 0 c).weight ≡ 100)
    × ((from_config 0 c).mac ≡ 1 ∷ 2 ∷ 3 ∷ 4 ∷ 5 ∷ 6 ∷ [])
from_config-parse_server_example =
    from_config-parse_server unset 0 0x0100000a 80 100 (1 ∷ 2 ∷ 3 ∷ 4 ∷ 5 ∷ 6 ∷ []) (omega arith)
      (omega arith) (omega arith) refl (omega arith)
