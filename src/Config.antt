-- ===== src/Config.antt =====
-- Config of include/common/config.h. A file is its bytes, or `none` where it cannot be opened; `blank`
-- is what the fields of a RealServerConfig hold that no part of its text sets.
pub mod Lines
pub mod Entries
pub mod RoundTrip
pub mod Samples
mod Tests
use l7_loadbalancer.Base.{
  ℕ, zero, suc, ◌+◌, ◌-◌, Bool, true, false, ◌||◌, List, [], ◌∷◌, ◌++◌, Option, none, some, ◌==◌,
  leb, if◌then◌else◌, map, length, get_or, u32, ◌>>=◌,
}
use l7_loadbalancer.Base.Assoc.{find, put}
use l7_loadbalancer.Types.{ForwardMode, nat, dr}
use l7_loadbalancer.Text.{to_string}
use l7_loadbalancer.Text.Strings.{
  codes, text_beq, text_key, split, break_at, trim, to_lower, ℤ, pos, negsuc, int_u16, int_u32,
  stoi,
}
use l7_loadbalancer.Address.{ip_from_string, mac_from_string}
use l7_loadbalancer.Servers.{RealServerConfig}

pub record Config : Type 0 where
  pub config_map : List (List ℕ × List ℕ)
  pub real_servers : List RealServerConfig

unfoldable pub new : Config
new = record { config_map = []; real_servers = [] }

-- The loop of `load` keeps the section that it is in beside the map.
pub record Reading : Type 0 where
  pub section : List ℕ
  pub items : List (List ℕ × List ℕ)

unfoldable pub full_key : List ℕ → List ℕ → List ℕ
full_key [] key = key
full_key (c ∷ s) key = (c ∷ s) ++ (b'.' ∷ key)

-- A line after `trim` that is not empty and no comment.
unfoldable pub read_item : Reading → ℕ → List ℕ → Reading
read_item r c rest =
    if c == b'['
    then elim (break_at b']' rest) [ none ↦ r | some (name, _) ↦ record r { section = trim name } ]
    else elim (break_at b'=' (c ∷ rest)) [
      | none ↦ r
      | some (key, value) ↦ record r {
        items = put (full_key r.section (trim key)) (trim value) r.items;
      }
    ]

unfoldable pub read_trimmed : Reading → List ℕ → Reading
read_trimmed r [] = r
read_trimmed r (c ∷ rest) = if c == b'#' || c == b';' then r else read_item r c rest

unfoldable pub read_line : Reading → List ℕ → Reading
read_line r line = read_trimmed r (trim line)

unfoldable pub read_lines : Reading → List (List ℕ) → Reading
read_lines r [] = r
read_lines r (l ∷ ls) = read_lines (read_line r l) ls

unfoldable pub get : Config → List ℕ → List ℕ → List ℕ → List ℕ
get c section key default_val = elim (find (section ++ (b'.' ∷ key)) c.config_map) [
  | none ↦ default_val
  | some v ↦ v
]

-- The rest of `get_int`, which catches what `stoi` throws.
unfoldable pub int_or : ℤ → List ℕ → ℤ
int_or default_val [] = default_val
int_or default_val (c ∷ s) = elim (stoi (c ∷ s)) [ none ↦ default_val | some n ↦ n ]

unfoldable pub get_int : Config → List ℕ → List ℕ → ℤ → ℤ
get_int c section key default_val = int_or default_val (get c section key [])

abbrev pub is_true : List ℕ → Bool
is_true v =
    text_beq v (codes "true")
    || text_beq v (codes "yes")
    || text_beq v (codes "1")
    || text_beq v (codes "on")

unfoldable pub bool_or : Bool → List ℕ → Bool
bool_or default_val [] = default_val
bool_or default_val (c ∷ s) = is_true (to_lower (c ∷ s))

unfoldable pub get_bool : Config → List ℕ → List ℕ → Bool → Bool
get_bool c section key default_val = bool_or default_val (get c section key [])

unfoldable pub get_forward_mode : Config → ForwardMode
get_forward_mode c =
    if text_beq (to_lower (get c (codes "global") (codes "mode") (codes "nat"))) (codes "dr")
    then dr
    else nat

unfoldable pub get_vip : Config → ℕ
get_vip c = ip_from_string (get c (codes "vip") (codes "ip") (codes "0.0.0.0"))

unfoldable pub get_vip_mac : Config → List ℕ
get_vip_mac c = mac_from_string (get c (codes "vip") (codes "mac") (codes "00:00:00:00:00:00"))

unfoldable pub get_gateway : Config → ℕ
get_gateway c = ip_from_string (get c (codes "network") (codes "gateway") (codes "0.0.0.0"))

-- The loop of `get_listen_ports`: what is no number is passed over.
unfoldable pub ports_of : List (List ℕ) → List ℕ
ports_of [] = []
ports_of (l ∷ ls) = elim (stoi (trim l)) [ none ↦ ports_of ls | some n ↦ int_u16 n ∷ ports_of ls ]

unfoldable pub get_listen_ports : Config → List ℕ
get_listen_ports c = ports_of (split b',' (get c (codes "vip") (codes "ports") (codes "80")))

unfoldable pub get_session_timeout : Config → ℕ
get_session_timeout c = int_u32 (get_int c (codes "global") (codes "session_timeout") (pos 300))

unfoldable pub get_virtual_nodes : Config → ℕ
get_virtual_nodes c = int_u32 (get_int c (codes "global") (codes "virtual_nodes") (pos 150))

unfoldable pub get_real_servers : Config → List RealServerConfig
get_real_servers c = c.real_servers

-- `parts[i]`, trimmed, where the code has tested that it is there.
abbrev pub part : List (List ℕ) → ℕ → List ℕ
part parts i = get_or parts i []

-- A number among the parts, if there are so many; `none` is the exception of `stoi`.
unfoldable pub number_part : List (List ℕ) → ℕ → (ℤ → ℕ) → ℕ → Option ℕ
number_part parts i cast unset =
    if leb (i + 1) (length parts)
    then elim (stoi (part parts i)) [ none ↦ none | some n ↦ some (cast n) ]
    else some unset

abbrev pub colon : List ℕ → List ℕ → List ℕ
colon a b = a ++ (b':' ∷ b)

unfoldable pub mac_parts : List (List ℕ) → List ℕ
mac_parts parts =
    if leb 6 (length parts)
    then (let three = colon (part parts 3) (colon (part parts 4) (part parts 5)) in
        if leb 9 (length parts)
        then colon three (colon (part parts 6) (colon (part parts 7) (part parts 8)))
        else three)
    else []

-- One value `ip:port:weight:mac` of the section of real servers.
unfoldable pub parse_server : RealServerConfig → List ℕ → Option RealServerConfig
parse_server blank value =
    let parts = map trim (split b':' value) in
    do
      port ← number_part parts 1 int_u16 blank.port
      weight ← number_part parts 2 int_u32 blank.weight
      some (record { ip = part parts 0; port = port; weight = weight; mac = mac_parts parts })

unfoldable pub server_text : Config → ℕ → List ℕ
server_text c i = get c (codes "realserver") (codes "server" ++ to_string i) []

-- One round of the loop of `parse_real_servers`: an empty value is passed over.
unfoldable pub server_of : RealServerConfig → List ℕ → Option (List RealServerConfig)
server_of blank [] = some []
server_of blank (c ∷ s) = do rs ← parse_server blank (c ∷ s); some (rs ∷ [])

-- The loop from server `i` on, with the rounds left first.
unfoldable pub servers_from : RealServerConfig → Config → ℕ → ℕ → Option (List RealServerConfig)
servers_from blank c zero i = some []
servers_from blank c (suc left) i = do
  here ← server_of blank (server_text c i)
  rest ← servers_from blank c left (i + 1)
  some (here ++ rest)

abbrev pub rounds : ℤ → ℕ
rounds (pos n) = n
rounds (negsuc n) = 0

unfoldable pub parse_real_servers : RealServerConfig → Config → Option Config
parse_real_servers blank c = do
  servers ← servers_from blank c (rounds (get_int c (codes "realserver") (codes "count") (pos 0))) 1
  some (record c { real_servers = servers })

-- What `load` does: it returns false with nothing changed, throws, or returns true.
pub data Loaded : Type 0 where
  unopened : Loaded
  thrown : Loaded
  loaded : Config → Loaded

unfoldable pub load : RealServerConfig → Config → Option (List ℕ) → Loaded
load blank c none = unopened
load blank c (some file) =
    let r = read_lines (record { section = []; items = c.config_map }) (split 10 file) in
    elim (parse_real_servers blank (record c { config_map = r.items })) [
      | none ↦ thrown
      | some c' ↦ loaded c'
    ]
