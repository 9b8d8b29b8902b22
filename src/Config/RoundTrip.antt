-- ===== src/Config/RoundTrip.antt =====
-- An entry that is written from a server's addresses reads back.
use l7_loadbalancer.Base.{
  ℕ, ◌+◌, ◌/◌, ◌%◌, ◌^◌, ◌<◌, ◌≤◌, ◌≡◌, refl, ap, ◌∙◌, ◌≢◌, false, List, [], ◌∷◌, ◌++◌, some, arith,
  map, length, All, ◌==◌,
}
use l7_loadbalancer.Text.{to_string, is_space, skip_space}
use l7_loadbalancer.Text.Numbers.{to_string-All}
use l7_loadbalancer.Text.Integers.{stoi-to_string}
use l7_loadbalancer.Text.Strings.{split, trim, trim_end, stoi, ℤ, pos, int_u16, int_u32}
use l7_loadbalancer.Address.{ip_to_string, mac_to_string, hex_digit}
use l7_loadbalancer.Address.RoundTrip.{ip_from_string-ip_to_string, mac_from_string-mac_to_string}
use l7_loadbalancer.Servers.{RealServerConfig, from_config}
use l7_loadbalancer.Config.{colon, part, parse_server, number_part, mac_parts}
use l7_loadbalancer.Config.Lines.{Without, split-line}

-- A byte that neither separates nor is cut off.
abbrev IsPlain : ℕ → Type 0
IsPlain c = (is_space c ≡ false) × (c ≢ b':')

abbrev ArePlain : List ℕ → Type 0
ArePlain s = All IsPlain s

ArePlain-append : (a b : List ℕ) → ArePlain a → ArePlain b → ArePlain (a ++ b)
ArePlain-append [] b ha hb = hb
ArePlain-append (c ∷ a) b ha hb = (ha.0, ArePlain-append a b ha.1 hb)

Without-plain : (s : List ℕ) → ArePlain s → Without b':' s
Without-plain [] h = tt
Without-plain (c ∷ s) h = (h.0.1, Without-plain s h.1)

trim_end_plain : (s : List ℕ) → ArePlain s → trim_end s ≡ s
unfolding trim_end
trim_end_plain [] h = refl
trim_end_plain (c ∷ []) h = rw h.0.0 refl
trim_end_plain (c ∷ d ∷ s) h = rw (trim_end_plain (d ∷ s) h.1) refl

trim_plain : (s : List ℕ) → ArePlain s → trim s ≡ s
unfolding trim skip_space
trim_plain [] h = trim_end_plain [] h
trim_plain (c ∷ s) h = rw h.0.0 (trim_end_plain (c ∷ s) h)

digit-IsPlain : (d : ℕ) → d < 10 → IsPlain (b'0' + d)
digit-IsPlain d h = (ground arith, λ e. omega arith)

hex-IsPlain : (n : ℕ) → n < 16 → IsPlain (hex_digit n)
hex-IsPlain n h = (ground arith, λ e. ground arith)

number-ArePlain : (n : ℕ) → ArePlain (to_string n)
number-ArePlain n = to_string-All IsPlain n digit-IsPlain

dot-IsPlain : IsPlain b'.'
dot-IsPlain = (refl, λ e. omega arith)

ip-ArePlain : (ip : ℕ) → ArePlain (ip_to_string ip)
unfolding ip_to_string
ip-ArePlain ip = ArePlain-append _ _ (number-ArePlain _) (
  dot-IsPlain,
  ArePlain-append _ _ (number-ArePlain _) (
    dot-IsPlain,
    ArePlain-append _ _ (number-ArePlain _)
        (dot-IsPlain, ArePlain-append _ _ (number-ArePlain _) tt),
  ),
)

byte_text : ℕ → List ℕ
byte_text x = hex_digit (x / 16) ∷ hex_digit (x % 16) ∷ []

byte-ArePlain : (x : ℕ) → x < 256 → ArePlain (byte_text x)
unfolding byte_text
byte-ArePlain x h = (hex-IsPlain (x / 16) (omega arith), (hex-IsPlain (x % 16) (omega arith), tt))

-- One part more, up to its colon.
parts_colon :
    (a rest : List ℕ)
    → ArePlain a
    → map trim (split b':' (colon a rest)) ≡ a ∷ map trim (split b':' rest)
parts_colon a rest h =
    ap (map trim) (split-line b':' a rest (Without-plain a h))
    ∙ ap (λ t. t ∷ map trim (split b':' rest)) (trim_plain a h)

parts_last : (x : ℕ) → x < 256 → map trim (split b':' (byte_text x)) ≡ byte_text x ∷ []
unfolding byte_text split
parts_last x h =
    let plain = byte-ArePlain x h in
    let first : (hex_digit (x / 16) == b':') ≡ false = ground (arith, plain.0.1) in
    let second : (hex_digit (x % 16) == b':') ≡ false = ground (arith, plain.1.0.1) in
    rw (first, second, split) (ap (λ t. t ∷ []) (trim_plain (byte_text x) plain))

parts_byte :
    (x : ℕ) (rest : List ℕ)
    → x < 256
    → map trim (split b':' (colon (byte_text x) rest)) ≡ byte_text x ∷ map trim (split b':' rest)
parts_byte x rest h = parts_colon (byte_text x) rest (byte-ArePlain x h)

-- `ip:port:weight:mac`, as the sample configuration writes it.
pub entry_text : ℕ → ℕ → ℕ → List ℕ → List ℕ
entry_text ip port weight mac =
    colon (ip_to_string ip) (colon (to_string port) (colon (to_string weight) (mac_to_string mac)))

parts_mac :
    (mac : List ℕ)
    → length mac ≡ 6
    → All (λ x. x < 256) mac
    → map trim (split b':' (mac_to_string mac)) ≡ map byte_text mac
unfolding mac_to_string byte_text
parts_mac (a ∷ b ∷ c ∷ d ∷ e ∷ f ∷ []) len h =
    parts_byte a _ h.0
    ∙ ap (◌∷◌ (byte_text a)) (
        parts_byte b _ h.1.0
        ∙ ap (◌∷◌ (byte_text b)) (
            parts_byte c _ h.1.1.0
            ∙ ap (◌∷◌ (byte_text c)) (
                parts_byte d _ h.1.1.1.0
                ∙ ap (◌∷◌ (byte_text d)) (
                    parts_byte e _ h.1.1.1.1.0
                    ∙ ap (◌∷◌ (byte_text e)) (parts_last f h.1.1.1.1.1.0)))))
parts_mac _ len h = absurd (omega arith)

mac_parts-six :
    (x y z : List ℕ) (mac : List ℕ)
    → length mac ≡ 6
    → mac_parts (x ∷ y ∷ z ∷ map byte_text mac) ≡ mac_to_string mac
unfolding mac_parts mac_to_string byte_text
mac_parts-six x y z (a ∷ b ∷ c ∷ d ∷ e ∷ f ∷ []) len = refl
mac_parts-six x y z _ len = absurd (omega arith)

parts_entry :
    (ip port weight : ℕ) (mac : List ℕ)
    → length mac ≡ 6
    → All (λ x. x < 256) mac
    → map trim (split b':' (entry_text ip port weight mac))
      ≡ ip_to_string ip ∷ to_string port ∷ to_string weight ∷ map byte_text mac
unfolding entry_text
parts_entry ip port weight mac len bytes =
    parts_colon (ip_to_string ip) _ (ip-ArePlain ip)
    ∙ ap (◌∷◌ (ip_to_string ip)) (
        parts_colon (to_string port) _ (number-ArePlain port)
        ∙ ap (◌∷◌ (to_string port)) (
            parts_colon (to_string weight) _ (number-ArePlain weight)
            ∙ ap (◌∷◌ (to_string weight)) (parts_mac mac len bytes)))

number_part-some :
    (parts : List (List ℕ)) (i unset : ℕ) (cast : ℤ → ℕ) (n : ℤ)
    → i + 1 ≤ length parts
    → stoi (part parts i) ≡ some n
    → number_part parts i cast unset ≡ some (cast n)
unfolding number_part
number_part-some parts i unset cast n h e = ground arith

parse_server-entry :
    (blank : RealServerConfig) (ip port weight : ℕ) (mac : List ℕ)
    → port < 2 ^ 16
    → weight < 2 ^ 31
    → length mac ≡ 6
    → All (λ x. x < 256) mac
    → parse_server blank (entry_text ip port weight mac)
      ≡ some
          (record { ip = ip_to_string ip; port = port; weight = weight; mac = mac_to_string mac })
unfolding parse_server
parse_server-entry blank ip port weight mac hp hw len bytes =
    let parts = ip_to_string ip ∷ to_string port ∷ to_string weight ∷ map byte_text mac in
    let small_port : int_u16 (pos port) ≡ port = omega arith in
    let small_weight : int_u32 (pos weight) ≡ weight = omega arith in
    rw
      (
        parts_entry ip port weight mac len bytes,
        number_part-some parts 1 blank.port int_u16 (pos port) (omega arith)
            (stoi-to_string port (omega arith)),
        number_part-some parts 2 blank.weight int_u32 (pos weight) (omega arith)
            (stoi-to_string weight hw),
        small_port,
        small_weight,
        mac_parts-six (ip_to_string ip) (to_string port) (to_string weight) mac len,
      )
      refl

-- An entry `ip:port:weight:mac` that is written from a 32-bit address, a 16-bit port, a weight below
-- 2^31 and a MAC address of six bytes is read, and `load_from_config` makes of it a server with just these.
pub from_config-parse_server :
    (blank : RealServerConfig) (i ip port weight : ℕ) (mac : List ℕ)
    → ip < 2 ^ 32
    → port < 2 ^ 16
    → weight < 2 ^ 31
    → length mac ≡ 6
    → All (λ x. x < 256) mac
    → (c : RealServerConfig) × (parse_server blank (entry_text ip port weight mac) ≡ some c)
      × ((from_config i c).ip ≡ ip)
      × ((from_config i c).port ≡ port)
      × ((from_config i c).weight ≡ weight)
      × ((from_config i c).mac ≡ mac)
unfolding from_config
from_config-parse_server blank i ip port weight mac hi hp hw len bytes = (
  _,
  parse_server-entry blank ip port weight mac hp hw len bytes,
  ip_from_string-ip_to_string ip hi,
  refl,
  refl,
  mac_from_string-mac_to_string mac len bytes,
)
