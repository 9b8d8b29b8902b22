-- ===== src/Address.antt =====
-- The address functions of include/common/types.h. An address is the uint32_t whose lowest byte is
-- the first one in memory, which is the network order on the little-endian machines it runs on.
pub mod RoundTrip
mod Tests
use Prim.Native.Nat.{bit_and, bit_or}
use l7_loadbalancer.Base.{
  ℕ, zero, suc, ◌+◌, ◌*◌, ◌/◌, ◌%◌, ◌^◌, List, [], ◌∷◌, ◌++◌, Option, none, some, ltb,
  if◌then◌else◌, u8, u32, replicate, ◌>>=◌,
}
use l7_loadbalancer.Text.{to_string, scan_u, scan_x, expect}

pub record Octets : Type 0 where
  pub a : ℕ
  pub b : ℕ
  pub c : ℕ
  pub d : ℕ

-- `sscanf(s, "%u.%u.%u.%u", ...) == 4`; what follows the fourth number is not looked at.
scan_ip : List ℕ → Option Octets
scan_ip s0 = do
  (a, s1) ← scan_u s0
  s2 ← expect b'.' s1
  (b, s3) ← scan_u s2
  s4 ← expect b'.' s3
  (c, s5) ← scan_u s4
  s6 ← expect b'.' s5
  (d, s7) ← scan_u s6
  some (record { a = a; b = b; c = c; d = d })

-- `(d << 24) | (c << 16) | (b << 8) | a`
unfoldable pub pack_ip : Octets → ℕ
pack_ip o =
    bit_or (bit_or (bit_or (u32 (o.d * 2 ^ 24)) (u32 (o.c * 2 ^ 16))) (u32 (o.b * 2 ^ 8))) o.a

unfoldable pub ip_from_string : List ℕ → ℕ
unfolding scan_ip
ip_from_string s = elim (scan_ip s) [ none ↦ 0 | some o ↦ pack_ip o ]

unfoldable pub ip_to_string : ℕ → List ℕ
ip_to_string ip =
    to_string (bit_and ip 0xff)
    ++ (b'.'
        ∷ (to_string (bit_and (ip / 2 ^ 8) 0xff)
            ++ (b'.'
                ∷ (to_string (bit_and (ip / 2 ^ 16) 0xff)
                    ++ (b'.' ∷ (to_string (bit_and (ip / 2 ^ 24) 0xff) ++ []))))))

-- The numbers of `%x:%x:...`, `n` of them with a colon between two.
unfoldable pub scan_mac : ℕ → List ℕ → Option (List ℕ)
scan_mac zero s = some []
scan_mac (suc zero) s = do (x, rest) ← scan_x s; some (u8 x ∷ [])
scan_mac (suc (suc n)) s = do
  (x, rest) ← scan_x s
  rest' ← expect b':' rest
  xs ← scan_mac (suc n) rest'
  some (u8 x ∷ xs)

unfoldable pub mac_from_string : List ℕ → List ℕ
unfolding scan_mac
mac_from_string s = elim (scan_mac 6 s) [ none ↦ replicate 6 0 | some m ↦ m ]

-- `%02X` of a byte.
abbrev pub hex_digit : ℕ → ℕ
hex_digit n = if ltb n 10 then b'0' + n else 55 + n

unfoldable pub mac_to_string : List ℕ → List ℕ
mac_to_string [] = []
mac_to_string (x ∷ []) = hex_digit (x / 16) ∷ hex_digit (x % 16) ∷ []
mac_to_string (x ∷ y ∷ m) = hex_digit (x / 16) ∷ hex_digit (x % 16) ∷ b':' ∷ mac_to_string (y ∷ m)
