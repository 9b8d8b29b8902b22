-- ===== src/Text.antt =====
-- Text as a list of bytes, and what the program uses of the C and C++ libraries on it: `std::to_string`
-- and the conversions `%u`, `%x` of `sscanf` and `%u`, `%02X` of `snprintf`.
pub mod Numbers
pub mod Strings
pub mod Integers
use l7_loadbalancer.Base.{
  ℕ, zero, suc, ◌+◌, ◌-◌, ◌*◌, ◌/◌, ◌%◌, ◌^◌, Bool, true, false, ◌&&◌, ◌||◌, List, [], ◌∷◌, ◌++◌,
  Option, none, some, ltb, leb, ◌==◌, if◌then◌else◌, u32,
}

-- `std::to_string` of an unsigned number, and `%u`: its decimal digits. The fuel is the number itself.
unfoldable pub digits_from : ℕ → ℕ → List ℕ
digits_from zero n = (b'0' + n) ∷ []
digits_from (suc fuel) n =
    let rest = digits_from fuel (n / 10) ++ (b'0' + n % 10) ∷ [] in
    if ltb n 10 then (b'0' + n) ∷ [] else rest

unfoldable pub to_string : ℕ → List ℕ
to_string n = digits_from n n

-- `std::isspace` in the C locale.
abbrev pub is_space : ℕ → Bool
is_space c = c == 32 || (leb 9 c && leb c 13)

abbrev pub is_digit : ℕ → Bool
is_digit c = leb b'0' c && leb c b'9'

-- The white space that a conversion skips.
unfoldable pub skip_space : List ℕ → List ℕ
skip_space [] = []
skip_space (c ∷ s) = if is_space c then skip_space s else c ∷ s

-- The value of a hexadecimal digit of either case.
abbrev pub hex_value : ℕ → Option ℕ
hex_value c =
    if is_digit c
    then some (c - b'0')
    else if leb b'A' c && leb c b'F'
    then some (c - 55)
    else if leb b'a' c && leb c b'f'
    then some (c - 87)
    else none

abbrev pub decimal_value : ℕ → Option ℕ
decimal_value c = if is_digit c then some (c - b'0') else none

-- The longest run of digits in a base: the value so far, and what follows.
unfoldable pub scan_digits : (ℕ → Option ℕ) → ℕ → ℕ → List ℕ → ℕ × List ℕ
scan_digits value base acc [] = (acc, [])
scan_digits value base acc (c ∷ s) = elim (value c) [
  | none ↦ (acc, c ∷ s)
  | some d ↦ scan_digits value base (acc * base + d) s
]

-- At least one digit must stand there.
scan_run : (ℕ → Option ℕ) → ℕ → List ℕ → Option (ℕ × List ℕ)
scan_run value base [] = none
scan_run value base (c ∷ s) = elim (value c) [
  | none ↦ none
  | some d ↦ some (scan_digits value base d s)
]

-- What `%x` allows in front of the digits.
drop_0x : List ℕ → List ℕ
drop_0x (a ∷ b ∷ s) = if a == b'0' && (b == b'x' || b == b'X') then s else a ∷ b ∷ s
drop_0x s = s

-- A sign, then digits; a negative value wraps, as `strtoul` does. Values past the width of the result,
-- which the standard leaves open, are reduced to it.
scan_signed : (List ℕ → List ℕ) → (ℕ → Option ℕ) → ℕ → List ℕ → Option (ℕ × List ℕ)
scan_signed prefix value base [] = none
scan_signed prefix value base (c ∷ s) =
    if c == b'-'
    then elim (scan_run value base (prefix s)) [
      | none ↦ none
      | some (n, rest) ↦ some (u32 (2 ^ 32 - u32 n), rest)
    ]
    else elim (scan_run value base (prefix (if c == b'+' then s else c ∷ s))) [
      | none ↦ none
      | some (n, rest) ↦ some (u32 n, rest)
    ]

-- `%u`
unfoldable pub scan_u : List ℕ → Option (ℕ × List ℕ)
unfolding scan_signed scan_run
scan_u s = scan_signed (λ t. t) decimal_value 10 (skip_space s)

-- `%x`
unfoldable pub scan_x : List ℕ → Option (ℕ × List ℕ)
unfolding scan_signed scan_run drop_0x
scan_x s = scan_signed drop_0x hex_value 16 (skip_space s)

-- A literal character of a format.
unfoldable pub expect : ℕ → List ℕ → Option (List ℕ)
expect c [] = none
expect c (a ∷ s) = if a == c then some s else none
