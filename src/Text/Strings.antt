-- ===== src/Text/Strings.antt =====
-- What the program uses of `std::string`, `std::getline`, `std::stoi` and `std::tolower`.
use Prim.Native.Char.{code}
use Prim.Native.String.{String}
use l7_loadbalancer.Base.{
  ℕ, ◌+◌, ◌-◌, ◌%◌, ◌^◌, ◌≡◌, ◌↔◌, Bool, true, false, ◌&&◌, List, [], ◌∷◌, Option, none, some,
  arith, ltb, leb, ◌==◌, ==_iff, if◌then◌else◌, map,
}
use l7_loadbalancer.Base.Assoc.{Eq}
use l7_loadbalancer.Text.{is_space, decimal_value, scan_digits, skip_space}

-- The bytes of a literal in ASCII.
abbrev pub codes : String → List ℕ
codes String.[] = []
codes (String.◌∷◌ c s) = code c ∷ codes s

unfoldable pub text_beq : List ℕ → List ℕ → Bool
text_beq [] [] = true
text_beq (a ∷ s) (b ∷ t) = a == b && text_beq s t
text_beq _ _ = false

pub text_beq_iff : (s t : List ℕ) → (text_beq s t ≡ true) ↔ (s ≡ t)
unfolding text_beq
text_beq_iff [] [] = ground arith
text_beq_iff [] (b ∷ t) = ground arith
text_beq_iff (a ∷ s) [] = ground arith
text_beq_iff (a ∷ s) (b ∷ t) = ground (arith, ==_iff a b, text_beq_iff s t)

instance abbrev pub text_key : Eq (List ℕ)
text_key = record { beq = text_beq; beq_iff = text_beq_iff }

abbrev prepend : ℕ → List (List ℕ) → List (List ℕ)
prepend c [] = (c ∷ []) ∷ []
prepend c (l ∷ ls) = (c ∷ l) ∷ ls

-- The pieces that `std::getline` reads one after another. A separator at the end adds none.
unfoldable pub split : ℕ → List ℕ → List (List ℕ)
split sep [] = []
split sep (c ∷ s) = elim (c == sep) [ true ↦ [] ∷ split sep s | false ↦ prepend c (split sep s) ]

-- What stands before and after the first such character, by `find` and `substr`.
unfoldable pub break_at : ℕ → List ℕ → Option (List ℕ × List ℕ)
break_at sep [] = none
break_at sep (c ∷ s) =
    if c == sep
    then some ([], s)
    else elim (break_at sep s) [ none ↦ none | some (a, b) ↦ some (c ∷ a, b) ]

abbrev pub trim_cons : ℕ → List ℕ → List ℕ
trim_cons c [] = if is_space c then [] else c ∷ []
trim_cons c (d ∷ t) = c ∷ d ∷ t

unfoldable pub trim_end : List ℕ → List ℕ
trim_end [] = []
trim_end (c ∷ s) = trim_cons c (trim_end s)

-- `trim` of include/common/config.h.
unfoldable pub trim : List ℕ → List ℕ
trim s = trim_end (skip_space s)

unfoldable pub to_lower : List ℕ → List ℕ
to_lower s = map (λ c. if leb b'A' c && leb c b'Z' then c + 32 else c) s

-- `negsuc n` is -(n + 1).
pub data ℤ : Type 0 where
  pos : ℕ → ℤ
  negsuc : ℕ → ℤ

-- An `int` cast to uint16_t and to uint32_t.
abbrev pub int_u16 : ℤ → ℕ
int_u16 (pos n) = n % 2 ^ 16
int_u16 (negsuc n) = 2 ^ 16 - 1 - n % 2 ^ 16

abbrev pub int_u32 : ℤ → ℕ
int_u32 (pos n) = n % 2 ^ 32
int_u32 (negsuc n) = 2 ^ 32 - 1 - n % 2 ^ 32

-- The digits at the start of a text as a number; at least one must stand there.
abbrev pub leading_number : List ℕ → Option ℕ
leading_number [] = none
leading_number (c ∷ s) = elim (decimal_value c) [
  | none ↦ none
  | some d ↦ some (scan_digits decimal_value 10 d s).0
]

abbrev pub positive : Option ℕ → Option ℤ
positive none = none
positive (some n) = if ltb n (2 ^ 31) then some (pos n) else none

abbrev pub negative : Option ℕ → Option ℤ
negative none = none
negative (some n) =
    if n == 0 then some (pos 0) else if leb n (2 ^ 31) then some (negsuc (n - 1)) else none

abbrev stoi_signed : List ℕ → Option ℤ
stoi_signed [] = none
stoi_signed (c ∷ s) =
    if c == b'-'
    then negative (leading_number s)
    else positive (leading_number (if c == b'+' then s else c ∷ s))

-- `std::stoi`; `none` is that it throws, for want of a number or for one outside an `int`.
unfoldable pub stoi : List ℕ → Option ℤ
stoi s = stoi_signed (skip_space s)
