-- ===== src/Base/Bits.antt =====
-- Facts about the native bit operations at variables: exclusive or is its own inverse, keeps a
-- width and commutes with right shifts; `|` of disjoint fields is a sum; `&` with a low mask is `%`.
use Prim.Native.Nat.{
  ℕ, zero, suc, ◌+◌, ◌-◌, ◌*◌, ◌/◌, ◌%◌, ◌^◌, ◌≤◌, ◌<◌, min, max, differ, digits, bitwise, bit_and,
  bit_or, bit_xor, bit_and-bitwise, bit_or-bitwise, bit_xor-bitwise,
}
use mathlib.Core.Path.{◌≡◌, refl, sym, ap, ◌∙◌}
use native.Mathlib.Nat.{le_refl, pow-suc, one-le-pow, div-one, div-div-eq-div-mul}
use native.Mathlib.Omega.{arith}

-- What `bitwise` does for one digit, whatever it does with a pair of digits and with the rest of the
-- right number once the left one is used up.
module _ (tail : ℕ → ℕ) (op : ℕ → ℕ → ℕ) where
  extra_round :
      (rounds x y : ℕ) → x ≤ rounds → digits tail op (suc rounds) x y ≡ digits tail op rounds x y
  extra_round rounds zero y h = by_rounds rounds
    where
      by_rounds : (r : ℕ) → digits tail op (suc r) zero y ≡ digits tail op r zero y
      by_rounds zero = refl
      by_rounds (suc r) = refl
  extra_round zero (suc x) y h = absurd (omega arith)
  extra_round (suc rounds) (suc x) y h =
      ap (λ v. v * 2 + op (suc x % 2) (y % 2))
        (extra_round rounds (suc x / 2) (y / 2) (omega arith))

  settled : (k x y : ℕ) → digits tail op (x + k) x y ≡ bitwise tail op x y
  settled zero x y = ap (λ r. digits tail op r x y) (omega arith)
  settled (suc k) x y =
      ap (λ r. digits tail op r x y) (let e : x + suc k ≡ suc (x + k) = omega arith in e)
      ∙ extra_round (x + k) x y (omega arith)
      ∙ settled k x y

  low_digit :
      (x y : ℕ)
      → bitwise tail op (suc x) y ≡ bitwise tail op (suc x / 2) (y / 2) * 2 + op (suc x % 2) (y % 2)
  low_digit x y =
      let half = suc x / 2 in
      let whole : x ≡ half + (x - half) = omega arith in
      ap (λ v. v * 2 + op (suc x % 2) (y % 2))
        (ap (λ r. digits tail op r half (y / 2)) whole ∙ settled (x - half) half (y / 2))

pub bit_xor_step : (x y : ℕ) → bit_xor x y ≡ bit_xor (x / 2) (y / 2) * 2 + differ (x % 2) (y % 2)
bit_xor_step zero y = simp bit_xor-bitwise (omega arith)
bit_xor_step (suc x) y = simp bit_xor-bitwise (low_digit (λ r. r) differ x y)

pub bit_and_step : (x y : ℕ) → bit_and x y ≡ bit_and (x / 2) (y / 2) * 2 + min (x % 2) (y % 2)
bit_and_step zero y = simp bit_and-bitwise (omega arith)
bit_and_step (suc x) y = simp bit_and-bitwise (low_digit (λ _. 0) min x y)

pub bit_or_step : (x y : ℕ) → bit_or x y ≡ bit_or (x / 2) (y / 2) * 2 + max (x % 2) (y % 2)
bit_or_step zero y = simp bit_or-bitwise (omega arith)
bit_or_step (suc x) y = simp bit_or-bitwise (low_digit (λ r. r) max x y)

differ-lt : (x y : ℕ) → x < 2 → y < 2 → differ x y < 2
differ-lt zero y p q = q
differ-lt (suc zero) zero p q = omega arith
differ-lt (suc zero) (suc y) p q = omega arith
differ-lt (suc (suc x)) y p q = absurd (omega arith)

differ_cancel : (x y : ℕ) → x < 2 → y < 2 → differ (differ x y) y ≡ x
differ_cancel zero zero p q = refl
differ_cancel zero (suc zero) p q = refl
differ_cancel zero (suc (suc y)) p q = absurd (omega arith)
differ_cancel (suc zero) zero p q = refl
differ_cancel (suc zero) (suc zero) p q = refl
differ_cancel (suc zero) (suc (suc y)) p q = absurd (omega arith)
differ_cancel (suc (suc x)) y p q = absurd (omega arith)

differ_comm : (x y : ℕ) → differ x y ≡ differ y x
differ_comm zero zero = refl
differ_comm zero (suc y) = refl
differ_comm (suc x) zero = refl
differ_comm (suc x) (suc y) = differ_comm x y

bit_xor-half :
    (a b : ℕ)
    → (bit_xor a b / 2 ≡ bit_xor (a / 2) (b / 2)) × (bit_xor a b % 2 ≡ differ (a % 2) (b % 2))
bit_xor-half a b =
    omega (arith, bit_xor_step a b, differ-lt (a % 2) (b % 2) (omega arith) (omega arith))

zero-bit_xor : (b : ℕ) → bit_xor 0 b ≡ b
zero-bit_xor b = bit_xor-bitwise 0 b

cancel_fuel : (n a b : ℕ) → a + b ≤ n → bit_xor (bit_xor a b) b ≡ a
cancel_fuel zero a b h =
    let ea : a ≡ 0 = omega arith in let eb : b ≡ 0 = omega arith in rw (ea, eb) refl
cancel_fuel (suc n) zero zero h = refl
cancel_fuel (suc n) a b h =
    rw
      (
        bit_xor_step (bit_xor a b) b,
        (bit_xor-half a b).0,
        (bit_xor-half a b).1,
        differ_cancel (a % 2) (b % 2) (omega arith) (omega arith),
        cancel_fuel n (a / 2) (b / 2) (half_fuel n a b h),
      )
      (omega arith)
  where
    half_fuel : (n a b : ℕ) → a + b ≤ suc n → a / 2 + b / 2 ≤ n
    half_fuel n a b h = omega arith

-- Exclusive or with the same number twice changes nothing.
pub bit_xor_cancel : (a b : ℕ) → bit_xor (bit_xor a b) b ≡ a
bit_xor_cancel a b = cancel_fuel (a + b) a b (le_refl _)

pub bit_xor_inj : (a a' b : ℕ) → bit_xor a b ≡ bit_xor a' b → a ≡ a'
bit_xor_inj a a' b e = sym (bit_xor_cancel a b) ∙ ap (λ x. bit_xor x b) e ∙ bit_xor_cancel a' b

comm_fuel : (n a b : ℕ) → a + b ≤ n → bit_xor a b ≡ bit_xor b a
comm_fuel zero a b h =
    let ea : a ≡ 0 = omega arith in let eb : b ≡ 0 = omega arith in rw (ea, eb) refl
comm_fuel (suc n) zero zero h = refl
comm_fuel (suc n) a b h = omega (
  arith,
  bit_xor_step a b,
  bit_xor_step b a,
  differ_comm (a % 2) (b % 2),
  comm_fuel n (a / 2) (b / 2) (omega arith),
)

pub bit_xor_comm : (a b : ℕ) → bit_xor a b ≡ bit_xor b a
bit_xor_comm a b = comm_fuel (a + b) a b (le_refl _)

pub bit_xor-zero : (a : ℕ) → bit_xor a 0 ≡ a
bit_xor-zero a = bit_xor_comm a 0 ∙ zero-bit_xor a

pub bit_xor-lt : (k a b : ℕ) → a < 2 ^ k → b < 2 ^ k → bit_xor a b < 2 ^ k
bit_xor-lt zero a b p q =
    let ea : a ≡ 0 = omega arith in let eb : b ≡ 0 = omega arith in rw (ea, eb) (omega arith)
bit_xor-lt (suc k) a b p q = omega (
  arith,
  pow-suc 2 k,
  bit_xor_step a b,
  differ-lt (a % 2) (b % 2) (omega arith) (omega arith),
  bit_xor-lt k (a / 2) (b / 2) (omega (arith, pow-suc 2 k)) (omega (arith, pow-suc 2 k)),
)

div_two_pow : (a k : ℕ) → a / 2 ^ suc k ≡ a / 2 / 2 ^ k
div_two_pow a k = rw (div-div-eq-div-mul a 2 (2 ^ k), pow-suc 2 k) (ap (λ t. a / t) (omega arith))

pub bit_xor-shr : (k a b : ℕ) → bit_xor a b / 2 ^ k ≡ bit_xor (a / 2 ^ k) (b / 2 ^ k)
bit_xor-shr zero a b = let e = λ (x : ℕ). div-one x in rw (e (bit_xor a b), e a, e b) refl
bit_xor-shr (suc k) a b =
    rw
      (
        div_two_pow (bit_xor a b) k,
        div_two_pow a k,
        div_two_pow b k,
        (bit_xor-half a b).0,
        bit_xor-shr k (a / 2) (b / 2),
      )
      refl

-- `(q << k) | r` is a sum when `r` fits `k` bits.
or-zero_fuel : (n a : ℕ) → a ≤ n → bit_or a 0 ≡ a
or-zero_fuel n zero h = refl
or-zero_fuel zero (suc a) h = absurd (omega arith)
or-zero_fuel (suc n) (suc a) h =
    omega (arith, bit_or_step (suc a) 0, or-zero_fuel n (suc a / 2) (omega arith))

and-zero_fuel : (n a : ℕ) → a ≤ n → bit_and a 0 ≡ 0
and-zero_fuel n zero h = refl
and-zero_fuel zero (suc a) h = absurd (omega arith)
and-zero_fuel (suc n) (suc a) h =
    omega (arith, bit_and_step (suc a) 0, and-zero_fuel n (suc a / 2) (omega arith))

mul-pow-suc : (q k : ℕ) → q * 2 ^ suc k ≡ 2 * (q * 2 ^ k)
mul-pow-suc q k = omega (arith, ap (λ (t : ℕ). q * t) (pow-suc 2 k))

pub bit_or_fields : (k q r : ℕ) → r < 2 ^ k → bit_or (q * 2 ^ k) r ≡ q * 2 ^ k + r
bit_or_fields zero q r fits =
    let e : r ≡ 0 = omega arith in
    rw (e, or-zero_fuel (q * 2 ^ 0) (q * 2 ^ 0) (le_refl _)) (omega arith)
bit_or_fields (suc k) q r fits =
    ground (
      arith,
      bit_or_step (q * 2 ^ suc k) r,
      mul-pow-suc q k,
      pow-suc 2 k,
      bit_or_fields k q (r / 2),
    )

and_fields : (k q r : ℕ) → r < 2 ^ k → bit_and (q * 2 ^ k + r) (2 ^ k - 1) ≡ r
and_fields zero q r fits =
    let e : r ≡ 0 = omega arith in omega (arith, and-zero_fuel _ (q * 2 ^ 0 + r) (le_refl _))
and_fields (suc k) q r fits = ground (
  arith,
  bit_and_step (q * 2 ^ suc k + r) (2 ^ suc k - 1),
  mul-pow-suc q k,
  pow-suc 2 k,
  one-le-pow k 2,
  and_fields k q (r / 2),
)

-- `&` with the low mask of `k` bits is the remainder by `2 ^ k`.
pub bit_and_mask : (k a : ℕ) → bit_and a (2 ^ k - 1) ≡ a % 2 ^ k
bit_and_mask k a = ground (arith, one-le-pow k 2, and_fields k (a / 2 ^ k) (a % 2 ^ k))
