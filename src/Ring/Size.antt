-- ===== src/Ring/Size.antt =====
-- The template parameter `Size` of both ring queues and what its `static_assert`s give:
-- masking with `Size - 1` is the remainder by `Size`.
use Prim.Native.Nat.{bit_and}
use native.Mathlib.Nat.{
  pow-suc, pow-le-pow_right, le_refl, mod-add-mod, mod-eq_of_lt, mod-eq-sub-mod,
}
use l7_loadbalancer.Base.{
  ℕ, zero, suc, ◌+◌, ◌-◌, ◌/◌, ◌%◌, ◌^◌, ◌≤◌, ◌<◌, ◌≡◌, refl, ap, ◌≢◌, ◌⊎◌, inl, inr, arith, dec_lt,
}
use l7_loadbalancer.Base.Bits.{bit_and_step, bit_and_mask}

-- The two assertions, and that `Size` is a `size_t`.
pub record IsSize (size : ℕ) : Type 0 where
  pub power : bit_and size (size - 1) ≡ 0
  pub two_le : 2 ≤ size
  pub fits : size < 2 ^ 64

and_self_fuel : (n a : ℕ) → a ≤ n → bit_and a a ≡ a
and_self_fuel n zero h = refl
and_self_fuel zero (suc a) h = absurd (omega arith)
and_self_fuel (suc n) (suc a) h =
    omega (arith, bit_and_step (suc a) (suc a), and_self_fuel n (suc a / 2) (omega arith))

power_fuel : (f n : ℕ) → n ≤ f → 1 ≤ n → bit_and n (n - 1) ≡ 0 → (k : ℕ) × (n ≡ 2 ^ k)
power_fuel zero n h pos e = absurd (omega arith)
power_fuel (suc f) n h pos e = elim (dec_lt 0 (n % 2)) [
  | yes odd ↦
      let same : (n - 1) / 2 ≡ n / 2 = omega arith in
      let top : bit_and (n / 2) ((n - 1) / 2) ≡ 0 = omega (arith, bit_and_step n (n - 1)) in
      let low : bit_and (n / 2) (n / 2) ≡ 0 = rw same at top in
      (0, omega (arith, low, and_self_fuel (n / 2) (n / 2) (le_refl _)))
  | no even ↦
      let half : (n - 1) / 2 ≡ n / 2 - 1 = omega arith in
      let top : bit_and (n / 2) ((n - 1) / 2) ≡ 0 = omega (arith, bit_and_step n (n - 1)) in
      let low : bit_and (n / 2) (n / 2 - 1) ≡ 0 = rw half at top in
      let (k, p) = power_fuel f (n / 2) (omega arith) (omega arith) low in
      (suc k, omega (arith, pow-suc 2 k, p))
]

-- The `static_assert` says that `Size` is a power of 2.
pub IsSize-power : {size : ℕ} → IsSize size → (k : ℕ) × (size ≡ 2 ^ k)
IsSize-power {size} v = power_fuel size size (le_refl _) (omega arith) v.power

-- So doubling it does not overflow a `size_t`.
pub IsSize-le : {size : ℕ} → IsSize size → size ≤ 2 ^ 63
IsSize-le {size} v =
    let (k, e) = IsSize-power v in
    elim (dec_lt k 64) [
      | yes p ↦ rw e (pow-le-pow_right {n = 2} (omega arith) {i = k} {j = 63} (omega arith))
      | no p ↦ absurd (
          omega (
            arith,
            v.fits,
            e,
            pow-le-pow_right {n = 2} (omega arith) {i = 64} {j = k} (omega arith),
          ))
    ]

pub mask-eq-mod : {size : ℕ} (x : ℕ) → IsSize size → bit_and x (size - 1) ≡ x % size
mask-eq-mod x v = let (k, e) = IsSize-power v in rw e (bit_and_mask k x)

-- Fewer than `size` steps round the ring do not come back to the start.
pub step_ne : {size h m : ℕ} → h < size → 0 < m → m < size → (h + m) % size ≢ h
step_ne {size} {h} {m} hh pos hm = elim (dec_lt (h + m) size) [
  | yes p ↦ omega (arith, mod-eq_of_lt p)
  | no p ↦ omega (
    arith,
    mod-eq-sub-mod {n = h + m} {m = size} (omega arith),
    mod-eq_of_lt {n = h + m - size} {m = size} (omega arith),
  )
]

pub step_shift : (size h m : ℕ) → (h + suc m) % size ≡ ((h + 1) % size + m) % size
step_shift size h m = rw mod-add-mod (ap (λ k. k % size) (omega arith))

pub mod_bump :
    (size i : ℕ)
    → i < size
    → ((i + 1) % size ≡ i + 1) × (i + 1 < size) ⊎ ((i + 1) % size ≡ 0) × (i + 1 ≡ size)
mod_bump size i h = elim (dec_lt (i + 1) size) [
  | yes p ↦ inl (mod-eq_of_lt p, p)
  | no p ↦ inr (
    omega (
      arith,
      mod-eq-sub-mod {n = i + 1} {m = size} (omega arith),
      mod-eq_of_lt {n = i + 1 - size} {m = size} (omega arith),
    ),
    omega arith,
  )
]
