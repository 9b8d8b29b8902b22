-- ===== src/Packet/Checksum/Fold.antt =====
-- Adding up with end-around carry is arithmetic modulo 65535, with 0 only from 0.
use l7_loadbalancer.Base.{
  ℕ, suc, ◌+◌, ◌/◌, ◌%◌, ◌^◌, ◌<◌, ◌≡◌, refl, some, arith, true, ◌==◌, inl, inr, Bool-cases, ◌⊎◌,
}
use l7_loadbalancer.Packet.Checksum.{fold}

-- `r` stands for `s` in 16 bits.
pub record Folds (s r : ℕ) : Type 0 where
  pub fits : r < 65536
  pub same : r % 65535 ≡ s % 65535
  pub only : r ≡ 0 → s ≡ 0
  pub from_zero : s ≡ 0 → r ≡ 0

carry-Folds : (s r : ℕ) → Folds (s % 2 ^ 16 + s / 2 ^ 16) r → Folds s r
carry-Folds s r f = record {
  fits = f.fits;
  same = let h = f.same in omega arith;
  only = λ e. let h = f.only e in omega arith;
  from_zero = λ e. f.from_zero (omega arith);
}

-- One test of the loop.
fold_step :
    (fuel s : ℕ)
    → ((r : ℕ) × (fold fuel (s % 2 ^ 16 + s / 2 ^ 16) ≡ some r) × Folds (s % 2 ^ 16 + s / 2 ^ 16) r)
      ⊎ (s < 65536)
    → (r : ℕ) × (fold (suc fuel) s ≡ some r) × Folds s r
unfolding fold
fold_step fuel s (inl (r, e, f)) = elim (Bool-cases (s / 2 ^ 16 == 0)) [
  | inl small ↦ (
    s,
    rw (small, fold) refl,
    record { fits = ground arith; same = refl; only = λ z. z; from_zero = λ z. z },
  )
  | inr large ↦ (r, rw (large, fold) e, carry-Folds s r f)
]
fold_step fuel s (inr h) =
    let small : (s / 2 ^ 16 == 0) ≡ true = ground arith in
    (s, rw (small, fold) refl, record { fits = h; same = refl; only = λ z. z; from_zero = λ z. z })

-- Every 32-bit sum folds in the fuel given.
pub fold_total : (s : ℕ) → s < 2 ^ 32 → (r : ℕ) × (fold 4 s ≡ some r) × Folds s r
fold_total s h =
    let s1 = s % 2 ^ 16 + s / 2 ^ 16 in
    let s2 = s1 % 2 ^ 16 + s1 / 2 ^ 16 in
    fold_step 3 s (inl (fold_step 2 s1 (inl (fold_step 1 s2 (inr (omega arith))))))

-- Two sums that agree modulo 65535 fold to the same number, if neither is 0.
pub Folds-eq :
    (s s' r r' : ℕ) → 0 < s → 0 < s' → s % 65535 ≡ s' % 65535 → Folds s r → Folds s' r' → r ≡ r'
Folds-eq s s' r r' p p' e f f' =
    let a : 0 < r = ground (arith, f.only) in
    let b : 0 < r' = ground (arith, f'.only) in omega (arith, f.fits, f'.fits, f.same, f'.same)
