-- ===== src/Text/Numbers.antt =====
-- Reading back what was printed.
use l7_loadbalancer.Base.{
  ℕ, zero, suc, ◌+◌, ◌*◌, ◌/◌, ◌%◌, ◌^◌, ◌≤◌, ◌<◌, ◌≡◌, refl, sym, ◌∙◌, ap, List, [], ◌∷◌, ◌++◌,
  Option, none, some, arith, ltb, u32, All, Bool-cases, inl, inr,
}
use mathlib.Core.List.{append_assoc}
use l7_loadbalancer.Text.{digits_from, to_string, skip_space, decimal_value, scan_digits, scan_u}

decimal_digit : (d : ℕ) → d < 10 → decimal_value (b'0' + d) ≡ some d
decimal_digit d h = ground arith

scan_step :
    (acc d : ℕ) (s : List ℕ)
    → d < 10
    → scan_digits decimal_value 10 acc ((b'0' + d) ∷ s)
      ≡ scan_digits decimal_value 10 (acc * 10 + d) s
unfolding scan_digits
scan_step acc d s h = rw (decimal_digit d h, scan_digits) refl

-- The scanner rebuilds a printed number digit by digit, whatever follows.
scan-digits_from :
    (f n : ℕ) (rest : List ℕ)
    → n ≤ f
    → scan_digits decimal_value 10 0 (digits_from f n ++ rest) ≡ scan_digits decimal_value 10 n rest
unfolding digits_from
scan-digits_from zero n rest h =
    let e : n ≡ 0 = omega arith in rw e (scan_step 0 0 rest (omega arith))
scan-digits_from (suc f) n rest h = elim (Bool-cases (ltb n 10)) [
  | inl small ↦ rw small (
      scan_step 0 n rest (ground arith)
      ∙ ap (λ k. scan_digits decimal_value 10 k rest) (omega arith))
  | inr large ↦
      rw (large, append_assoc (digits_from f (n / 10)) ((b'0' + n % 10) ∷ []) rest)
        (scan-digits_from f (n / 10) ((b'0' + n % 10) ∷ rest) (ground arith)
          ∙ scan_step (n / 10) (n % 10) rest (omega arith)
          ∙ ap (λ k. scan_digits decimal_value 10 k rest) (omega arith))
]

-- A printed number begins with a digit.
digits_from-head :
    (f n : ℕ) (rest : List ℕ)
    → n ≤ f
    → (d : ℕ) × (s : List ℕ) × (d < 10) × (digits_from f n ++ rest ≡ (b'0' + d) ∷ s)
unfolding digits_from
digits_from-head zero n rest h = (n, rest, omega arith, refl)
digits_from-head (suc f) n rest h = elim (Bool-cases (ltb n 10)) [
  | inl small ↦ (n, rest, ground arith, rw small refl)
  | inr large ↦
      let (d, s, hd, e) = digits_from-head f (n / 10) ((b'0' + n % 10) ∷ rest) (ground arith) in
      (d, s, hd, rw (large, append_assoc (digits_from f (n / 10)) ((b'0' + n % 10) ∷ []) rest) e)
]

-- Where the digits of a number end.
abbrev pub Ends : (ℕ → Option ℕ) → List ℕ → Type 0
Ends value [] = Unit
Ends value (c ∷ s) = value c ≡ none

pub scan_digits_end :
    (value : ℕ → Option ℕ) (base n : ℕ) (rest : List ℕ)
    → Ends value rest
    → scan_digits value base n rest ≡ (n, rest)
unfolding scan_digits
scan_digits_end value base n [] h = refl
scan_digits_end value base n (c ∷ s) h = rw (h, scan_digits) refl

scan_u_digit :
    (d : ℕ) (s : List ℕ)
    → d < 10
    → scan_u ((b'0' + d) ∷ s)
      ≡ some (
        u32 (scan_digits decimal_value 10 0 ((b'0' + d) ∷ s)).0,
        (scan_digits decimal_value 10 0 ((b'0' + d) ∷ s)).1,
      )
unfolding scan_u skip_space
scan_u_digit d s h = rw (scan_step 0 d s h) (ground (arith, decimal_digit d h))

-- `%u` reads back what `%u` printed, up to the first byte that is no digit.
pub scan_u-to_string :
    (n : ℕ) (rest : List ℕ)
    → n < 2 ^ 32
    → Ends decimal_value rest
    → scan_u (to_string n ++ rest) ≡ some (n, rest)
unfolding to_string
scan_u-to_string n rest h ends =
    let (d, s, hd, e) = digits_from-head n n rest (omega arith) in
    let back : scan_digits decimal_value 10 0 ((b'0' + d) ∷ s) ≡ (n, rest) =
      ap (scan_digits decimal_value 10 0) (sym e)
      ∙ scan-digits_from n n rest (omega arith)
      ∙ scan_digits_end decimal_value 10 n rest ends in
    rw (e, scan_u_digit d s hd, back) (ap (λ k. some (k, rest)) (omega arith))

-- A printed number is a digit and the digits that make up the rest of its value.
pub to_string-digits :
    (n : ℕ) (rest : List ℕ)
    → Ends decimal_value rest
    → (d : ℕ) × (s : List ℕ) × (d < 10)
      × (to_string n ++ rest ≡ (b'0' + d) ∷ s)
      × (scan_digits decimal_value 10 d s ≡ (n, rest))
unfolding to_string
to_string-digits n rest ends =
    let (d, s, hd, e) = digits_from-head n n rest (omega arith) in
    (
      d,
      s,
      hd,
      e,
      ap (λ k. scan_digits decimal_value 10 k s) (let z : d ≡ 0 * 10 + d = omega arith in z)
          ∙ sym (scan_step 0 d s hd)
          ∙ ap (scan_digits decimal_value 10 0) (sym e)
          ∙ scan-digits_from n n rest (omega arith)
          ∙ scan_digits_end decimal_value 10 n rest ends,
    )

-- The bytes of a printed number are digits.
pub to_string-All :
    (P : ℕ → Type 0) (n : ℕ) → ((d : ℕ) → d < 10 → P (b'0' + d)) → All P (to_string n)
unfolding to_string digits_from
to_string-All P n digit = go n n (omega arith)
  where
    snoc : (xs : List ℕ) (x : ℕ) → All P xs → P x → All P (xs ++ x ∷ [])
    snoc [] x h q = (q, tt)
    snoc (y ∷ xs) x h q = (h.0, snoc xs x h.1 q)

    go : (f k : ℕ) → k ≤ f → All P (digits_from f k)
    go zero k h = (digit k (omega arith), tt)
    go (suc f) k h = elim (Bool-cases (ltb k 10)) [
      | inl small ↦ rw small (digit k (ground arith), tt)
      | inr large ↦ rw large (
          snoc (digits_from f (k / 10)) (b'0' + k % 10) (go f (k / 10) (ground arith))
            (digit (k % 10) (omega arith)))
    ]
