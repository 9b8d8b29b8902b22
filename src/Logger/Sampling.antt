-- ===== src/Logger/Sampling.antt =====
-- How often LOG_EVERY_N logs, and what a line names as its file.
use native.Mathlib.Nat.{add-mul, one-mul}
use l7_loadbalancer.Base.{
  ℕ, zero, suc, ◌+◌, ◌*◌, ◌<◌, ◌≡◌, refl, ap, ◌∙◌, true, false, List, [], ◌∷◌, ◌++◌, arith, All,
  leb, Bool-cases, inl, inr, if◌then◌else◌,
}
use l7_loadbalancer.Logger.{is_separator, file_name_from, file_name, every_n}

-- The counter and the lines logged after so many uses of the macro.
unfoldable pub uses : ℕ → ℕ → ℕ × ℕ
uses n zero = (0, 0)
uses n (suc k) =
    let (count, lines) = uses n k in
    let (count', logs) = every_n n count in (count', if logs then lines + 1 else lines)

-- With `n` above 0, LOG_EVERY_N logs once in every `n` uses: after `k` uses it has logged `k / n` lines, and its
-- counter holds the rest, which is below `n`.
pub uses_lem : (n k : ℕ) → 0 < n → ((uses n k).0 < n) × ((uses n k).1 * n + (uses n k).0 ≡ k)
unfolding uses every_n
uses_lem n zero h = (h, omega arith)
uses_lem n (suc k) h =
    let (below, total) = uses_lem n k h in
    let lines = (uses n k).1 in
    let more : (lines + 1) * n ≡ lines * n + n =
      add-mul lines 1 n ∙ ap (λ x. lines * n + x) (one-mul n) in
    elim (Bool-cases (leb n ((uses n k).0 + 1))) [
      | inl due ↦
          let full : (uses n k).0 + 1 ≡ n = ground arith in rw (due, every_n) (h, omega arith)
      | inr not_due ↦ rw (not_due, every_n) (ground arith, omega arith)
    ]

name_after :
    (dir name base : List ℕ) (c : ℕ)
    → is_separator c ≡ true
    → All (λ b. is_separator b ≡ false) base
    → file_name_from name (dir ++ c ∷ base) ≡ base
unfolding file_name_from
name_after [] name base c sep plain = rw (sep, file_name_from) (rest base base plain)
  where
    rest :
        (all base : List ℕ) → All (λ b. is_separator b ≡ false) base → file_name_from all base ≡ all
    rest all [] h = refl
    rest all (b ∷ base) (e, h) = rw (e, file_name_from) (rest all base h)
name_after (d ∷ dir) name base c sep plain = name_after dir _ base c sep plain

-- The file that a line names is what follows the last separator of the path.
pub file_name_lem :
    (dir base : List ℕ) (c : ℕ)
    → is_separator c ≡ true
    → All (λ b. is_separator b ≡ false) base
    → file_name (dir ++ c ∷ base) ≡ base
unfolding file_name
file_name_lem dir base c sep plain = name_after dir (dir ++ c ∷ base) base c sep plain
