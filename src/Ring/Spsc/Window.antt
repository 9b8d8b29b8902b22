-- ===== src/Ring/Spsc/Window.antt =====
-- The entries that a ring holds: a window of its storage that goes round at the end.
use native.Mathlib.Nat.{mod-eq_of_lt, add-zero}
use l7_loadbalancer.Base.{
  ℕ, zero, suc, ◌+◌, ◌%◌, ◌≤◌, ◌<◌, ◌≡◌, refl, ap, ◌∙◌, List, [], ◌∷◌, ◌++◌, arith, length, get_or,
  set, get_or-set_ne,
}
use l7_loadbalancer.Ring.Size.{step_ne, step_shift}

module _ {ℓ} {A : Type ℓ} (d : A) (size : ℕ) where
  -- The `n` entries from index `h` on.
  abbrev pub window : List A → ℕ → ℕ → List A
  window b h zero = []
  window b h (suc n) = get_or b h d ∷ window b ((h + 1) % size) n

  pub length-window : (b : List A) (h n : ℕ) → length (window b h n) ≡ n
  length-window b h zero = refl
  length-window b h (suc n) = ap suc (length-window b ((h + 1) % size) n)

  -- One entry more at the end.
  pub window_snoc :
      (b : List A) (h n : ℕ)
      → h < size
      → window b h (suc n) ≡ window b h n ++ get_or b ((h + n) % size) d ∷ []
  window_snoc b h zero hh = rw (add-zero, mod-eq_of_lt hh) refl
  window_snoc b h (suc n) hh =
      rw (step_shift size h n)
        (ap (◌∷◌ (get_or b h d)) (window_snoc b ((h + 1) % size) n (omega arith)))

  -- A write `m` places on does not touch the first `n` entries, `n ≤ m`.
  pub window-set :
      (b : List A) (x : A) (j h n m : ℕ)
      → h < size
      → n ≤ m
      → m < size
      → j ≡ (h + m) % size
      → window (set b j x) h n ≡ window b h n
  window-set b x j h zero m hh hn hm e = refl
  window-set b x j h (suc n) zero hh hn hm e = absurd (omega arith)
  window-set b x j h (suc n) (suc m) hh hn hm e =
      rw
        (
          get_or-set_ne b {i = j} {j = h} x d (rw e (step_ne hh (omega arith) hm)),
          window-set b x j ((h + 1) % size) n m (omega arith) (omega arith) (omega arith)
              (e ∙ step_shift size h m),
        )
        refl
