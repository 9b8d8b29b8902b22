-- ===== src/Ring/Mpmc/Entries.antt =====
-- The entries that a queue for many threads holds between its calls, oldest first.
use native.Mathlib.Nat.{mod-add-mod, add-mod_right, mod-eq_of_lt}
use mathlib.Core.List.{map-append}
use mathlib.Core.Path.{ap₂}
use l7_loadbalancer.Base.{
  ℕ, zero, suc, ◌+◌, ◌-◌, ◌%◌, ◌≤◌, ◌<◌, ◌≡◌, refl, sym, ap, ◌∙◌, List, [], ◌∷◌, ◌++◌, arith, map,
  length, length-map, get_or, set, get_or-set_self, u64,
}
use l7_loadbalancer.Ring.Size.{IsSize, IsSize-le}
use l7_loadbalancer.Ring.Spsc.Window.{window, length-window, window_snoc, window-set}
use l7_loadbalancer.Ring.Mpmc.{Slot, Mpmc, numbered, slot_index, new}
use l7_loadbalancer.Ring.Mpmc.Between.{IsValid, wrapped_index, contents, count_lem}
use l7_loadbalancer.Ring.Mpmc.Slots.{blank_slot}

module _ {A : Type 0} (d : A) {size : ℕ} (v : IsSize size) where
  -- The entries from place `first` on.
  unfoldable pub entries : List (Slot A) → ℕ → ℕ → List A
  entries b first n = map (λ s. s.value) (window (blank_slot d size) size b (first % size) n)

  pub contents-entries :
      (r : Mpmc A) (first fresh : ℕ)
      → r.head ≡ u64 first
      → r.tail ≡ u64 fresh
      → first ≤ fresh
      → fresh ≤ first + size
      → contents d v r ≡ entries r.buffer first (fresh - first)
  unfolding entries
  contents-entries r first fresh h t o m =
      let index : slot_index size r.head ≡ first % size =
        ap (slot_index size) h ∙ wrapped_index first v in
      rw (index, count_lem d v r first fresh h t o m) refl

  pub contents-valid :
      (r : Mpmc A) (w : IsValid d size r)
      → contents d v r ≡ entries r.buffer w.first (w.fresh - w.first)
  contents-valid r w = contents-entries r w.first w.fresh w.head_is w.tail_is w.order w.room

  pub length-entries : (b : List (Slot A)) (first n : ℕ) → length (entries b first n) ≡ n
  unfolding entries
  length-entries b first n =
      length-map (λ s. s.value) (window (blank_slot d size) size b (first % size) n)
      ∙ length-window (blank_slot d size) size b (first % size) n

  pub entries_snoc :
      (b : List (Slot A)) (first fresh n : ℕ) (s : Slot A)
      → length b ≡ size
      → n < size
      → first + n ≡ fresh
      → entries (set b (fresh % size) s) first (suc n) ≡ entries b first n ++ s.value ∷ []
  unfolding entries
  entries_snoc b first fresh n s len h e =
      let two = v.two_le in
      let B = set b (fresh % size) s in
      let z = blank_slot d size in
      let reach : (first % size + n) % size ≡ fresh % size =
        mod-add-mod first size n ∙ ap (λ k. k % size) e in
      let kept =
        window-set z size b s (fresh % size) (first % size) n n (omega arith) (omega arith) h
          (sym reach) in
      let last : get_or B ((first % size + n) % size) z ≡ s =
        ap (λ k. get_or B k z) reach ∙ get_or-set_self b (fresh % size) s z (omega arith) in
      ap (map (λ t. t.value))
        (window_snoc z size B (first % size) n (omega arith) ∙ ap₂ (λ u y. u ++ y ∷ []) kept last)
      ∙ map-append (λ t. t.value) (window z size b (first % size) n) (s ∷ [])

  pub entries_cons :
      (b : List (Slot A)) (first n : ℕ) (s : Slot A)
      → n < size
      → entries b first (suc n)
        ≡ (get_or b (first % size) (blank_slot d size)).value
          ∷ entries (set b (first % size) s) (first + 1) n
  unfolding entries
  entries_cons b first n s h =
      let two = v.two_le in
      let z = blank_slot d size in
      let start : (first % size + 1) % size ≡ (first + 1) % size = mod-add-mod first size 1 in
      let round : first % size ≡ ((first + 1) % size + (size - 1)) % size = sym (
        mod-add-mod (first + 1) size (size - 1)
        ∙ ap (λ k. k % size) (let e : first + 1 + (size - 1) ≡ first + size = omega arith in e)
        ∙ add-mod_right first size) in
      let kept =
        window-set z size b s (first % size) ((first + 1) % size) n (size - 1) (omega arith)
          (omega arith) (omega arith) round in
      rw (start, kept) refl

  pub numbered_slot :
      (i n k : ℕ) (blank z : A)
      → k < n
      → get_or (numbered size i n blank) k (blank_slot z size)
        ≡ record { sequence = i + k; value = blank }
  unfolding numbered
  numbered_slot i zero k blank z h = absurd (omega arith)
  numbered_slot i (suc n) zero blank z h =
      ap (λ q. record { sequence = q; value = blank }) (let e : i ≡ i + 0 = omega arith in e)
  numbered_slot i (suc n) (suc k) blank z h =
      numbered_slot (i + 1) n k blank z (omega arith)
      ∙ ap (λ q. record { sequence = q; value = blank })
          (let e : i + 1 + k ≡ i + suc k = omega arith in e)

  length-numbered : (i n : ℕ) (blank : A) → length (numbered size i n blank) ≡ n
  unfolding numbered
  length-numbered i zero blank = refl
  length-numbered i (suc n) blank = ap suc (length-numbered (i + 1) n blank)

  -- The constructor leaves a valid queue.
  pub new-IsValid : (blank : A) → IsValid d size (new size blank)
  unfolding new
  new-IsValid blank = record {
    first = 0;
    fresh = 0;
    head_is = refl;
    tail_is = refl;
    order = omega arith;
    room = omega arith;
    storage = length-numbered 0 size blank;
    held = λ p lo hi. absurd (omega arith);
    free = λ p lo hi.
        let small : p < size = omega arith in
        let low : p % size ≡ p = mod-eq_of_lt small in
        let fits = v.fits in
        ap (λ k. (get_or (numbered size 0 size blank) k (blank_slot d size)).sequence) low
        ∙ ap (λ s. s.sequence) (numbered_slot 0 size p blank d small)
        ∙ (let e : 0 + p ≡ u64 p = omega (arith, IsSize-le v) in e);
  }
