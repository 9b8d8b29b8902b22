-- ===== src/Ring/Mpmc/Frame.antt =====
-- One thread moves and the others keep what they rely on.
use l7_loadbalancer.Base.{
  ℕ, ◌≤◌, ◌<◌, ◌≡◌, refl, sym, ap, ◌∙◌, ◌≢◌, ◌⊎◌, subst, List, Option, none, some, arith, get_elem?,
  ◌==◌, Bool-cases, inl, inr,
}
use mathlib.Core.Path.{subst₂}
use l7_loadbalancer.Ring.Mpmc.{Mpmc}
use l7_loadbalancer.Ring.Mpmc.Threads.{
  Thread, idle, pushing, push_loaded, push_seen, push_won, push_written, popping, pop_loaded,
  pop_seen, pop_won, pop_taken, assign,
}
use l7_loadbalancer.Ring.Mpmc.Slots.{slot_at, Shared, Local}

-- The place that a thread has won and not yet left, for a `push` and for a `pop`.
abbrev pub push_place : {A : Type 0} → Thread A → Option ℕ
push_place (push_won x pos) = some pos
push_place (push_written x pos) = some pos
push_place _ = none

abbrev pub pop_place : {A : Type 0} → Thread A → Option ℕ
pop_place (pop_won pos) = some pos
pop_place (pop_taken pos y) = some pos
pop_place _ = none

-- No place is won twice.
abbrev pub Apart : {A : Type 0} → Thread A → Thread A → Type 0
Apart t u =
    ((pos : ℕ) → push_place t ≡ some pos → push_place u ≢ some pos)
    × ((pos : ℕ) → pop_place t ≡ some pos → pop_place u ≢ some pos)

pub Apart-sym : {A : Type 0} (t u : Thread A) → Apart t u → Apart u t
Apart-sym t u (a, b) = ((λ pos e q. a pos q e), (λ pos e q. b pos q e))

module _ {A : Type 0} (d : A) (size : ℕ) where
  -- A change of the queue that takes no item and no sequence number back.
  pub record Grows (r r' : Mpmc A) (log log' : List A) : Type 0 where
    pub tail_le : r.tail ≤ r'.tail
    pub head_le : r.head ≤ r'.head
    pub log_old : (pos : ℕ) → pos < r.tail → get_elem? log' pos ≡ get_elem? log pos
    pub sequence_le : (pos : ℕ) → (slot_at d size r pos).sequence ≤ (slot_at d size r' pos).sequence

  -- The slot of a thread's place is left alone.
  abbrev pub Keeps : Mpmc A → Mpmc A → Thread A → Type 0
  Keeps r r' t =
      ((pos : ℕ) → push_place t ≡ some pos → slot_at d size r' pos ≡ slot_at d size r pos)
      × ((pos : ℕ) → pop_place t ≡ some pos → slot_at d size r' pos ≡ slot_at d size r pos)

  pub Local-Grows :
      (r r' : Mpmc A) (log log' : List A) (t : Thread A)
      → r.head ≤ r.tail
      → Grows r r' log log'
      → Keeps r r' t
      → Local d size r log t
      → Local d size r' log' t
  Local-Grows r r' log log' idle o g k h = tt
  Local-Grows r r' log log' (pushing x) o g k h = tt
  Local-Grows r r' log log' (push_loaded x pos) o g k h = omega (arith, g.tail_le)
  Local-Grows r r' log log' (push_seen x pos seq) o g k h =
      (omega (arith, g.tail_le), omega (arith, g.sequence_le pos))
  Local-Grows r r' log log' (push_won x pos) o g k h =
      (omega (arith, g.tail_le), ap (λ s. s.sequence) (k.0 pos refl) ∙ h.1, g.log_old pos h.0 ∙ h.2)
  Local-Grows r r' log log' (push_written x pos) o g k h = (
    omega (arith, g.tail_le),
    ap (λ s. s.sequence) (k.0 pos refl) ∙ h.1,
    g.log_old pos h.0 ∙ h.2,
    ap (λ s. s.value) (k.0 pos refl) ∙ h.3,
  )
  Local-Grows r r' log log' popping o g k h = tt
  Local-Grows r r' log log' (pop_loaded pos) o g k h = omega (arith, g.head_le)
  Local-Grows r r' log log' (pop_seen pos seq) o g k h =
      (omega (arith, g.head_le), omega (arith, g.sequence_le pos))
  Local-Grows r r' log log' (pop_won pos) o g k h = (
    omega (arith, g.head_le),
    ap (λ s. s.sequence) (k.1 pos refl) ∙ h.1,
    g.log_old pos (omega arith) ∙ h.2 ∙ ap (λ s. some s.value) (sym (k.1 pos refl)),
  )
  Local-Grows r r' log log' (pop_taken pos y) o g k h = (
    omega (arith, g.head_le),
    ap (λ s. s.sequence) (k.1 pos refl) ∙ h.1,
    g.log_old pos (omega arith) ∙ h.2,
  )

  pub record Inv (r : Mpmc A) (th : ℕ → Thread A) (log : List A) : Type 0 where
    pub shared : Shared d size r log
    pub local : (i : ℕ) → Local d size r log (th i)
    pub apart : (i j : ℕ) → i ≢ j → Apart (th i) (th j)

  -- A split on whether a thread is the one that moved.
  moved_cases :
      (th : ℕ → Thread A) (i j : ℕ) (t : Thread A)
      → ((i ≡ j) × (assign th i t j ≡ t)) ⊎ ((i ≢ j) × (assign th i t j ≡ th j))
  moved_cases th i j t = elim (Bool-cases (i == j)) [
    | inl e ↦ inl (ground arith, rw e refl)
    | inr e ↦ inr ((λ q. ground arith), rw e refl)
  ]

  -- Thread `i` moves to `t`; the queue grows, and the places of the others are left alone.
  pub Inv-assign :
      (r r' : Mpmc A) (th : ℕ → Thread A) (log log' : List A) (i : ℕ) (t : Thread A)
      → Inv r th log
      → Shared d size r' log'
      → Grows r r' log log'
      → ((j : ℕ) → i ≢ j → Keeps r r' (th j))
      → Local d size r' log' t
      → ((j : ℕ) → i ≢ j → Apart t (th j))
      → Inv r' (assign th i t) log'
  Inv-assign r r' th log log' i t inv shared grows keeps here apart = record {
    shared = shared;
    local = λ j. elim (moved_cases th i j t) [
      | inl (_, e) ↦ subst (Local d size r' log') (sym e) here
      | inr (ne, e) ↦
          subst (Local d size r' log') (sym e)
            (Local-Grows r r' log log' (th j) inv.shared.order grows (keeps j ne) (inv.local j))
    ];
    apart = λ j k ne. elim (moved_cases th i j t) [
      | inl (ej, e) ↦ elim (moved_cases th i k t) [
        | inl (ek, _) ↦ absurd (ne (sym ej ∙ ek))
        | inr (nk, f) ↦ subst₂ Apart (sym e) (sym f) (apart k nk)
      ]
      | inr (nj, e) ↦ elim (moved_cases th i k t) [
        | inl (_, f) ↦ subst₂ Apart (sym e) (sym f) (Apart-sym t (th j) (apart j nj))
        | inr (_, f) ↦ subst₂ Apart (sym e) (sym f) (inv.apart j k ne)
      ]
    ];
  }
