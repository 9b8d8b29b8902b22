-- ===== src/Ring/Mpmc/Moves.antt =====
-- The three kinds of moves of a thread: one that leaves the queue alone, one that changes the slot of its
-- place, and one that wins a place.
use l7_loadbalancer.Base.{
  ℕ, ◌+◌, ◌%◌, ◌≤◌, ◌≡◌, refl, sym, ap, ◌∙◌, ◌≢◌, subst, List, none, some, arith, get_or, length,
  modify, length-modify, get_or-modify_self, get_or-modify_ne, ◌==◌, Bool-cases, inl, inr,
}
use l7_loadbalancer.Ring.Size.{IsSize, mask-eq-mod}
use l7_loadbalancer.Ring.Mpmc.{Slot, Mpmc, slot_index}
use l7_loadbalancer.Ring.Mpmc.Threads.{Thread, push_won, push_written, pop_won, pop_taken, assign}
use l7_loadbalancer.Ring.Mpmc.Slots.{blank_slot, slot_at, SlotOk, Local, next_slot}
use l7_loadbalancer.Ring.Mpmc.Frame.{push_place, pop_place, Apart, Grows, Inv, Inv-assign}

pub slot_index-eq : {size : ℕ} (pos : ℕ) → IsSize size → slot_index size pos ≡ pos % size
unfolding slot_index
slot_index-eq pos v = mask-eq-mod pos v

module _ {A : Type 0} (d : A) (size : ℕ) where
  Grows-refl : (r : Mpmc A) (log : List A) → Grows d size r r log log
  Grows-refl r log = record {
    tail_le = omega arith;
    head_le = omega arith;
    log_old = λ pos h. refl;
    sequence_le = λ pos. omega arith;
  }

  -- A thread that holds no place afterwards.
  pub Inv-stay :
      (r : Mpmc A) (th : ℕ → Thread A) (log : List A) (i : ℕ) (t : Thread A)
      → Inv d size r th log
      → Local d size r log t
      → push_place t ≡ none
      → pop_place t ≡ none
      → Inv d size r (assign th i t) log
  Inv-stay r th log i t inv here a b =
      Inv-assign d size r r th log log i t inv inv.shared (Grows-refl r log)
        (λ j ne. ((λ pos e. refl), (λ pos e. refl))) here (λ j ne. ((λ pos e. cc), (λ pos e. cc)))

  pub place_push :
      (r : Mpmc A) (log : List A) (t : Thread A) (pos : ℕ)
      → Local d size r log t
      → push_place t ≡ some pos
      → (slot_at d size r pos).sequence ≡ pos
  place_push r log (push_won x p) pos h e = cc
  place_push r log (push_written x p) pos h e = cc
  place_push r log _ pos h e = cc

  pub place_pop :
      (r : Mpmc A) (log : List A) (t : Thread A) (pos : ℕ)
      → Local d size r log t
      → pop_place t ≡ some pos
      → (slot_at d size r pos).sequence ≡ pos + 1
  place_pop r log (pop_won p) pos h e = cc
  place_pop r log (pop_taken p y) pos h e = cc
  place_pop r log _ pos h e = cc

  -- The places of thread `t` stand in other slots than place `pos`.
  abbrev pub Elsewhere : ℕ → Thread A → Type 0
  Elsewhere pos t =
      ((p : ℕ) → push_place t ≡ some p → p % size ≢ pos % size)
      × ((p : ℕ) → pop_place t ≡ some p → p % size ≢ pos % size)

  same_sequence :
      (r : Mpmc A) (p pos : ℕ)
      → p % size ≡ pos % size
      → (slot_at d size r p).sequence ≡ (slot_at d size r pos).sequence
  same_sequence r p pos e = ap (λ i. (get_or r.buffer i (blank_slot d size)).sequence) e

  pub push_Elsewhere :
      (r : Mpmc A) (log : List A) (pos : ℕ) (u : Thread A)
      → 2 ≤ size
      → (slot_at d size r pos).sequence ≡ pos
      → Local d size r log u
      → push_place u ≢ some pos
      → Elsewhere pos u
  push_Elsewhere r log pos u two q h ne = (
    (λ p e same.
        ne
          (e ∙ ap (λ k. some k) (sym (place_push r log u p h e) ∙ same_sequence r p pos same ∙ q))),
    (λ p e same.
        let next : p + 1 ≡ pos = sym (place_pop r log u p h e) ∙ same_sequence r p pos same ∙ q in
        next_slot two p (ap (λ k. k % size) next ∙ sym same)),
  )

  pub pop_Elsewhere :
      (r : Mpmc A) (log : List A) (pos : ℕ) (u : Thread A)
      → 2 ≤ size
      → (slot_at d size r pos).sequence ≡ pos + 1
      → Local d size r log u
      → pop_place u ≢ some pos
      → Elsewhere pos u
  pop_Elsewhere r log pos u two q h ne = (
    (λ p e same.
        let next : p ≡ pos + 1 = sym (place_push r log u p h e) ∙ same_sequence r p pos same ∙ q in
        next_slot two pos (ap (λ k. k % size) (sym next) ∙ same)),
    (λ p e same.
        let next : p + 1 ≡ pos + 1 =
          sym (place_pop r log u p h e) ∙ same_sequence r p pos same ∙ q in
        ne (e ∙ ap (λ k. some k) (omega arith))),
  )

  -- The queue with the slot of a place changed.
  abbrev pub with_slot : Mpmc A → ℕ → (Slot A → Slot A) → Mpmc A
  with_slot r pos f = record r { buffer = modify r.buffer (pos % size) f }

  slot_at-with_slot :
      (r : Mpmc A) (pos p : ℕ) (f : Slot A → Slot A)
      → p % size ≢ pos % size
      → slot_at d size (with_slot r pos f) p ≡ slot_at d size r p
  slot_at-with_slot r pos p f ne =
      get_or-modify_ne r.buffer (pos % size) (p % size) f (blank_slot d size) (λ e. ne (sym e))

  pub slot_at-with_slot_self :
      (r : Mpmc A) (pos p : ℕ) (f : Slot A → Slot A)
      → length r.buffer ≡ size
      → 2 ≤ size
      → p % size ≡ pos % size
      → slot_at d size (with_slot r pos f) p ≡ f (slot_at d size r pos)
  slot_at-with_slot_self r pos p f len two e =
      ap (λ i. get_or (modify r.buffer (pos % size) f) i (blank_slot d size)) e
      ∙ get_or-modify_self r.buffer (pos % size) f (blank_slot d size) (omega arith)

  pub Inv-slot :
      (r : Mpmc A) (th : ℕ → Thread A) (log : List A) (i pos : ℕ) (f : Slot A → Slot A)
      (t : Thread A)
      → 2 ≤ size
      → Inv d size r th log
      → (slot_at d size r pos).sequence ≤ (f (slot_at d size r pos)).sequence
      → SlotOk d size r log (pos % size) (f (slot_at d size r pos))
      → ((j : ℕ) → i ≢ j → Elsewhere pos (th j))
      → Local d size (with_slot r pos f) log t
      → ((j : ℕ) → i ≢ j → Apart t (th j))
      → Inv d size (with_slot r pos f) (assign th i t) log
  Inv-slot r th log i pos f t two inv up ok elsewhere here apart =
      let w = inv.shared in
      Inv-assign d size r (with_slot r pos f) th log log i t inv
        (record {
          order = w.order;
          room = w.room;
          counted = w.counted;
          fits = w.fits;
          storage = length-modify r.buffer (pos % size) f ∙ w.storage;
          slots = λ k h. elim (Bool-cases (pos % size == k)) [
            | inl e ↦
                let same : pos % size ≡ k = ground arith in
                subst
                  (λ n.
                    SlotOk d size r log n
                      (get_or (modify r.buffer (pos % size) f) n (blank_slot d size)))
                  same
                  (subst (SlotOk d size r log (pos % size))
                    (sym (slot_at-with_slot_self r pos pos f w.storage two refl)) ok)
            | inr e ↦
                subst (SlotOk d size r log k)
                  (sym (
                    get_or-modify_ne r.buffer (pos % size) k f (blank_slot d size)
                      (λ q. ground arith)))
                  (w.slots k h)
          ];
        })
        (record {
          tail_le = omega arith;
          head_le = omega arith;
          log_old = λ p h. refl;
          sequence_le = λ p. elim (Bool-cases (p % size == pos % size)) [
            | inl e ↦
                let same : p % size ≡ pos % size = ground arith in
                omega (
                  arith,
                  ap (λ s. s.sequence) (slot_at-with_slot_self r pos p f w.storage two same),
                  same_sequence r p pos same,
                )
            | inr e ↦
                omega
                  (arith, ap (λ s. s.sequence) (slot_at-with_slot r pos p f (λ q. ground arith)))
          ];
        })
        (λ j ne. (
          (λ p e. slot_at-with_slot r pos p f ((elsewhere j ne).0 p e)),
          (λ p e. slot_at-with_slot r pos p f ((elsewhere j ne).1 p e)),
        ))
        here apart
