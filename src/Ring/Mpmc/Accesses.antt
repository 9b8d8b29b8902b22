-- ===== src/Ring/Mpmc/Accesses.antt =====
-- A thread accesses the slot of the place that it has won.
use l7_loadbalancer.Base.{
  ℕ, ◌+◌, ◌%◌, ◌≡◌, refl, sym, ap, ◌∙◌, ◌≢◌, subst, List, some, arith, get_elem?,
  get_elem?-eq-get_or, inl, inr, u64, modify,
}
use l7_loadbalancer.Ring.Size.{IsSize}
use l7_loadbalancer.Ring.Mpmc.{Slot, Mpmc, slot_index, write_data, store_sequence}
use l7_loadbalancer.Ring.Mpmc.Threads.{
  Thread, idle, push_won, push_written, pop_won, pop_taken, assign,
}
use l7_loadbalancer.Ring.Mpmc.Slots.{blank_slot, slot_at, Shared, Local, round_slot}
use l7_loadbalancer.Ring.Mpmc.Frame.{Apart, Inv}
use l7_loadbalancer.Ring.Mpmc.Moves.{
  slot_index-eq, push_Elsewhere, pop_Elsewhere, with_slot, slot_at-with_slot_self, Inv-slot,
}

module _ {A : Type 0} (d : A) {size : ℕ} (v : IsSize size) where
  -- What the slot index of a place finds there.
  pub found_slot :
      (r : Mpmc A) (log : List A) (pos : ℕ) (s : Slot A)
      → Shared d size r log
      → get_elem? r.buffer (slot_index size pos) ≡ some s
      → slot_at d size r pos ≡ s
  found_slot r log pos s w e =
      let two = v.two_le in
      let there =
        get_elem?-eq-get_or r.buffer (pos % size) (blank_slot d size) (omega (arith, w.storage)) in
      let e' : get_elem? r.buffer (pos % size) ≡ some s =
        ap (get_elem? r.buffer) (sym (slot_index-eq pos v)) ∙ e in
      cc

  -- The two accesses to a slot, by its remainder.
  write_data-eq :
      (r : Mpmc A) (pos : ℕ) (x : A)
      → write_data size r pos x ≡ with_slot d size r pos (λ s. record s { value = x })
  unfolding write_data
  write_data-eq r pos x =
      ap (λ k. record r { buffer = modify r.buffer k (λ s. record s { value = x }) })
        (slot_index-eq pos v)

  store_sequence-eq :
      (r : Mpmc A) (pos seq : ℕ)
      → store_sequence size r pos seq ≡ with_slot d size r pos (λ s. record s { sequence = seq })
  unfolding store_sequence
  store_sequence-eq r pos seq =
      ap (λ k. record r { buffer = modify r.buffer k (λ s. record s { sequence = seq }) })
        (slot_index-eq pos v)

  pub at_thread :
      (r : Mpmc A) (th : ℕ → Thread A) (log : List A) (i : ℕ) (t : Thread A)
      → Inv d size r th log
      → th i ≡ t
      → Local d size r log t
  at_thread r th log i t inv e = subst (Local d size r log) e (inv.local i)

  pub others :
      (r : Mpmc A) (th : ℕ → Thread A) (log : List A) (i : ℕ) (t : Thread A)
      → Inv d size r th log
      → th i ≡ t
      → (j : ℕ) → i ≢ j
      → Apart t (th j)
  others r th log i t inv e j ne = subst (λ u. Apart u (th j)) e (inv.apart i j ne)

  pub Inv-write :
      (r : Mpmc A) (th : ℕ → Thread A) (log : List A) (i pos : ℕ) (x : A)
      → Inv d size r th log
      → th i ≡ push_won x pos
      → Inv d size (write_data size r pos x) (assign th i (push_written x pos)) log
  Inv-write r th log i pos x inv e =
      let w = inv.shared in
      let two = v.two_le in
      let f : Slot A → Slot A = λ s. record s { value = x } in
      let (lt, q, logged) = at_thread r th log i (push_won x pos) inv e in
      let apart = others r th log i (push_won x pos) inv e in
      let self = slot_at-with_slot_self d size r pos pos f w.storage two refl in
      subst (λ r'. Inv d size r' (assign th i (push_written x pos)) log)
        (sym (write_data-eq r pos x))
        (Inv-slot d size r th log i pos f (push_written x pos) two inv (omega arith)
          (pos, refl, inl (q, omega (arith, w.room)))
          (λ j ne.
            push_Elsewhere d size r log pos (th j) two q (inv.local j) ((apart j ne).0 pos refl))
          (lt, ap (λ s. s.sequence) self ∙ q, logged, ap (λ s. s.value) self) apart)

  pub Inv-publish :
      (r : Mpmc A) (th : ℕ → Thread A) (log : List A) (i pos : ℕ) (x : A)
      → Inv d size r th log
      → th i ≡ push_written x pos
      → Inv d size (store_sequence size r pos (u64 (pos + 1))) (assign th i idle) log
  Inv-publish r th log i pos x inv e =
      let w = inv.shared in
      let two = v.two_le in
      let f : Slot A → Slot A = λ s. record s { sequence = u64 (pos + 1) } in
      let (lt, q, logged, there) = at_thread r th log i (push_written x pos) inv e in
      let up : u64 (pos + 1) ≡ pos + 1 = omega (arith, w.counted, w.fits) in
      let apart = others r th log i (push_written x pos) inv e in
      subst (λ r'. Inv d size r' (assign th i idle) log)
        (sym (store_sequence-eq r pos (u64 (pos + 1))))
        (Inv-slot d size r th log i pos f idle two inv (omega arith)
          (pos, refl, inr (up, lt, λ o. logged ∙ ap (λ y. some y) (sym there)))
          (λ j ne.
            push_Elsewhere d size r log pos (th j) two q (inv.local j) ((apart j ne).0 pos refl))
          tt (λ j ne. ((λ p a. cc), (λ p a. cc))))

  pub Inv-take :
      (r : Mpmc A) (th : ℕ → Thread A) (log : List A) (i pos : ℕ) (y z : A)
      → Inv d size r th log
      → th i ≡ pop_won pos
      → (slot_at d size r pos).value ≡ y
      → Inv d size (write_data size r pos z) (assign th i (pop_taken pos y)) log
  Inv-take r th log i pos y z inv e here =
      let w = inv.shared in
      let two = v.two_le in
      let f : Slot A → Slot A = λ s. record s { value = z } in
      let (lt, q, logged) = at_thread r th log i (pop_won pos) inv e in
      let apart = others r th log i (pop_won pos) inv e in
      let self = slot_at-with_slot_self d size r pos pos f w.storage two refl in
      subst (λ r'. Inv d size r' (assign th i (pop_taken pos y)) log) (sym (write_data-eq r pos z))
        (Inv-slot d size r th log i pos f (pop_taken pos y) two inv (omega arith)
          (pos, refl, inr (q, omega (arith, w.order), λ o. absurd (omega arith)))
          (λ j ne.
            pop_Elsewhere d size r log pos (th j) two q (inv.local j) ((apart j ne).1 pos refl))
          (lt, ap (λ s. s.sequence) self ∙ q, logged ∙ ap (λ x. some x) here) apart)

  pub Inv-release :
      (r : Mpmc A) (th : ℕ → Thread A) (log : List A) (i pos : ℕ) (y : A)
      → Inv d size r th log
      → th i ≡ pop_taken pos y
      → Inv d size (store_sequence size r pos (u64 (pos + size))) (assign th i idle) log
  Inv-release r th log i pos y inv e =
      let w = inv.shared in
      let two = v.two_le in
      let f : Slot A → Slot A = λ s. record s { sequence = u64 (pos + size) } in
      let (lt, q, logged) = at_thread r th log i (pop_taken pos y) inv e in
      let up : u64 (pos + size) ≡ pos + size = omega (arith, w.order, w.counted, w.fits) in
      let apart = others r th log i (pop_taken pos y) inv e in
      subst (λ r'. Inv d size r' (assign th i idle) log)
        (sym (store_sequence-eq r pos (u64 (pos + size))))
        (Inv-slot d size r th log i pos f idle two inv (omega arith)
          (pos + size, round_slot size pos, inl (up, omega arith))
          (λ j ne.
            pop_Elsewhere d size r log pos (th j) two q (inv.local j) ((apart j ne).1 pos refl))
          tt (λ j ne. ((λ p a. cc), (λ p a. cc))))
