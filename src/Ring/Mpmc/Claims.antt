-- ===== src/Ring/Mpmc/Claims.antt =====
-- A thread wins the place at the tail or at the head.
use l7_loadbalancer.Base.{
  ℕ, suc, ◌+◌, ◌^◌, ◌≤◌, ◌<◌, ◌≡◌, refl, sym, ap, ◌∙◌, subst, List, [], ◌∷◌, ◌++◌, some, arith,
  get_elem?, get_or, length, inl, inr, u64, length-append, get_elem?-snoc, get_elem?-snoc_last,
}
use l7_loadbalancer.Ring.Mpmc.{Slot, Mpmc, claim_tail, claim_head, diff, equal}
use l7_loadbalancer.Ring.Mpmc.Threads.{
  Thread, push_seen, push_won, push_written, pop_seen, pop_won, pop_taken, assign,
}
use l7_loadbalancer.Ring.Mpmc.Slots.{
  blank_slot, slot_at, SlotOk, Local, tail_waits, head_holds, sequence-le, diff-equal,
}
use l7_loadbalancer.Ring.Mpmc.Frame.{push_place, pop_place, Inv, Inv-assign}

module _ {A : Type 0} (d : A) (size : ℕ) where
  -- A thread's place lies before the index that its kind claims.
  push_place-lt :
      (r : Mpmc A) (log : List A) (t : Thread A) (pos : ℕ)
      → Local d size r log t
      → push_place t ≡ some pos
      → pos < r.tail
  push_place-lt r log (push_won x p) pos h e = ground arith
  push_place-lt r log (push_written x p) pos h e = ground arith
  push_place-lt r log _ pos h e = cc

  pop_place-lt :
      (r : Mpmc A) (log : List A) (t : Thread A) (pos : ℕ)
      → Local d size r log t
      → pop_place t ≡ some pos
      → pos < r.head
  pop_place-lt r log (pop_won p) pos h e = ground arith
  pop_place-lt r log (pop_taken p y) pos h e = ground arith
  pop_place-lt r log _ pos h e = cc

  -- One item more in the log.
  SlotOk-snoc :
      (r : Mpmc A) (log : List A) (i : ℕ) (s : Slot A) (x : A)
      → r.tail ≡ length log
      → SlotOk d size r log i s
      → SlotOk d size (record r { tail = r.tail + 1 }) (log ++ x ∷ []) i s
  SlotOk-snoc r log i s x n (k, e, inl q) = (k, e, inl q)
  SlotOk-snoc r log i s x n (k, e, inr (q, h, held)) =
      (k, e, inr (q, omega arith, λ o. get_elem?-snoc log k x (omega arith) ∙ held o))

  -- One item fewer to take.
  SlotOk-head :
      (r : Mpmc A) (log : List A) (i : ℕ) (s : Slot A)
      → SlotOk d size r log i s
      → SlotOk d size (record r { head = r.head + 1 }) log i s
  SlotOk-head r log i s (k, e, inl (q, h)) = (k, e, inl (q, omega arith))
  SlotOk-head r log i s (k, e, inr (q, h, held)) = (k, e, inr (q, h, λ o. held (omega arith)))

  pub Inv-win_push :
      (r : Mpmc A) (th : ℕ → Thread A) (log : List A) (i seq : ℕ) (x : A)
      → 2 ≤ size
      → Inv d size r th log
      → suc (length log) + size < 2 ^ 64
      → th i ≡ push_seen x r.tail seq
      → diff seq r.tail ≡ equal
      → Inv d size (claim_tail size r r.tail) (assign th i (push_won x r.tail)) (log ++ x ∷ [])
  unfolding claim_tail
  Inv-win_push r th log i seq x two inv fits e q =
      let w = inv.shared in
      let seen : (r.tail ≤ r.tail) × (seq ≤ (slot_at d size r r.tail).sequence) =
        subst (Local d size r log) e (inv.local i) in
      let small = sequence-le d size r log r.tail two w in
      let exact = diff-equal seq r.tail (omega arith) (omega (arith, w.counted)) q in
      let (waits, room) = tail_waits d size r log two w (omega arith) in
      let len : length (log ++ x ∷ []) ≡ length log + 1 = length-append log (x ∷ []) in
      let up : u64 (r.tail + 1) ≡ r.tail + 1 = omega (arith, w.counted) in
      let r' = record r { tail = r.tail + 1 } in
      subst
        (λ n. Inv d size (record r { tail = n }) (assign th i (push_won x r.tail)) (log ++ x ∷ []))
        (sym up)
        (Inv-assign d size r r' th log (log ++ x ∷ []) i (push_won x r.tail) inv
          (record {
            order = omega (arith, w.order);
            room = omega arith;
            counted = omega (arith, w.counted, len);
            fits = omega (arith, len);
            storage = w.storage;
            slots = λ k h.
                SlotOk-snoc r log k (get_or r.buffer k (blank_slot d size)) x w.counted
                  (w.slots k h);
          })
          (record {
            tail_le = omega arith;
            head_le = omega arith;
            log_old = λ pos h. get_elem?-snoc log pos x (omega (arith, w.counted));
            sequence_le = λ pos. omega arith;
          })
          (λ j ne. ((λ pos h. refl), (λ pos h. refl)))
          (omega arith, waits, ap (get_elem? (log ++ x ∷ [])) w.counted ∙ get_elem?-snoc_last log x)
          (λ j ne. (
            (λ pos a b.
                let here : r.tail ≡ pos = cc in
                let before = push_place-lt r log (th j) pos (inv.local j) b in omega arith),
            (λ pos a b. cc),
          )))

  pub Inv-win_pop :
      (r : Mpmc A) (th : ℕ → Thread A) (log : List A) (i seq : ℕ)
      → 2 ≤ size
      → Inv d size r th log
      → th i ≡ pop_seen r.head seq
      → diff seq (u64 (r.head + 1)) ≡ equal
      → Inv d size (claim_head size r r.head) (assign th i (pop_won r.head)) log
  unfolding claim_head
  Inv-win_pop r th log i seq two inv e q =
      let w = inv.shared in
      let seen : (r.head ≤ r.head) × (seq ≤ (slot_at d size r r.head).sequence) =
        subst (Local d size r log) e (inv.local i) in
      let small = sequence-le d size r log r.head two w in
      let up : u64 (r.head + 1) ≡ r.head + 1 = omega (arith, w.counted, w.order, w.fits) in
      let exact = diff-equal seq (u64 (r.head + 1)) (omega arith) (omega arith) q in
      let (full, below, held) = head_holds d size r log two w (omega arith) in
      let r' = record r { head = r.head + 1 } in
      subst (λ n. Inv d size (record r { head = n }) (assign th i (pop_won r.head)) log) (sym up)
        (Inv-assign d size r r' th log log i (pop_won r.head) inv
          (record {
            order = omega arith;
            room = omega (arith, w.room);
            counted = w.counted;
            fits = w.fits;
            storage = w.storage;
            slots =
                λ k h. SlotOk-head r log k (get_or r.buffer k (blank_slot d size)) (w.slots k h);
          })
          (record {
            tail_le = omega arith;
            head_le = omega arith;
            log_old = λ pos h. refl;
            sequence_le = λ pos. omega arith;
          })
          (λ j ne. ((λ pos h. refl), (λ pos h. refl))) (omega arith, full, held)
          (λ j ne. (
            (λ pos a b. cc),
            (λ pos a b.
                let here : r.head ≡ pos = cc in
                let before = pop_place-lt r log (th j) pos (inv.local j) b in omega arith),
          )))
