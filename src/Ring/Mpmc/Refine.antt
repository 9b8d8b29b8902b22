-- ===== src/Ring/Mpmc/Refine.antt =====
-- A queue for many threads that is used by one call after another is the bounded queue of its entries.
use native.Mathlib.Nat.{add-mod_right}
use mathlib.Core.Path.{ap₂}
use l7_loadbalancer.Base.{
  ℕ, suc, ◌+◌, ◌-◌, ◌%◌, ◌<◌, ◌≡◌, refl, sym, ap, ◌∙◌, Bool, true, false, List, [], ◌∷◌, ◌++◌, some,
  arith, dec_lt, length, get_elem?, get_or, u64,
}
use l7_loadbalancer.Ring.Size.{IsSize, IsSize-le}
use l7_loadbalancer.Ring.Queue
use l7_loadbalancer.Ring.Queue.{Outcome, refused, item}
use l7_loadbalancer.Ring.Mpmc.{
  Slot, Mpmc, below, equal, diff, slot_index, fill, push, drain, pop, capacity,
}
use l7_loadbalancer.Ring.Mpmc.Between.{
  IsValid, diff_same, diff_behind, contents, slot_found, filled, drained, fill_lem, drain_lem,
  filled-IsValid, drained-IsValid,
}
use l7_loadbalancer.Ring.Mpmc.Entries.{
  entries, contents-valid, contents-entries, length-entries, entries_snoc, entries_cons,
}
use l7_loadbalancer.Ring.Mpmc.Slots.{blank_slot, slot_at}

module _ {A : Type 0} (d : A) {size : ℕ} (v : IsSize size) where
  push_equal :
      (fuel : ℕ) (r : Mpmc A) (x : A) (s : Slot A)
      → get_elem? r.buffer (slot_index size r.tail) ≡ some s
      → diff s.sequence r.tail ≡ equal
      → push size (suc fuel) r x ≡ some (fill size r r.tail x, true)
  unfolding push
  push_equal fuel r x s e q = rw (e, push, q) refl

  push_below :
      (fuel : ℕ) (r : Mpmc A) (x : A) (s : Slot A)
      → get_elem? r.buffer (slot_index size r.tail) ≡ some s
      → diff s.sequence r.tail ≡ below
      → push size (suc fuel) r x ≡ some (r, false)
  unfolding push
  push_below fuel r x s e q = rw (e, push, q) refl

  pop_equal :
      (moved : A → A) (fuel : ℕ) (r : Mpmc A) (s : Slot A)
      → get_elem? r.buffer (slot_index size r.head) ≡ some s
      → diff s.sequence (u64 (r.head + 1)) ≡ equal
      → pop size moved (suc fuel) r ≡ some (drain size moved r r.head s.value, item s.value)
  unfolding pop
  pop_equal moved fuel r s e q = rw (e, pop, q) refl

  pop_below :
      (moved : A → A) (fuel : ℕ) (r : Mpmc A) (s : Slot A)
      → get_elem? r.buffer (slot_index size r.head) ≡ some s
      → diff s.sequence (u64 (r.head + 1)) ≡ below
      → pop size moved (suc fuel) r ≡ some (r, refused)
  unfolding pop
  pop_below moved fuel r s e q = rw (e, pop, q) refl

  Queue_room :
      (q : List A) (x : A) → length q < size → Queue.push (capacity size) q x ≡ (q ++ x ∷ [], true)
  unfolding Queue.push capacity
  Queue_room q x h = ground arith

  Queue_full : (q : List A) (x : A) → length q ≡ size → Queue.push (capacity size) q x ≡ (q, false)
  unfolding Queue.push capacity
  Queue_full q x h = ground arith

  -- Used by one call after another, `push` returns after one round of its loop, answers as the bounded queue of
  -- capacity `Size` does, and leaves the queue valid and holding what that queue holds, though the
  -- indices wrap.
  pub push_refines_queue :
      (fuel : ℕ) (r : Mpmc A) (x : A)
      → IsValid d size r
      → (r' : Mpmc A) × (done : Bool) × (push size (suc fuel) r x ≡ some (r', done))
        × IsValid d size r'
        × ((contents d v r', done) ≡ Queue.push (capacity size) (contents d v r) x)
  push_refines_queue fuel r x w = elim (dec_lt w.fresh (w.first + size)) [
    | yes room ↦
        let n = w.fresh - w.first in
        let there = slot_found d v r w.fresh r.tail w.storage w.tail_is in
        let match : diff (slot_at d size r w.fresh).sequence r.tail ≡ equal =
          ap (λ k. diff k r.tail) (w.free w.fresh (omega arith) room ∙ sym w.tail_is)
          ∙ diff_same r.tail in
        let left : fill size r r.tail x ≡ filled d v r w.fresh x =
          ap (λ k. fill size r k x) w.tail_is ∙ fill_lem d v r w.fresh x w.storage in
        let w' = filled-IsValid d v r x w room in
        let short : n < size = omega (arith, w.order) in
        let grown : contents d v (filled d v r w.fresh x) ≡ contents d v r ++ x ∷ [] =
          contents-entries d v (filled d v r w.fresh x) w.first (w.fresh + 1) w.head_is refl
            (omega (arith, w.order)) (omega arith)
          ∙ ap (entries d v (filled d v r w.fresh x).buffer w.first)
              (let e : w.fresh + 1 - w.first ≡ suc n = omega (arith, w.order) in e)
          ∙ entries_snoc d v r.buffer w.first w.fresh n
              (record { sequence = u64 (w.fresh + 1); value = x }) w.storage short
              (omega (arith, w.order))
          ∙ ap (λ q. q ++ x ∷ []) (sym (contents-valid d v r w)) in
        let few : length (contents d v r) < size =
          omega
            (arith, ap length (contents-valid d v r w), length-entries d v r.buffer w.first n) in
        (
          filled d v r w.fresh x,
          true,
          push_equal fuel r x _ there match ∙ ap (λ q. some (q, true)) left,
          w',
          ap (λ q. (q, true)) grown ∙ sym (Queue_room (contents d v r) x few),
        )
    | no full ↦
        let n = w.fresh - w.first in
        let o = w.order in
        let m = w.room in
        let two = v.two_le in
        let whole : w.fresh ≡ w.first + size = omega arith in
        let there = slot_found d v r w.fresh r.tail w.storage w.tail_is in
        let round : w.fresh % size ≡ w.first % size =
          ap (λ k. k % size) whole ∙ add-mod_right w.first size in
        let seq : (slot_at d size r w.fresh).sequence ≡ u64 (w.first + 1) =
          ap (λ k. (get_or r.buffer k (blank_slot d size)).sequence) round
          ∙ w.held w.first (omega arith) (omega arith) in
        let behind : diff (slot_at d size r w.fresh).sequence r.tail ≡ below =
          ap₂ diff seq w.tail_is
          ∙ diff_behind (w.first + 1) w.fresh (omega arith) (omega (arith, IsSize-le v)) in
        let many : length (contents d v r) ≡ size =
          omega
            (arith, ap length (contents-valid d v r w), length-entries d v r.buffer w.first n) in
        (r, false, push_below fuel r x _ there behind, w, sym (Queue_full (contents d v r) x many))
  ]

  -- Used by one call after another, `pop` returns after one round of its loop, answers as that bounded queue does,
  -- and leaves the queue valid and holding what that queue holds.
  pub pop_refines_queue :
      (moved : A → A) (fuel : ℕ) (r : Mpmc A)
      → IsValid d size r
      → (r' : Mpmc A) × (out : Outcome A) × (pop size moved (suc fuel) r ≡ some (r', out))
        × IsValid d size r'
        × ((contents d v r', out) ≡ Queue.pop (contents d v r))
  unfolding Queue.pop entries
  pop_refines_queue moved fuel r w = elim (dec_lt w.first w.fresh) [
    | yes some_there ↦
        let n = w.fresh - w.first - 1 in
        let s = slot_at d size r w.first in
        let there = slot_found d v r w.first r.head w.storage w.head_is in
        let up : u64 (r.head + 1) ≡ u64 (w.first + 1) =
          ap (λ k. u64 (k + 1)) w.head_is
          ∙ (let e : u64 (u64 w.first + 1) ≡ u64 (w.first + 1) = omega arith in e) in
        let match : diff s.sequence (u64 (r.head + 1)) ≡ equal =
          ap₂ diff (w.held w.first (omega arith) some_there) up ∙ diff_same (u64 (w.first + 1)) in
        let left : drain size moved r r.head s.value ≡ drained d v r w.first (moved s.value) =
          ap (λ k. drain size moved r k s.value) w.head_is
          ∙ drain_lem d v moved r w.first s.value w.storage in
        let r' = drained d v r w.first (moved s.value) in
        let rest = entries d v r'.buffer (w.first + 1) n in
        let before : contents d v r ≡ s.value ∷ rest =
          contents-valid d v r w
          ∙ ap (entries d v r.buffer w.first) (let e : w.fresh - w.first ≡ suc n = omega arith in e)
          ∙ entries_cons d v r.buffer w.first n _ (omega (arith, w.room)) in
        let after : contents d v r' ≡ rest =
          contents-entries d v r' (w.first + 1) w.fresh refl w.tail_is (omega arith)
            (omega (arith, w.room))
          ∙ ap (entries d v r'.buffer (w.first + 1))
              (let e : w.fresh - (w.first + 1) ≡ n = omega arith in e) in
        (
          r',
          item s.value,
          pop_equal moved fuel r s there match ∙ ap (λ q. some (q, item s.value)) left,
          drained-IsValid d v r (moved s.value) w some_there,
          ap (λ q. (q, item s.value)) after ∙ ap Queue.pop (sym before),
        )
    | no none_there ↦
        let o = w.order in
        let two = v.two_le in
        let there = slot_found d v r w.first r.head w.storage w.head_is in
        let seq : (slot_at d size r w.first).sequence ≡ u64 w.first =
          w.free w.first (omega arith) (omega arith) in
        let up : u64 (r.head + 1) ≡ u64 (w.first + 1) =
          ap (λ k. u64 (k + 1)) w.head_is
          ∙ (let e : u64 (u64 w.first + 1) ≡ u64 (w.first + 1) = omega arith in e) in
        let behind : diff (slot_at d size r w.first).sequence (u64 (r.head + 1)) ≡ below =
          ap₂ diff seq up ∙ diff_behind w.first (w.first + 1) (omega arith) (omega arith) in
        let nothing : contents d v r ≡ [] =
          contents-valid d v r w
          ∙ ap (entries d v r.buffer w.first) (let e : w.fresh - w.first ≡ 0 = omega arith in e) in
        (
          r,
          refused,
          pop_below moved fuel r _ there behind,
          w,
          ap (λ q. (q, refused)) nothing ∙ ap Queue.pop (sym nothing),
        )
  ]
