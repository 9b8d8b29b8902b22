-- ===== src/Ring/Mpmc/Tests.antt =====
-- Runs of the queue for many threads, one call after another and interleaved.
use l7_loadbalancer.Base.{
  Option, All, subst, u64, ℕ, false, ◌+◌, ◌≤◌, ◌<◌, ◌≡◌, ◌≢◌, refl, Bool, [], ◌∷◌, some, length,
  arith, get_elem?,
}
use l7_loadbalancer.Ring.Queue
use l7_loadbalancer.Ring.Queue.{Outcome, item}
use l7_loadbalancer.Ring.Size.{IsSize}
use l7_loadbalancer.Ring.Mpmc.{
  Slot, Mpmc, diff, slot_index, numbered, new, claim_tail, claim_head, write_data, store_sequence,
  push, pop, capacity,
}
use l7_loadbalancer.Ring.Mpmc.Threads.{Thread, assign, sys, Step, Reach}
use l7_loadbalancer.Ring.Mpmc.Slots.{slot_at}
use l7_loadbalancer.Ring.Mpmc.Safety.{no_shared_slot}
use l7_loadbalancer.Ring.Mpmc.Delivered.{Distinct, won, delivered, down_from, places}
use l7_loadbalancer.Ring.Mpmc.Between.{IsValid, contents}
use l7_loadbalancer.Ring.Mpmc.Entries.{new-IsValid}
use l7_loadbalancer.Ring.Mpmc.Refine.{push_refines_queue, pop_refines_queue}

abbrev kept : ℕ → ℕ
kept x = x

IsSize-2 : IsSize 2
IsSize-2 = record { power = refl; two_le = omega arith; fits = omega arith }

-- Thread 0 has sent 7 and won a place for 8; thread 1 has won the place of 7.
abbrev claimed : Mpmc ℕ
claimed =
    claim_head 2
      (claim_tail 2 (store_sequence 2 (write_data 2 (claim_tail 2 (new 2 0) 0) 0 7) 0 1) 1) 0

abbrev at_first : ℕ → Thread ℕ
at_first =
    assign
      (assign
        (assign
          (assign
            (assign (assign (λ _. Thread.idle) 0 (Thread.pushing 7)) 0 (Thread.push_loaded 7 0)) 0
            (Thread.push_seen 7 0 0))
          0 (Thread.push_won 7 0))
        0 (Thread.push_written 7 0))
      0 Thread.idle

abbrev at_second : ℕ → Thread ℕ
at_second =
    assign
      (assign (assign (assign at_first 0 (Thread.pushing 8)) 0 (Thread.push_loaded 8 1)) 0
        (Thread.push_seen 8 1 1))
      0 (Thread.push_won 8 1)

abbrev at_both : ℕ → Thread ℕ
at_both =
    assign
      (assign (assign (assign at_second 1 Thread.popping) 1 (Thread.pop_loaded 0)) 1
        (Thread.pop_seen 0 1))
      1 (Thread.pop_won 0)

abbrev slot : ℕ → ℕ → Slot ℕ
slot seq x = record { sequence = seq; value = x }

sent :
    Reach 2 kept 0
      (sys (store_sequence 2 (write_data 2 (claim_tail 2 (new 2 0) 0) 0 7) 0 1) at_first (7 ∷ []))
unfolding new numbered claim_tail write_data store_sequence slot_index diff
sent =
    Reach.later
      (Reach.later
        (Reach.later
          (Reach.later
            (Reach.later (Reach.later Reach.start (Step.call_push 0 7 refl))
              (Step.load_tail 0 7 refl))
            (Step.see_push 0 7 0 (slot 0 0) refl refl))
          (Step.win_push 0 7 0 0 refl refl refl))
        (Step.write 0 7 0 refl))
      (Step.publish 0 7 0 refl)

sent_more : Reach 2 kept 0 (
    sys
      (claim_tail 2 (store_sequence 2 (write_data 2 (claim_tail 2 (new 2 0) 0) 0 7) 0 1) 1)
      at_second
      (7 ∷ 8 ∷ []))
unfolding new numbered claim_tail write_data store_sequence slot_index diff
sent_more =
    Reach.later
      (Reach.later
        (Reach.later (Reach.later sent (Step.call_push 0 8 refl)) (Step.load_tail 0 8 refl))
        (Step.see_push 0 8 1 (slot 1 0) refl refl))
      (Step.win_push 0 8 1 1 refl refl refl)

racing : Reach 2 kept 0 (sys claimed at_both (7 ∷ 8 ∷ []))
unfolding new numbered claim_tail claim_head write_data store_sequence slot_index diff
racing =
    Reach.later
      (Reach.later
        (Reach.later (Reach.later sent_more (Step.call_pop 1 refl)) (Step.load_head 1 refl))
        (Step.see_pop 1 0 (slot 1 7) refl refl))
      (Step.win_pop 1 0 1 refl refl refl)

no_shared_slot_example :
    (slot_index 2 0 ≢ slot_index 2 1) × (slot_index 2 1 < length claimed.buffer)
no_shared_slot_example =
    no_shared_slot 0 IsSize-2 kept 0 racing (omega arith) 0 1 1 0 (omega arith) refl refl

abbrev taken : Mpmc ℕ
taken = write_data 2 claimed 0 7

abbrev at_end : ℕ → Thread ℕ
at_end = assign at_both 1 (Thread.pop_taken 0 7)

took : Reach 2 kept 0 (sys taken at_end (7 ∷ 8 ∷ []))
unfolding new numbered claim_tail claim_head write_data store_sequence slot_index diff
took = Reach.later racing (Step.take 1 0 (slot 1 7) refl refl)

places_example :
    Distinct (delivered took)
    × All (λ e. ◌≡◌ {A = Option ℕ} (get_elem? (7 ∷ 8 ∷ []) e.0) (some e.1)) (delivered took)
    × (won took ≡ down_from taken.head)
    × (taken.tail ≡ 2)
    × (taken.head ≤ taken.tail)
    × (taken.tail ≤ taken.head + capacity 2)
places_example = places 0 IsSize-2 kept 0 took (omega arith)

-- The item 7 has been taken at place 0.
delivered_one : delivered took ≡ (0, 7) ∷ []
unfolding delivered took racing sent_more sent
delivered_one = refl

-- The new queue and the one with 7 in it.
start-IsValid : IsValid {A = ℕ} 0 2 (new 2 0)
start-IsValid = new-IsValid 0 IsSize-2 0

push_refines_queue_example :
    (r' : Mpmc ℕ) × (done : Bool) × (push 2 1 (new 2 0) 7 ≡ some (r', done))
    × IsValid {A = ℕ} 0 2 r'
    × ((contents 0 IsSize-2 r', done) ≡ Queue.push (capacity 2) (contents 0 IsSize-2 (new 2 0)) 7)
push_refines_queue_example = push_refines_queue 0 IsSize-2 0 (new 2 0) 7 start-IsValid

abbrev one : Mpmc ℕ
one = record { head = 0; tail = 1; buffer = slot 1 7 ∷ slot 1 0 ∷ [] }

one-IsValid : IsValid {A = ℕ} 0 2 one
one-IsValid = record {
  first = 0;
  fresh = 1;
  head_is = refl;
  tail_is = refl;
  order = omega arith;
  room = omega arith;
  storage = refl;
  held = λ p lo hi.
      let e : 0 ≡ p = omega arith in subst (λ k. (slot_at 0 2 one k).sequence ≡ u64 (k + 1)) e refl;
  free = λ p lo hi.
      let e : 1 ≡ p = omega arith in subst (λ k. (slot_at 0 2 one k).sequence ≡ u64 k) e refl;
}

pop_refines_queue_example :
    (r' : Mpmc ℕ) × (out : Outcome ℕ) × (pop 2 kept 1 one ≡ some (r', out))
    × IsValid {A = ℕ} 0 2 r'
    × ((contents 0 IsSize-2 r', out) ≡ Queue.pop (contents 0 IsSize-2 one))
pop_refines_queue_example = pop_refines_queue 0 IsSize-2 kept 0 one one-IsValid

-- A full queue refuses, after a round it takes the slot again.
full_refuses :
    push 2 1 (record { head = 0; tail = 2; buffer = slot 1 7 ∷ slot 2 8 ∷ [] }) 9
    ≡ some (record { head = 0; tail = 2; buffer = slot 1 7 ∷ slot 2 8 ∷ [] }, false)
unfolding push diff slot_index
full_refuses = refl
