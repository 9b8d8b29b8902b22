-- ===== src/Ring/Tests.antt =====
-- Runs of the single-producer queue and of its threads at concrete inputs.
use l7_loadbalancer.Base.{
  ℕ, ◌-◌, ◌≤◌, ◌<◌, ◌≡◌, ◌≢◌, refl, List, [], ◌∷◌, ◌++◌, length, arith, take, drop,
}
use Prim.Native.Nat.{min}
use l7_loadbalancer.Ring.Queue
use l7_loadbalancer.Ring.Queue.{Outcome, item, refused}
use l7_loadbalancer.Ring.Size.{IsSize}
use l7_loadbalancer.Ring.Spsc.{Spsc, next, new, push, pop, capacity, write_tail, advance_tail}
use l7_loadbalancer.Ring.Spsc.Refine.{IsValid, contents, used, push_refines, pop_refines}
use l7_loadbalancer.Ring.Spsc.Threads.{Producer, Consumer, sys, Step, Reach, pending, fifo, no_race}
use l7_loadbalancer.Ring.Batch.{RingApi, push_batch, pop_batch, pop_batch-push_batch}

-- A ring of size 4 that holds 8, 9 round the end of its storage.
abbrev wrapped : Spsc ℕ
wrapped = record { head = 3; tail = 1; buffer = 9 ∷ 6 ∷ 7 ∷ 8 ∷ [] }

abbrev kept : ℕ → ℕ
kept x = x

IsSize-4 : IsSize 4
IsSize-4 = record { power = refl; two_le = omega arith; fits = omega arith }

wrapped-IsValid : IsValid 4 wrapped
wrapped-IsValid = record { head_in = omega arith; tail_in = omega arith; storage = refl }

wrapped-contents : contents 0 4 wrapped ≡ 8 ∷ 9 ∷ []
unfolding used
wrapped-contents = refl

push_refines_example :
    IsValid 4 (push 4 wrapped 5).0
    × ((contents 0 4 (push 4 wrapped 5).0, (push 4 wrapped 5).1)
        ≡ Queue.push (capacity 4) (contents 0 4 wrapped) 5)
push_refines_example = push_refines 0 IsSize-4 wrapped 5 wrapped-IsValid

pop_refines_example :
    IsValid 4 (pop 4 kept wrapped).0
    × ((contents 0 4 (pop 4 kept wrapped).0, (pop 4 kept wrapped).1)
        ≡ Queue.pop (contents 0 4 wrapped))
pop_refines_example = pop_refines 0 IsSize-4 kept wrapped wrapped-IsValid

pop_runs : (pop 4 kept wrapped).1 ≡ item 8
unfolding pop
pop_runs = refl

-- The class as an instance of the interface of the batch wrapper.
abbrev spsc_4 : RingApi ℕ
spsc_4 = record {
  State = Spsc ℕ;
  Valid = IsValid 4;
  contents = contents 0 4;
  cap = capacity 4;
  push = push 4;
  pop = pop 4 kept;
  push_law = push_refines 0 IsSize-4;
  pop_law = pop_refines 0 IsSize-4 kept;
}

pop_batch-push_batch_example :
    let (s, n) = push_batch spsc_4 wrapped (1 ∷ 2 ∷ 3 ∷ []) in
    let (s', out) = pop_batch spsc_4 s 2 in
    IsValid 4 s'
    × (n ≡ min 3 (capacity 4 - length (contents 0 4 wrapped)))
    × (out ≡ take 2 (contents 0 4 wrapped ++ take n (1 ∷ 2 ∷ 3 ∷ [])))
    × (contents 0 4 s' ≡ drop 2 (contents 0 4 wrapped ++ take n (1 ∷ 2 ∷ 3 ∷ [])))
pop_batch-push_batch_example =
    pop_batch-push_batch spsc_4 wrapped (1 ∷ 2 ∷ 3 ∷ []) 2 wrapped-IsValid

-- The producer has sent 7 and is about to write 8 while the consumer is about to read.
abbrev sent_one : Spsc ℕ
sent_one = advance_tail 4 (write_tail 4 (new 4 0) 7)

racing : Reach 4 kept 0 (sys sent_one (Producer.checked 8) Consumer.ready (7 ∷ []) [])
unfolding new next write_tail advance_tail
racing =
    Reach.later
      (Reach.later
        (Reach.later (Reach.later (Reach.later Reach.start (Step.check 7 (omega arith))) Step.store)
          Step.publish)
        (Step.look (omega arith)))
      (Step.check 8 (omega arith))

fifo_example :
    (◌≡◌ {A = List ℕ} (7 ∷ []) ([] ++ pending 0 4 sent_one Consumer.ready))
    × (length (pending 0 4 sent_one Consumer.ready) ≤ capacity 4)
fifo_example = fifo 0 IsSize-4 kept 0 racing

no_race_example :
    (sent_one.tail ≢ sent_one.head)
    × (sent_one.tail < length sent_one.buffer)
    × (sent_one.head < length sent_one.buffer)
no_race_example = no_race 0 IsSize-4 kept 0 racing
