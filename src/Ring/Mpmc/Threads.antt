-- ===== src/Ring/Mpmc/Threads.antt =====
-- Any number of threads that call `push` and `pop` of an MPMCRingBuffer, interleaved at every shared access,
-- which is taken as sequentially consistent. `compare_exchange_weak` may fail without a reason.
use l7_loadbalancer.Base.{
  ℕ, ◌+◌, ◌≡◌, ◌≢◌, List, [], ◌∷◌, ◌++◌, some, ◌==◌, if◌then◌else◌, u64, get_elem?,
}
use l7_loadbalancer.Ring.Mpmc.{
  Slot, Mpmc, below, equal, diff, slot_index, new, claim_tail, claim_head, write_data,
  store_sequence,
}

-- Where a thread stands: in no call; before it loads the index; past that; past the load of the
-- sequence number; past the compare-and-exchange; past the access to the data.
pub data Thread (A : Type 0) : Type 0 where
  idle : Thread A
  pushing : A → Thread A
  push_loaded : A → ℕ → Thread A
  push_seen : A → ℕ → ℕ → Thread A
  push_won push_written : A → ℕ → Thread A
  popping : Thread A
  pop_loaded : ℕ → Thread A
  pop_seen : ℕ → ℕ → Thread A
  pop_won : ℕ → Thread A
  pop_taken : ℕ → A → Thread A

abbrev pub assign : {A : Type 0} → (ℕ → Thread A) → ℕ → Thread A → ℕ → Thread A
assign th i t j = if i == j then t else th j

-- The queue, the threads by number, and the items in the order in which `push` has won their places.
pub data System (A : Type 0) : Type 0 where
  sys : Mpmc A → (ℕ → Thread A) → List A → System A

module _ {A : Type 0} (size : ℕ) (moved : A → A) where
  pub data Step : System A → System A → Type 0 where
    call_push :
        {r : Mpmc A} {th : ℕ → Thread A} {log : List A} (i : ℕ) (x : A)
        → th i ≡ idle
        → Step (sys r th log) (sys r (assign th i (pushing x)) log)
    load_tail :
        {r : Mpmc A} {th : ℕ → Thread A} {log : List A} (i : ℕ) (x : A)
        → th i ≡ pushing x
        → Step (sys r th log) (sys r (assign th i (push_loaded x r.tail)) log)
    see_push :
        {r : Mpmc A} {th : ℕ → Thread A} {log : List A} (i : ℕ) (x : A) (pos : ℕ) (s : Slot A)
        → th i ≡ push_loaded x pos
        → get_elem? r.buffer (slot_index size pos) ≡ some s
        → Step (sys r th log) (sys r (assign th i (push_seen x pos s.sequence)) log)
    win_push :
        {r : Mpmc A} {th : ℕ → Thread A} {log : List A} (i : ℕ) (x : A) (pos seq : ℕ)
        → th i ≡ push_seen x pos seq
        → diff seq pos ≡ equal
        → r.tail ≡ pos
        → Step
            (sys r th log)
            (sys (claim_tail size r pos) (assign th i (push_won x pos)) (log ++ x ∷ []))
    retry_push :
        {r : Mpmc A} {th : ℕ → Thread A} {log : List A} (i : ℕ) (x : A) (pos seq : ℕ)
        → th i ≡ push_seen x pos seq
        → diff seq pos ≢ below
        → Step (sys r th log) (sys r (assign th i (pushing x)) log)
    refuse_push :
        {r : Mpmc A} {th : ℕ → Thread A} {log : List A} (i : ℕ) (x : A) (pos seq : ℕ)
        → th i ≡ push_seen x pos seq
        → diff seq pos ≡ below
        → Step (sys r th log) (sys r (assign th i idle) log)
    write :
        {r : Mpmc A} {th : ℕ → Thread A} {log : List A} (i : ℕ) (x : A) (pos : ℕ)
        → th i ≡ push_won x pos
        → Step (sys r th log) (sys (write_data size r pos x) (assign th i (push_written x pos)) log)
    publish :
        {r : Mpmc A} {th : ℕ → Thread A} {log : List A} (i : ℕ) (x : A) (pos : ℕ)
        → th i ≡ push_written x pos
        → Step
            (sys r th log)
            (sys (store_sequence size r pos (u64 (pos + 1))) (assign th i idle) log)
    call_pop :
        {r : Mpmc A} {th : ℕ → Thread A} {log : List A} (i : ℕ)
        → th i ≡ idle
        → Step (sys r th log) (sys r (assign th i popping) log)
    load_head :
        {r : Mpmc A} {th : ℕ → Thread A} {log : List A} (i : ℕ)
        → th i ≡ popping
        → Step (sys r th log) (sys r (assign th i (pop_loaded r.head)) log)
    see_pop :
        {r : Mpmc A} {th : ℕ → Thread A} {log : List A} (i pos : ℕ) (s : Slot A)
        → th i ≡ pop_loaded pos
        → get_elem? r.buffer (slot_index size pos) ≡ some s
        → Step (sys r th log) (sys r (assign th i (pop_seen pos s.sequence)) log)
    win_pop :
        {r : Mpmc A} {th : ℕ → Thread A} {log : List A} (i pos seq : ℕ)
        → th i ≡ pop_seen pos seq
        → diff seq (u64 (pos + 1)) ≡ equal
        → r.head ≡ pos
        → Step (sys r th log) (sys (claim_head size r pos) (assign th i (pop_won pos)) log)
    retry_pop :
        {r : Mpmc A} {th : ℕ → Thread A} {log : List A} (i pos seq : ℕ)
        → th i ≡ pop_seen pos seq
        → diff seq (u64 (pos + 1)) ≢ below
        → Step (sys r th log) (sys r (assign th i popping) log)
    refuse_pop :
        {r : Mpmc A} {th : ℕ → Thread A} {log : List A} (i pos seq : ℕ)
        → th i ≡ pop_seen pos seq
        → diff seq (u64 (pos + 1)) ≡ below
        → Step (sys r th log) (sys r (assign th i idle) log)
    take :
        {r : Mpmc A} {th : ℕ → Thread A} {log : List A} (i pos : ℕ) (s : Slot A)
        → th i ≡ pop_won pos
        → get_elem? r.buffer (slot_index size pos) ≡ some s
        → Step
            (sys r th log)
            (sys (write_data size r pos (moved s.value)) (assign th i (pop_taken pos s.value)) log)
    release :
        {r : Mpmc A} {th : ℕ → Thread A} {log : List A} (i pos : ℕ) (y : A)
        → th i ≡ pop_taken pos y
        → Step
            (sys r th log)
            (sys (store_sequence size r pos (u64 (pos + size))) (assign th i idle) log)

  -- From the constructor on, with all threads outside.
  pub data Reach (blank : A) : System A → Type 0 where
    start : Reach blank (sys (new size blank) (λ _. idle) [])
    later : {s t : System A} → Reach blank s → Step s t → Reach blank t
