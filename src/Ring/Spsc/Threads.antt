-- ===== src/Ring/Spsc/Threads.antt =====
-- One producer thread and one consumer thread on an SPSCRingBuffer, interleaved at every shared
-- access. The release stores and acquire loads of the two indices are taken as sequentially
-- consistent steps: each thread alone writes its index, and the buffer is handed over by them.
use l7_loadbalancer.Base.{
  ℕ, ◌+◌, ◌-◌, ◌%◌, ◌≤◌, ◌<◌, ◌≡◌, sym, ap, ◌∙◌, ◌≢◌, List, [], ◌∷◌, ◌++◌, some, arith, length,
  get_or, get_elem?, get_elem?-eq-get_or, set, length-set, get_or-set_self, get_or-set_ne,
}
use mathlib.Core.List.{append_assoc}
use l7_loadbalancer.Ring.Size.{IsSize, mod_bump}
use l7_loadbalancer.Ring.Spsc.{
  Spsc, next, new, write_tail, advance_tail, leave_head, advance_head, capacity,
}
use l7_loadbalancer.Ring.Spsc.Window.{window, length-window}
use l7_loadbalancer.Ring.Spsc.Refine.{
  next-eq, used, used_lem, used_pop, window_grow, window_store, window_pop, new_lem,
}

-- Where the producer stands: outside `push`, past the test for a full ring, past the write.
pub data Producer (A : Type 0) : Type 0 where
  outside : Producer A
  checked stored : A → Producer A

-- Where the consumer stands: outside `pop`, past the test for an empty ring, past the read.
pub data Consumer (A : Type 0) : Type 0 where
  away ready : Consumer A
  taken : A → Consumer A

-- The ring, the two threads, the items whose `push` has returned `true` and those that `pop` gave.
pub data System (A : Type 0) : Type 0 where
  sys : Spsc A → Producer A → Consumer A → List A → List A → System A

module _ {A : Type 0} (size : ℕ) (moved : A → A) where
  pub data Step : System A → System A → Type 0 where
    check :
        {r : Spsc A} {c : Consumer A} {sent got : List A}
        → (x : A) → next size r.tail ≢ r.head
        → Step (sys r outside c sent got) (sys r (checked x) c sent got)
    store :
        {r : Spsc A} {c : Consumer A} {sent got : List A} {x : A}
        → Step (sys r (checked x) c sent got) (sys (write_tail size r x) (stored x) c sent got)
    publish :
        {r : Spsc A} {c : Consumer A} {sent got : List A} {x : A}
        → Step
            (sys r (stored x) c sent got)
            (sys (advance_tail size r) outside c (sent ++ x ∷ []) got)
    look :
        {r : Spsc A} {p : Producer A} {sent got : List A}
        → r.head ≢ r.tail
        → Step (sys r p away sent got) (sys r p ready sent got)
    take :
        {r : Spsc A} {p : Producer A} {sent got : List A} {x : A}
        → get_elem? r.buffer r.head ≡ some x
        → Step (sys r p ready sent got) (sys (leave_head size r (moved x)) p (taken x) sent got)
    release :
        {r : Spsc A} {p : Producer A} {sent got : List A} {x : A}
        → Step (sys r p (taken x) sent got) (sys (advance_head size r) p away sent (got ++ x ∷ []))

  pub data Reach (blank : A) : System A → Type 0 where
    start : Reach blank (sys (new size blank) outside away [] [])
    later : {s t : System A} → Reach blank s → Step s t → Reach blank t

module _ {A : Type 0} (d : A) (size : ℕ) where
  -- What the producer knows while it is inside `push`.
  abbrev pub Room : Spsc A → Producer A → Type 0
  Room r outside = Unit
  Room r (checked x) = (r.tail + 1) % size ≢ r.head
  Room r (stored x) = ((r.tail + 1) % size ≢ r.head) × (get_or r.buffer r.tail d ≡ x)

  -- What the consumer knows while it is inside `pop`.
  abbrev pub Ready : Spsc A → Consumer A → Type 0
  Ready r away = Unit
  Ready r ready = r.head ≢ r.tail
  Ready r (taken x) = r.head ≢ r.tail

  -- The items sent and not yet received, oldest first.
  abbrev pub pending : Spsc A → Consumer A → List A
  pending r away = window d size r.buffer r.head (used size r.head r.tail)
  pending r ready = window d size r.buffer r.head (used size r.head r.tail)
  pending r (taken x) =
      x ∷ window d size r.buffer ((r.head + 1) % size) (used size ((r.head + 1) % size) r.tail)

  pub record Inv (r : Spsc A) (p : Producer A) (c : Consumer A) (sent got : List A) : Type 0 where
    pub head_in : r.head < size
    pub tail_in : r.tail < size
    pub storage : length r.buffer ≡ size
    pub room : Room r p
    pub ready_for : Ready r c
    pub flow : sent ≡ got ++ pending r c

  abbrev pub IsSound : System A → Type 0
  IsSound (sys r p c sent got) = Inv r p c sent got

-- Two places that differ still differ one step on.
bump_ne : {size h t : ℕ} → h < size → t < size → h ≢ t → (t + 1) % size ≢ (h + 1) % size
bump_ne {size} {h} {t} hh ht ne = ground (arith, mod_bump size h, mod_bump size t)

module _ {A : Type 0} (d : A) (size : ℕ) where
  pending_store :
      (r : Spsc A) (c : Consumer A) (x : A)
      → r.head < size
      → r.tail < size
      → pending d size (record r { buffer = set r.buffer r.tail x }) c ≡ pending d size r c
  pending_store r away x hh ht = window_store d size r.buffer x r.head r.tail hh ht
  pending_store r ready x hh ht = window_store d size r.buffer x r.head r.tail hh ht
  pending_store r (taken y) x hh ht =
      ap (◌∷◌ y) (window_store d size r.buffer x ((r.head + 1) % size) r.tail (omega arith) ht)

  pending_publish :
      (r : Spsc A) (c : Consumer A)
      → r.head < size
      → r.tail < size
      → Ready d size r c
      → (r.tail + 1) % size ≢ r.head
      → pending d size (record r { tail = (r.tail + 1) % size }) c
        ≡ pending d size r c ++ get_or r.buffer r.tail d ∷ []
  pending_publish r away hh ht q ne = window_grow d size r.buffer r.head r.tail hh ht ne
  pending_publish r ready hh ht q ne = window_grow d size r.buffer r.head r.tail hh ht ne
  pending_publish r (taken y) hh ht q ne =
      ap (◌∷◌ y) (
        window_grow d size r.buffer ((r.head + 1) % size) r.tail (omega arith) ht (bump_ne hh ht q))

  pending_bound :
      (r : Spsc A) (c : Consumer A)
      → r.head < size
      → r.tail < size
      → Ready d size r c
      → length (pending d size r c) ≤ size - 1
  pending_bound r away hh ht q =
      omega
        (arith, length-window d size r.buffer r.head (used size r.head r.tail), (used_lem hh ht).1)
  pending_bound r ready hh ht q =
      omega
        (arith, length-window d size r.buffer r.head (used size r.head r.tail), (used_lem hh ht).1)
  pending_bound r (taken y) hh ht q =
      let h' = (r.head + 1) % size in
      omega (
        arith,
        length-window d size r.buffer h' (used size h' r.tail),
        used_pop hh ht q,
        (used_lem hh ht).1,
      )

  Room-take :
      (r : Spsc A) (p : Producer A) (x : A)
      → r.head ≢ r.tail
      → Room d size r p
      → Room d size (record r { buffer = set r.buffer r.head x }) p
  Room-take r outside x ne q = tt
  Room-take r (checked y) x ne q = q
  Room-take r (stored y) x ne q = (q.0, get_or-set_ne r.buffer x d ne ∙ q.1)

  Room-release :
      (r : Spsc A) (p : Producer A)
      → r.head < size
      → r.tail < size
      → r.head ≢ r.tail
      → Room d size r p
      → Room d size (record r { head = (r.head + 1) % size }) p
  Room-release r outside hh ht ne q = tt
  Room-release r (checked y) hh ht ne q = bump_ne hh ht ne
  Room-release r (stored y) hh ht ne q = (bump_ne hh ht ne, q.1)

  Ready-publish :
      (r : Spsc A) (c : Consumer A)
      → (r.tail + 1) % size ≢ r.head
      → Ready d size r c
      → Ready d size (record r { tail = (r.tail + 1) % size }) c
  Ready-publish r away ne q = tt
  Ready-publish r ready ne q = λ e. ne (sym e)
  Ready-publish r (taken y) ne q = λ e. ne (sym e)

  Ready-store :
      (r : Spsc A) (c : Consumer A) (x : A)
      → Ready d size r c
      → Ready d size (record r { buffer = set r.buffer r.tail x }) c
  Ready-store r away x q = tt
  Ready-store r ready x q = q
  Ready-store r (taken y) x q = q

module _ {A : Type 0} (d : A) {size : ℕ} (v : IsSize size) (moved : A → A) where
  Step-IsSound : {s t : System A} → Step size moved s t → IsSound d size s → IsSound d size t
  unfolding write_tail advance_tail leave_head advance_head
  Step-IsSound (check {r = r} {c = c} x ne) i = record {
    head_in = i.head_in;
    tail_in = i.tail_in;
    storage = i.storage;
    room = rw (← next-eq v i.tail_in) ne;
    ready_for = i.ready_for;
    flow = i.flow;
  }
  Step-IsSound (store {r = r} {c = c} {x = x}) i = record {
    head_in = i.head_in;
    tail_in = i.tail_in;
    storage = length-set r.buffer r.tail x ∙ i.storage;
    room = (i.room, get_or-set_self r.buffer r.tail x d (omega (arith, i.storage, i.tail_in)));
    ready_for = Ready-store d size r c x i.ready_for;
    flow = rw (pending_store d size r c x i.head_in i.tail_in) i.flow;
  }
  Step-IsSound (publish {r = r} {c = c} {got = got} {x = x}) i = rw (next-eq v i.tail_in) (record {
    head_in = i.head_in;
    tail_in = omega (arith, i.tail_in);
    storage = i.storage;
    room = tt;
    ready_for = Ready-publish d size r c i.room.0 i.ready_for;
    flow =
        rw (pending_publish d size r c i.head_in i.tail_in i.ready_for i.room.0, i.room.1, i.flow)
          (append_assoc got (pending d size r c) (x ∷ []));
  })
  Step-IsSound (look ne) i = record {
    head_in = i.head_in;
    tail_in = i.tail_in;
    storage = i.storage;
    room = i.room;
    ready_for = ne;
    flow = i.flow;
  }
  Step-IsSound (take {r = r} {p = p} {got = got} {x = x} e) i = record {
    head_in = i.head_in;
    tail_in = i.tail_in;
    storage = length-set r.buffer r.head (moved x) ∙ i.storage;
    room = Room-take d size r p (moved x) i.ready_for i.room;
    ready_for = i.ready_for;
    flow =
        let first : get_or r.buffer r.head d ≡ x =
          cc (e, get_elem?-eq-get_or r.buffer r.head d (omega (arith, i.storage, i.head_in))) in
        i.flow
        ∙ ap (◌++◌ got) (
            window_pop d size r.buffer (moved x) r.head r.tail i.head_in i.tail_in i.ready_for
            ∙ ap
                (λ (y : A).
                  y
                  ∷ window d size (set r.buffer r.head (moved x)) ((r.head + 1) % size)
                      (used size ((r.head + 1) % size) r.tail))
                first);
  }
  Step-IsSound (release {r = r} {p = p} {got = got} {x = x}) i = rw (next-eq v i.head_in) (record {
    head_in = omega (arith, i.head_in);
    tail_in = i.tail_in;
    storage = i.storage;
    room = Room-release d size r p i.head_in i.tail_in i.ready_for i.room;
    ready_for = tt;
    flow = i.flow ∙ sym (append_assoc got (x ∷ []) _);
  })

  pub Reach-IsSound : (blank : A) {s : System A} → Reach size moved blank s → IsSound d size s
  unfolding new
  Reach-IsSound blank start =
      let (w, e) = new_lem d v blank in
      record {
        head_in = w.head_in;
        tail_in = w.tail_in;
        storage = w.storage;
        room = tt;
        ready_for = tt;
        flow = sym e;
      }
  Reach-IsSound blank (later r st) = Step-IsSound st (Reach-IsSound blank r)

  -- In every reachable state the items that `pop` has handed out are, in order, the first of those
  -- whose `push` has returned; the rest are in the ring or held by the consumer, at most `Size - 1`.
  pub fifo :
      (blank : A) {r : Spsc A} {p : Producer A} {c : Consumer A} {sent got : List A}
      → Reach size moved blank (sys r p c sent got)
      → (sent ≡ got ++ pending d size r c) × (length (pending d size r c) ≤ capacity size)
  unfolding capacity
  fifo blank {c = c} reach =
      let i = Reach-IsSound blank reach in
      (i.flow, pending_bound d size _ c i.head_in i.tail_in i.ready_for)

  -- While the producer is about to write its slot and the consumer about to read its own, the two
  -- slots differ, and both lie inside the storage.
  pub no_race :
      (blank : A) {r : Spsc A} {x : A} {sent got : List A}
      → Reach size moved blank (sys r (checked x) ready sent got)
      → (r.tail ≢ r.head) × (r.tail < length r.buffer) × (r.head < length r.buffer)
  no_race blank reach =
      let i = Reach-IsSound blank reach in
      (
        λ e. i.ready_for (sym e),
        omega (arith, i.storage, i.tail_in),
        omega (arith, i.storage, i.head_in),
      )
