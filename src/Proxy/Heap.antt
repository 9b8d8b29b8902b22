-- ===== src/Proxy/Heap.antt =====
-- The connection map and the heap of connections.
pub mod Close
pub mod Bound
use l7_loadbalancer.Base.{
  ℕ, ◌+◌, ◌<◌, ◌≡◌, sym, ◌∙◌, ap, ◌≢◌, ◌⊎◌, inl, inr, List, none, some, arith, Option-cases,
}
use l7_loadbalancer.Base.Assoc.{
  find, put, erase, IsMap, nat_eq, find-put, find-erase, put-IsMap, erase-IsMap,
}
use l7_loadbalancer.Proxy.State.{Connection}

-- One connection object: its two descriptors are above 0, differ, are open, and lead to it.
pub record IsLive (Open : ℕ → Type 0) (conns : List (ℕ × ℕ)) (next p : ℕ) (c : Connection)
    : Type 0 where
  pub allocated : (0 < p) × (p < next)
  pub client_pos : 0 < c.client_fd
  pub backend_pos : 0 < c.backend_fd
  pub apart : c.client_fd ≢ c.backend_fd
  pub client_entry : find c.client_fd conns ≡ some p
  pub backend_entry : find c.backend_fd conns ≡ some p
  pub client_open : Open c.client_fd
  pub backend_open : Open c.backend_fd

-- A map entry leads to a live object that has the entry's descriptor.
abbrev pub Leads : List (ℕ × Connection) → ℕ → ℕ → Type 0
Leads heap fd p =
    (c : Connection) × (find p heap ≡ some c) × ((fd ≡ c.client_fd) ⊎ (fd ≡ c.backend_fd))

pub record IsHeap (Open : ℕ → Type 0) (conns : List (ℕ × ℕ)) (heap : List (ℕ × Connection))
    (next : ℕ) : Type 0 where
  pub fds : IsMap conns
  pub objects : IsMap heap
  pub some_next : 0 < next
  pub entries : (fd p : ℕ) → find fd conns ≡ some p → Leads heap fd p
  pub live : (p : ℕ) (c : Connection) → find p heap ≡ some c → IsLive Open conns next p c

module _ {V : Type 0} where
  pub find-put_self : (k : ℕ) (v : V) (m : List (ℕ × V)) → find k (put k v m) ≡ some v
  find-put_self k v m = ground (arith, find-put k k v m)

  pub find-put_ne : (k j : ℕ) (v : V) (m : List (ℕ × V)) → k ≢ j → find j (put k v m) ≡ find j m
  find-put_ne k j v m h = ground (arith, find-put k j v m)

  pub find-erase_self : (k : ℕ) (m : List (ℕ × V)) → IsMap m → find k (erase k m) ≡ none
  find-erase_self k m w = ground (arith, find-erase k k m)

  pub find-erase_ne : (k j : ℕ) (m : List (ℕ × V)) → IsMap m → k ≢ j → find j (erase k m) ≡ find j m
  find-erase_ne k j m w h = ground (arith, find-erase k j m)

pub eq_cases : (a b : ℕ) → (a ≡ b) ⊎ (a ≢ b)
eq_cases a b = ground arith

pub some_inj : {a b : ℕ} → some a ≡ some b → a ≡ b
some_inj e = cc

abbrev connect_to : ℕ → ℕ → ℕ → List (ℕ × ℕ) → List (ℕ × ℕ)
connect_to client backend p conns = put backend p (put client p conns)

module _ (Open : ℕ → Type 0) (conns : List (ℕ × ℕ)) (heap : List (ℕ × Connection)) (next : ℕ)
    (w : IsHeap Open conns heap next) where
  -- A state of the network stack that has the same descriptors open, and maybe more.
  pub IsHeap-world :
      (Open' : ℕ → Type 0) → ((fd : ℕ) → Open fd → Open' fd) → IsHeap Open' conns heap next
  IsHeap-world Open' keeps = record {
    fds = w.fds;
    objects = w.objects;
    some_next = w.some_next;
    entries = w.entries;
    live = λ p c e.
        let l = w.live p c e in
        record {
          allocated = l.allocated;
          client_pos = l.client_pos;
          backend_pos = l.backend_pos;
          apart = l.apart;
          client_entry = l.client_entry;
          backend_entry = l.backend_entry;
          client_open = keeps c.client_fd l.client_open;
          backend_open = keeps c.backend_fd l.backend_open;
        };
  }

  -- A descriptor that is not open is in no entry.
  pub fresh_fd : (fd : ℕ) → ¬ Open fd → find fd conns ≡ none
  fresh_fd fd closed = elim (Option-cases (find fd conns)) [
    | inl e ↦ e
    | inr (p, e) ↦
        let (c, at, which) = w.entries fd p e in
        let l = w.live p c at in
        elim which [
          | inl q ↦ absurd (closed (rw q l.client_open))
          | inr q ↦ absurd (closed (rw q l.backend_open))
        ]
  ]

  pub heap_next : find next heap ≡ none
  heap_next = elim (Option-cases (find next heap)) [
    | inl e ↦ e
    | inr (c, e) ↦ let a = (w.live next c e).allocated in absurd (omega arith)
  ]

  module _ (c : Connection) (client_pos : 0 < c.client_fd) (backend_pos : 0 < c.backend_fd)
      (apart : c.client_fd ≢ c.backend_fd) (client_new : find c.client_fd conns ≡ none)
      (backend_new : find c.backend_fd conns ≡ none) (client_open : Open c.client_fd)
      (backend_open : Open c.backend_fd) where
    opened_entries :
        (fd p : ℕ)
        → find fd (connect_to c.client_fd c.backend_fd next conns) ≡ some p
        → Leads (put next c heap) fd p
    opened_entries fd p e = elim (eq_cases c.backend_fd fd) [
      | inl b ↦
          let e1 = rw (sym b, find-put_self c.backend_fd next (put c.client_fd next conns)) at e in
          let e2 = some_inj e1 in (c, rw (sym e2) (find-put_self next c heap), inr (sym b))
      | inr nb ↦
          let e1 = sym (find-put_ne c.backend_fd fd next (put c.client_fd next conns) nb) ∙ e in
          elim (eq_cases c.client_fd fd) [
            | inl a ↦
                let e2 = rw (sym a, find-put_self c.client_fd next conns) at e1 in
                let e3 = some_inj e2 in (c, rw (sym e3) (find-put_self next c heap), inl (sym a))
            | inr na ↦
                let e2 = sym (find-put_ne c.client_fd fd next conns na) ∙ e1 in
                let (c0, at, which) = w.entries fd p e2 in
                let al = (w.live p c0 at).allocated in
                let ne : next ≢ p = omega arith in (c0, find-put_ne next p c heap ne ∙ at, which)
          ]
    ]

    opened_entry :
        (fd p : ℕ)
        → find fd conns ≡ some p
        → find fd (connect_to c.client_fd c.backend_fd next conns) ≡ some p
    opened_entry fd p e =
        let na : c.client_fd ≢ fd = λ q. cc in
        let nb : c.backend_fd ≢ fd = λ q. cc in
        find-put_ne c.backend_fd fd next (put c.client_fd next conns) nb
        ∙ find-put_ne c.client_fd fd next conns na
        ∙ e

    opened-IsLive :
        (p : ℕ) (c0 : Connection)
        → find p (put next c heap) ≡ some c0
        → IsLive Open (connect_to c.client_fd c.backend_fd next conns) (next + 1) p c0
    opened-IsLive p c0 e = elim (eq_cases next p) [
      | inl same ↦
          let e1 = rw (sym same, find-put_self next c heap) at e in
          let e2 : c ≡ c0 = cc in
          rw (sym e2, sym same)
            (record {
              allocated = (w.some_next, omega arith);
              client_pos = client_pos;
              backend_pos = backend_pos;
              apart = apart;
              client_entry =
                  find-put_ne c.backend_fd c.client_fd next (put c.client_fd next conns)
                    (λ q. apart (sym q))
                  ∙ find-put_self c.client_fd next conns;
              backend_entry = find-put_self c.backend_fd next (put c.client_fd next conns);
              client_open = client_open;
              backend_open = backend_open;
            })
      | inr other ↦
          let l = w.live p c0 (sym (find-put_ne next p c heap other) ∙ e) in
          let al = l.allocated in
          record {
            allocated = (l.allocated.0, omega arith);
            client_pos = l.client_pos;
            backend_pos = l.backend_pos;
            apart = l.apart;
            client_entry = opened_entry c0.client_fd p l.client_entry;
            backend_entry = opened_entry c0.backend_fd p l.backend_entry;
            client_open = l.client_open;
            backend_open = l.backend_open;
          }
    ]

    pub IsHeap-open :
        IsHeap Open (connect_to c.client_fd c.backend_fd next conns) (put next c heap) (next + 1)
    IsHeap-open = record {
      fds =
          put-IsMap c.backend_fd next (put c.client_fd next conns)
            (put-IsMap c.client_fd next conns w.fds);
      objects = put-IsMap next c heap w.objects;
      some_next = omega arith;
      entries = opened_entries;
      live = opened-IsLive;
    }
