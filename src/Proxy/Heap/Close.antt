-- ===== src/Proxy/Heap/Close.antt =====
-- Deleting a connection, and writing one back.
use l7_loadbalancer.Base.{ℕ, ◌≡◌, sym, ◌∙◌, ap, ◌≢◌, inl, inr, List, none, some, arith}
use l7_loadbalancer.Base.Assoc.{find, put, erase, nat_eq, find-erase, put-IsMap, erase-IsMap}
use l7_loadbalancer.Proxy.State.{Connection}
use l7_loadbalancer.Proxy.Heap.{
  IsLive, Leads, IsHeap, find-put_self, find-put_ne, find-erase_self, find-erase_ne, eq_cases,
  some_inj,
}

module _ (Open : ℕ → Type 0) (conns : List (ℕ × ℕ)) (heap : List (ℕ × Connection)) (next : ℕ)
    (w : IsHeap Open conns heap next) where
  module _ (ptr : ℕ) (c : Connection) (at_ptr : find ptr heap ≡ some c) where
    abbrev without : List (ℕ × ℕ)
    without = erase c.backend_fd (erase c.client_fd conns)

    -- What is still in the map was there before, for another descriptor than these two.
    kept_entry :
        (fd p : ℕ)
        → find fd without ≡ some p
        → (c.client_fd ≢ fd) × (c.backend_fd ≢ fd) × (find fd conns ≡ some p)
    kept_entry fd p e = ground (
      arith,
      w.fds,
      erase-IsMap c.client_fd conns,
      find-erase c.backend_fd fd (erase c.client_fd conns),
      find-erase c.client_fd fd conns,
    )

    other_entry : (fd : ℕ) → c.client_fd ≢ fd → c.backend_fd ≢ fd → find fd without ≡ find fd conns
    other_entry fd na nb =
        find-erase_ne c.backend_fd fd (erase c.client_fd conns)
          (erase-IsMap c.client_fd conns w.fds) nb
        ∙ find-erase_ne c.client_fd fd conns w.fds na

    closed_entries : (fd p : ℕ) → find fd without ≡ some p → Leads (erase ptr heap) fd p
    closed_entries fd p e =
        let (na, nb, old) = kept_entry fd p e in
        let (c0, at, which) = w.entries fd p old in
        let ne : ptr ≢ p = λ q.
          let q1 : some c ≡ some c0 = sym at_ptr ∙ ap (λ k. find k heap) q ∙ at in
          let q2 : c ≡ c0 = cc in
          elim which [
            | inl f ↦ na (ap (λ x. x.client_fd) q2 ∙ sym f)
            | inr f ↦ nb (ap (λ x. x.backend_fd) q2 ∙ sym f)
          ] in
        (c0, find-erase_ne ptr p heap w.objects ne ∙ at, which)

    closed-IsLive :
        (Open' : ℕ → Type 0)
        → ((fd : ℕ) → c.client_fd ≢ fd → c.backend_fd ≢ fd → Open fd → Open' fd)
        → (p : ℕ) (c0 : Connection) → find p (erase ptr heap) ≡ some c0
        → IsLive Open' without next p c0
    closed-IsLive Open' keeps p c0 e =
        let ne : ptr ≢ p = λ q.
          let gone : find p (erase ptr heap) ≡ none =
            ap (λ k. find k (erase ptr heap)) (sym q) ∙ find-erase_self ptr heap w.objects in
          cc in
        let l = w.live p c0 (sym (find-erase_ne ptr p heap w.objects ne) ∙ e) in
        let l1 = w.live ptr c at_ptr in
        let e1 = l1.client_entry in
        let e2 = l1.backend_entry in
        let e3 = l.client_entry in
        let e4 = l.backend_entry in
        let a1 : c.client_fd ≢ c0.client_fd = λ q. ne (some_inj cc) in
        let a2 : c.backend_fd ≢ c0.client_fd = λ q. ne (some_inj cc) in
        let b1 : c.client_fd ≢ c0.backend_fd = λ q. ne (some_inj cc) in
        let b2 : c.backend_fd ≢ c0.backend_fd = λ q. ne (some_inj cc) in
        record {
          allocated = l.allocated;
          client_pos = l.client_pos;
          backend_pos = l.backend_pos;
          apart = l.apart;
          client_entry = other_entry c0.client_fd a1 a2 ∙ l.client_entry;
          backend_entry = other_entry c0.backend_fd b1 b2 ∙ l.backend_entry;
          client_open = keeps c0.client_fd a1 a2 l.client_open;
          backend_open = keeps c0.backend_fd b1 b2 l.backend_open;
        }

    pub IsHeap-close :
        (Open' : ℕ → Type 0)
        → ((fd : ℕ) → c.client_fd ≢ fd → c.backend_fd ≢ fd → Open fd → Open' fd)
        → IsHeap Open' without (erase ptr heap) next
    IsHeap-close Open' keeps = record {
      fds =
          erase-IsMap c.backend_fd (erase c.client_fd conns) (erase-IsMap c.client_fd conns w.fds);
      objects = erase-IsMap ptr heap w.objects;
      some_next = w.some_next;
      entries = closed_entries;
      live = closed-IsLive Open' keeps;
    }

    -- An object written back with the same two descriptors.
    pub IsHeap-update :
        (c' : Connection)
        → c'.client_fd ≡ c.client_fd
        → c'.backend_fd ≡ c.backend_fd
        → IsHeap Open conns (put ptr c' heap) next
    IsHeap-update c' ec eb = record {
      fds = w.fds;
      objects = put-IsMap ptr c' heap w.objects;
      some_next = w.some_next;
      entries = λ fd p e.
          let (c0, at, which) = w.entries fd p e in
          elim (eq_cases ptr p) [
            | inl same ↦
                let q1 : some c ≡ some c0 = sym at_ptr ∙ ap (λ k. find k heap) same ∙ at in
                let q2 : c ≡ c0 = cc in
                (
                  c',
                  rw (sym same) (find-put_self ptr c' heap),
                  elim which [
                    | inl f ↦ inl (f ∙ ap (λ x. x.client_fd) (sym q2) ∙ sym ec)
                    | inr f ↦ inr (f ∙ ap (λ x. x.backend_fd) (sym q2) ∙ sym eb)
                  ],
                )
            | inr other ↦ (c0, find-put_ne ptr p c' heap other ∙ at, which)
          ];
      live = λ p c0 e. elim (eq_cases ptr p) [
        | inl same ↦
            let e1 = rw (sym same, find-put_self ptr c' heap) at e in
            let q2 : c' ≡ c0 = cc in
            let l = w.live ptr c at_ptr in
            rw (sym same, sym q2)
              (record {
                allocated = l.allocated;
                client_pos = rw ec l.client_pos;
                backend_pos = rw eb l.backend_pos;
                apart = rw (ec, eb) l.apart;
                client_entry = rw ec l.client_entry;
                backend_entry = rw eb l.backend_entry;
                client_open = rw ec l.client_open;
                backend_open = rw eb l.backend_open;
              })
        | inr other ↦ w.live p c0 (sym (find-put_ne ptr p c' heap other) ∙ e)
      ];
    }
