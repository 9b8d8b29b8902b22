-- ===== src/Proxy/Safety/Relay.antt =====
-- Closing a connection and forwarding its data keep the connections safe.
use l7_loadbalancer.Base.{
  ℕ, zero, suc, ◌^◌, ◌<◌, ◌≡◌, refl, ◌∙◌, ◌≢◌, ◌⊎◌, inl, inr, Bool, true, false, List, [], ◌∷◌,
  some, arith, length, drop, ◌==◌,
}
use l7_loadbalancer.Base.Assoc.{find, erase, nat_eq, length-erase}
use l7_loadbalancer.Types.{Statistics, decr}
use l7_loadbalancer.Proxy.State.{
  Sockets, Proxy, Connection, returned, Read, got, nothing_yet, read_error,
}
use l7_loadbalancer.Proxy.Relay.{
  drop_fd, close_connection, write_all, forward_data, count_forwarded,
}
use l7_loadbalancer.Proxy.Heap.{IsHeap-world}
use l7_loadbalancer.Proxy.Heap.Close.{IsHeap-close}
use l7_loadbalancer.Proxy.Forward.{Writes, write_all_lem, Write-cases, Sent-cases}
use l7_loadbalancer.Proxy.Safety.{Keeps, Descriptors, IsSafe, IsSafe-world}

Read-cases :
    (r : Read)
    → ((r ≡ got []) ⊎ ((b : ℕ) × (bs : List ℕ) × (r ≡ got (b ∷ bs))))
      ⊎ ((r ≡ nothing_yet) ⊎ (r ≡ read_error))
Read-cases (got []) = inl (inl refl)
Read-cases (got (b ∷ bs)) = inl (inr (b, bs, refl))
Read-cases nothing_yet = inr (inl refl)
Read-cases read_error = inr (inr refl)

module _ {World : Type 0} (net : Sockets World) (Open : World → ℕ → Type 0)
    (laws : Descriptors net Open) where
  drop_fd-pos :
      (s : Proxy World) (fd : ℕ)
      → 0 < fd
      → drop_fd net s fd ≡ record s {
        world = net.close (net.epoll_del s.world fd) fd;
        connections = erase fd s.connections;
      }
  unfolding drop_fd
  drop_fd-pos s fd h = ground arith

  -- A pointer to a live connection can be closed, once.
  pub close_connection-IsSafe :
      (s : Proxy World) (ptr : ℕ) (c : Connection)
      → IsSafe Open s
      → length s.heap < 2 ^ 64
      → find ptr s.heap ≡ some c
      → (s' : Proxy World) × (close_connection net s ptr ≡ returned s')
        × IsSafe Open s'
        × (s'.heap ≡ erase ptr s.heap)
  unfolding close_connection
  close_connection-IsSafe s ptr c safe small e =
      let l = safe.sound.live ptr c e in
      let nonzero : (ptr == 0) ≡ false = let pos = l.allocated in ground arith in
      let w1 = net.close (net.epoll_del s.world c.client_fd) c.client_fd in
      let w2 = net.close (net.epoll_del w1 c.backend_fd) c.backend_fd in
      let s1 : Proxy World = record s {
        world = w1;
        connections = erase c.client_fd s.connections;
      } in
      let s' : Proxy World = record s {
        world = w2;
        connections = erase c.backend_fd (erase c.client_fd s.connections);
        heap = erase ptr s.heap;
        stats = record s.stats { active_sessions = decr s.stats.active_sessions };
      } in
      let keeps : (fd : ℕ) → c.client_fd ≢ fd → c.backend_fd ≢ fd → Open s.world fd → Open w2 fd =
        λ fd na nb h.
          let h1 =
            laws.close_other (net.epoll_del s.world c.client_fd) c.client_fd fd na
              (laws.epoll_del_keeps s.world c.client_fd fd h) in
          laws.close_other (net.epoll_del w1 c.backend_fd) c.backend_fd fd nb
            (laws.epoll_del_keeps w1 c.backend_fd fd h1) in
      (
        s',
        rw
            (
              nonzero,
              e,
              close_connection,
              drop_fd-pos s c.client_fd l.client_pos,
              drop_fd-pos s1 c.backend_fd l.backend_pos,
            )
            refl,
        record {
          sound =
              IsHeap-close (Open s.world) s.connections s.heap s.next safe.sound ptr c e (Open w2)
                keeps;
          counted = ground (arith, safe.counted, length-erase ptr s.heap);
        },
        refl,
      )

  write_all-Keeps :
      (fuel : ℕ) (w : World) (fd : ℕ) (bs : List ℕ) → Keeps Open w (write_all net fuel w fd bs).0
  unfolding write_all
  write_all-Keeps fuel w fd [] g h = h
  write_all-Keeps zero w fd (b ∷ bs) g h = h
  write_all-Keeps (suc fuel) w fd (b ∷ bs) g h =
      let h1 = laws.write_keeps w fd (b ∷ bs) g h in
      elim (Write-cases (net.write w fd (b ∷ bs)).1) [
        | inl (k, e) ↦
            rw (e, write_all)
              (write_all-Keeps fuel (net.write w fd (b ∷ bs)).0 fd (drop k (b ∷ bs)) g h1)
        | inr (inl e) ↦ rw (e, write_all) h1
        | inr (inr e) ↦ rw (e, write_all) h1
      ]

  -- The connections and the counter stay, the descriptors stay open.
  IsSafe-relay :
      (s : Proxy World) (w : World) (st : Statistics)
      → IsSafe Open s
      → Keeps Open s.world w
      → st.active_sessions ≡ s.stats.active_sessions
      → IsSafe Open (record s { world = w; stats = st })
  IsSafe-relay s w st safe keeps same = record {
    sound = IsHeap-world (Open s.world) s.connections s.heap s.next safe.sound (Open w) keeps;
    counted = same ∙ safe.counted;
  }

  count_forwarded-active :
      (c : Connection) (fd : ℕ) (st : Statistics)
      → (count_forwarded net c fd st).active_sessions ≡ st.active_sessions
  unfolding count_forwarded
  count_forwarded-active c fd st = ground arith

  -- `forward_data` returns, and leaves the heap alone.
  pub forward_data-IsSafe :
      (sent : World → ℕ → List ℕ)
      → Writes net sent
      → (s : Proxy World) (c : Connection) (from_fd to_fd : ℕ) → IsSafe Open s
      → (o : Bool × Bool) × ((forward_data net s c from_fd to_fd).1 ≡ returned o)
        × IsSafe Open (forward_data net s c from_fd to_fd).0
        × ((forward_data net s c from_fd to_fd).0.heap ≡ s.heap)
  unfolding forward_data
  forward_data-IsSafe sent writes s c from_fd to_fd safe =
      let w1 = (net.read s.world from_fd 8192).0 in
      let keeps : Keeps Open s.world w1 = laws.read_keeps s.world from_fd 8192 in
      let safe1 = IsSafe-world Open s w1 safe keeps in
      elim (Read-cases (net.read s.world from_fd 8192).1) [
        | inr (inl e) ↦ rw (e, forward_data) ((true, false), refl, safe1, refl)
        | inr (inr e) ↦ rw (e, forward_data) ((false, false), refl, safe1, refl)
        | inl (inl e) ↦ rw (e, forward_data) ((true, true), refl, safe1, refl)
        | inl (inr (b, bs, e)) ↦
            let n = length (b ∷ bs) in
            let w2 = (write_all net n w1 to_fd (b ∷ bs)).0 in
            let ends = (write_all_lem net sent writes n w1 to_fd (b ∷ bs) (omega arith)).0 in
            let keeps2 : Keeps Open s.world w2 =
              λ g h. write_all-Keeps n w1 to_fd (b ∷ bs) g (keeps g h) in
            let plain = IsSafe-world Open s w2 safe keeps2 in
            let counted =
              IsSafe-relay s w2 (count_forwarded net c from_fd s.stats) safe keeps2
                (count_forwarded-active c from_fd s.stats) in
            elim (Sent-cases (write_all net n w1 to_fd (b ∷ bs)).1) [
              | inl f ↦ rw (e, f, forward_data) ((true, false), refl, counted, refl)
              | inr (inl f) ↦ rw (e, f, forward_data) ((true, false), refl, counted, refl)
              | inr (inr (inl f)) ↦ rw (e, f, forward_data) ((false, false), refl, plain, refl)
              | inr (inr (inr f)) ↦ absurd (ends f)
            ]
      ]
