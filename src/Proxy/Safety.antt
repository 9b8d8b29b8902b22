-- ===== src/Proxy/Safety.antt =====
-- The event loop never follows a pointer to a deleted connection, and counts its connections exactly.
pub mod Accept
pub mod Relay
pub mod Events
pub mod Run
pub mod Servers
pub mod Served
use l7_loadbalancer.Base.{ℕ, ◌+◌, ◌≤◌, ◌<◌, ◌≡◌, ◌≢◌, List, [], ◌∷◌, Option, some, length}
use l7_loadbalancer.Proxy.State.{Sockets, Proxy}
use l7_loadbalancer.Proxy.Heap.{IsHeap, IsHeap-world}

-- What is open stays open.
abbrev pub Keeps : {World : Type 0} → (World → ℕ → Type 0) → World → World → Type 0
Keeps Open w w' = (fd : ℕ) → Open w fd → Open w' fd

-- What the code relies on in the socket API: a new descriptor is above 0 and none of the open ones, and
-- only `ff_close` makes one invalid, the one that it is given.
pub record Descriptors {World : Type 0} (net : Sockets World) (Open : World → ℕ → Type 0)
    : Type 0 where
  pub socket_new :
      (w : World) (fd : ℕ)
      → (net.socket w).1 ≡ some fd
      → (0 < fd) × (¬ Open w fd) × Open (net.socket w).0 fd
  pub accept_new :
      (w : World) (l fd addr port : ℕ)
      → (net.accept w l).1 ≡ some (fd, addr, port)
      → (0 < fd) × (¬ Open w fd) × Open (net.accept w l).0 fd
  pub close_other : (w : World) (fd g : ℕ) → fd ≢ g → Open w g → Open (net.close w fd) g
  pub socket_keeps : (w : World) → Keeps Open w (net.socket w).0
  pub accept_keeps : (w : World) (l : ℕ) → Keeps Open w (net.accept w l).0
  pub get_flags_keeps : (w : World) (fd : ℕ) → Keeps Open w (net.get_flags w fd).0
  pub set_flags_keeps : (w : World) (fd flags : ℕ) → Keeps Open w (net.set_flags w fd flags)
  pub reuse_addr_keeps : (w : World) (fd : ℕ) → Keeps Open w (net.reuse_addr w fd)
  pub connect_keeps : (w : World) (fd ip port : ℕ) → Keeps Open w (net.connect w fd ip port).0
  pub epoll_add_keeps : (w : World) (fd : ℕ) → Keeps Open w (net.epoll_add w fd)
  pub epoll_del_keeps : (w : World) (fd : ℕ) → Keeps Open w (net.epoll_del w fd)
  pub read_keeps : (w : World) (fd n : ℕ) → Keeps Open w (net.read w fd n).0
  pub write_keeps : (w : World) (fd : ℕ) (bs : List ℕ) → Keeps Open w (net.write w fd bs).0

-- The connection map and the heap fit each other, every descriptor in them is open, and the counter of
-- active sessions is the number of connections.
pub record IsSafe {World : Type 0} (Open : World → ℕ → Type 0) (s : Proxy World) : Type 0 where
  pub sound : IsHeap (Open s.world) s.connections s.heap s.next
  pub counted : s.stats.active_sessions ≡ length s.heap

pub IsSafe-world :
    {World : Type 0} (Open : World → ℕ → Type 0) (s : Proxy World) (w : World)
    → IsSafe Open s
    → Keeps Open s.world w
    → IsSafe Open (record s { world = w })
IsSafe-world Open s w safe keeps = record {
  sound = IsHeap-world (Open s.world) s.connections s.heap s.next safe.sound (Open w) keeps;
  counted = safe.counted;
}
