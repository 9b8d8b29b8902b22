-- ===== src/Proxy/State.antt =====
-- The data of src/main.cpp. The socket API of F-Stack is a parameter: a record of calls on the state of
-- the network stack. A result below zero is `none`, or an outcome of its own where the code looks at
-- errno. `dangling` is what a handler has for a pointer to a deleted connection, and `spinning` for a
-- loop that does not end.
use l7_loadbalancer.Base.{ℕ, ◌+◌, ◌*◌, ◌/◌, ◌%◌, Bool, true, false, List, Option}
use l7_loadbalancer.Base.Assoc.{nat_eq}
use l7_loadbalancer.Types.{Statistics}
use l7_loadbalancer.Servers

-- The results of `ff_connect`, `ff_read` and `ff_write` that the code tells apart. A read of no bytes
-- is the end of the stream.
pub data Connect : Type 0 where
  connected : Connect
  in_progress : Connect
  unreachable : Connect

pub data Read : Type 0 where
  got : List ℕ → Read
  nothing_yet : Read
  read_error : Read

pub data Write : Type 0 where
  wrote : ℕ → Write
  no_room : Write
  write_error : Write

pub record Sockets (World : Type 0) : Type 0 where
  pub socket : World → World × Option ℕ
  pub get_flags : World → ℕ → World × ℕ
  pub set_flags : World → ℕ → ℕ → World
  pub reuse_addr : World → ℕ → World
  pub connect : World → ℕ → ℕ → ℕ → World × Connect
  pub accept : World → ℕ → World × Option (ℕ × ℕ × ℕ)
  pub close : World → ℕ → World
  pub epoll_add : World → ℕ → World
  pub epoll_del : World → ℕ → World
  pub read : World → ℕ → ℕ → World × Read
  pub write : World → ℕ → List ℕ → World × Write

-- The two buffers, which no code uses, are left out.
pub record Connection : Type 0 where
  pub client_fd : ℕ
  pub backend_fd : ℕ
  pub server_id : ℕ
  pub client_connected : Bool
  pub backend_connected : Bool
  pub client_buf_len : ℕ
  pub backend_buf_len : ℕ

-- The global variables that the handlers use, with the heap that `new` and `delete` work on. Pointer
-- 0 is null, and `next` is the next one that `new` gives.
pub record Proxy (World : Type 0) : Type 0 where
  pub world : World
  pub listen_fd : ℕ
  pub vip : ℕ
  pub servers : Servers.Manager
  pub connections : List (ℕ × ℕ)
  pub heap : List (ℕ × Connection)
  pub next : ℕ
  pub stats : Statistics

-- An epoll event: the descriptor, and whether EPOLLIN, EPOLLOUT, EPOLLERR and EPOLLHUP are set.
pub record Event : Type 0 where
  pub fd : ℕ
  pub readable : Bool
  pub writable : Bool
  pub error : Bool
  pub hangup : Bool

pub data Outcome {ℓ} (A : Type ℓ) : Type ℓ where
  returned : A → Outcome A
  dangling : Outcome A
  spinning : Outcome A

pub data Sent : Type 0 where
  finished : Sent
  blocked : Sent
  failed : Sent
  unfinished : Sent

unfoldable pub and_then {ℓ κ} : {A : Type ℓ} {B : Type κ} → Outcome A → (A → Outcome B) → Outcome B
and_then (returned a) f = f a
and_then dangling f = dangling
and_then spinning f = spinning

-- A port in network order on a little-endian machine.
abbrev pub htons : ℕ → ℕ
htons p = p % 256 * 256 + p / 256 % 256

abbrev pub o_nonblock : ℕ
o_nonblock = 2048

abbrev pub is_unreachable : Connect → Bool
is_unreachable unreachable = true
is_unreachable _ = false
