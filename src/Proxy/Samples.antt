-- ===== src/Proxy/Samples.antt =====
-- A network stack that takes one byte in each write, and that keeps what is asked of one.
use l7_loadbalancer.Base.{
  ltb, none, ℕ, ◌+◌, ◌≤◌, ◌≡◌, refl, sym, ◌≢◌, true, List, [], ◌∷◌, ◌++◌, some, arith, length, take,
  if◌then◌else◌, ◌==◌,
}
use l7_loadbalancer.Base.Assoc.{nat_eq}
use l7_loadbalancer.Proxy.State.{Sockets, connected, got, Write, wrote, no_room, write_error}
use l7_loadbalancer.Proxy.Forward.{Writes}
use l7_loadbalancer.Proxy.Safety.{Descriptors}

-- The descriptors up to `top` have been given out, 100 at most; `out` is what each has been sent.
pub record Stack : Type 0 where
  pub top : ℕ
  pub out : ℕ → List ℕ

abbrev pub take_byte : Stack → ℕ → List ℕ → Stack × Write
take_byte w fd [] = (w, wrote 0)
take_byte w fd (b ∷ bs) =
    (record w { out = λ g. if fd == g then w.out g ++ b ∷ [] else w.out g }, wrote 1)

abbrev pub grow : Stack → Stack
grow w = record w { top = w.top + 1 }

abbrev pub stack : Sockets Stack
stack = record {
  socket = λ w. if ltb w.top 100 then (grow w, some (w.top + 1)) else (w, none);
  get_flags = λ w fd. (w, 2);
  set_flags = λ w fd flags. w;
  reuse_addr = λ w fd. w;
  connect = λ w fd ip port. (w, connected);
  accept = λ w l. if ltb w.top 100 then (grow w, some (w.top + 1, 0x01020304, 80)) else (w, none);
  close = λ w fd. w;
  epoll_add = λ w fd. w;
  epoll_del = λ w fd. w;
  read = λ w fd n. (w, got (b'a' ∷ b'b' ∷ b'c' ∷ []));
  write = take_byte;
}

abbrev pub Given : Stack → ℕ → Type 0
Given w fd = (fd ≤ w.top) × (fd ≤ 100)

abbrev pub sent_to : Stack → ℕ → List ℕ
sent_to w fd = w.out fd

pub take_byte_lem :
    (w : Stack) (fd k : ℕ) (bs : List ℕ)
    → bs ≢ []
    → (take_byte w fd bs).1 ≡ wrote k
    → (1 ≤ k) × (k ≤ length bs) × (sent_to (take_byte w fd bs).0 fd ≡ sent_to w fd ++ take k bs)
take_byte_lem w fd k [] h e = absurd (h refl)
take_byte_lem w fd k (b ∷ bs) h e =
    let k1 : 1 ≡ k = cc in
    let self : (fd == fd) ≡ true = ground arith in
    rw (sym k1, self) (omega arith, omega arith, refl)

pub take_byte_room : (w : Stack) (fd : ℕ) (bs : List ℕ) → (take_byte w fd bs).1 ≢ no_room
take_byte_room w fd [] e = cc
take_byte_room w fd (b ∷ bs) e = cc

take_byte_error : (w : Stack) (fd : ℕ) (bs : List ℕ) → (take_byte w fd bs).1 ≢ write_error
take_byte_error w fd [] e = cc
take_byte_error w fd (b ∷ bs) e = cc

pub stack-Writes : Writes stack sent_to
stack-Writes = record {
  takes = take_byte_lem;
  no_room_law = λ w fd bs e. absurd (take_byte_room w fd bs e);
  write_error_law = λ w fd bs e. absurd (take_byte_error w fd bs e);
}

take_byte_keeps :
    (w : Stack) (fd : ℕ) (bs : List ℕ) (g : ℕ) → Given w g → Given (take_byte w fd bs).0 g
take_byte_keeps w fd [] g h = h
take_byte_keeps w fd (b ∷ bs) g h = h

pub stack-Descriptors : Descriptors stack Given
stack-Descriptors = record {
  socket_new = λ w fd e. grind arith;
  accept_new = λ w l fd addr port e. grind arith;
  close_other = λ w fd g ne h. h;
  socket_keeps = λ w g h. grind arith;
  accept_keeps = λ w l g h. grind arith;
  get_flags_keeps = λ w fd g h. h;
  set_flags_keeps = λ w fd flags g h. h;
  reuse_addr_keeps = λ w fd g h. h;
  connect_keeps = λ w fd ip port g h. h;
  epoll_add_keeps = λ w fd g h. h;
  epoll_del_keeps = λ w fd g h. h;
  read_keeps = λ w fd n g h. h;
  write_keeps = take_byte_keeps;
}
