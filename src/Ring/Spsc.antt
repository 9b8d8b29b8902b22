-- ===== src/Ring/Spsc.antt =====
-- SPSCRingBuffer of include/core/ring_buffer.h, one call after another. Its members `head_`, `tail_`
-- and `buffer_` are the fields; the atomic loads and stores are reads and writes. `moved` gives what
-- a move leaves behind in a slot, which C++ leaves open.
pub mod Window
pub mod Refine
pub mod Threads
use Prim.Native.Nat.{bit_and}
use l7_loadbalancer.Base.{
  ℕ, ◌+◌, ◌-◌, Bool, true, false, List, Option, none, some, ◌==◌, if◌then◌else◌, u64, sub64,
  replicate, get_elem?, set,
}
use l7_loadbalancer.Ring.Queue.{Outcome, refused, fault, item}

pub record Spsc {ℓ} (A : Type ℓ) : Type ℓ where
  pub head : ℕ
  pub tail : ℕ
  pub buffer : List A

-- `(i + 1) & (Size - 1)`
unfoldable pub next : ℕ → ℕ → ℕ
next size i = bit_and (u64 (i + 1)) (size - 1)

module _ {ℓ} {A : Type ℓ} (size : ℕ) where
  -- The constructor; `blank` is the value-initialised element.
  unfoldable pub new : A → Spsc A
  new blank = record { head = 0; tail = 0; buffer = replicate size blank }

  -- `buffer_[current_tail] = item`
  unfoldable pub write_tail : Spsc A → A → Spsc A
  write_tail r x = record r { buffer = set r.buffer r.tail x }

  -- `tail_.store(next_tail)`
  unfoldable pub advance_tail : Spsc A → Spsc A
  advance_tail r = record r { tail = next size r.tail }

  -- Both overloads of `push`, which differ in how the caller's item is left.
  unfoldable pub push : Spsc A → A → Spsc A × Bool
  unfolding write_tail advance_tail
  push r x =
      if next size r.tail == r.head then (r, false) else (advance_tail (write_tail r x), true)

  -- What `item = std::move(buffer_[current_head])` leaves.
  unfoldable pub leave_head : Spsc A → A → Spsc A
  leave_head r x = record r { buffer = set r.buffer r.head x }

  -- `head_.store(next_head)`
  unfoldable pub advance_head : Spsc A → Spsc A
  advance_head r = record r { head = next size r.head }

  take_item : (A → A) → Spsc A → Option A → Spsc A × Outcome A
  take_item moved r none = (r, fault)
  take_item moved r (some x) = (advance_head (leave_head r (moved x)), item x)

  unfoldable pub pop : (A → A) → Spsc A → Spsc A × Outcome A
  unfolding take_item leave_head advance_head
  pop moved r =
      if r.head == r.tail then (r, refused) else take_item moved r (get_elem? r.buffer r.head)

  unfoldable pub peek : Spsc A → Outcome A
  peek r =
      if r.head == r.tail
      then refused
      else elim (get_elem? r.buffer r.head) [ none ↦ fault | some x ↦ item x ]

  -- `size_t size() const`
  unfoldable pub count : Spsc A → ℕ
  count r = bit_and (u64 (sub64 r.tail r.head + size)) (size - 1)

  unfoldable pub empty : Spsc A → Bool
  empty r = r.head == r.tail

  unfoldable pub full : Spsc A → Bool
  full r = next size r.tail == r.head

unfoldable pub capacity : ℕ → ℕ
capacity size = size - 1
