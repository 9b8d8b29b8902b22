-- ===== src/Ring/Mpmc.antt =====
-- MPMCRingBuffer of include/core/ring_buffer.h. Its members `head_`, `tail_` and `buffer_` are the fields.
-- The difference of two indices as `intptr_t` is read off their difference as `size_t`. `push` and
-- `pop` are one call after another, where the compare-and-exchange finds what was just read and takes
-- it (Mpmc/Threads has the calls of several threads). `none` is a loop that outlives its fuel, and in `push` an index outside the storage. `moved` is
-- what a move leaves behind in a slot.
pub mod Threads
pub mod Slots
pub mod Frame
pub mod Moves
pub mod Claims
pub mod Accesses
pub mod Safety
pub mod Delivered
pub mod Between
pub mod Entries
pub mod Refine
mod Tests
use Prim.Native.Nat.{bit_and}
use l7_loadbalancer.Base.{
  ℕ, zero, suc, ◌+◌, ◌-◌, ◌^◌, Bool, true, false, List, [], ◌∷◌, Option, none, some, ltb, ◌==◌,
  if◌then◌else◌, u64, sub64, get_elem?, modify,
}
use l7_loadbalancer.Ring.Queue.{Outcome, refused, fault, item}

pub record Slot {ℓ} (A : Type ℓ) : Type ℓ where
  pub sequence : ℕ
  pub value : A

pub record Mpmc {ℓ} (A : Type ℓ) : Type ℓ where
  pub head : ℕ
  pub tail : ℕ
  pub buffer : List (Slot A)

-- The sign of `diff`.
pub data Diff : Type 0 where
  below equal above : Diff

unfoldable pub diff : ℕ → ℕ → Diff
diff seq pos =
    if sub64 seq pos == 0 then equal else if ltb (sub64 seq pos) (2 ^ 63) then above else below

-- `pos & (Size - 1)`
unfoldable pub slot_index : ℕ → ℕ → ℕ
slot_index size pos = bit_and pos (size - 1)

module _ {ℓ} {A : Type ℓ} (size : ℕ) where
  -- The slots from number `i` on.
  unfoldable pub numbered : ℕ → ℕ → A → List (Slot A)
  numbered i zero blank = []
  numbered i (suc n) blank = record { sequence = i; value = blank } ∷ numbered (i + 1) n blank

  -- The constructor; `blank` is the value-initialised element.
  unfoldable pub new : A → Mpmc A
  new blank = record { head = 0; tail = 0; buffer = numbered 0 size blank }

  -- The compare-and-exchange that succeeds, on `tail_` and on `head_`.
  unfoldable pub claim_tail : Mpmc A → ℕ → Mpmc A
  claim_tail r pos = record r { tail = u64 (pos + 1) }

  unfoldable pub claim_head : Mpmc A → ℕ → Mpmc A
  claim_head r pos = record r { head = u64 (pos + 1) }

  -- `slot->data = item`, and what `std::move(slot->data)` leaves.
  unfoldable pub write_data : Mpmc A → ℕ → A → Mpmc A
  write_data r pos x = record r {
    buffer = modify r.buffer (slot_index size pos) (λ s. record s { value = x });
  }

  -- `slot->sequence.store(seq)`
  unfoldable pub store_sequence : Mpmc A → ℕ → ℕ → Mpmc A
  store_sequence r pos seq = record r {
    buffer = modify r.buffer (slot_index size pos) (λ s. record s { sequence = seq });
  }

  -- What follows the loop of `push`.
  unfoldable pub fill : Mpmc A → ℕ → A → Mpmc A
  unfolding claim_tail write_data store_sequence
  fill r pos x = store_sequence (write_data (claim_tail r pos) pos x) pos (u64 (pos + 1))

  -- The loop of `push`, with the rounds allowed first.
  unfoldable pub push : ℕ → Mpmc A → A → Option (Mpmc A × Bool)
  push zero r x = none
  push (suc fuel) r x =
      let again = push fuel r x in
      elim (get_elem? r.buffer (slot_index size r.tail)) [
        | none ↦ none
        | some s ↦ elim (diff s.sequence r.tail) [
          | equal ↦ some (fill r r.tail x, true)
          | below ↦ some (r, false)
          | above ↦ again
        ]
      ]

  -- What follows the loop of `pop`.
  unfoldable pub drain : (A → A) → Mpmc A → ℕ → A → Mpmc A
  unfolding claim_head write_data store_sequence
  drain moved r pos y =
      store_sequence (write_data (claim_head r pos) pos (moved y)) pos (u64 (pos + size))

  unfoldable pub pop : (A → A) → ℕ → Mpmc A → Option (Mpmc A × Outcome A)
  pop moved zero r = none
  pop moved (suc fuel) r =
      let again = pop moved fuel r in
      elim (get_elem? r.buffer (slot_index size r.head)) [
        | none ↦ some (r, fault)
        | some s ↦ elim (diff s.sequence (u64 (r.head + 1))) [
          | equal ↦ some (drain moved r r.head s.value, item s.value)
          | below ↦ some (r, refused)
          | above ↦ again
        ]
      ]

  -- `size_t size() const`
  unfoldable pub count : Mpmc A → ℕ
  count r = sub64 r.tail r.head

  unfoldable pub empty : Mpmc A → Bool
  unfolding count
  empty r = count r == 0

unfoldable pub capacity : ℕ → ℕ
capacity size = size
