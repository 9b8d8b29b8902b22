-- ===== src/Ring/Mpmc/Slots.antt =====
-- What the sequence number of a slot says, and what a thread may rely on at its place.
use native.Mathlib.Nat.{mod-add-mod, add-mod_right, div-add-mod}
use l7_loadbalancer.Base.{
  ℕ, ◌+◌, ◌*◌, ◌/◌, ◌%◌, ◌^◌, ◌≤◌, ◌<◌, ◌≡◌, sym, ap, ◌∙◌, ◌≢◌, ◌⊎◌, inl, inr, List, some, arith,
  length, get_elem?, get_or, dec_lt,
}
use l7_loadbalancer.Ring.Size.{mod_bump}
use l7_loadbalancer.Ring.Mpmc.{Slot, Mpmc, equal, diff}
use l7_loadbalancer.Ring.Mpmc.Threads.{
  Thread, idle, pushing, push_loaded, push_seen, push_won, push_written, popping, pop_loaded,
  pop_seen, pop_won, pop_taken,
}

-- Neighbouring places have different slots.
pub next_slot : {size : ℕ} → 2 ≤ size → (k : ℕ) → (k + 1) % size ≢ k % size
next_slot {size} two k e =
    let step : (k % size + 1) % size ≡ (k + 1) % size = mod-add-mod k size 1 in
    elim (mod_bump size (k % size) (omega arith)) [
      | inl (q, _) ↦ omega arith
      | inr (q, full) ↦ omega arith
    ]

-- Two places of one slot that are less than a round apart are the same place.
pub same_slot : (size k t : ℕ) → k % size ≡ t % size → k < t + size → k ≤ t
same_slot size k t e h = elim (dec_lt t k) [
  | no p ↦ omega arith
  | yes p ↦
      let dk : size * (k / size) + k % size ≡ k = div-add-mod k size in
      let dt : size * (t / size) + t % size ≡ t = div-add-mod t size in
      elim (dec_lt (t / size) (k / size)) [
        | yes more ↦ absurd (grind arith)
        | no less ↦ absurd (grind arith)
      ]
]

-- A round on is the same slot.
pub round_slot : (size k : ℕ) → (k + size) % size ≡ k % size
round_slot size k = add-mod_right k size

pub diff-equal : (seq pos : ℕ) → seq < 2 ^ 64 → pos < 2 ^ 64 → diff seq pos ≡ equal → seq ≡ pos
unfolding diff
diff-equal seq pos hs hp e = ground arith

module _ {A : Type 0} (d : A) (size : ℕ) where
  abbrev pub blank_slot : Slot A
  blank_slot = record { sequence = 0; value = d }

  -- The slot of a place.
  abbrev pub slot_at : Mpmc A → ℕ → Slot A
  slot_at r pos = get_or r.buffer (pos % size) blank_slot

  -- A slot that waits for the item of place `k`, or that holds it: then the item is the one logged there, until a
  -- `pop` has won the place.
  abbrev pub Waits : Mpmc A → List A → Slot A → ℕ → Type 0
  Waits r log s k = (s.sequence ≡ k) × (k < r.head + size)

  abbrev pub Holds : Mpmc A → List A → Slot A → ℕ → Type 0
  Holds r log s k =
      (s.sequence ≡ k + 1) × (k < r.tail) × (r.head ≤ k → get_elem? log k ≡ some s.value)

  abbrev pub SlotOk : Mpmc A → List A → ℕ → Slot A → Type 0
  SlotOk r log i s = (k : ℕ) × (k % size ≡ i) × (Waits r log s k ⊎ Holds r log s k)

  pub record Shared (r : Mpmc A) (log : List A) : Type 0 where
    pub order : r.head ≤ r.tail
    pub room : r.tail ≤ r.head + size
    pub counted : r.tail ≡ length log
    pub fits : length log + size < 2 ^ 64
    pub storage : length r.buffer ≡ size
    pub slots : (i : ℕ) → i < size → SlotOk r log i (get_or r.buffer i blank_slot)

  -- What a thread may rely on where it stands.
  abbrev pub Local : Mpmc A → List A → Thread A → Type 0
  Local r log idle = Unit
  Local r log (pushing x) = Unit
  Local r log (push_loaded x pos) = pos ≤ r.tail
  Local r log (push_seen x pos seq) = (pos ≤ r.tail) × (seq ≤ (slot_at r pos).sequence)
  Local r log (push_won x pos) =
      (pos < r.tail) × ((slot_at r pos).sequence ≡ pos) × (get_elem? log pos ≡ some x)
  Local r log (push_written x pos) =
      (pos < r.tail)
      × ((slot_at r pos).sequence ≡ pos)
      × (get_elem? log pos ≡ some x)
      × ((slot_at r pos).value ≡ x)
  Local r log popping = Unit
  Local r log (pop_loaded pos) = pos ≤ r.head
  Local r log (pop_seen pos seq) = (pos ≤ r.head) × (seq ≤ (slot_at r pos).sequence)
  Local r log (pop_won pos) =
      (pos < r.head)
      × ((slot_at r pos).sequence ≡ pos + 1)
      × (get_elem? log pos ≡ some (slot_at r pos).value)
  Local r log (pop_taken pos y) =
      (pos < r.head) × ((slot_at r pos).sequence ≡ pos + 1) × (get_elem? log pos ≡ some y)

  -- The sequence number of a slot is at most that of the place after which it is next claimed.
  pub sequence-le :
      (r : Mpmc A) (log : List A) (pos : ℕ)
      → 2 ≤ size
      → Shared r log
      → ((slot_at r pos).sequence < 2 ^ 64)
  sequence-le r log pos two w = go (w.slots (pos % size) (omega arith))
    where
      go : SlotOk r log (pos % size) (slot_at r pos) → (slot_at r pos).sequence < 2 ^ 64
      go (k, e, inl (q, h)) = omega (arith, w.order, w.counted, w.fits)
      go (k, e, inr (q, h, _)) = omega (arith, w.order, w.counted, w.fits)

  -- At the tail a slot whose number has come up to the tail waits for just that place.
  pub tail_waits :
      (r : Mpmc A) (log : List A)
      → 2 ≤ size
      → Shared r log
      → r.tail ≤ (slot_at r r.tail).sequence
      → ((slot_at r r.tail).sequence ≡ r.tail) × (r.tail < r.head + size)
  tail_waits r log two w low = go (w.slots (r.tail % size) (omega arith))
    where
      go :
          SlotOk r log (r.tail % size) (slot_at r r.tail)
          → ((slot_at r r.tail).sequence ≡ r.tail) × (r.tail < r.head + size)
      go (k, e, inl (q, h)) =
          let back = same_slot size k r.tail e (omega (arith, w.order)) in
          (omega arith, omega arith)
      go (k, e, inr (q, h, _)) =
          let here : k + 1 ≡ r.tail = omega arith in
          absurd (next_slot two k (ap (λ t. t % size) here ∙ sym e))

  -- At the head a slot whose number has come past the head holds the item of just that place.
  pub head_holds :
      (r : Mpmc A) (log : List A)
      → 2 ≤ size
      → Shared r log
      → r.head + 1 ≤ (slot_at r r.head).sequence
      → ((slot_at r r.head).sequence ≡ r.head + 1)
        × (r.head < r.tail)
        × (get_elem? log r.head ≡ some (slot_at r r.head).value)
  head_holds r log two w low = go (w.slots (r.head % size) (omega arith))
    where
      go :
          SlotOk r log (r.head % size) (slot_at r r.head)
          → ((slot_at r r.head).sequence ≡ r.head + 1)
            × (r.head < r.tail)
            × (get_elem? log r.head ≡ some (slot_at r r.head).value)
      go (k, e, inl (q, h)) = let back = same_slot size k r.head e h in absurd (omega arith)
      go (k, e, inr (q, h, held)) =
          let back = same_slot size k r.head e (omega (arith, w.room)) in
          let here : k ≡ r.head = omega arith in
          (omega arith, omega arith, ap (get_elem? log) (sym here) ∙ held (omega arith))
