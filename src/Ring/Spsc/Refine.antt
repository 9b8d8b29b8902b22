-- ===== src/Ring/Spsc/Refine.antt =====
-- A single-producer queue used by one call after another is the bounded queue of its entries.
use Prim.Native.Nat.{bit_and}
use native.Mathlib.Nat.{mod-eq_of_lt, mod-eq-sub-mod}
use l7_loadbalancer.Base.{
  ℕ, suc, ◌+◌, ◌-◌, ◌%◌, ◌<◌, ◌≡◌, refl, sym, ◌∙◌, ◌≢◌, List, [], ◌∷◌, ◌++◌, arith, dec_lt, length,
  get_or, get_elem?-eq-get_or, get_or-set_self, set, length-set, length-replicate, ltb, ◌==◌, u64,
  sub64, if◌then◌else◌,
}
use l7_loadbalancer.Ring.Size.{step_shift, IsSize, IsSize-le, mask-eq-mod, mod_bump}
use l7_loadbalancer.Ring.Queue
use l7_loadbalancer.Ring.Queue.{Outcome, refused, item}
use l7_loadbalancer.Ring.Spsc.{Spsc, next, new, push, pop, peek, count, empty, full, capacity}
use l7_loadbalancer.Ring.Spsc.Window.{window, length-window, window_snoc, window-set}

pub next-eq : {size i : ℕ} → IsSize size → i < size → next size i ≡ (i + 1) % size
unfolding next
next-eq {size} {i} v h = let e : u64 (i + 1) ≡ i + 1 = omega arith in rw e (mask-eq-mod (i + 1) v)

-- The entries from `h` up to `t`, going round at `size`.
unfoldable pub used : ℕ → ℕ → ℕ → ℕ
used size h t = if ltb t h then t + size - h else t - h

pub used_lem :
    {size h t : ℕ} → h < size → t < size → ((h + used size h t) % size ≡ t) × (used size h t < size)
unfolding used
used_lem {size} {h} {t} hh ht = elim (dec_lt t h) [
  | yes p ↦ ground (
    arith,
    mod-eq-sub-mod {n = h + (t + size - h)} {m = size},
    mod-eq_of_lt {n = h + (t + size - h) - size} {m = size},
  )
  | no p ↦ ground (arith, mod-eq_of_lt {n = h + (t - h)} {m = size})
]

-- One step on at the end, one step on at the start.
pub used_push :
    {size h t : ℕ}
    → h < size
    → t < size
    → (t + 1) % size ≢ h
    → (used size h ((t + 1) % size) ≡ suc (used size h t)) × (suc (used size h t) < size)
unfolding used
used_push {size} {h} {t} hh ht ne = ground (arith, mod_bump size t ht)

used_full : {size h t : ℕ} → h < size → t < size → (t + 1) % size ≡ h → suc (used size h t) ≡ size
unfolding used
used_full {size} {h} {t} hh ht e = ground (arith, mod_bump size t ht)

pub used_pop :
    {size h t : ℕ}
    → h < size
    → t < size
    → h ≢ t
    → used size h t ≡ suc (used size ((h + 1) % size) t)
unfolding used
used_pop {size} {h} {t} hh ht ne = ground (arith, mod_bump size h hh)

pub used_self : (size h : ℕ) → used size h h ≡ 0
unfolding used
used_self size h = ground arith

-- The indices stand inside the storage, whose size never changes.
pub record IsValid {ℓ} {A : Type ℓ} (size : ℕ) (r : Spsc A) : Type 0 where
  pub head_in : r.head < size
  pub tail_in : r.tail < size
  pub storage : length r.buffer ≡ size

module _ {ℓ} {A : Type ℓ} (d : A) (size : ℕ) where
  -- What the ring holds, oldest first; `d` stands for a read out of range.
  abbrev pub contents : Spsc A → List A
  contents r = window d size r.buffer r.head (used size r.head r.tail)

  pub length-contents : (r : Spsc A) → length (contents r) ≡ used size r.head r.tail
  length-contents r = length-window d size r.buffer r.head (used size r.head r.tail)

  -- Moving the tail on adds the entry that stands there.
  pub window_grow :
      (b : List A) (h t : ℕ)
      → h < size
      → t < size
      → (t + 1) % size ≢ h
      → window d size b h (used size h ((t + 1) % size))
        ≡ window d size b h (used size h t) ++ get_or b t d ∷ []
  window_grow b h t hh ht ne =
      rw ((used_push hh ht ne).0, window_snoc d size b h (used size h t) hh, (used_lem hh ht).0)
        refl

  -- Writing at the tail adds nothing by itself.
  pub window_store :
      (b : List A) (x : A) (h t : ℕ)
      → h < size
      → t < size
      → window d size (set b t x) h (used size h t) ≡ window d size b h (used size h t)
  window_store b x h t hh ht =
      let (reach, inside) = used_lem hh ht in
      window-set d size b x t h (used size h t) (used size h t) hh (omega arith) inside (sym reach)

  -- Writing at the tail and moving it on adds the entry at the end.
  window_push :
      (b : List A) (x : A) (h t : ℕ)
      → h < size
      → t < size
      → length b ≡ size
      → (t + 1) % size ≢ h
      → window d size (set b t x) h (used size h ((t + 1) % size))
        ≡ window d size b h (used size h t) ++ x ∷ []
  window_push b x h t hh ht hb ne =
      rw
        (
          window_grow (set b t x) h t hh ht ne,
          get_or-set_self b t x d (omega arith),
          window_store b x h t hh ht,
        )
        refl

  -- Leaving any value behind at the head and moving it on drops the first entry.
  pub window_pop :
      (b : List A) (x : A) (h t : ℕ)
      → h < size
      → t < size
      → h ≢ t
      → window d size b h (used size h t)
        ≡ get_or b h d ∷ window d size (set b h x) ((h + 1) % size) (used size ((h + 1) % size) t)
  window_pop b x h t hh ht ne =
      rw
        (
          used_pop hh ht ne,
          window-set d size b x h ((h + 1) % size) (used size ((h + 1) % size) t) (size - 1)
              (omega arith) (omega (arith, (used_lem {h = (h + 1) % size} (omega arith) ht).1))
              (omega arith) (sym (round_trip h hh)),
        )
        refl
    where
      round_trip : (h : ℕ) → h < size → ((h + 1) % size + (size - 1)) % size ≡ h
      round_trip h hh = omega (
        arith,
        step_shift size h (size - 1),
        mod-eq-sub-mod {n = h + suc (size - 1)} {m = size} (omega arith),
        mod-eq_of_lt {n = h + suc (size - 1) - size} {m = size} (omega arith),
      )

-- The masked difference of the indices, with the wrap of `size_t`, is the number of entries.
count_used :
    {size h t : ℕ}
    → IsSize size
    → h < size
    → t < size
    → bit_and (u64 (sub64 t h + size)) (size - 1) ≡ used size h t
unfolding used
count_used {size} {h} {t} v hh ht = rw (mask-eq-mod (u64 (sub64 t h + size)) v) (elim (dec_lt t h) [
  | yes p ↦
      let e : u64 (sub64 t h + size) ≡ t + size - h = omega (arith, IsSize-le v) in
      rw e (ground (arith, mod-eq_of_lt {n = t + size - h} {m = size}))
  | no p ↦
      let e : u64 (sub64 t h + size) ≡ t - h + size = omega (arith, IsSize-le v) in
      rw e (
        ground (
          arith,
          mod-eq-sub-mod {n = t - h + size} {m = size},
          mod-eq_of_lt {n = t - h} {m = size},
        ))
])

module _ {A : Type 0} (d : A) {size : ℕ} (v : IsSize size) where
  -- The constructor gives a valid, empty ring.
  pub new_lem :
      (blank : A) → IsValid size (new size blank) × (contents d size (new size blank) ≡ [])
  unfolding new
  new_lem blank = (
    record {
      head_in = omega (arith, v.two_le);
      tail_in = omega (arith, v.two_le);
      storage = length-replicate size blank;
    },
    rw (used_self size 0) refl,
  )

  -- On a ring in a valid state `push` answers as the bounded queue of capacity `Size - 1` does, and
  -- leaves the ring valid and holding what that queue holds.
  pub push_refines :
      (r : Spsc A) (x : A)
      → IsValid size r
      → let (r', done) = push size r x in
        IsValid size r'
        × ((contents d size r', done) ≡ Queue.push (capacity size) (contents d size r) x)
  unfolding push Queue.push capacity
  push_refines r x w = ground (
    arith,
    next-eq {i = r.tail} v,
    length-contents d size r,
    length-set r.buffer r.tail x,
    used_full {size = size} {h = r.head} {t = r.tail},
    used_push {size = size} {h = r.head} {t = r.tail},
    window_push d size r.buffer x r.head r.tail,
  )

  -- On a ring in a valid state `pop` answers as the queue does, never reads outside the storage, and
  -- leaves the ring valid and holding the rest, whatever a move leaves behind in the slot.
  pub pop_refines :
      (moved : A → A) (r : Spsc A)
      → IsValid size r
      → let (r', out) = pop size moved r in
        IsValid size r' × ((contents d size r', out) ≡ Queue.pop (contents d size r))
  unfolding pop Queue.pop
  pop_refines moved r w = ground (
    arith,
    next-eq {i = r.head} v,
    used_self size r.head,
    get_elem?-eq-get_or r.buffer r.head d,
    length-set r.buffer r.head (moved (get_or r.buffer r.head d)),
    window_pop d size r.buffer (moved (get_or r.buffer r.head d)) r.head r.tail,
  )

  -- `peek` shows what `pop` would give; `size`, `empty` and `full` measure the queue.
  queries_lem :
      (moved : A → A) (r : Spsc A)
      → IsValid size r
      → (peek size r ≡ (pop size moved r).1)
        × (count size r ≡ length (contents d size r))
        × (empty size r ≡ (length (contents d size r) == 0))
        × (full size r ≡ (length (contents d size r) == capacity size))
  unfolding pop peek count empty full capacity
  queries_lem moved r w = (
    ground (arith, get_elem?-eq-get_or r.buffer r.head d),
    count_used v w.head_in w.tail_in ∙ sym (length-contents d size r),
    ground (
      arith,
      length-contents d size r,
      used_self size r.head,
      used_pop {size = size} {h = r.head} {t = r.tail},
    ),
    ground (
      arith,
      length-contents d size r,
      next-eq {i = r.tail} v,
      used_full {size = size} {h = r.head} {t = r.tail},
      used_push {size = size} {h = r.head} {t = r.tail},
    ),
  )
