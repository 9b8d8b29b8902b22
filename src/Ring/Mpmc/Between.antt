-- ===== src/Ring/Mpmc/Between.antt =====
-- The states of a queue for many threads between one call and the next.
-- The indices may wrap: `first` and `fresh` are the places at the head and the tail without the wrap.
use Prim.Native.Nat.{◌∣◌}
use native.Mathlib.Nat.{
  mod-mod_of_dvd, dvd_refl, dvd-mul_right_of_dvd, pow-le-pow_right, pow-suc, add-zero,
  add-mod_right,
}
use l7_loadbalancer.Base.{
  ℕ, zero, suc, ◌+◌, ◌-◌, ◌%◌, ◌^◌, ◌≤◌, ◌<◌, ◌≡◌, refl, sym, ap, ◌∙◌, ◌≢◌, subst, List, [], ◌∷◌,
  some, arith, dec_lt, map, length, get_elem?, get_or, set, modify, length-set, get_elem?-eq-get_or,
  get_or-set_self, get_or-set_ne, u64, Bool-cases, inl, inr, ◌==◌,
}
use l7_loadbalancer.Ring.Size.{IsSize, IsSize-power, mask-eq-mod}
use l7_loadbalancer.Ring.Spsc.Window.{window}
use l7_loadbalancer.Ring.Mpmc.{Slot, Mpmc, below, equal, diff, slot_index, fill, drain, count}
use l7_loadbalancer.Ring.Mpmc.Slots.{blank_slot, slot_at, same_slot}

pow-dvd : (k m : ℕ) → 2 ^ k ∣ 2 ^ (k + m)
pow-dvd k zero = rw add-zero (dvd_refl (2 ^ k))
pow-dvd k (suc m) =
    rw (let e : k + suc m ≡ suc (k + m) = omega arith in e, pow-suc 2 (k + m))
      (dvd-mul_right_of_dvd (2 ^ k) (pow-dvd k m) 2)

IsSize-dvd : {size : ℕ} → IsSize size → size ∣ 2 ^ 64
IsSize-dvd {size} v =
    let (k, e) = IsSize-power v in
    let small : k ≤ 64 = elim (dec_lt 64 k) [
      | no p ↦ omega arith
      | yes p ↦ absurd (
          omega (
            arith,
            v.fits,
            e,
            pow-le-pow_right {n = 2} (omega arith) {i = 64} {j = k} (omega arith),
          ))
    ] in
    rw e (
      subst (λ n. 2 ^ k ∣ n) (ap (λ n. 2 ^ n) (let w : k + (64 - k) ≡ 64 = omega arith in w))
        (pow-dvd k (64 - k)))

-- The mask does not see the wrap of an index.
pub wrapped_index : {size : ℕ} (pos : ℕ) → IsSize size → slot_index size (u64 pos) ≡ pos % size
unfolding slot_index
wrapped_index {size} pos v = mask-eq-mod (u64 pos) v ∙ mod-mod_of_dvd size pos (IsSize-dvd v)

pub diff_same : (pos : ℕ) → diff pos pos ≡ equal
unfolding diff
diff_same pos = ground arith

-- A sequence number that is less than 2^63 places behind, wrapped or not.
pub diff_behind : (a b : ℕ) → a < b → b ≤ a + 2 ^ 63 → diff (u64 a) (u64 b) ≡ below
unfolding diff
diff_behind a b h far = ground arith

-- The places from `first` up to `fresh` hold items, the others up to a round on wait.
pub record IsValid {A : Type 0} (d : A) (size : ℕ) (r : Mpmc A) : Type 0 where
  pub first : ℕ
  pub fresh : ℕ
  pub head_is : r.head ≡ u64 first
  pub tail_is : r.tail ≡ u64 fresh
  pub order : first ≤ fresh
  pub room : fresh ≤ first + size
  pub storage : length r.buffer ≡ size
  pub held : (p : ℕ) → first ≤ p → p < fresh → (slot_at d size r p).sequence ≡ u64 (p + 1)
  pub free : (p : ℕ) → fresh ≤ p → p < first + size → (slot_at d size r p).sequence ≡ u64 p

module _ {A : Type 0} (d : A) {size : ℕ} (v : IsSize size) where
  -- What the queue holds, oldest first.
  abbrev pub contents : Mpmc A → List A
  contents r =
      map (λ s. s.value)
        (window (blank_slot d size) size r.buffer (slot_index size r.head) (count size r))

  pub count_lem :
      (r : Mpmc A) (first fresh : ℕ)
      → r.head ≡ u64 first
      → r.tail ≡ u64 fresh
      → first ≤ fresh
      → fresh ≤ first + size
      → count size r ≡ fresh - first
  unfolding count
  count_lem r first fresh h t o m = let f = v.fits in rw (h, t) (omega arith)

  pub slot_found :
      (r : Mpmc A) (p pos : ℕ)
      → length r.buffer ≡ size
      → pos ≡ u64 p
      → get_elem? r.buffer (slot_index size pos) ≡ some (slot_at d size r p)
  slot_found r p pos len e =
      let two = v.two_le in
      ap (get_elem? r.buffer) (ap (slot_index size) e ∙ wrapped_index p v)
      ∙ get_elem?-eq-get_or r.buffer (p % size) (blank_slot d size) (omega arith)

  -- Two changes of one slot are a write.
  modify_twice :
      (b : List (Slot A)) (i : ℕ) (f g : Slot A → Slot A) (s : Slot A)
      → i < length b
      → modify (modify b i f) i g ≡ set b i (g (f (get_or b i s)))
  modify_twice [] i f g s h = absurd (omega arith)
  modify_twice (x ∷ b) zero f g s h = refl
  modify_twice (x ∷ b) (suc i) f g s h = ap (◌∷◌ x) (modify_twice b i f g s (omega arith))

  -- What `push` leaves at place `p`, and what `pop` leaves there.
  abbrev pub filled : Mpmc A → ℕ → A → Mpmc A
  filled r p x = record r {
    tail = u64 (p + 1);
    buffer = set r.buffer (p % size) (record { sequence = u64 (p + 1); value = x });
  }

  abbrev pub drained : Mpmc A → ℕ → A → Mpmc A
  drained r p z = record r {
    head = u64 (p + 1);
    buffer = set r.buffer (p % size) (record { sequence = u64 (p + size); value = z });
  }

  store_twice :
      (b : List (Slot A)) (p seq : ℕ) (x : A)
      → length b ≡ size
      → modify
          (modify b (slot_index size (u64 p)) (λ s. record s { value = x }))
          (slot_index size (u64 p))
          (λ s. record s { sequence = seq })
        ≡ set b (p % size) (record { sequence = seq; value = x })
  store_twice b p seq x len =
      let two = v.two_le in
      let f : Slot A → Slot A = λ s. record s { value = x } in
      let g : Slot A → Slot A = λ s. record s { sequence = seq } in
      ap (λ k. modify (modify b k f) k g) (wrapped_index p v)
      ∙ modify_twice b (p % size) f g (blank_slot d size) (omega arith)

  pub fill_lem :
      (r : Mpmc A) (p : ℕ) (x : A) → length r.buffer ≡ size → fill size r (u64 p) x ≡ filled r p x
  unfolding fill
  fill_lem r p x len =
      let up : u64 (u64 p + 1) ≡ u64 (p + 1) = omega arith in
      let buf =
        store_twice r.buffer p (u64 (u64 p + 1)) x len
        ∙ ap (λ n. set r.buffer (p % size) (record { sequence = n; value = x })) up in
      λ i. record r { tail = up i; buffer = buf i }

  pub drain_lem :
      (moved : A → A) (r : Mpmc A) (p : ℕ) (y : A)
      → length r.buffer ≡ size
      → drain size moved r (u64 p) y ≡ drained r p (moved y)
  unfolding drain
  drain_lem moved r p y len =
      let up : u64 (u64 p + 1) ≡ u64 (p + 1) = omega arith in
      let on : u64 (u64 p + size) ≡ u64 (p + size) = omega arith in
      let buf =
        store_twice r.buffer p (u64 (u64 p + size)) (moved y) len
        ∙ ap (λ n. set r.buffer (p % size) (record { sequence = n; value = moved y })) on in
      λ i. record r { head = up i; buffer = buf i }

  -- A write at place `q` as place `p` sees it.
  pub written_here :
      (b : List (Slot A)) (p q : ℕ) (s : Slot A)
      → length b ≡ size
      → p ≡ q
      → get_or (set b (q % size) s) (p % size) (blank_slot d size) ≡ s
  written_here b p q s len e =
      let two = v.two_le in
      ap (λ k. get_or (set b (q % size) s) (k % size) (blank_slot d size)) e
      ∙ get_or-set_self b (q % size) s (blank_slot d size) (omega arith)

  written_elsewhere :
      (b : List (Slot A)) (p q : ℕ) (s : Slot A)
      → p ≢ q
      → p < q + size
      → q < p + size
      → get_or (set b (q % size) s) (p % size) (blank_slot d size)
        ≡ get_or b (p % size) (blank_slot d size)
  written_elsewhere b p q s ne h k =
      get_or-set_ne b {i = q % size} {j = p % size} s (blank_slot d size)
        (λ e. omega (arith, same_slot size p q (sym e) h, same_slot size q p e k))

  pub filled-IsValid :
      (r : Mpmc A) (x : A) (w : IsValid d size r)
      → w.fresh < w.first + size
      → IsValid d size (filled r w.fresh x)
  filled-IsValid r x w room = record {
    first = w.first;
    fresh = w.fresh + 1;
    head_is = w.head_is;
    tail_is = refl;
    order = omega (arith, w.order);
    room = omega arith;
    storage = length-set r.buffer (w.fresh % size) _ ∙ w.storage;
    held = λ p lo hi. elim (Bool-cases (p == w.fresh)) [
      | inl e ↦
          let here : p ≡ w.fresh = ground arith in
          ap (λ s. s.sequence) (written_here r.buffer p w.fresh _ w.storage here)
          ∙ ap (λ n. u64 (n + 1)) (sym here)
      | inr e ↦
          let ne : p ≢ w.fresh = λ q. ground arith in
          ap (λ s. s.sequence)
            (written_elsewhere r.buffer p w.fresh _ ne (omega arith) (omega arith))
          ∙ w.held p lo (omega arith)
    ];
    free = λ p lo hi.
        ap (λ s. s.sequence)
          (written_elsewhere r.buffer p w.fresh _ (λ q. omega arith) (omega (arith, w.order))
            (omega arith))
        ∙ w.free p (omega arith) hi;
  }

  pub drained-IsValid :
      (r : Mpmc A) (z : A) (w : IsValid d size r)
      → w.first < w.fresh
      → IsValid d size (drained r w.first z)
  drained-IsValid r z w some_there = record {
    first = w.first + 1;
    fresh = w.fresh;
    head_is = refl;
    tail_is = w.tail_is;
    order = omega arith;
    room = omega (arith, w.room);
    storage = length-set r.buffer (w.first % size) _ ∙ w.storage;
    held = λ p lo hi.
        ap (λ s. s.sequence)
          (written_elsewhere r.buffer p w.first _ (λ q. omega arith) (omega (arith, w.room))
            (omega arith))
        ∙ w.held p (omega arith) hi;
    free = λ p lo hi. elim (Bool-cases (p == w.first + size)) [
      | inl e ↦
          let there : p ≡ w.first + size = ground arith in
          let round : p % size ≡ w.first % size =
            ap (λ n. n % size) there ∙ add-mod_right w.first size in
          ap
            (λ k.
              (get_or
                (set r.buffer (w.first % size)
                  (record { sequence = u64 (w.first + size); value = z }))
                k (blank_slot d size)).sequence)
            round
          ∙ ap (λ s. s.sequence) (written_here r.buffer w.first w.first _ w.storage refl)
          ∙ ap u64 (sym there)
      | inr e ↦
          let ne : p ≢ w.first + size = λ q. ground arith in
          ap (λ s. s.sequence)
            (written_elsewhere r.buffer p w.first _ (λ q. omega (arith, w.order)) (omega arith)
              (omega (arith, w.order)))
          ∙ w.free p lo (omega arith)
    ];
  }
