-- ===== src/Ring/Batch.antt =====
-- BatchRingBuffer of include/core/ring_buffer.h: loops of `push` and `pop` over either ring queue,
-- which enters through an interface of the two calls and the laws of a bounded queue.
use l7_loadbalancer.Base.{
  ℕ, zero, suc, ◌+◌, ◌-◌, ◌≤◌, ◌<◌, ◌≡◌, refl, ap, sym, ◌∙◌, Bool, true, false, List, [], ◌∷◌, ◌++◌,
  arith, dec_lt, ◌⊎◌, length, length-append, take, drop, inl, inr,
}
use Prim.Native.Nat.{min}
use native.Mathlib.Numerals.{add-one}
use mathlib.Core.List.{append_assoc, append-nil}
use l7_loadbalancer.Ring.Queue
use l7_loadbalancer.Ring.Queue.{Outcome, refused, fault, item}

pub record RingApi (A : Type 0) : Type 1 where
  pub State : Type 0
  pub Valid : State → Type 0
  pub contents : State → List A
  pub cap : ℕ
  pub push : State → A → State × Bool
  pub pop : State → State × Outcome A
  pub push_law :
      (s : State) (x : A)
      → Valid s
      → Valid (push s x).0
        × (((contents (push s x).0, (push s x).1)) ≡ Queue.push cap (contents s) x)
  pub pop_law :
      (s : State)
      → Valid s
      → Valid (pop s).0 × ((contents (pop s).0, (pop s).1) ≡ Queue.pop (contents s))

module _ {A : Type 0} (ring : RingApi A) where
  open ring use {State, Valid, contents, cap, push, pop, push_law, pop_law}

  -- The list is `items[i..count)`; the number is how many went in.
  pub push_batch : State → List A → State × ℕ
  push_batch s [] = (s, 0)
  push_batch s (x ∷ xs) =
      let (s', done) = push s x in
      elim done [ true ↦ let (s'', n) = push_batch s' xs in (s'', n + 1) | false ↦ (s', 0) ]

  -- The list is what was written to `items`; its length is the number returned.
  pub pop_batch : State → ℕ → State × List A
  pop_batch s zero = (s, [])
  pop_batch s (suc n) =
      let (s', out) = pop s in
      elim out [
        | refused ↦ (s', [])
        | fault ↦ (s', [])
        | item x ↦ let (s'', xs) = pop_batch s' n in (s'', x ∷ xs)
      ]

  push_fits :
      (s : State) (x : A)
      → Valid s
      → length (contents s) < cap
      → ((push s x).1 ≡ true) × (contents (push s x).0 ≡ contents s ++ x ∷ [])
  unfolding Queue.push
  push_fits s x v h = ground (arith, (push_law s x v).1)

  push_blocked :
      (s : State) (x : A)
      → Valid s
      → cap ≤ length (contents s)
      → ((push s x).1 ≡ false) × (contents (push s x).0 ≡ contents s)
  unfolding Queue.push
  push_blocked s x v h = ground (arith, (push_law s x v).1)

  -- `push_batch` puts in as many leading items as fit, in order, and returns their number.
  push_batch_lem :
      (s : State) (xs : List A)
      → Valid s
      → let (s', n) = push_batch s xs in
        Valid s'
        × (n ≡ min (length xs) (cap - length (contents s)))
        × (contents s' ≡ contents s ++ take n xs)
  unfolding push_batch
  push_batch_lem s [] v = (v, omega arith, sym (append-nil (contents s)))
  push_batch_lem s (x ∷ xs) v = elim (dec_lt (length (contents s)) cap) [
    | yes room ↦
        let (done, e) = push_fits s x v room in
        let (v', n, c) = push_batch_lem (push s x).0 xs (push_law s x v).0 in
        rw (done, push_batch, add-one)
          (
            v',
            omega (arith, n, ap length e, length-append (contents s) (x ∷ [])),
            rw (c, e) (append_assoc (contents s) (x ∷ []) _),
          )
    | no tight ↦
        let (stop, e) = push_blocked s x v (omega arith) in
        rw (stop, push_batch)
          ((push_law s x v).0, omega arith, rw e (sym (append-nil (contents s))))
  ]

  pop_cases :
      (s : State)
      → Valid s
      → ((contents s ≡ []) × ((pop s).1 ≡ refused) × (contents (pop s).0 ≡ []))
        ⊎ ((x : A) × (contents s ≡ x ∷ contents (pop s).0) × ((pop s).1 ≡ item x))
  unfolding Queue.pop
  pop_cases s v = go (contents s) (pop_law s v).1
    where
      go :
          (q : List A)
          → (contents (pop s).0, (pop s).1) ≡ Queue.pop q
          → ((q ≡ []) × ((pop s).1 ≡ refused) × (contents (pop s).0 ≡ []))
            ⊎ ((x : A) × (q ≡ x ∷ contents (pop s).0) × ((pop s).1 ≡ item x))
      go [] e = inl (refl, ap (λ p. p.1) e, ap (λ p. p.0) e)
      go (x ∷ q) e = inr (x, ap (λ p. x ∷ p.0) (sym e), ap (λ p. p.1) e)

  -- `pop_batch` takes out the oldest items, as many as asked for or as there are.
  pop_batch_lem :
      (s : State) (n : ℕ)
      → Valid s
      → let (s', out) = pop_batch s n in
        Valid s' × (out ≡ take n (contents s)) × (contents s' ≡ drop n (contents s))
  unfolding pop_batch
  pop_batch_lem s zero v = (v, refl, refl)
  pop_batch_lem s (suc n) v = elim (pop_cases s v) [
    | inl (none_left, out, rest) ↦ rw (out, pop_batch, none_left) ((pop_law s v).0, refl, rest)
    | inr (x, first, out) ↦
        let (v', got, rest) = pop_batch_lem (pop s).0 n (pop_law s v).0 in
        rw (out, pop_batch, first) (v', ap (◌∷◌ x) got, rest)
  ]

  -- `push_batch` puts in as many leading items as fit and returns their number, and a `pop_batch` after it takes
  -- out, in order, what was there before and then these items, as many as asked for or as there are; the
  -- rest stays.
  pub pop_batch-push_batch :
      (s : State) (xs : List A) (k : ℕ)
      → Valid s
      → let (s1, n) = push_batch s xs in
        let (s2, out) = pop_batch s1 k in
        Valid s2
        × (n ≡ min (length xs) (cap - length (contents s)))
        × (out ≡ take k (contents s ++ take n xs))
        × (contents s2 ≡ drop k (contents s ++ take n xs))
  pop_batch-push_batch s xs k v =
      let (v1, count, held) = push_batch_lem s xs v in
      let (v2, out, rest) = pop_batch_lem (push_batch s xs).0 k v1 in
      (v2, count, out ∙ ap (take k) held, rest ∙ ap (drop k) held)
