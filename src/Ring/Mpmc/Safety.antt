-- ===== src/Ring/Mpmc/Safety.antt =====
-- The invariant holds in every reachable state, and no two threads are at one slot.
use l7_loadbalancer.Base.{
  ℕ, zero, suc, ◌+◌, ◌%◌, ◌^◌, ◌<◌, ◌≡◌, refl, sym, ap, ◌∙◌, ◌≢◌, subst, List, [], ◌∷◌, ◌++◌,
  Option, none, some, arith, length, get_or, inl, u64, length-append,
}
use native.Mathlib.Nat.{mod-eq_of_lt}
use l7_loadbalancer.Ring.Size.{IsSize}
use l7_loadbalancer.Ring.Mpmc.{Slot, Mpmc, slot_index, numbered, new, claim_tail, claim_head, diff}
use l7_loadbalancer.Ring.Mpmc.Threads.{
  Thread, idle, pushing, push_loaded, push_seen, push_won, popping, pop_loaded, pop_seen, pop_won,
  assign, System, sys, Step, call_push, load_tail, see_push, win_push, retry_push, refuse_push,
  write, publish, call_pop, load_head, see_pop, win_pop, retry_pop, refuse_pop, take, release,
  Reach, start, later,
}
use l7_loadbalancer.Ring.Mpmc.Slots.{blank_slot, Local}
use l7_loadbalancer.Ring.Mpmc.Frame.{Apart, Inv}
use l7_loadbalancer.Ring.Mpmc.Moves.{
  slot_index-eq, Inv-stay, place_push, place_pop, push_Elsewhere, pop_Elsewhere,
}
use l7_loadbalancer.Ring.Mpmc.Accesses.{
  found_slot, at_thread, Inv-write, Inv-publish, Inv-take, Inv-release,
}
use l7_loadbalancer.Ring.Mpmc.Claims.{Inv-win_push, Inv-win_pop}

-- Indices and sequence numbers have not yet wrapped.
abbrev pub Fits : {A : Type 0} → ℕ → System A → Type 0
Fits size (sys r th log) = length log + size < 2 ^ 64

-- The place whose data a thread accesses next.
abbrev pub access_place : {A : Type 0} → Thread A → Option ℕ
access_place (push_won x pos) = some pos
access_place (pop_won pos) = some pos
access_place _ = none

get_or-numbered :
    {A : Type 0} (size i n j : ℕ) (blank : A) (s : Slot A)
    → j < n
    → get_or (numbered size i n blank) j s ≡ record { sequence = i + j; value = blank }
unfolding numbered
get_or-numbered size i zero j blank s h = absurd (omega arith)
get_or-numbered size i (suc n) zero blank s h =
    ap (λ k. record { sequence = k; value = blank }) (let e : i ≡ i + 0 = omega arith in e)
get_or-numbered size i (suc n) (suc j) blank s h =
    get_or-numbered size (i + 1) n j blank s (omega arith)
    ∙ ap (λ k. record { sequence = k; value = blank })
        (let e : i + 1 + j ≡ i + suc j = omega arith in e)

length-numbered : {A : Type 0} (size i n : ℕ) (blank : A) → length (numbered size i n blank) ≡ n
unfolding numbered
length-numbered size i zero blank = refl
length-numbered size i (suc n) blank = ap suc (length-numbered size (i + 1) n blank)

module _ {A : Type 0} (d : A) {size : ℕ} (v : IsSize size) where
  abbrev pub IsSound : System A → Type 0
  IsSound (sys r th log) = Inv d size r th log

module _ {A : Type 0} (d : A) {size : ℕ} (v : IsSize size) (moved : A → A) where
  pub Step-Fits : {s t : System A} → Step size moved s t → Fits size t → Fits size s
  Step-Fits (win_push {log = log} i x pos seq e q h) f = omega (arith, length-append log (x ∷ []))
  Step-Fits (call_push i x e) f = f
  Step-Fits (load_tail i x e) f = f
  Step-Fits (see_push i x pos s e q) f = f
  Step-Fits (retry_push i x pos seq e q) f = f
  Step-Fits (refuse_push i x pos seq e q) f = f
  Step-Fits (write i x pos e) f = f
  Step-Fits (publish i x pos e) f = f
  Step-Fits (call_pop i e) f = f
  Step-Fits (load_head i e) f = f
  Step-Fits (see_pop i pos s e q) f = f
  Step-Fits (win_pop i pos seq e q h) f = f
  Step-Fits (retry_pop i pos seq e q) f = f
  Step-Fits (refuse_pop i pos seq e q) f = f
  Step-Fits (take i pos s e q) f = f
  Step-Fits (release i pos y e) f = f

  Step-IsSound :
      {s t : System A} → Step size moved s t → Fits size t → IsSound d v s → IsSound d v t
  Step-IsSound (call_push {r = r} {th = th} {log = log} i x e) f inv =
      Inv-stay d size r th log i (pushing x) inv tt refl refl
  Step-IsSound (load_tail {r = r} {th = th} {log = log} i x e) f inv =
      Inv-stay d size r th log i (push_loaded x r.tail) inv (omega arith) refl refl
  Step-IsSound (see_push {r = r} {th = th} {log = log} i x pos s e q) f inv =
      let here = at_thread d v r th log i (push_loaded x pos) inv e in
      Inv-stay d size r th log i (push_seen x pos s.sequence) inv
        (here, omega (arith, ap (λ t. t.sequence) (found_slot d v r log pos s inv.shared q))) refl
        refl
  Step-IsSound (win_push {r = r} {th = th} {log = log} i x pos seq e q h) f inv =
      subst (λ p. Inv d size (claim_tail size r p) (assign th i (push_won x p)) (log ++ x ∷ [])) h
        (Inv-win_push d size r th log i seq x v.two_le inv
          (omega (arith, length-append log (x ∷ []))) (e ∙ ap (λ p. push_seen x p seq) (sym h))
          (ap (diff seq) h ∙ q))
  Step-IsSound (retry_push {r = r} {th = th} {log = log} i x pos seq e q) f inv =
      Inv-stay d size r th log i (pushing x) inv tt refl refl
  Step-IsSound (refuse_push {r = r} {th = th} {log = log} i x pos seq e q) f inv =
      Inv-stay d size r th log i idle inv tt refl refl
  Step-IsSound (write {r = r} {th = th} {log = log} i x pos e) f inv =
      Inv-write d v r th log i pos x inv e
  Step-IsSound (publish {r = r} {th = th} {log = log} i x pos e) f inv =
      Inv-publish d v r th log i pos x inv e
  Step-IsSound (call_pop {r = r} {th = th} {log = log} i e) f inv =
      Inv-stay d size r th log i popping inv tt refl refl
  Step-IsSound (load_head {r = r} {th = th} {log = log} i e) f inv =
      Inv-stay d size r th log i (pop_loaded r.head) inv (omega arith) refl refl
  Step-IsSound (see_pop {r = r} {th = th} {log = log} i pos s e q) f inv =
      let here = at_thread d v r th log i (pop_loaded pos) inv e in
      Inv-stay d size r th log i (pop_seen pos s.sequence) inv
        (here, omega (arith, ap (λ t. t.sequence) (found_slot d v r log pos s inv.shared q))) refl
        refl
  Step-IsSound (win_pop {r = r} {th = th} {log = log} i pos seq e q h) f inv =
      subst (λ p. Inv d size (claim_head size r p) (assign th i (pop_won p)) log) h
        (Inv-win_pop d size r th log i seq v.two_le inv (e ∙ ap (λ p. pop_seen p seq) (sym h))
          (ap (λ p. diff seq (u64 (p + 1))) h ∙ q))
  Step-IsSound (retry_pop {r = r} {th = th} {log = log} i pos seq e q) f inv =
      Inv-stay d size r th log i popping inv tt refl refl
  Step-IsSound (refuse_pop {r = r} {th = th} {log = log} i pos seq e q) f inv =
      Inv-stay d size r th log i idle inv tt refl refl
  Step-IsSound (take {r = r} {th = th} {log = log} i pos s e q) f inv =
      Inv-take d v r th log i pos s.value (moved s.value) inv e
        (ap (λ t. t.value) (found_slot d v r log pos s inv.shared q))
  Step-IsSound (release {r = r} {th = th} {log = log} i pos y e) f inv =
      Inv-release d v r th log i pos y inv e

  new-IsSound : (blank : A) → IsSound d v (sys (new size blank) (λ _. idle) [])
  unfolding new
  new-IsSound blank =
      let two = v.two_le in
      record {
        shared = record {
          order = omega arith;
          room = omega arith;
          counted = refl;
          fits = omega (arith, v.fits);
          storage = length-numbered size 0 size blank;
          slots = λ i h.
              let there = get_or-numbered size 0 size i blank (blank_slot d size) h in
              (i, mod-eq_of_lt h, inl (ap (λ s. s.sequence) there ∙ omega arith, omega arith));
        };
        local = λ i. tt;
        apart = λ i j ne. ((λ p e. cc), (λ p e. cc));
      }

  pub Reach-IsSound :
      (blank : A) {s : System A} → Reach size moved blank s → Fits size s → IsSound d v s
  Reach-IsSound blank start f = new-IsSound blank
  Reach-IsSound blank (later r st) f = Step-IsSound st f (Reach-IsSound blank r (Step-Fits st f))

  access_ne :
      (r : Mpmc A) (log : List A) (t u : Thread A) (p q : ℕ)
      → Local d size r log t
      → Local d size r log u
      → Apart t u
      → access_place t ≡ some p
      → access_place u ≡ some q
      → q % size ≢ p % size
  access_ne r log (push_won x k) (push_won y l) p q ht hu a e f =
      (push_Elsewhere d size r log p (push_won y l) v.two_le
          (place_push d size r log (push_won x k) p ht e) hu (a.0 p e)).0
        q f
  access_ne r log (push_won x k) (pop_won l) p q ht hu a e f =
      (push_Elsewhere d size r log p (pop_won l) v.two_le
          (place_push d size r log (push_won x k) p ht e) hu (a.0 p e)).1
        q f
  access_ne r log (pop_won k) (push_won y l) p q ht hu a e f =
      (pop_Elsewhere d size r log p (push_won y l) v.two_le
          (place_pop d size r log (pop_won k) p ht e) hu (a.1 p e)).0
        q f
  access_ne r log (pop_won k) (pop_won l) p q ht hu a e f =
      (pop_Elsewhere d size r log p (pop_won l) v.two_le (place_pop d size r log (pop_won k) p ht e)
          hu (a.1 p e)).1
        q f
  access_ne r log (push_won x k) _ p q ht hu a e f = cc
  access_ne r log (pop_won k) _ p q ht hu a e f = cc
  access_ne r log _ u p q ht hu a e f = cc

  -- While the indices have not wrapped, two threads that are about to access the data of a slot, be it to
  -- write or to take an item, are at different slots, which lie inside the storage.
  pub no_shared_slot :
      (blank : A) {r : Mpmc A} {th : ℕ → Thread A} {log : List A}
      → Reach size moved blank (sys r th log)
      → length log + size < 2 ^ 64
      → (i j p q : ℕ) → i ≢ j
      → access_place (th i) ≡ some p
      → access_place (th j) ≡ some q
      → (slot_index size q ≢ slot_index size p) × (slot_index size p < length r.buffer)
  no_shared_slot blank {r = r} {th = th} {log = log} reach fits i j p q ne ei ej =
      let inv = Reach-IsSound blank reach fits in
      let storage = inv.shared.storage in
      let two = v.two_le in
      let apart =
        access_ne r log (th i) (th j) p q (inv.local i) (inv.local j) (inv.apart i j ne) ei ej in
      (
        (λ e. apart (sym (slot_index-eq q v) ∙ e ∙ slot_index-eq p v)),
        omega (arith, slot_index-eq p v),
      )
