-- ===== src/Ring/Mpmc/Delivered.antt =====
-- What all the calls of `pop` in a run have been given, those that have returned included.
use l7_loadbalancer.Base.{
  ℕ, zero, suc, ◌+◌, ◌^◌, ◌≤◌, ◌<◌, ◌≡◌, refl, sym, ap, ◌∙◌, ◌≢◌, subst, List, [], ◌∷◌, ◌++◌, some,
  arith, length, get_elem?, get_elem?-snoc, u64, All, ◌==◌, Bool-cases, inl, inr, true, false,
}
use l7_loadbalancer.Ring.Size.{IsSize}
use l7_loadbalancer.Ring.Mpmc.{
  Slot, Mpmc, slot_index, new, claim_tail, claim_head, write_data, store_sequence, capacity,
}
use l7_loadbalancer.Ring.Mpmc.Threads.{
  Thread, idle, pushing, push_loaded, push_seen, push_won, push_written, popping, pop_loaded,
  pop_seen, pop_won, pop_taken, assign, System, sys, call_push, load_tail, see_push, win_push,
  retry_push, refuse_push, write, publish, call_pop, load_head, see_pop, win_pop, retry_pop,
  refuse_pop, take, release, Reach, start, later,
}
use l7_loadbalancer.Ring.Mpmc.Frame.{Inv, pop_place}
use l7_loadbalancer.Ring.Mpmc.Accesses.{found_slot, at_thread, others}
use l7_loadbalancer.Ring.Mpmc.Safety.{Fits, Step-Fits, Reach-IsSound}

-- None of the pairs has this place; and no two have the same.
abbrev pub Misses {ℓ} : {A : Type ℓ} → ℕ → List (ℕ × A) → Type 0
Misses pos [] = Unit
Misses pos (e ∷ es) = (e.0 ≢ pos) × Misses pos es

abbrev pub Distinct {ℓ} : {A : Type ℓ} → List (ℕ × A) → Type 0
Distinct [] = Unit
Distinct (e ∷ es) = Misses e.0 es × Distinct es

-- `n - 1` down to 0.
unfoldable pub down_from : ℕ → List ℕ
down_from zero = []
down_from (suc n) = n ∷ down_from n

module _ {A : Type 0} {size : ℕ} {moved : A → A} {blank : A} where
  -- In a run, the places that `pop` calls have won, and the items that they have taken with their places,
  -- the latest first.
  unfoldable pub won : {s : System A} → Reach size moved blank s → List ℕ
  won start = []
  won (later r (win_pop i pos seq e q h)) = pos ∷ won r
  won (later r _) = won r

  unfoldable pub delivered : {s : System A} → Reach size moved blank s → List (ℕ × A)
  delivered start = []
  delivered (later r (take i pos s e q)) = (pos, s.value) ∷ delivered r
  delivered (later r _) = delivered r

module _ {A : Type 0} where
  -- The items agree with the log, at places below the head that no `pop` is about to read.
  pub record IsOnce (head : ℕ) (th : ℕ → Thread A) (log : List A) (ds : List (ℕ × A)) : Type 0 where
    pub distinct : Distinct ds
    pub below : All (λ e. e.0 < head) ds
    pub logged : All (λ e. get_elem? log e.0 ≡ some e.1) ds
    pub waiting : (i pos : ℕ) → th i ≡ pop_won pos → Misses pos ds

  stay :
      {head : ℕ} {th : ℕ → Thread A} {log : List A} {ds : List (ℕ × A)} (i : ℕ) (t : Thread A)
      → ((pos : ℕ) → t ≢ pop_won pos)
      → IsOnce head th log ds
      → IsOnce head (assign th i t) log ds
  stay {th = th} i t not_won w = record {
    distinct = w.distinct;
    below = w.below;
    logged = w.logged;
    waiting = λ j pos e. elim (Bool-cases (i == j)) [
      | inl same ↦ absurd (not_won pos (sym (chosen i j t same) ∙ e))
      | inr other ↦ w.waiting j pos (sym (passed i j t other) ∙ e)
    ];
  }
    where
      chosen : (i j : ℕ) (t : Thread A) → (i == j) ≡ true → assign th i t j ≡ t
      chosen i j t e = rw e refl

      passed : (i j : ℕ) (t : Thread A) → (i == j) ≡ false → assign th i t j ≡ th j
      passed i j t e = rw e refl

  Misses-below : (head : ℕ) (ds : List (ℕ × A)) → All (λ e. e.0 < head) ds → Misses head ds
  Misses-below head [] h = tt
  Misses-below head (e ∷ ds) h = (λ q. let lt = h.0 in omega arith, Misses-below head ds h.1)

  below_more :
      (head more : ℕ) (ds : List (ℕ × A))
      → head ≤ more
      → All (λ e. e.0 < head) ds
      → All (λ e. e.0 < more) ds
  below_more head more [] le h = tt
  below_more head more (e ∷ ds) le h = (let lt = h.0 in omega arith, below_more head more ds le h.1)

  logged_more :
      (log : List A) (x : A) (head : ℕ) (ds : List (ℕ × A))
      → head ≤ length log
      → All (λ e. e.0 < head) ds
      → All (λ e. get_elem? log e.0 ≡ some e.1) ds
      → All (λ e. get_elem? (log ++ x ∷ []) e.0 ≡ some e.1) ds
  logged_more log x head [] le h g = tt
  logged_more log x head (e ∷ ds) le h g = (
    get_elem?-snoc log e.0 x (let lt = h.0 in omega arith) ∙ g.0,
    logged_more log x head ds le h.1 g.1,
  )

module _ {A : Type 0} (d : A) {size : ℕ} (v : IsSize size) (moved : A → A) (blank : A) where
  abbrev Once : System A → List (ℕ × A) → Type 0
  Once (sys r th log) ds = IsOnce r.head th log ds

  win_pop-Once :
      (r : Mpmc A) (th : ℕ → Thread A) (log : List A) (i pos : ℕ) (ds : List (ℕ × A))
      → Inv d size r th log
      → r.head ≡ pos
      → IsOnce r.head th log ds
      → IsOnce (u64 (pos + 1)) (assign th i (pop_won pos)) log ds
  win_pop-Once r th log i pos ds inv h w =
      let sh = inv.shared in
      let two = v.two_le in
      let up : r.head ≤ u64 (pos + 1) = omega (arith, sh.order, sh.counted, sh.fits) in
      record {
        distinct = w.distinct;
        below = below_more r.head (u64 (pos + 1)) ds up w.below;
        logged = w.logged;
        waiting = λ j p e. elim (Bool-cases (i == j)) [
          | inl same ↦
              let e1 = rw same at e in
              let q : pos ≡ p = cc in
              subst (λ k. Misses k ds) (h ∙ q) (Misses-below r.head ds w.below)
          | inr other ↦ let e1 = rw other at e in w.waiting j p e1
        ];
      }

  take-Once :
      (r : Mpmc A) (th : ℕ → Thread A) (log : List A) (i pos : ℕ) (s : Slot A) (ds : List (ℕ × A))
      → Inv d size r th log
      → th i ≡ pop_won pos
      → get_elem? r.buffer (slot_index size pos) ≡ some s
      → IsOnce r.head th log ds
      → IsOnce r.head (assign th i (pop_taken pos s.value)) log ((pos, s.value) ∷ ds)
  take-Once r th log i pos s ds inv e q w =
      let (lt, _, item) = at_thread d v r th log i (pop_won pos) inv e in
      let found = found_slot d v r log pos s inv.shared q in
      record {
        distinct = (w.waiting i pos e, w.distinct);
        below = (lt, w.below);
        logged = (item ∙ ap (λ k. some k.value) found, w.logged);
        waiting = λ j p f. elim (Bool-cases (i == j)) [
          | inl same ↦ let f1 = rw same at f in absurd (cc)
          | inr other ↦
              let f1 = rw other at f in
              let ne : i ≢ j = λ z. ground arith in
              let apart = (others d v r th log i (pop_won pos) inv e j ne).1 in
              ((λ z. apart pos refl (ap pop_place f1 ∙ ap some (sym z))), w.waiting j p f1)
        ];
      }

  delivered-Once :
      {s : System A} (reach : Reach size moved blank s) → Fits size s → Once s (delivered reach)
  unfolding delivered new claim_tail claim_head write_data store_sequence
  delivered-Once start f = record {
    distinct = tt;
    below = tt;
    logged = tt;
    waiting = λ i pos e. tt;
  }
  delivered-Once (later reach (call_push i x e)) f =
      stay i (pushing x) (λ p q. cc) (delivered-Once reach f)
  delivered-Once (later reach (load_tail {r = r} i x e)) f =
      stay i (push_loaded x r.tail) (λ p q. cc) (delivered-Once reach f)
  delivered-Once (later reach (see_push i x pos s e q)) f =
      stay i (push_seen x pos s.sequence) (λ p q. cc) (delivered-Once reach f)
  delivered-Once (later reach (win_push {r = r} {th = th} {log = log} i x pos seq e q h)) f =
      let g = Step-Fits d v moved (win_push {r = r} {th = th} {log = log} i x pos seq e q h) f in
      let inv = Reach-IsSound d v moved blank reach g in
      let w = delivered-Once reach g in
      let short : r.head ≤ length log = omega (arith, inv.shared.order, inv.shared.counted) in
      let old = stay i (push_won x pos) (λ p z. cc) w in
      record {
        distinct = old.distinct;
        below = old.below;
        logged = logged_more log x r.head (delivered reach) short w.below w.logged;
        waiting = old.waiting;
      }
  delivered-Once (later reach (retry_push i x pos seq e q)) f =
      stay i (pushing x) (λ p q. cc) (delivered-Once reach f)
  delivered-Once (later reach (refuse_push i x pos seq e q)) f =
      stay i idle (λ p q. cc) (delivered-Once reach f)
  delivered-Once (later reach (write i x pos e)) f =
      stay i (push_written x pos) (λ p q. cc) (delivered-Once reach f)
  delivered-Once (later reach (publish i x pos e)) f =
      stay i idle (λ p q. cc) (delivered-Once reach f)
  delivered-Once (later reach (call_pop i e)) f =
      stay i popping (λ p q. cc) (delivered-Once reach f)
  delivered-Once (later reach (load_head {r = r} i e)) f =
      stay i (pop_loaded r.head) (λ p q. cc) (delivered-Once reach f)
  delivered-Once (later reach (see_pop i pos s e q)) f =
      stay i (pop_seen pos s.sequence) (λ p q. cc) (delivered-Once reach f)
  delivered-Once (later reach (win_pop {r = r} {th = th} {log = log} i pos seq e q h)) f =
      win_pop-Once r th log i pos (delivered reach) (Reach-IsSound d v moved blank reach f) h
        (delivered-Once reach f)
  delivered-Once (later reach (retry_pop i pos seq e q)) f =
      stay i popping (λ p q. cc) (delivered-Once reach f)
  delivered-Once (later reach (refuse_pop i pos seq e q)) f =
      stay i idle (λ p q. cc) (delivered-Once reach f)
  delivered-Once (later reach (take {r = r} {th = th} {log = log} i pos s e q)) f =
      take-Once r th log i pos s (delivered reach) (Reach-IsSound d v moved blank reach f) e q
        (delivered-Once reach f)
  delivered-Once (later reach (release i pos y e)) f =
      stay i idle (λ p q. cc) (delivered-Once reach f)

  -- The places that have been won are all those below the head, in order.
  abbrev WonBelow : System A → List ℕ → Type 0
  WonBelow (sys r th log) ps = ps ≡ down_from r.head

  won-down_from :
      {s : System A} (reach : Reach size moved blank s) → Fits size s → WonBelow s (won reach)
  unfolding won down_from new claim_tail claim_head write_data store_sequence
  won-down_from start f = refl
  won-down_from (later reach (win_pop {r = r} {th = th} {log = log} i pos seq e q h)) f =
      let sh = (Reach-IsSound d v moved blank reach f).shared in
      let two = v.two_le in
      let up : u64 (pos + 1) ≡ suc pos = omega (arith, sh.order, sh.counted, sh.fits) in
      ap (λ ps. pos ∷ ps) (won-down_from reach f ∙ ap down_from h) ∙ ap down_from (sym up)
  won-down_from (later reach (call_push i x e)) f = won-down_from reach f
  won-down_from (later reach (load_tail i x e)) f = won-down_from reach f
  won-down_from (later reach (see_push i x pos s e q)) f = won-down_from reach f
  won-down_from (later reach (win_push {r = r} {th = th} {log = log} i x pos seq e q h)) f =
      won-down_from reach
        (Step-Fits d v moved (win_push {r = r} {th = th} {log = log} i x pos seq e q h) f)
  won-down_from (later reach (retry_push i x pos seq e q)) f = won-down_from reach f
  won-down_from (later reach (refuse_push i x pos seq e q)) f = won-down_from reach f
  won-down_from (later reach (write i x pos e)) f = won-down_from reach f
  won-down_from (later reach (publish i x pos e)) f = won-down_from reach f
  won-down_from (later reach (call_pop i e)) f = won-down_from reach f
  won-down_from (later reach (load_head i e)) f = won-down_from reach f
  won-down_from (later reach (see_pop i pos s e q)) f = won-down_from reach f
  won-down_from (later reach (retry_pop i pos seq e q)) f = won-down_from reach f
  won-down_from (later reach (refuse_pop i pos seq e q)) f = won-down_from reach f
  won-down_from (later reach (take i pos s e q)) f = won-down_from reach f
  won-down_from (later reach (release i pos y e)) f = won-down_from reach f

  -- While the indices have not wrapped, of all the calls of a run, those that have returned included: every
  -- item that a `pop` has taken is the one whose `push` won the same place, and no two have been taken at
  -- one place; the places that `pop` calls have won are 0, 1, 2 and so on in this order, each once,
  -- up to the head; the tail is the number of places that were won by a `push`; the head is not past
  -- the tail, and at most `Size` places lie between them.
  pub places :
      {r : Mpmc A} {th : ℕ → Thread A} {log : List A}
      (reach : Reach size moved blank (sys r th log))
      → length log + size < 2 ^ 64
      → Distinct (delivered reach)
        × All (λ e. get_elem? log e.0 ≡ some e.1) (delivered reach)
        × (won reach ≡ down_from r.head)
        × (r.tail ≡ length log)
        × (r.head ≤ r.tail)
        × (r.tail ≤ r.head + capacity size)
  unfolding capacity
  places reach fits =
      let w = (Reach-IsSound d v moved blank reach fits).shared in
      let once = delivered-Once reach fits in
      (once.distinct, once.logged, won-down_from reach fits, w.counted, w.order, w.room)
