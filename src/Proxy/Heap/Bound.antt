-- ===== src/Proxy/Heap/Bound.antt =====
-- There are no more connections than descriptors.
use l7_loadbalancer.Base.{
  ℕ, zero, suc, ◌<◌, ◌≤◌, ◌≡◌, sym, ap, ◌∙◌, ◌≢◌, ◌⊎◌, inl, inr, List, [], ◌∷◌, some, arith, length,
}
use l7_loadbalancer.Base.Assoc.{find, erase, IsMap, nat_eq, erase-IsMap, length-erase}
use l7_loadbalancer.Proxy.State.{Connection}
use l7_loadbalancer.Proxy.Heap.{IsHeap, eq_cases, find-erase_self, find-erase_ne, some_inj}

module _ {V : Type 0} (f : V → ℕ) where
  -- No two entries have one number.
  abbrev Distinct : List (ℕ × V) → Type 0
  Distinct m = (p q : ℕ) (c e : V) → find p m ≡ some c → find q m ≡ some e → f c ≡ f e → p ≡ q

  abbrev Below : ℕ → List (ℕ × V) → Type 0
  Below n m = (p : ℕ) (c : V) → find p m ≡ some c → f c < n

  find_number :
      (n : ℕ) (m : List (ℕ × V))
      → IsMap m
      → ((p : ℕ) × (c : V) × (find p m ≡ some c) × (f c ≡ n))
        ⊎ ((p : ℕ) (c : V) → find p m ≡ some c → f c ≢ n)
  unfolding find
  find_number n [] w = inr (λ p c e. cc)
  find_number n ((k, v) ∷ m) w = elim (eq_cases (f v) n) [
    | inl here ↦ inl (k, v, ground arith, here)
    | inr not_here ↦ elim (find_number n m w.1) [
      | inl (p, c, at, there) ↦ elim (eq_cases k p) [
        | inl same ↦ let gone = w.0 in cc
        | inr ne ↦ inl (p, c, ground arith, there)
      ]
      | inr not_later ↦ inr (λ p c e. elim (eq_cases k p) [
        | inl same ↦ let q : v ≡ c = ground arith in λ g. not_here (ap f q ∙ g)
        | inr ne ↦ not_later p c (ground arith)
      ])
    ]
  ]

  pub length-bound : (n : ℕ) (m : List (ℕ × V)) → IsMap m → Distinct m → Below n m → length m ≤ n
  unfolding find
  length-bound zero [] w d b = omega arith
  length-bound zero ((k, v) ∷ m) w d b =
      let e : find k ((k, v) ∷ m) ≡ some v = ground arith in let lt = b k v e in omega arith
  length-bound (suc n) m w d b = elim (find_number n m w) [
    | inr none_there ↦
        let rest =
          length-bound n m w d
            (λ p c e. let lt = b p c e in let ne = none_there p c e in omega arith) in
        omega arith
    | inl (p, c, at, is) ↦
        let kept : (q : ℕ) (g : V) → find q (erase p m) ≡ some g → (p ≢ q) × (find q m ≡ some g) =
          λ q g e. elim (eq_cases p q) [
            | inl same ↦ let gone = find-erase_self p m w in cc
            | inr ne ↦ (ne, sym (find-erase_ne p q m w ne) ∙ e)
          ] in
        let rest =
          length-bound n (erase p m) (erase-IsMap p m w)
            (λ q r g h eq er same. d q r g h (kept q g eq).1 (kept r h er).1 same)
            (λ q g e.
              let (ne, before) = kept q g e in
              let lt = b q g before in
              let differ : f g ≢ n = λ z. ne (d p q c g at before (is ∙ sym z)) in omega arith) in
        let size = rw at at (length-erase p m) in omega arith
  ]

-- Descriptors below `n` allow for `n` connections.
pub connections_bound :
    (Open : ℕ → Type 0) (conns : List (ℕ × ℕ)) (heap : List (ℕ × Connection)) (next n : ℕ)
    → IsHeap Open conns heap next
    → ((fd : ℕ) → Open fd → fd < n)
    → length heap ≤ n
connections_bound Open conns heap next n w fits =
    length-bound (λ c. c.client_fd) n heap w.objects
      (λ p q c e at there same.
        let l = w.live p c at in
        let k = w.live q e there in
        some_inj (sym l.client_entry ∙ ap (λ fd. find fd conns) same ∙ k.client_entry))
      (λ p c at. fits c.client_fd (w.live p c at).client_open)
