-- ===== src/Proxy/Forward.antt =====
-- What `forward_data` passes on.
use l7_loadbalancer.Base.{
  ℕ, zero, suc, ◌+◌, ◌-◌, ◌≤◌, ◌≡◌, refl, sym, ◌∙◌, ap, ◌≢◌, ◌⊎◌, inl, inr, true, false, List, [],
  ◌∷◌, ◌++◌, arith, length, take, drop, ◌<◌, subst,
}
use mathlib.Core.List.{append_assoc, append-nil}
use l7_loadbalancer.Proxy.State.{
  Sockets, Proxy, Connection, returned, Sent, finished, blocked, failed, unfinished, got, Write,
  wrote, no_room, write_error,
}
use l7_loadbalancer.Proxy.Relay.{write_all, forward_data}

-- What the code relies on in `ff_write`: a call for at least one byte takes between one byte and all of
-- them, and appends those to what the descriptor has been sent; a call that fails sends nothing.
pub record Writes {World : Type 0} (net : Sockets World) (sent : World → ℕ → List ℕ) : Type 0 where
  pub takes :
      (w : World) (fd k : ℕ) (bs : List ℕ)
      → bs ≢ []
      → (net.write w fd bs).1 ≡ wrote k
      → (1 ≤ k) × (k ≤ length bs) × (sent (net.write w fd bs).0 fd ≡ sent w fd ++ take k bs)
  pub no_room_law :
      (w : World) (fd : ℕ) (bs : List ℕ)
      → (net.write w fd bs).1 ≡ no_room
      → sent (net.write w fd bs).0 fd ≡ sent w fd
  pub write_error_law :
      (w : World) (fd : ℕ) (bs : List ℕ)
      → (net.write w fd bs).1 ≡ write_error
      → sent (net.write w fd bs).0 fd ≡ sent w fd

take-nil : (n : ℕ) → take {A = ℕ} n [] ≡ []
take-nil zero = refl
take-nil (suc n) = refl

take-take-drop : (k n : ℕ) (bs : List ℕ) → take k bs ++ take n (drop k bs) ≡ take (k + n) bs
take-take-drop zero n bs = ap (λ m. take m bs) (omega arith)
take-take-drop (suc k) n [] = take-nil n ∙ sym (take-nil (suc k + n))
take-take-drop (suc k) n (b ∷ bs) =
    ap (λ t. b ∷ t) (take-take-drop k n bs)
    ∙ ap (λ m. take m (b ∷ bs)) (let e : suc (k + n) ≡ suc k + n = omega arith in e)

length-drop : (k : ℕ) (bs : List ℕ) → length (drop k bs) ≡ length bs - k
length-drop zero bs = omega arith
length-drop (suc k) [] = omega arith
length-drop (suc k) (b ∷ bs) = let rest = length-drop k bs in omega arith

drop-nil : (n : ℕ) → drop {A = ℕ} n [] ≡ []
drop-nil zero = refl
drop-nil (suc n) = refl

drop-drop : (k n : ℕ) (bs : List ℕ) → drop n (drop k bs) ≡ drop (k + n) bs
drop-drop zero n bs = ap (λ m. drop m bs) (omega arith)
drop-drop (suc k) n [] = drop-nil n ∙ sym (drop-nil (suc k + n))
drop-drop (suc k) n (b ∷ bs) =
    drop-drop k n bs
    ∙ ap (λ m. drop m (b ∷ bs)) (let e : suc (k + n) ≡ suc k + n = omega arith in e)

take-drop : (k : ℕ) (bs : List ℕ) → take k bs ++ drop k bs ≡ bs
take-drop zero bs = refl
take-drop (suc k) [] = refl
take-drop (suc k) (b ∷ bs) = ap (◌∷◌ b) (take-drop k bs)

pub Write-cases : (o : Write) → ((k : ℕ) × (o ≡ wrote k)) ⊎ ((o ≡ no_room) ⊎ (o ≡ write_error))
Write-cases (wrote k) = inl (k, refl)
Write-cases no_room = inr (inl refl)
Write-cases write_error = inr (inr refl)

pub Sent-cases : (o : Sent) → (o ≡ finished) ⊎ ((o ≡ blocked) ⊎ ((o ≡ failed) ⊎ (o ≡ unfinished)))
Sent-cases finished = inl refl
Sent-cases blocked = inr (inl refl)
Sent-cases failed = inr (inr (inl refl))
Sent-cases unfinished = inr (inr (inr refl))

module _ {World : Type 0} (net : Sockets World) (sent : World → ℕ → List ℕ)
    (laws : Writes net sent) where
  -- The loop sends a prefix, all of it if it ends by itself, and it always ends.
  pub write_all_lem :
      (fuel : ℕ) (w : World) (fd : ℕ) (bs : List ℕ)
      → length bs ≤ fuel
      → ((write_all net fuel w fd bs).1 ≢ unfinished)
        × ((n : ℕ) × (n ≤ length bs)
            × (sent (write_all net fuel w fd bs).0 fd ≡ sent w fd ++ take n bs)
            × ((write_all net fuel w fd bs).1 ≡ finished → n ≡ length bs))
  unfolding write_all
  write_all_lem fuel w fd [] h = ((λ e. cc), (0, omega arith, sym (append-nil _), λ _. refl))
  write_all_lem zero w fd (b ∷ bs) h = absurd (omega arith)
  write_all_lem (suc fuel) w fd (b ∷ bs) h = elim (Write-cases (net.write w fd (b ∷ bs)).1) [
    | inr (inl e) ↦
        rw (e, write_all)
          (
            (λ e. cc),
            (0, omega arith, laws.no_room_law w fd (b ∷ bs) e ∙ sym (append-nil _), λ e. cc),
          )
    | inr (inr e) ↦
        rw (e, write_all)
          (
            (λ e. cc),
            (0, omega arith, laws.write_error_law w fd (b ∷ bs) e ∙ sym (append-nil _), λ e. cc),
          )
    | inl (k, e) ↦
        let (low, high, step) = laws.takes w fd k (b ∷ bs) (λ e. cc) e in
        let rest = length-drop k (b ∷ bs) in
        let (ends, (n, fits, went, whole)) =
          write_all_lem fuel (net.write w fd (b ∷ bs)).0 fd (drop k (b ∷ bs)) (omega arith) in
        rw (e, write_all)
          (
            ends,
            (
              k + n,
              omega arith,
              went
                  ∙ ap (λ t. t ++ take n (drop k (b ∷ bs))) step
                  ∙ append_assoc (sent w fd) (take k (b ∷ bs)) (take n (drop k (b ∷ bs)))
                  ∙ ap (λ t. sent w fd ++ t) (take-take-drop k n (b ∷ bs)),
              λ f. let eq = whole f in omega arith,
            ),
          )
  ]

  -- The loop has stopped at a call that ends in `o`, with the first `n` bytes sent, and left the rest.
  abbrev pub StoppedBy : Write → World → ℕ → List ℕ → World → Type 0
  StoppedBy o w fd bs last =
      (n : ℕ) × (before : World) × (n < length bs)
      × (sent before fd ≡ sent w fd ++ take n bs)
      × ((net.write before fd (drop n bs)).1 ≡ o)
      × (last ≡ (net.write before fd (drop n bs)).0)
      × (sent last fd ≡ sent before fd)

  -- It stops at the first call.
  stop_here :
      (o : Write) (w : World) (fd : ℕ) (b : ℕ) (bs : List ℕ)
      → (net.write w fd (b ∷ bs)).1 ≡ o
      → sent (net.write w fd (b ∷ bs)).0 fd ≡ sent w fd
      → StoppedBy o w fd (b ∷ bs) (net.write w fd (b ∷ bs)).0
  stop_here o w fd b bs e law = (0, w, omega arith, sym (append-nil _), e, refl, law)

  -- It stops at a later one.
  stop_later :
      (o : Write) (w : World) (fd k : ℕ) (bs : List ℕ) (last : World)
      → k ≤ length bs
      → sent (net.write w fd bs).0 fd ≡ sent w fd ++ take k bs
      → StoppedBy o (net.write w fd bs).0 fd (drop k bs) last
      → StoppedBy o w fd bs last
  stop_later o w fd k bs last high step (n, before, short, so_far, e, is, law) =
      let rest = length-drop k bs in
      let same : drop n (drop k bs) ≡ drop (k + n) bs = drop-drop k n bs in
      (
        k + n,
        before,
        omega arith,
        so_far
            ∙ ap (λ t. t ++ take n (drop k bs)) step
            ∙ append_assoc (sent w fd) (take k bs) (take n (drop k bs))
            ∙ ap (λ t. sent w fd ++ t) (take-take-drop k n bs),
        ap (λ r. (net.write before fd r).1) (sym same) ∙ e,
        is ∙ ap (λ r. (net.write before fd r).0) same,
        law,
      )

  -- How the loop ends.
  abbrev Ends : Sent → World → ℕ → List ℕ → World → Type 0
  Ends finished w fd bs last = sent last fd ≡ sent w fd ++ bs
  Ends blocked w fd bs last = StoppedBy no_room w fd bs last
  Ends failed w fd bs last = StoppedBy write_error w fd bs last
  Ends unfinished w fd bs last = ⊥

  write_all-Ends :
      (fuel : ℕ) (w : World) (fd : ℕ) (bs : List ℕ)
      → length bs ≤ fuel
      → Ends (write_all net fuel w fd bs).1 w fd bs (write_all net fuel w fd bs).0
  unfolding write_all
  write_all-Ends fuel w fd [] h = sym (append-nil _)
  write_all-Ends zero w fd (b ∷ bs) h = absurd (omega arith)
  write_all-Ends (suc fuel) w fd (b ∷ bs) h = elim (Write-cases (net.write w fd (b ∷ bs)).1) [
    | inr (inl e) ↦
        rw (e, write_all) (stop_here no_room w fd b bs e (laws.no_room_law w fd (b ∷ bs) e))
    | inr (inr e) ↦
        rw (e, write_all) (stop_here write_error w fd b bs e (laws.write_error_law w fd (b ∷ bs) e))
    | inl (k, e) ↦
        let (low, high, step) = laws.takes w fd k (b ∷ bs) (λ e. cc) e in
        let rest = length-drop k (b ∷ bs) in
        let w1 = (net.write w fd (b ∷ bs)).0 in
        rw (e, write_all)
          (later (write_all net fuel w1 fd (drop k (b ∷ bs))).1 w fd k (b ∷ bs)
            (write_all net fuel w1 fd (drop k (b ∷ bs))).0 high step
            (write_all-Ends fuel w1 fd (drop k (b ∷ bs)) (omega arith)))
  ]
    where
      later :
          (o : Sent) (w : World) (fd k : ℕ) (bs : List ℕ) (last : World)
          → k ≤ length bs
          → sent (net.write w fd bs).0 fd ≡ sent w fd ++ take k bs
          → Ends o (net.write w fd bs).0 fd (drop k bs) last
          → Ends o w fd bs last
      later finished w fd k bs last high step e =
          e
          ∙ ap (λ t. t ++ drop k bs) step
          ∙ append_assoc (sent w fd) (take k bs) (drop k bs)
          ∙ ap (λ t. sent w fd ++ t) (take-drop k bs)
      later blocked w fd k bs last high step e = stop_later no_room w fd k bs last high step e
      later failed w fd k bs last high step e = stop_later write_error w fd k bs last high step e
      later unfinished w fd k bs last high step e = e

  -- If the socket API keeps `Writes` and bytes were read, `forward_data` returns. Either it returns true
  -- and has sent the other side all of them, in order and once; or it returns true where a call found no
  -- room, or false where a call failed: then it has sent a proper prefix of them, in order and once,
  -- that call was the last one and was for all of the rest.
  pub forward_data_prefix :
      (s : Proxy World) (conn : Connection) (from_fd to_fd b : ℕ) (bs : List ℕ)
      → (net.read s.world from_fd 8192).1 ≡ got (b ∷ bs)
      → let r = forward_data net s conn from_fd to_fd in
        let w1 = (net.read s.world from_fd 8192).0 in
        ((r.1 ≡ returned (true, false)) × (sent r.0.world to_fd ≡ sent w1 to_fd ++ (b ∷ bs)))
        ⊎ (((r.1 ≡ returned (true, false)) × StoppedBy no_room w1 to_fd (b ∷ bs) r.0.world)
            ⊎ ((r.1 ≡ returned (false, false)) × StoppedBy write_error w1 to_fd (b ∷ bs) r.0.world))
  unfolding forward_data
  forward_data_prefix s conn from_fd to_fd b bs e =
      let w1 = (net.read s.world from_fd 8192).0 in
      let o = write_all net (length (b ∷ bs)) w1 to_fd (b ∷ bs) in
      let ends = write_all-Ends (length (b ∷ bs)) w1 to_fd (b ∷ bs) (omega arith) in
      let at : (q : Sent) → o.1 ≡ q → Ends q w1 to_fd (b ∷ bs) o.0 =
        λ q f. subst (λ z. Ends z w1 to_fd (b ∷ bs) o.0) f ends in
      elim (Sent-cases o.1) [
        | inl f ↦ rw (e, f, forward_data) (inl (refl, at finished f))
        | inr (inl f) ↦ rw (e, f, forward_data) (inr (inl (refl, at blocked f)))
        | inr (inr (inl f)) ↦ rw (e, f, forward_data) (inr (inr (refl, at failed f)))
        | inr (inr (inr f)) ↦ absurd (at unfinished f)
      ]
