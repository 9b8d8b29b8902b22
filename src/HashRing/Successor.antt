-- ===== src/HashRing/Successor.antt =====
-- Where a flow goes, said without the order of the entries: to the owner of the hash that comes first
-- when one walks round the circle of 32-bit hashes from the flow's hash.
use l7_loadbalancer.Base.{
  ℕ, suc, ◌+◌, ◌-◌, ◌%◌, ◌^◌, ◌≤◌, ◌<◌, ◌≡◌, refl, ◌≢◌, ◌⊎◌, inl, inr, [], ◌∷◌, none, some, arith,
  All, Bool-cases, Option-cases, leb, leb→le, subst,
}
use l7_loadbalancer.Types.{FiveTuple}
use l7_loadbalancer.Murmur.{Padding, hash_tuple}
use l7_loadbalancer.Murmur.Inject.{hash_tuple-lt}
use l7_loadbalancer.HashRing.{Entries, HashRing, lower_bound, begin, pick, get_server}
use l7_loadbalancer.HashRing.Order.{From, IsSorted, AreHashes, IsRing}

-- Steps from `h` up to `k`, round the circle.
abbrev pub distance : ℕ → ℕ → ℕ
distance h k = (k + 2 ^ 32 - h) % 2 ^ 32

-- An entry stands in the ring.
abbrev pub Holds : ℕ → ℕ → Entries → Type 0
Holds k v [] = ⊥
Holds k v ((j, w) ∷ m) = ((j ≡ k) × (w ≡ v)) ⊎ Holds k v m

-- The entry `(k, v)` is in the ring, and none is nearer to `h`.
abbrev pub IsNearest : ℕ → ℕ → ℕ → Entries → Type 0
IsNearest h k v m = Holds k v m × All (λ e. distance h k ≤ distance h e.0) m

-- Past the lower bound all hashes lie above it.
above :
    (h k lo : ℕ) (m : Entries)
    → h ≤ k
    → k < 2 ^ 32
    → k ≤ lo
    → From lo m
    → AreHashes m
    → All (λ e. distance h k ≤ distance h e.0) m
above h k lo [] hk hb kl s b = tt
above h k lo ((j, w) ∷ m) hk hb kl s b =
    (omega arith, above h k (suc j) m hk hb (omega arith) s.1 b.1)

lower_bound-some :
    (h v lo : ℕ) (m : Entries)
    → h < 2 ^ 32
    → From lo m
    → AreHashes m
    → lower_bound h m ≡ some v
    → (k : ℕ) × (h ≤ k) × (k < 2 ^ 32) × IsNearest h k v m
unfolding lower_bound
lower_bound-some h v lo [] hh s b e = cc
lower_bound-some h v lo ((j, w) ∷ m) hh s b e = elim (Bool-cases (leb h j)) [
  | inl up ↦
      let hj : h ≤ j = leb→le h j up in
      (
        j,
        hj,
        b.0,
        (inl (refl, ground arith), (omega arith, above h j (suc j) m hj b.0 (omega arith) s.1 b.1)),
      )
  | inr low ↦
      let (k, hk, bk, near) = lower_bound-some h v (suc j) m hh s.1 b.1 (ground arith) in
      (k, hk, bk, (inr near.0, (ground arith, near.1)))
]

lower_bound-none : (h : ℕ) (m : Entries) → lower_bound h m ≡ none → All (λ e. e.0 < h) m
unfolding lower_bound
lower_bound-none h [] e = tt
lower_bound-none h ((j, w) ∷ m) e = elim (Bool-cases (leb h j)) [
  | inl up ↦ absurd (ground arith)
  | inr low ↦ (ground arith, lower_bound-none h m (ground arith))
]

-- When every hash lies below `h`, the walk wraps round to the lowest.
wrapped :
    (h k lo : ℕ) (m : Entries)
    → h < 2 ^ 32
    → k < h
    → k ≤ lo
    → From lo m
    → All (λ e. e.0 < h) m
    → All (λ e. distance h k ≤ distance h e.0) m
wrapped h k lo [] hh hk kl s b = tt
wrapped h k lo ((j, w) ∷ m) hh hk kl s b =
    (omega arith, wrapped h k (suc j) m hh hk (omega arith) s.1 b.1)

begin-IsNearest :
    (h v : ℕ) (m : Entries)
    → h < 2 ^ 32
    → IsSorted m
    → All (λ e. e.0 < h) m
    → begin m ≡ some v
    → (k : ℕ) × IsNearest h k v m
unfolding begin
begin-IsNearest h v [] hh s low e = cc
begin-IsNearest h v ((j, w) ∷ m) hh s low e = (
  j,
  (inl (refl, ground arith), (omega arith, wrapped h j (suc j) m hh low.0 (omega arith) s.1 low.1)),
)

pick-IsNearest :
    (h v : ℕ) (m : Entries)
    → h < 2 ^ 32
    → IsSorted m
    → AreHashes m
    → pick h m ≡ some v
    → (k : ℕ) × IsNearest h k v m
unfolding pick
pick-IsNearest h v m hh s b e = elim (Option-cases (lower_bound h m)) [
  | inl gone ↦ begin-IsNearest h v m hh s (lower_bound-none h m gone) (rw (gone, pick) at e)
  | inr (u, found) ↦
      let (k, hk, bk, near) = lower_bound-some h u 0 m hh s b found in
      let same : u ≡ v = ground arith in (k, subst (λ x. IsNearest h k x m) same near)
]

pub pick-some : (h : ℕ) (m : Entries) → m ≢ [] → (v : ℕ) × (pick h m ≡ some v)
unfolding pick begin
pick-some h [] ne = absurd (ne refl)
pick-some h ((k, v) ∷ m) ne = elim (Option-cases (lower_bound h ((k, v) ∷ m))) [
  | inl gone ↦ (v, rw (gone, pick) refl)
  | inr (u, found) ↦ (u, rw (found, pick) refl)
]

-- On a ring with entries `get_server` answers, and with the server whose virtual node comes first
-- round the circle from the flow's hash.
pub get_server-IsNearest :
    (r : HashRing) (t : FiveTuple) (p : Padding)
    → IsRing r
    → r.ring ≢ []
    → (k : ℕ) × (v : ℕ) × (get_server r t p ≡ some v) × IsNearest (hash_tuple t p) k v r.ring
unfolding get_server
get_server-IsNearest r t p w ne =
    let (v, e) = pick-some (hash_tuple t p) r.ring ne in
    let (k, near) =
      pick-IsNearest (hash_tuple t p) v r.ring (hash_tuple-lt t p) w.sorted w.hashes e in
    (k, v, e, near)
