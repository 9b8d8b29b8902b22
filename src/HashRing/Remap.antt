-- ===== src/HashRing/Remap.antt =====
-- What a change of the servers does to the flows: the point of consistent hashing.
use l7_loadbalancer.Base.{
  ℕ, zero, suc, ◌+◌, ◌<◌, ◌≡◌, refl, ap, ◌∙◌, ◌≢◌, ◌⊎◌, inl, inr, [], ◌∷◌, none, some, arith, All,
  Bool-cases, ltb, ◌==◌,
}
use l7_loadbalancer.Types.{FiveTuple}
use l7_loadbalancer.Murmur.{Padding, hash_tuple}
use l7_loadbalancer.HashRing.{
  Entries, HashRing, put, insert_replicas, add_node, erase_server, remove_node, vnode_hash,
  replicas, lower_bound, begin, pick, get_server,
}

lower_bound-put :
    (h k id : ℕ) (m : Entries)
    → (lower_bound h (put k id m) ≡ some id) ⊎ (lower_bound h (put k id m) ≡ lower_bound h m)
unfolding put lower_bound
lower_bound-put h k id [] = ground arith
lower_bound-put h k id ((j, w) ∷ m) = ground (arith, lower_bound-put h k id m)

begin-put :
    (k id : ℕ) (m : Entries) → (begin (put k id m) ≡ some id) ⊎ (begin (put k id m) ≡ begin m)
unfolding put begin
begin-put k id [] = inl refl
begin-put k id ((j, w) ∷ m) = ground arith

pick-put :
    (h k id : ℕ) (m : Entries) → (pick h (put k id m) ≡ some id) ⊎ (pick h (put k id m) ≡ pick h m)
unfolding pick
pick-put h k id m = ground (arith, lower_bound-put h k id m, begin-put k id m)

pick-insert_replicas :
    (h n i id : ℕ) (m : Entries)
    → (pick h (insert_replicas n i id m) ≡ some id) ⊎ (pick h (insert_replicas n i id m) ≡ pick h m)
unfolding insert_replicas
pick-insert_replicas h zero i id m = inr refl
pick-insert_replicas h (suc n) i id m = ground (
  arith,
  pick-put h (vnode_hash id i) id m,
  pick-insert_replicas h n (i + 1) id (put (vnode_hash id i) id m),
)

-- Adding a server moves flows to that server only: every flow goes to the new server or stays where
-- it was.
pub get_server-add_node :
    (r : HashRing) (id weight : ℕ) (t : FiveTuple) (p : Padding)
    → (get_server (add_node r id weight) t p ≡ some id)
      ⊎ (get_server (add_node r id weight) t p ≡ get_server r t p)
unfolding get_server add_node
get_server-add_node r id weight t p =
    pick-insert_replicas (hash_tuple t p) (replicas r.virtual_nodes weight) 0 id r.ring

lower_bound-erase_server :
    (h s id : ℕ) (m : Entries)
    → s ≢ id
    → lower_bound h m ≡ some s
    → lower_bound h (erase_server id m) ≡ some s
unfolding lower_bound erase_server
lower_bound-erase_server h s id [] ne e = cc
lower_bound-erase_server h s id ((k, v) ∷ m) ne e =
    ground (arith, lower_bound-erase_server h s id m ne)

lower_bound-erase_server-none :
    (h id : ℕ) (m : Entries) → lower_bound h m ≡ none → lower_bound h (erase_server id m) ≡ none
unfolding lower_bound erase_server
lower_bound-erase_server-none h id [] e = refl
lower_bound-erase_server-none h id ((k, v) ∷ m) e =
    ground (arith, lower_bound-erase_server-none h id m)

begin-erase_server :
    (s id : ℕ) (m : Entries) → s ≢ id → begin m ≡ some s → begin (erase_server id m) ≡ some s
unfolding begin erase_server
begin-erase_server s id [] ne e = cc
begin-erase_server s id ((k, v) ∷ m) ne e = ground arith

pick-erase_server :
    (h s id : ℕ) (m : Entries) → s ≢ id → pick h m ≡ some s → pick h (erase_server id m) ≡ some s
unfolding pick
pick-erase_server h s id m ne e = ground (
  arith,
  lower_bound-erase_server h s id m ne,
  lower_bound-erase_server-none h id m,
  begin-erase_server s id m ne,
)

-- Removing a server leaves every flow of every other server where it was.
pub get_server-remove_node :
    (r : HashRing) (id s : ℕ) (t : FiveTuple) (p : Padding)
    → s ≢ id
    → get_server r t p ≡ some s
    → get_server (remove_node r id) t p ≡ some s
unfolding get_server remove_node
get_server-remove_node r id s t p ne e = pick-erase_server (hash_tuple t p) s id r.ring ne e

abbrev pub Lacks : ℕ → Entries → Type 0
Lacks id m = All (λ e. e.1 ≢ id) m

pub erase_server-Lacks : (id : ℕ) (m : Entries) → Lacks id (erase_server id m)
unfolding erase_server
erase_server-Lacks id [] = tt
erase_server-Lacks id ((k, v) ∷ m) = ground (arith, erase_server-Lacks id m)

lower_bound-Lacks : (h id : ℕ) (m : Entries) → Lacks id m → lower_bound h m ≢ some id
unfolding lower_bound
lower_bound-Lacks h id [] q e = cc
lower_bound-Lacks h id ((k, v) ∷ m) q e = ground (arith, lower_bound-Lacks h id m q.1, q.0)

begin-Lacks : (id : ℕ) (m : Entries) → Lacks id m → begin m ≢ some id
unfolding begin
begin-Lacks id [] q e = cc
begin-Lacks id ((k, v) ∷ m) q e = ground (arith, q.0)

-- A removed server gets no flow any more.
pub get_server-ne_removed :
    (r : HashRing) (id : ℕ) (t : FiveTuple) (p : Padding)
    → get_server (remove_node r id) t p ≢ some id
unfolding get_server remove_node pick
get_server-ne_removed r id t p e =
    let m = erase_server id r.ring in
    let q = erase_server-Lacks id r.ring in
    ground (arith, lower_bound-Lacks (hash_tuple t p) id m q, begin-Lacks id m q)

-- The hash `k` is not taken by a server other than `id`.
abbrev pub IsFree : ℕ → ℕ → Entries → Type 0
IsFree k id m = All (λ e. e.0 ≡ k → e.1 ≡ id) m

erase_server-put :
    (k id : ℕ) (m : Entries) → IsFree k id m → erase_server id (put k id m) ≡ erase_server id m
unfolding erase_server put
erase_server-put k id [] f = ground arith
erase_server-put k id ((j, w) ∷ m) f = ground (arith, f.0, erase_server-put k id m f.1)

put-IsFree : (k k' id : ℕ) (m : Entries) → IsFree k id m → IsFree k id (put k' id m)
unfolding put
put-IsFree k k' id [] f = (λ _. refl, tt)
put-IsFree k k' id ((j, w) ∷ m) f = elim (Bool-cases (ltb k' j)) [
  | inl below ↦ rw below (λ _. refl, f)
  | inr above ↦ elim (Bool-cases (k' == j)) [
    | inl same ↦ rw (above, same) (λ _. refl, f.1)
    | inr other ↦ rw (above, other) (f.0, put-IsFree k k' id m f.1)
  ]
]

erase_server-insert_replicas :
    (n i id : ℕ) (m : Entries)
    → ((j : ℕ) → j < i + n → IsFree (vnode_hash id j) id m)
    → erase_server id (insert_replicas n i id m) ≡ erase_server id m
unfolding insert_replicas
erase_server-insert_replicas zero i id m f = refl
erase_server-insert_replicas (suc n) i id m f =
    erase_server-insert_replicas n (i + 1) id (put (vnode_hash id i) id m)
      (λ j h. put-IsFree (vnode_hash id j) (vnode_hash id i) id m (f j (omega arith)))
    ∙ erase_server-put (vnode_hash id i) id m (f i (omega arith))

erase_server_absent : (id : ℕ) (m : Entries) → Lacks id m → erase_server id m ≡ m
unfolding erase_server
erase_server_absent id [] q = refl
erase_server_absent id ((k, v) ∷ m) q = ground (arith, q.0, erase_server_absent id m q.1)

-- Adding a server that the ring does not know and removing it again gives back the ring, if none of
-- the server's virtual nodes hits a hash that another server has.
pub remove_node-add_node :
    (r : HashRing) (id weight : ℕ)
    → Lacks id r.ring
    → ((i : ℕ) → i < replicas r.virtual_nodes weight → IsFree (vnode_hash id i) id r.ring)
    → remove_node (add_node r id weight) id ≡ r
unfolding remove_node add_node
remove_node-add_node r id weight lacks free =
    ap (λ (m : Entries). record r { ring = m })
      (erase_server-insert_replicas (replicas r.virtual_nodes weight) 0 id r.ring
          (λ j h. free j (omega arith))
        ∙ erase_server_absent id r.ring lacks)
