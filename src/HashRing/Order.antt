-- ===== src/HashRing/Order.antt =====
-- The entries stay in rising order of their hashes.
use l7_loadbalancer.Base.{ℕ, zero, suc, ◌+◌, ◌≤◌, ◌^◌, ◌<◌, [], ◌∷◌, ◌++◌, arith, length, All}
use l7_loadbalancer.HashRing.{
  Entries, HashRing, put, insert_replicas, add_node, erase_server, remove_node, vnode_hash,
  replicas, node_count, new,
}
use l7_loadbalancer.Text.{to_string}
use l7_loadbalancer.Murmur.Inject.{hash-lt}

-- All hashes are above `lo` or equal to it.
abbrev pub From : ℕ → Entries → Type 0
From lo [] = Unit
From lo ((k, v) ∷ m) = (lo ≤ k) × From (suc k) m

-- Strictly rising: a map has one entry for each hash.
abbrev pub IsSorted : Entries → Type 0
IsSorted m = From 0 m

From-mono : {lo lo' : ℕ} (m : Entries) → lo ≤ lo' → From lo' m → From lo m
From-mono [] h s = tt
From-mono ((k, v) ∷ m) h s = (omega arith, s.1)

put-From : (lo k v : ℕ) (m : Entries) → lo ≤ k → From lo m → From lo (put k v m)
unfolding put
put-From lo k v [] h s = (h, tt)
put-From lo k v ((j, w) ∷ m) h s = ground (arith, put-From (suc j) k v m)

pub insert_replicas-IsSorted :
    (n i id : ℕ) (m : Entries) → IsSorted m → IsSorted (insert_replicas n i id m)
unfolding insert_replicas
insert_replicas-IsSorted zero i id m s = s
insert_replicas-IsSorted (suc n) i id m s =
    insert_replicas-IsSorted n (i + 1) id (put (vnode_hash id i) id m)
      (put-From 0 (vnode_hash id i) id m (omega arith) s)

pub erase_server-From : (lo id : ℕ) (m : Entries) → From lo m → From lo (erase_server id m)
unfolding erase_server
erase_server-From lo id [] s = tt
erase_server-From lo id ((k, v) ∷ m) s = ground (
  arith,
  erase_server-From (suc k) id m s.1,
  From-mono {lo = lo} {lo' = suc k} (erase_server id m),
)

abbrev pub AreHashes : Entries → Type 0
AreHashes m = All (λ e. e.0 < 2 ^ 32) m

vnode_hash-lt : (id i : ℕ) → vnode_hash id i < 2 ^ 32
unfolding vnode_hash
vnode_hash-lt id i = hash-lt (to_string id ++ (b'#' ∷ to_string i)) 0

put-AreHashes : (k v : ℕ) (m : Entries) → k < 2 ^ 32 → AreHashes m → AreHashes (put k v m)
unfolding put
put-AreHashes k v [] h b = (h, tt)
put-AreHashes k v ((j, w) ∷ m) h b = ground (arith, put-AreHashes k v m)

pub insert_replicas-AreHashes :
    (n i id : ℕ) (m : Entries) → AreHashes m → AreHashes (insert_replicas n i id m)
unfolding insert_replicas
insert_replicas-AreHashes zero i id m b = b
insert_replicas-AreHashes (suc n) i id m b =
    insert_replicas-AreHashes n (i + 1) id (put (vnode_hash id i) id m)
      (put-AreHashes (vnode_hash id i) id m (vnode_hash-lt id i) b)

pub erase_server-AreHashes : (id : ℕ) (m : Entries) → AreHashes m → AreHashes (erase_server id m)
unfolding erase_server
erase_server-AreHashes id [] b = tt
erase_server-AreHashes id ((k, v) ∷ m) b = ground (arith, erase_server-AreHashes id m b.1)

-- The entries stand in strictly rising order, and their keys are uint32_t values.
pub record IsRing (r : HashRing) : Type 0 where
  pub sorted : IsSorted r.ring
  pub hashes : AreHashes r.ring

-- A new ring is in order, and adding and removing a server keep it so.
pub nodes-IsRing :
    (r : HashRing) (virtual_nodes id weight : ℕ)
    → IsRing r
    → IsRing (new virtual_nodes) × IsRing (add_node r id weight) × IsRing (remove_node r id)
unfolding new add_node remove_node
nodes-IsRing r virtual_nodes id weight w =
    let n = replicas r.virtual_nodes weight in
    (
      record { sorted = tt; hashes = tt },
      record {
        sorted = insert_replicas-IsSorted n 0 id r.ring w.sorted;
        hashes = insert_replicas-AreHashes n 0 id r.ring w.hashes;
      },
      record {
        sorted = erase_server-From 0 id r.ring w.sorted;
        hashes = erase_server-AreHashes id r.ring w.hashes;
      },
    )

length-put-le :
    (k v : ℕ) (m : Entries)
    → (length (put k v m) ≤ length m + 1)
      × (1 ≤ length (put k v m))
      × (length m ≤ length (put k v m))
unfolding put
length-put-le k v [] = omega arith
length-put-le k v ((j, w) ∷ m) = ground (arith, length-put-le k v m)

length-insert_replicas :
    (n i id : ℕ) (m : Entries)
    → (length (insert_replicas n i id m) ≤ length m + n)
      × (length m ≤ length (insert_replicas n i id m))
unfolding insert_replicas
length-insert_replicas zero i id m = omega arith
length-insert_replicas (suc n) i id m = omega (
  arith,
  length-put-le (vnode_hash id i) id m,
  length-insert_replicas n (i + 1) id (put (vnode_hash id i) id m),
)

length-insert_replicas_pos :
    (n i id : ℕ) (m : Entries) → 1 ≤ n → 1 ≤ length (insert_replicas n i id m)
unfolding insert_replicas
length-insert_replicas_pos zero i id m h = absurd (omega arith)
length-insert_replicas_pos (suc n) i id m h = omega (
  arith,
  length-put-le (vnode_hash id i) id m,
  length-insert_replicas n (i + 1) id (put (vnode_hash id i) id m),
)

replicas_pos : (virtual_nodes weight : ℕ) → 1 ≤ replicas virtual_nodes weight
unfolding replicas
replicas_pos virtual_nodes weight = ground arith

-- `node_count` counts virtual nodes: adding a server loses none, adds at most its replicas and leaves
-- at least one.
pub node_count-add_node :
    (r : HashRing) (id weight : ℕ)
    → (node_count r ≤ node_count (add_node r id weight))
      × (node_count (add_node r id weight) ≤ node_count r + replicas r.virtual_nodes weight)
      × (1 ≤ node_count (add_node r id weight))
unfolding node_count add_node
node_count-add_node r id weight =
    let n = replicas r.virtual_nodes weight in
    omega (
      arith,
      length-insert_replicas n 0 id r.ring,
      length-insert_replicas_pos n 0 id r.ring (replicas_pos r.virtual_nodes weight),
    )
