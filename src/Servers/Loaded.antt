-- ===== src/Servers/Loaded.antt =====
-- What a manager answers after `load_from_config`.
use l7_loadbalancer.Base.{
  ℕ, ◌+◌, ◌≤◌, ◌≡◌, refl, ap, ◌∙◌, ◌≢◌, ◌⊎◌, inl, inr, List, [], ◌∷◌, some, true, arith, length,
  get_elem?,
}
use l7_loadbalancer.Base.Assoc.{find, nat_eq, find-put}
use l7_loadbalancer.Types.{FiveTuple, RealServer, is_available}
use l7_loadbalancer.Murmur.{Padding}
use l7_loadbalancer.HashRing.{node_count}
use l7_loadbalancer.HashRing.Order.{node_count-add_node}
use l7_loadbalancer.Servers.{
  Manager, RealServerConfig, init, add_server, from_config, load_from, load_from_config,
  select_server,
}
use l7_loadbalancer.Servers.Linked.{init-IsLinked, load_from-IsLinked}
use l7_loadbalancer.Servers.Select.{select_server_cases}

-- A server of the configuration, by its place there.
abbrev pub Configured : ℕ → List RealServerConfig → RealServer → Type 0
Configured i cs rs =
    (j : ℕ) × (c : RealServerConfig) × (get_elem? cs j ≡ some c) × (rs ≡ from_config (i + j) c)

Configured-tail :
    (i : ℕ) (c : RealServerConfig) (cs : List RealServerConfig) (rs : RealServer)
    → Configured (i + 1) cs rs
    → Configured i (c ∷ cs) rs
Configured-tail i c cs rs (j, d, e, q) =
    (j + 1, d, ground arith, q ∙ ap (λ k. from_config k d) (omega arith))

add_server_cases :
    (m : Manager) (new_rs rs : RealServer) (id : ℕ)
    → find id (add_server m new_rs).servers ≡ some rs
    → (find id m.servers ≡ some rs) ⊎ (rs ≡ new_rs)
unfolding add_server
add_server_cases m new_rs rs id e = ground (arith, find-put new_rs.id id new_rs m.servers)

find-load_from_cases :
    (i id : ℕ) (m : Manager) (cs : List RealServerConfig) (rs : RealServer)
    → find id (load_from i m cs).servers ≡ some rs
    → (find id m.servers ≡ some rs) ⊎ Configured i cs rs
unfolding load_from
find-load_from_cases i id m [] rs e = inl e
find-load_from_cases i id m (c ∷ cs) rs e =
    elim (find-load_from_cases (i + 1) id (add_server m (from_config i c)) cs rs e) [
      | inl early ↦ elim (add_server_cases m (from_config i c) rs id early) [
        | inl old ↦ inl old
        | inr same ↦ inr (0, c, refl, same ∙ ap (λ k. from_config k c) (omega arith))
      ]
      | inr later ↦ inr (Configured-tail i c cs rs later)
    ]

load_from-node_count :
    (i : ℕ) (m : Manager) (cs : List RealServerConfig)
    → node_count m.hash_ring ≤ node_count (load_from i m cs).hash_ring
unfolding load_from add_server
load_from-node_count i m [] = omega arith
load_from-node_count i m (c ∷ cs) =
    let rs = from_config i c in
    omega (
      arith,
      load_from-node_count (i + 1) (add_server m rs) cs,
      (node_count-add_node m.hash_ring rs.id rs.weight).0,
    )

load_from-node_count_pos :
    (i : ℕ) (m : Manager) (c : RealServerConfig) (cs : List RealServerConfig)
    → 1 ≤ node_count (load_from i m (c ∷ cs)).hash_ring
unfolding load_from add_server
load_from-node_count_pos i m c cs =
    let rs = from_config i c in
    omega (
      arith,
      load_from-node_count (i + 1) (add_server m rs) cs,
      (node_count-add_node m.hash_ring rs.id rs.weight).2,
    )

-- Once a configuration with at least one server is loaded into a new manager, every flow is given a
-- server, and one that the configuration names.
pub select_server-load_from_config :
    (cs : List RealServerConfig) (t : FiveTuple) (p : Padding)
    → cs ≢ []
    → (rs : RealServer) × (select_server (load_from_config init cs).0 t p ≡ some rs)
      × Configured 0 cs rs
unfolding load_from_config node_count init from_config find
select_server-load_from_config [] t p ne = absurd (ne refl)
select_server-load_from_config (c ∷ cs) t p ne =
    let m = load_from 0 init (c ∷ cs) in
    let linked = load_from-IsLinked 0 init (c ∷ cs) init-IsLinked in
    let many = load_from-node_count_pos 0 init c cs in
    elim (select_server_cases m t p linked) [
      | inl (bare, _) ↦
          let nothing : length m.hash_ring.ring ≡ 0 = ap length bare in absurd (omega arith)
      | inr (id, rs, _, found, given) ↦ elim (find-load_from_cases 0 id init (c ∷ cs) rs found) [
        | inl old ↦ absurd (ground arith)
        | inr (j, d, e, q) ↦
            let is_up : is_available rs ≡ true = rw q refl in (rs, rw is_up at given, (j, d, e, q))
      ]
    ]
