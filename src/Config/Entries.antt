-- ===== src/Config/Entries.antt =====
-- When reading the real servers of include/common/config.h throws.
use l7_loadbalancer.Base.{
  ℕ, zero, suc, ◌+◌, ◌<◌, ◌≤◌, ◌≡◌, refl, ◌↔◌, ◌⊎◌, inl, inr, List, [], ◌∷◌, Option, none, some,
  arith, map, length, Option-cases, ◌>>=◌,
}
use l7_loadbalancer.Text.Strings.{split, trim, stoi, ℤ, codes, pos}
use l7_loadbalancer.Text.Strings
use l7_loadbalancer.Servers.{RealServerConfig}
use l7_loadbalancer.Config.{
  Config, part, number_part, parse_server, server_text, server_of, servers_from, rounds, get_int,
  parse_real_servers, read_lines, load, thrown, loaded,
}

abbrev pub parts_of : List ℕ → List (List ℕ)
parts_of value = map trim (split b':' value)

-- An entry with a port or a weight that is no number of an `int`.
abbrev pub IsBad : List ℕ → Type 0
IsBad value =
    ((2 ≤ length (parts_of value)) × (stoi (part (parts_of value) 1) ≡ none))
    ⊎ ((3 ≤ length (parts_of value)) × (stoi (part (parts_of value) 2) ≡ none))

number_part-none :
    (parts : List (List ℕ)) (i : ℕ) (cast : ℤ → ℕ) (unset : ℕ)
    → (number_part parts i cast unset ≡ none)
      ↔ ((i + 1 ≤ length parts) × (stoi (part parts i) ≡ none))
unfolding number_part
number_part-none parts i cast unset = (λ e. ground arith, λ h. ground arith)

parse_server-none :
    (blank : RealServerConfig) (value : List ℕ) → (parse_server blank value ≡ none) ↔ IsBad value
unfolding parse_server
parse_server-none blank value =
    let parts = parts_of value in
    let port = number_part-none parts 1 Strings.int_u16 blank.port in
    let weight = number_part-none parts 2 Strings.int_u32 blank.weight in
    (λ e. ground arith, λ h. ground arith)

-- A chain of two steps fails where one of them does.
bind_none {ℓ κ} :
    {A : Type ℓ} {B : Type κ} (m : Option A) (f : A → Option B)
    → (m >>= f) ≡ none
    → (m ≡ none) ⊎ ((a : A) × (m ≡ some a) × (f a ≡ none))
bind_none none f e = inl refl
bind_none (some a) f e = inr (a, refl, e)

server_of-none :
    (blank : RealServerConfig) (value : List ℕ) → (server_of blank value ≡ none) ↔ IsBad value
unfolding server_of split
server_of-none blank [] = (λ e. cc, λ h. ground arith)
server_of-none blank (c ∷ s) =
    let inner = parse_server-none blank (c ∷ s) in
    (
      λ e. inner.0 (elim (bind_none (parse_server blank (c ∷ s)) (λ rs. some (rs ∷ [])) e) [
        | inl q ↦ q
        | inr (rs, _, q) ↦ absurd (cc)
      ]),
      λ h. rw (inner.1 h, server_of) refl,
    )

-- One of the servers `i` to `i + left - 1` has a bad entry.
abbrev pub HasBad : Config → ℕ → ℕ → Type 0
HasBad c left i = (k : ℕ) × (k < left) × IsBad (server_text c (i + k))

servers_from-none :
    (blank : RealServerConfig) (c : Config) (left i : ℕ)
    → servers_from blank c left i ≡ none
    → HasBad c left i
unfolding servers_from
servers_from-none blank c zero i e = cc
servers_from-none blank c (suc left) i e =
    elim (bind_none (server_of blank (server_text c i)) _ e) [
      | inl here ↦ (
        0,
        omega arith,
        rw (let z : i + 0 ≡ i = omega arith in z) ((server_of-none blank (server_text c i)).0 here),
      )
      | inr (first, _, e2) ↦ elim (bind_none (servers_from blank c left (i + 1)) _ e2) [
        | inl later ↦
            let (k, h, bad) = servers_from-none blank c left (i + 1) later in
            (suc k, omega arith, rw (let z : i + suc k ≡ i + 1 + k = omega arith in z) bad)
        | inr (rest, _, e3) ↦ absurd (cc)
      ]
    ]

servers_from_bad :
    (blank : RealServerConfig) (c : Config) (left i k : ℕ)
    → k < left
    → IsBad (server_text c (i + k))
    → servers_from blank c left i ≡ none
unfolding servers_from
servers_from_bad blank c zero i k h bad = absurd (omega arith)
servers_from_bad blank c (suc left) i zero h bad =
    rw
      (
        (server_of-none blank (server_text c i)).1
            (rw (let z : i + 0 ≡ i = omega arith in z) at bad),
        servers_from,
      )
      refl
servers_from_bad blank c (suc left) i (suc k) h bad =
    let rest =
      servers_from_bad blank c left (i + 1) k (omega arith)
        (rw (let z : i + suc k ≡ i + 1 + k = omega arith in z) at bad) in
    elim (Option-cases (server_of blank (server_text c i))) [
      | inl gone ↦ rw (gone, servers_from) refl
      | inr (first, found) ↦ rw (found, servers_from, rest) refl
    ]

-- `parse_real_servers` throws exactly when one of the servers that it counts has a port or a weight that
-- is there and is no number of an `int`.
pub parse_real_servers_throws :
    (blank : RealServerConfig) (c : Config)
    → (parse_real_servers blank c ≡ none)
      ↔ HasBad c (rounds (get_int c (codes "realserver") (codes "count") (pos 0))) 1
unfolding parse_real_servers
parse_real_servers_throws blank c =
    let n = rounds (get_int c (codes "realserver") (codes "count") (pos 0)) in
    (
      λ e. elim (bind_none (servers_from blank c n 1) _ e) [
        | inl q ↦ servers_from-none blank c n 1 q
        | inr (servers, _, q) ↦ absurd (cc)
      ],
      λ (k, h, bad). rw (servers_from_bad blank c n 1 k h bad, parse_real_servers) refl,
    )

-- The configuration once the lines of a file are read.
abbrev pub with_file : Config → List ℕ → Config
with_file c file = record c {
  config_map = (read_lines (record { section = []; items = c.config_map }) (split 10 file)).items;
}

abbrev pub server_count : Config → ℕ
server_count c = rounds (get_int c (codes "realserver") (codes "count") (pos 0))

-- `load` of a file that opens ends in the exception of a bad entry, or returns true.
pub load_cases :
    (blank : RealServerConfig) (c : Config) (file : List ℕ)
    → (HasBad (with_file c file) (server_count (with_file c file)) 1
        × (load blank c (some file) ≡ thrown))
      ⊎ ((c' : Config) × (parse_real_servers blank (with_file c file) ≡ some c')
          × (load blank c (some file) ≡ loaded c'))
unfolding load
load_cases blank c file =
    let c1 = with_file c file in
    elim (Option-cases (parse_real_servers blank c1)) [
      | inl gone ↦ inl ((parse_real_servers_throws blank c1).0 gone, rw (gone, load) refl)
      | inr (c2, found) ↦ inr (c2, found, rw (found, load) refl)
    ]
