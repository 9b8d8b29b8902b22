-- ===== src/Sessions/Cleanup.antt =====
-- What `cleanup` removes and what it keeps.
use l7_loadbalancer.Base.{
  ℕ, ◌+◌, ◌*◌, ◌^◌, ◌≤◌, ◌<◌, ◌≡◌, refl, ◌⊎◌, List, [], ◌∷◌, none, some, arith, length,
  if◌then◌else◌, Option-cases, Bool-cases, inl, inr, false, ◌∙◌,
}
use l7_loadbalancer.Base.Assoc.{find, IsMap, find-put}
use l7_loadbalancer.Types.{FiveTuple, tuple_key, tuple_eq_iff, Session, touch, is_expired, decr}
use l7_loadbalancer.Sessions.{Manager, lookup, sweep, cleanup, active_count}
use l7_loadbalancer.Sessions.Table.{IsCounted, lookup-IsCounted}

module _ (clock : ℕ → ℕ) (timeout_sec : ℕ) where
  -- What is absent stays absent.
  sweep_absent :
      (i active : ℕ) (m : List (FiveTuple × Session)) (u : FiveTuple)
      → find u m ≡ none
      → find u (sweep clock timeout_sec i active m).kept ≡ none
  unfolding sweep find
  sweep_absent i active [] u e = refl
  sweep_absent i active ((t, s) ∷ m) u e = elim (Bool-cases (is_expired (clock i) timeout_sec s)) [
    | inl old ↦ rw (old, sweep) (sweep_absent (i + 1) (decr active) m u (ground arith))
    | inr live ↦
        let rest = sweep_absent (i + 1) active m u (ground arith) in
        rw (live, sweep) (ground (arith, rest))
  ]

  sweep-IsMap :
      (i active : ℕ) (m : List (FiveTuple × Session))
      → IsMap m
      → IsMap (sweep clock timeout_sec i active m).kept
  unfolding sweep
  sweep-IsMap i active [] w = tt
  sweep-IsMap i active ((t, s) ∷ m) w = elim (Bool-cases (is_expired (clock i) timeout_sec s)) [
    | inl old ↦ rw (old, sweep) (sweep-IsMap (i + 1) (decr active) m w.1)
    | inr live ↦
        rw (live, sweep) (sweep_absent (i + 1) active m t w.0, sweep-IsMap (i + 1) active m w.1)
  ]

  -- The number removed is what the table loses, and what the counter goes down by.
  sweep_counts :
      (i active : ℕ) (m : List (FiveTuple × Session))
      → length m ≤ active
      → active < 2 ^ 64
      → let r = sweep clock timeout_sec i active m in
        (r.removed + length r.kept ≡ length m) × (r.active + r.removed ≡ active)
  unfolding sweep
  sweep_counts i active [] h b = omega arith
  sweep_counts i active ((t, s) ∷ m) h b =
      ground (arith, sweep_counts (i + 1) (decr active) m, sweep_counts (i + 1) active m)

-- `cleanup` keeps one session for a flow and the counter exact, whatever the clock reads, and returns
-- the number of sessions that are gone.
pub cleanup-IsCounted :
    (m : Manager) (clock : ℕ → ℕ)
    → IsCounted m
    → active_count m < 2 ^ 64
    → IsCounted (cleanup m clock).0
      × ((cleanup m clock).1 + active_count (cleanup m clock).0 ≡ active_count m)
unfolding cleanup active_count
cleanup-IsCounted m clock w small =
    let n = m.stats.active_sessions in
    let (lost, down) =
      sweep_counts clock m.timeout_sec 0 n m.sessions (omega (arith, w.counted))
        (omega (arith, w.counted)) in
    (
      record {
        table = sweep-IsMap clock m.timeout_sec 0 n m.sessions w.table;
        counted = omega (arith, w.counted);
      },
      lost,
    )

-- What `find` gives after the sweep, when every reading of the clock is `now`.
sweep-find :
    (now timeout_sec i active : ℕ) (m : List (FiveTuple × Session)) (u : FiveTuple)
    → IsMap m
    → find u (sweep (λ _. now) timeout_sec i active m).kept ≡ elim (find u m) [
      | none ↦ none
      | some s ↦ if is_expired now timeout_sec s then none else some s
    ]
unfolding sweep find
sweep-find now timeout_sec i active [] u w = refl
sweep-find now timeout_sec i active ((t, s) ∷ m) u w = ground (
  arith,
  tuple_eq_iff t u,
  w.0,
  sweep_absent (λ _. now) timeout_sec (i + 1) (decr active) m u,
  sweep-find now timeout_sec (i + 1) (decr active) m u w.1,
  sweep-find now timeout_sec (i + 1) active m u w.1,
)

-- With one reading of the clock, `cleanup` removes exactly the sessions that have been idle for more
-- than the timeout: a flow's session is found after it if and only if it had not expired.
pub cleanup-find :
    (m : Manager) (now : ℕ) (u : FiveTuple)
    → IsMap m.sessions
    → find u (cleanup m (λ _. now)).0.sessions ≡ elim (find u m.sessions) [
      | none ↦ none
      | some s ↦ if is_expired now m.timeout_sec s then none else some s
    ]
unfolding cleanup
cleanup-find m now u w = sweep-find now m.timeout_sec 0 m.stats.active_sessions m.sessions u w

touch_fresh :
    (now now' timeout_sec : ℕ) (s : Session)
    → now ≤ now'
    → now' ≤ now + timeout_sec * 1000000000
    → now' < 2 ^ 64
    → timeout_sec < 2 ^ 32
    → is_expired now' timeout_sec (touch now s) ≡ false
unfolding is_expired touch
touch_fresh now now' timeout_sec s h h' b bt = ground arith

find-lookup :
    (m : Manager) (now : ℕ) (t : FiveTuple)
    → find t (lookup m now t).0.sessions ≡ (lookup m now t).1
unfolding lookup
find-lookup m now t = elim (Option-cases (find t m.sessions)) [
  | inl gone ↦ rw (gone, lookup) gone
  | inr (s, found) ↦
      rw (found, lookup) (ground (arith, find-put t t (touch now s) m.sessions, tuple_eq_iff t t))
]

lookup_cases :
    (m : Manager) (now : ℕ) (t : FiveTuple)
    → ((lookup m now t).1 ≡ none) ⊎ ((s : Session) × ((lookup m now t).1 ≡ some (touch now s)))
unfolding lookup
lookup_cases m now t = elim (Option-cases (find t m.sessions)) [
  | inl gone ↦ inl (rw (gone, lookup) refl)
  | inr (s, found) ↦ inr (s, rw (found, lookup) refl)
]

timeout_sec-lookup :
    (m : Manager) (now : ℕ) (t : FiveTuple) → (lookup m now t).0.timeout_sec ≡ m.timeout_sec
unfolding lookup
timeout_sec-lookup m now t = ground arith

-- A session that a packet has just been looked up for survives every `cleanup` within the timeout
-- unchanged, so the flow keeps its server.
cleanup-lookup :
    (m : Manager) (now now' : ℕ) (t : FiveTuple)
    → IsCounted m
    → now ≤ now'
    → now' ≤ now + m.timeout_sec * 1000000000
    → now' < 2 ^ 64
    → m.timeout_sec < 2 ^ 32
    → find t (cleanup (lookup m now t).0 (λ _. now')).0.sessions ≡ (lookup m now t).1
cleanup-lookup m now now' t w h h' b bt =
    cleanup-find (lookup m now t).0 now' t (lookup-IsCounted m now t w).table
    ∙ rw (find-lookup m now t) (elim (lookup_cases m now t) [
      | inl e ↦ rw e refl
      | inr (s, e) ↦
          rw (e, timeout_sec-lookup m now t, touch_fresh now now' m.timeout_sec s h h' b bt) refl
    ])
