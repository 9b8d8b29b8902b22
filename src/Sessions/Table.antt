-- ===== src/Sessions/Table.antt =====
-- The session table as a map from flows to sessions, and the counter beside it.
use l7_loadbalancer.Base.{
  ℕ, ◌+◌, ◌^◌, ◌<◌, ◌≡◌, sym, List, none, some, arith, length, if◌then◌else◌, Option-cases, inl,
  inr, ◌∙◌, ◌≢◌, ap, refl, true, false,
}
use l7_loadbalancer.Base.Assoc.{
  find, put, IsMap, find-put, put-IsMap, erase-IsMap, length-put, length-erase,
}
use l7_loadbalancer.Types.{FiveTuple, tuple_key, tuple_eq, tuple_eq_iff, Session, touch}
use l7_loadbalancer.Sessions.{
  Manager, lookup, create, update_stats, remove, fresh_session, active_count, account,
}

-- A session that was created is found for its flow: it names the flow and the server that it was created
-- for, with the time of creation and no packets and bytes, and the lookup has set its last activity to
-- its own time, in the session that it gives and in the table. Every other flow finds what it found
-- before. Times are unsigned 64-bit numbers.
pub lookup-create :
    (m : Manager) (now now' : ℕ) (t u : FiveTuple) (server_id : ℕ)
    → now < 2 ^ 64
    → now' < 2 ^ 64
    → t ≢ u
    → ((s : Session) × ((lookup (create m now t server_id) now' t).1 ≡ some s)
        × (find t (lookup (create m now t server_id) now' t).0.sessions ≡ some s)
        × (s.client_tuple ≡ t)
        × (s.real_server_id ≡ server_id)
        × (s.create_time ≡ now)
        × (s.last_active ≡ now')
        × (s.packets ≡ 0)
        × (s.bytes ≡ 0))
      × ((lookup (create m now t server_id) now' u).1 ≡ (lookup m now' u).1)
unfolding lookup create fresh_session touch
lookup-create m now now' t u server_id small small' ne =
    let s0 = fresh_session now t server_id in
    let self : tuple_eq t t ≡ true = (tuple_eq_iff t t).1 refl in
    let here : find t (put t s0 m.sessions) ≡ some s0 =
      find-put t t s0 m.sessions ∙ ap (λ c. if c then some s0 else find t m.sessions) self in
    let there : find t (put t (touch now' s0) (put t s0 m.sessions)) ≡ some (touch now' s0) =
      find-put t t (touch now' s0) (put t s0 m.sessions)
      ∙ ap (λ c. if c then some (touch now' s0) else find t (put t s0 m.sessions)) self in
    let apart : tuple_eq t u ≡ false = ground (arith, tuple_eq_iff t u) in
    let other : find u (put t s0 m.sessions) ≡ find u m.sessions =
      find-put t u s0 m.sessions ∙ ap (λ c. if c then some s0 else find u m.sessions) apart in
    (
      (
        touch now' s0,
        rw (here, lookup) refl,
        rw (here, lookup) there,
        refl,
        refl,
        omega arith,
        omega arith,
        refl,
        refl,
      ),
      elim (Option-cases (find u m.sessions)) [
        | inl e ↦ rw (other, e, lookup) refl
        | inr (s, e) ↦ rw (other, e, lookup) refl
      ],
    )

-- One entry for a flow, and the counter of active sessions is the number of sessions.
pub record IsCounted (m : Manager) : Type 0 where
  pub table : IsMap m.sessions
  pub counted : m.stats.active_sessions ≡ length m.sessions

length-replace :
    (t : FiveTuple) (s s' : Session) (m : List (FiveTuple × Session))
    → find t m ≡ some s
    → length (put t s' m) ≡ length m
length-replace t s s' m e = ground (arith, length-put t s' m)

replace-IsCounted :
    (m : Manager) (t : FiveTuple) (s s' : Session)
    → IsCounted m
    → find t m.sessions ≡ some s
    → IsCounted (record m { sessions = put t s' m.sessions })
replace-IsCounted m t s s' w e = record {
  table = put-IsMap t s' m.sessions w.table;
  counted = w.counted ∙ sym (length-replace t s s' m.sessions e);
}

pub lookup-IsCounted :
    (m : Manager) (now : ℕ) (t : FiveTuple) → IsCounted m → IsCounted (lookup m now t).0
unfolding lookup
lookup-IsCounted m now t w = elim (Option-cases (find t m.sessions)) [
  | inl gone ↦ rw (gone, lookup) w
  | inr (s, found) ↦ rw (found, lookup) (replace-IsCounted m t s (touch now s) w found)
]

update_stats-IsCounted :
    (m : Manager) (now : ℕ) (t : FiveTuple) (bytes : ℕ)
    → IsCounted m
    → IsCounted (update_stats m now t bytes)
unfolding update_stats
update_stats-IsCounted m now t bytes w = elim (Option-cases (find t m.sessions)) [
  | inl gone ↦ rw (gone, update_stats) w
  | inr (s, found) ↦
      rw (found, update_stats) (replace-IsCounted m t s (account now bytes s) w found)
]

remove-IsCounted :
    (m : Manager) (t : FiveTuple) → IsCounted m → active_count m < 2 ^ 64 → IsCounted (remove m t)
unfolding remove active_count
remove-IsCounted m t w small = elim (Option-cases (find t m.sessions)) [
  | inl gone ↦ rw (gone, remove) w
  | inr (s, found) ↦
      rw (found, remove)
        (record {
          table = erase-IsMap t m.sessions w.table;
          counted = ground (arith, w.counted, length-erase t m.sessions);
        })
]

-- `lookup`, `update_stats` and `remove` keep one session for a flow and keep the counter of active
-- sessions equal to their number, while that number fits the counter.
pub operations-IsCounted :
    (m : Manager) (now : ℕ) (t : FiveTuple) (bytes : ℕ)
    → IsCounted m
    → active_count m < 2 ^ 64
    → IsCounted (lookup m now t).0 × IsCounted (update_stats m now t bytes) × IsCounted (remove m t)
operations-IsCounted m now t bytes w small = (
  lookup-IsCounted m now t w,
  update_stats-IsCounted m now t bytes w,
  remove-IsCounted m t w small,
)

-- From an exact counter, `create` leaves it exact for a flow without a session, and one too high for
-- a flow that has one: such a session is overwritten and counted again.
pub create_counter :
    (m : Manager) (now : ℕ) (t : FiveTuple) (server_id : ℕ)
    → IsCounted m
    → active_count m + 1 < 2 ^ 64
    → (create m now t server_id).stats.active_sessions
      ≡ active_count (create m now t server_id) + elim (find t m.sessions) [ none ↦ 0 | some _ ↦ 1 ]
unfolding create active_count
create_counter m now t server_id w small =
    ground (arith, w.counted, length-put t (fresh_session now t server_id) m.sessions)
