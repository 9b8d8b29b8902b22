-- ===== src/Sessions/Tests.antt =====
-- A table with one session.
use l7_loadbalancer.Base.{◌+◌, ◌≡◌, refl, [], ◌∷◌, none, some, arith, if◌then◌else◌}
use l7_loadbalancer.Base.Assoc.{find}
use l7_loadbalancer.Types.{FiveTuple, Session, tuple_key, zero_stats, is_expired}
use l7_loadbalancer.Sessions.{
  Manager, lookup, create, update_stats, remove, cleanup, active_count, fresh_session,
}
use l7_loadbalancer.Sessions.Table.{IsCounted, lookup-create, operations-IsCounted, create_counter}
use l7_loadbalancer.Sessions.Cleanup.{cleanup-IsCounted, cleanup-find}

abbrev flow : FiveTuple
flow = record {
  src_ip = 0x01020304;
  dst_ip = 0x05060708;
  src_port = 80;
  dst_port = 8080;
  protocol = 6;
}

abbrev other : FiveTuple
other = record { src_ip = 9; dst_ip = 0x05060708; src_port = 81; dst_port = 8080; protocol = 6 }

-- One flow, bound to server 3 at time 5, with a timeout of 300 seconds.
abbrev one : Manager
one = record {
  sessions = (flow, fresh_session 5 flow 3) ∷ [];
  timeout_sec = 300;
  stats = record zero_stats { active_sessions = 1 };
}

one-IsCounted : IsCounted one
unfolding find
one-IsCounted = record { table = (refl, tt); counted = refl }

lookup-create_example :
    ((s : Session) × ((lookup (create one 7 other 4) 8 other).1 ≡ some s)
      × (find other (lookup (create one 7 other 4) 8 other).0.sessions ≡ some s)
      × (s.client_tuple ≡ other)
      × (s.real_server_id ≡ 4)
      × (s.create_time ≡ 7)
      × (s.last_active ≡ 8)
      × (s.packets ≡ 0)
      × (s.bytes ≡ 0))
    × ((lookup (create one 7 other 4) 8 flow).1 ≡ (lookup one 8 flow).1)
lookup-create_example = lookup-create one 7 8 other flow 4 (omega arith) (omega arith) (λ e. cc)

operations-IsCounted_example :
    IsCounted (lookup one 9 flow).0
    × IsCounted (update_stats one 9 flow 1500)
    × IsCounted (remove one flow)
unfolding active_count
operations-IsCounted_example = operations-IsCounted one 9 flow 1500 one-IsCounted (omega arith)

-- The flow has a session already, and is counted twice.
create_counter_example :
    (create one 9 flow 4).stats.active_sessions ≡ active_count (create one 9 flow 4) + 1
unfolding active_count find
create_counter_example = create_counter one 9 flow 4 one-IsCounted (omega arith)

cleanup-IsCounted_example :
    IsCounted (cleanup one (λ i. 1000000000000 + i)).0
    × ((cleanup one (λ i. 1000000000000 + i)).1
          + active_count (cleanup one (λ i. 1000000000000 + i)).0
        ≡ active_count one)
unfolding active_count
cleanup-IsCounted_example =
    cleanup-IsCounted one (λ i. 1000000000000 + i) one-IsCounted (omega arith)

cleanup-find_example :
    find flow (cleanup one (λ _. 1000000000000)).0.sessions ≡ elim (find flow one.sessions) [
      | none ↦ none
      | some s ↦ if is_expired 1000000000000 300 s then none else some s
    ]
unfolding find
cleanup-find_example = cleanup-find one 1000000000000 flow (refl, tt)
