-- ===== src/Sessions.antt =====
-- SessionManager of include/lb/session.h. The clock's reading is an argument of each call; `cleanup`
-- reads the clock once for each session, so it takes the readings as a function.
pub mod Table
pub mod Cleanup
mod Tests
use l7_loadbalancer.Base.{
  ℕ, ◌+◌, ◌-◌, ◌*◌, ◌%◌, ◌^◌, Bool, true, false, List, [], ◌∷◌, Option, none, some, length,
  if◌then◌else◌, u64,
}
use l7_loadbalancer.Base.Assoc.{find, put, erase}
use l7_loadbalancer.Types.{
  FiveTuple, tuple_key, new_tuple, Session, is_expired, touch, Statistics, zero_stats, incr, decr,
}

pub record Manager : Type 0 where
  pub sessions : List (FiveTuple × Session)
  pub timeout_sec : ℕ
  pub stats : Statistics

unfoldable pub init : Manager
init = record { sessions = []; timeout_sec = 300; stats = zero_stats }

unfoldable pub set_timeout : Manager → ℕ → Manager
set_timeout m seconds = record m { timeout_sec = seconds }

-- `lookup`: `none` is false; a hit is touched, and handed out as it then stands.
unfoldable pub lookup : Manager → ℕ → FiveTuple → Manager × Option Session
lookup m now t = elim (find t m.sessions) [
  | none ↦ (m, none)
  | some s ↦ (record m { sessions = put t (touch now s) m.sessions }, some (touch now s))
]

unfoldable pub fresh_session : ℕ → FiveTuple → ℕ → Session
fresh_session now t server_id = record {
  client_tuple = t;
  server_tuple = new_tuple;
  real_server_id = server_id;
  create_time = u64 now;
  last_active = u64 now;
  packets = 0;
  bytes = 0;
}

unfoldable pub create : Manager → ℕ → FiveTuple → ℕ → Manager
create m now t server_id = record m {
  sessions = put t (fresh_session now t server_id) m.sessions;
  stats = record stats {
    total_sessions = incr stats.total_sessions;
    active_sessions = incr stats.active_sessions;
  };
}
  where
    open m use {stats}

-- What `update_stats` writes into the session.
unfoldable pub account : ℕ → ℕ → Session → Session
account now bytes s = record s {
  last_active = u64 now;
  packets = incr s.packets;
  bytes = u64 (s.bytes + bytes);
}

unfoldable pub update_stats : Manager → ℕ → FiveTuple → ℕ → Manager
update_stats m now t bytes = elim (find t m.sessions) [
  | none ↦ m
  | some s ↦ record m { sessions = put t (account now bytes s) m.sessions }
]

drop_active : Manager → Manager
drop_active m = record m { stats = record stats { active_sessions = decr stats.active_sessions } }
  where
    open m use {stats}

unfoldable pub remove : Manager → FiveTuple → Manager
unfolding drop_active
remove m t = elim (find t m.sessions) [
  | none ↦ m
  | some s ↦ drop_active (record m { sessions = erase t m.sessions })
]

pub record Sweep : Type 0 where
  pub kept : List (FiveTuple × Session)
  pub removed : ℕ
  pub active : ℕ

-- The loop of `cleanup`: `i` sessions have been looked at, and what it did with the rest comes back.
unfoldable pub sweep : (ℕ → ℕ) → ℕ → ℕ → ℕ → List (FiveTuple × Session) → Sweep
sweep clock timeout_sec i active [] = record { kept = []; removed = 0; active = active }
sweep clock timeout_sec i active ((t, s) ∷ rest) =
    let expired = is_expired (clock i) timeout_sec s in
    let r = sweep clock timeout_sec (i + 1) (if expired then decr active else active) rest in
    if expired then record r { removed = r.removed + 1 } else record r { kept = (t, s) ∷ r.kept }

-- The number is what `cleanup` returns.
unfoldable pub cleanup : Manager → (ℕ → ℕ) → Manager × ℕ
cleanup m clock =
    let r = sweep clock m.timeout_sec 0 m.stats.active_sessions m.sessions in
    (record m { sessions = r.kept; stats = record stats { active_sessions = r.active } }, r.removed)
  where
    open m use {stats}

unfoldable pub active_count : Manager → ℕ
active_count m = length m.sessions

unfoldable pub get_stats : Manager → Statistics
get_stats m = m.stats
