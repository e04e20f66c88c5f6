-- ===== src/Heartbeat.antt =====
-- core/heartbeat.py: the registry of last heartbeats. A set is a list without repetitions; the lock
-- makes each method one step. Times are non-negative, and `now_ms - last_seen > timeout_ms` is
-- written as `last_seen + timeout_ms < now_ms`.
pub mod Laws
use entropyhunt.Base.{
  ltb, leb, if◌then◌else◌, contains, add, discard, ℕ, ◌+◌, String, Bool, false, not, ◌&&◌, ◌||◌,
  none, some, List, [], ◌∷◌, string_eq, nat_eq, pair_eq, int_eq,
}
use entropyhunt.Base.Dict.{Dict, lookup, insert}

pub record HeartbeatStatus : Type 0 where
  pub active : List String
  pub stale : List String

pub record HeartbeatRegistry : Type 0 where
  pub last_seen_ms : Dict String ℕ
  pub stale : List String

abbrev pub empty : HeartbeatRegistry
empty = record { last_seen_ms = []; stale = [] }

unfoldable pub register : String → ℕ → HeartbeatRegistry → HeartbeatRegistry
register drone_id now_ms r = record {
  last_seen_ms = insert drone_id now_ms r.last_seen_ms;
  stale = discard drone_id r.stale;
}

unfoldable pub beat : String → ℕ → HeartbeatRegistry → HeartbeatRegistry
unfolding register
beat drone_id now_ms r = register drone_id now_ms r

unfoldable pub mark_stale : String → HeartbeatRegistry → HeartbeatRegistry
mark_stale drone_id r = record r { stale = add drone_id r.stale }

unfoldable pub is_stale : String → ℕ → ℕ → HeartbeatRegistry → Bool
is_stale drone_id now_ms timeout_ms r = elim (lookup drone_id r.last_seen_ms) [
  | none ↦ false
  | some last_seen ↦ ltb (last_seen + timeout_ms) now_ms || contains r.stale drone_id
]

-- The comprehensions over `_last_seen_ms.items()`.
unfoldable pub active_ids : ℕ → ℕ → List String → Dict String ℕ → List String
active_ids now_ms timeout_ms stale [] = []
active_ids now_ms timeout_ms stale ((drone_id, last_seen) ∷ d) =
    if leb now_ms (last_seen + timeout_ms) && not (contains stale drone_id)
    then drone_id ∷ active_ids now_ms timeout_ms stale d
    else active_ids now_ms timeout_ms stale d

unfoldable pub stale_ids : ℕ → ℕ → List String → Dict String ℕ → List String
stale_ids now_ms timeout_ms stale [] = []
stale_ids now_ms timeout_ms stale ((drone_id, last_seen) ∷ d) =
    if ltb (last_seen + timeout_ms) now_ms || contains stale drone_id
    then drone_id ∷ stale_ids now_ms timeout_ms stale d
    else stale_ids now_ms timeout_ms stale d

unfoldable pub detect_stale : ℕ → ℕ → HeartbeatRegistry → HeartbeatRegistry × HeartbeatStatus
unfolding active_ids stale_ids
detect_stale now_ms timeout_ms r =
    let active = active_ids now_ms timeout_ms r.stale r.last_seen_ms in
    let stale = stale_ids now_ms timeout_ms r.stale r.last_seen_ms in
    (record r { stale = stale }, record { active = active; stale = stale })
