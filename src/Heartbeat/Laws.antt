-- ===== src/Heartbeat/Laws.antt =====
-- What core/heartbeat.py promises: who is stale, and until when.
use entropyhunt.Base.{
  ltb, leb, if◌then◌else◌, is_some, ◌==◌, contains, contains-add, contains-discard, ℕ, ◌+◌, String,
  ◌≡◌, refl, ◌≢◌, true, false, not, ◌&&◌, ◌||◌, none, some, List, [], ◌∷◌, arith, string_eq, nat_eq,
  pair_eq, int_eq,
}
use entropyhunt.Base.Dict.{Dict, lookup, lookup-insert, IsDict, insert-IsDict}
use entropyhunt.Heartbeat.{
  HeartbeatRegistry, beat, mark_stale, is_stale, active_ids, stale_ids, detect_stale,
}

-- The registry after one call.
pub data Call : Type 0 where
  registers : String → ℕ → Call
  marks : String → Call
  detects : ℕ → ℕ → Call

unfoldable pub step : HeartbeatRegistry → Call → HeartbeatRegistry
unfolding beat mark_stale detect_stale
step r (registers drone_id now_ms) = beat drone_id now_ms r
step r (marks drone_id) = mark_stale drone_id r
step r (detects now_ms timeout_ms) = (detect_stale now_ms timeout_ms r).0

unfoldable pub run : HeartbeatRegistry → List Call → HeartbeatRegistry
unfolding step
run r [] = r
run r (c ∷ cs) = run (step r c) cs

abbrev pub IsValid : HeartbeatRegistry → Type 0
IsValid r = IsDict r.last_seen_ms

pub step-IsValid : (r : HeartbeatRegistry) (c : Call) → IsValid r → IsValid (step r c)
unfolding step
step-IsValid r (registers drone_id now_ms) h = insert-IsDict drone_id now_ms r.last_seen_ms h
step-IsValid r _ h = h

contains-stale_ids :
    (now timeout : ℕ) (stale : List String) (d : Dict String ℕ) (i : String)
    → IsDict d
    → contains (stale_ids now timeout stale d) i
      ≡ (elim (lookup i d) [ none ↦ false | some t ↦ ltb (t + timeout) now || contains stale i ])
unfolding stale_ids lookup
contains-stale_ids now timeout stale [] i h = refl
contains-stale_ids now timeout stale ((j, t) ∷ d) i h =
    ground (arith, contains-stale_ids now timeout stale d i h.1, h.0)

contains-active_ids :
    (now timeout : ℕ) (stale : List String) (d : Dict String ℕ) (i : String)
    → IsDict d
    → contains (active_ids now timeout stale d) i ≡ (elim (lookup i d) [
      | none ↦ false
      | some t ↦ leb now (t + timeout) && not (contains stale i)
    ])
unfolding active_ids lookup
contains-active_ids now timeout stale [] i h = refl
contains-active_ids now timeout stale ((j, t) ∷ d) i h =
    ground (arith, contains-active_ids now timeout stale d i h.1, h.0)

-- `detect_stale` sorts the known drones: the stale ones are exactly those that `is_stale` reports,
-- and the active ones are exactly the other known drones.
pub detect_stale-partition :
    (now timeout : ℕ) (r : HeartbeatRegistry) (i : String)
    → IsValid r
    → let status = (detect_stale now timeout r).1 in
      (contains status.stale i ≡ is_stale i now timeout r)
      × (contains status.active i
          ≡ (is_some (lookup i r.last_seen_ms) && not (is_stale i now timeout r)))
unfolding detect_stale is_stale
detect_stale-partition now timeout r i h = ground (
  arith,
  contains-stale_ids now timeout r.stale r.last_seen_ms i h,
  contains-active_ids now timeout r.stale r.last_seen_ms i h,
)

-- A call that is no heartbeat of `i`.
abbrev pub IsSilent : String → Call → Type 0
IsSilent i (registers j now_ms) = j ≢ i
IsSilent i _ = Unit

abbrev pub AllSilent : String → List Call → Type 0
AllSilent i [] = Unit
AllSilent i (c ∷ cs) = IsSilent i c × AllSilent i cs

-- Once in the stale set, and known, a drone stays there over a call that is no heartbeat of its own.
step_latched :
    (r : HeartbeatRegistry) (c : Call) (i : String) (t : ℕ)
    → IsValid r
    → IsSilent i c
    → lookup i r.last_seen_ms ≡ some t
    → contains r.stale i ≡ true
    → (lookup i (step r c).last_seen_ms ≡ some t) × (contains (step r c).stale i ≡ true)
unfolding step beat mark_stale detect_stale
step_latched r (registers j now_ms) i t v q known stale =
    ground (arith, lookup-insert j i now_ms r.last_seen_ms, contains-discard j i r.stale)
step_latched r (marks j) i t v q known stale = ground (arith, contains-add j i r.stale)
step_latched r (detects now timeout) i t v q known stale =
    ground (arith, contains-stale_ids now timeout r.stale r.last_seen_ms i v)

-- A known drone that is marked stale stays stale, whatever the time and the timeout asked for, over
-- any sequence of calls without a heartbeat of its own.
pub stale_latched :
    (cs : List Call) (r : HeartbeatRegistry) (i : String) (t now timeout : ℕ)
    → IsValid r
    → AllSilent i cs
    → lookup i r.last_seen_ms ≡ some t
    → contains r.stale i ≡ true
    → is_stale i now timeout (run r cs) ≡ true
unfolding run is_stale
stale_latched [] r i t now timeout v q known stale = ground arith
stale_latched (c ∷ cs) r i t now timeout v q known stale =
    let (known', stale') = step_latched r c i t v q.0 known stale in
    stale_latched cs (step r c) i t now timeout (step-IsValid r c v) q.1 known' stale'

-- After a heartbeat its drone is stale exactly when the timeout has run out since, whatever was
-- marked before; of another drone nothing changes.
pub is_stale-beat :
    (r : HeartbeatRegistry) (i j : String) (t now timeout : ℕ)
    → is_stale j now timeout (beat i t r)
      ≡ (if i == j then ltb (t + timeout) now else is_stale j now timeout r)
unfolding is_stale beat
is_stale-beat r i j t now timeout =
    ground (arith, lookup-insert i j t r.last_seen_ms, contains-discard i j r.stale)
