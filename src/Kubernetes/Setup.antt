-- ===== src/Kubernetes/Setup.antt =====
-- kubernetesSetupPhaseTracker of internal/worker/kubernetes_setup_events.go, on a state that also
-- holds the phases handed to the reporter. A time is a number, 0 for the zero time; the texts of
-- errors and the attributes of spans are left out.
pub mod Status
pub mod Observe
pub mod Once
use oz_agent_worker.Prelude.{
  ℕ, Bool, true, false, ◌&&◌, ◌||◌, not, if◌then◌else◌, Option, none, some, is_some, List, [], ◌∷◌,
  ◌++◌, ◌==◌, nat_eq, String, string_eq, ltb, contains, map,
}
use oz_agent_worker.Assoc.{Map, lookup, insert, delete}

pub record ReportedPhase : Type 0 where
  pub event_name : String
  pub start : ℕ
  pub finish : ℕ
  pub is_error : Bool

-- `reported` is the set of the map's keys, `live` has the start of each phase's span that goes on,
-- and `execution` is the number of the execution span that goes on. What was done is in `sent`, the
-- phases reported, `ended`, the keys of the phases' spans ended, `executions`, the starts of the
-- execution spans made, and `ended_executions`, the numbers of those ended.
pub record Tracker : Type 0 where
  pub reported : List String
  pub live : Map String ℕ
  pub execution : Option ℕ
  pub sent : List ReportedPhase
  pub ended : List String
  pub executions : List ℕ
  pub ended_executions : List ℕ

abbrev pub new_kubernetes_setup_phase_tracker : Tracker
new_kubernetes_setup_phase_tracker = record {
  reported = [];
  live = [];
  execution = none;
  sent = [];
  ended = [];
  executions = [];
  ended_executions = [];
}

abbrev pub is_reported : String → Tracker → Bool
is_reported key t = contains t.reported key

-- The end of observeInterval: a new span unless one is live, which ends with the interval.
unfoldable pub track_interval : String → ℕ → ℕ → Tracker → Tracker
track_interval key start finish t =
    let live = if is_some (lookup key t.live) then t.live else insert key start t.live in
    if finish == 0
    then record t { live = live }
    else record t { live = delete key live; reported = key ∷ t.reported; ended = key ∷ t.ended }

unfoldable pub observe_interval : String → ℕ → ℕ → Tracker → Tracker
observe_interval key start finish t =
    if (is_reported key t || start == 0) || (not (finish == 0) && ltb finish start)
    then t
    else track_interval key start finish t

-- Tracker.start
abbrev pub start_interval : String → ℕ → Tracker → Tracker
start_interval event start t = observe_interval event start 0 t

-- The guard of its callers.
unfoldable pub start_unless_reported : String → ℕ → Tracker → Tracker
start_unless_reported event start t =
    if not (is_reported event t) then start_interval event start t else t

unfoldable pub report : String → ℕ → ℕ → Bool → Tracker → Tracker
report event_name start finish is_error t =
    let tracked = observe_interval event_name start finish t in
    let phase : ReportedPhase = record {
      event_name = event_name;
      start = start;
      finish = finish;
      is_error = is_error;
    } in
    if ((is_reported event_name t || start == 0) || finish == 0) || ltb finish start
    then t
    else record tracked { sent = phase ∷ tracked.sent }

abbrev pub live_keys : Map String ℕ → List String
live_keys [] = []
live_keys ((k, s) ∷ m) = k ∷ live_keys m

-- Tracker.finish
unfoldable pub finish_tracker : Tracker → Tracker
finish_tracker t = record t {
  live = [];
  reported = live_keys t.live ++ t.reported;
  execution = none;
  ended = live_keys t.live ++ t.ended;
  ended_executions = elim t.execution [
    | some number ↦ number ∷ t.ended_executions
    | none ↦ t.ended_executions
  ];
}
