-- ===== src/Kubernetes/Setup/Once/Run.antt =====
-- Every run of the tracker keeps its invariant.
use Prim.Native.String.{◌++◌ as str_append}
use oz_agent_worker.Prelude.{
  IsDistinct, ℕ, ◌+◌, ◌≡◌, refl, Bool, false, ◌&&◌, ◌||◌, not, if◌then◌else◌, Option, none, some,
  is_some, List, [], ◌∷◌, ◌==◌, nat_eq, String, string_eq, contains, length, arith, if-rule,
  Option-cases, inl, inr,
}
use oz_agent_worker.Assoc.{lookup}
use oz_agent_worker.Kubernetes.Setup.{
  Tracker, new_kubernetes_setup_phase_tracker, is_reported, start_interval, start_unless_reported,
  report, finish_tracker,
}
use oz_agent_worker.Kubernetes.Setup.Status.{
  SetupPod, SetupStatus, SetupContainer, ContainerState, waiting, running, terminated,
  first_scheduled, last_scheduled, task_start_anchor, task_init_finished,
}
use oz_agent_worker.Kubernetes.Setup.Observe.{
  InitTimes, no_times, init_times, observe_schedule, observe_init, next_anchor, observe_inits,
  observe_init_containers, observe_sidecar_prep, expected_copies, copy_times, setup_status,
  setup_statuses, started_at, run_from, observe_task_start, observe_pod,
}
use oz_agent_worker.Kubernetes.Setup.Once.{
  going, names, AllProper, ExecutionsOnce, IsOnce, observe_interval-IsOnce, report-IsOnce,
  finish_tracker-IsOnce,
}

start-IsOnce :
    (event : String) (start : ℕ) (t : Tracker)
    → IsOnce t
    → IsOnce (start_unless_reported event start t)
unfolding start_unless_reported
start-IsOnce event start t v =
    if-rule IsOnce (not (is_reported event t)) (start_interval event start t) t
      (λ e. observe_interval-IsOnce event start 0 t v) (λ e. v)

schedule-IsOnce : (pod : SetupPod) (t : Tracker) → IsOnce t → IsOnce (observe_schedule pod t)
unfolding observe_schedule
schedule-IsOnce pod t v = elim (Option-cases (first_scheduled pod.conditions)) [
  | inl none_yet ↦
      rw (none_yet, observe_schedule)
        (start-IsOnce "setup_worker_pod_schedule" pod.creation_timestamp t v)
  | inr (time, found) ↦
      rw (found, observe_schedule)
        (report-IsOnce "setup_worker_pod_schedule" pod.creation_timestamp time false t v)
]

init-IsOnce :
    (copies : String → Bool) (c : SetupContainer) (times : InitTimes) (anchor : ℕ) (t : Tracker)
    → IsOnce t
    → IsOnce (observe_init copies c times anchor t)
unfolding observe_init
init-IsOnce copies c times anchor t v =
    let prepared =
      observe_interval-IsOnce (str_append "image_prepare/" c.name) anchor times.started t v in
    if-rule IsOnce (((times.started == 0 || c.restarts) || c.name == "setup") || copies c.name) _ _
      (λ e. prepared)
      (λ e.
        observe_interval-IsOnce (str_append "init_container/" c.name) times.started times.finished _
          prepared)

inits-IsOnce :
    (copies : String → Bool) (statuses : List SetupStatus) (cs : List SetupContainer)
    (anchor : Option ℕ) (t : Tracker)
    → IsOnce t
    → IsOnce (observe_inits copies statuses cs anchor t)
unfolding observe_inits
inits-IsOnce copies statuses [] anchor t v = v
inits-IsOnce copies statuses (c ∷ cs) none t v = v
inits-IsOnce copies statuses (c ∷ cs) (some anchor) t v =
    let times = init_times c.name statuses no_times in
    inits-IsOnce copies statuses cs (next_anchor copies c times) _
      (init-IsOnce copies c times anchor t v)

sidecar_prep-IsOnce :
    (copies : String → Bool) (pod : SetupPod) (t : Tracker)
    → IsOnce t
    → IsOnce (observe_sidecar_prep copies pod t)
unfolding observe_sidecar_prep
sidecar_prep-IsOnce copies pod t v =
    let event : String = "setup_worker_sidecar_prep" in
    let expected = expected_copies copies pod.init_containers in
    let r =
      copy_times copies pod.init_statuses
        (record { start = 0; finish = 0; ended = 0; copy_failed = false }) in
    let done = report event r.start r.finish r.copy_failed t in
    let going = start_unless_reported event r.start t in
    if-rule IsOnce (expected == 0) t (if r.copy_failed || r.ended == expected then done else going)
      (λ e. v)
      (λ e.
        if-rule IsOnce (r.copy_failed || r.ended == expected) done going
          (λ f. report-IsOnce event r.start r.finish r.copy_failed t v)
          (λ f. start-IsOnce event r.start t v))

setup_status-IsOnce : (s : ContainerState) (t : Tracker) → IsOnce t → IsOnce (setup_status s t).0
unfolding setup_status
setup_status-IsOnce waiting t v = v
setup_status-IsOnce (running b) t v = start-IsOnce "setup_worker_setup_command" b t v
setup_status-IsOnce (terminated b f code) t v =
    report-IsOnce "setup_worker_setup_command" b f (not (code == 0)) t v

setup_statuses-IsOnce :
    (ss : List SetupStatus) (t : Tracker) → IsOnce t → IsOnce (setup_statuses ss t)
unfolding setup_statuses
setup_statuses-IsOnce [] t v = v
setup_statuses-IsOnce (s ∷ ss) t v =
    let r = setup_status s.state t in
    let own = setup_status-IsOnce s.state t v in
    if-rule IsOnce (not (s.name == "setup")) (setup_statuses ss t)
      (if r.1 then r.0 else setup_statuses ss r.0) (λ e. setup_statuses-IsOnce ss t v)
      (λ e.
        if-rule IsOnce r.1 r.0 (setup_statuses ss r.0) (λ f. own)
          (λ f. setup_statuses-IsOnce ss r.0 own))

-- A new execution span has the next number, which has not ended.
new-ExecutionsOnce :
    (time : ℕ) (execution : Option ℕ) (executions ended : List ℕ)
    → is_some execution ≡ false
    → ExecutionsOnce execution executions ended
    → ExecutionsOnce (some (length executions)) (time ∷ executions) ended
new-ExecutionsOnce time execution executions ended new v = record {
  distinct = v.distinct;
  made = λ i h. ground (arith, v.made i h);
  current = λ i e. ground (arith, v.made i, e);
  counted = ground (arith, v.counted, new);
}

run_from-IsOnce : (time : ℕ) (t : Tracker) → IsOnce t → IsOnce (run_from time t)
unfolding run_from
run_from-IsOnce time t v =
    if-rule IsOnce (is_some t.execution) t _ (λ e. v)
      (λ e. record {
        distinct = v.distinct;
        known = v.known;
        proper = v.proper;
        ended_distinct = v.ended_distinct;
        ended_known = v.ended_known;
        live_map = v.live_map;
        going_on = v.going_on;
        spans = new-ExecutionsOnce time t.execution t.executions t.ended_executions e v.spans;
      })

task_start-IsOnce : (pod : SetupPod) (t : Tracker) → IsOnce t → IsOnce (observe_task_start pod t)
unfolding observe_task_start
task_start-IsOnce pod t v =
    let event : String = "setup_worker_container_start" in
    let time = started_at pod.statuses in
    let anchor = task_start_anchor pod in
    let done = report-IsOnce event anchor time false t v in
    let going = not (is_reported event t) && task_init_finished pod in
    if-rule IsOnce (time == 0) (if going then start_interval event anchor t else t) _
      (λ e.
        if-rule IsOnce going (start_interval event anchor t) t
          (λ f. observe_interval-IsOnce event anchor 0 t v) (λ f. v))
      (λ e. run_from-IsOnce time (report event anchor time false t) done)

-- A run of the tracker: statuses of the Pod in any order, and ends of the observation.
pub data TrackerStep : Type 0 where
  observe : SetupPod → TrackerStep
  finish : TrackerStep

unfoldable pub track : (String → Bool) → List TrackerStep → Tracker → Tracker
track copies [] t = t
track copies (observe pod ∷ steps) t = track copies steps (observe_pod copies pod t)
track copies (finish ∷ steps) t = track copies steps (finish_tracker t)

track-IsOnce :
    (copies : String → Bool) (steps : List TrackerStep) (t : Tracker)
    → IsOnce t
    → IsOnce (track copies steps t)
unfolding track observe_pod observe_init_containers
track-IsOnce copies [] t v = v
track-IsOnce copies (observe pod ∷ steps) t v =
    track-IsOnce copies steps (observe_pod copies pod t) (
      task_start-IsOnce pod _ (
        setup_statuses-IsOnce pod.init_statuses _ (
          sidecar_prep-IsOnce copies pod _ (
            inits-IsOnce copies pod.init_statuses pod.init_containers
              (some (last_scheduled 0 pod.conditions)) _ (schedule-IsOnce pod t v)))))
track-IsOnce copies (finish ∷ steps) t v =
    track-IsOnce copies steps (finish_tracker t) (finish_tracker-IsOnce t v)

-- Whatever statuses of the Pod the tracker sees, late, repeated or out of order, and wherever the
-- observation ends among them, it has reported each setup phase at most once and with its two times
-- set and in order, and it has ended no span twice, neither one of a phase nor one of the execution.
-- Every span of the execution that it made is ended or goes on.
pub setup_phases_once :
    (copies : String → Bool) (steps : List TrackerStep)
    → let t = track copies steps new_kubernetes_setup_phase_tracker in
      IsDistinct (names t.sent)
      × AllProper t.sent
      × IsDistinct t.ended
      × IsDistinct t.ended_executions
      × (length t.ended_executions + going t.execution ≡ length t.executions)
unfolding contains lookup
setup_phases_once copies steps =
    let once = track-IsOnce copies steps new_kubernetes_setup_phase_tracker (record {
      distinct = tt;
      known = λ k h. ground (arith, h);
      proper = tt;
      ended_distinct = tt;
      ended_known = λ k h. ground (arith, h);
      live_map = tt;
      going_on = λ k h. ground (arith, h);
      spans = record {
        distinct = tt;
        made = λ i h. ground (arith, h);
        current = λ i e. cc;
        counted = refl;
      };
    }) in
    (once.distinct, once.proper, once.ended_distinct, once.spans.distinct, once.spans.counted)
