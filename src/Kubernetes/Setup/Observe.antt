-- ===== src/Kubernetes/Setup/Observe.antt =====
-- observePod: what the tracker reads in a status of the Pod.
use Prim.Native.String.{◌++◌ as str_append}
use oz_agent_worker.Prelude.{
  ℕ, suc, Bool, true, false, ◌&&◌, ◌||◌, not, if◌then◌else◌, Option, none, some, is_some, List, [],
  ◌∷◌, ◌==◌, nat_eq, String, string_eq, ltb, length,
}
use oz_agent_worker.Kubernetes.Setup.{
  Tracker, is_reported, observe_interval, start_interval, start_unless_reported, report,
}
use oz_agent_worker.Kubernetes.Setup.Status.{
  ContainerState, waiting, running, terminated, SetupStatus, SetupContainer, SetupPod,
  first_scheduled, last_scheduled, task_init_finished, task_start_anchor,
}

unfoldable pub observe_schedule : SetupPod → Tracker → Tracker
observe_schedule pod t =
    let event : String = "setup_worker_pod_schedule" in
    elim (first_scheduled pod.conditions) [
      | some time ↦ report event pod.creation_timestamp time false t
      | none ↦ start_unless_reported event pod.creation_timestamp t
    ]

-- What the statuses say of one init container.
pub record InitTimes : Type 0 where
  pub started : ℕ
  pub finished : ℕ
  pub init_failed : Bool

unfoldable pub init_times : String → List SetupStatus → InitTimes → InitTimes
init_times name [] times = times
init_times name (s ∷ ss) times =
    let next : InitTimes = elim s.state [
      | waiting ↦ times
      | running b ↦ record times { started = b }
      | terminated b f code ↦ record { started = b; finished = f; init_failed = not (code == 0) }
    ] in
    init_times name ss (if s.name == name then next else times)

abbrev pub no_times : InitTimes
no_times = record { started = 0; finished = 0; init_failed = false }

-- `copies` says that a name has the prefix of the init containers that copy sidecars.
module _ (copies : String → Bool) where
  -- The two spans of an init container.
  unfoldable pub observe_init : SetupContainer → InitTimes → ℕ → Tracker → Tracker
  observe_init c times anchor t =
      let prepared = observe_interval (str_append "image_prepare/" c.name) anchor times.started t in
      let ran =
        observe_interval (str_append "init_container/" c.name) times.started times.finished
          prepared in
      if ((times.started == 0 || c.restarts) || c.name == "setup") || copies c.name
      then prepared
      else ran

  -- Whether the loop goes on behind an init container, and with which anchor.
  unfoldable pub next_anchor : SetupContainer → InitTimes → Option ℕ
  next_anchor c times =
      if times.started == 0
      then none
      else if c.restarts
      then some times.started
      else if (times.finished == 0 || ltb times.finished times.started) || times.init_failed
      then none
      else some times.finished

  unfoldable pub observe_inits :
      List SetupStatus → List SetupContainer → Option ℕ → Tracker → Tracker
  observe_inits statuses [] anchor t = t
  observe_inits statuses (c ∷ cs) none t = t
  observe_inits statuses (c ∷ cs) (some anchor) t =
      let times = init_times c.name statuses no_times in
      observe_inits statuses cs (next_anchor c times) (observe_init c times anchor t)

  unfoldable pub observe_init_containers : SetupPod → Tracker → Tracker
  observe_init_containers pod t =
      observe_inits pod.init_statuses pod.init_containers (some (last_scheduled 0 pod.conditions)) t

  unfoldable pub expected_copies : List SetupContainer → ℕ
  expected_copies [] = 0
  expected_copies (c ∷ cs) =
      let rest = expected_copies cs in if copies c.name then suc rest else rest

-- What the loop of observeSidecarPrep has found.
pub record CopyTimes : Type 0 where
  pub start : ℕ
  pub finish : ℕ
  pub ended : ℕ
  pub copy_failed : Bool

abbrev earlier : ℕ → ℕ → ℕ
earlier start time = if start == 0 || ltb time start then time else start

-- The body of the loop, for a status of a copying container.
unfoldable pub add_copy : ContainerState → CopyTimes → CopyTimes
add_copy waiting r = r
add_copy (running b) r = record r { start = earlier r.start b }
add_copy (terminated b f code) r = record {
  start = earlier r.start b;
  finish = if ltb r.finish f then f else r.finish;
  ended = suc r.ended;
  copy_failed = not (code == 0) || r.copy_failed;
}

unfoldable pub copy_times : (String → Bool) → List SetupStatus → CopyTimes → CopyTimes
copy_times copies [] r = r
copy_times copies (s ∷ ss) r =
    copy_times copies ss (if copies s.name then add_copy s.state r else r)

unfoldable pub observe_sidecar_prep : (String → Bool) → SetupPod → Tracker → Tracker
observe_sidecar_prep copies pod t =
    let event : String = "setup_worker_sidecar_prep" in
    let expected = expected_copies copies pod.init_containers in
    let r =
      copy_times copies pod.init_statuses
        (record { start = 0; finish = 0; ended = 0; copy_failed = false }) in
    if expected == 0
    then t
    else if r.copy_failed || r.ended == expected
    then report event r.start r.finish r.copy_failed t
    else start_unless_reported event r.start t

-- One status of the setup container: the tracker, and whether the loop returns.
unfoldable pub setup_status : ContainerState → Tracker → Tracker × Bool
setup_status waiting t = (t, false)
setup_status (running b) t = (start_unless_reported "setup_worker_setup_command" b t, false)
setup_status (terminated b f code) t =
    (report "setup_worker_setup_command" b f (not (code == 0)) t, true)

unfoldable pub setup_statuses : List SetupStatus → Tracker → Tracker
setup_statuses [] t = t
setup_statuses (s ∷ ss) t =
    let r = setup_status s.state t in
    let skipped = setup_statuses ss t in
    let next = setup_statuses ss r.0 in
    if not (s.name == "setup") then skipped else if r.1 then r.0 else next

abbrev pub observe_setup_command : SetupPod → Tracker → Tracker
observe_setup_command pod t = setup_statuses pod.init_statuses t

unfoldable pub started_at : List SetupStatus → ℕ
started_at [] = 0
started_at (s ∷ ss) =
    let rest = started_at ss in
    let own : ℕ = elim s.state [ waiting ↦ 0 | running b ↦ b | terminated b f code ↦ b ] in
    if s.name == "task" then own else rest

unfoldable pub run_from : ℕ → Tracker → Tracker
run_from time t =
    if is_some t.execution
    then t
    else record t { execution = some (length t.executions); executions = time ∷ t.executions }

unfoldable pub observe_task_start : SetupPod → Tracker → Tracker
observe_task_start pod t =
    let event : String = "setup_worker_container_start" in
    let time = started_at pod.statuses in
    let anchor = task_start_anchor pod in
    if time == 0
    then (if not (is_reported event t) && task_init_finished pod
        then start_interval event anchor t
        else t)
    else run_from time (report event anchor time false t)

unfoldable pub observe_pod : (String → Bool) → SetupPod → Tracker → Tracker
observe_pod copies pod t = observe_task_start pod (
    observe_setup_command pod (
      observe_sidecar_prep copies pod
        (observe_init_containers copies pod (observe_schedule pod t))))
