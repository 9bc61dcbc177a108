-- ===== src/Kubernetes/Pods/Inspect.antt =====
-- inspectPodFailureAt, detectPodFailureAt and handleJobStateAt of internal/worker/kubernetes.go.
-- Structured diagnostics are left out but for the container they name, and so are logs that are
-- only printed.
use Prim.Native.String.{◌++◌ as str_append}
use oz_agent_worker.Prelude.{
  ℕ, Bool, true, false, ◌&&◌, ◌||◌, not, if◌then◌else◌, Option, none, some, List, [], ◌∷◌, ◌==◌,
  nat_eq, String, string_eq,
}
use oz_agent_worker.Failure.{
  backend, Reason, evicted, init_container, unschedulable, volume_mount, job_failed,
  active_deadline, TaskFailure, GoError, failure,
}
use oz_agent_worker.Worker.Execute.{ExecuteResult, error, completed}
use oz_agent_worker.Kubernetes.Jobs.{
  Job, job_complete, job_failed as has_failed, is_finished, Disposition, termination_required,
  execution_stopped, PodPhase, pending, running, succeeded, failed, phase_unknown,
}
use oz_agent_worker.Kubernetes.Pods.{
  Terminated, Waiting, ContainerStatus, PodCondition, Pod, Event, Texts, KubernetesConfig,
  terminated_exit_code, is_immediate_container_failure, classify_waiting_reason,
  classify_terminated_reason, is_restartable, should_fail_unschedulable_pod, classify_job_failure,
}
use oz_agent_worker.Kubernetes.Pods.Messages.{
  pod_failure_error, pod_condition_failure_error, pod_event_failure_error,
  container_waiting_failure_error, container_terminated_failure_error, job_failure_error,
}

-- The failing container that the details name.
pub data Culprit : Type 0 where
  no_container : Culprit
  terminated_container : String → String → Terminated → Culprit
  waiting_container : String → String → Waiting → Culprit

-- An error of a failed Pod or Job: a *TaskFailure over its text, with the Job's disposition.
pub record PodFailure : Type 0 where
  pub cause : TaskFailure
  pub text : GoError
  pub disposition : Disposition
  pub culprit : Culprit

-- newBackendFailure and newBackendFailureWithExitCode, whose error is not nil here.
abbrev pub backend_failure : Reason → ℕ → GoError → Culprit → Disposition → PodFailure
backend_failure reason code text culprit disposition = record {
  cause = record { metrics_phase = backend; metrics_reason = reason; exit_code = code };
  text = text;
  disposition = disposition;
  culprit = culprit;
}

abbrev pub phase_is : PodPhase → PodPhase → Bool
phase_is pending pending = true
phase_is running running = true
phase_is succeeded succeeded = true
phase_is failed failed = true
phase_is phase_unknown phase_unknown = true
phase_is _ _ = false

-- withDetails: a Pod that failed, or a Job that has finished, has stopped.
unfoldable pub disposition_of : Pod → Option Job → Disposition
disposition_of pod none =
    if phase_is pod.phase failed then execution_stopped else termination_required
disposition_of pod (some job) =
    if phase_is pod.phase failed || is_finished job then execution_stopped else termination_required

-- The first failure of two.
abbrev pub or_failure : Option PodFailure → Option PodFailure → Option PodFailure
or_failure none g = g
or_failure (some f) g = some f

module _ (t : Texts) (config : KubernetesConfig) (pod : Pod) (d : Disposition) where
  unfoldable pub evicted_failure : Option PodFailure
  evicted_failure =
      if t.equal_fold pod.reason "Evicted" || t.includes (t.to_lower pod.message) "evict"
      then some (backend_failure evicted 0 (pod_failure_error config pod) no_container d)
      else none

  unfoldable pub init_terminated : String → Bool → Option Terminated → Option PodFailure
  init_terminated name restartable none = none
  init_terminated name restartable (some c) =
      if not (terminated_exit_code c == 0) && not restartable
      then some (
          backend_failure init_container (terminated_exit_code c)
            (container_terminated_failure_error t config pod "init container" name c)
            (terminated_container "init" name c) d)
      else none

  -- The checks of a waiting container: `kind` is that of its details, `label` that of the text.
  unfoldable pub container_waiting :
      String → String → Bool → String → Option Waiting → Option PodFailure
  container_waiting kind label init name none = none
  container_waiting kind label init name (some w) =
      if is_immediate_container_failure w.reason
      then some (
          backend_failure (classify_waiting_reason w.reason init) 0
            (container_waiting_failure_error config pod label name w)
            (waiting_container kind name w) d)
      else none

  unfoldable pub inspect_init : ContainerStatus → Option PodFailure
  inspect_init status =
      let restartable = is_restartable status.name pod.init_containers in
      or_failure (init_terminated status.name restartable status.terminated) (
        container_waiting (if restartable then "sidecar" else "init") "init container" true
          status.name status.waiting)

  unfoldable pub inspect_inits : List ContainerStatus → Option PodFailure
  inspect_inits [] = none
  inspect_inits (status ∷ statuses) = or_failure (inspect_init status) (inspect_inits statuses)

  unfoldable pub container_terminated : String → Option Terminated → Option PodFailure
  container_terminated name none = none
  container_terminated name (some c) =
      if not (terminated_exit_code c == 0)
      then some (
          backend_failure (classify_terminated_reason c.reason) (terminated_exit_code c)
            (container_terminated_failure_error t config pod "container" name c)
            (terminated_container "regular" name c) d)
      else none

  unfoldable pub inspect_containers : List ContainerStatus → Option PodFailure
  inspect_containers [] = none
  inspect_containers (status ∷ statuses) =
      or_failure
        (or_failure (container_terminated status.name status.terminated)
          (container_waiting "regular" "container" false status.name status.waiting))
        (inspect_containers statuses)

  unfoldable pub inspect_conditions : List PodCondition → Option PodFailure
  inspect_conditions [] = none
  inspect_conditions (c ∷ cs) =
      let rest = inspect_conditions cs in
      if (c.condition_type == "PodScheduled" && c.status_false && c.reason == "Unschedulable")
        && should_fail_unschedulable_pod config pod
      then some (
          backend_failure unschedulable 0
            (pod_condition_failure_error config pod "is unschedulable" c.reason c.message)
            no_container d)
      else rest

  unfoldable pub inspect_events : List Event → Option PodFailure
  inspect_events [] = none
  inspect_events (event ∷ events) =
      let rest = inspect_events events in
      if event.reason == "FailedMount" || t.includes event.message "MountVolume.SetUp failed"
      then some (
          backend_failure volume_mount 0
            (pod_event_failure_error config pod "failed to mount a volume" event) no_container d)
      else rest

  unfoldable pub failed_reason : Reason
  failed_reason =
      if t.includes (t.to_lower (str_append pod.reason (str_append " " pod.message))) "deadline"
      then active_deadline
      else job_failed

  unfoldable pub failed_pod : Option PodFailure
  unfolding failed_reason
  failed_pod =
      if phase_is pod.phase failed
      then some (backend_failure failed_reason 0 (pod_failure_error config pod) no_container d)
      else none

-- `events` are those that collectKubernetesFailureEvents finds.
module _ (t : Texts) (config : KubernetesConfig) where
  unfoldable pub inspect_pod_failure_at : Pod → Option Job → List Event → Option PodFailure
  inspect_pod_failure_at pod job events =
      let d = disposition_of pod job in
      or_failure (evicted_failure t config pod d) (
        or_failure (inspect_inits t config pod d pod.init_statuses) (
          or_failure (inspect_containers t config pod d pod.statuses) (
            or_failure (inspect_conditions t config pod d pod.conditions) (
              or_failure
                (if phase_is pod.phase pending || phase_is pod.phase failed
                  then inspect_events t config pod d events
                  else none)
                (failed_pod t config pod d)))))

  -- Each Pod comes with its events.
  unfoldable pub detect_pod_failure_at : List (Pod × List Event) → Option Job → Option PodFailure
  detect_pod_failure_at [] job = none
  detect_pod_failure_at ((pod, events) ∷ pods) job =
      or_failure (inspect_pod_failure_at pod job events) (detect_pod_failure_at pods job)

  -- A Job that goes on, one that completed, and one that failed with the failure to report.
  unfoldable pub handle_job_state_at :
      Job → String → List (Pod × List Event) → Option (Option PodFailure)
  handle_job_state_at job namespace pods =
      if job_complete job
      then some none
      else if not (has_failed job)
      then none
      else elim (detect_pod_failure_at pods (some job)) [
        | some f ↦ some (some (record f { disposition = execution_stopped }))
        | none ↦ some (
            some (
              backend_failure (classify_job_failure t job) 0
                (job_failure_error config namespace job) no_container execution_stopped))
      ]

-- jobResult.outcome
unfoldable pub job_outcome : Option PodFailure → ExecuteResult
job_outcome none = completed
job_outcome (some f) = error (failure f.cause f.text)
