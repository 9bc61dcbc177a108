-- ===== src/Failure.antt =====
-- Errors that backends return and what the worker makes of them: internal/worker/errors.go, the
-- TaskFailure of internal/worker/backend.go and standbyExitStatus of internal/worker/standby.go.
-- A Go error is its chain under `Unwrap`. Exit statuses are natural numbers, and the Kubernetes
-- diagnostics that a TaskFailure may carry are left out.
pub mod Exits
use Prim.Native.String.{◌++◌ as str_append}
use oz_agent_worker.Prelude.{
  ℕ, Bool, true, false, if◌then◌else◌, ◌&&◌, ◌||◌, Option, none, some, String, nat_beq,
}

pub data Phase : Type 0 where
  assignment backend cleanup_phase : Phase

pub data Reason : Type 0 where
  unknown task_timeout task_cancelled graceful_shutdown image_pull sidecar_prep : Reason
  container_create container_start container_wait container_exit container_oom : Reason
  workspace_setup setup_command agent_invocation teardown_command dispatch_command : Reason
  dispatch_timeout cancel_command job_create job_watch job_failed evicted pod_watch : Reason
  unschedulable volume_mount init_container invalid_image active_deadline cleanup : Reason

-- string(reason), the value on the wire.
pub reason_text : Reason → String
reason_text unknown = "unknown"
reason_text task_timeout = "task_timeout"
reason_text task_cancelled = "task_cancelled"
reason_text graceful_shutdown = "graceful_shutdown"
reason_text image_pull = "image_pull"
reason_text sidecar_prep = "sidecar_prep"
reason_text container_create = "container_create"
reason_text container_start = "container_start"
reason_text container_wait = "container_wait"
reason_text container_exit = "container_exit"
reason_text container_oom = "container_oom"
reason_text workspace_setup = "workspace_setup"
reason_text setup_command = "setup_command"
reason_text agent_invocation = "agent_invocation"
reason_text teardown_command = "teardown_command"
reason_text dispatch_command = "dispatch_command"
reason_text dispatch_timeout = "dispatch_timeout"
reason_text cancel_command = "cancel_command"
reason_text job_create = "job_create"
reason_text job_watch = "job_watch"
reason_text job_failed = "job_failed"
reason_text evicted = "evicted"
reason_text pod_watch = "pod_watch"
reason_text unschedulable = "unschedulable"
reason_text volume_mount = "volume_mount"
reason_text init_container = "init_container"
reason_text invalid_image = "invalid_image"
reason_text active_deadline = "active_deadline"
reason_text cleanup = "cleanup"

-- The errors that the worker compares by identity.
pub data Sentinel : Type 0 where
  deadline_exceeded canceled observation_interrupted standby_not_waited : Sentinel

abbrev pub same_sentinel : Sentinel → Sentinel → Bool
same_sentinel deadline_exceeded deadline_exceeded = true
same_sentinel canceled canceled = true
same_sentinel observation_interrupted observation_interrupted = true
same_sentinel standby_not_waited standby_not_waited = true
same_sentinel _ _ = false

pub record TaskFailure : Type 0 where
  pub metrics_phase : Phase
  pub metrics_reason : Reason
  pub exit_code : ℕ

-- `wrap` is fmt.Errorf with one `%w` at its end; `failure` is a *TaskFailure over its `err`.
pub data GoError : Type 0 where
  sentinel : Sentinel → GoError
  other : String → GoError
  wrap : String → GoError → GoError
  failure : TaskFailure → GoError → GoError

-- errors.Is
unfoldable pub is_error : GoError → Sentinel → Bool
is_error (sentinel s) t = same_sentinel s t
is_error (other m) t = false
is_error (wrap m e) t = is_error e t
is_error (failure f e) t = is_error e t

-- errors.As with a *TaskFailure: the outermost one.
unfoldable pub as_failure : GoError → Option TaskFailure
as_failure (sentinel s) = none
as_failure (other m) = none
as_failure (wrap m e) = as_failure e
as_failure (failure f e) = some f

pub sentinel_text : Sentinel → String
sentinel_text deadline_exceeded = "context deadline exceeded"
sentinel_text canceled = "context canceled"
sentinel_text observation_interrupted = "worker observation interrupted"
sentinel_text standby_not_waited = "backend returned before the standby sandbox exited"

-- err.Error()
unfoldable pub error_text : GoError → String
error_text (sentinel s) = sentinel_text s
error_text (other m) = m
error_text (wrap m e) = str_append m (error_text e)
error_text (failure f e) = error_text e

-- newBackendFailure and newBackendFailureWithExitCode: a nil error stays nil.
pub new_backend_failure_with_exit_code : Phase → Reason → Option GoError → ℕ → Option GoError
new_backend_failure_with_exit_code p r none code = none
new_backend_failure_with_exit_code p r (some e) code =
    some (failure (record { metrics_phase = p; metrics_reason = r; exit_code = code }) e)

pub new_backend_failure : Phase → Reason → Option GoError → Option GoError
new_backend_failure p r none = none
new_backend_failure p r (some e) =
    some (failure (record { metrics_phase = p; metrics_reason = r; exit_code = 0 }) e)

unfoldable pub failure_labels_of : Option TaskFailure → Phase × Reason
failure_labels_of none = (backend, unknown)
failure_labels_of (some f) = (f.metrics_phase, f.metrics_reason)

unfoldable pub task_failure_labels : GoError → Phase × Reason
unfolding failure_labels_of
task_failure_labels e =
    if is_error e deadline_exceeded
    then (backend, task_timeout)
    else if is_error e canceled
    then (backend, task_cancelled)
    else failure_labels_of (as_failure e)

unfoldable pub exit_code_of : Option TaskFailure → ℕ
exit_code_of none = 0
exit_code_of (some f) = f.exit_code

unfoldable pub failure_exit_code : GoError → ℕ
unfolding exit_code_of
failure_exit_code e = exit_code_of (as_failure e)

abbrev canceled_message : String
canceled_message =
    "The task was interrupted due to an infrastructure issue (context canceled). This is typically transient — please try again."

abbrev deadline_message : String
deadline_message =
    "The task exceeded its maximum allowed execution time and was terminated. Consider breaking the task into smaller steps or increasing the timeout."

unfoldable pub user_facing_task_error : GoError → String
user_facing_task_error e =
    if is_error e canceled
    then canceled_message
    else if is_error e deadline_exceeded
    then deadline_message
    else str_append "Failed to execute task: " (error_text e)

-- 128 + SIGTERM
abbrev pub sigterm_exit_code : ℕ
sigterm_exit_code = 143

-- taskCancellationSource: "", "user" or "shutdown".
pub data Source : Type 0 where
  unset user shutdown : Source

abbrev pub is_user : Source → Bool
is_user user = true
is_user _ = false

abbrev pub is_shutdown : Source → Bool
is_shutdown shutdown = true
is_shutdown _ = false

abbrev pub is_cancelled_reason : Reason → Bool
is_cancelled_reason task_cancelled = true
is_cancelled_reason _ = false

-- The reclassification of failures that a graceful shutdown caused.
unfoldable pub shutdown_reason : Source → Reason → ℕ → Reason
shutdown_reason source reason code =
    if is_shutdown source && (is_cancelled_reason reason || nat_beq code sigterm_exit_code)
    then graceful_shutdown
    else reason

abbrev at_least_one : ℕ → ℕ
at_least_one code = if nat_beq code 0 then 1 else code

-- standbyExitStatus
unfoldable pub standby_exit_status : Option GoError → Source → ℕ × String
unfolding shutdown_reason
standby_exit_status none source = (0, "")
standby_exit_status (some e) source =
    let code = at_least_one (failure_exit_code e) in
    if is_user source
    then (code, reason_text task_cancelled)
    else (code, reason_text (shutdown_reason source (task_failure_labels e).1 code))
