-- ===== src/Tests/Kubernetes.antt =====
-- The theorems on Jobs, Pods and failure details at concrete inputs.
use oz_agent_worker.Prelude.{
  IsDistinct, not, ◌||◌, if◌then◌else◌, is_some, ℕ, ◌+◌, ◌≤◌, ◌≡◌, Bool, true, false, if◌then◌else◌,
  none, some, is_some, List, [], ◌∷◌, map, String, string_eq, nat_eq, ◌==◌, length, ◌↔◌,
}
use oz_agent_worker.Kubernetes.Jobs.{
  Job, failed, termination_required, answer, refused, transient, conflict, Attempt,
  request_job_execution_stop, is_finished,
}
use oz_agent_worker.Kubernetes.Jobs.Fencing.{AllFenced, stop_fenced}
use oz_agent_worker.Kubernetes.Names.{kubernetes_task_job_name}
use oz_agent_worker.Kubernetes.Names.Labels.{IsDnsLabel, job_name-IsDnsLabel}
use oz_agent_worker.Kubernetes.Pods.{Terminated, Pod, Texts, KubernetesConfig}
use oz_agent_worker.Kubernetes.Pods.Inspect.{phase_is, inspect_pod_failure_at, disposition_of}
use oz_agent_worker.Kubernetes.Pods.Failures.{Reports, inspect_pod_failure}
use oz_agent_worker.Kubernetes.Pods.Sidecars.{with_inits, without_exit, sidecar_exits_ignored}
use oz_agent_worker.Kubernetes.Setup.{new_kubernetes_setup_phase_tracker}
use oz_agent_worker.Kubernetes.Setup.Status.{SetupPod, running, terminated}
use oz_agent_worker.Kubernetes.Setup.Once.{going, names, AllProper}
use oz_agent_worker.Kubernetes.Setup.Once.Run.{
  TrackerStep, observe, finish, track, setup_phases_once,
}
use oz_agent_worker.Kubernetes.Sidecars.{
  SidecarMount, validate_task_sidecars, AllMountable, validate_task_sidecars_iff,
}

abbrev failed_job : Job
failed_job = record {
  name = "oz-run-1";
  uid = "u1";
  resource_version = "7";
  execution_hash = "e";
  task_hash = "t";
  backoff_limit = some 0;
  has_pod_failure_policy = false;
  conditions =
      record {
        condition_type = "Failed";
        is_true = true;
        reason = "BackoffLimitExceeded";
        message = "";
      }
      ∷ [];
}

abbrev running_job : Job
running_job = record failed_job { conditions = [] }

abbrev attempts : List Attempt
attempts =
    record { refreshed = refused transient; pods = answer []; patched = refused conflict }
    ∷ record { refreshed = answer running_job; pods = answer []; patched = answer tt }
    ∷ []

stop_fenced_example :
    let r = request_job_execution_stop running_job termination_required attempts in
    AllFenced "u1" r.0 × (length r.0 ≤ (if is_finished running_job then 0 else 2))
stop_fenced_example = stop_fenced running_job termination_required attempts

abbrev as_is : ℕ → ℕ
as_is t = t

job_name-IsDnsLabel_example :
    IsDnsLabel (kubernetes_task_job_name as_is (45 ∷ 114 ∷ 117 ∷ 110 ∷ []) [])
job_name-IsDnsLabel_example = job_name-IsDnsLabel as_is (45 ∷ 114 ∷ 117 ∷ 110 ∷ []) []

abbrev plain_texts : Texts
plain_texts = record {
  equal_fold = λ a b. a == b;
  to_lower = λ a. a;
  includes = λ a b. a == b;
  decimal = λ n. if n == 137 then "137" else "1";
}

abbrev config : KubernetesConfig
config = record { namespace = "default"; unschedulable_timeout = some 1000 }

abbrev killed : Terminated
killed = record { exit_code = 137; signal = 0; reason = "OOMKilled"; message = "" }

-- A Pod whose sidecar was killed and whose task container too.
abbrev killed_pod : Pod
killed_pod = record {
  name = "p";
  namespace = "";
  job_label = "oz-run-1";
  age = 5;
  phase = failed;
  reason = "";
  message = "";
  init_containers = record { name = "proxy"; restarts = true } ∷ [];
  init_statuses = record { name = "proxy"; terminated = some killed; waiting = none } ∷ [];
  statuses = record { name = "task"; terminated = some killed; waiting = none } ∷ [];
  conditions = [];
}

inspect_pod_failure_example :
    let found = inspect_pod_failure_at plain_texts config killed_pod (some failed_job) [] in
    ((not (phase_is failed failed) || is_some found) ≡ true)
    × Reports (disposition_of killed_pod (some failed_job)) found
inspect_pod_failure_example = inspect_pod_failure plain_texts config killed_pod (some failed_job) []

sidecar_exits_ignored_example :
    inspect_pod_failure_at plain_texts config
      (with_inits killed_pod
        (map (without_exit killed_pod.init_containers) killed_pod.init_statuses))
      none
      []
    ≡ inspect_pod_failure_at plain_texts config killed_pod none []
sidecar_exits_ignored_example = sidecar_exits_ignored plain_texts config killed_pod none []

abbrev is_copy : String → Bool
is_copy name = name == "copy-sidecar-0"

abbrev seen_pod : SetupPod
seen_pod = record {
  creation_timestamp = 10;
  conditions = record { scheduled = true; last_transition_time = 12 } ∷ [];
  init_containers = record { name = "setup"; restarts = false } ∷ [];
  init_statuses = record { name = "setup"; state = terminated 13 15 0 } ∷ [];
  statuses = record { name = "task"; state = running 20 } ∷ [];
}

abbrev setup_steps : List TrackerStep
setup_steps = observe seen_pod ∷ observe seen_pod ∷ finish ∷ observe seen_pod ∷ []

setup_phases_once_example :
    let t = track is_copy setup_steps new_kubernetes_setup_phase_tracker in
    IsDistinct (names t.sent)
    × AllProper t.sent
    × IsDistinct t.ended
    × IsDistinct t.ended_executions
    × (length t.ended_executions + going t.execution ≡ length t.executions)
setup_phases_once_example = setup_phases_once is_copy setup_steps

abbrev mounts : List SidecarMount
mounts =
    record { image = "a"; mount_path = "/a"; read_write = false }
    ∷ record { image = "b"; mount_path = "/b"; read_write = true }
    ∷ []

validate_task_sidecars_iff_example : (validate_task_sidecars mounts ≡ none) ↔ AllMountable mounts
validate_task_sidecars_iff_example = validate_task_sidecars_iff mounts
