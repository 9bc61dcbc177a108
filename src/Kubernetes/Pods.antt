-- ===== src/Kubernetes/Pods.antt =====
-- Pods as the failure detection of internal/worker/kubernetes.go reads them, and the classification
-- of container states, exit codes and Jobs. Exit codes and signals are natural numbers, 0 for none.
pub mod Messages
pub mod Inspect
pub mod Failures
pub mod Sidecars
pub mod Outcomes
use Prim.Native.String.{◌++◌ as str_append}
use oz_agent_worker.Prelude.{
  ℕ, ◌+◌, ◌-◌, Bool, true, false, ◌&&◌, ◌||◌, not, if◌then◌else◌, Option, none, some, List, [], ◌∷◌,
  ◌==◌, ltb, nat_eq, String, string_eq,
}
use oz_agent_worker.Failure.{
  Reason, image_pull, invalid_image, init_container, container_create, container_wait,
  container_oom, container_exit, active_deadline, job_failed,
}
use oz_agent_worker.Kubernetes.Jobs.{Job, JobCondition, PodPhase}

pub record Terminated : Type 0 where
  pub exit_code : ℕ
  pub signal : ℕ
  pub reason : String
  pub message : String

pub record Waiting : Type 0 where
  pub reason : String
  pub message : String

pub record ContainerStatus : Type 0 where
  pub name : String
  pub terminated : Option Terminated
  pub waiting : Option Waiting

-- An init container of the specification; `restarts` says that its restart policy is Always.
pub record InitContainer : Type 0 where
  pub name : String
  pub restarts : Bool

-- `status_false` says that the status is "False".
pub record PodCondition : Type 0 where
  pub condition_type : String
  pub status_false : Bool
  pub reason : String
  pub message : String

-- `age` is the time since its creation, in milliseconds.
pub record Pod : Type 0 where
  pub name : String
  pub namespace : String
  pub job_label : String
  pub age : ℕ
  pub phase : PodPhase
  pub reason : String
  pub message : String
  pub init_containers : List InitContainer
  pub init_statuses : List ContainerStatus
  pub statuses : List ContainerStatus
  pub conditions : List PodCondition

pub record Event : Type 0 where
  pub reason : String
  pub message : String

-- strings.EqualFold, strings.ToLower, strings.Contains and `%d`.
pub record Texts : Type 0 where
  pub equal_fold : String → String → Bool
  pub to_lower : String → String
  pub includes : String → String → Bool
  pub decimal : ℕ → String

-- The parts of the configuration that are read: `unschedulable_timeout` is none when it is nil.
pub record KubernetesConfig : Type 0 where
  pub namespace : String
  pub unschedulable_timeout : Option ℕ

unfoldable pub terminated_exit_code : Terminated → ℕ
terminated_exit_code t = if ltb 0 t.signal then 128 + t.signal else t.exit_code

unfoldable pub is_immediate_container_failure : String → Bool
is_immediate_container_failure reason =
    reason == "CreateContainerConfigError"
    || reason == "CreateContainerError"
    || reason == "ErrImagePull"
    || reason == "ImagePullBackOff"
    || reason == "InvalidImageName"

unfoldable pub classify_waiting_reason : String → Bool → Reason
classify_waiting_reason reason init =
    if reason == "ErrImagePull" || reason == "ImagePullBackOff"
    then image_pull
    else if reason == "InvalidImageName"
    then invalid_image
    else if reason == "CreateContainerConfigError" || reason == "CreateContainerError"
    then (if init then init_container else container_create)
    else if init
    then init_container
    else container_wait

unfoldable pub classify_terminated_reason : String → Reason
classify_terminated_reason reason = if reason == "OOMKilled" then container_oom else container_exit

-- restartableInitContainerNames as the map it builds: whether it holds a name.
unfoldable pub is_restartable : String → List InitContainer → Bool
is_restartable name [] = false
is_restartable name (c ∷ cs) = (c.restarts && c.name == name) || is_restartable name cs

unfoldable pub should_fail_unschedulable_pod : KubernetesConfig → Pod → Bool
should_fail_unschedulable_pod config pod = elim config.unschedulable_timeout [
  | none ↦ false
  | some timeout ↦ ltb 0 timeout && not (ltb pod.age timeout)
]

module _ (t : Texts) where
  mentions_deadline : JobCondition → Bool
  mentions_deadline c =
      t.includes (t.to_lower (str_append c.reason (str_append " " c.message))) "deadline"

  unfoldable pub classify_conditions : List JobCondition → Reason
  unfolding mentions_deadline
  classify_conditions [] = job_failed
  classify_conditions (c ∷ cs) =
      let rest = classify_conditions cs in
      if not (c.condition_type == "Failed" && c.is_true)
      then rest
      else if mentions_deadline c
      then active_deadline
      else rest

  abbrev pub classify_job_failure : Job → Reason
  classify_job_failure job = classify_conditions job.conditions

  unfoldable pub signal_name : ℕ → String
  signal_name signal =
      if signal == 1
      then "SIGHUP"
      else if signal == 2
      then "SIGINT"
      else if signal == 3
      then "SIGQUIT"
      else if signal == 6
      then "SIGABRT"
      else if signal == 9
      then "SIGKILL"
      else if signal == 15
      then "SIGTERM"
      else if ltb 0 signal
      then str_append "signal " (t.decimal signal)
      else ""

  -- An exit code below 128 stands for no signal: subtraction on ℕ gives 0, whose name is empty.
  unfoldable pub exit_signal_name : Terminated → String
  exit_signal_name c =
      let signal = signal_name c.signal in
      if not (signal == "") then signal else signal_name (c.exit_code - 128)
