-- ===== src/Kubernetes/Setup/Status.antt =====
-- The status of a Pod as kubernetesSetupPhaseTracker reads it.
use oz_agent_worker.Prelude.{
  ℕ, Bool, true, false, ◌&&◌, ◌||◌, not, if◌then◌else◌, Option, none, some, is_some, List, [], ◌∷◌,
  ◌==◌, nat_eq, String, string_eq, ltb,
}

-- The state of a container: its start, or its start, finish and exit code.
pub data ContainerState : Type 0 where
  waiting : ContainerState
  running : ℕ → ContainerState
  terminated : ℕ → ℕ → ℕ → ContainerState

pub record SetupStatus : Type 0 where
  pub name : String
  pub state : ContainerState

-- `restarts` says that the restart policy is Always.
pub record SetupContainer : Type 0 where
  pub name : String
  pub restarts : Bool

-- A condition; `scheduled` says that it is PodScheduled and true.
pub record SetupCondition : Type 0 where
  pub scheduled : Bool
  pub last_transition_time : ℕ

pub record SetupPod : Type 0 where
  pub creation_timestamp : ℕ
  pub conditions : List SetupCondition
  pub init_containers : List SetupContainer
  pub init_statuses : List SetupStatus
  pub statuses : List SetupStatus

unfoldable pub first_scheduled : List SetupCondition → Option ℕ
first_scheduled [] = none
first_scheduled (c ∷ cs) =
    let rest = first_scheduled cs in if c.scheduled then some c.last_transition_time else rest

-- The anchor of observeInitContainers, which no `break` follows.
unfoldable pub last_scheduled : ℕ → List SetupCondition → ℕ
last_scheduled anchor [] = anchor
last_scheduled anchor (c ∷ cs) =
    last_scheduled (if c.scheduled then c.last_transition_time else anchor) cs

unfoldable pub init_succeeded : String → List SetupStatus → Bool
init_succeeded name [] = false
init_succeeded name (s ∷ ss) =
    let rest = init_succeeded name ss in
    let ended : Bool = elim s.state [
      | waiting ↦ false
      | running b ↦ false
      | terminated b f code ↦ code == 0
    ] in
    (s.name == name && ended) || rest

unfoldable pub inits_finished : List SetupContainer → List SetupStatus → Bool
inits_finished [] statuses = true
inits_finished (c ∷ cs) statuses =
    (c.restarts || init_succeeded c.name statuses) && inits_finished cs statuses

unfoldable pub task_init_finished : SetupPod → Bool
task_init_finished pod =
    inits_finished pod.init_containers pod.init_statuses && is_some (first_scheduled pod.conditions)

-- The last finish of the init containers.
unfoldable pub last_finish : ℕ → List SetupStatus → ℕ
last_finish anchor [] = anchor
last_finish anchor (s ∷ ss) =
    let next : ℕ = elim s.state [
      | waiting ↦ anchor
      | running b ↦ anchor
      | terminated b f code ↦ if ltb anchor f then f else anchor
    ] in
    last_finish next ss

unfoldable pub task_start_anchor : SetupPod → ℕ
task_start_anchor pod =
    let anchor = last_finish 0 pod.init_statuses in
    if not (anchor == 0)
    then anchor
    else elim (first_scheduled pod.conditions) [ some time ↦ time | none ↦ pod.creation_timestamp ]
