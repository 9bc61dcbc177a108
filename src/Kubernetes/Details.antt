-- ===== src/Kubernetes/Details.antt =====
-- The structured details of a failure: internal/worker/kubernetes_failure_details.go. Bounded texts
-- are their bytes; a time is a number, 0 for the zero time.
pub mod Texts
pub mod Project
pub mod Bounds
use oz_agent_worker.Prelude.{
  ℕ, Bool, true, false, ◌&&◌, ◌||◌, not, if◌then◌else◌, Option, none, some, List, [], ◌∷◌, ◌++◌,
  ◌==◌, nat_eq, String, string_eq, ltb,
}
use oz_agent_worker.Env.{Bytes, bytes_eq}

-- A condition of a Job or a Pod, and its projection.
pub record Condition : Type 0 where
  pub condition_type : String
  pub status : String
  pub reason : Bytes
  pub last_transition_time : ℕ

pub record KubernetesConditionDetails : Type 0 where
  pub condition_type : String
  pub status : String
  pub reason : Bytes
  pub last_transition_time : Option ℕ

pub record ObservedJob : Type 0 where
  pub name : String
  pub uid : String
  pub conditions : List Condition

pub record KubernetesJobFailureDetails : Type 0 where
  pub name : String
  pub uid : String
  pub conditions : List KubernetesConditionDetails

pub record ObservedPod : Type 0 where
  pub name : String
  pub uid : String
  pub phase : String
  pub reason : Bytes
  pub deletion_timestamp : Option ℕ
  pub conditions : List Condition

pub record KubernetesPodFailureDetails : Type 0 where
  pub name : String
  pub uid : String
  pub phase : String
  pub reason : Bytes
  pub deletion_timestamp : Option ℕ
  pub conditions : List KubernetesConditionDetails

pub record KubernetesContainerFailureDetails : Type 0 where
  pub kind : String
  pub name : String
  pub state : String
  pub waiting_reason : Bytes
  pub termination_reason : Bytes
  pub raw_exit_code : Option ℕ
  pub normalized_exit_code : Option ℕ
  pub signal : Option ℕ
  pub started_at : Option ℕ
  pub finished_at : Option ℕ

-- corev1.EventSeries
pub record Series : Type 0 where
  pub count : ℕ
  pub last_observed_time : ℕ

pub record ObservedEvent : Type 0 where
  pub event_type : Bytes
  pub reason : Bytes
  pub count : ℕ
  pub series : Option Series
  pub first_timestamp : ℕ
  pub last_timestamp : ℕ
  pub event_time : ℕ
  pub creation_timestamp : ℕ

pub record KubernetesEventDetails : Type 0 where
  pub event_type : Bytes
  pub reason : Bytes
  pub count : ℕ
  pub first_observed_at : Option ℕ
  pub last_observed_at : Option ℕ

-- `schema_version` and `observed_at`, the clock, are left out.
pub record KubernetesFailureDetails : Type 0 where
  pub observation_source : String
  pub job : Option KubernetesJobFailureDetails
  pub pod : Option KubernetesPodFailureDetails
  pub container : Option KubernetesContainerFailureDetails
  pub events : List KubernetesEventDetails
  pub truncated : Bool

-- string([]rune(value)), which makes a text valid, and utf8.ValidString.
pub record Utf8 : Type 0 where
  pub to_valid : Bytes → Bytes
  pub is_valid : Bytes → Bool

-- The sort of sort.SliceStable by a test for "before".
abbrev pub StableSort : Type 0
StableSort = (ObservedEvent → ObservedEvent → Bool) → List ObservedEvent → List ObservedEvent

-- maxKubernetesFailureReasonBytes, maxKubernetesFailureConditions, maxKubernetesFailureEvents
abbrev pub max_reason_bytes : ℕ
max_reason_bytes = 256

abbrev pub max_conditions : ℕ
max_conditions = 16

abbrev pub max_events : ℕ
max_events = 10

-- A time that is set.
abbrev pub set_time : ℕ → Option ℕ
set_time time = if time == 0 then none else some time

unfoldable pub kubernetes_event_first_observed : ObservedEvent → ℕ
kubernetes_event_first_observed event =
    if not (event.first_timestamp == 0)
    then event.first_timestamp
    else if not (event.event_time == 0)
    then event.event_time
    else event.creation_timestamp

-- The last two cases of kubernetesEventLastObserved.
unfoldable pub last_unseries : ObservedEvent → ℕ
last_unseries event =
    if not (event.last_timestamp == 0)
    then event.last_timestamp
    else if not (event.event_time == 0)
    then event.event_time
    else event.creation_timestamp

unfoldable pub kubernetes_event_last_observed : ObservedEvent → ℕ
kubernetes_event_last_observed event = elim event.series [
  | some series ↦
      (if not (series.last_observed_time == 0)
        then series.last_observed_time
        else last_unseries event)
  | none ↦ last_unseries event
]

-- The bytes of "Warning" and "Killing".
abbrev warning : Bytes
warning = 87 ∷ 97 ∷ 114 ∷ 110 ∷ 105 ∷ 110 ∷ 103 ∷ []

abbrev killing : Bytes
killing = 75 ∷ 105 ∷ 108 ∷ 108 ∷ 105 ∷ 110 ∷ 103 ∷ []

unfoldable pub is_failure_event : ObservedEvent → Bool
is_failure_event event = event.event_type == warning || event.reason == killing

-- The types of the conditions that projectKubernetesJob keeps.
unfoldable pub is_terminal_condition : Condition → Bool
is_terminal_condition c =
    c.condition_type == "Complete"
    || c.condition_type == "Failed"
    || c.condition_type == "FailureTarget"
