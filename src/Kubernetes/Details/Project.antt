-- ===== src/Kubernetes/Details/Project.antt =====
-- The projections of internal/worker/kubernetes_failure_details.go, and the requests for events.
use oz_agent_worker.Prelude.{
  ℕ, Bool, true, false, ◌||◌, not, if◌then◌else◌, Option, none, some, List, [], ◌∷◌, ◌++◌, ◌==◌,
  nat_eq, String, string_eq, ltb, length, take,
}
use oz_agent_worker.Env.{Bytes}
use oz_agent_worker.Kubernetes.Pods.{terminated_exit_code}
use oz_agent_worker.Kubernetes.Details.{
  Condition, KubernetesConditionDetails, ObservedJob, KubernetesJobFailureDetails, ObservedPod,
  KubernetesPodFailureDetails, KubernetesContainerFailureDetails, ObservedEvent,
  KubernetesEventDetails, KubernetesFailureDetails, Utf8, StableSort, max_conditions, max_events,
  set_time, kubernetes_event_first_observed, kubernetes_event_last_observed, is_failure_event,
  is_terminal_condition,
}
use oz_agent_worker.Kubernetes.Details.Texts.{bounded_kubernetes_string}

-- corev1.ContainerStateTerminated, without its message.
pub record EndedContainer : Type 0 where
  pub exit_code : ℕ
  pub signal : ℕ
  pub reason : Bytes
  pub started_at : ℕ
  pub finished_at : ℕ

unfoldable pub terminated_container_failure_details :
    String → String → EndedContainer → KubernetesContainerFailureDetails
terminated_container_failure_details kind name c = record {
  kind = kind;
  name = name;
  state = "terminated";
  waiting_reason = [];
  termination_reason = c.reason;
  raw_exit_code = some c.exit_code;
  normalized_exit_code = some (
      terminated_exit_code
        (record { exit_code = c.exit_code; signal = c.signal; reason = ""; message = "" }));
  signal = if ltb 0 c.signal then some c.signal else none;
  started_at = set_time c.started_at;
  finished_at = set_time c.finished_at;
}

unfoldable pub waiting_container_failure_details :
    String → String → Bytes → KubernetesContainerFailureDetails
waiting_container_failure_details kind name reason = record {
  kind = kind;
  name = name;
  state = "waiting";
  waiting_reason = reason;
  termination_reason = [];
  raw_exit_code = none;
  normalized_exit_code = none;
  signal = none;
  started_at = none;
  finished_at = none;
}

-- What is lost is known by a flag beside each projection.
module _ (utf8 : Utf8) where
  unfoldable pub project_kubernetes_condition : Condition → KubernetesConditionDetails × Bool
  project_kubernetes_condition c =
      let bounded = bounded_kubernetes_string utf8 c.reason in
      (
        record {
          condition_type = c.condition_type;
          status = c.status;
          reason = bounded.0;
          last_transition_time = set_time c.last_transition_time;
        },
        bounded.1,
      )

  -- The loops over conditions: `keep` is the guard of their `continue`, the full list their `break`.
  unfoldable pub project_conditions :
      (Condition → Bool)
      → List Condition
      → List KubernetesConditionDetails
      → Bool
      → List KubernetesConditionDetails × Bool
  project_conditions keep [] done truncated = (done, truncated)
  project_conditions keep (c ∷ cs) done truncated =
      let projected = project_kubernetes_condition c in
      let skipped = project_conditions keep cs done truncated in
      let added =
        project_conditions keep cs (done ++ projected.0 ∷ []) (truncated || projected.1) in
      if not (keep c)
      then skipped
      else if length done == max_conditions
      then (done, true)
      else added

  unfoldable pub project_kubernetes_job : ObservedJob → KubernetesJobFailureDetails × Bool
  project_kubernetes_job job =
      let conditions = project_conditions is_terminal_condition job.conditions [] false in
      (record { name = job.name; uid = job.uid; conditions = conditions.0 }, conditions.1)

  unfoldable pub project_kubernetes_pod : ObservedPod → KubernetesPodFailureDetails × Bool
  project_kubernetes_pod pod =
      let reason = bounded_kubernetes_string utf8 pod.reason in
      let conditions = project_conditions (λ c. true) pod.conditions [] reason.1 in
      (
        record {
          name = pod.name;
          uid = pod.uid;
          phase = pod.phase;
          reason = reason.0;
          deletion_timestamp = pod.deletion_timestamp;
          conditions = conditions.0;
        },
        conditions.1,
      )

  unfoldable pub project_kubernetes_container :
      KubernetesContainerFailureDetails → KubernetesContainerFailureDetails × Bool
  project_kubernetes_container container =
      let waiting = bounded_kubernetes_string utf8 container.waiting_reason in
      let termination = bounded_kubernetes_string utf8 container.termination_reason in
      (
        record container { waiting_reason = waiting.0; termination_reason = termination.0 },
        waiting.1 || termination.1,
      )

  -- The body of the loop over the kept events: its details and whether they lost a text.
  unfoldable pub project_event : ObservedEvent → KubernetesEventDetails × Bool
  project_event event =
      let event_type = bounded_kubernetes_string utf8 event.event_type in
      let reason = bounded_kubernetes_string utf8 event.reason in
      (
        record {
          event_type = event_type.0;
          reason = reason.0;
          count = elim event.series [ none ↦ event.count | some series ↦ series.count ];
          first_observed_at = set_time (kubernetes_event_first_observed event);
          last_observed_at = set_time (kubernetes_event_last_observed event);
        },
        event_type.1 || reason.1,
      )

  unfoldable pub project_all : List ObservedEvent → Bool → List KubernetesEventDetails × Bool
  project_all [] truncated = ([], truncated)
  project_all (event ∷ events) truncated =
      let projected = project_event event in
      let rest = project_all events (truncated || projected.1) in (projected.0 ∷ rest.0, rest.1)

abbrev pub failure_events : List ObservedEvent → List ObservedEvent
failure_events [] = []
failure_events (event ∷ events) =
    let rest = failure_events events in if is_failure_event event then event ∷ rest else rest

-- The comparison of the sort: the last observed first.
abbrev pub is_later : ObservedEvent → ObservedEvent → Bool
is_later i j = ltb (kubernetes_event_last_observed j) (kubernetes_event_last_observed i)

-- A part that may be missing, with the flag so far.
abbrev pub project_opt : {A B : Type 0} → (A → B × Bool) → Option A → Option B × Bool
project_opt project none = (none, false)
project_opt project (some a) = (some (project a).0, (project a).1)

module _ (utf8 : Utf8) (sort : StableSort) where
  unfoldable pub project_kubernetes_events : List ObservedEvent → List KubernetesEventDetails × Bool
  project_kubernetes_events events =
      let filtered = sort is_later (failure_events events) in
      let truncated = ltb max_events (length filtered) in
      project_all utf8 (if truncated then take max_events filtered else filtered) truncated

  unfoldable pub build_kubernetes_failure_details :
      String
      → Option ObservedJob
      → Option ObservedPod
      → Option KubernetesContainerFailureDetails
      → List ObservedEvent
      → KubernetesFailureDetails
  build_kubernetes_failure_details source job pod container events =
      let container = project_opt (project_kubernetes_container utf8) container in
      let job = project_opt (project_kubernetes_job utf8) job in
      let pod = project_opt (project_kubernetes_pod utf8) pod in
      let events = project_kubernetes_events events in
      record {
        observation_source = source;
        job = job.0;
        pod = pod.0;
        container = container.0;
        events = events.0;
        truncated = ((container.1 || job.1) || pod.1) || events.1;
      }

  -- refreshFailureJobDetails, once the Job is read.
  unfoldable pub refresh_failure_job_details :
      ObservedJob → KubernetesFailureDetails → KubernetesFailureDetails
  refresh_failure_job_details job details =
      let projected = project_kubernetes_job utf8 job in
      record details { job = some projected.0; truncated = details.truncated || projected.1 }

abbrev is_pod : String → Option ObservedPod → Bool
is_pod uid none = false
is_pod uid (some pod) = uid == pod.uid

-- The objects whose events are asked for: their kind, name and UID.
unfoldable pub failure_references :
    Option ObservedJob → Option ObservedPod → List (String × String × String)
failure_references job pod =
    let of_pod : List (String × String × String) = elim pod [
      | none ↦ []
      | some p ↦ if p.uid == "" then [] else ("Pod", p.name, p.uid) ∷ []
    ] in
    let of_job : List (String × String × String) = elim job [
      | none ↦ []
      | some j ↦ if j.uid == "" || is_pod j.uid pod then [] else ("Job", j.name, j.uid) ∷ []
    ] in
    of_pod ++ of_job

-- The events of the objects: `list` is the answer for a UID, none for an error.
unfoldable pub collect_events :
    (String → Option (List ObservedEvent)) → List (String × String × String) → List ObservedEvent
collect_events list [] = []
collect_events list ((kind, name, uid) ∷ references) =
    let rest = collect_events list references in
    elim (list uid) [ none ↦ rest | some events ↦ events ++ rest ]
