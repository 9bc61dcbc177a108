-- ===== src/Kubernetes/Details/Bounds/Parts.antt =====
-- The parts of failure details with all their texts and all their conditions.
use oz_agent_worker.Prelude.{
  Bool, true, if◌then◌else◌, Option, none, some, List, [], ◌∷◌, nat_eq, map,
}
use oz_agent_worker.Kubernetes.Details.{
  Condition, KubernetesConditionDetails, ObservedJob, KubernetesJobFailureDetails, ObservedPod,
  KubernetesPodFailureDetails, KubernetesContainerFailureDetails, ObservedEvent,
  KubernetesEventDetails, Utf8, set_time, kubernetes_event_first_observed,
  kubernetes_event_last_observed, is_terminal_condition,
}

abbrev pub kept : (Condition → Bool) → List Condition → List Condition
kept keep [] = []
kept keep (c ∷ cs) = if keep c then c ∷ kept keep cs else kept keep cs

abbrev pub map_opt : {A B : Type 0} → (A → B) → Option A → Option B
map_opt f none = none
map_opt f (some a) = some (f a)

-- The parts with all their texts and all their conditions.
module _ (utf8 : Utf8) where
  abbrev pub whole_condition : Condition → KubernetesConditionDetails
  whole_condition c = record {
    condition_type = c.condition_type;
    status = c.status;
    reason = utf8.to_valid c.reason;
    last_transition_time = set_time c.last_transition_time;
  }

  abbrev pub whole_job : ObservedJob → KubernetesJobFailureDetails
  whole_job job = record {
    name = job.name;
    uid = job.uid;
    conditions = map whole_condition (kept is_terminal_condition job.conditions);
  }

  abbrev pub whole_pod : ObservedPod → KubernetesPodFailureDetails
  whole_pod pod = record {
    name = pod.name;
    uid = pod.uid;
    phase = pod.phase;
    reason = utf8.to_valid pod.reason;
    deletion_timestamp = pod.deletion_timestamp;
    conditions = map whole_condition (kept (λ c. true) pod.conditions);
  }

  abbrev pub whole_container : KubernetesContainerFailureDetails → KubernetesContainerFailureDetails
  whole_container c = record c {
    waiting_reason = utf8.to_valid c.waiting_reason;
    termination_reason = utf8.to_valid c.termination_reason;
  }

  abbrev pub whole_event : ObservedEvent → KubernetesEventDetails
  whole_event event = record {
    event_type = utf8.to_valid event.event_type;
    reason = utf8.to_valid event.reason;
    count = elim event.series [ none ↦ event.count | some series ↦ series.count ];
    first_observed_at = set_time (kubernetes_event_first_observed event);
    last_observed_at = set_time (kubernetes_event_last_observed event);
  }
