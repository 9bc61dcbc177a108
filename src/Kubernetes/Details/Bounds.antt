-- ===== src/Kubernetes/Details/Bounds.antt =====
-- Failure details have a bounded size, and what is not marked as truncated is whole.
pub mod Parts
pub mod Whole
use oz_agent_worker.Prelude.{
  ℕ, zero, suc, ◌≤◌, ◌≡◌, refl, Bool, true, false, ◌||◌, not, if◌then◌else◌, Option, none, some,
  List, [], ◌∷◌, ◌++◌, ◌==◌, nat_eq, String, ltb, length, take, length-take-le, length-append,
  arith, if-rule,
}
use oz_agent_worker.Env.{Bytes}
use oz_agent_worker.Kubernetes.Details.{
  Condition, KubernetesConditionDetails, ObservedJob, KubernetesJobFailureDetails, ObservedPod,
  KubernetesPodFailureDetails, KubernetesContainerFailureDetails, ObservedEvent,
  KubernetesEventDetails, KubernetesFailureDetails, Utf8, StableSort, max_reason_bytes,
  max_conditions, max_events, is_terminal_condition,
}
use oz_agent_worker.Kubernetes.Details.Texts.{
  IsUtf8, bounded_kubernetes_string, bounded_kubernetes_string_lem,
}
use oz_agent_worker.Kubernetes.Details.Project.{
  project_kubernetes_condition, project_conditions, project_kubernetes_job, project_kubernetes_pod,
  project_kubernetes_container, project_event, project_all, failure_events, is_later,
  project_kubernetes_events, project_opt, build_kubernetes_failure_details,
}

abbrev pub Fits : Bytes → Type 0
Fits text = length text ≤ max_reason_bytes

abbrev pub ConditionsFit : List KubernetesConditionDetails → Type 0
ConditionsFit [] = Unit
ConditionsFit (c ∷ cs) = Fits c.reason × ConditionsFit cs

abbrev pub EventsFit : List KubernetesEventDetails → Type 0
EventsFit [] = Unit
EventsFit (e ∷ es) = Fits e.event_type × Fits e.reason × EventsFit es

abbrev pub JobFits : Option KubernetesJobFailureDetails → Type 0
JobFits none = Unit
JobFits (some job) = (length job.conditions ≤ max_conditions) × ConditionsFit job.conditions

abbrev pub PodFits : Option KubernetesPodFailureDetails → Type 0
PodFits none = Unit
PodFits (some pod) =
    Fits pod.reason × (length pod.conditions ≤ max_conditions) × ConditionsFit pod.conditions

abbrev pub ContainerFits : Option KubernetesContainerFailureDetails → Type 0
ContainerFits none = Unit
ContainerFits (some container) = Fits container.waiting_reason × Fits container.termination_reason

pub record IsBounded (details : KubernetesFailureDetails) : Type 0 where
  pub job_fits : JobFits details.job
  pub pod_fits : PodFits details.pod
  pub container_fits : ContainerFits details.container
  pub events_fit : EventsFit details.events
  pub few_events : length details.events ≤ max_events

abbrev ResultFits : List KubernetesConditionDetails × Bool → Type 0
ResultFits r = (length r.0 ≤ max_conditions) × ConditionsFit r.0

snoc-ConditionsFit :
    (cs : List KubernetesConditionDetails) (c : KubernetesConditionDetails)
    → ConditionsFit cs
    → Fits c.reason
    → ConditionsFit (cs ++ c ∷ [])
snoc-ConditionsFit [] c h k = (k, tt)
snoc-ConditionsFit (d ∷ cs) c h k = (h.0, snoc-ConditionsFit cs c h.1 k)

module _ (utf8 : Utf8) (v : IsUtf8 utf8) where
  bounded-Fits : (text : Bytes) → Fits (bounded_kubernetes_string utf8 text).0
  bounded-Fits text = (bounded_kubernetes_string_lem utf8 v text).0.bounded

  conditions-fit :
      (keep : Condition → Bool) (cs : List Condition) (done : List KubernetesConditionDetails)
      (truncated : Bool)
      → length done ≤ max_conditions
      → ConditionsFit done
      → ResultFits (project_conditions utf8 keep cs done truncated)
  unfolding project_conditions project_kubernetes_condition
  conditions-fit keep [] done truncated h k = (h, k)
  conditions-fit keep (c ∷ cs) done truncated h k =
      let projected = project_kubernetes_condition utf8 c in
      let skipped = project_conditions utf8 keep cs done truncated in
      let added =
        project_conditions utf8 keep cs (done ++ projected.0 ∷ []) (truncated || projected.1) in
      if-rule ResultFits (not (keep c)) skipped _ (λ e. conditions-fit keep cs done truncated h k)
        (λ e.
          if-rule ResultFits (length done == max_conditions) (done, true) added (λ full. (h, k))
            (λ short.
              conditions-fit keep cs (done ++ projected.0 ∷ []) (truncated || projected.1)
                (ground (arith, length-append done (projected.0 ∷ [])))
                (snoc-ConditionsFit done projected.0 k (bounded-Fits c.reason))))

  project_all-fit :
      (events : List ObservedEvent) (truncated : Bool)
      → EventsFit (project_all utf8 events truncated).0
        × (length (project_all utf8 events truncated).0 ≡ length events)
  unfolding project_all project_event
  project_all-fit [] truncated = (tt, refl)
  project_all-fit (e ∷ es) truncated =
      let rest = project_all-fit es (truncated || (project_event utf8 e).1) in
      ((bounded-Fits e.event_type, bounded-Fits e.reason, rest.0), omega (arith, rest.1))

  job-fits : (job : Option ObservedJob) → JobFits (project_opt (project_kubernetes_job utf8) job).0
  unfolding project_kubernetes_job
  job-fits none = tt
  job-fits (some job) =
      conditions-fit is_terminal_condition job.conditions [] false (omega arith) tt

  pod-fits : (pod : Option ObservedPod) → PodFits (project_opt (project_kubernetes_pod utf8) pod).0
  unfolding project_kubernetes_pod
  pod-fits none = tt
  pod-fits (some pod) =
      let fit =
        conditions-fit (λ c. true) pod.conditions [] (bounded_kubernetes_string utf8 pod.reason).1
          (omega arith) tt in
      (bounded-Fits pod.reason, fit.0, fit.1)

  container-fits :
      (container : Option KubernetesContainerFailureDetails)
      → ContainerFits (project_opt (project_kubernetes_container utf8) container).0
  unfolding project_kubernetes_container
  container-fits none = tt
  container-fits (some c) = (bounded-Fits c.waiting_reason, bounded-Fits c.termination_reason)

  module _ (sort : StableSort) where
    events-fit :
        (events : List ObservedEvent)
        → EventsFit (project_kubernetes_events utf8 sort events).0
          × (length (project_kubernetes_events utf8 sort events).0 ≤ max_events)
    unfolding project_kubernetes_events
    events-fit events =
        let filtered = sort is_later (failure_events events) in
        let truncated = ltb max_events (length filtered) in
        let sent = if truncated then take max_events filtered else filtered in
        let few : length sent ≤ max_events =
          if-rule (λ es. length es ≤ max_events) truncated (take max_events filtered) filtered
            (λ e. length-take-le max_events filtered) (λ e. ground (arith, e)) in
        let fit = project_all-fit sent truncated in (fit.0, omega (arith, fit.1, few))

    -- Whatever Kubernetes holds about a failure, the details of it hold at most 16 conditions of the
    -- Job and of the Pod, at most 10 events, and at most 256 bytes of each reason and event type.
    pub build_kubernetes_failure_details-IsBounded :
        (source : String) (job : Option ObservedJob) (pod : Option ObservedPod)
        (container : Option KubernetesContainerFailureDetails) (events : List ObservedEvent)
        → IsBounded (build_kubernetes_failure_details utf8 sort source job pod container events)
    unfolding build_kubernetes_failure_details
    build_kubernetes_failure_details-IsBounded source job pod container events =
        let evs = events-fit events in
        record {
          job_fits = job-fits job;
          pod_fits = pod-fits pod;
          container_fits = container-fits container;
          events_fit = evs.0;
          few_events = evs.1;
        }
