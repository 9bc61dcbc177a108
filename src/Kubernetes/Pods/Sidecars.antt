-- ===== src/Kubernetes/Pods/Sidecars.antt =====
-- The exit of a native sidecar is never a failure.
use oz_agent_worker.Prelude.{
  ◌≡◌, refl, Bool, true, false, if◌then◌else◌, Option, none, some, List, [], ◌∷◌, map, String, ap,
  arith, nat_eq,
}
use oz_agent_worker.Kubernetes.Jobs.{Job, Disposition}
use oz_agent_worker.Kubernetes.Pods.{
  Terminated, Waiting, ContainerStatus, InitContainer, PodCondition, Pod, Event, Texts,
  KubernetesConfig, is_restartable, should_fail_unschedulable_pod,
}
use oz_agent_worker.Kubernetes.Pods.Messages.{
  pod_context, pod_status_details, pod_failure_error, pod_summary_error,
  container_waiting_failure_error, container_terminated_failure_error,
}
use oz_agent_worker.Kubernetes.Pods.Inspect.{
  or_failure, disposition_of, evicted_failure, init_terminated, container_waiting, inspect_init,
  inspect_inits, container_terminated, inspect_containers, inspect_conditions, inspect_events,
  failed_pod, failed_reason, inspect_pod_failure_at,
}

-- The status without the end of a container that is restarted.
abbrev pub without_exit : List InitContainer → ContainerStatus → ContainerStatus
without_exit cs status = record status {
  terminated = if is_restartable status.name cs then none else status.terminated;
}

init_restartable :
    (t : Texts) (config : KubernetesConfig) (pod : Pod) (d : Disposition) (name : String) (r : Bool)
    (o : Option Terminated)
    → init_terminated t config pod d name r (if r then none else o)
      ≡ init_terminated t config pod d name r o
unfolding init_terminated
init_restartable t config pod d name false o = refl
init_restartable t config pod d name true none = refl
init_restartable t config pod d name true (some c) = ground arith

inspect_init-without_exit :
    (t : Texts) (config : KubernetesConfig) (pod : Pod) (d : Disposition) (s : ContainerStatus)
    → inspect_init t config pod d (without_exit pod.init_containers s)
      ≡ inspect_init t config pod d s
unfolding inspect_init
inspect_init-without_exit t config pod d s =
    let restartable = is_restartable s.name pod.init_containers in
    ap
      (λ x. or_failure x (
        container_waiting t config pod d (if restartable then "sidecar" else "init")
          "init container" true s.name s.waiting))
      (init_restartable t config pod d s.name (is_restartable s.name pod.init_containers)
        s.terminated)

inspect_inits-without_exit :
    (t : Texts) (config : KubernetesConfig) (pod : Pod) (d : Disposition)
    (ss : List ContainerStatus)
    → inspect_inits t config pod d (map (without_exit pod.init_containers) ss)
      ≡ inspect_inits t config pod d ss
unfolding inspect_inits
inspect_inits-without_exit t config pod d [] = refl
inspect_inits-without_exit t config pod d (s ∷ ss) =
    rw (inspect_init-without_exit t config pod d s, inspect_inits-without_exit t config pod d ss)
      refl

-- The Pod with other statuses of its init containers.
abbrev pub with_inits : Pod → List ContainerStatus → Pod
with_inits pod ss = record pod { init_statuses = ss }

module _ (t : Texts) (config : KubernetesConfig) (pod : Pod) (d : Disposition)
    (us : List ContainerStatus) where
  init_terminated-with_inits :
      (n : String) (r : Bool) (o : Option Terminated)
      → init_terminated t config (with_inits pod us) d n r o ≡ init_terminated t config pod d n r o
  unfolding init_terminated container_terminated_failure_error pod_context pod_status_details
  init_terminated-with_inits n r none = refl
  init_terminated-with_inits n r (some c) = refl

  container_terminated-with_inits :
      (n : String) (o : Option Terminated)
      → container_terminated t config (with_inits pod us) d n o
        ≡ container_terminated t config pod d n o
  unfolding container_terminated container_terminated_failure_error pod_context pod_status_details
  container_terminated-with_inits n none = refl
  container_terminated-with_inits n (some c) = refl

  container_waiting-with_inits :
      (k l : String) (b : Bool) (n : String) (o : Option Waiting)
      → container_waiting t config (with_inits pod us) d k l b n o
        ≡ container_waiting t config pod d k l b n o
  unfolding container_waiting container_waiting_failure_error pod_context pod_status_details
  container_waiting-with_inits k l b n none = refl
  container_waiting-with_inits k l b n (some w) = refl

  inits-with_inits :
      (ss : List ContainerStatus)
      → inspect_inits t config (with_inits pod us) d ss ≡ inspect_inits t config pod d ss
  unfolding inspect_inits inspect_init
  inits-with_inits [] = refl
  inits-with_inits (s ∷ ss) =
      let restartable = is_restartable s.name pod.init_containers in
      rw
        (
          init_terminated-with_inits s.name restartable s.terminated,
          container_waiting-with_inits (if restartable then "sidecar" else "init") "init container"
              true s.name s.waiting,
          inits-with_inits ss,
        )
        refl

  containers-with_inits :
      (ss : List ContainerStatus)
      → inspect_containers t config (with_inits pod us) d ss ≡ inspect_containers t config pod d ss
  unfolding inspect_containers
  containers-with_inits [] = refl
  containers-with_inits (s ∷ ss) =
      rw
        (
          container_terminated-with_inits s.name s.terminated,
          container_waiting-with_inits "regular" "container" false s.name s.waiting,
          containers-with_inits ss,
        )
        refl

  conditions-with_inits :
      (cs : List PodCondition)
      → inspect_conditions t config (with_inits pod us) d cs ≡ inspect_conditions t config pod d cs
  unfolding inspect_conditions pod_summary_error should_fail_unschedulable_pod pod_context
  conditions-with_inits [] = refl
  conditions-with_inits (c ∷ cs) = rw (conditions-with_inits cs) refl

  events-with_inits :
      (es : List Event)
      → inspect_events t config (with_inits pod us) d es ≡ inspect_events t config pod d es
  unfolding inspect_events pod_summary_error pod_context
  events-with_inits [] = refl
  events-with_inits (e ∷ es) = rw (events-with_inits es) refl

  evicted-with_inits :
      evicted_failure t config (with_inits pod us) d ≡ evicted_failure t config pod d
  unfolding evicted_failure pod_failure_error pod_context pod_status_details
  evicted-with_inits = refl

  failed-with_inits : failed_pod t config (with_inits pod us) d ≡ failed_pod t config pod d
  unfolding failed_pod failed_reason pod_failure_error pod_context pod_status_details
  failed-with_inits = refl

disposition-with_inits :
    (pod : Pod) (us : List ContainerStatus) (job : Option Job)
    → disposition_of (with_inits pod us) job ≡ disposition_of pod job
unfolding disposition_of
disposition-with_inits pod us none = refl
disposition-with_inits pod us (some j) = refl

-- The ends of native sidecars, init containers whose restart policy is Always, do not count: a Pod
-- from whose statuses they are taken has the same failure, or none in the same cases.
pub sidecar_exits_ignored :
    (t : Texts) (config : KubernetesConfig) (pod : Pod) (job : Option Job) (events : List Event)
    → inspect_pod_failure_at t config
        (with_inits pod (map (without_exit pod.init_containers) pod.init_statuses))
        job
        events
      ≡ inspect_pod_failure_at t config pod job events
unfolding inspect_pod_failure_at
sidecar_exits_ignored t config pod job events =
    let d = disposition_of pod job in
    let us = map (without_exit pod.init_containers) pod.init_statuses in
    rw
      (
        disposition-with_inits pod us job,
        evicted-with_inits t config pod d us,
        inits-with_inits t config pod d us us,
        inspect_inits-without_exit t config pod d pod.init_statuses,
        containers-with_inits t config pod d us pod.statuses,
        conditions-with_inits t config pod d us pod.conditions,
        events-with_inits t config pod d us events,
        failed-with_inits t config pod d us,
      )
      refl
