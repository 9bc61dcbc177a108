-- ===== src/Kubernetes/Pods/Failures.antt =====
-- What every failure found on a Pod has, and that a failed Pod has one.
use oz_agent_worker.Prelude.{
  ◌||◌, ℕ, ◌≡◌, ◌≢◌, refl, Bool, true, false, ◌||◌, not, if◌then◌else◌, Option, none, some, is_some,
  List, [], ◌∷◌, ◌==◌, nat_eq, String, string_eq, Bool-cases, inl, inr, arith,
}
use oz_agent_worker.Failure.{backend, GoError, other}
use oz_agent_worker.Kubernetes.Jobs.{
  PodPhase, pending, running, succeeded, phase_unknown, Job, Disposition, pending, failed,
}
use oz_agent_worker.Kubernetes.Pods.{
  Terminated, Waiting, ContainerStatus, PodCondition, Pod, Event, Texts, KubernetesConfig,
  terminated_exit_code,
}
use oz_agent_worker.Kubernetes.Pods.Messages.{
  pod_failure_error, pod_summary_error, container_waiting_failure_error,
  container_terminated_failure_error,
}
use oz_agent_worker.Kubernetes.Pods.Inspect.{
  Culprit, no_container, terminated_container, waiting_container, PodFailure, phase_is, or_failure,
  disposition_of, evicted_failure, init_terminated, container_waiting, inspect_init, inspect_inits,
  container_terminated, inspect_containers, inspect_conditions, inspect_events, failed_pod,
  inspect_pod_failure_at,
}

-- The exit code is that of the container that ended, and not 0; without one it is 0.
abbrev pub CodeFits : Culprit → ℕ → Type 0
CodeFits (terminated_container kind name c) code = (code ≡ terminated_exit_code c) × (code ≢ 0)
CodeFits (waiting_container kind name w) code = code ≡ 0
CodeFits no_container code = code ≡ 0

abbrev pub IsPlain : GoError → Type 0
IsPlain (other m) = Unit
IsPlain _ = ⊥

pub record IsReport (d : Disposition) (f : PodFailure) : Type 0 where
  pub in_backend : f.cause.metrics_phase ≡ backend
  pub plain : IsPlain f.text
  pub code : CodeFits f.culprit f.cause.exit_code
  pub disposed : f.disposition ≡ d

abbrev pub Reports : Disposition → Option PodFailure → Type 0
Reports d none = Unit
Reports d (some f) = IsReport d f

or-Reports :
    (d : Disposition) (x y : Option PodFailure)
    → Reports d x
    → Reports d y
    → Reports d (or_failure x y)
or-Reports d none y h k = k
or-Reports d (some f) y h k = h

if-Reports :
    (d : Disposition) (b : Bool) (x y : Option PodFailure)
    → Reports d x
    → Reports d y
    → Reports d (if b then x else y)
if-Reports d true x y h k = h
if-Reports d false x y h k = k

module _ (t : Texts) (config : KubernetesConfig) (pod : Pod) (d : Disposition) where
  evicted-Reports : Reports d (evicted_failure t config pod d)
  unfolding evicted_failure pod_failure_error
  evicted-Reports =
      if-Reports d _ (some _) none
        (record { in_backend = refl; plain = tt; code = refl; disposed = refl }) tt

  terminated-Reports :
      (name : String) (r : Bool) (o : Option Terminated)
      → Reports d (init_terminated t config pod d name r o)
        × Reports d (container_terminated t config pod d name o)
  unfolding init_terminated container_terminated container_terminated_failure_error
  terminated-Reports name r none = (tt, tt)
  terminated-Reports name r (some c) = elim (Bool-cases (terminated_exit_code c == 0)) [
    | inl e ↦ rw e (tt, tt)
    | inr e ↦
        (let v : CodeFits (terminated_container "" "" c) (terminated_exit_code c) =
            (refl, ground (arith, e)) in
          rw e (
            if-Reports d (not r) (some _) none
                (record { in_backend = refl; plain = tt; code = v; disposed = refl }) tt,
            record { in_backend = refl; plain = tt; code = v; disposed = refl },
          ))
  ]

  waiting-Reports :
      (kind label : String) (init : Bool) (name : String) (o : Option Waiting)
      → Reports d (container_waiting t config pod d kind label init name o)
  unfolding container_waiting container_waiting_failure_error
  waiting-Reports kind label init name none = tt
  waiting-Reports kind label init name (some w) =
      if-Reports d _ (some _) none
        (record { in_backend = refl; plain = tt; code = refl; disposed = refl }) tt

  inits-Reports : (ss : List ContainerStatus) → Reports d (inspect_inits t config pod d ss)
  unfolding inspect_inits inspect_init
  inits-Reports [] = tt
  inits-Reports (s ∷ ss) =
      or-Reports d _ _
        (or-Reports d _ _ (terminated-Reports s.name _ s.terminated).0
          (waiting-Reports _ "init container" true s.name s.waiting))
        (inits-Reports ss)

  containers-Reports :
      (ss : List ContainerStatus) → Reports d (inspect_containers t config pod d ss)
  unfolding inspect_containers
  containers-Reports [] = tt
  containers-Reports (s ∷ ss) =
      or-Reports d _ _
        (or-Reports d _ _ (terminated-Reports s.name true s.terminated).1
          (waiting-Reports "regular" "container" false s.name s.waiting))
        (containers-Reports ss)

  conditions-Reports : (cs : List PodCondition) → Reports d (inspect_conditions t config pod d cs)
  unfolding inspect_conditions pod_summary_error
  conditions-Reports [] = tt
  conditions-Reports (c ∷ cs) =
      if-Reports d _ (some _) _
        (record { in_backend = refl; plain = tt; code = refl; disposed = refl })
        (conditions-Reports cs)

  events-Reports : (es : List Event) → Reports d (inspect_events t config pod d es)
  unfolding inspect_events pod_summary_error
  events-Reports [] = tt
  events-Reports (e ∷ es) =
      if-Reports d _ (some _) _
        (record { in_backend = refl; plain = tt; code = refl; disposed = refl }) (events-Reports es)

  failed-Reports : Reports d (failed_pod t config pod d)
  unfolding failed_pod pod_failure_error
  failed-Reports =
      if-Reports d _ (some _) none
        (record { in_backend = refl; plain = tt; code = refl; disposed = refl }) tt

or_failure-some : (x y : Option PodFailure) → is_some y ≡ true → is_some (or_failure x y) ≡ true
or_failure-some none y h = h
or_failure-some (some f) y h = refl

failed-found :
    (found : Option PodFailure) (phase : PodPhase)
    → (phase ≡ failed → is_some found ≡ true)
    → (not (phase_is phase failed) || is_some found) ≡ true
failed-found found pending h = refl
failed-found found running h = refl
failed-found found succeeded h = refl
failed-found found failed h = h refl
failed-found found phase_unknown h = refl

module _ (t : Texts) (config : KubernetesConfig) where
  pub inspect-Reports :
      (pod : Pod) (job : Option Job) (events : List Event)
      → Reports (disposition_of pod job) (inspect_pod_failure_at t config pod job events)
  unfolding inspect_pod_failure_at
  inspect-Reports pod job events =
      let d = disposition_of pod job in
      or-Reports d _ _ (evicted-Reports t config pod d) (
        or-Reports d _ _ (inits-Reports t config pod d pod.init_statuses) (
          or-Reports d _ _ (containers-Reports t config pod d pod.statuses) (
            or-Reports d _ _ (conditions-Reports t config pod d pod.conditions) (
              or-Reports d _ _ (if-Reports d _ _ none (events-Reports t config pod d events) tt)
                (failed-Reports t config pod d)))))

  inspect-some :
      (pod : Pod) (job : Option Job) (events : List Event)
      → pod.phase ≡ failed
      → is_some (inspect_pod_failure_at t config pod job events) ≡ true
  unfolding inspect_pod_failure_at failed_pod
  inspect-some pod job events h =
      let d = disposition_of pod job in
      let last = failed_pod t config pod d in
      let noticed =
        if phase_is pod.phase pending || phase_is pod.phase failed
        then inspect_events t config pod d events
        else none in
      let conditions = inspect_conditions t config pod d pod.conditions in
      let containers = inspect_containers t config pod d pod.statuses in
      let inits = inspect_inits t config pod d pod.init_statuses in
      let found = or_failure-some noticed last (rw h refl) in
      let found = or_failure-some conditions (or_failure noticed last) found in
      let found = or_failure-some containers _ found in
      let found = or_failure-some inits _ found in
      or_failure-some (evicted_failure t config pod d) _ found

  -- The inspection of a Pod finds a failure whenever the Pod's phase is Failed, and any failure it
  -- finds is a failure of the backend with a text of its own, the disposition of the Pod, and an
  -- exit code that is that of the ended container it names, then not 0, and 0 when it names none.
  pub inspect_pod_failure :
      (pod : Pod) (job : Option Job) (events : List Event)
      → let found = inspect_pod_failure_at t config pod job events in
        ((not (phase_is pod.phase failed) || is_some found) ≡ true)
        × Reports (disposition_of pod job) found
  inspect_pod_failure pod job events = (
    failed-found (inspect_pod_failure_at t config pod job events) pod.phase
        (inspect-some pod job events),
    inspect-Reports pod job events,
  )
