-- ===== src/Kubernetes/Details/Bounds/Whole.antt =====
-- Failure details that are not marked as truncated hold everything that their parts have.
use oz_agent_worker.Prelude.{
  String, ◌≡◌, refl, sym, ap, ◌∙◌, Bool, true, false, ◌||◌, not, if◌then◌else◌, Option, none, some,
  List, [], ◌∷◌, ◌++◌, ◌==◌, nat_eq, ltb, length, take, map, arith, if-rule, Bool-cases, inl, inr,
  append-nil, append_assoc,
}
use oz_agent_worker.Env.{Bytes}
use oz_agent_worker.Kubernetes.Details.{
  Condition, KubernetesConditionDetails, ObservedJob, ObservedPod,
  KubernetesContainerFailureDetails, ObservedEvent, KubernetesEventDetails, Utf8, StableSort,
  max_reason_bytes, max_conditions, max_events, set_time, is_terminal_condition,
}
use oz_agent_worker.Kubernetes.Details.Texts.{bounded_kubernetes_string}
use oz_agent_worker.Kubernetes.Details.Project.{
  project_kubernetes_condition, project_conditions, project_kubernetes_job, project_kubernetes_pod,
  project_kubernetes_container, project_event, project_all, failure_events, is_later,
  project_kubernetes_events, project_opt, build_kubernetes_failure_details,
}
use oz_agent_worker.Kubernetes.Details.Bounds.Parts.{
  kept, map_opt, whole_condition, whole_job, whole_pod, whole_container, whole_event,
}

or-false : (a b : Bool) → (a || b) ≡ false → (a ≡ false) × (b ≡ false)
or-false a b h = ground arith

if-false : {A : Type 0} (b : Bool) (x y : A) → b ≡ false → (if b then x else y) ≡ y
if-false true x y h = ground (arith, h)
if-false false x y h = refl

module _ (utf8 : Utf8) where
  abbrev WholeText : Bytes → Bytes × Bool → Type 0
  WholeText text r = r.1 ≡ false → r.0 ≡ utf8.to_valid text

  bounded-whole : (text : Bytes) → WholeText text (bounded_kubernetes_string utf8 text)
  unfolding bounded_kubernetes_string
  bounded-whole text =
      if-rule (WholeText text) (not (ltb max_reason_bytes (length (utf8.to_valid text)))) _ _
        (λ e h. refl) (λ e h. ground (arith, h))

  condition-whole :
      (c : Condition)
      → (project_kubernetes_condition utf8 c).1 ≡ false
      → (project_kubernetes_condition utf8 c).0 ≡ whole_condition utf8 c
  unfolding project_kubernetes_condition
  condition-whole c h =
      ap
        (λ r. record {
          condition_type = c.condition_type;
          status = c.status;
          reason = r;
          last_transition_time = set_time c.last_transition_time;
        })
        (bounded-whole c.reason h)

  event-whole :
      (event : ObservedEvent)
      → (project_event utf8 event).1 ≡ false
      → (project_event utf8 event).0 ≡ whole_event utf8 event
  unfolding project_event
  event-whole event h =
      let flags =
        or-false (bounded_kubernetes_string utf8 event.event_type).1
          (bounded_kubernetes_string utf8 event.reason).1 h in
      rw (bounded-whole event.event_type flags.0, bounded-whole event.reason flags.1) refl

  container-whole :
      (c : KubernetesContainerFailureDetails)
      → (project_kubernetes_container utf8 c).1 ≡ false
      → (project_kubernetes_container utf8 c).0 ≡ whole_container utf8 c
  unfolding project_kubernetes_container
  container-whole c h =
      let flags =
        or-false (bounded_kubernetes_string utf8 c.waiting_reason).1
          (bounded_kubernetes_string utf8 c.termination_reason).1 h in
      rw (bounded-whole c.waiting_reason flags.0, bounded-whole c.termination_reason flags.1) refl

  abbrev WholeConditions :
      List KubernetesConditionDetails → Bool → List KubernetesConditionDetails × Bool → Type 0
  WholeConditions all truncated r = r.1 ≡ false → (truncated ≡ false) × (r.0 ≡ all)

  conditions-whole :
      (keep : Condition → Bool) (cs : List Condition) (done : List KubernetesConditionDetails)
      (truncated : Bool)
      → WholeConditions
          (done ++ map (whole_condition utf8) (kept keep cs))
          truncated
          (project_conditions utf8 keep cs done truncated)
  unfolding project_conditions project_kubernetes_condition
  conditions-whole keep [] done truncated = λ h. (h, sym (append-nil done))
  conditions-whole keep (c ∷ cs) done truncated = elim (Bool-cases (keep c)) [
    | inr e ↦ rw (e, project_conditions) (conditions-whole keep cs done truncated)
    | inl e ↦
        (let projected = project_kubernetes_condition utf8 c in
          let later = done ++ projected.0 ∷ [] in
          let flag = truncated || projected.1 in
          rw (e, project_conditions)
            (if-rule
              (WholeConditions
                (done ++ whole_condition utf8 c ∷ map (whole_condition utf8) (kept keep cs))
                truncated)
              (length done == max_conditions) (done, true)
              (project_conditions utf8 keep cs later flag) (λ full h. ground (arith, h))
              (λ short h.
                let rest = conditions-whole keep cs later flag h in
                let flags = or-false truncated projected.1 rest.0 in
                (
                  flags.0,
                  rest.1
                      ∙ append_assoc done (projected.0 ∷ [])
                          (map (whole_condition utf8) (kept keep cs))
                      ∙ ap (λ p. done ++ p ∷ map (whole_condition utf8) (kept keep cs))
                          (condition-whole c flags.1),
                ))))
  ]

  abbrev WholeEvents :
      List KubernetesEventDetails → Bool → List KubernetesEventDetails × Bool → Type 0
  WholeEvents all truncated r = r.1 ≡ false → (truncated ≡ false) × (r.0 ≡ all)

  project_all-whole :
      (events : List ObservedEvent) (truncated : Bool)
      → WholeEvents (map (whole_event utf8) events) truncated (project_all utf8 events truncated)
  unfolding project_all project_event
  project_all-whole [] truncated = λ h. (h, refl)
  project_all-whole (e ∷ es) truncated = λ h.
      let flag = truncated || (project_event utf8 e).1 in
      let rest = project_all-whole es flag h in
      let flags = or-false truncated (project_event utf8 e).1 rest.0 in
      (
        flags.0,
        ap (λ p. p ∷ (project_all utf8 es flag).0) (event-whole e flags.1)
            ∙ ap (λ ps. whole_event utf8 e ∷ ps) rest.1,
      )

  job-whole :
      (job : ObservedJob)
      → (project_kubernetes_job utf8 job).1 ≡ false
      → (project_kubernetes_job utf8 job).0 ≡ whole_job utf8 job
  unfolding project_kubernetes_job
  job-whole job h = rw (conditions-whole is_terminal_condition job.conditions [] false h).1 refl

  pod-whole :
      (pod : ObservedPod)
      → (project_kubernetes_pod utf8 pod).1 ≡ false
      → (project_kubernetes_pod utf8 pod).0 ≡ whole_pod utf8 pod
  unfolding project_kubernetes_pod
  pod-whole pod h =
      let reason = bounded_kubernetes_string utf8 pod.reason in
      let rest = conditions-whole (λ c. true) pod.conditions [] reason.1 h in
      rw (rest.1, bounded-whole pod.reason rest.0) refl

opt-whole :
    {A B : Type 0} (project : A → B × Bool) (whole : A → B)
    → ((a : A) → (project a).1 ≡ false → (project a).0 ≡ whole a)
    → (o : Option A) → (project_opt project o).1 ≡ false
    → (project_opt project o).0 ≡ map_opt whole o
opt-whole project whole k none h = refl
opt-whole project whole k (some a) h = ap some (k a h)

module _ (utf8 : Utf8) (sort : StableSort) where
  events-whole :
      (events : List ObservedEvent)
      → (project_kubernetes_events utf8 sort events).1 ≡ false
      → (project_kubernetes_events utf8 sort events).0
        ≡ map (whole_event utf8) (sort is_later (failure_events events))
  unfolding project_kubernetes_events
  events-whole events h =
      let filtered = sort is_later (failure_events events) in
      let truncated = ltb max_events (length filtered) in
      let sent = if truncated then take max_events filtered else filtered in
      let rest = project_all-whole utf8 sent truncated h in
      rest.1
      ∙ ap (map (whole_event utf8)) (if-false truncated (take max_events filtered) filtered rest.0)

  -- Failure details that are not marked as truncated are whole: they hold every terminal condition of
  -- the Job, every condition of the Pod and every warning and kill, in the order of the sort, with
  -- their texts uncut.
  pub untruncated_details :
      (source : String) (job : Option ObservedJob) (pod : Option ObservedPod)
      (container : Option KubernetesContainerFailureDetails) (events : List ObservedEvent)
      → (build_kubernetes_failure_details utf8 sort source job pod container events).truncated
        ≡ false
      → build_kubernetes_failure_details utf8 sort source job pod container events ≡ record {
        observation_source = source;
        job = map_opt (whole_job utf8) job;
        pod = map_opt (whole_pod utf8) pod;
        container = map_opt (whole_container utf8) container;
        events = map (whole_event utf8) (sort is_later (failure_events events));
        truncated = false;
      }
  unfolding build_kubernetes_failure_details
  untruncated_details source job pod container events h =
      let c = project_opt (project_kubernetes_container utf8) container in
      let j = project_opt (project_kubernetes_job utf8) job in
      let p = project_opt (project_kubernetes_pod utf8) pod in
      let e = project_kubernetes_events utf8 sort events in
      let all = or-false ((c.1 || j.1) || p.1) e.1 h in
      let three = or-false (c.1 || j.1) p.1 all.0 in
      let two = or-false c.1 j.1 three.0 in
      rw
        (
          opt-whole (project_kubernetes_container utf8) (whole_container utf8)
              (container-whole utf8) container two.0,
          opt-whole (project_kubernetes_job utf8) (whole_job utf8) (job-whole utf8) job two.1,
          opt-whole (project_kubernetes_pod utf8) (whole_pod utf8) (pod-whole utf8) pod three.1,
          events-whole events all.1,
          h,
        )
        refl
