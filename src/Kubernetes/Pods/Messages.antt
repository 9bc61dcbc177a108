-- ===== src/Kubernetes/Pods/Messages.antt =====
-- The texts of the errors about Pods and Jobs (internal/worker/kubernetes.go).
use Prim.Native.String.{◌++◌ as str_append}
use oz_agent_worker.Prelude.{◌&&◌, not, if◌then◌else◌, List, [], ◌∷◌, ◌++◌, ◌==◌, String, string_eq}
use oz_agent_worker.Failure.{GoError, other}
use oz_agent_worker.Kubernetes.Jobs.{
  Job, JobCondition, PodPhase, pending, running, succeeded, failed, phase_unknown,
}
use oz_agent_worker.Kubernetes.Pods.{
  Terminated, Waiting, Pod, Event, Texts, KubernetesConfig, exit_signal_name,
}

-- strings.Join
unfoldable pub join_texts : String → List String → String
join_texts sep [] = ""
join_texts sep (x ∷ []) = x
join_texts sep (x ∷ y ∷ xs) = str_append x (str_append sep (join_texts sep (y ∷ xs)))

-- Texts one after the other, for fmt.Sprintf with `%s`.
unfoldable pub texts : List String → String
texts [] = ""
texts (x ∷ xs) = str_append x (texts xs)

abbrev pub phase_text : PodPhase → String
phase_text pending = "Pending"
phase_text running = "Running"
phase_text succeeded = "Succeeded"
phase_text failed = "Failed"
phase_text phase_unknown = "Unknown"

-- A detail for a text that is not empty.
abbrev pub detail : String → String → List String
detail label value = if value == "" then [] else str_append label value ∷ []

abbrev pub or_text : String → String → String
or_text value fallback = if value == "" then fallback else value

abbrev pub details_error : List String → GoError
details_error details = other (join_texts ". " details)

unfoldable pub object_namespace : KubernetesConfig → String → String
object_namespace config namespace = or_text namespace config.namespace

unfoldable pub pod_context : KubernetesConfig → Pod → String
pod_context config pod =
    let details =
      str_append "namespace " (object_namespace config pod.namespace)
      ∷ detail "job " pod.job_label in
    texts ("pod " ∷ pod.name ∷ " (" ∷ join_texts ", " details ∷ ")" ∷ [])

-- The phase is never empty here.
unfoldable pub pod_status_details : Pod → String → String → List String
pod_status_details pod reason message =
    (str_append "Pod phase: " (phase_text pod.phase) ∷ [])
    ++ (detail "Pod reason: " (or_text reason pod.reason)
        ++ detail "Pod message: " (or_text message pod.message))

unfoldable pub pod_failure_error : KubernetesConfig → Pod → GoError
pod_failure_error config pod =
    details_error (str_append (pod_context config pod) " failed" ∷ pod_status_details pod "" "")

-- podConditionFailureError and podEventFailureError differ in the label of the reason and message.
unfoldable pub pod_summary_error :
    KubernetesConfig → Pod → String → String → String → String → String → GoError
pod_summary_error config pod summary reason_label reason message_label message = details_error (
    texts (pod_context config pod ∷ " " ∷ summary ∷ [])
    ∷ (detail reason_label reason ++ detail message_label message))

abbrev pub pod_condition_failure_error : KubernetesConfig → Pod → String → String → String → GoError
pod_condition_failure_error config pod summary reason message =
    pod_summary_error config pod summary "Pod reason: " reason "Pod message: " message

abbrev pub pod_event_failure_error : KubernetesConfig → Pod → String → Event → GoError
pod_event_failure_error config pod summary event =
    pod_summary_error config pod summary "Kubernetes event reason: " event.reason
      "Kubernetes event message: " event.message

unfoldable pub waiting_message : Waiting → String
waiting_message w = if w.message == "" then w.reason else texts (w.reason ∷ ": " ∷ w.message ∷ [])

unfoldable pub container_waiting_failure_error :
    KubernetesConfig → Pod → String → String → Waiting → GoError
container_waiting_failure_error config pod kind container_name w = details_error (
    texts (
      kind
      ∷ " "
      ∷ container_name
      ∷ " in "
      ∷ pod_context config pod
      ∷ " is waiting: "
      ∷ waiting_message w
      ∷ [])
    ∷ pod_status_details pod w.reason w.message)

unfoldable pub guidance_subject : String → String
guidance_subject kind =
    if kind == "container" then "task" else if kind == "init container" then "setup" else ""

-- The default case has no word before "process".
unfoldable pub terminated_guidance : String → String
terminated_guidance kind =
    let subject = guidance_subject kind in
    texts (
      "SIGTERM usually means Kubernetes or the container runtime asked the "
      ∷ (if subject == "" then "" else str_append subject " ")
      ∷ "process to stop; check pod events and node activity for eviction, preemption, node drain, activeDeadlineSeconds, or manual deletion."
      ∷ [])

module _ (t : Texts) where
  unfoldable pub termination_guidance : String → Terminated → String
  termination_guidance kind c =
      if not (exit_signal_name t c == "SIGTERM") then "" else terminated_guidance kind

  unfoldable pub container_terminated_failure_error :
      KubernetesConfig → Pod → String → String → Terminated → GoError
  container_terminated_failure_error config pod kind container_name c =
      let exited = texts (
        kind
        ∷ " "
        ∷ container_name
        ∷ " in "
        ∷ pod_context config pod
        ∷ " exited with code "
        ∷ t.decimal c.exit_code
        ∷ []) in
      let signal = exit_signal_name t c in
      let message = if signal == "" then exited else texts (exited ∷ " (" ∷ signal ∷ ")" ∷ []) in
      details_error (
        message
        ∷ (pod_status_details pod c.reason c.message ++ detail "" (termination_guidance kind c)))

-- The details of the first failed condition of a Job.
unfoldable pub failed_condition_details : List JobCondition → List String
failed_condition_details [] = []
failed_condition_details (c ∷ cs) =
    let rest = failed_condition_details cs in
    if c.condition_type == "Failed" && c.is_true
    then detail "Job reason: " c.reason ++ detail "Job message: " c.message
    else rest

unfoldable pub job_failure_error : KubernetesConfig → String → Job → GoError
job_failure_error config namespace job = details_error (
    texts (
      "kubernetes Job "
      ∷ job.name
      ∷ " in namespace "
      ∷ object_namespace config namespace
      ∷ " failed"
      ∷ [])
    ∷ failed_condition_details job.conditions)
