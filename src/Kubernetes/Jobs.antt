-- ===== src/Kubernetes/Jobs.antt =====
-- Jobs as the worker sees them: cancelling a task's Job and expiring an abandoned one, from
-- CancelTask of internal/worker/kubernetes.go and internal/worker/kubernetes_api.go. The API server
-- is a list of answers; what the worker asks of it that changes a Job is recorded.
pub mod Fencing
pub mod Stopped
use oz_agent_worker.Prelude.{
  ℕ, zero, Bool, true, false, ◌&&◌, ◌||◌, not, if◌then◌else◌, Option, none, some, List, [], ◌∷◌,
  ◌++◌, ◌==◌, String, string_eq, is_some,
}

-- A condition of a Job; `is_true` says that its status is "True".
pub record JobCondition : Type 0 where
  pub condition_type : String
  pub is_true : Bool
  pub reason : String
  pub message : String

-- `backoff_limit` is none when it is not set.
pub record Job : Type 0 where
  pub name : String
  pub uid : String
  pub resource_version : String
  pub execution_hash : String
  pub task_hash : String
  pub backoff_limit : Option ℕ
  pub has_pod_failure_policy : Bool
  pub conditions : List JobCondition

unfoldable pub has_condition : String → List JobCondition → Bool
has_condition type [] = false
has_condition type (c ∷ cs) = (c.condition_type == type && c.is_true) || has_condition type cs

abbrev pub job_complete : Job → Bool
job_complete job = has_condition "Complete" job.conditions

abbrev pub job_failed : Job → Bool
job_failed job = has_condition "Failed" job.conditions

abbrev pub is_finished : Job → Bool
is_finished job = job_complete job || job_failed job

pub data PodPhase : Type 0 where
  pending running succeeded failed phase_unknown : PodPhase

-- `controlled` is metav1.IsControlledBy with the Job.
pub record JobPod : Type 0 where
  pub controlled : Bool
  pub phase : PodPhase

pub data Disposition : Type 0 where
  termination_required execution_stopped : Disposition

-- An error of the API, by what the code asks of it.
pub data ApiError : Type 0 where
  not_found conflict transient : ApiError
  other : String → ApiError

pub data Answer (A : Type 0) : Type 0 where
  answer : A → Answer A
  refused : ApiError → Answer A

-- The loop of jobPodsStopped over the listed Pods; `seen` is hasFailedPod.
unfoldable pub pods_stopped : Bool → List JobPod → Bool
pods_stopped seen [] = seen
pods_stopped seen (pod ∷ pods) =
    if not pod.controlled then pods_stopped seen pods else elim pod.phase [
      | failed ↦ pods_stopped true pods
      | succeeded ↦ pods_stopped seen pods
      | _ ↦ false
    ]

abbrev pub is_zero_limit : Option ℕ → Bool
is_zero_limit (some zero) = true
is_zero_limit _ = false

-- jobPodsStopped by the answer to its list request; an error is no proof of a stop.
unfoldable pub job_pods_stopped : Job → Answer (List JobPod) → Bool
job_pods_stopped job (refused e) = false
job_pods_stopped job (answer pods) =
    if not (is_zero_limit job.backoff_limit) || job.has_pod_failure_policy
    then false
    else pods_stopped false pods

-- What is asked of the API: the patch of expireAbandonedJob, with the identity that fences it, and
-- the deletion of deleteTaskJob, with its precondition.
pub data Request : Type 0 where
  expire : String → String → String → Request
  delete_job : String → String → Request

pub data Outcome : Type 0 where
  done : Outcome
  api_error : ApiError → Outcome
  replaced : String → Outcome
  other_execution : String → Outcome

-- The answers of one attempt of expireAbandonedJob, in the order of its requests.
pub record Attempt : Type 0 where
  pub refreshed : Answer Job
  pub pods : Answer (List JobPod)
  pub patched : Answer (Unit {0})

abbrev pub patch_outcome : Answer (Unit {0}) → Outcome
patch_outcome (answer u) = done
patch_outcome (refused not_found) = done
patch_outcome (refused e) = api_error e

abbrev pub is_stopped_disposition : Disposition → Bool
is_stopped_disposition termination_required = false
is_stopped_disposition execution_stopped = true

-- From the job that the refresh gave, or the observed one where it gave none.
unfoldable pub expire_current : Job → Job → Disposition → Attempt → List Request × Outcome
expire_current observed job disposition a =
    if not (job.uid == observed.uid)
    then ([], replaced observed.name)
    else if is_finished job
    then ([], done)
    else if is_stopped_disposition disposition && job_pods_stopped job a.pods
    then ([], done)
    else (expire job.name job.uid job.resource_version ∷ [], patch_outcome a.patched)

unfoldable pub expire_abandoned_job : Job → Disposition → Attempt → List Request × Outcome
expire_abandoned_job observed disposition a = elim a.refreshed [
  | answer job ↦ expire_current observed job disposition a
  | refused e ↦ elim e [
    | not_found ↦ ([], done)
    | _ ↦ expire_current observed observed disposition a
  ]
]

abbrev is_retried : Outcome → Bool
is_retried (api_error conflict) = true
is_retried (api_error transient) = true
is_retried _ = false

abbrev pub then_requests : List Request → List Request × Outcome → List Request × Outcome
then_requests rs (ss, o) = (rs ++ ss, o)

-- The retry of requestJobExecutionStop: an attempt for each step of the backoff, of which
-- kubernetesAPIBackoff gives six. The last error is returned when the steps run out.
unfoldable pub retry_expire : Job → Disposition → List Attempt → Outcome → List Request × Outcome
retry_expire observed disposition [] last = ([], last)
retry_expire observed disposition (a ∷ attempts) last =
    let (rs, o) = expire_abandoned_job observed disposition a in
    let rest = retry_expire observed disposition attempts o in
    if is_retried o then then_requests rs rest else (rs, o)

unfoldable pub request_job_execution_stop :
    Job → Disposition → List Attempt → List Request × Outcome
request_job_execution_stop observed disposition attempts =
    if is_finished observed
    then ([], done)
    else retry_expire observed disposition attempts (api_error transient)

-- CancelTask for a task, where `job_name`, `execution_hash` and `task_hash` are those of its
-- parameters, from the answers to the read of the Job and to its deletion.
unfoldable pub cancel_task :
    String → String → String → Answer Job → Answer (Unit {0}) → List Request × Outcome
cancel_task job_name execution_hash task_hash (refused not_found) deleted = ([], done)
cancel_task job_name execution_hash task_hash (refused e) deleted = ([], api_error e)
cancel_task job_name execution_hash task_hash (answer job) deleted =
    if not (job.execution_hash == execution_hash) || not (job.task_hash == task_hash)
    then ([], other_execution job_name)
    else (delete_job job_name job.uid ∷ [], patch_outcome deleted)
