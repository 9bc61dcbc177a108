-- ===== src/Kubernetes/Pods/Outcomes.antt =====
-- What a Job's state comes to, down to what the worker reports of the task.
use Prim.Native.String.{◌++◌ as str_append}
use oz_agent_worker.Prelude.{◌≡◌, Bool, true, false, Option, none, some, List, String}
use oz_agent_worker.Failure.{Source, error_text, shutdown_reason}
use oz_agent_worker.Worker.Execute.{conclude, Conclusion, succeeded, failed}
use oz_agent_worker.Kubernetes.Jobs.{Job, job_complete, is_finished, execution_stopped}
use oz_agent_worker.Kubernetes.Pods.{Pod, Event, Texts, KubernetesConfig, classify_job_failure}
use oz_agent_worker.Kubernetes.Pods.Inspect.{PodFailure, no_container, backend_failure, job_outcome}
use oz_agent_worker.Kubernetes.Pods.Messages.{job_failure_error}
use oz_agent_worker.Kubernetes.Pods.Failures.{IsReport}

-- A finding whose disposition is left open.
abbrev pub FoundWell : Option PodFailure → Type 0
FoundWell none = Unit
FoundWell (some f) = IsReport f.disposition f

-- What the worker reports of a failed Job.
abbrev pub report_of : Source → PodFailure → Conclusion
report_of source f =
    failed (shutdown_reason source f.cause.metrics_reason f.cause.exit_code) f.cause.exit_code
      (str_append "Failed to execute task: " (error_text f.text))

-- The failure of a failed Job: the one found on its Pods, whatever disposition that one has, or,
-- where none is found, the Job's own.
abbrev pub IsFailureOf : Option PodFailure → PodFailure → PodFailure → Type 0
IsFailureOf none own f = f ≡ own
IsFailureOf (some g) own f =
    (f.cause ≡ g.cause)
    × (f.text ≡ g.text)
    × (f.culprit ≡ g.culprit)
    × (f.disposition ≡ execution_stopped)

-- What is concluded of a Job whose state gives the last but one, where `found` is found on its Pods
-- and `own` is its own failure.
abbrev pub Concluded :
    Job → Source → Option PodFailure → PodFailure → Option PodFailure → Conclusion → Type 0
Concluded job source found own none c = (job_complete job ≡ true) × (c ≡ succeeded)
Concluded job source found own (some f) c =
    (job_complete job ≡ false)
    × (is_finished job ≡ true)
    × IsFailureOf found own f
    × IsReport execution_stopped f
    × (c ≡ report_of source f)

-- What a state is of a Job that completed or not, finished or not.
abbrev pub Settles :
    Bool → Bool → Option PodFailure → PodFailure → Option (Option PodFailure) → Type 0
Settles complete finished found own none = finished ≡ false
Settles complete finished found own (some none) = complete ≡ true
Settles complete finished found own (some (some f)) =
    (complete ≡ false) × (finished ≡ true) × IsFailureOf found own f × IsReport execution_stopped f

module _ (job : Job) (b : Bool) (first second : Source) (found : Option PodFailure)
    (own : PodFailure) where
  -- A state that is not reported, and one that is, as it is concluded.
  abbrev pub Announced : Option (Option PodFailure) → Type 0
  Announced none = is_finished job ≡ false
  Announced (some r) =
      Concluded job second found own r (conclude false b first second (job_outcome r))

module _ (t : Texts) (config : KubernetesConfig) (job : Job) (namespace : String)
    (pods : List (Pod × List Event)) where
  -- The failure of the Job itself: the class and the text of its conditions, in no container.
  abbrev pub own_failure : PodFailure
  own_failure =
      backend_failure (classify_job_failure t job) 0 (job_failure_error config namespace job)
        no_container execution_stopped
