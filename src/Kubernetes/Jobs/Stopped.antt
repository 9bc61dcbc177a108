-- ===== src/Kubernetes/Jobs/Stopped.antt =====
-- When the Pods of a Job count as stopped.
use oz_agent_worker.Prelude.{
  ◌≡◌, refl, Bool, true, false, ◌&&◌, ◌||◌, not, List, [], ◌∷◌, all, arith,
}
use oz_agent_worker.Kubernetes.Jobs.{
  Job, JobPod, PodPhase, succeeded, failed, answer, refused, pods_stopped, is_zero_limit,
  job_pods_stopped,
}

abbrev pub phase_is_terminal : PodPhase → Bool
phase_is_terminal succeeded = true
phase_is_terminal failed = true
phase_is_terminal _ = false

abbrev pub phase_is_failed : PodPhase → Bool
phase_is_failed failed = true
phase_is_failed _ = false

-- A Pod of the Job that is still to end, and one that failed.
abbrev pub is_over : JobPod → Bool
is_over pod = not pod.controlled || phase_is_terminal pod.phase

abbrev pub has_failed : JobPod → Bool
has_failed pod = pod.controlled && phase_is_failed pod.phase

pods_stopped_lem :
    (seen : Bool) (pods : List JobPod)
    → pods_stopped seen pods
      ≡ (all is_over pods && (seen || not (all (λ p. not (has_failed p)) pods)))
unfolding pods_stopped
pods_stopped_lem seen [] = ground arith
pods_stopped_lem seen (pod ∷ pods) =
    ground (arith, pods_stopped_lem seen pods, pods_stopped_lem true pods)

-- The Pods of a Job count as stopped exactly when the list request succeeded, the Job has a backoff
-- limit of 0 and no Pod failure policy, each of its Pods has succeeded or failed, and one has
-- failed; Pods that the Job does not control do not matter.
pub job_pods_stopped_lem :
    (job : Job) (pods : List JobPod)
    → (job_pods_stopped job (answer pods) ≡ (
        is_zero_limit job.backoff_limit
        && not job.has_pod_failure_policy
        && all is_over pods
        && not (all (λ p. not (has_failed p)) pods)))
      × ((e : _) → job_pods_stopped job (refused e) ≡ false)
unfolding job_pods_stopped
job_pods_stopped_lem job pods = (ground (arith, pods_stopped_lem false pods), λ e. refl)
