-- ===== src/Kubernetes.antt =====
-- The parts of the Kubernetes backend that decide: names, pod failures, jobs, failure details and
-- environments (internal/worker/kubernetes*.go).
pub mod Names
pub mod Jobs
pub mod Pods
pub mod Details
pub mod Setup
pub mod Sidecars
