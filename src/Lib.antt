-- ===== src/Lib.antt =====
-- A model of the self-hosted worker of Oz cloud agents, and what holds of it.
--
-- The worker keeps a websocket to the server, takes task assignments, runs each on a backend (Docker,
-- Kubernetes, a host process, or an operator's command), and reports the outcome. It also keeps
-- prewarmed sandboxes ("standbys"). Several goroutines share its state under one mutex and two
-- semaphores: the reader of the connection, one goroutine for each execution and each standby, and one
-- for each cancellation.
--
-- The parts and the code:
--   Prelude            shared names, Boolean tests, lists and sums over them.
--   Assoc, Recent      Go's maps, and the bounded caches completedTasks (internal/worker/worker.go)
--                      and standbyExits (internal/worker/standby.go).
--   Failure            internal/worker/errors.go, TaskFailure of internal/worker/backend.go, the
--                      reasons of internal/metrics/metrics.go, standbyExitStatus.
--   Outbound           internal/worker/outbound_queue.go. Outbound.Order has its runs, Outbound.Order.Log
--                      the abstract log that it implements.
--   Worker             the state that tasksMutex guards and New (internal/worker/worker.go).
--     Worker.Assign    handleTaskAssignment as its three critical sections, and the whole.
--     Worker.Execute   executeTask: the classification of the result, the message, the deferred
--                      bookkeeping, the release of the slot.
--     Worker.Cancel    handleTaskCancellation, startTaskCancellationLocked, cancelTaskOnBackend,
--                      rememberCompletedLocked.
--     Worker.Standby   internal/worker/standby.go and validateStandbyID of internal/worker/backend.go.
--     Worker.Shutdown  shutdownTasks and stopStandbysLocked.
--   World              the worker with its goroutines. An event of World.Events is one critical
--                      section or one operation on a semaphore, so a list of events is an
--                      interleaving. World.Capacity, World.Ledger, World.OneShot and World.Sole hold
--                      the invariants, each by induction on the list.
--   Backoff            the connection loop of Run and the delays of cancelTaskOnBackend.
--   TaskLog            internal/tasktelemetry/log/writer.go.
--   Redactor           internal/tasktelemetry/log/redaction.go.
--   Env                mergeEnvVars of internal/worker/direct.go and the environment of
--                      internal/worker/dispatch_payload.go. Env.Containers has the variables of a
--                      container in internal/worker/kubernetes.go, Env.Metadata
--                      internal/worker/metadata_env.go.
--   Kubernetes         the decisions of the Kubernetes backend.
--     Kubernetes.Names, Sidecars
--                      names, label values and sidecar checks of internal/worker/kubernetes.go.
--     Kubernetes.Jobs  CancelTask, and the stop of an abandoned Job (internal/worker/kubernetes_api.go).
--     Kubernetes.Pods  the failure detection, handleJobStateAt and their texts
--                      (internal/worker/kubernetes.go).
--     Kubernetes.Details
--                      internal/worker/kubernetes_failure_details.go.
--     Kubernetes.Setup the tracker of internal/worker/kubernetes_setup_events.go.
--   Docker             pull policy and sidecar volumes of internal/worker/docker.go.
--   Command            internal/worker/command.go.
--   ImageRemapper      internal/common/image_remapping.go.
--   TaskArgs           internal/common/task_utils.go and the task's configuration in
--                      internal/types/messages.go. TaskArgs.Table says apart from the code which flags
--                      each setting asks for.
--   Tests              the theorems at concrete inputs.
--
-- Names follow the code, in this library's spelling: handleTaskAssignment is handle_task_assignment.
-- The wait group is a count, a channel that is closed once is a Boolean, an error is a value of
-- Failure.GoError, and a message sent is appended to a list. Texts that are taken apart (log streams,
-- environment entries, image references) are lists of bytes; the others are strings.
-- Four things are kept that the code does not keep, to state what was done: the messages sent, the
-- goroutines started to cancel an execution (ActiveTask.cancellations), the executions that ended
-- without a message (World.quiet), and the phases and spans that the tracker of the setup reported and
-- ended, where a span of the execution is known by its number.
--
-- Parameters: the semaphore of golang.org/x/sync (Worker.Semaphore, with the laws of TryAcquire and
-- Release), the label check of Kubernetes for standby IDs, the image references of
-- github.com/distribution/reference (ImageRemapper.Reference), url.QueryEscape, json.Marshal and
-- strings.NewReplacer in Redactor, strings.TrimSpace, decimals and json.Marshal in TaskArgs, the string
-- functions that the Kubernetes texts use (Kubernetes.Pods.Texts), UTF-8 validation and the stable sort
-- in Kubernetes.Details, strings.ToLower, ToUpper and sort.Strings, and the Docker Engine with the
-- population of a volume (Docker.Volumes.Engine, with the laws of its calls). The other answers of the
-- Docker and Kubernetes clients are arguments: what a request found, and how it failed.
--
-- Bounds: the functions on fuel are TaskLog.write_loop, whose fuel is the length of the chunk, since
-- each round takes at least one byte, and Kubernetes.Details.Texts.trim_invalid, whose fuel is the
-- length of the text, since each round takes one byte from it. All else is structural. The limits are
-- those of the code: 4096 keys of a cache, 64 KiB of a line, 16 KiB of a log record, 4096 patterns of
-- 1 MiB together for the redactor, and 16 conditions, 10 events and 256 bytes of a text for failure
-- details.
--
-- The retries of a request to Kubernetes are the list of its attempts. A time is a number, 0 for the
-- zero time.
--
-- Not modelled: the websocket, the clients themselves and the processes that the backends start, the
-- watch loops, pod specifications and start-up checks of Kubernetes, the containers of Docker, the
-- host backend, configuration files and flags, metrics, tracing, and the export of telemetry. They are
-- I/O or calls of libraries. The choice of variables to redact (addEnv) is not modelled either.
pub mod Prelude
pub mod Assoc
pub mod Recent
pub mod Failure
pub mod Outbound
pub mod Worker
pub mod World
pub mod TaskLog
pub mod Env
pub mod Redactor
pub mod ImageRemapper
pub mod TaskArgs
pub mod Kubernetes
pub mod Docker
pub mod Command
pub mod Backoff
pub mod Tests
