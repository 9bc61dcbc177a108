-- ===== src/Worker/Execute.antt =====
-- executeTask of internal/worker/worker.go: what the worker concludes from the backend's result, the
-- message it sends, and its deferred bookkeeping. Logs, traces and metrics are left out.
use oz_agent_worker.Prelude.{
  ℕ, ◌-◌, Bool, true, false, if◌then◌else◌, not, ◌&&◌, ◌||◌, Option, none, some, String,
}
use oz_agent_worker.Assoc.{Map, lookup, insert, delete}
use oz_agent_worker.Recent.{Recent}
use oz_agent_worker.Failure.{
  Reason, GoError, Source, unset, is_user, shutdown_reason, task_failure_labels, failure_exit_code,
  user_facing_task_error,
}
use oz_agent_worker.Worker.Cancel.{remember_completed}
use oz_agent_worker.Worker.{
  Semaphore, Key, key_eq, ActiveTask, task_completed, task_cancelled, task_failed, Worker,
  send_message, release_opt,
}

-- ExecuteResult: an error, or one of the two outcomes without one.
pub data ExecuteResult : Type 0 where
  error : GoError → ExecuteResult
  completed spawned : ExecuteResult

-- How executeTask leaves its body.
pub data Conclusion : Type 0 where
  interrupted cancelled dispatched succeeded : Conclusion
  failed : Reason → ℕ → String → Conclusion

-- The classification. `stopped` says that the cause of the observation context is
-- errObservationInterrupted, `canceled` that the task's context was cancelled; the cancellation
-- source is read twice, each time under tasksMutex.
unfoldable pub conclude : Bool → Bool → Source → Source → ExecuteResult → Conclusion
conclude stopped canceled first second (error e) =
    let code = failure_exit_code e in
    if stopped
    then interrupted
    else if canceled && is_user first
    then cancelled
    else failed (shutdown_reason second (task_failure_labels e).1 code) code
        (user_facing_task_error e)
conclude stopped canceled first second spawned = dispatched
conclude stopped canceled first second completed = succeeded

abbrev pub is_interrupted : Conclusion → Bool
is_interrupted interrupted = true
is_interrupted _ = false

abbrev pub source_of : Option ActiveTask → Source
source_of none = unset
source_of (some t) = t.cancellation_source

abbrev pub mark_spawned : Key → Option ActiveTask → Map Key ActiveTask → Map Key ActiveTask
mark_spawned key none m = m
mark_spawned key (some t) m = insert key (record t { spawned = true }) m

-- The deferred section: `done` is closed; an entry stays for a spawned task, and while a user's
-- cancellation is still to reach the backend.
abbrev pub close_entry : Key → Bool → Option ActiveTask → Map Key ActiveTask → Map Key ActiveTask
close_entry key stopped none m = m
close_entry key stopped (some t) m =
    if not t.spawned && not (is_user t.cancellation_source)
    then delete key m
    else insert key (record t { done = true }) m

abbrev pub close_recent : Key → Bool → Option ActiveTask → Recent Key Bool → Recent Key Bool
close_recent key stopped none r = r
close_recent key stopped (some t) r =
    if not t.spawned && not (is_user t.cancellation_source) && not stopped
    then remember_completed key false r
    else r

module _ {S : Type 0} where
  -- cancellationSource
  abbrev pub cancellation_source : Key → Worker S → Source
  cancellation_source key w = source_of (lookup key w.active)

  -- What is done with the conclusion before the deferred calls run.
  unfoldable pub announce : Key → Conclusion → Worker S → Worker S
  announce key interrupted w = w
  announce key cancelled w = send_message (task_cancelled key) w
  announce key (failed r code text) w = send_message (task_failed key r code text) w
  announce key dispatched w = record w { active = mark_spawned key (lookup key w.active) w.active }
  announce key succeeded w = send_message (task_completed key) w

  unfoldable pub finish_execution : Key → Bool → Worker S → Worker S
  finish_execution key stopped w =
      let entry = lookup key w.active in
      record w {
        active = close_entry key stopped entry w.active;
        completed = close_recent key stopped entry w.completed;
      }

  -- signalOneShotComplete, the last deferred call, and taskWG.Done of the goroutine.
  unfoldable pub signal_one_shot_complete : Worker S → Worker S
  signal_one_shot_complete w = record w {
    one_shot_done = w.one_shot_done || w.config.one_shot;
    task_wg = w.task_wg - 1;
  }

module _ {S : Type 0} ⦃sem : Semaphore S⦄ where
  unfoldable pub release_slot : Worker S → Worker S
  release_slot w = record w { task_semaphore = release_opt w.task_semaphore }
