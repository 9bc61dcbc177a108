-- ===== src/Worker/Cancel.antt =====
-- Cancellation of tasks: handleTaskCancellation, startTaskCancellationLocked, cancelTaskOnBackend
-- and rememberCompletedLocked of internal/worker/worker.go. Delays are in milliseconds.
pub mod Entries
pub mod Once
use oz_agent_worker.Prelude.{
  ℕ, suc, ◌*◌, Bool, true, false, if◌then◌else◌, Option, none, some, is_some, List, [], ◌∷◌, ◌==◌,
  string_eq, String, min,
}
use oz_agent_worker.Assoc.{Map, lookup, insert, delete}
use oz_agent_worker.Recent.{Recent, recall, remember}
use oz_agent_worker.Failure.{unset, user}
use oz_agent_worker.Worker.{Key, key_eq, ActiveTask, Worker, is_stopping}

abbrev pub completed_execution_cache_size : ℕ
completed_execution_cache_size = 4096

-- A key without an execution ID is never remembered.
unfoldable pub remember_completed : Key → Bool → Recent Key Bool → Recent Key Bool
remember_completed key cancellation_accepted r =
    if key.execution_id == ""
    then r
    else remember completed_execution_cache_size key cancellation_accepted r

-- The part of startTaskCancellationLocked past its guard, the start of the goroutine included.
abbrev pub begin_cancellation : ActiveTask → ActiveTask
begin_cancellation t = record t {
  cancellation_source = user;
  cancelling = true;
  canceled = true;
  cancellations = suc t.cancellations;
}

abbrev pub started : Key → Option ActiveTask → Map Key ActiveTask → Map Key ActiveTask
started key none m = m
started key (some t) m = if t.cancelling then m else insert key (begin_cancellation t) m

-- On the map of active tasks, the only state that it changes.
unfoldable pub start_task_cancellation : Key → Map Key ActiveTask → Map Key ActiveTask
start_task_cancellation key m = started key (lookup key m) m

-- The loop over the active tasks of a run: `candidates` are those of the map `m` at its start.
unfoldable pub cancel_run : String → Map Key ActiveTask → Map Key ActiveTask → Map Key ActiveTask
cancel_run task_id [] m = m
cancel_run task_id ((key, t) ∷ candidates) m =
    cancel_run task_id candidates
      (if key.task_id == task_id then start_task_cancellation key m else m)

-- The entry for an execution that has completed and whose backend resources are to be cleaned up.
unfoldable pub finished_task : ActiveTask
finished_task = record {
  canceled = false;
  cancellation_source = unset;
  spawned = false;
  done = true;
  cancelling = false;
  cancellation_stopped = false;
  cancellations = 0;
  observed = false;
  observation_stopped = false;
}

restored : Key → Map Key ActiveTask → Map Key ActiveTask
unfolding finished_task
restored key m = if is_some (lookup key m) then m else insert key finished_task m

-- By what `completedTasks` says of the key.
cancel_execution : Option Bool → Key → Map Key ActiveTask → Map Key ActiveTask
unfolding restored start_task_cancellation
cancel_execution (some true) key m = m
cancel_execution (some false) key m = start_task_cancellation key (restored key m)
cancel_execution none key m = start_task_cancellation key m

module _ {S : Type 0} where
  unfoldable pub handle_task_cancellation : Key → Worker S → Worker S
  unfolding cancel_execution
  handle_task_cancellation key w =
      if is_stopping w
      then w
      else if key.execution_id == ""
      then record w { active = cancel_run key.task_id w.active w.active }
      else record w { active = cancel_execution (recall key w.completed) key w.active }

  -- The end of cancelTaskOnBackend, once the backend accepted the cancellation.
  unfoldable pub cancellation_accepted : Key → Worker S → Worker S
  cancellation_accepted key w = record w {
    completed = remember_completed key true w.completed;
    active = delete key w.active;
  }

abbrev pub initial_cancellation_retry_delay : ℕ
initial_cancellation_retry_delay = 100

abbrev pub max_cancellation_retry_delay : ℕ
max_cancellation_retry_delay = 10000

-- The retry loop of cancelTaskOnBackend from a delay: the backend's answers until the context ends,
-- `true` for a nil error. It returns whether a cancellation was accepted, and the delays waited.
unfoldable pub retry_cancellation : ℕ → List Bool → Bool × List ℕ
retry_cancellation delay [] = (false, [])
retry_cancellation delay (true ∷ answers) = (true, [])
retry_cancellation delay (false ∷ answers) =
    let (accepted, waits) =
      retry_cancellation (min (delay * 2) max_cancellation_retry_delay) answers in
    (accepted, delay ∷ waits)
