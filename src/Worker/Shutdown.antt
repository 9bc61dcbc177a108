-- ===== src/Worker/Shutdown.antt =====
-- The section of shutdownTasks (internal/worker/worker.go) under tasksMutex, with
-- stopStandbysLocked of internal/worker/standby.go. The waiting and flushing after it change no
-- state of the worker.
pub mod Effect
use oz_agent_worker.Prelude.{Bool, true, if◌then◌else◌, not, ◌&&◌, ◌||◌, [], ◌∷◌}
use oz_agent_worker.Assoc.{Map}
use oz_agent_worker.Failure.{shutdown}
use oz_agent_worker.Worker.Standby.{set_source_if_unset, cancel_entry, stop_observing}
use oz_agent_worker.Worker.{ActiveTask, StandbyEntry, Worker, preserves_tasks_on_shutdown}

-- A loop that rewrites each value of a map.
unfoldable pub map_values {ℓ κ} : {K : Type ℓ} {V : Type κ} → (V → V) → Map K V → Map K V
map_values f [] = []
map_values f ((k, v) ∷ m) = (k, f v) ∷ map_values f m

-- The cancellation goroutine is stopped; then the observation is interrupted if tasks are
-- preserved, and the task is cancelled if not.
unfoldable pub stop_task : Bool → ActiveTask → ActiveTask
stop_task preserve t =
    let t' = record t { cancellation_stopped = t.cancellation_stopped || t.cancelling } in
    if preserve
    then record t' {
      observation_stopped = t'.observation_stopped || (t'.observed && not t'.canceled);
    }
    else record t' {
      cancellation_source = set_source_if_unset shutdown t'.cancellation_source;
      canceled = true;
    }

unfoldable pub stop_standby : Bool → StandbyEntry → StandbyEntry
stop_standby preserve e = if preserve then stop_observing e else cancel_entry shutdown e

module _ {S : Type 0} where
  unfoldable pub shutdown_tasks : Worker S → Worker S
  shutdown_tasks w =
      let preserve = preserves_tasks_on_shutdown w.config.backend in
      if w.shutting_down then w else record w {
        shutting_down = true;
        standbys = map_values (stop_standby preserve) w.standbys;
        active = map_values (stop_task preserve) w.active;
      }
