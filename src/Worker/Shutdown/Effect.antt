-- ===== src/Worker/Shutdown/Effect.antt =====
-- What a shutdown does to the active tasks.
use oz_agent_worker.Prelude.{◌≡◌, Bool, true, false, some, [], ◌∷◌, Eq, arith}
use oz_agent_worker.Assoc.{Map, lookup}
use oz_agent_worker.Failure.{unset, user, shutdown}
use oz_agent_worker.Worker.{Key, key_eq, ActiveTask, Worker, preserves_tasks_on_shutdown}
use oz_agent_worker.Worker.Shutdown.{map_values, stop_task, shutdown_tasks}

lookup-map_values :
    {K V : Type 0} ⦃e : Eq K⦄ (f : V → V) (k : K) (m : Map K V) {v : V}
    → lookup k m ≡ some v
    → lookup k (map_values f m) ≡ some (f v)
unfolding lookup map_values
lookup-map_values f k [] h = cc
lookup-map_values ⦃e⦄ f k ((j, w) ∷ m) {v} h = ground (arith, h, lookup-map_values f k m {v = v})

-- The task `t` became `u`.
pub record Stopped (preserve : Bool) (t u : ActiveTask) : Type 0 where
  retries : t.cancelling ≡ true → u.cancellation_stopped ≡ true
  kept :
      preserve ≡ true → (u.canceled ≡ t.canceled) × (u.cancellation_source ≡ t.cancellation_source)
  interrupted :
      preserve ≡ true → t.observed ≡ true → t.canceled ≡ false → u.observation_stopped ≡ true
  cancelled : preserve ≡ false → u.canceled ≡ true
  blamed :
      preserve ≡ false
      → (t.cancellation_source ≡ unset → u.cancellation_source ≡ shutdown)
        × (t.cancellation_source ≡ user → u.cancellation_source ≡ user)

stop-Stopped : (preserve : Bool) (t : ActiveTask) → Stopped preserve t (stop_task preserve t)
unfolding stop_task
stop-Stopped preserve t = ground arith

module _ {S : Type 0} where
  -- The first shutdown of a worker keeps each active task in the map. On a backend that preserves
  -- tasks it interrupts the observation of those not cancelled and neither cancels a task nor
  -- changes the source of a cancellation; on another backend it cancels every task, and the source
  -- is the shutdown where none was set and still the user where the user cancelled. A running
  -- cancellation loop is stopped, no message is sent, and a second shutdown does nothing.
  pub shutdown_stops :
      (key : Key) (t : ActiveTask) (w : Worker S)
      → w.shutting_down ≡ false
      → lookup key w.active ≡ some t
      → let w' = shutdown_tasks w in
        let preserve = preserves_tasks_on_shutdown w.config.backend in
        (lookup key w'.active ≡ some (stop_task preserve t))
        × Stopped preserve t (stop_task preserve t)
        × (w'.sent ≡ w.sent)
        × (shutdown_tasks w' ≡ w')
  unfolding shutdown_tasks
  shutdown_stops key t w first at =
      let preserve = preserves_tasks_on_shutdown w.config.backend in
      (
        ground (arith, first, lookup-map_values (stop_task preserve) key w.active at),
        stop-Stopped preserve t,
        ground (arith, first),
        ground (arith, first),
      )
