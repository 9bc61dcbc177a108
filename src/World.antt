-- ===== src/World.antt =====
-- The worker with its goroutines (internal/worker/worker.go and internal/worker/standby.go): the
-- reader of the connection, which handles one message at a time, one goroutine for each claimed
-- execution and one for each standby. An event is one step of one of them, a section under
-- tasksMutex or a call that other goroutines can see; World/Events.antt has the events.
pub mod Events
pub mod Ledger
pub mod Lift
pub mod OneShot
pub mod Sole
pub mod Capacity
use oz_agent_worker.Prelude.{
  ℕ, suc, ◌+◌, Bool, true, false, if◌then◌else◌, not, ◌&&◌, ◌||◌, Option, none, some, List, [], ◌∷◌,
  ◌++◌, String, get_elem?, set, remove_at,
}
use oz_agent_worker.Assoc.{lookup}
use oz_agent_worker.Failure.{Source}
use oz_agent_worker.Worker.Assign.{
  Verdict, proceed, duplicate, rejected, admit, acquire_slot, register, reject_task_assignment,
}
use oz_agent_worker.Worker.Execute.{
  ExecuteResult, Conclusion, interrupted, dispatched, conclude, is_interrupted, cancellation_source,
  announce, finish_execution, release_slot, signal_one_shot_complete,
}
use oz_agent_worker.Worker.Cancel.{handle_task_cancellation, cancellation_accepted}
use oz_agent_worker.Worker.Standby.{
  handle_prewarm_create, handle_prewarm_destroy, report_watched_standby_exit, report_standby_exit,
  cancel_standby, release_slots, remove_standby,
}
use oz_agent_worker.Worker.Shutdown.{shutdown_tasks}
use oz_agent_worker.Worker.{
  Semaphore, Key, key_eq, ActiveTask, Slots, task_claimed, Worker, send_message,
  preserves_tasks_on_shutdown,
}

-- Where the reader stands in handleTaskAssignment: before the TryAcquire, before the second section,
-- and before the claim is sent.
pub data Reader : Type 0 where
  idle : Reader
  admitted holding registered : Key → Reader

-- Where the goroutine of executeTask stands: in the backend, after the first read of the
-- cancellation source, before the deferred section, before the slot's release, before the end.
pub data Phase : Type 0 where
  running : Phase
  returned : ExecuteResult → Bool → Bool → Source → Phase
  leaving : Bool → Phase
  unregistered released : Phase

pub record Exec : Type 0 where
  pub key : Key
  pub phase : Phase

-- Where the goroutine of runStandby stands.
pub data RunPhase : Type 0 where
  waiting reported freed : RunPhase

pub record Run : Type 0 where
  pub id : String
  pub slots : Slots
  pub phase : RunPhase

-- `quiet` holds the executions that ended without a message: interrupted or dispatched.
pub record World (S : Type 0) : Type 0 where
  pub worker : Worker S
  pub reader : Reader
  pub execs : List Exec
  pub runs : List Run
  pub quiet : List Key

abbrev pub observation_stopped_of : Option ActiveTask → Bool
observation_stopped_of none = false
observation_stopped_of (some t) = t.observation_stopped

abbrev pub canceled_of : Option ActiveTask → Bool
canceled_of none = false
canceled_of (some t) = t.canceled

abbrev pub quiet_after : Key → Conclusion → List Key → List Key
quiet_after key interrupted quiet = key ∷ quiet
quiet_after key dispatched quiet = key ∷ quiet
quiet_after key _ quiet = quiet

abbrev pub accepts : Option ActiveTask → Bool
accepts none = false
accepts (some t) = t.cancelling && t.done

module _ {S : Type 0} where
  unfoldable pub after_admit : Key → Verdict × Worker S → World S → World S
  unfolding reject_task_assignment
  after_admit key (proceed, w') w = record w { worker = w'; reader = admitted key }
  after_admit key (duplicate, w') w = record w { worker = w'; reader = idle }
  after_admit key (rejected r, w') w = record w {
    worker = reject_task_assignment key.task_id r w';
    reader = idle;
  }

  unfoldable pub after_acquire : Key → Verdict × Worker S → World S → World S
  unfolding reject_task_assignment
  after_acquire key (proceed, w') w = record w { worker = w'; reader = holding key }
  after_acquire key (duplicate, w') w = record w { worker = w'; reader = idle }
  after_acquire key (rejected r, w') w = record w {
    worker = reject_task_assignment key.task_id r w';
    reader = idle;
  }

  unfoldable pub after_register : Key → Verdict × Worker S → World S → World S
  unfolding reject_task_assignment
  after_register key (proceed, w') w = record w { worker = w'; reader = registered key }
  after_register key (duplicate, w') w = record w { worker = w'; reader = idle }
  after_register key (rejected r, w') w = record w {
    worker = reject_task_assignment key.task_id r w';
    reader = idle;
  }

  unfoldable pub on_claim : Reader → World S → World S
  on_claim (registered key) w = record w {
    worker = send_message (task_claimed key) w.worker;
    reader = idle;
    execs = w.execs ++ record { key = key; phase = running } ∷ [];
  }
  on_claim idle w = w
  on_claim (admitted key) w = w
  on_claim (holding key) w = w

  -- The task's context is cancelled by its cancel function, or by the worker's context unless the
  -- backend preserves tasks.
  abbrev pub context_canceled : Key → Worker S → Bool
  context_canceled key w =
      canceled_of (lookup key w.active)
      || w.ctx_done && not (preserves_tasks_on_shutdown w.config.backend)

  abbrev pub with_exec : (Key → Phase → World S → World S) → Option Exec → World S → World S
  with_exec f none w = w
  with_exec f (some x) w = f x.key x.phase w

  abbrev pub move : ℕ → Key → Phase → World S → World S
  move i key phase w = record w { execs = set w.execs i (record { key = key; phase = phase }) }

  -- ExecuteTask returns: the observation, the context and the cancellation source are read.
  unfoldable pub on_result : ExecuteResult → ℕ → Key → Phase → World S → World S
  on_result result i key running w =
      let stopped = observation_stopped_of (lookup key w.worker.active) in
      let canceled = context_canceled key w.worker in
      let source = cancellation_source key w.worker in
      move i key (returned result stopped canceled source) w
  on_result result i key (returned r s c f) w = w
  on_result result i key (leaving stopped) w = w
  on_result result i key unregistered w = w
  on_result result i key released w = w

  abbrev pub concluded : ℕ → Key → Conclusion → World S → World S
  concluded i key c w =
      move i key (leaving (is_interrupted c))
        (record w { worker = announce key c w.worker; quiet = quiet_after key c w.quiet })

  -- The rest of the body of executeTask, with the second read of the cancellation source.
  unfoldable pub on_conclude : ℕ → Key → Phase → World S → World S
  on_conclude i key (returned result stopped canceled first) w =
      concluded i key (conclude stopped canceled first (cancellation_source key w.worker) result) w
  on_conclude i key running w = w
  on_conclude i key (leaving stopped) w = w
  on_conclude i key unregistered w = w
  on_conclude i key released w = w

  unfoldable pub on_unregister : ℕ → Key → Phase → World S → World S
  on_unregister i key (leaving stopped) w =
      move i key unregistered (record w { worker = finish_execution key stopped w.worker })
  on_unregister i key running w = w
  on_unregister i key (returned r s c f) w = w
  on_unregister i key unregistered w = w
  on_unregister i key released w = w

  unfoldable pub on_depart : ℕ → Key → Phase → World S → World S
  on_depart i key released w = record w {
    worker = signal_one_shot_complete w.worker;
    execs = remove_at w.execs i;
  }
  on_depart i key running w = w
  on_depart i key (returned r s c f) w = w
  on_depart i key (leaving stopped) w = w
  on_depart i key unregistered w = w

  -- The backend accepts a cancellation whose goroutine was started and has seen `done`.
  unfoldable pub on_accept : Key → World S → World S
  on_accept key w =
      if accepts (lookup key w.worker.active)
      then record w { worker = cancellation_accepted key w.worker }
      else w

module _ {S : Type 0} ⦃sem : Semaphore S⦄ where
  unfoldable pub on_acquire : Reader → World S → World S
  unfolding after_acquire
  on_acquire (admitted key) w = after_acquire key (acquire_slot w.worker) w
  on_acquire idle w = w
  on_acquire (holding key) w = w
  on_acquire (registered key) w = w

  unfoldable pub on_enroll : Reader → World S → World S
  unfolding after_register
  on_enroll (holding key) w = after_register key (register key w.worker) w
  on_enroll idle w = w
  on_enroll (admitted key) w = w
  on_enroll (registered key) w = w

  unfoldable pub on_release : ℕ → Key → Phase → World S → World S
  on_release i key unregistered w =
      move i key released (record w { worker = release_slot w.worker })
  on_release i key running w = w
  on_release i key (returned r s c f) w = w
  on_release i key (leaving stopped) w = w
  on_release i key released w = w
