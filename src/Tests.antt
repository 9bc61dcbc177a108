-- ===== src/Tests.antt =====
-- The theorems at concrete inputs.
mod Components
mod Kubernetes
mod Backends
mod Texts
use oz_agent_worker.Prelude.{
  ℕ, zero, suc, ◌+◌, ◌-◌, ◌*◌, ◌≤◌, ◌<◌, ◌≡◌, refl, Bool, true, false, if◌then◌else◌, Option, none,
  some, List, [], ◌∷◌, ◌++◌, ltb, String, weight, arith, length, get_elem?, string_eq, nat_eq, ◌==◌,
  ◌⊎◌,
}
use oz_agent_worker.Assoc.{Map, lookup, insert, delete}
use oz_agent_worker.Recent.{remember}
use oz_agent_worker.Worker.Assign.{
  admit, acquire_slot, register, is_duplicate, new_active_task, try_accept,
}
use oz_agent_worker.Worker.Cancel.{remember_completed}
use oz_agent_worker.Worker.Standby.{
  handle_prewarm_create, validate_standby_id, admit_standby, standbys_supported,
  standby_slots_locked, acquire_slots,
}
use oz_agent_worker.Worker.{Semaphore, Key, Worker, Config, direct, docker, new, task_slots}
use oz_agent_worker.Worker.Execute.{ExecuteResult, completed, conclude, announce, finish_execution}
use oz_agent_worker.World.{
  World, unregistered, after_admit, on_acquire, on_enroll, on_claim, on_result, on_conclude,
  on_unregister,
}
use oz_agent_worker.World.Events.{
  Event, assign, acquire, enroll, claim, give_result, conclude_at, unregister, release, depart,
  cancel, create, run, start, step,
}
use oz_agent_worker.Worker.Assign.{handle_task_assignment}
use oz_agent_worker.Worker.Assign.Verdicts.{Handled, Acquired, Registered, assignment-Handled}
use oz_agent_worker.Worker.Cancel.{handle_task_cancellation}
use oz_agent_worker.Worker.Cancel.Entries.{is_open}
use oz_agent_worker.Worker.Cancel.Once.{Begun, cancellation_once}
use oz_agent_worker.Worker.{is_stopping, key_eq}
use oz_agent_worker.Recent.{recall}
use oz_agent_worker.Worker.Standby.{
  standby_exit_cache_size, send_standby_exit, report_watched_standby_exit, report_standby_exit,
}
use oz_agent_worker.Worker.Standby.Exits.{StandbyExit, send_exits, exit_reported_once}
use oz_agent_worker.Recent.{Inv, is_known, empty-Inv}
use oz_agent_worker.Worker.Shutdown.{stop_task, shutdown_tasks}
use oz_agent_worker.Worker.Shutdown.Effect.{Stopped, shutdown_stops}
use oz_agent_worker.World.Ledger.{of_key, claims, claim_weight, terminal_weight, open_weight}
use oz_agent_worker.World.Ledger.Account.{outcomes_balanced}
use oz_agent_worker.World.OneShot.Everywhere.{one_shot_claims}
use oz_agent_worker.World.Sole.{live_count}
use oz_agent_worker.World.Sole.Everywhere.{executions_sole}
use oz_agent_worker.World.Capacity.{exec_holds, run_holds}
use oz_agent_worker.World.Capacity.Bound.{
  by_execution, task_limit, concurrency_bounded, release_safe,
}

-- A semaphore as the two numbers that it keeps.
record Units : Type 0 where
  total : ℕ
  used : ℕ

abbrev take_unit : Units → Option Units
take_unit u = if ltb u.used u.total then some (record u { used = u.used + 1 }) else none

instance abbrev units_semaphore : Semaphore Units
units_semaphore = record {
  new_weighted = λ n. record { total = n; used = 0 };
  try_acquire = take_unit;
  release = λ u. record u { used = u.used - 1 };
  held = λ u. u.used;
  size = λ u. u.total;
  new_held = λ n. refl;
  new_size = λ n. refl;
  acquire_held = λ s t h. ground arith;
  acquire_size = λ s t h. ground arith;
  acquire_fits = λ s t h. ground arith;
  acquire_full = λ s h. ground arith;
  release_held = λ s h. omega arith;
  release_size = λ s. refl;
}

abbrev no_errors : String → List String
no_errors label = []

abbrev two_tasks : Config
two_tasks = record {
  backend = direct;
  max_concurrent_tasks = 2;
  max_prewarmed_sandboxes = 1;
  one_shot = false;
  direct_target_dir = "";
}

abbrev fresh : Config → Option Units → Option Units → Worker Units
fresh c tasks standbys = record {
  config = c;
  ctx_done = false;
  shutting_down = false;
  active = [];
  completed = record { entries = []; order = [] };
  one_shot_accepted = false;
  one_shot_done = false;
  task_semaphore = tasks;
  standby_semaphore = standbys;
  standbys = [];
  standby_exits = record { entries = []; order = [] };
  task_wg = 0;
  sent = [];
}

abbrev units : ℕ → Option Units
units n = some (record { total = n; used = 0 })

abbrev two_task_worker : Worker Units
two_task_worker = fresh two_tasks (units 2) (units 1)

two_tasks-new : new two_tasks ≡ some two_task_worker
unfolding new
two_tasks-new = refl

abbrev first_key : Key
first_key = record { task_id = "t1"; execution_id = "e1" }

abbrev second_key : Key
second_key = record { task_id = "t2"; execution_id = "e2" }

abbrev claimed : Key → List Event
claimed k = assign k ∷ acquire ∷ enroll ∷ claim ∷ []

-- Two tasks are claimed, a standby is created, and the first task ends up to its bookkeeping.
abbrev busy : List Event
busy =
    claimed first_key
    ++ claimed second_key
    ++ create "s1" ∷ give_result 0 completed ∷ conclude_at 0 ∷ unregister 0 ∷ []

concurrency_bounded_example :
    weight exec_holds (run no_errors busy (start two_task_worker)).execs
      + weight (run_holds task_slots) (run no_errors busy (start two_task_worker)).runs
    ≤ 2
concurrency_bounded_example =
    concurrency_bounded no_errors two_tasks two_task_worker busy two_tasks-new (ground arith)

busy-unregistered :
    get_elem? (run no_errors busy (start two_task_worker)).execs 0
    ≡ some (record { key = first_key; phase = unregistered })
unfolding run step start admit acquire_slot register after_admit on_acquire on_enroll on_claim
    on_result on_conclude on_unregister announce conclude finish_execution is_duplicate lookup
    insert delete remember_completed remember handle_prewarm_create validate_standby_id
    admit_standby standbys_supported standby_slots_locked acquire_slots new_active_task try_accept
busy-unregistered = refl

busy-units :
    (run no_errors busy (start two_task_worker)).worker.task_semaphore
    ≡ some (record { total = 2; used = 2 })
unfolding run step start admit acquire_slot register after_admit on_acquire on_enroll on_claim
    on_result on_conclude on_unregister announce conclude finish_execution is_duplicate lookup
    insert delete remember_completed remember handle_prewarm_create validate_standby_id
    admit_standby standbys_supported standby_slots_locked acquire_slots new_active_task try_accept
busy-units = refl

release_safe_example : 0 < 2
release_safe_example =
    release_safe no_errors two_tasks two_task_worker busy task_slots
      (record { total = 2; used = 2 }) two_tasks-new (by_execution 0 first_key busy-unregistered)
      busy-units

executions_sole_example :
    (live_count first_key (run no_errors busy (start two_task_worker)) ≤ 1)
    × (0 < live_count first_key (run no_errors busy (start two_task_worker))
        → is_open (lookup first_key (run no_errors busy (start two_task_worker)).worker.active)
          ≡ true)
executions_sole_example =
    executions_sole first_key no_errors two_tasks two_task_worker busy two_tasks-new

outcomes_balanced_example :
    let u = run no_errors busy (start two_task_worker) in
    weight (claim_weight (of_key first_key)) u.worker.sent
    ≡ weight (open_weight (of_key first_key)) u.execs
      + weight (terminal_weight (of_key first_key)) u.worker.sent
      + weight (of_key first_key) u.quiet
outcomes_balanced_example =
    outcomes_balanced no_errors first_key two_tasks two_task_worker busy two_tasks-new

abbrev one_task : Config
one_task = record two_tasks { max_concurrent_tasks = 1; one_shot = true }

abbrev one_task_worker : Worker Units
one_task_worker = fresh one_task (units 1) (units 1)

one_task-new : new (record one_task { max_concurrent_tasks = 5 }) ≡ some one_task_worker
unfolding new
one_task-new = refl

one_shot_claims_example : claims (run no_errors busy (start one_task_worker)) ≤ 1
one_shot_claims_example =
    one_shot_claims no_errors (record one_task { max_concurrent_tasks = 5 }) one_task_worker busy
      refl one_task-new

assignment-Handled_example :
    Handled first_key one_task_worker (handle_task_assignment first_key one_task_worker)
    × Acquired one_task_worker (acquire_slot one_task_worker)
    × Registered first_key two_task_worker (register first_key two_task_worker)
assignment-Handled_example =
    assignment-Handled first_key one_task_worker one_task_worker two_task_worker

-- A worker on which the first task is active.
abbrev active_worker : Worker Units
active_worker = (run no_errors (claimed first_key) (start two_task_worker)).worker

cancellation_once_example :
    (handle_task_cancellation first_key (handle_task_cancellation first_key active_worker)
      ≡ handle_task_cancellation first_key active_worker)
    × ((is_stopping active_worker ≡ true)
        ⊎ (recall first_key active_worker.completed ≡ some true)
        ⊎ Begun first_key active_worker.active
            (handle_task_cancellation first_key active_worker).active)
cancellation_once_example = cancellation_once first_key active_worker refl

abbrev exited : Worker Units
exited = send_standby_exit "s1" 0 "" two_task_worker

abbrev further_exits : List StandbyExit
further_exits = ("s2", 1, "gone") ∷ ("s3", 0, "") ∷ []

abbrev later_worker : Worker Units
later_worker = send_exits further_exits exited

unknown_exit : is_known "s1" two_task_worker.standby_exits ≡ false
unfolding lookup
unknown_exit = refl

exit_reported_once_example :
    Inv standby_exit_cache_size later_worker.standby_exits
    × (send_standby_exit "s1" 1 "unknown" later_worker ≡ later_worker)
    × (report_watched_standby_exit "s1" 1 "unknown" later_worker ≡ later_worker)
    × (report_standby_exit "s1" completed later_worker ≡ later_worker)
exit_reported_once_example =
    exit_reported_once "s1" 0 1 "" "unknown" completed further_exits two_task_worker later_worker
      (empty-Inv standby_exit_cache_size) unknown_exit (omega arith) refl

abbrev running_worker : Worker Units
running_worker = record two_task_worker { active = (first_key, new_active_task) ∷ [] }

running_worker-active : lookup first_key running_worker.active ≡ some new_active_task
unfolding lookup
running_worker-active = refl

shutdown_stops_example :
    (lookup first_key (shutdown_tasks running_worker).active
      ≡ some (stop_task false new_active_task))
    × Stopped false new_active_task (stop_task false new_active_task)
    × ((shutdown_tasks running_worker).sent ≡ [])
    × (shutdown_tasks (shutdown_tasks running_worker) ≡ shutdown_tasks running_worker)
shutdown_stops_example =
    shutdown_stops first_key new_active_task running_worker refl running_worker-active
