-- ===== src/World/Capacity/Bound.antt =====
-- The bound on the tasks that execute at once, over every interleaving.
use oz_agent_worker.Prelude.{
  ℕ, ◌+◌, ◌≤◌, ◌<◌, ◌≡◌, refl, if◌then◌else◌, ap, Option, none, some, List, [], ◌∷◌, String,
  get_elem?, weight, weight-remove_at, arith,
}
use oz_agent_worker.Worker.Standby.{
  handle_prewarm_destroy, report_watched_standby_exit, send_standby_exit,
}
use oz_agent_worker.Worker.Standby.Outcome.{create-Outcome}
use oz_agent_worker.Worker.Cancel.{handle_task_cancellation, cancellation_accepted}
use oz_agent_worker.Worker.Shutdown.{shutdown_tasks}
use oz_agent_worker.Worker.{
  Semaphore, Key, Config, Worker, new, Slots, no_slots, task_slots, standby_slots,
}
use oz_agent_worker.World.{holding, unregistered, reported, World, on_accept}
use oz_agent_worker.World.Events.{
  Event, assign, acquire, enroll, claim, give_result, conclude_at, unregister, release, depart,
  cancel, accept_cancellation, create, destroy, stand_by_result, free_standby, drop_standby,
  watched, stop_context, shut_down, step, run, start,
}
use oz_agent_worker.World.Lift.{with_exec_keeps, with_run_keeps, when_idle_keeps}
use oz_agent_worker.World.Capacity.{reader_holds, exec_holds, run_holds, Inv, Same-Inv}
use oz_agent_worker.World.Capacity.Tasks
use oz_agent_worker.World.Capacity.Standbys

-- The number of tasks that a worker of this configuration may execute at once; 0 is no limit.
abbrev pub task_limit : Config → ℕ
task_limit c = if c.one_shot then 1 else c.max_concurrent_tasks

abbrev pub semaphore_of : {S : Type 0} → Slots → Worker S → Option S
semaphore_of no_slots w = none
semaphore_of task_slots w = w.task_semaphore
semaphore_of standby_slots w = w.standby_semaphore

-- A goroutine that stands before its release of a unit: the reader, which may find the worker
-- stopping or the execution a duplicate, an execution past its deferred section, and a standby past
-- its report.
pub data Releasing {S : Type 0} (w : World S) : Slots → Type 0 where
  by_reader : (key : Key) → w.reader ≡ holding key → Releasing w task_slots
  by_execution :
      (i : ℕ) (key : Key)
      → get_elem? w.execs i ≡ some (record { key = key; phase = unregistered })
      → Releasing w task_slots
  by_standby :
      (slots : Slots) (i : ℕ) (id : String)
      → get_elem? w.runs i ≡ some (record { id = id; slots = slots; phase = reported })
      → Releasing w slots

module _ {S : Type 0} ⦃sem : Semaphore S⦄ (dns : String → List String) where
  accept-Inv : (t b : ℕ) (key : Key) (w : World S) → Inv t b w → Inv t b (on_accept key w)
  unfolding on_accept cancellation_accepted
  accept-Inv t b key w v = ground arith

  destroy_keeps :
      (id : String) (w : Worker S)
      → ((handle_prewarm_destroy id w).task_semaphore ≡ w.task_semaphore)
        × ((handle_prewarm_destroy id w).standby_semaphore ≡ w.standby_semaphore)
  unfolding handle_prewarm_destroy
  destroy_keeps id w = ground arith

  watched_keeps :
      (id : String) (code : ℕ) (reason : String) (w : Worker S)
      → ((report_watched_standby_exit id code reason w).task_semaphore ≡ w.task_semaphore)
        × ((report_watched_standby_exit id code reason w).standby_semaphore ≡ w.standby_semaphore)
  unfolding report_watched_standby_exit send_standby_exit
  watched_keeps id code reason w = ground arith

  shutdown_keeps :
      (w : Worker S)
      → ((shutdown_tasks w).task_semaphore ≡ w.task_semaphore)
        × ((shutdown_tasks w).standby_semaphore ≡ w.standby_semaphore)
  unfolding shutdown_tasks
  shutdown_keeps w = ground arith

  cancellation_keeps :
      (key : Key) (w : Worker S)
      → ((handle_task_cancellation key w).task_semaphore ≡ w.task_semaphore)
        × ((handle_task_cancellation key w).standby_semaphore ≡ w.standby_semaphore)
  unfolding handle_task_cancellation
  cancellation_keeps key w = ground arith

  pub step-Inv : (t b : ℕ) (e : Event) (w : World S) → Inv t b w → Inv t b (step dns e w)
  unfolding step
  step-Inv t b (assign key) w v =
      when_idle_keeps (Inv t b) w.reader _ w v (Tasks.after_admit-Inv t b key w v)
  step-Inv t b acquire w v = Tasks.on_acquire-Inv t b w.reader w v refl
  step-Inv t b enroll w v = Tasks.on_enroll-Inv t b w.reader w v refl
  step-Inv t b claim w v = Tasks.on_claim-Inv t b w.reader w v refl
  step-Inv t b (give_result i r) w v =
      with_exec_keeps (Inv t b) _ _ w v (λ x at. Tasks.on_result-Inv t b i r x x.phase w at refl v)
  step-Inv t b (conclude_at i) w v =
      with_exec_keeps (Inv t b) _ _ w v (λ x at. Tasks.on_conclude-Inv t b i x x.phase w at refl v)
  step-Inv t b (unregister i) w v =
      with_exec_keeps (Inv t b) _ _ w v
        (λ x at. Tasks.on_unregister-Inv t b i x x.phase w at refl v)
  step-Inv t b (release i) w v =
      with_exec_keeps (Inv t b) _ _ w v (λ x at. Tasks.on_release-Inv t b i x x.phase w at refl v)
  step-Inv t b (depart i) w v =
      with_exec_keeps (Inv t b) _ _ w v (λ x at. Tasks.on_depart-Inv t b i x x.phase w at refl v)
  step-Inv t b (cancel key) w v =
      let (p, q) = cancellation_keeps key w.worker in
      when_idle_keeps (Inv t b) w.reader _ w v (λ _. Same-Inv t b w _ p q v)
  step-Inv t b (accept_cancellation key) w v = accept-Inv t b key w v
  step-Inv t b (create id) w v =
      when_idle_keeps (Inv t b) w.reader _ w v
        (λ _. Standbys.started-Inv t b id _ w (create-Outcome dns id w.worker) v)
  step-Inv t b (destroy id) w v =
      let (p, q) = destroy_keeps id w.worker in
      when_idle_keeps (Inv t b) w.reader _ w v (λ _. Same-Inv t b w _ p q v)
  step-Inv t b (stand_by_result i r) w v =
      with_run_keeps (Inv t b) _ _ w v (λ x at. Standbys.on_standby_result-Inv t b i r x w at v)
  step-Inv t b (free_standby i) w v =
      with_run_keeps (Inv t b) _ _ w v (λ x at. Standbys.on_free-Inv t b i x w at v)
  step-Inv t b (drop_standby i) w v =
      with_run_keeps (Inv t b) _ _ w v (λ x at. Standbys.on_drop-Inv t b i x w at v)
  step-Inv t b (watched id code reason) w v =
      let (p, q) = watched_keeps id code reason w.worker in Same-Inv t b w _ p q v
  step-Inv t b stop_context w v = Same-Inv t b w _ refl refl v
  step-Inv t b shut_down w v = let (p, q) = shutdown_keeps w.worker in Same-Inv t b w _ p q v

  pub run-Inv : (t b : ℕ) (es : List Event) (w : World S) → Inv t b w → Inv t b (run dns es w)
  unfolding run
  run-Inv t b [] w v = v
  run-Inv t b (e ∷ es) w v = run-Inv t b es (step dns e w) (step-Inv t b e w v)

  start-Inv :
      (c : Config) (w : Worker S)
      → new c ≡ some w
      → Inv (task_limit c) c.max_prewarmed_sandboxes (start w)
  unfolding new start
  start-Inv c w e = ground (
    arith,
    sem.new_held 1,
    sem.new_size 1,
    sem.new_held c.max_concurrent_tasks,
    sem.new_size c.max_concurrent_tasks,
    sem.new_held c.max_prewarmed_sandboxes,
    sem.new_size c.max_prewarmed_sandboxes,
  )

  -- After any events, in any interleaving, of a worker made by `new`: where the tasks are limited,
  -- no more executions hold a slot than the limit, from the claim to the release that follows
  -- their bookkeeping, the standbys that share the slots counted with them.
  pub concurrency_bounded :
      (c : Config) (w : Worker S) (es : List Event)
      → new c ≡ some w
      → 0 < task_limit c
      → (let u = run dns es (start w) in
          weight exec_holds u.execs + weight (run_holds task_slots) u.runs ≤ task_limit c)
  concurrency_bounded c w es made limited =
      bound (task_limit c) _ (run dns es (start w)) limited
        (run-Inv (task_limit c) _ es (start w) (start-Inv c w made))
    where
      bound :
          (t b : ℕ) (u : World S)
          → 0 < t
          → Inv t b u
          → weight exec_holds u.execs + weight (run_holds task_slots) u.runs ≤ t
      bound t b u p v = ground arith

  safe :
      (t b : ℕ) (w : World S) (slots : Slots) (s : S)
      → Inv t b w
      → Releasing w slots
      → semaphore_of slots w.worker ≡ some s
      → 0 < sem.held s
  safe t b w _ s v (by_reader key at) e = ground (arith, ap reader_holds at)
  safe t b w _ s v (by_execution i key at) e =
      ground (arith, weight-remove_at exec_holds w.execs i _ at)
  safe t b w task_slots s v (by_standby _ i id at) e =
      ground (arith, weight-remove_at (run_holds task_slots) w.runs i _ at)
  safe t b w standby_slots s v (by_standby _ i id at) e =
      ground (arith, weight-remove_at (run_holds standby_slots) w.runs i _ at)
  safe t b w no_slots s v (by_standby _ i id at) e = cc

  -- The semaphore's Release panics when no unit is held. After any events, in any interleaving, of a
  -- worker made by `new`: where the reader, the goroutine of an execution or the goroutine of a
  -- standby stands before its release of a unit of the tasks' or the standbys' semaphore, and that
  -- semaphore exists, a unit of it is held.
  pub release_safe :
      (c : Config) (w : Worker S) (es : List Event) (slots : Slots) (s : S)
      → new c ≡ some w
      → Releasing (run dns es (start w)) slots
      → semaphore_of slots (run dns es (start w)).worker ≡ some s
      → 0 < sem.held s
  release_safe c w es slots s made r e =
      safe (task_limit c) _ (run dns es (start w)) slots s
        (run-Inv (task_limit c) _ es (start w) (start-Inv c w made)) r e
