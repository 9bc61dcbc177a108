-- ===== src/Worker/Assign.antt =====
-- handleTaskAssignment of internal/worker/worker.go. Its three sections, the two under tasksMutex
-- and the TryAcquire between them, are functions of their own: other goroutines run between them.
pub mod Verdicts
use oz_agent_worker.Prelude.{
  ℕ, suc, ◌+◌, ◌-◌, Bool, true, false, if◌then◌else◌, not, ◌&&◌, ◌||◌, Option, none, some, is_some,
  List, [], ◌∷◌, ◌++◌, String,
}
use oz_agent_worker.Assoc.{Map, lookup, insert}
use oz_agent_worker.Recent.{is_known}
use oz_agent_worker.Failure.{Source, unset}
use oz_agent_worker.Worker.{
  Semaphore, Key, key_eq, ActiveTask, Message, task_claimed, task_rejected, Worker, send_message,
  is_stopping, try_acquire_opt, release_opt,
}

-- What a section decides: the assignment goes on, is a duplicate, or is rejected with a reason.
pub data Verdict : Type 0 where
  proceed duplicate : Verdict
  rejected : String → Verdict

unfoldable pub new_active_task : ActiveTask
new_active_task = record {
  canceled = false;
  cancellation_source = unset;
  spawned = false;
  done = false;
  cancelling = false;
  cancellation_stopped = false;
  cancellations = 0;
  observed = true;
  observation_stopped = false;
}

module _ {S : Type 0} where
  unfoldable pub is_duplicate : Key → Worker S → Bool
  is_duplicate key w = is_some (lookup key w.active) || is_known key w.completed

  unfoldable pub reject_task_assignment : String → String → Worker S → Worker S
  reject_task_assignment task_id reason w = send_message (task_rejected task_id reason) w

  -- oneShotState.tryAccept and resetAcceptance
  unfoldable pub try_accept : Worker S → Bool × Worker S
  try_accept w =
      if w.one_shot_accepted then (false, w) else (true, record w { one_shot_accepted = true })

  unfoldable pub reset_acceptance : Worker S → Worker S
  reset_acceptance w = if w.config.one_shot then record w { one_shot_accepted = false } else w

  accepted_by_one_shot : Worker S → Bool × Worker S
  unfolding try_accept
  accepted_by_one_shot w = if w.config.one_shot then try_accept w else (true, w)

  -- The first section under tasksMutex.
  unfoldable pub admit : Key → Worker S → Verdict × Worker S
  unfolding is_duplicate accepted_by_one_shot
  admit key w =
      if is_duplicate key w
      then (duplicate, w)
      else if is_stopping w
      then (rejected "worker is shutting down", w)
      else (let (accepted, w') = accepted_by_one_shot w in
          if accepted
          then (proceed, record w' { task_wg = w'.task_wg + 1 })
          else (rejected "one-shot worker has already accepted a task", w'))

module _ {S : Type 0} ⦃sem : Semaphore S⦄ where
  -- The concurrency check between the sections.
  unfoldable pub acquire_slot : Worker S → Verdict × Worker S
  unfolding reset_acceptance
  acquire_slot w = elim (try_acquire_opt w.task_semaphore) [
    | none ↦ (
      rejected "worker at maximum concurrency",
      (let w' = reset_acceptance w in record w' { task_wg = w'.task_wg - 1 }),
    )
    | some s ↦ (proceed, record w { task_semaphore = s })
  ]

  give_back : Worker S → Worker S
  give_back w = record w { task_semaphore = release_opt w.task_semaphore; task_wg = w.task_wg - 1 }

  -- The second section under tasksMutex, with the releases that follow it on failure.
  unfoldable pub register : Key → Worker S → Verdict × Worker S
  unfolding is_duplicate reset_acceptance give_back new_active_task
  register key w =
      if is_stopping w
      then (rejected "worker is shutting down", give_back (reset_acceptance w))
      else if is_duplicate key w
      then (duplicate, give_back w)
      else (proceed, record w { active = insert key new_active_task w.active })

  after_register : Key → Verdict × Worker S → Verdict × Worker S
  unfolding reject_task_assignment
  after_register key (proceed, w) = (proceed, send_message (task_claimed key) w)
  after_register key (duplicate, w) = (duplicate, w)
  after_register key (rejected r, w) = (rejected r, reject_task_assignment key.task_id r w)

  after_acquire : Key → Verdict × Worker S → Verdict × Worker S
  unfolding reject_task_assignment register after_register
  after_acquire key (proceed, w) = after_register key (register key w)
  after_acquire key (duplicate, w) = (duplicate, w)
  after_acquire key (rejected r, w) = (rejected r, reject_task_assignment key.task_id r w)

  after_admit : Key → Verdict × Worker S → Verdict × Worker S
  unfolding reject_task_assignment acquire_slot after_acquire
  after_admit key (proceed, w) = after_acquire key (acquire_slot w)
  after_admit key (duplicate, w) = (duplicate, w)
  after_admit key (rejected r, w) = (rejected r, reject_task_assignment key.task_id r w)

  -- The handler with nothing run in between: `proceed` means that the task was claimed and its
  -- goroutine started.
  unfoldable pub handle_task_assignment : Key → Worker S → Verdict × Worker S
  unfolding admit after_admit
  handle_task_assignment key w = after_admit key (admit key w)
