-- ===== src/World/OneShot.antt =====
-- One-shot mode: tryAccept and resetAcceptance of internal/worker/worker.go against the claims.
pub mod Everywhere
use oz_agent_worker.Prelude.{
  inl, inr, ℕ, suc, ◌+◌, ◌≤◌, ◌<◌, ◌≡◌, refl, Bool, true, false, Option, none, some, List, [], ◌∷◌,
  ◌++◌, String, get_elem?, set, remove_at, weight, weight-append, weight-set, weight-remove_at,
  arith,
}
use oz_agent_worker.Failure.{Source}
use oz_agent_worker.Worker.Assign.{
  Verdict, proceed, duplicate, rejected, admit, acquire_slot, register, reject_task_assignment,
}
use oz_agent_worker.Worker.Cancel.{handle_task_cancellation, cancellation_accepted}
use oz_agent_worker.Worker.Execute.{
  ExecuteResult, Conclusion, interrupted, cancelled, dispatched, succeeded, failed, conclude,
  is_interrupted, cancellation_source, announce, finish_execution, release_slot,
  signal_one_shot_complete,
}
use oz_agent_worker.Worker.Standby.{
  handle_prewarm_create, handle_prewarm_destroy, report_watched_standby_exit, report_standby_exit,
  send_standby_exit, release_slots, cancel_standby, remove_standby,
}
use oz_agent_worker.Worker.Shutdown.{shutdown_tasks}
use oz_agent_worker.Worker.{
  Semaphore, Key, Message, task_claimed, task_rejected, task_completed, task_cancelled, task_failed,
  prewarm_created, prewarm_rejected, prewarm_exited, Slots, Worker, send_message, Config, new,
}
use oz_agent_worker.World.{
  Reader, idle, admitted, holding, registered, Exec, Phase, running, returned, leaving,
  unregistered, released, RunPhase, Run, World, after_admit, after_acquire, after_register,
  concluded, on_acquire, on_enroll, on_claim, on_result, on_conclude, on_unregister, on_release,
  on_depart, on_accept, move,
}
use oz_agent_worker.World.Events.{
  Event, assign, acquire, enroll, claim, give_result, conclude_at, unregister, release, depart,
  cancel, accept_cancellation, create, destroy, stand_by_result, free_standby, drop_standby,
  watched, stop_context, shut_down, on_standby_result, on_free, on_drop, started, step, run, start,
}
use oz_agent_worker.World.Lift.{with_exec_keeps, with_run_keeps, when_idle_keeps}
use oz_agent_worker.Worker.Standby.Outcome.{
  is_standby_message, Sends, watched-Sends, report-Sends, create-Sends,
}
use oz_agent_worker.Worker.Standby.Calm.{
  Calm, watched-Calm, report-Calm, destroy-Calm, remove-Calm, free-Calm, create-Calm,
}
use oz_agent_worker.World.Ledger.{each, claim_weight, claims, Alike, admit-Alike}
use oz_agent_worker.World.Ledger.Account.{
  Sends-Alike, cancellation-Alike, destroy-Alike, shutdown-Alike, acquire-Alike, register-Alike,
}

-- An assignment that was accepted and not yet claimed or turned down.
abbrev pub pending : Reader → ℕ
pending idle = 0
pending (admitted key) = 1
pending (holding key) = 1
pending (registered key) = 1

module _ {S : Type 0} where
  -- In one-shot mode at most one assignment is accepted and kept, and none where the acceptance is
  -- open.
  pub record Inv (w : World S) : Type 0 where
    pub mode : w.worker.config.one_shot ≡ true
    pub limit : claims w + pending w.reader ≤ 1
    pub fresh : w.worker.one_shot_accepted ≡ false → claims w + pending w.reader ≡ 0

  -- Workers that agree on what the invariant reads.
  pub record Same (k w : Worker S) : Type 0 where
    pub same_mode : k.config.one_shot ≡ w.config.one_shot
    pub same_accepted : k.one_shot_accepted ≡ w.one_shot_accepted
    pub same_claims : weight (claim_weight each) k.sent ≡ weight (claim_weight each) w.sent

  pub Same-Inv :
      (w : World S) (k : Worker S) (xs : List Exec) (rs : List Run) (q : List Key)
      → Same k w.worker
      → Inv w
      → Inv (record w { worker = k; execs = xs; runs = rs; quiet = q })
  Same-Inv w k xs rs q s v = ground arith

  pub reject-Same :
      (id reason : String) (w : Worker S) → Same (reject_task_assignment id reason w) w
  unfolding reject_task_assignment
  reject-Same id reason w =
      ground (arith, weight-append (claim_weight each) w.sent (task_rejected id reason ∷ []))

  pub announce-Same : (key : Key) (c : Conclusion) (w : Worker S) → Same (announce key c w) w
  unfolding announce
  announce-Same key interrupted w = ground arith
  announce-Same key dispatched w = ground arith
  announce-Same key cancelled w =
      ground (arith, weight-append (claim_weight each) w.sent (task_cancelled key ∷ []))
  announce-Same key succeeded w =
      ground (arith, weight-append (claim_weight each) w.sent (task_completed key ∷ []))
  announce-Same key (failed r c t) w =
      ground (arith, weight-append (claim_weight each) w.sent (task_failed key r c t ∷ []))

  pub Calm-Same : (k w : Worker S) → Calm k w → Alike each k w → Same k w
  Calm-Same k w c a = ground arith

  pub rejection-weight :
      (w : Worker S) (key : Key) (reason : String)
      → weight (claim_weight each) (w.sent ++ task_rejected key.task_id reason ∷ [])
        ≡ weight (claim_weight each) w.sent
  rejection-weight w key reason =
      omega
        (arith, weight-append (claim_weight each) w.sent (task_rejected key.task_id reason ∷ []))

  pub assign-Inv :
      (key : Key) (w : World S)
      → w.reader ≡ idle
      → Inv w
      → Inv (after_admit key (admit key w.worker) w)
  unfolding after_admit admit reject_task_assignment
  assign-Inv key w i v = ground (
    arith,
    rejection-weight w.worker key "worker is shutting down",
    rejection-weight w.worker key "one-shot worker has already accepted a task",
  )

  pub on_claim-Inv : (r : Reader) (w : World S) → w.reader ≡ r → Inv w → Inv (on_claim r w)
  unfolding on_claim
  on_claim-Inv (registered key) w e v =
      ground (arith, weight-append (claim_weight each) w.worker.sent (task_claimed key ∷ []))
  on_claim-Inv _ w e v = v

  pub on_conclude-Inv :
      (i : ℕ) (key : Key) (p : Phase) (w : World S) → Inv w → Inv (on_conclude i key p w)
  unfolding on_conclude
  on_conclude-Inv i key (returned r s c f) w v =
      let source = cancellation_source key w.worker in
      Same-Inv w _ _ w.runs _ (announce-Same key (conclude s c f source r) w.worker) v
  on_conclude-Inv i key _ w v = v

  pub on_result-Inv :
      (r : ExecuteResult) (i : ℕ) (key : Key) (p : Phase) (w : World S)
      → Inv w
      → Inv (on_result r i key p w)
  unfolding on_result
  on_result-Inv r i key running w v = ground arith
  on_result-Inv r i key _ w v = v

  pub on_unregister-Inv :
      (i : ℕ) (key : Key) (p : Phase) (w : World S) → Inv w → Inv (on_unregister i key p w)
  unfolding on_unregister finish_execution
  on_unregister-Inv i key (leaving s) w v = ground arith
  on_unregister-Inv i key _ w v = v

  pub on_depart-Inv :
      (i : ℕ) (key : Key) (p : Phase) (w : World S) → Inv w → Inv (on_depart i key p w)
  unfolding on_depart signal_one_shot_complete
  on_depart-Inv i key released w v = ground arith
  on_depart-Inv i key _ w v = v

  pub on_accept-Inv : (key : Key) (w : World S) → Inv w → Inv (on_accept key w)
  unfolding on_accept cancellation_accepted
  on_accept-Inv key w v = ground arith

  pub cancel-Same : (key : Key) (w : Worker S) → Same (handle_task_cancellation key w) w
  unfolding handle_task_cancellation
  cancel-Same key w = ground arith

  pub shutdown-Same : (w : Worker S) → Same (shutdown_tasks w) w
  unfolding shutdown_tasks
  shutdown-Same w = ground arith

  pub on_standby_result-Inv :
      (r : ExecuteResult) (i : ℕ) (x : Run) (w : World S) → Inv w → Inv (on_standby_result r i x w)
  unfolding on_standby_result
  on_standby_result-Inv r i x w v =
      let k = report_standby_exit x.id r w.worker in
      let same =
        Calm-Same k w.worker (report-Calm x.id r w.worker)
          (Sends-Alike each k w.worker (report-Sends x.id r w.worker)) in
      ground (arith, same)

  pub on_drop-Inv : (i : ℕ) (x : Run) (w : World S) → Inv w → Inv (on_drop i x w)
  unfolding on_drop remove_standby
  on_drop-Inv i x w v = ground arith
