-- ===== src/World/Ledger.antt =====
-- The account of the messages that internal/worker/worker.go sends: the claims, the terminal messages
-- and the quiet ends of the executions of each key.
pub mod Account
use oz_agent_worker.Prelude.{
  ◌==◌, if◌then◌else◌, ℕ, suc, ◌+◌, ◌≤◌, ◌<◌, ◌≡◌, refl, Bool, true, false, Option, none, some,
  List, [], ◌∷◌, ◌++◌, String, get_elem?, set, remove_at, weight, weight-append, weight-set,
  weight-remove_at, arith,
}
use oz_agent_worker.Failure.{Source}
use oz_agent_worker.Worker.Assign.{
  Verdict, proceed, duplicate, rejected, admit, acquire_slot, register, reject_task_assignment,
}
use oz_agent_worker.Worker.Cancel.{handle_task_cancellation, cancellation_accepted}
use oz_agent_worker.Worker.Execute.{
  ExecuteResult, Conclusion, interrupted, cancelled, dispatched, succeeded, failed, conclude,
  is_interrupted, cancellation_source, announce, finish_execution, release_slot,
  signal_one_shot_complete,
}
use oz_agent_worker.Worker.Standby.{
  handle_prewarm_create, handle_prewarm_destroy, report_watched_standby_exit, report_standby_exit,
  send_standby_exit, release_slots, cancel_standby, remove_standby,
}
use oz_agent_worker.Worker.Shutdown.{shutdown_tasks}
use oz_agent_worker.Worker.{
  Semaphore, Key, key_eq, Message, task_claimed, task_rejected, task_completed, task_cancelled,
  task_failed, prewarm_created, prewarm_rejected, prewarm_exited, Slots, Worker, send_message,
  Config, new,
}
use oz_agent_worker.World.{
  Reader, idle, admitted, holding, registered, Exec, Phase, running, returned, leaving,
  unregistered, released, RunPhase, Run, World, after_admit, after_acquire, after_register,
  concluded, quiet_after, on_acquire, on_enroll, on_claim, on_result, on_conclude, on_unregister,
  on_release, on_depart, on_accept, move,
}
use oz_agent_worker.World.Events.{
  Event, assign, acquire, enroll, claim, give_result, conclude_at, unregister, release, depart,
  cancel, accept_cancellation, create, destroy, stand_by_result, free_standby, drop_standby,
  watched, stop_context, shut_down, on_standby_result, on_free, on_drop, started, step, run, start,
}
use oz_agent_worker.World.Lift.{with_exec_keeps, with_run_keeps, when_idle_keeps}

-- The weight that the account gives to each execution: one for every key, or for one key only.
abbrev pub each : Key → ℕ
each k = 1

abbrev pub of_key : Key → Key → ℕ
of_key k j = if k == j then 1 else 0

abbrev pub claim_weight : (Key → ℕ) → Message → ℕ
claim_weight f (task_claimed k) = f k
claim_weight f _ = 0

abbrev pub terminal_weight : (Key → ℕ) → Message → ℕ
terminal_weight f (task_completed k) = f k
terminal_weight f (task_cancelled k) = f k
terminal_weight f (task_failed k r c t) = f k
terminal_weight f _ = 0

-- An execution whose outcome is still open.
abbrev pub open_phase : ℕ → Phase → ℕ
open_phase n running = n
open_phase n (returned r s c f) = n
open_phase n _ = 0

abbrev pub open_weight : (Key → ℕ) → Exec → ℕ
open_weight f x = open_phase (f x.key) x.phase

abbrev pub claims : {S : Type 0} → World S → ℕ
claims w = weight (claim_weight each) w.worker.sent

module _ (f : Key → ℕ) {S : Type 0} where
  pub record Balanced (w : World S) : Type 0 where
    pub balance :
        weight (claim_weight f) w.worker.sent
        ≡ weight (open_weight f) w.execs
          + weight (terminal_weight f) w.worker.sent
          + weight f w.quiet

  -- Two workers that differ by messages which are neither claims nor terminal.
  pub record Alike (k l : Worker S) : Type 0 where
    pub same_claims : weight (claim_weight f) k.sent ≡ weight (claim_weight f) l.sent
    pub same_terminals : weight (terminal_weight f) k.sent ≡ weight (terminal_weight f) l.sent

  pub send-Alike :
      (m : Message) (w k : Worker S)
      → claim_weight f m ≡ 0
      → terminal_weight f m ≡ 0
      → k.sent ≡ w.sent ++ m ∷ []
      → Alike k w
  send-Alike m w k p q e = ground (
    arith,
    weight-append (claim_weight f) w.sent (m ∷ []),
    weight-append (terminal_weight f) w.sent (m ∷ []),
  )

  -- A step that sends neither a claim nor a terminal message, and leaves the outcomes open.
  pub Alike-Balanced :
      (w : World S) (k : Worker S) (r : Reader) (runs : List Run)
      → Alike k w.worker
      → Balanced w
      → Balanced (record w { worker = k; reader = r; runs = runs })
  Alike-Balanced w k r runs p v = omega arith

  pub admit-Alike : (key : Key) (w : Worker S) → Alike (admit key w).1 w
  unfolding admit
  admit-Alike key w = ground arith

  reject-Alike :
      (id reason : String) (k w : Worker S)
      → Alike k w
      → Alike (reject_task_assignment id reason k) w
  unfolding reject_task_assignment
  reject-Alike id reason k w v = ground (
    arith,
    weight-append (claim_weight f) k.sent (task_rejected id reason ∷ []),
    weight-append (terminal_weight f) k.sent (task_rejected id reason ∷ []),
  )

  pub after_admit-Balanced :
      (key : Key) (r : Verdict × Worker S) (w : World S)
      → Alike r.1 w.worker
      → Balanced w
      → Balanced (after_admit key r w)
  unfolding after_admit
  after_admit-Balanced key (proceed, k) w h v = Alike-Balanced w k _ w.runs h v
  after_admit-Balanced key (duplicate, k) w h v = Alike-Balanced w k _ w.runs h v
  after_admit-Balanced key (rejected reason, k) w h v =
      Alike-Balanced w (reject_task_assignment key.task_id reason k) idle w.runs
        (reject-Alike key.task_id reason k w.worker h) v

  pub after_acquire-Balanced :
      (key : Key) (r : Verdict × Worker S) (w : World S)
      → Alike r.1 w.worker
      → Balanced w
      → Balanced (after_acquire key r w)
  unfolding after_acquire
  after_acquire-Balanced key (proceed, k) w h v = Alike-Balanced w k _ w.runs h v
  after_acquire-Balanced key (duplicate, k) w h v = Alike-Balanced w k _ w.runs h v
  after_acquire-Balanced key (rejected reason, k) w h v =
      Alike-Balanced w (reject_task_assignment key.task_id reason k) idle w.runs
        (reject-Alike key.task_id reason k w.worker h) v

  pub after_register-Balanced :
      (key : Key) (r : Verdict × Worker S) (w : World S)
      → Alike r.1 w.worker
      → Balanced w
      → Balanced (after_register key r w)
  unfolding after_register
  after_register-Balanced key (proceed, k) w h v = Alike-Balanced w k _ w.runs h v
  after_register-Balanced key (duplicate, k) w h v = Alike-Balanced w k _ w.runs h v
  after_register-Balanced key (rejected reason, k) w h v =
      Alike-Balanced w (reject_task_assignment key.task_id reason k) idle w.runs
        (reject-Alike key.task_id reason k w.worker h) v

  pub on_claim-Balanced : (r : Reader) (w : World S) → Balanced w → Balanced (on_claim r w)
  unfolding on_claim
  on_claim-Balanced (registered key) w v = ground (
    arith,
    weight-append (claim_weight f) w.worker.sent (task_claimed key ∷ []),
    weight-append (terminal_weight f) w.worker.sent (task_claimed key ∷ []),
    weight-append (open_weight f) w.execs (record { key = key; phase = running } ∷ []),
  )
  on_claim-Balanced idle w v = v
  on_claim-Balanced (admitted key) w v = v
  on_claim-Balanced (holding key) w v = v

  pub move-Balanced :
      (i : ℕ) (x : Exec) (p : Phase) (w : World S)
      → get_elem? w.execs i ≡ some x
      → open_weight f x ≡ open_phase (f x.key) p
      → Balanced w
      → Balanced (move i x.key p w)
  move-Balanced i x p w at same v =
      omega (arith, weight-set (open_weight f) w.execs i x (record { key = x.key; phase = p }) at)

  pub on_result-Balanced :
      (i : ℕ) (result : ExecuteResult) (x : Exec) (p : Phase) (w : World S)
      → get_elem? w.execs i ≡ some x
      → x.phase ≡ p
      → Balanced w
      → Balanced (on_result result i x.key p w)
  unfolding on_result
  on_result-Balanced i result x running w at e v = move-Balanced i x _ w at (ground arith) v
  on_result-Balanced i result x _ w at e v = v

  settled :
      (i : ℕ) (x : Exec) (m : Message) (w : World S)
      → get_elem? w.execs i ≡ some x
      → open_weight f x ≡ f x.key
      → claim_weight f m ≡ 0
      → terminal_weight f m ≡ f x.key
      → Balanced w
      → Balanced (
          move i x.key
            (leaving false)
            (record w { worker = send_message m w.worker; quiet = w.quiet }))
  settled i x m w at o p q v = ground (
    arith,
    weight-append (claim_weight f) w.worker.sent (m ∷ []),
    weight-append (terminal_weight f) w.worker.sent (m ∷ []),
    weight-set (open_weight f) w.execs i x (record { key = x.key; phase = leaving false }) at,
  )

  -- Each conclusion settles the outcome: a terminal message, or a quiet end.
  pub concluded-Balanced :
      (i : ℕ) (x : Exec) (c : Conclusion) (w : World S)
      → get_elem? w.execs i ≡ some x
      → open_weight f x ≡ f x.key
      → Balanced w
      → Balanced (concluded i x.key c w)
  unfolding announce
  concluded-Balanced i x interrupted w at o v = ground (
    arith,
    weight-set (open_weight f) w.execs i x (record { key = x.key; phase = leaving true }) at,
  )
  concluded-Balanced i x dispatched w at o v = ground (
    arith,
    weight-set (open_weight f) w.execs i x (record { key = x.key; phase = leaving false }) at,
  )
  concluded-Balanced i x cancelled w at o v = settled i x (task_cancelled x.key) w at o refl refl v
  concluded-Balanced i x succeeded w at o v = settled i x (task_completed x.key) w at o refl refl v
  concluded-Balanced i x (failed r c t) w at o v =
      settled i x (task_failed x.key r c t) w at o refl refl v
