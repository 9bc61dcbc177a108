-- ===== src/World/OneShot/Everywhere.antt =====
-- One-shot mode in every reachable state.
use oz_agent_worker.Prelude.{ℕ, ◌≤◌, ◌≡◌, refl, true, some, List, [], ◌∷◌, String, get_elem?, arith}
use oz_agent_worker.Worker.Assign.{acquire_slot, register, reject_task_assignment}
use oz_agent_worker.Worker.Execute.{release_slot}
use oz_agent_worker.Worker.Standby.{handle_prewarm_create, release_slots, cancel_standby}
use oz_agent_worker.Worker.{Semaphore, Key, Worker, Config, new}
use oz_agent_worker.World.{
  Reader, admitted, holding, Phase, unregistered, Run, World, on_acquire, on_enroll, on_result,
  on_conclude, on_unregister, on_release, on_depart,
}
use oz_agent_worker.World.Events.{
  Event, assign, acquire, enroll, claim, give_result, conclude_at, unregister, release, depart,
  cancel, accept_cancellation, create, destroy, stand_by_result, free_standby, drop_standby,
  watched, stop_context, shut_down, on_standby_result, on_free, on_drop, step, run, start,
}
use oz_agent_worker.World.Lift.{with_exec_keeps, with_run_keeps, when_idle_keeps}
use oz_agent_worker.Worker.Standby.Outcome.{watched-Sends, create-Sends}
use oz_agent_worker.Worker.Standby.Calm.{watched-Calm, destroy-Calm, create-Calm}
use oz_agent_worker.World.Ledger.{each, claims}
use oz_agent_worker.World.Ledger.Account.{Sends-Alike, destroy-Alike}
use oz_agent_worker.World.OneShot.{
  Inv, Same, Same-Inv, Calm-Same, rejection-weight, assign-Inv, on_claim-Inv, on_conclude-Inv,
  on_result-Inv, on_unregister-Inv, on_depart-Inv, on_accept-Inv, cancel-Same, shutdown-Same,
  on_standby_result-Inv, on_drop-Inv,
}

module _ {S : Type 0} ⦃sem : Semaphore S⦄ where
  on_acquire-Inv : (r : Reader) (w : World S) → w.reader ≡ r → Inv w → Inv (on_acquire r w)
  unfolding on_acquire acquire_slot reject_task_assignment
  on_acquire-Inv (admitted key) w e v =
      ground (arith, rejection-weight w.worker key "worker at maximum concurrency")
  on_acquire-Inv _ w e v = v

  on_enroll-Inv : (r : Reader) (w : World S) → w.reader ≡ r → Inv w → Inv (on_enroll r w)
  unfolding on_enroll register reject_task_assignment
  on_enroll-Inv (holding key) w e v =
      ground (arith, rejection-weight w.worker key "worker is shutting down")
  on_enroll-Inv _ w e v = v

  on_release-Inv :
      (i : ℕ) (key : Key) (p : Phase) (w : World S) → Inv w → Inv (on_release i key p w)
  unfolding on_release release_slot
  on_release-Inv i key unregistered w v = ground arith
  on_release-Inv i key _ w v = v

  on_free-Inv : (i : ℕ) (x : Run) (w : World S) → Inv w → Inv (on_free i x w)
  unfolding on_free release_slots cancel_standby
  on_free-Inv i x w v = ground arith

  module _ (dns : String → List String) where
    started-Same : (id : String) (w : Worker S) → Same (handle_prewarm_create dns id w).1 w
    started-Same id w =
        Calm-Same _ w (create-Calm dns id w) (Sends-Alike each _ w (create-Sends dns id w))

    step-Inv : (e : Event) (w : World S) → Inv w → Inv (step dns e w)
    unfolding step
    step-Inv (assign key) w v = when_idle_keeps Inv w.reader _ w v (λ i. assign-Inv key w i v)
    step-Inv acquire w v = on_acquire-Inv w.reader w refl v
    step-Inv enroll w v = on_enroll-Inv w.reader w refl v
    step-Inv claim w v = on_claim-Inv w.reader w refl v
    step-Inv (give_result i r) w v =
        with_exec_keeps Inv (on_result r i) (get_elem? w.execs i) w v
          (λ x _. on_result-Inv r i x.key x.phase w v)
    step-Inv (conclude_at i) w v =
        with_exec_keeps Inv (on_conclude i) (get_elem? w.execs i) w v
          (λ x _. on_conclude-Inv i x.key x.phase w v)
    step-Inv (unregister i) w v =
        with_exec_keeps Inv (on_unregister i) (get_elem? w.execs i) w v
          (λ x _. on_unregister-Inv i x.key x.phase w v)
    step-Inv (release i) w v =
        with_exec_keeps Inv (on_release i) (get_elem? w.execs i) w v
          (λ x _. on_release-Inv i x.key x.phase w v)
    step-Inv (depart i) w v =
        with_exec_keeps Inv (on_depart i) (get_elem? w.execs i) w v
          (λ x _. on_depart-Inv i x.key x.phase w v)
    step-Inv (cancel key) w v =
        when_idle_keeps Inv w.reader _ w v
          (λ _. Same-Inv w _ w.execs w.runs w.quiet (cancel-Same key w.worker) v)
    step-Inv (accept_cancellation key) w v = on_accept-Inv key w v
    step-Inv (create id) w v =
        when_idle_keeps Inv w.reader _ w v
          (λ _. Same-Inv w _ w.execs _ w.quiet (started-Same id w.worker) v)
    step-Inv (destroy id) w v = when_idle_keeps Inv w.reader _ w v (λ _.
        Same-Inv w _ w.execs w.runs w.quiet
          (Calm-Same _ w.worker (destroy-Calm id w.worker) (destroy-Alike each id w.worker)) v)
    step-Inv (stand_by_result i r) w v =
        with_run_keeps Inv (on_standby_result r i) (get_elem? w.runs i) w v
          (λ x _. on_standby_result-Inv r i x w v)
    step-Inv (free_standby i) w v =
        with_run_keeps Inv (on_free i) (get_elem? w.runs i) w v (λ x _. on_free-Inv i x w v)
    step-Inv (drop_standby i) w v =
        with_run_keeps Inv (on_drop i) (get_elem? w.runs i) w v (λ x _. on_drop-Inv i x w v)
    step-Inv (watched id code reason) w v =
        Same-Inv w _ w.execs w.runs w.quiet
          (Calm-Same _ w.worker (watched-Calm id code reason w.worker)
            (Sends-Alike each _ w.worker (watched-Sends id code reason w.worker)))
          v
    step-Inv stop_context w v = ground arith
    step-Inv shut_down w v = Same-Inv w _ w.execs w.runs w.quiet (shutdown-Same w.worker) v

    run-Inv : (es : List Event) (w : World S) → Inv w → Inv (run dns es w)
    unfolding run
    run-Inv [] w v = v
    run-Inv (e ∷ es) w v = run-Inv es (step dns e w) (step-Inv e w v)

    start-Inv : (c : Config) (w : Worker S) → c.one_shot ≡ true → new c ≡ some w → Inv (start w)
    unfolding new start
    start-Inv c w mode made = ground arith

    -- A worker made by `new` in one-shot mode claims at most one execution, whatever the events and
    -- their interleaving.
    pub one_shot_claims :
        (c : Config) (w : Worker S) (es : List Event)
        → c.one_shot ≡ true
        → new c ≡ some w
        → claims (run dns es (start w)) ≤ 1
    one_shot_claims c w es mode made =
        omega (arith, (run-Inv es (start w) (start-Inv c w mode made)).limit)
