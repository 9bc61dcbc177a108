-- ===== src/World/Sole/Everywhere.antt =====
-- No key has two live executions, in any interleaving.
use oz_agent_worker.Prelude.{
  ℕ, ◌≤◌, ◌<◌, ◌≡◌, refl, true, some, List, [], ◌∷◌, String, get_elem?, arith,
}
use oz_agent_worker.Assoc.{lookup}
use oz_agent_worker.Worker.Assign.{admit}
use oz_agent_worker.Worker.Cancel.Entries.{is_open, Keeps, cancellation-Keeps}
use oz_agent_worker.Worker.Execute.{ExecuteResult}
use oz_agent_worker.Worker.{Key, key_eq, Worker, Semaphore}
use oz_agent_worker.World.{World, Run, on_result, on_conclude, on_unregister, on_release, on_depart}
use oz_agent_worker.World.Events.{
  Event, assign, acquire, enroll, claim, give_result, conclude_at, unregister, release, depart,
  cancel, accept_cancellation, create, destroy, stand_by_result, free_standby, drop_standby,
  watched, stop_context, shut_down, step, run, start,
}
use oz_agent_worker.World.Events.{on_standby_result, on_free, on_drop}
use oz_agent_worker.World.Lift.{with_exec_keeps, with_run_keeps, when_idle_keeps}
use oz_agent_worker.Worker.Standby.Calm.{
  Calm, watched-Calm, report-Calm, destroy-Calm, remove-Calm, free-Calm, create-Calm,
}
use oz_agent_worker.Worker.{Config, new}
use oz_agent_worker.World.Sole.Tasks
use oz_agent_worker.World.Sole.{live_count, Inv}

Calm-Keeps : {S : Type 0} (key : Key) (k w : Worker S) → Calm k w → Keeps key w.active k.active
Calm-Keeps key k w c = ground arith

module _ {S : Type 0} (key : Key) where
  on_standby_result-Inv :
      (r : ExecuteResult) (i : ℕ) (x : Run) (w : World S)
      → Inv key w
      → Inv key (on_standby_result r i x w)
  unfolding on_standby_result
  on_standby_result-Inv r i x w v = ground (arith, report-Calm x.id r w.worker)

  on_drop-Inv : (i : ℕ) (x : Run) (w : World S) → Inv key w → Inv key (on_drop i x w)
  unfolding on_drop
  on_drop-Inv i x w v = ground (arith, remove-Calm x.id w.worker)

module _ {S : Type 0} ⦃sem : Semaphore S⦄ (key : Key) (dns : String → List String) where
  on_free-Inv : (i : ℕ) (x : Run) (w : World S) → Inv key w → Inv key (on_free i x w)
  unfolding on_free
  on_free-Inv i x w v = ground (arith, free-Calm x.id x.slots w.worker)

  step-Inv : (e : Event) (w : World S) → Inv key w → Inv key (step dns e w)
  unfolding step
  step-Inv (assign k) w v =
      when_idle_keeps (Inv key) w.reader _ w v (λ i.
        Tasks.after_admit-Inv key k (admit k w.worker) w i (Tasks.admit-Keeps key k w.worker) v)
  step-Inv acquire w v = Tasks.on_acquire-Inv key w.reader w refl v
  step-Inv enroll w v = Tasks.on_enroll-Inv key w.reader w refl v
  step-Inv claim w v = Tasks.on_claim-Inv key w.reader w refl v
  step-Inv (give_result i r) w v =
      with_exec_keeps (Inv key) (on_result r i) (get_elem? w.execs i) w v
        (λ x at. Tasks.on_result-Inv key i r x x.phase w at refl v)
  step-Inv (conclude_at i) w v =
      with_exec_keeps (Inv key) (on_conclude i) (get_elem? w.execs i) w v
        (λ x at. Tasks.on_conclude-Inv key i x x.phase w at refl v)
  step-Inv (unregister i) w v =
      with_exec_keeps (Inv key) (on_unregister i) (get_elem? w.execs i) w v
        (λ x at. Tasks.on_unregister-Inv key i x x.phase w at refl v)
  step-Inv (release i) w v =
      with_exec_keeps (Inv key) (on_release i) (get_elem? w.execs i) w v
        (λ x at. Tasks.on_release-Inv key i x x.phase w at refl v)
  step-Inv (depart i) w v =
      with_exec_keeps (Inv key) (on_depart i) (get_elem? w.execs i) w v
        (λ x at. Tasks.on_depart-Inv key i x x.phase w at refl v)
  step-Inv (cancel k) w v =
      when_idle_keeps (Inv key) w.reader _ w v
        (λ _. Tasks.keep-Inv key w _ w.runs (cancellation-Keeps key k w.worker) v)
  step-Inv (accept_cancellation k) w v = Tasks.on_accept-Inv key k w v
  step-Inv (create id) w v =
      when_idle_keeps (Inv key) w.reader _ w v
        (λ _. Tasks.keep-Inv key w _ _ (Calm-Keeps key _ w.worker (create-Calm dns id w.worker)) v)
  step-Inv (destroy id) w v =
      when_idle_keeps (Inv key) w.reader _ w v (λ _.
        Tasks.keep-Inv key w _ w.runs (Calm-Keeps key _ w.worker (destroy-Calm id w.worker)) v)
  step-Inv (stand_by_result i r) w v =
      with_run_keeps (Inv key) (on_standby_result r i) (get_elem? w.runs i) w v
        (λ x _. on_standby_result-Inv key r i x w v)
  step-Inv (free_standby i) w v =
      with_run_keeps (Inv key) (on_free i) (get_elem? w.runs i) w v (λ x _. on_free-Inv i x w v)
  step-Inv (drop_standby i) w v =
      with_run_keeps (Inv key) (on_drop i) (get_elem? w.runs i) w v (λ x _. on_drop-Inv key i x w v)
  step-Inv (watched id code reason) w v =
      Tasks.keep-Inv key w _ w.runs
        (Calm-Keeps key _ w.worker (watched-Calm id code reason w.worker)) v
  step-Inv stop_context w v = record { sole = v.sole; entered = v.entered }
  step-Inv shut_down w v = Tasks.keep-Inv key w _ w.runs (Tasks.shutdown-Keeps key w.worker) v

  run-Inv : (es : List Event) (w : World S) → Inv key w → Inv key (run dns es w)
  unfolding run
  run-Inv [] w v = v
  run-Inv (e ∷ es) w v = run-Inv es (step dns e w) (step-Inv e w v)

  -- In every state that a worker made by `new` reaches, under any events and interleaving, at most
  -- one execution of a key is live, from its registration to its deferred bookkeeping, and while
  -- one is, activeTasks has an entry for the key whose `done` channel is open.
  pub executions_sole :
      (c : Config) (w : Worker S) (es : List Event)
      → new c ≡ some w
      → (live_count key (run dns es (start w)) ≤ 1)
        × (0 < live_count key (run dns es (start w))
            → is_open (lookup key (run dns es (start w)).worker.active) ≡ true)
  unfolding start
  executions_sole c w es made =
      let v =
        run-Inv es (start w) (record { sole = omega arith; entered = λ p. absurd (omega arith) }) in
      (v.sole, v.entered)
