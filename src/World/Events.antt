-- ===== src/World/Events.antt =====
-- The events of the worker's goroutines and what they do; a list of events is an interleaving. An
-- event whose goroutine is elsewhere changes nothing.
use oz_agent_worker.Prelude.{
  ℕ, true, Option, none, some, List, [], ◌∷◌, ◌++◌, String, get_elem?, set, remove_at,
}
use oz_agent_worker.Worker.Assign.{admit}
use oz_agent_worker.Worker.Execute.{ExecuteResult}
use oz_agent_worker.Worker.Cancel.{handle_task_cancellation}
use oz_agent_worker.Worker.Standby.{
  handle_prewarm_create, handle_prewarm_destroy, report_watched_standby_exit, report_standby_exit,
  cancel_standby, release_slots, remove_standby,
}
use oz_agent_worker.Worker.Shutdown.{shutdown_tasks}
use oz_agent_worker.Worker.{Semaphore, Key, Slots, Worker}
use oz_agent_worker.World.{
  Reader, idle, admitted, holding, registered, RunPhase, waiting, reported, freed, Run, World,
  after_admit, on_acquire, on_enroll, on_claim, with_exec, on_result, on_conclude, on_unregister,
  on_release, on_depart, on_accept,
}

pub data Event : Type 0 where
  assign : Key → Event
  acquire enroll claim : Event
  give_result : ℕ → ExecuteResult → Event
  conclude_at unregister release depart : ℕ → Event
  cancel accept_cancellation : Key → Event
  create destroy : String → Event
  stand_by_result : ℕ → ExecuteResult → Event
  free_standby drop_standby : ℕ → Event
  watched : String → ℕ → String → Event
  stop_context shut_down : Event

abbrev pub new_runs : String → Option Slots → List Run
new_runs id none = []
new_runs id (some slots) = record { id = id; slots = slots; phase = waiting } ∷ []

module _ {S : Type 0} where
  abbrev pub with_run : (Run → World S → World S) → Option Run → World S → World S
  with_run f none w = w
  with_run f (some x) w = f x w

  abbrev pub move_run : ℕ → Run → RunPhase → World S → World S
  move_run i x phase w = record w { runs = set w.runs i (record x { phase = phase }) }

  on_standby_result_at : RunPhase → ExecuteResult → ℕ → Run → World S → World S
  on_standby_result_at waiting result i x w =
      move_run i x reported (record w { worker = report_standby_exit x.id result w.worker })
  on_standby_result_at reported result i x w = w
  on_standby_result_at freed result i x w = w

  unfoldable pub on_standby_result : ExecuteResult → ℕ → Run → World S → World S
  unfolding on_standby_result_at
  on_standby_result result i x w = on_standby_result_at x.phase result i x w

  on_drop_at : RunPhase → ℕ → Run → World S → World S
  on_drop_at freed i x w = record w {
    worker = remove_standby x.id w.worker;
    runs = remove_at w.runs i;
  }
  on_drop_at waiting i x w = w
  on_drop_at reported i x w = w

  unfoldable pub on_drop : ℕ → Run → World S → World S
  unfolding on_drop_at
  on_drop i x w = on_drop_at x.phase i x w

  abbrev pub started : String → Option Slots × Worker S → World S → World S
  started id (slots, w') w = record w { worker = w'; runs = w.runs ++ new_runs id slots }

  -- A message for the reader waits until the reader is back.
  abbrev pub when_idle : Reader → (World S → World S) → World S → World S
  when_idle idle f w = f w
  when_idle (admitted key) f w = w
  when_idle (holding key) f w = w
  when_idle (registered key) f w = w

module _ {S : Type 0} ⦃sem : Semaphore S⦄ where
  on_free_at : RunPhase → ℕ → Run → World S → World S
  on_free_at reported i x w =
      move_run i x freed
        (record w { worker = release_slots x.slots (cancel_standby x.id w.worker) })
  on_free_at waiting i x w = w
  on_free_at freed i x w = w

  unfoldable pub on_free : ℕ → Run → World S → World S
  unfolding on_free_at
  on_free i x w = on_free_at x.phase i x w

  unfoldable pub start : Worker S → World S
  start worker = record { worker = worker; reader = idle; execs = []; runs = []; quiet = [] }

  module _ (is_dns1123_label : String → List String) where
    unfoldable pub step : Event → World S → World S
    step (assign key) w = when_idle w.reader (after_admit key (admit key w.worker)) w
    step acquire w = on_acquire w.reader w
    step enroll w = on_enroll w.reader w
    step claim w = on_claim w.reader w
    step (give_result i result) w = with_exec (on_result result i) (get_elem? w.execs i) w
    step (conclude_at i) w = with_exec (on_conclude i) (get_elem? w.execs i) w
    step (unregister i) w = with_exec (on_unregister i) (get_elem? w.execs i) w
    step (release i) w = with_exec (on_release i) (get_elem? w.execs i) w
    step (depart i) w = with_exec (on_depart i) (get_elem? w.execs i) w
    step (cancel key) w =
        when_idle w.reader (λ u. record u { worker = handle_task_cancellation key u.worker }) w
    step (accept_cancellation key) w = on_accept key w
    step (create id) w =
        when_idle w.reader (started id (handle_prewarm_create is_dns1123_label id w.worker)) w
    step (destroy id) w =
        when_idle w.reader (λ u. record u { worker = handle_prewarm_destroy id u.worker }) w
    step (stand_by_result i result) w = with_run (on_standby_result result i) (get_elem? w.runs i) w
    step (free_standby i) w = with_run (on_free i) (get_elem? w.runs i) w
    step (drop_standby i) w = with_run (on_drop i) (get_elem? w.runs i) w
    step (watched id code reason) w = record w {
      worker = report_watched_standby_exit id code reason w.worker;
    }
    step stop_context w = record w { worker = record (w.worker) { ctx_done = true } }
    step shut_down w = record w { worker = shutdown_tasks w.worker }

    unfoldable pub run : List Event → World S → World S
    run [] w = w
    run (e ∷ es) w = run es (step e w)
