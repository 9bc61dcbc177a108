-- ===== src/World/Ledger/Account.antt =====
-- Every event keeps the account, so it holds in every interleaving.
use oz_agent_worker.Prelude.{
  inl, inr, ℕ, ◌+◌, ◌≡◌, refl, true, some, List, [], ◌∷◌, String, get_elem?, weight,
  weight-remove_at, arith,
}
use oz_agent_worker.Worker.Assign.{admit, acquire_slot, register}
use oz_agent_worker.Worker.Cancel.{handle_task_cancellation, cancellation_accepted}
use oz_agent_worker.Worker.Execute.{
  ExecuteResult, conclude, cancellation_source, finish_execution, release_slot,
  signal_one_shot_complete,
}
use oz_agent_worker.Worker.Standby.{
  handle_prewarm_destroy, report_standby_exit, release_slots, cancel_standby, remove_standby,
}
use oz_agent_worker.Worker.Shutdown.{shutdown_tasks}
use oz_agent_worker.Worker.{
  Semaphore, Key, Message, task_claimed, task_rejected, task_completed, task_cancelled, task_failed,
  Worker, Config, new,
}
use oz_agent_worker.World.{
  Reader, admitted, holding, Exec, Phase, returned, leaving, unregistered, released, Run, World,
  on_acquire, on_enroll, on_conclude, on_unregister, on_release, on_depart, on_accept,
}
use oz_agent_worker.World.Events.{
  Event, assign, acquire, enroll, claim, give_result, conclude_at, unregister, release, depart,
  cancel, accept_cancellation, create, destroy, stand_by_result, free_standby, drop_standby,
  watched, stop_context, shut_down, on_standby_result, on_free, on_drop, step, run, start,
}
use oz_agent_worker.World.Lift.{with_exec_keeps, with_run_keeps, when_idle_keeps}
use oz_agent_worker.Worker.Standby.Outcome.{
  is_standby_message, Sends, watched-Sends, report-Sends, create-Sends,
}
use oz_agent_worker.World.Ledger.{
  of_key, claim_weight, terminal_weight, open_weight, Balanced, Alike, Alike-Balanced, admit-Alike,
  send-Alike, after_admit-Balanced, after_acquire-Balanced, after_register-Balanced,
  on_claim-Balanced, move-Balanced, on_result-Balanced, concluded-Balanced,
}

pub standby_message_neutral :
    (f : Key → ℕ) (m : Message)
    → is_standby_message m ≡ true
    → (claim_weight f m ≡ 0) × (terminal_weight f m ≡ 0)
standby_message_neutral f (task_claimed k) e = cc
standby_message_neutral f (task_rejected i r) e = cc
standby_message_neutral f (task_completed k) e = cc
standby_message_neutral f (task_cancelled k) e = cc
standby_message_neutral f (task_failed k r c t) e = cc
standby_message_neutral f _ e = (refl, refl)

module _ (f : Key → ℕ) {S : Type 0} where
  on_conclude-Balanced :
      (i : ℕ) (x : Exec) (p : Phase) (w : World S)
      → get_elem? w.execs i ≡ some x
      → x.phase ≡ p
      → Balanced f w
      → Balanced f (on_conclude i x.key p w)
  unfolding on_conclude
  on_conclude-Balanced i x (returned r s c first) w at e v =
      concluded-Balanced f i x (conclude s c first (cancellation_source x.key w.worker) r) w at
        (ground arith) v
  on_conclude-Balanced i x _ w at e v = v

  on_unregister-Balanced :
      (i : ℕ) (x : Exec) (p : Phase) (w : World S)
      → get_elem? w.execs i ≡ some x
      → x.phase ≡ p
      → Balanced f w
      → Balanced f (on_unregister i x.key p w)
  unfolding on_unregister finish_execution
  on_unregister-Balanced i x (leaving s) w at e v =
      move-Balanced f i x unregistered (record w { worker = finish_execution x.key s w.worker }) at
        (ground arith) (record { balance = v.balance })
  on_unregister-Balanced i x _ w at e v = v

  on_depart-Balanced :
      (i : ℕ) (x : Exec) (p : Phase) (w : World S)
      → get_elem? w.execs i ≡ some x
      → x.phase ≡ p
      → Balanced f w
      → Balanced f (on_depart i x.key p w)
  unfolding on_depart signal_one_shot_complete
  on_depart-Balanced i x released w at e v =
      ground (arith, weight-remove_at (open_weight f) w.execs i x at)
  on_depart-Balanced i x _ w at e v = v

  on_accept-Balanced : (key : Key) (w : World S) → Balanced f w → Balanced f (on_accept key w)
  unfolding on_accept cancellation_accepted
  on_accept-Balanced key w v = ground arith

  pub cancellation-Alike : (key : Key) (w : Worker S) → Alike f (handle_task_cancellation key w) w
  unfolding handle_task_cancellation
  cancellation-Alike key w = ground arith

  pub destroy-Alike : (id : String) (w : Worker S) → Alike f (handle_prewarm_destroy id w) w
  unfolding handle_prewarm_destroy
  destroy-Alike id w = ground arith

  pub Sends-Alike : (k w : Worker S) → Sends k w → Alike f k w
  Sends-Alike k w (inl e) = ground arith
  Sends-Alike k w (inr (m, s, e)) =
      let (p, q) = standby_message_neutral f m s in send-Alike f m w k p q e

  pub shutdown-Alike : (w : Worker S) → Alike f (shutdown_tasks w) w
  unfolding shutdown_tasks
  shutdown-Alike w = ground arith

module _ (f : Key → ℕ) {S : Type 0} ⦃sem : Semaphore S⦄ where
  pub acquire-Alike : (w : Worker S) → Alike f (acquire_slot w).1 w
  unfolding acquire_slot
  acquire-Alike w = ground arith

  pub register-Alike : (key : Key) (w : Worker S) → Alike f (register key w).1 w
  unfolding register
  register-Alike key w = ground arith

  on_standby_result-Balanced :
      (i : ℕ) (r : ExecuteResult) (x : Run) (w : World S)
      → Balanced f w
      → Balanced f (on_standby_result r i x w)
  unfolding on_standby_result
  on_standby_result-Balanced i r x w v = ground (
    arith,
    Sends-Alike f (report_standby_exit x.id r w.worker) w.worker (report-Sends x.id r w.worker),
  )

  on_free-Balanced : (i : ℕ) (x : Run) (w : World S) → Balanced f w → Balanced f (on_free i x w)
  unfolding on_free release_slots cancel_standby
  on_free-Balanced i x w v = ground arith

  on_drop-Balanced : (i : ℕ) (x : Run) (w : World S) → Balanced f w → Balanced f (on_drop i x w)
  unfolding on_drop remove_standby
  on_drop-Balanced i x w v = ground arith

  on_release-Balanced :
      (i : ℕ) (x : Exec) (p : Phase) (w : World S)
      → get_elem? w.execs i ≡ some x
      → x.phase ≡ p
      → Balanced f w
      → Balanced f (on_release i x.key p w)
  unfolding on_release release_slot
  on_release-Balanced i x unregistered w at e v =
      move-Balanced f i x released (record w { worker = release_slot w.worker }) at (ground arith)
        (record { balance = v.balance })
  on_release-Balanced i x _ w at e v = v

  module _ (dns : String → List String) where
    pub step-Balanced : (e : Event) (w : World S) → Balanced f w → Balanced f (step dns e w)
    unfolding step on_acquire on_enroll
    step-Balanced (assign key) w v =
        when_idle_keeps (Balanced f) w.reader _ w v
          (λ _. after_admit-Balanced f key (admit key w.worker) w (admit-Alike f key w.worker) v)
    step-Balanced acquire w v = at_reader w.reader
      where
        at_reader : (r : Reader) → Balanced f (on_acquire r w)
        at_reader (admitted key) =
            after_acquire-Balanced f key (acquire_slot w.worker) w (acquire-Alike w.worker) v
        at_reader _ = v
    step-Balanced enroll w v = at_reader w.reader
      where
        at_reader : (r : Reader) → Balanced f (on_enroll r w)
        at_reader (holding key) =
            after_register-Balanced f key (register key w.worker) w (register-Alike key w.worker) v
        at_reader _ = v
    step-Balanced claim w v = on_claim-Balanced f w.reader w v
    step-Balanced (give_result i r) w v =
        with_exec_keeps (Balanced f) _ _ w v
          (λ x at. on_result-Balanced f i r x x.phase w at refl v)
    step-Balanced (conclude_at i) w v =
        with_exec_keeps (Balanced f) _ _ w v
          (λ x at. on_conclude-Balanced f i x x.phase w at refl v)
    step-Balanced (unregister i) w v =
        with_exec_keeps (Balanced f) _ _ w v
          (λ x at. on_unregister-Balanced f i x x.phase w at refl v)
    step-Balanced (release i) w v =
        with_exec_keeps (Balanced f) _ _ w v (λ x at. on_release-Balanced i x x.phase w at refl v)
    step-Balanced (depart i) w v =
        with_exec_keeps (Balanced f) _ _ w v (λ x at. on_depart-Balanced f i x x.phase w at refl v)
    step-Balanced (cancel key) w v =
        when_idle_keeps (Balanced f) w.reader _ w v
          (λ _. Alike-Balanced f w _ w.reader w.runs (cancellation-Alike f key w.worker) v)
    step-Balanced (accept_cancellation key) w v = on_accept-Balanced f key w v
    step-Balanced (create id) w v = when_idle_keeps (Balanced f) w.reader _ w v (λ _.
        Alike-Balanced f w _ w.reader _ (Sends-Alike f _ w.worker (create-Sends dns id w.worker)) v)
    step-Balanced (destroy id) w v =
        when_idle_keeps (Balanced f) w.reader _ w v
          (λ _. Alike-Balanced f w _ w.reader w.runs (destroy-Alike f id w.worker) v)
    step-Balanced (stand_by_result i r) w v =
        with_run_keeps (Balanced f) (on_standby_result r i) (get_elem? w.runs i) w v
          (λ x at. on_standby_result-Balanced i r x w v)
    step-Balanced (free_standby i) w v =
        with_run_keeps (Balanced f) (on_free i) (get_elem? w.runs i) w v
          (λ x at. on_free-Balanced i x w v)
    step-Balanced (drop_standby i) w v =
        with_run_keeps (Balanced f) (on_drop i) (get_elem? w.runs i) w v
          (λ x at. on_drop-Balanced i x w v)
    step-Balanced (watched id code reason) w v =
        Alike-Balanced f w _ w.reader w.runs
          (Sends-Alike f _ w.worker (watched-Sends id code reason w.worker)) v
    step-Balanced stop_context w v = record { balance = v.balance }
    step-Balanced shut_down w v = Alike-Balanced f w _ w.reader w.runs (shutdown-Alike f w.worker) v

    run-Balanced : (es : List Event) (w : World S) → Balanced f w → Balanced f (run dns es w)
    unfolding run
    run-Balanced [] w v = v
    run-Balanced (e ∷ es) w v = run-Balanced es (step dns e w) (step-Balanced e w v)

    start-Balanced : (c : Config) (w : Worker S) → new c ≡ some w → Balanced f (start w)
    unfolding new start
    start-Balanced c w made = ground arith

module _ {S : Type 0} ⦃sem : Semaphore S⦄ (dns : String → List String) where
  -- After any events, in any interleaving, of a worker made by `new`, for every execution key: the
  -- claims sent for the key are as many as the executions of the key whose outcome is open, the
  -- terminal messages sent for the key (completed, cancelled or failed), and the executions of the
  -- key that were interrupted or dispatched, together.
  pub outcomes_balanced :
      (k : Key) (c : Config) (w : Worker S) (es : List Event)
      → new c ≡ some w
      → (let u = run dns es (start w) in
          weight (claim_weight (of_key k)) u.worker.sent
          ≡ weight (open_weight (of_key k)) u.execs
            + weight (terminal_weight (of_key k)) u.worker.sent
            + weight (of_key k) u.quiet)
  outcomes_balanced k c w es made =
      (run-Balanced (of_key k) dns es (start w) (start-Balanced (of_key k) dns c w made)).balance
