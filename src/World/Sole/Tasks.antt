-- ===== src/World/Sole/Tasks.antt =====
-- Each step of the reader and of an execution keeps an execution the only live one of its key.
use oz_agent_worker.Prelude.{
  ℕ, ◌≡◌, refl, some, List, [], ◌∷◌, get_elem?, weight-append, weight-set, weight-remove_at, arith,
}
use oz_agent_worker.Assoc.{lookup, lookup-insert, lookup-delete}
use oz_agent_worker.Worker.Assign.{
  Verdict, proceed, duplicate, rejected, admit, acquire_slot, register, reject_task_assignment,
  new_active_task,
}
use oz_agent_worker.Worker.Cancel.{cancellation_accepted}
use oz_agent_worker.Worker.Cancel.Entries.{Keeps}
use oz_agent_worker.Worker.Execute.{
  ExecuteResult, Conclusion, dispatched, conclude, is_interrupted, cancellation_source, announce,
  finish_execution, signal_one_shot_complete, release_slot,
}
use oz_agent_worker.Worker.Shutdown.{shutdown_tasks}
use oz_agent_worker.Worker.{
  Key, key_eq, key_beq_iff, Worker, Semaphore, preserves_tasks_on_shutdown,
}
use oz_agent_worker.World.{
  Reader, idle, admitted, holding, registered, Exec, Phase, running, returned, leaving,
  unregistered, released, World, Run, after_admit, on_acquire, on_enroll, on_claim, on_result,
  on_conclude, on_unregister, on_release, on_depart, on_accept, move, quiet_after,
}
use oz_agent_worker.World.Sole.{
  live_phase, live_at, Inv, spawned-Keeps, close_entry_other, stop-Keeps,
}

module _ {S : Type 0} (key : Key) where
  -- The goroutines of tasks stand where they stood.
  pub keep-Inv :
      (w : World S) (k : Worker S) (rs : List Run)
      → Keeps key w.worker.active k.active
      → Inv key w
      → Inv key (record w { worker = k; runs = rs })
  keep-Inv w k rs h v = record { sole = v.sole; entered = λ p. h.kept (v.entered p) }

  move-Inv :
      (i : ℕ) (x : Exec) (p : Phase) (w : World S)
      → get_elem? w.execs i ≡ some x
      → live_phase x.phase ≡ live_phase p
      → Inv key w
      → Inv key (move i x.key p w)
  move-Inv i x p w at same v =
      ground (arith, weight-set (live_at key) w.execs i x (record { key = x.key; phase = p }) at)

  pub on_result-Inv :
      (i : ℕ) (r : ExecuteResult) (x : Exec) (p : Phase) (w : World S)
      → get_elem? w.execs i ≡ some x
      → x.phase ≡ p
      → Inv key w
      → Inv key (on_result r i x.key p w)
  unfolding on_result
  on_result-Inv i r x running w at e v = move-Inv i x _ w at (ground arith) v
  on_result-Inv i r x _ w at e v = v

  announce-Keeps :
      (k : Key) (c : Conclusion) (w : Worker S) → Keeps key w.active (announce k c w).active
  unfolding announce
  announce-Keeps k dispatched w = spawned-Keeps key k (lookup k w.active) w.active refl
  announce-Keeps k _ w = ground arith

  pub on_conclude-Inv :
      (i : ℕ) (x : Exec) (p : Phase) (w : World S)
      → get_elem? w.execs i ≡ some x
      → x.phase ≡ p
      → Inv key w
      → Inv key (on_conclude i x.key p w)
  unfolding on_conclude
  on_conclude-Inv i x (returned r s c f) w at e v =
      let k = conclude s c f (cancellation_source x.key w.worker) r in
      move-Inv i x (leaving (is_interrupted k))
        (record w { worker = announce x.key k w.worker; quiet = quiet_after x.key k w.quiet }) at
        (ground arith)
        (record {
          sole = v.sole;
          entered = λ p. (announce-Keeps x.key k w.worker).kept (v.entered p);
        })
  on_conclude-Inv i x _ w at e v = v

  pub on_unregister-Inv :
      (i : ℕ) (x : Exec) (p : Phase) (w : World S)
      → get_elem? w.execs i ≡ some x
      → x.phase ≡ p
      → Inv key w
      → Inv key (on_unregister i x.key p w)
  unfolding on_unregister finish_execution
  on_unregister-Inv i x (leaving s) w at e v = ground (
    arith,
    weight-set (live_at key) w.execs i x (record { key = x.key; phase = unregistered }) at,
    close_entry_other key x.key s (lookup x.key w.worker.active) w.worker.active,
  )
  on_unregister-Inv i x _ w at e v = v

  pub on_depart-Inv :
      (i : ℕ) (x : Exec) (p : Phase) (w : World S)
      → get_elem? w.execs i ≡ some x
      → x.phase ≡ p
      → Inv key w
      → Inv key (on_depart i x.key p w)
  unfolding on_depart signal_one_shot_complete
  on_depart-Inv i x released w at e v =
      ground (arith, weight-remove_at (live_at key) w.execs i x at)
  on_depart-Inv i x _ w at e v = v

  pub on_accept-Inv : (k : Key) (w : World S) → Inv key w → Inv key (on_accept k w)
  unfolding on_accept cancellation_accepted
  on_accept-Inv k w v = ground (arith, key_beq_iff k key, lookup-delete k key w.worker.active)

  pub shutdown-Keeps : (w : Worker S) → Keeps key w.active (shutdown_tasks w).active
  unfolding shutdown_tasks
  shutdown-Keeps w =
      ground (arith, stop-Keeps key (preserves_tasks_on_shutdown w.config.backend) w.active)

  pub after_admit-Inv :
      (k : Key) (r : Verdict × Worker S) (w : World S)
      → w.reader ≡ idle
      → Keeps key w.worker.active r.1.active
      → Inv key w
      → Inv key (after_admit k r w)
  unfolding after_admit reject_task_assignment
  after_admit-Inv k (proceed, l) w i h v = ground arith
  after_admit-Inv k (duplicate, l) w i h v = ground arith
  after_admit-Inv k (rejected r, l) w i h v = ground arith

  pub admit-Keeps : (k : Key) (w : Worker S) → Keeps key w.active (admit k w).1.active
  unfolding admit
  admit-Keeps k w = ground arith

  pub on_claim-Inv : (r : Reader) (w : World S) → w.reader ≡ r → Inv key w → Inv key (on_claim r w)
  unfolding on_claim
  on_claim-Inv (registered k) w e v =
      ground (arith, weight-append (live_at key) w.execs (record { key = k; phase = running } ∷ []))
  on_claim-Inv _ w e v = v

module _ {S : Type 0} ⦃sem : Semaphore S⦄ (key : Key) where
  pub on_acquire-Inv :
      (r : Reader) (w : World S) → w.reader ≡ r → Inv key w → Inv key (on_acquire r w)
  unfolding on_acquire acquire_slot reject_task_assignment
  on_acquire-Inv (admitted k) w e v = ground arith
  on_acquire-Inv _ w e v = v

  pub on_enroll-Inv :
      (r : Reader) (w : World S) → w.reader ≡ r → Inv key w → Inv key (on_enroll r w)
  unfolding on_enroll register reject_task_assignment
  on_enroll-Inv (holding k) w e v =
      ground (arith, key_beq_iff k key, lookup-insert k key new_active_task w.worker.active)
  on_enroll-Inv _ w e v = v

  pub on_release-Inv :
      (i : ℕ) (x : Exec) (p : Phase) (w : World S)
      → get_elem? w.execs i ≡ some x
      → x.phase ≡ p
      → Inv key w
      → Inv key (on_release i x.key p w)
  unfolding on_release release_slot
  on_release-Inv i x unregistered w at e v =
      ground
        (arith, weight-set (live_at key) w.execs i x (record { key = x.key; phase = released }) at)
  on_release-Inv i x _ w at e v = v
