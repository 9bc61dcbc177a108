-- ===== src/World/Capacity/Tasks.antt =====
-- The reader's and the executions' steps keep the account of the semaphores.
use oz_agent_worker.Prelude.{
  ℕ, ◌+◌, ◌≡◌, refl, some, [], ◌∷◌, get_elem?, set, weight, weight-append, weight-set,
  weight-remove_at, arith, Option-cases, inl, inr,
}
use oz_agent_worker.Worker.Assign.{admit, acquire_slot, register}
use oz_agent_worker.Worker.Execute.{
  ExecuteResult, Conclusion, interrupted, conclude, is_interrupted, cancellation_source, announce,
  finish_execution, release_slot, signal_one_shot_complete,
}
use oz_agent_worker.Worker.{Semaphore, Key, task_slots, Worker, try_acquire_opt}
use oz_agent_worker.World.{
  Reader, idle, admitted, holding, registered, Exec, Phase, running, returned, leaving,
  unregistered, released, World, after_admit, on_acquire, on_enroll, on_claim, on_result,
  on_conclude, on_unregister, on_release, on_depart, move,
}
use oz_agent_worker.World.Capacity.{
  reader_holds, phase_holds, exec_holds, run_holds, Inv, acquire-Accounts, release-Accounts,
}

module _ {S : Type 0} ⦃sem : Semaphore S⦄ where
  admit_keeps :
      (key : Key) (w : Worker S)
      → ((admit key w).1.task_semaphore ≡ w.task_semaphore)
        × ((admit key w).1.standby_semaphore ≡ w.standby_semaphore)
  unfolding admit
  admit_keeps key w = ground arith

  pub after_admit-Inv :
      (t b : ℕ) (key : Key) (w : World S)
      → Inv t b w
      → w.reader ≡ idle
      → Inv t b (after_admit key (admit key w.worker) w)
  unfolding after_admit
  after_admit-Inv t b key w v i = ground (arith, admit_keeps key w.worker)

  pub on_acquire-Inv :
      (t b : ℕ) (r : Reader) (w : World S) → Inv t b w → w.reader ≡ r → Inv t b (on_acquire r w)
  unfolding on_acquire acquire_slot
  on_acquire-Inv t b idle w v i = v
  on_acquire-Inv t b (holding k) w v i = v
  on_acquire-Inv t b (registered k) w v i = v
  on_acquire-Inv t b (admitted k) w v i =
      elim (Option-cases (try_acquire_opt w.worker.task_semaphore)) [
        | inl full ↦ ground arith
        | inr (s, got) ↦ ground (
          arith,
          acquire-Accounts t (weight exec_holds w.execs + weight (run_holds task_slots) w.runs)
              w.worker.task_semaphore s got,
        )
      ]

  pub on_enroll-Inv :
      (t b : ℕ) (r : Reader) (w : World S) → Inv t b w → w.reader ≡ r → Inv t b (on_enroll r w)
  unfolding on_enroll register
  on_enroll-Inv t b idle w v i = v
  on_enroll-Inv t b (admitted k) w v i = v
  on_enroll-Inv t b (registered k) w v i = v
  on_enroll-Inv t b (holding k) w v i = ground (
    arith,
    release-Accounts t (weight exec_holds w.execs + weight (run_holds task_slots) w.runs)
        w.worker.task_semaphore,
  )

  pub on_claim-Inv :
      (t b : ℕ) (r : Reader) (w : World S) → Inv t b w → w.reader ≡ r → Inv t b (on_claim r w)
  unfolding on_claim
  on_claim-Inv t b idle w v i = v
  on_claim-Inv t b (admitted k) w v i = v
  on_claim-Inv t b (holding k) w v i = v
  on_claim-Inv t b (registered k) w v i =
      ground (arith, weight-append exec_holds w.execs (record { key = k; phase = running } ∷ []))

  pub announce_keeps :
      (key : Key) (c : Conclusion) (w : Worker S)
      → ((announce key c w).task_semaphore ≡ w.task_semaphore)
        × ((announce key c w).standby_semaphore ≡ w.standby_semaphore)
  unfolding announce
  announce_keeps key interrupted w = (refl, refl)
  announce_keeps key _ w = (refl, refl)

  -- A goroutine moves on and holds its unit as before.
  pub move-Inv :
      (t b i : ℕ) (x : Exec) (p : Phase) (w : World S)
      → get_elem? w.execs i ≡ some x
      → exec_holds x ≡ phase_holds p
      → Inv t b w
      → Inv t b (move i x.key p w)
  move-Inv t b i x p w at same v =
      ground (arith, weight-set exec_holds w.execs i x (record { key = x.key; phase = p }) at)

  pub on_result-Inv :
      (t b i : ℕ) (result : ExecuteResult) (x : Exec) (p : Phase) (w : World S)
      → get_elem? w.execs i ≡ some x
      → x.phase ≡ p
      → Inv t b w
      → Inv t b (on_result result i x.key p w)
  unfolding on_result
  on_result-Inv t b i result x running w at e v = move-Inv t b i x _ w at (ground arith) v
  on_result-Inv t b i result x _ w at e v = v

  pub on_conclude-Inv :
      (t b i : ℕ) (x : Exec) (p : Phase) (w : World S)
      → get_elem? w.execs i ≡ some x
      → x.phase ≡ p
      → Inv t b w
      → Inv t b (on_conclude i x.key p w)
  unfolding on_conclude
  on_conclude-Inv t b i x (returned r s c f) w at e v =
      let y : Exec = record {
        key = x.key;
        phase = leaving (is_interrupted (conclude s c f (cancellation_source x.key w.worker) r));
      } in
      ground (
        arith,
        weight-set exec_holds w.execs i x y at,
        announce_keeps x.key (conclude s c f (cancellation_source x.key w.worker) r) w.worker,
      )
  on_conclude-Inv t b i x _ w at e v = v

  pub on_unregister-Inv :
      (t b i : ℕ) (x : Exec) (p : Phase) (w : World S)
      → get_elem? w.execs i ≡ some x
      → x.phase ≡ p
      → Inv t b w
      → Inv t b (on_unregister i x.key p w)
  unfolding on_unregister finish_execution
  on_unregister-Inv t b i x (leaving s) w at e v =
      move-Inv t b i x unregistered _ at (ground arith)
        (record { task_units = v.task_units; standby_units = v.standby_units })
  on_unregister-Inv t b i x _ w at e v = v

  pub on_release-Inv :
      (t b i : ℕ) (x : Exec) (p : Phase) (w : World S)
      → get_elem? w.execs i ≡ some x
      → x.phase ≡ p
      → Inv t b w
      → Inv t b (on_release i x.key p w)
  unfolding on_release release_slot
  on_release-Inv t b i x unregistered w at e v =
      let y : Exec = record { key = x.key; phase = released } in
      ground (
        arith,
        weight-set exec_holds w.execs i x y at,
        release-Accounts t
            (reader_holds w.reader
              + weight exec_holds (set w.execs i y)
              + weight (run_holds task_slots) w.runs)
            w.worker.task_semaphore,
      )
  on_release-Inv t b i x _ w at e v = v

  pub on_depart-Inv :
      (t b i : ℕ) (x : Exec) (p : Phase) (w : World S)
      → get_elem? w.execs i ≡ some x
      → x.phase ≡ p
      → Inv t b w
      → Inv t b (on_depart i x.key p w)
  unfolding on_depart signal_one_shot_complete
  on_depart-Inv t b i x released w at e v =
      ground (arith, weight-remove_at exec_holds w.execs i x at)
  on_depart-Inv t b i x _ w at e v = v
