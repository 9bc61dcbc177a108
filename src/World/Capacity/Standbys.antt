-- ===== src/World/Capacity/Standbys.antt =====
-- The standbys' steps keep the account of the semaphores.
use oz_agent_worker.Prelude.{
  ℕ, ◌+◌, ◌≡◌, Option, none, some, List, [], ◌∷◌, ◌++◌, String, get_elem?, set, weight,
  weight-append, weight-set, weight-remove_at, append-nil, arith, Option-cases, inl, inr,
}
use oz_agent_worker.Worker.Execute.{ExecuteResult}
use oz_agent_worker.Worker.Standby.Outcome.{Outcome}
use oz_agent_worker.Worker.Standby.{
  acquire_slots, report_standby_exit, release_slots, cancel_standby, remove_standby,
}
use oz_agent_worker.Worker.{
  Semaphore, Slots, no_slots, task_slots, standby_slots, Worker, try_acquire_opt,
}
use oz_agent_worker.World.{RunPhase, waiting, reported, freed, Run, World}
use oz_agent_worker.World.Events.{move_run, started, on_standby_result, on_free, on_drop}
use oz_agent_worker.World.Capacity.{
  reader_holds, exec_holds, run_holds, slots_held, Inv, acquire-Accounts, release-Accounts,
  Same-Inv,
}

module _ {S : Type 0} ⦃sem : Semaphore S⦄ where
  acquire_slots-Inv :
      (t b : ℕ) (id : String) (s : Slots) (w : World S) (k : Worker S)
      → acquire_slots s w.worker ≡ some k
      → Inv t b w
      → Inv t b (record w {
        worker = k;
        runs = w.runs ++ record { id = id; slots = s; phase = waiting } ∷ [];
      })
  unfolding acquire_slots
  acquire_slots-Inv t b id no_slots w k e v =
      let new : List Run = record { id = id; slots = no_slots; phase = waiting } ∷ [] in
      ground (
        arith,
        weight-append (run_holds task_slots) w.runs new,
        weight-append (run_holds standby_slots) w.runs new,
      )
  acquire_slots-Inv t b id task_slots w k e v =
      elim (Option-cases (try_acquire_opt w.worker.task_semaphore)) [
        | inl full ↦ ground arith
        | inr (o, got) ↦
            let new : List Run = record { id = id; slots = task_slots; phase = waiting } ∷ [] in
            ground (
              arith,
              weight-append (run_holds task_slots) w.runs new,
              weight-append (run_holds standby_slots) w.runs new,
              acquire-Accounts t
                  (reader_holds w.reader
                    + weight exec_holds w.execs
                    + weight (run_holds task_slots) w.runs)
                  w.worker.task_semaphore o got,
            )
      ]
  acquire_slots-Inv t b id standby_slots w k e v =
      elim (Option-cases (try_acquire_opt w.worker.standby_semaphore)) [
        | inl full ↦ ground arith
        | inr (o, got) ↦
            let new : List Run = record { id = id; slots = standby_slots; phase = waiting } ∷ [] in
            ground (
              arith,
              weight-append (run_holds task_slots) w.runs new,
              weight-append (run_holds standby_slots) w.runs new,
              acquire-Accounts b (weight (run_holds standby_slots) w.runs)
                  w.worker.standby_semaphore o got,
            )
      ]

  pub started-Inv :
      (t b : ℕ) (id : String) (r : Option Slots × Worker S) (w : World S)
      → Outcome w.worker r
      → Inv t b w
      → Inv t b (started id r w)
  started-Inv t b id (none, k) w (p, q) v = rw (append-nil w.runs) (Same-Inv t b w k p q v)
  started-Inv t b id (some a, k) w (l, got, p, q) v =
      Same-Inv t b _ k p q (acquire_slots-Inv t b id a w l got v)

  move_run-Inv :
      (t b i : ℕ) (x : Run) (p : RunPhase) (w : World S)
      → get_elem? w.runs i ≡ some x
      → run_holds task_slots x ≡ slots_held p task_slots x.slots
      → run_holds standby_slots x ≡ slots_held p standby_slots x.slots
      → Inv t b w
      → Inv t b (move_run i x p w)
  move_run-Inv t b i x p w at h k v =
      let y : Run = record x { phase = p } in
      ground (
        arith,
        weight-set (run_holds task_slots) w.runs i x y at,
        weight-set (run_holds standby_slots) w.runs i x y at,
      )

  report_keeps :
      (id : String) (r : ExecuteResult) (w : Worker S)
      → ((report_standby_exit id r w).task_semaphore ≡ w.task_semaphore)
        × ((report_standby_exit id r w).standby_semaphore ≡ w.standby_semaphore)
  unfolding report_standby_exit
  report_keeps id r w = ground arith

  pub on_standby_result-Inv :
      (t b i : ℕ) (result : ExecuteResult) (x : Run) (w : World S)
      → get_elem? w.runs i ≡ some x
      → Inv t b w
      → Inv t b (on_standby_result result i x w)
  unfolding on_standby_result
  on_standby_result-Inv t b i result x w at v =
      let y : Run = record x { phase = reported } in
      ground (
        arith,
        weight-set (run_holds task_slots) w.runs i x y at,
        weight-set (run_holds standby_slots) w.runs i x y at,
        report_keeps x.id result w.worker,
      )

  pub on_free-Inv :
      (t b i : ℕ) (x : Run) (w : World S)
      → get_elem? w.runs i ≡ some x
      → Inv t b w
      → Inv t b (on_free i x w)
  unfolding on_free release_slots cancel_standby
  on_free-Inv t b i x w at v =
      let y : Run = record x { phase = freed } in
      ground (
        arith,
        weight-set (run_holds task_slots) w.runs i x y at,
        weight-set (run_holds standby_slots) w.runs i x y at,
        release-Accounts t
            (reader_holds w.reader
              + weight exec_holds w.execs
              + weight (run_holds task_slots) (set w.runs i y))
            w.worker.task_semaphore,
        release-Accounts b (weight (run_holds standby_slots) (set w.runs i y))
            w.worker.standby_semaphore,
      )

  pub on_drop-Inv :
      (t b i : ℕ) (x : Run) (w : World S)
      → get_elem? w.runs i ≡ some x
      → Inv t b w
      → Inv t b (on_drop i x w)
  unfolding on_drop remove_standby
  on_drop-Inv t b i x w at v = ground (
    arith,
    weight-remove_at (run_holds task_slots) w.runs i x at,
    weight-remove_at (run_holds standby_slots) w.runs i x at,
  )
