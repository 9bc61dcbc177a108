-- ===== src/World/Capacity.antt =====
-- The invariant on the two semaphores of internal/worker/worker.go against the goroutines that hold their units.
pub mod Tasks
pub mod Standbys
pub mod Bound
use oz_agent_worker.Prelude.{
  ℕ, suc, ◌+◌, ◌≤◌, ◌<◌, ◌≡◌, refl, Bool, true, false, Option, none, some, List, [], ◌∷◌, ◌++◌,
  String, get_elem?, set, remove_at, weight, weight-append, weight-set, weight-remove_at, arith,
  Option-cases, inl, inr,
}
use oz_agent_worker.Worker.Assign.{admit, acquire_slot, register}
use oz_agent_worker.Worker.Execute.{
  ExecuteResult, Conclusion, interrupted, cancelled, dispatched, succeeded, failed, conclude,
  is_interrupted, cancellation_source, announce, finish_execution, release_slot,
  signal_one_shot_complete,
}
use oz_agent_worker.Worker.Standby.{acquire_slots}
use oz_agent_worker.Worker.{
  Semaphore, Key, Slots, no_slots, task_slots, standby_slots, Worker, try_acquire_opt, release_opt,
}
use oz_agent_worker.World.{
  Reader, idle, admitted, holding, registered, Exec, Phase, running, returned, leaving,
  unregistered, released, RunPhase, waiting, reported, freed, Run, World, after_admit, on_acquire,
  on_enroll, on_claim, with_exec, on_result, on_conclude, on_unregister, on_release, on_depart,
  on_accept, move,
}
use oz_agent_worker.World.Events.{Event, step, run, start}

abbrev pub reader_holds : Reader → ℕ
reader_holds idle = 0
reader_holds (admitted key) = 0
reader_holds (holding key) = 1
reader_holds (registered key) = 1

abbrev pub phase_holds : Phase → ℕ
phase_holds released = 0
phase_holds running = 1
phase_holds (returned r s c f) = 1
phase_holds (leaving s) = 1
phase_holds unregistered = 1

abbrev pub exec_holds : Exec → ℕ
exec_holds x = phase_holds x.phase

abbrev pub slots_held : RunPhase → Slots → Slots → ℕ
slots_held freed s t = 0
slots_held waiting task_slots task_slots = 1
slots_held waiting standby_slots standby_slots = 1
slots_held waiting _ _ = 0
slots_held reported task_slots task_slots = 1
slots_held reported standby_slots standby_slots = 1
slots_held reported _ _ = 0

-- The units of the semaphore `s` that the goroutine of a standby holds.
abbrev pub run_holds : Slots → Run → ℕ
run_holds s x = slots_held x.phase s x.slots

module _ {S : Type 0} ⦃sem : Semaphore S⦄ where
  -- A semaphore of `cap` units, `n` of them held; none exists where `cap` is 0.
  abbrev pub Accounts : ℕ → Option S → ℕ → Type 0
  Accounts cap none n = cap ≡ 0
  Accounts cap (some s) n = (sem.held s ≡ n) × (sem.held s ≤ sem.size s) × (sem.size s ≡ cap)

  -- Each unit of either semaphore is held by a goroutine, and by one only.
  pub record Inv (tasks standbys : ℕ) (w : World S) : Type 0 where
    pub task_units :
        Accounts tasks w.worker.task_semaphore
          (reader_holds w.reader + weight exec_holds w.execs + weight (run_holds task_slots) w.runs)
    pub standby_units :
        Accounts standbys w.worker.standby_semaphore (weight (run_holds standby_slots) w.runs)

  pub acquire-Accounts :
      (cap n : ℕ) (o p : Option S)
      → try_acquire_opt o ≡ some p
      → Accounts cap o n
      → Accounts cap p (suc n)
  acquire-Accounts cap n none p e a = ground arith
  acquire-Accounts cap n (some s) p e a = elim (Option-cases (sem.try_acquire s)) [
    | inl full ↦ ground arith
    | inr (t, got) ↦
        ground (arith, sem.acquire_held s t got, sem.acquire_size s t got, sem.acquire_fits s t got)
  ]

  pub release-Accounts :
      (cap n : ℕ) (o : Option S) → Accounts cap o (suc n) → Accounts cap (release_opt o) n
  release-Accounts cap n none a = a
  release-Accounts cap n (some s) a = omega (arith, sem.release_held s, sem.release_size s)

  pub Same-Inv :
      (t b : ℕ) (w : World S) (k : Worker S)
      → k.task_semaphore ≡ w.worker.task_semaphore
      → k.standby_semaphore ≡ w.worker.standby_semaphore
      → Inv t b w
      → Inv t b (record w { worker = k })
  Same-Inv t b w k p q v = record {
    task_units = rw p v.task_units;
    standby_units = rw q v.standby_units;
  }
