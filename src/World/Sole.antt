-- ===== src/World/Sole.antt =====
-- No execution runs twice at once: activeTasks of internal/worker/worker.go against the goroutines.
pub mod Tasks
pub mod Everywhere
use oz_agent_worker.Prelude.{
  ℕ, suc, ◌+◌, ◌≤◌, ◌<◌, ◌≡◌, refl, ◌⊎◌, inl, inr, Bool, true, false, if◌then◌else◌, not, ◌&&◌,
  ◌||◌, Option, none, some, List, [], ◌∷◌, ◌++◌, String, get_elem?, set, remove_at, weight,
  weight-append, weight-set, weight-remove_at, Eq, is_some, arith,
}
use oz_agent_worker.Assoc.{Map, lookup, insert, delete, lookup-insert, lookup-delete}
use oz_agent_worker.Worker.Assign.{
  Verdict, proceed, duplicate, rejected, admit, acquire_slot, register, reject_task_assignment,
  is_duplicate, new_active_task,
}
use oz_agent_worker.Worker.Cancel.{cancellation_accepted}
use oz_agent_worker.Worker.Cancel.Entries.{is_open, Keeps, cancellation-Keeps}
use oz_agent_worker.Worker.Execute.{
  ExecuteResult, Conclusion, interrupted, cancelled, dispatched, succeeded, failed, conclude,
  is_interrupted, cancellation_source, announce, finish_execution, mark_spawned, close_entry,
  signal_one_shot_complete, release_slot,
}
use oz_agent_worker.Worker.Shutdown.{shutdown_tasks, map_values, stop_task}
use oz_agent_worker.Worker.{
  Key, key_eq, key_beq, key_beq_iff, ActiveTask, Worker, Semaphore, preserves_tasks_on_shutdown,
}
use oz_agent_worker.World.{
  Reader, idle, admitted, holding, registered, Exec, Phase, running, returned, leaving,
  unregistered, released, World, Run, after_admit, after_acquire, after_register, on_acquire,
  on_enroll, on_claim, on_result, on_conclude, on_unregister, on_release, on_depart, on_accept,
  concluded, move, quiet_after,
}

abbrev pub one_if : Bool → ℕ
one_if true = 1
one_if false = 0

-- From its registration to its deferred bookkeeping an execution is live.
abbrev pub live_phase : Phase → Bool
live_phase running = true
live_phase (returned r s c f) = true
live_phase (leaving s) = true
live_phase unregistered = false
live_phase released = false

abbrev pub live_at : Key → Exec → ℕ
live_at key x = one_if (live_phase x.phase && key_beq x.key key)

abbrev pub reader_at : Key → Reader → ℕ
reader_at key (registered k) = one_if (key_beq k key)
reader_at key _ = 0

-- The live executions of a key, the one that is about to be claimed included.
abbrev pub live_count : {S : Type 0} → Key → World S → ℕ
live_count key w = reader_at key w.reader + weight (live_at key) w.execs

-- At most one execution of the key is live, and while one is, its entry is open.
pub record Inv {S : Type 0} (key : Key) (w : World S) : Type 0 where
  pub sole : live_count key w ≤ 1
  pub entered : 0 < live_count key w → is_open (lookup key w.worker.active) ≡ true

module _ (key : Key) where
  pub spawned-Keeps :
      (k : Key) (o : Option ActiveTask) (m : Map Key ActiveTask)
      → lookup k m ≡ o
      → Keeps key m (mark_spawned k o m)
  spawned-Keeps k none m e = record { kept = λ h. h }
  spawned-Keeps k (some t) m e =
      ground (arith, key_beq_iff k key, lookup-insert k key (record t { spawned = true }) m)

  pub close_entry_other :
      (k : Key) (s : Bool) (o : Option ActiveTask) (m : Map Key ActiveTask)
      → key_beq k key ≡ false
      → lookup key (close_entry k s o m) ≡ lookup key m
  close_entry_other k s none m h = refl
  close_entry_other k s (some t) m h =
      ground (arith, lookup-delete k key m, lookup-insert k key (record t { done = true }) m)

  pub stop_task_done : (b : Bool) (t : ActiveTask) → (stop_task b t).done ≡ t.done
  unfolding stop_task
  stop_task_done b t = ground arith

  pub stop-Keeps : (b : Bool) (m : Map Key ActiveTask) → Keeps key m (map_values (stop_task b) m)
  unfolding map_values lookup
  stop-Keeps b [] = record { kept = λ h. h }
  stop-Keeps b ((k, t) ∷ m) = ground (arith, stop_task_done b t, stop-Keeps b m)
