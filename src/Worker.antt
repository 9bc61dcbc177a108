-- ===== src/Worker.antt =====
-- The state of the worker: the structs of internal/worker/worker.go and internal/worker/standby.go,
-- and the messages of internal/types/messages.go that it sends.
--
-- Contexts, channels and goroutines appear as what the worker reads of them: whether a context is
-- cancelled, whether `done` is closed, whether a cancellation goroutine was started. `sent` holds the
-- messages passed to sendMessage, oldest first; its errors are only logged.
pub mod Assign
pub mod Execute
pub mod Cancel
pub mod Standby
pub mod Shutdown
use oz_agent_worker.Prelude.{
  ℕ, suc, ◌+◌, ◌≤◌, ◌<◌, ◌≡◌, refl, ◌↔◌, Bool, true, false, if◌then◌else◌, not, ◌&&◌, ◌||◌, Option,
  none, some, is_some, List, [], ◌∷◌, ◌++◌, Eq, ◌==◌, string_eq, nat_eq, String, arith,
}
use oz_agent_worker.Assoc.{Map}
use oz_agent_worker.Recent.{Recent}
use oz_agent_worker.Failure.{Reason, Source}

-- golang.org/x/sync/semaphore at weight 1. `TryAcquire(1)` fails only when every unit is held, and
-- `Release(1)` gives back a unit that is held; it panics on one that is not.
pub record Semaphore (S : Type 0) : Type 0 where
  pub new_weighted : ℕ → S
  pub try_acquire : S → Option S
  pub release : S → S
  pub held : S → ℕ
  pub size : S → ℕ
  pub new_held : (n : ℕ) → held (new_weighted n) ≡ 0
  pub new_size : (n : ℕ) → size (new_weighted n) ≡ n
  pub acquire_held : (s t : S) → try_acquire s ≡ some t → held t ≡ suc (held s)
  pub acquire_size : (s t : S) → try_acquire s ≡ some t → size t ≡ size s
  pub acquire_fits : (s t : S) → try_acquire s ≡ some t → held t ≤ size t
  pub acquire_full : (s : S) → try_acquire s ≡ none → size s ≤ held s
  pub release_held : (s : S) → 0 < held s → held s ≡ suc (held (release s))
  pub release_size : (s : S) → size (release s) ≡ size s

-- taskExecution
pub record Key : Type 0 where
  pub task_id : String
  pub execution_id : String

abbrev pub key_beq : Key → Key → Bool
key_beq a b = a.task_id == b.task_id && a.execution_id == b.execution_id

pub key_beq_iff : (a b : Key) → (key_beq a b ≡ true) ↔ (a ≡ b)
key_beq_iff a b = (
  λ h. ground (
    arith,
    string_eq.beq_iff a.task_id b.task_id,
    string_eq.beq_iff a.execution_id b.execution_id,
  ),
  λ h. ground (
    arith,
    string_eq.beq_iff a.task_id b.task_id,
    string_eq.beq_iff a.execution_id b.execution_id,
  ),
)

instance abbrev pub key_eq : Eq Key
key_eq = record { beq = key_beq; beq_iff = key_beq_iff }

-- activeTask. `canceled` is the state of its context, `cancelling` is stopCancellation != nil and
-- `cancellation_stopped` that it was called, `observed` is stopObservation != nil, and
-- `observation_stopped` that the cause of the observation context is errObservationInterrupted.
-- `cancellations` counts the goroutines of cancelTaskOnBackend started for the entry.
pub record ActiveTask : Type 0 where
  pub canceled : Bool
  pub cancellation_source : Source
  pub spawned : Bool
  pub done : Bool
  pub cancelling : Bool
  pub cancellation_stopped : Bool
  pub observed : Bool
  pub observation_stopped : Bool
  pub cancellations : ℕ

-- The semaphore that holds a standby's unit: `entry.slots`, a pointer to one of the worker's two.
pub data Slots : Type 0 where
  no_slots task_slots standby_slots : Slots

-- standbyEntry
pub record StandbyEntry : Type 0 where
  pub canceled : Bool
  pub observation_stopped : Bool
  pub cancel_source : Source
  pub slots : Slots

pub data BackendType : Type 0 where
  docker direct kubernetes command : BackendType

-- backendCapabilities
pub record Capabilities : Type 0 where
  pub supports_one_shot : Bool
  pub supports_standbys : Bool

abbrev pub capabilities_for_backend : BackendType → Capabilities
capabilities_for_backend docker = record { supports_one_shot = false; supports_standbys = true }
capabilities_for_backend direct = record { supports_one_shot = true; supports_standbys = true }
capabilities_for_backend kubernetes = record { supports_one_shot = false; supports_standbys = true }
capabilities_for_backend command = record { supports_one_shot = false; supports_standbys = false }

abbrev pub preserves_tasks_on_shutdown : BackendType → Bool
preserves_tasks_on_shutdown docker = false
preserves_tasks_on_shutdown direct = false
preserves_tasks_on_shutdown kubernetes = true
preserves_tasks_on_shutdown command = true

-- The part of Config that the state machine reads; `direct_target_dir` is empty without a Direct
-- configuration.
pub record Config : Type 0 where
  pub backend : BackendType
  pub max_concurrent_tasks : ℕ
  pub max_prewarmed_sandboxes : ℕ
  pub one_shot : Bool
  pub direct_target_dir : String

pub data Message : Type 0 where
  task_claimed : Key → Message
  task_rejected : String → String → Message
  task_completed : Key → Message
  task_cancelled : Key → Message
  task_failed : Key → Reason → ℕ → String → Message
  prewarm_created : String → Message
  prewarm_rejected : String → String → Message
  prewarm_exited : String → ℕ → String → Message

pub record Worker (S : Type 0) : Type 0 where
  pub config : Config
  pub ctx_done : Bool
  pub shutting_down : Bool
  pub active : Map Key ActiveTask
  pub completed : Recent Key Bool
  pub one_shot_accepted : Bool
  pub one_shot_done : Bool
  pub task_semaphore : Option S
  pub standby_semaphore : Option S
  pub standbys : Map String StandbyEntry
  pub standby_exits : Recent String (Unit {0})
  pub task_wg : ℕ
  pub sent : List Message

module _ {S : Type 0} where
  abbrev pub send_message : Message → Worker S → Worker S
  send_message m w = record w { sent = w.sent ++ m ∷ [] }

  -- w.shuttingDown || w.ctx.Err() != nil
  abbrev pub is_stopping : Worker S → Bool
  is_stopping w = w.shutting_down || w.ctx_done

module _ {S : Type 0} ⦃sem : Semaphore S⦄ where
  semaphore_of : ℕ → Option S
  semaphore_of n = if n == 0 then none else some (sem.new_weighted n)

  -- New, after the backend was built: one-shot mode needs a backend that supports it and caps the
  -- tasks at one.
  unfoldable pub new : Config → Option (Worker S)
  unfolding semaphore_of
  new c =
      if c.one_shot && not (capabilities_for_backend c.backend).supports_one_shot
      then none
      else (let tasks = if c.one_shot then 1 else c.max_concurrent_tasks in
          some (record {
            config = record c { max_concurrent_tasks = tasks };
            ctx_done = false;
            shutting_down = false;
            active = [];
            completed = record { entries = []; order = [] };
            one_shot_accepted = false;
            one_shot_done = false;
            task_semaphore = semaphore_of tasks;
            standby_semaphore = semaphore_of c.max_prewarmed_sandboxes;
            standbys = [];
            standby_exits = record { entries = []; order = [] };
            task_wg = 0;
            sent = [];
          }))

  -- TryAcquire on a semaphore that may be nil, which admits everything.
  abbrev pub try_acquire_opt : Option S → Option (Option S)
  try_acquire_opt none = some none
  try_acquire_opt (some s) = elim (sem.try_acquire s) [ none ↦ none | some t ↦ some (some t) ]

  abbrev pub release_opt : Option S → Option S
  release_opt none = none
  release_opt (some s) = some (sem.release s)
