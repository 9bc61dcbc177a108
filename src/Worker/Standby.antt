-- ===== src/Worker/Standby.antt =====
-- Standby sandboxes: internal/worker/standby.go, and validateStandbyID of internal/worker/backend.go.
pub mod Outcome
pub mod Calm
pub mod Exits
use Prim.Native.String.{len, ◌++◌ as str_append}
use oz_agent_worker.Prelude.{
  ℕ, ◌+◌, ◌-◌, Bool, true, false, if◌then◌else◌, not, ◌&&◌, ◌||◌, Option, none, some, is_some, List,
  [], ◌∷◌, ◌==◌, string_eq, String, ltb,
}
use oz_agent_worker.Assoc.{Map, lookup, insert, delete}
use oz_agent_worker.Recent.{Recent, is_known, note}
use oz_agent_worker.Failure.{
  GoError, Source, unset, user, shutdown, sentinel, standby_not_waited, standby_exit_status,
}
use oz_agent_worker.Worker.Execute.{ExecuteResult, error, completed, spawned}
use oz_agent_worker.Worker.{
  Semaphore, StandbyEntry, Slots, no_slots, task_slots, standby_slots, capabilities_for_backend,
  Message, prewarm_created, prewarm_rejected, prewarm_exited, Worker, send_message, is_stopping,
  try_acquire_opt, release_opt,
}

abbrev pub standby_exit_cache_size : ℕ
standby_exit_cache_size = 4096

-- strings.Join(errs, "; ")
unfoldable pub join : List String → String
join [] = ""
join (e ∷ []) = e
join (e ∷ f ∷ es) = str_append e (str_append "; " (join (f ∷ es)))

-- An error text, if the ID is refused. The label check of k8s.io/apimachinery is an argument.
unfoldable pub validate_standby_id : (String → List String) → String → Option String
unfolding join
validate_standby_id is_dns1123_label id =
    if ltb 50 (len id)
    then some "standby sandbox ID exceeds 50 characters"
    else elim (is_dns1123_label id) [
      | [] ↦ none
      | e ∷ es ↦ some (str_append "invalid standby sandbox ID: " (join (e ∷ es)))
    ]

abbrev pub set_source_if_unset : Source → Source → Source
set_source_if_unset s unset = s
set_source_if_unset s user = user
set_source_if_unset s shutdown = shutdown

abbrev pub cancel_entry : Source → StandbyEntry → StandbyEntry
cancel_entry s e = record e {
  cancel_source = set_source_if_unset s e.cancel_source;
  canceled = true;
}

-- The observation context keeps the cause of whichever cancellation came first.
abbrev pub stop_observing : StandbyEntry → StandbyEntry
stop_observing e = record e { observation_stopped = e.observation_stopped || not e.canceled }

abbrev pub destroyed :
    String → Option StandbyEntry → Map String StandbyEntry → Map String StandbyEntry
destroyed id none m = m
destroyed id (some e) m = insert id (cancel_entry user e) m

abbrev pub cancelled_at :
    String → Option StandbyEntry → Map String StandbyEntry → Map String StandbyEntry
cancelled_at id none m = m
cancelled_at id (some e) m = insert id (record e { canceled = true }) m

-- `err` in runStandby: an outcome other than completion counts as an error.
unfoldable pub standby_error : ExecuteResult → Option GoError
standby_error (error e) = some e
standby_error completed = none
standby_error spawned = some (sentinel standby_not_waited)

-- What admitStandbyLocked returns: a reason, or the semaphore that holds the new standby's unit and
-- the state with that unit held.
pub data Admission (S : Type 0) : Type 0 where
  refused : String → Admission S
  admitted : Slots → Worker S → Admission S

module _ {S : Type 0} where
  unfoldable pub standbys_supported : Worker S → Bool
  standbys_supported w =
      (capabilities_for_backend w.config.backend).supports_standbys
      && (not w.config.one_shot && w.config.direct_target_dir == "")

  unfoldable pub standby_slots_locked : Worker S → Slots
  standby_slots_locked w =
      if is_some w.standby_semaphore
      then standby_slots
      else if is_some w.task_semaphore
      then task_slots
      else no_slots

  unfoldable pub reject_prewarm : String → String → Worker S → Worker S
  reject_prewarm id reason w = send_message (prewarm_rejected id reason) w

  unfoldable pub send_standby_exit : String → ℕ → String → Worker S → Worker S
  send_standby_exit id code reason w =
      if is_known id w.standby_exits
      then w
      else send_message (prewarm_exited id code reason)
          (record w { standby_exits = note standby_exit_cache_size id tt w.standby_exits })

  -- The part of handlePrewarmDestroy under the mutex.
  unfoldable pub handle_prewarm_destroy : String → Worker S → Worker S
  handle_prewarm_destroy id w =
      if id == "" then w else record w { standbys = destroyed id (lookup id w.standbys) w.standbys }

  unfoldable pub report_watched_standby_exit : String → ℕ → String → Worker S → Worker S
  report_watched_standby_exit id code reason w =
      if is_some (lookup id w.standbys) || w.shutting_down
      then w
      else send_standby_exit id code reason w

  reported : String → Option StandbyEntry → Option GoError → Worker S → Worker S
  unfolding send_standby_exit
  reported id none err w = w
  reported id (some e) err w =
      if e.observation_stopped
      then w
      else (let (code, reason) = standby_exit_status err e.cancel_source in
          send_standby_exit id code reason w)

  -- runStandby from the backend's result up to the release: a standby whose observation was
  -- interrupted reports nothing.
  unfoldable pub report_standby_exit : String → ExecuteResult → Worker S → Worker S
  unfolding reported standby_error
  report_standby_exit id result w = reported id (lookup id w.standbys) (standby_error result) w

  -- entry.cancel() at the head of releaseStandby.
  unfoldable pub cancel_standby : String → Worker S → Worker S
  cancel_standby id w = record w { standbys = cancelled_at id (lookup id w.standbys) w.standbys }

  -- The rest of releaseStandby after the slot is given back, and taskWG.Done of the goroutine.
  unfoldable pub remove_standby : String → Worker S → Worker S
  remove_standby id w = record w { standbys = delete id w.standbys; task_wg = w.task_wg - 1 }

new_standby : Slots → StandbyEntry
new_standby slots = record {
  canceled = false;
  observation_stopped = false;
  cancel_source = unset;
  slots = slots;
}

module _ {S : Type 0} ⦃sem : Semaphore S⦄ where
  unfoldable pub acquire_slots : Slots → Worker S → Option (Worker S)
  acquire_slots no_slots w = some w
  acquire_slots task_slots w = elim (try_acquire_opt w.task_semaphore) [
    | none ↦ none
    | some s ↦ some (record w { task_semaphore = s })
  ]
  acquire_slots standby_slots w = elim (try_acquire_opt w.standby_semaphore) [
    | none ↦ none
    | some s ↦ some (record w { standby_semaphore = s })
  ]

  unfoldable pub release_slots : Slots → Worker S → Worker S
  release_slots no_slots w = w
  release_slots task_slots w = record w { task_semaphore = release_opt w.task_semaphore }
  release_slots standby_slots w = record w { standby_semaphore = release_opt w.standby_semaphore }

  full_reason : Worker S → String
  full_reason w =
      if is_some w.standby_semaphore
      then "worker at maximum prewarmed sandboxes"
      else "worker at maximum concurrency"

  slots_admission : Slots → Option (Worker S) → Worker S → Admission S
  unfolding full_reason
  slots_admission slots none w = refused (full_reason w)
  slots_admission slots (some w') w = admitted slots w'

  unfoldable pub admit_standby : Worker S → Admission S
  unfolding slots_admission acquire_slots standbys_supported standby_slots_locked
  admit_standby w =
      if is_stopping w
      then refused "worker is shutting down"
      else if w.config.one_shot
      then refused "one-shot worker does not run standby sandboxes"
      else if not (standbys_supported w)
      then refused "backend does not support standby sandboxes"
      else (let slots = standby_slots_locked w in slots_admission slots (acquire_slots slots w) w)

  -- Registering the standby, acknowledging it and starting its goroutine, which is then said with
  -- the semaphore that holds its unit.
  admit_prewarm : String → Admission S → Worker S → Option Slots × Worker S
  unfolding reject_prewarm new_standby
  admit_prewarm id (refused reason) w = (none, reject_prewarm id reason w)
  admit_prewarm id (admitted slots w') w = (
    some slots,
    send_message (prewarm_created id) (record w' {
      standbys = insert id (new_standby slots) w'.standbys;
      task_wg = w'.task_wg + 1;
    }),
  )

  create_valid : String → Option String → Worker S → Option Slots × Worker S
  unfolding reject_prewarm admit_prewarm admit_standby
  create_valid id (some reason) w = (none, reject_prewarm id reason w)
  create_valid id none w =
      if is_some (lookup id w.standbys) || is_known id w.standby_exits
      then (none, w)
      else admit_prewarm id (admit_standby w) w

  unfoldable pub handle_prewarm_create :
      (String → List String) → String → Worker S → Option Slots × Worker S
  unfolding validate_standby_id create_valid
  handle_prewarm_create is_dns1123_label id w =
      create_valid id (validate_standby_id is_dns1123_label id) w
