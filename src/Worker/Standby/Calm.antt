-- ===== src/Worker/Standby/Calm.antt =====
-- Standbys do not touch the state of tasks (internal/worker/standby.go).
use oz_agent_worker.Prelude.{
  ℕ, ◌≡◌, refl, Bool, true, false, ◌||◌, is_some, if◌then◌else◌, Option, none, some, List, String,
  string_eq, not, arith,
}
use oz_agent_worker.Assoc.{lookup}
use oz_agent_worker.Recent.{is_known}
use oz_agent_worker.Failure.{GoError, standby_exit_status}
use oz_agent_worker.Worker.Execute.{ExecuteResult}
use oz_agent_worker.Worker.{
  Semaphore, Slots, no_slots, task_slots, standby_slots, Worker, is_stopping, StandbyEntry,
}
use oz_agent_worker.Worker.Standby.{
  Admission, refused, admitted, acquire_slots, release_slots, cancel_standby, remove_standby,
  slots_admission, admit_standby, admit_prewarm, create_valid, standbys_supported,
  standby_slots_locked, validate_standby_id, handle_prewarm_create, handle_prewarm_destroy,
  reject_prewarm, send_standby_exit, report_watched_standby_exit, reported, report_standby_exit,
  standby_error,
}

module _ {S : Type 0} where
  -- The configuration, the one-shot acceptance and the records of tasks are the same.
  pub record Calm (k w : Worker S) : Type 0 where
    pub same_config : k.config ≡ w.config
    pub same_accepted : k.one_shot_accepted ≡ w.one_shot_accepted
    pub same_active : k.active ≡ w.active
    pub same_completed : k.completed ≡ w.completed

  pub Calm-refl : (w : Worker S) → Calm w w
  Calm-refl w = record {
    same_config = refl;
    same_accepted = refl;
    same_active = refl;
    same_completed = refl;
  }

  exit-Calm :
      (id : String) (code : ℕ) (reason : String) (w : Worker S)
      → Calm (send_standby_exit id code reason w) w
  unfolding send_standby_exit
  exit-Calm id code reason w = ground arith

  pub watched-Calm :
      (id : String) (code : ℕ) (reason : String) (w : Worker S)
      → Calm (report_watched_standby_exit id code reason w) w
  unfolding report_watched_standby_exit
  watched-Calm id code reason w = ground (arith, exit-Calm id code reason w)

  reported-Calm :
      (id : String) (o : Option StandbyEntry) (err : Option GoError) (w : Worker S)
      → Calm (reported id o err w) w
  unfolding reported
  reported-Calm id none err w = Calm-refl w
  reported-Calm id (some e) err w =
      let (code, reason) = standby_exit_status err e.cancel_source in
      ground (arith, exit-Calm id code reason w)

  pub report-Calm :
      (id : String) (r : ExecuteResult) (w : Worker S) → Calm (report_standby_exit id r w) w
  unfolding report_standby_exit
  report-Calm id r w = reported-Calm id (lookup id w.standbys) (standby_error r) w

  pub destroy-Calm : (id : String) (w : Worker S) → Calm (handle_prewarm_destroy id w) w
  unfolding handle_prewarm_destroy
  destroy-Calm id w = ground arith

  pub remove-Calm : (id : String) (w : Worker S) → Calm (remove_standby id w) w
  unfolding remove_standby
  remove-Calm id w = ground arith

module _ {S : Type 0} ⦃sem : Semaphore S⦄ where
  acquire_slots-Calm : (s : Slots) (w k : Worker S) → acquire_slots s w ≡ some k → Calm k w
  unfolding acquire_slots
  acquire_slots-Calm no_slots w k e = ground arith
  acquire_slots-Calm task_slots w k e = ground arith
  acquire_slots-Calm standby_slots w k e = ground arith

  pub free-Calm :
      (id : String) (s : Slots) (w : Worker S) → Calm (release_slots s (cancel_standby id w)) w
  unfolding release_slots cancel_standby
  free-Calm id no_slots w = ground arith
  free-Calm id task_slots w = ground arith
  free-Calm id standby_slots w = ground arith

  abbrev CalmAdmission : Worker S → Admission S → Type 0
  CalmAdmission w (refused r) = Unit
  CalmAdmission w (admitted s k) = Calm k w

  admission-if :
      (b : Bool) (x y : Admission S) (w : Worker S)
      → CalmAdmission w x
      → CalmAdmission w y
      → CalmAdmission w (if b then x else y)
  admission-if true x y w p q = p
  admission-if false x y w p q = q

  slots_admission-Calm :
      (s : Slots) (o : Option (Worker S)) (w : Worker S)
      → acquire_slots s w ≡ o
      → CalmAdmission w (slots_admission s o w)
  unfolding slots_admission
  slots_admission-Calm s none w e = tt
  slots_admission-Calm s (some k) w e = acquire_slots-Calm s w k e

  admit_standby-Calm : (w : Worker S) → CalmAdmission w (admit_standby w)
  unfolding admit_standby
  admit_standby-Calm w = admission-if (is_stopping w) _ _ w tt (
      admission-if w.config.one_shot _ _ w tt (
        admission-if (not (standbys_supported w)) _ _ w tt
          (slots_admission-Calm (standby_slots_locked w) _ w refl)))

  admit_prewarm-Calm :
      (id : String) (a : Admission S) (w : Worker S)
      → CalmAdmission w a
      → Calm (admit_prewarm id a w).1 w
  unfolding admit_prewarm reject_prewarm
  admit_prewarm-Calm id (refused r) w h = ground arith
  admit_prewarm-Calm id (admitted s k) w h = record {
    same_config = h.same_config;
    same_accepted = h.same_accepted;
    same_active = h.same_active;
    same_completed = h.same_completed;
  }

  create_valid-Calm :
      (id : String) (o : Option String) (w : Worker S) → Calm (create_valid id o w).1 w
  unfolding create_valid reject_prewarm
  create_valid-Calm id (some r) w = ground arith
  create_valid-Calm id none w =
      branch (is_some (lookup id w.standbys) || is_known id w.standby_exits) _
        (admit_prewarm-Calm id (admit_standby w) w (admit_standby-Calm w))
    where
      branch :
          (b : Bool) (x : Option Slots × Worker S)
          → Calm x.1 w
          → Calm (if b then (none, w) else x).1 w
      branch true x o = Calm-refl w
      branch false x o = o

  pub create-Calm :
      (dns : String → List String) (id : String) (w : Worker S)
      → Calm (handle_prewarm_create dns id w).1 w
  unfolding handle_prewarm_create
  create-Calm dns id w = create_valid-Calm id (validate_standby_id dns id) w
