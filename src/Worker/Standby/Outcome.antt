-- ===== src/Worker/Standby/Outcome.antt =====
-- What a create request leads to (internal/worker/standby.go).
use oz_agent_worker.Prelude.{
  ◌≡◌, refl, ◌⊎◌, inl, inr, Bool, true, false, ◌||◌, is_some, if◌then◌else◌, Option, none, some,
  List, [], ◌∷◌, ◌++◌, ap, ℕ, String, string_eq, arith, not,
}
use oz_agent_worker.Assoc.{lookup}
use oz_agent_worker.Recent.{is_known}
use oz_agent_worker.Failure.{GoError, standby_exit_status}
use oz_agent_worker.Worker.Execute.{ExecuteResult}
use oz_agent_worker.Worker.{
  Semaphore, Slots, no_slots, task_slots, standby_slots, Worker, is_stopping, Message,
  prewarm_created, prewarm_rejected, prewarm_exited, StandbyEntry,
}
use oz_agent_worker.Worker.Standby.{
  Admission, refused, admitted, acquire_slots, slots_admission, admit_standby, admit_prewarm,
  create_valid, standbys_supported, standby_slots_locked, validate_standby_id,
  handle_prewarm_create, reject_prewarm, send_standby_exit, report_watched_standby_exit, reported,
  report_standby_exit, standby_error,
}

module _ {S : Type 0} ⦃sem : Semaphore S⦄ where
  -- An admission holds a unit just acquired.
  abbrev Holds : Worker S → Admission S → Type 0
  Holds w (refused r) = Unit
  Holds w (admitted s k) = acquire_slots s w ≡ some k

  slots_admission-Holds :
      (s : Slots) (o : Option (Worker S)) (w : Worker S)
      → acquire_slots s w ≡ o
      → Holds w (slots_admission s o w)
  unfolding slots_admission
  slots_admission-Holds s none w e = tt
  slots_admission-Holds s (some k) w e = e

  Holds-if :
      (b : Bool) (x y : Admission S) (w : Worker S)
      → Holds w x
      → Holds w y
      → Holds w (if b then x else y)
  Holds-if true x y w p q = p
  Holds-if false x y w p q = q

  admit_standby-Holds : (w : Worker S) → Holds w (admit_standby w)
  unfolding admit_standby
  admit_standby-Holds w = Holds-if (is_stopping w) _ _ w tt (
      Holds-if w.config.one_shot _ _ w tt (
        Holds-if (not (standbys_supported w)) _ _ w tt
          (slots_admission-Holds (standby_slots_locked w) _ w refl)))

  -- The goroutine that a create starts, if any, and the semaphores that the request leaves.
  abbrev pub Outcome : Worker S → Option Slots × Worker S → Type 0
  Outcome w (none, k) =
      (k.task_semaphore ≡ w.task_semaphore) × (k.standby_semaphore ≡ w.standby_semaphore)
  Outcome w (some a, k) =
      (l : Worker S) × (acquire_slots a w ≡ some l)
      × (k.task_semaphore ≡ l.task_semaphore)
      × (k.standby_semaphore ≡ l.standby_semaphore)

  admit_prewarm-Outcome :
      (id : String) (a : Admission S) (w : Worker S) → Holds w a → Outcome w (admit_prewarm id a w)
  unfolding admit_prewarm
  admit_prewarm-Outcome id (refused r) w h = (refl, refl)
  admit_prewarm-Outcome id (admitted s k) w h = (k, h, refl, refl)

  create_valid-Outcome :
      (id : String) (o : Option String) (w : Worker S) → Outcome w (create_valid id o w)
  unfolding create_valid
  create_valid-Outcome id (some r) w = (refl, refl)
  create_valid-Outcome id none w =
      branch (is_some (lookup id w.standbys) || is_known id w.standby_exits) _
        (admit_prewarm-Outcome id (admit_standby w) w (admit_standby-Holds w))
    where
      branch :
          (b : Bool) (x : Option Slots × Worker S)
          → Outcome w x
          → Outcome w (if b then (none, w) else x)
      branch true x o = (refl, refl)
      branch false x o = o

  pub create-Outcome :
      (dns : String → List String) (id : String) (w : Worker S)
      → Outcome w (handle_prewarm_create dns id w)
  unfolding handle_prewarm_create
  create-Outcome dns id w = create_valid-Outcome id (validate_standby_id dns id) w

-- The messages about standbys.
abbrev pub is_standby_message : Message → Bool
is_standby_message (prewarm_created i) = true
is_standby_message (prewarm_rejected i r) = true
is_standby_message (prewarm_exited i c r) = true
is_standby_message _ = false

module _ {S : Type 0} where
  -- At most one message is sent, and it is about a standby.
  abbrev pub Sends : Worker S → Worker S → Type 0
  Sends k w =
      (k.sent ≡ w.sent)
      ⊎ ((m : Message) × (is_standby_message m ≡ true) × (k.sent ≡ w.sent ++ m ∷ []))

  reject-Sends : (id reason : String) (w : Worker S) → Sends (reject_prewarm id reason w) w
  unfolding reject_prewarm
  reject-Sends id reason w = inr (prewarm_rejected id reason, refl, refl)

  Sends-if : (b : Bool) (k l w : Worker S) → Sends k w → Sends l w → Sends (if b then k else l) w
  Sends-if true k l w p q = p
  Sends-if false k l w p q = q

  exit-Sends :
      (id : String) (code : ℕ) (reason : String) (w : Worker S)
      → Sends (send_standby_exit id code reason w) w
  unfolding send_standby_exit
  exit-Sends id code reason w =
      Sends-if (is_known id w.standby_exits) _ _ w (inl refl)
        (inr (prewarm_exited id code reason, refl, refl))

  pub watched-Sends :
      (id : String) (code : ℕ) (reason : String) (w : Worker S)
      → Sends (report_watched_standby_exit id code reason w) w
  unfolding report_watched_standby_exit
  watched-Sends id code reason w =
      Sends-if (is_some (lookup id w.standbys) || w.shutting_down) _ _ w (inl refl)
        (exit-Sends id code reason w)

  reported-Sends :
      (id : String) (o : Option StandbyEntry) (err : Option GoError) (w : Worker S)
      → Sends (reported id o err w) w
  unfolding reported
  reported-Sends id none err w = inl refl
  reported-Sends id (some e) err w =
      let (code, reason) = standby_exit_status err e.cancel_source in
      Sends-if e.observation_stopped w (send_standby_exit id code reason w) w (inl refl)
        (exit-Sends id code reason w)

  pub report-Sends :
      (id : String) (r : ExecuteResult) (w : Worker S) → Sends (report_standby_exit id r w) w
  unfolding report_standby_exit
  report-Sends id r w = reported-Sends id (lookup id w.standbys) (standby_error r) w

module _ {S : Type 0} ⦃sem : Semaphore S⦄ where
  acquire_slots_sent :
      (s : Slots) (w : Worker S) {k : Worker S} → acquire_slots s w ≡ some k → k.sent ≡ w.sent
  unfolding acquire_slots
  acquire_slots_sent no_slots w e = ground arith
  acquire_slots_sent task_slots w e = ground arith
  acquire_slots_sent standby_slots w e = ground arith

  admit_prewarm-Sends :
      (id : String) (a : Admission S) (w : Worker S) → Holds w a → Sends (admit_prewarm id a w).1 w
  unfolding admit_prewarm
  admit_prewarm-Sends id (refused r) w h = reject-Sends id r w
  admit_prewarm-Sends id (admitted s k) w h =
      inr (
        prewarm_created id,
        refl,
        ap (λ l. l ++ prewarm_created id ∷ []) (acquire_slots_sent s w h),
      )

  create_valid-Sends :
      (id : String) (o : Option String) (w : Worker S) → Sends (create_valid id o w).1 w
  unfolding create_valid
  create_valid-Sends id (some r) w = reject-Sends id r w
  create_valid-Sends id none w =
      branch (is_some (lookup id w.standbys) || is_known id w.standby_exits) _
        (admit_prewarm-Sends id (admit_standby w) w (admit_standby-Holds w))
    where
      branch :
          (b : Bool) (x : Option Slots × Worker S)
          → Sends x.1 w
          → Sends (if b then (none, w) else x).1 w
      branch true x o = inl refl
      branch false x o = o

  pub create-Sends :
      (dns : String → List String) (id : String) (w : Worker S)
      → Sends (handle_prewarm_create dns id w).1 w
  unfolding handle_prewarm_create
  create-Sends dns id w = create_valid-Sends id (validate_standby_id dns id) w
