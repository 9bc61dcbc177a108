-- ===== src/Worker/Assign/Verdicts.antt =====
-- What handleTaskAssignment leaves behind on each of its paths.
use oz_agent_worker.Prelude.{
  ◌⊎◌, ◌+◌, ◌-◌, not, refl, if-rule, ◌≡◌, true, false, ◌&&◌, ◌||◌, Option, none, some, [], ◌∷◌,
  ◌++◌, String, Option-cases, Bool-cases, inl, inr, arith,
}
use oz_agent_worker.Assoc.{lookup, insert, lookup-insert_self}
use oz_agent_worker.Worker.{
  Semaphore, Key, key_eq, task_claimed, task_rejected, Worker, send_message, is_stopping,
  try_acquire_opt, release_opt,
}
use oz_agent_worker.Worker.Assign.{
  Verdict, proceed, duplicate, rejected, new_active_task, is_duplicate, reject_task_assignment,
  try_accept, reset_acceptance, admit, acquire_slot, register, handle_task_assignment,
}

-- The result `r` of the handler for `key` on `w`.
pub record Handled {S : Type 0} ⦃sem : Semaphore S⦄ (key : Key) (w : Worker S)
    (r : Verdict × Worker S) : Type 0 where
  on_proceed :
      r.0 ≡ proceed
      → (is_duplicate key w ≡ false)
        × (is_stopping w ≡ false)
        × ((w.config.one_shot && w.one_shot_accepted) ≡ false)
        × (lookup key r.1.active ≡ some new_active_task)
        × (r.1.sent ≡ w.sent ++ task_claimed key ∷ [])
        × (r.1.task_wg ≡ w.task_wg + 1)
        × (r.1.one_shot_accepted ≡ (w.config.one_shot || w.one_shot_accepted))
        × (try_acquire_opt w.task_semaphore ≡ some r.1.task_semaphore)
  on_duplicate : r.0 ≡ duplicate → (is_duplicate key w ≡ true) × (r.1 ≡ w)
  on_rejected :
      (reason : String)
      → r.0 ≡ rejected reason
      → (is_duplicate key w ≡ false)
        × (r.1 ≡ send_message (task_rejected key.task_id reason) w)
        × ((is_stopping w ≡ true)
            ⊎ ((w.config.one_shot && w.one_shot_accepted) ≡ true)
            ⊎ (try_acquire_opt w.task_semaphore ≡ none))

-- A section with its effect on the worker undone: the count of the wait group that the first section
-- took, and a one-shot worker's acceptance of the task where it is to be kept for another one.
abbrev pub undone : {S : Type 0} → Worker S → Worker S
undone w = record w {
  task_wg = w.task_wg - 1;
  one_shot_accepted = w.one_shot_accepted && not w.config.one_shot;
}

-- The concurrency check, on a worker where other goroutines may have run since the first section.
abbrev pub Acquired : {S : Type 0} → ⦃sem : Semaphore S⦄ → Worker S → Verdict × Worker S → Type 0
Acquired w (proceed, k) =
    (try_acquire_opt w.task_semaphore ≡ some k.task_semaphore)
    × (k ≡ record w { task_semaphore = k.task_semaphore })
Acquired w (duplicate, k) = ⊥
Acquired w (rejected reason, k) = (try_acquire_opt w.task_semaphore ≡ none) × (k ≡ undone w)

-- The second section, on a worker where other goroutines may have run since the check.
abbrev pub Registered :
    {S : Type 0} → ⦃sem : Semaphore S⦄ → Key → Worker S → Verdict × Worker S → Type 0
Registered key w (proceed, k) =
    (is_stopping w ≡ false)
    × (is_duplicate key w ≡ false)
    × (lookup key k.active ≡ some new_active_task)
    × (k ≡ record w { active = k.active })
Registered key w (duplicate, k) =
    (is_stopping w ≡ false)
    × (is_duplicate key w ≡ true)
    × (k ≡ record w { task_wg = w.task_wg - 1; task_semaphore = release_opt w.task_semaphore })
Registered key w (rejected reason, k) =
    (is_stopping w ≡ true)
    × (k ≡ record (undone w) { task_semaphore = release_opt w.task_semaphore })

module _ {S : Type 0} ⦃sem : Semaphore S⦄ where
  claimed_worker : Key → Option S → Worker S → Worker S
  claimed_worker key s w = record w {
    task_semaphore = s;
    task_wg = w.task_wg + 1;
    one_shot_accepted = w.config.one_shot || w.one_shot_accepted;
    active = insert key new_active_task w.active;
    sent = w.sent ++ task_claimed key ∷ [];
  }

  duplicate_result :
      (key : Key) (w : Worker S)
      → is_duplicate key w ≡ true
      → handle_task_assignment key w ≡ (duplicate, w)
  unfolding handle_task_assignment admit
  duplicate_result key w d = rw d

  stopping_result :
      (key : Key) (w : Worker S)
      → is_duplicate key w ≡ false
      → is_stopping w ≡ true
      → handle_task_assignment key w ≡ (
        rejected "worker is shutting down",
        send_message (task_rejected key.task_id "worker is shutting down") w,
      )
  unfolding handle_task_assignment admit reject_task_assignment
  stopping_result key w d p = rw (d, p)

  taken_result :
      (key : Key) (w : Worker S)
      → is_duplicate key w ≡ false
      → is_stopping w ≡ false
      → w.config.one_shot ≡ true
      → w.one_shot_accepted ≡ true
      → handle_task_assignment key w ≡ (
        rejected "one-shot worker has already accepted a task",
        send_message (task_rejected key.task_id "one-shot worker has already accepted a task") w,
      )
  unfolding handle_task_assignment admit reject_task_assignment try_accept
  taken_result key w d p o a = rw (d, p, o, a)

  full_result :
      (key : Key) (w : Worker S)
      → is_duplicate key w ≡ false
      → is_stopping w ≡ false
      → (w.config.one_shot && w.one_shot_accepted) ≡ false
      → try_acquire_opt w.task_semaphore ≡ none
      → handle_task_assignment key w ≡ (
        rejected "worker at maximum concurrency",
        send_message (task_rejected key.task_id "worker at maximum concurrency") w,
      )
  unfolding handle_task_assignment admit acquire_slot reject_task_assignment reset_acceptance
      try_accept
  full_result key w d p o e = elim (Bool-cases w.config.one_shot) [
    | inl t ↦ elim (Bool-cases w.one_shot_accepted) [
      | inl a ↦ ground (arith, t, a, o)
      | inr a ↦ rw (d, p, t, a, e) (ground arith)
    ]
    | inr t ↦ rw (d, p, t, e) (ground arith)
  ]

  claimed_result :
      (key : Key) (w : Worker S) (s : Option S)
      → is_duplicate key w ≡ false
      → is_stopping w ≡ false
      → (w.config.one_shot && w.one_shot_accepted) ≡ false
      → try_acquire_opt w.task_semaphore ≡ some s
      → handle_task_assignment key w ≡ (proceed, claimed_worker key s w)
  unfolding is_duplicate handle_task_assignment claimed_worker admit acquire_slot try_accept
  claimed_result key w s d p o e = elim (Bool-cases w.config.one_shot) [
    | inl t ↦ elim (Bool-cases w.one_shot_accepted) [
      | inl a ↦ ground (arith, t, a, o)
      | inr a ↦ simp (d, p, t, a, e)
    ]
    | inr t ↦ simp (d, p, t, e)
  ]

  running-Handled :
      (key : Key) (w : Worker S)
      → is_duplicate key w ≡ false
      → is_stopping w ≡ false
      → Handled key w (handle_task_assignment key w)
  unfolding claimed_worker
  running-Handled key w d p = elim (Bool-cases (w.config.one_shot && w.one_shot_accepted)) [
    | inl o ↦ ground (arith, taken_result key w d p (ground (arith, o)) (ground (arith, o)), d, o)
    | inr o ↦ elim (Option-cases (try_acquire_opt w.task_semaphore)) [
      | inl e ↦ ground (arith, full_result key w d p o e, d, e)
      | inr (s, e) ↦ ground (
        arith,
        claimed_result key w s d p o e,
        d,
        p,
        o,
        e,
        lookup-insert_self key new_active_task w.active,
      )
    ]
  ]

  acquire_slot-Acquired : (w : Worker S) → Acquired w (acquire_slot w)
  unfolding acquire_slot reset_acceptance
  acquire_slot-Acquired w = by_answer (try_acquire_opt w.task_semaphore) refl
    where
      by_answer :
          (o : Option (Option S))
          → try_acquire_opt w.task_semaphore ≡ o
          → Acquired w (acquire_slot w)
      by_answer none e = ground (arith, e)
      by_answer (some s) e = ground (arith, e)

  register-Registered : (key : Key) (w : Worker S) → Registered key w (register key w)
  unfolding register reset_acceptance
  register-Registered key w =
      if-rule (Registered key w) (is_stopping w) _ _ (λ p. (p, ground arith))
        (λ p.
          if-rule (Registered key w) (is_duplicate key w) _ _ (λ d. (p, d, refl))
            (λ d. (p, d, lookup-insert_self key new_active_task w.active, refl)))

  handle-Handled : (key : Key) (w : Worker S) → Handled key w (handle_task_assignment key w)
  handle-Handled key w = elim (Bool-cases (is_duplicate key w)) [
    | inl d ↦ ground (arith, duplicate_result key w d, d)
    | inr d ↦ elim (Bool-cases (is_stopping w)) [
      | inl p ↦ ground (arith, stopping_result key w d p, d, p)
      | inr p ↦ running-Handled key w d p
    ]
  ]

  -- The handler run without interruption claims the task, finds a duplicate, or rejects it. It
  -- claims only a task that is neither active nor remembered as completed, on a worker that is not
  -- stopping and whose one-shot task is not taken: the task is then active, the claim is the last
  -- message, the wait group counts one more, a one-shot worker has its task, and a slot was free
  -- and is taken. A duplicate changes nothing, and a rejection, of a worker that is stopping, whose
  -- one-shot task is taken or whose slots are all taken, changes nothing but the message that it
  -- appends. The later sections, on any workers `u` and `v` that other goroutines left: the check
  -- goes on with a slot if one is free, and otherwise takes back the count and a one-shot
  -- acceptance; the second section enters the task, if `v` is not stopping and it is not a
  -- duplicate there, and otherwise gives back the slot and the count, and the acceptance too where
  -- `v` is stopping.
  pub assignment-Handled :
      (key : Key) (w u v : Worker S)
      → Handled key w (handle_task_assignment key w)
        × Acquired u (acquire_slot u)
        × Registered key v (register key v)
  assignment-Handled key w u v =
      (handle-Handled key w, acquire_slot-Acquired u, register-Registered key v)
