-- ===== src/Worker/Cancel/Once.antt =====
-- Repeated requests to cancel an execution (internal/worker/worker.go).
use oz_agent_worker.Prelude.{
  ℕ, ◌+◌, if◌then◌else◌, ◌≡◌, refl, Bool, true, false, is_some, Option, none, some, ◌==◌, string_eq,
  Option-cases, Bool-cases, inl, inr, ◌⊎◌, arith,
}
use oz_agent_worker.Assoc.{Map, lookup, lookup-insert_self}
use oz_agent_worker.Recent.{recall}
use oz_agent_worker.Worker.{Key, key_eq, ActiveTask, Worker, is_stopping}
use oz_agent_worker.Worker.Cancel.{
  begin_cancellation, start_task_cancellation, finished_task, handle_task_cancellation, restored,
  cancel_execution,
}

-- Of the entry that a key has: whether it is under cancellation, and the goroutines started for it.
abbrev under_cancellation : Option ActiveTask → Bool
under_cancellation none = false
under_cancellation (some t) = t.cancelling

abbrev goroutines : Option ActiveTask → ℕ
goroutines none = 0
goroutines (some t) = t.cancellations

-- From `m` to `n`, a cancellation of the key: its entry, if it then has one, is under cancellation,
-- and one goroutine more was started for it if it was not before, none if it was.
pub record Begun (key : Key) (m n : Map Key ActiveTask) : Type 0 where
  pub cancelling : (t : ActiveTask) → lookup key n ≡ some t → t.cancelling ≡ true
  pub counted :
      (t : ActiveTask)
      → lookup key n ≡ some t
      → t.cancellations
        ≡ goroutines (lookup key m) + (if under_cancellation (lookup key m) then 0 else 1)

start-Begun : (key : Key) (m : Map Key ActiveTask) → Begun key m (start_task_cancellation key m)
unfolding start_task_cancellation
start-Begun key m = elim (Option-cases (lookup key m)) [
  | inl e ↦ ground (arith, e)
  | inr (t, e) ↦ ground (arith, e, lookup-insert_self key (begin_cancellation t) m)
]

start-again :
    (key : Key) (l m : Map Key ActiveTask) → Begun key l m → start_task_cancellation key m ≡ m
unfolding start_task_cancellation
start-again key l m b = elim (Option-cases (lookup key m)) [
  | inl e ↦ ground (arith, e)
  | inr (t, e) ↦ ground (arith, e, b.cancelling t e)
]

restored-some : (key : Key) (m : Map Key ActiveTask) → is_some (lookup key (restored key m)) ≡ true
unfolding restored
restored-some key m = ground (arith, lookup-insert_self key finished_task m)

start-some :
    (key : Key) (m : Map Key ActiveTask)
    → is_some (lookup key m) ≡ true
    → is_some (lookup key (start_task_cancellation key m)) ≡ true
unfolding start_task_cancellation
start-some key m h = elim (Option-cases (lookup key m)) [
  | inl e ↦ ground (arith, e, h)
  | inr (t, e) ↦ ground (arith, e, lookup-insert_self key (begin_cancellation t) m)
]

-- A restored entry is not under cancellation, and no goroutine was started for it.
restored-Begun :
    (key : Key) (m n : Map Key ActiveTask) → Begun key (restored key m) n → Begun key m n
unfolding restored finished_task
restored-Begun key m n b = elim (Option-cases (lookup key m)) [
  | inl e ↦ record {
    cancelling = b.cancelling;
    counted = λ t h. ground (arith, b.counted t h, e, lookup-insert_self key finished_task m);
  }
  | inr (t, e) ↦ record {
    cancelling = b.cancelling;
    counted = λ u h. ground (arith, b.counted u h, e);
  }
]

restored-again :
    (key : Key) (m : Map Key ActiveTask) → is_some (lookup key m) ≡ true → restored key m ≡ m
unfolding restored
restored-again key m h = rw h

execution-again :
    (o : Option Bool) (key : Key) (m : Map Key ActiveTask)
    → cancel_execution o key (cancel_execution o key m) ≡ cancel_execution o key m
unfolding cancel_execution
execution-again (some true) key m = refl
execution-again none key m = start-again key m (start_task_cancellation key m) (start-Begun key m)
execution-again (some false) key m =
    let n = start_task_cancellation key (restored key m) in
    rw (restored-again key n (start-some key (restored key m) (restored-some key m)))
      (start-again key (restored key m) n (start-Begun key (restored key m)))

execution-Begun :
    (o : Option Bool) (key : Key) (m : Map Key ActiveTask)
    → (o ≡ some true) ⊎ Begun key m (cancel_execution o key m)
unfolding cancel_execution
execution-Begun (some true) key m = inl refl
execution-Begun none key m = inr (start-Begun key m)
execution-Begun (some false) key m = inr (restored-Begun key m _ (start-Begun key (restored key m)))

module _ {S : Type 0} where
  -- A second request to cancel the same execution leaves the worker as the first left it, the count
  -- of the goroutines that cancel on the backend included. The first, unless the worker is stopping
  -- or a backend has already accepted the execution's cancellation, leaves the entry of the
  -- execution, if it has one, under cancellation, and has started one goroutine for it if the entry
  -- was not under cancellation before, and none if it was.
  pub cancellation_once :
      (key : Key) (w : Worker S)
      → (key.execution_id == "") ≡ false
      → let w' = handle_task_cancellation key w in
        (handle_task_cancellation key w' ≡ w')
        × ((is_stopping w ≡ true)
            ⊎ (recall key w.completed ≡ some true)
            ⊎ Begun key w.active w'.active)
  unfolding handle_task_cancellation
  cancellation_once key w h = elim (Bool-cases (is_stopping w)) [
    | inl p ↦ ground (arith, p)
    | inr p ↦ ground (
      arith,
      p,
      h,
      execution-again (recall key w.completed) key w.active,
      execution-Begun (recall key w.completed) key w.active,
    )
  ]
