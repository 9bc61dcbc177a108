-- ===== src/Worker/Cancel/Entries.antt =====
-- Cancellation loses no entry of a running execution (internal/worker/worker.go).
use oz_agent_worker.Prelude.{
  ◌≡◌, Bool, true, false, if◌then◌else◌, not, Option, none, some, [], ◌∷◌, ◌==◌, string_eq, String,
  arith,
}
use oz_agent_worker.Assoc.{Map, lookup, lookup-insert}
use oz_agent_worker.Recent.{recall}
use oz_agent_worker.Worker.{Key, key_eq, key_beq_iff, ActiveTask, Worker}
use oz_agent_worker.Worker.Cancel.{
  start_task_cancellation, begin_cancellation, finished_task, cancel_run, restored,
  cancel_execution, handle_task_cancellation,
}

-- The entry of an execution is there and its `done` channel is open.
abbrev pub is_open : Option ActiveTask → Bool
is_open none = false
is_open (some t) = not t.done

-- An update of the active tasks under which no open entry is closed or lost.
pub record Keeps (key : Key) (m n : Map Key ActiveTask) : Type 0 where
  pub kept : is_open (lookup key m) ≡ true → is_open (lookup key n) ≡ true

start-Keeps : (key k : Key) (m : Map Key ActiveTask) → Keeps key m (start_task_cancellation k m)
unfolding start_task_cancellation
start-Keeps key k m =
    ground
      (arith, key_beq_iff k key, lookup-insert k key (begin_cancellation (entry (lookup k m))) m)
  where
    entry : Option ActiveTask → ActiveTask
    entry none = finished_task
    entry (some t) = t

Keeps-refl : (key : Key) (m : Map Key ActiveTask) → Keeps key m m
Keeps-refl key m = record { kept = λ h. h }

Keeps-trans :
    (key : Key) (l m n : Map Key ActiveTask) → Keeps key l m → Keeps key m n → Keeps key l n
Keeps-trans key l m n p q = record { kept = λ h. q.kept (p.kept h) }

cancel_run-Keeps :
    (key : Key) (id : String) (cs m : Map Key ActiveTask) → Keeps key m (cancel_run id cs m)
unfolding cancel_run
cancel_run-Keeps key id [] m = Keeps-refl key m
cancel_run-Keeps key id ((k, t) ∷ cs) m =
    Keeps-trans key m _ _ (once (k.task_id == id))
      (cancel_run-Keeps key id cs (if k.task_id == id then start_task_cancellation k m else m))
  where
    once : (b : Bool) → Keeps key m (if b then start_task_cancellation k m else m)
    once true = start-Keeps key k m
    once false = Keeps-refl key m

restored-Keeps : (key k : Key) (m : Map Key ActiveTask) → Keeps key m (restored k m)
unfolding restored
restored-Keeps key k m = ground (arith, key_beq_iff k key, lookup-insert k key finished_task m)

cancel_execution-Keeps :
    (o : Option Bool) (key k : Key) (m : Map Key ActiveTask) → Keeps key m (cancel_execution o k m)
unfolding cancel_execution
cancel_execution-Keeps none key k m = start-Keeps key k m
cancel_execution-Keeps (some true) key k m = Keeps-refl key m
cancel_execution-Keeps (some false) key k m =
    Keeps-trans key m (restored k m) _ (restored-Keeps key k m) (start-Keeps key k (restored k m))

pub cancellation-Keeps :
    {S : Type 0} (key k : Key) (w : Worker S)
    → Keeps key w.active (handle_task_cancellation k w).active
unfolding handle_task_cancellation
cancellation-Keeps key k w = ground (
  arith,
  cancel_run-Keeps key k.task_id w.active w.active,
  cancel_execution-Keeps (recall k w.completed) key k w.active,
)
