-- ===== src/Command/Concluded.antt =====
-- What the environment of a command holds, and what the worker concludes from a dispatch.
use oz_agent_worker.Prelude.{
  Bool, true, false, ◌&&◌, ◌||◌, is_some, Option, none, some, List, [], ◌∷◌, ◌++◌, String, ◌≡◌,
  refl, arith, Bool-cases, inl, inr,
}
use oz_agent_worker.Assoc.{Map}
use oz_agent_worker.Env.{Bytes, bytes_eq}
use oz_agent_worker.Env.Merge.{or_else, last_entry, merge_overrides}
use oz_agent_worker.Failure.{
  GoError, wrap, Source, is_user, dispatch_command, dispatch_timeout, task_cancelled,
}
use oz_agent_worker.Worker.Execute.{error, spawned, Conclusion, conclude, dispatched, succeeded}
use oz_agent_worker.Command.{
  config_entries, command_env, backend_error, execute_task, dispatch_result,
}

last_entry-append :
    (k : Bytes) (xs ys : List Bytes)
    → last_entry k (xs ++ ys) ≡ or_else (last_entry k ys) (last_entry k xs)
unfolding last_entry
last_entry-append k [] ys = ground arith
last_entry-append k (x ∷ xs) ys = ground (arith, last_entry-append k xs ys)

-- A variable of a command is, by its name, the last of the worker's own, or without one the last of
-- the configured environment, or without one the last of the host's: no configured variable replaces
-- one of the worker's own.
pub command_env_lem :
    (environ : List Bytes) (env : Map Bytes Bytes) (well_known : List Bytes) (k : Bytes)
    → last_entry k (command_env environ env well_known)
      ≡ or_else
          (last_entry k well_known)
          (or_else (last_entry k (config_entries env)) (last_entry k environ))
unfolding command_env
command_env_lem environ env well_known k = ground (
  arith,
  (merge_overrides environ (config_entries env ++ well_known) k).1,
  last_entry-append k (config_entries env) well_known,
)

-- The conclusions from a task that was not handed over.
abbrev is_handed_over : Conclusion → Bool
is_handed_over dispatched = true
is_handed_over succeeded = true
is_handed_over _ = false

error-closed :
    (b : Bool) (first second : Source) (e : GoError)
    → is_handed_over (conclude false b first second (error e)) ≡ false
unfolding conclude
error-closed b first second e = elim (Bool-cases (b && is_user first)) [
  | inl c ↦ rw (c, conclude) refl
  | inr c ↦ rw (c, conclude) refl
]

abbrev HandedOver : Conclusion → Option GoError → Option GoError → Type 0
HandedOver c marshalled run =
    (is_handed_over c ≡ true → (marshalled ≡ none) × (run ≡ none))
    × ((marshalled ≡ none) × (run ≡ none) → c ≡ dispatched)

dispatch-spawned :
    (b : Bool) (first second : Source) → conclude false b first second spawned ≡ dispatched
unfolding conclude
dispatch-spawned b first second = refl

closed-HandedOver :
    (c : Conclusion) (marshalled run : Option GoError)
    → is_handed_over c ≡ false
    → (is_some marshalled || is_some run) ≡ true
    → HandedOver c marshalled run
closed-HandedOver c marshalled run h k = (λ x. ground (arith, h, x), λ x. ground (arith, k, x))

refused-HandedOver :
    (b : Bool) (first second : Source) (e : GoError) (marshalled run : Option GoError)
    → (is_some marshalled || is_some run) ≡ true
    → HandedOver (conclude false b first second (error e)) marshalled run
refused-HandedOver b first second e marshalled run k =
    closed-HandedOver (conclude false b first second (error e)) marshalled run
      (error-closed b first second e) k

-- A task of the command backend is concluded as dispatched exactly when its payload was marshalled and
-- the dispatch command ended without an error, and it is never concluded as a success of its own.
pub dispatched_iff :
    (timed_out : String) (marshalled run ctx_err : Option GoError) (deadline b : Bool)
    (first second : Source)
    → HandedOver
        (conclude false b first second (execute_task timed_out marshalled run ctx_err deadline))
        marshalled
        run
unfolding execute_task dispatch_result
dispatched_iff timed_out (some e) run ctx_err deadline b first second =
    refused-HandedOver b first second
      (backend_error dispatch_command (wrap "failed to marshal dispatch payload: " e)) (some e) run
      refl
dispatched_iff timed_out none none ctx_err deadline b first second =
    (λ h. (refl, refl), λ h. dispatch-spawned b first second)
dispatched_iff timed_out none (some e) (some c) deadline b first second =
    refused-HandedOver b first second (backend_error task_cancelled c) none (some e) refl
dispatched_iff timed_out none (some e) none true b first second =
    refused-HandedOver b first second (backend_error dispatch_timeout (wrap timed_out e)) none
      (some e) refl
dispatched_iff timed_out none (some e) none false b first second =
    refused-HandedOver b first second
      (backend_error dispatch_command (wrap "dispatch command failed: " e)) none (some e) refl
