-- ===== src/Command.antt =====
-- The command backend (internal/worker/command.go): the environment of its commands, and what it
-- makes of the end of the dispatch command. Tracing, logs and output streams are left out.
pub mod Concluded
use oz_agent_worker.Prelude.{
  Bool, true, false, ◌||◌, not, if◌then◌else◌, Option, none, some, List, [], ◌∷◌, ◌++◌, ◌==◌,
  String, string_eq,
}
use oz_agent_worker.Assoc.{Map}
use oz_agent_worker.Env.{Bytes, bytes_eq, equals_sign, merge_env_vars}
use oz_agent_worker.Failure.{
  Reason, GoError, failure, wrap, backend, dispatch_command, dispatch_timeout, cancel_command,
  task_cancelled,
}
use oz_agent_worker.Worker.Execute.{ExecuteResult, error, spawned}

-- fmt.Sprintf("%s=%s", key, value), in the order of the iteration over the map.
unfoldable pub config_entries : Map Bytes Bytes → List Bytes
config_entries [] = []
config_entries ((key, value) ∷ env) = (key ++ equals_sign ∷ value) ∷ config_entries env

-- `environ` is os.Environ(), `env` the configured Env.
unfoldable pub command_env : List Bytes → Map Bytes Bytes → List Bytes → List Bytes
command_env environ env well_known = merge_env_vars environ (config_entries env ++ well_known)

abbrev pub backend_error : Reason → GoError → GoError
backend_error reason e =
    failure (record { metrics_phase = backend; metrics_reason = reason; exit_code = 0 }) e

-- The end of the dispatch command, once its payload was marshalled: `ctx_err` is ctx.Err() and
-- `deadline` says that dctx.Err() is context.DeadlineExceeded, both read after a failed run;
-- `timed_out` is the text about the timeout.
unfoldable pub dispatch_result : String → Option GoError → Option GoError → Bool → ExecuteResult
dispatch_result timed_out none ctx_err deadline = spawned
dispatch_result timed_out (some run_err) (some e) deadline = error (backend_error task_cancelled e)
dispatch_result timed_out (some run_err) none true =
    error (backend_error dispatch_timeout (wrap timed_out run_err))
dispatch_result timed_out (some run_err) none false =
    error (backend_error dispatch_command (wrap "dispatch command failed: " run_err))

unfoldable pub execute_task :
    String → Option GoError → Option GoError → Option GoError → Bool → ExecuteResult
execute_task timed_out (some e) run_err ctx_err deadline =
    error (backend_error dispatch_command (wrap "failed to marshal dispatch payload: " e))
execute_task timed_out none run_err ctx_err deadline =
    dispatch_result timed_out run_err ctx_err deadline

-- CancelTask: `run` is what the cancel command ends with, when it is run.
unfoldable pub cancel_task : String → String → Option GoError → Option GoError
cancel_task standby_id command none = none
cancel_task standby_id command (some e) =
    if not (standby_id == "") || command == ""
    then none
    else some (backend_error cancel_command (wrap "cancel command failed: " e))
