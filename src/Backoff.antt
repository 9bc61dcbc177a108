-- ===== src/Backoff.antt =====
-- Waiting between attempts: the connection loop of Run in internal/worker/worker.go, and the delays
-- of cancelTaskOnBackend. Durations are in milliseconds.
pub mod Delays
use oz_agent_worker.Prelude.{ℕ, ◌*◌, Bool, true, false, if◌then◌else◌, ◌||◌, List, [], ◌∷◌, min}

abbrev pub initial_reconnect_delay : ℕ
initial_reconnect_delay = 1000

abbrev pub max_reconnect_delay : ℕ
max_reconnect_delay = 60000

-- ReconnectBackoffRate, a float64 that is a whole number.
abbrev pub reconnect_backoff_rate : ℕ
reconnect_backoff_rate = 2

pub data RunOutcome : Type 0 where
  connection_closed : RunOutcome
  one_shot_complete : RunOutcome
  server_shutdown : RunOutcome

-- What one round of the loop meets: the context ended before the dial, while it failed, or during
-- the wait; a failed dial and a full wait; or a connection and how serving it ended.
pub data Round : Type 0 where
  stopped : Round
  dial_stopped : Round
  wait_stopped : Round
  dial_failed : Round
  served : RunOutcome → Round

-- The delays that were started, and what the loop did at its end: `shut_down` when it called
-- shutdownTasks and closed the outbound queue, `returned` when it returned.
pub record RunResult : Type 0 where
  pub waits : List ℕ
  pub shut_down : Bool
  pub returned : Bool

abbrev pub waited : ℕ → RunResult → RunResult
waited delay r = record r { waits = delay ∷ r.waits }

unfoldable pub run_loop : ℕ → List Round → RunResult
run_loop delay [] = record { waits = []; shut_down = false; returned = false }
run_loop delay (stopped ∷ rounds) = record { waits = []; shut_down = true; returned = true }
run_loop delay (dial_stopped ∷ rounds) = record { waits = []; shut_down = true; returned = true }
run_loop delay (wait_stopped ∷ rounds) = record {
  waits = delay ∷ [];
  shut_down = true;
  returned = true;
}
run_loop delay (dial_failed ∷ rounds) =
    waited delay (run_loop (min (delay * reconnect_backoff_rate) max_reconnect_delay) rounds)
run_loop delay (served connection_closed ∷ rounds) = run_loop initial_reconnect_delay rounds
run_loop delay (served one_shot_complete ∷ rounds) = record {
  waits = [];
  shut_down = false;
  returned = true;
}
run_loop delay (served server_shutdown ∷ rounds) = record {
  waits = [];
  shut_down = false;
  returned = true;
}

-- Run, but for the connections themselves.
unfoldable pub run : List Round → RunResult
run rounds = run_loop initial_reconnect_delay rounds
