-- ===== src/Tests/Components.antt =====
-- The theorems on queues, caches, delays and errors at concrete inputs.
use oz_agent_worker.Prelude.{
  ℕ, ◌≤◌, ◌≡◌, refl, Bool, true, false, none, some, List, [], ◌∷◌, ◌++◌, String, arith, length,
  string_eq, nat_eq, ◌↔◌,
}
use oz_agent_worker.Assoc.{lookup}
use oz_agent_worker.Recent.{Recent, empty, empty-Inv, Inv, is_known, remember, remember-Inv}
use oz_agent_worker.Recent.Lasting.{remember_all, remember-lasts}
use oz_agent_worker.Outbound.Order.{Call, sends, closes, receives, start, run, run_fifo}
use oz_agent_worker.Outbound.{new_outbound_queue}
use oz_agent_worker.Outbound.Order.Log.{responses, log_responses, queue_refines_log}
use oz_agent_worker.Outbound.Order.Drain.{accepted_delivered}
use oz_agent_worker.Failure.{shutdown, sentinel, canceled, standby_exit_status}
use oz_agent_worker.Failure.Exits.{exit_zero_iff}
use oz_agent_worker.Env.{bytes_eq}
use oz_agent_worker.Backoff.{
  initial_reconnect_delay, max_reconnect_delay, connection_closed, stopped, dial_failed, served,
}
use oz_agent_worker.Backoff.{run as run_worker}
use oz_agent_worker.Backoff.Delays.{repeat, delays_from, reconnect_delays}

reconnect_delays_example :
    run_worker (repeat 7 dial_failed ++ served connection_closed ∷ stopped ∷ [])
    ≡ (record (run_worker (stopped ∷ [])) {
      waits =
          delays_from initial_reconnect_delay max_reconnect_delay 0 7
          ++ (run_worker (stopped ∷ [])).waits;
    })
reconnect_delays_example = reconnect_delays 7 (stopped ∷ [])

abbrev calls : List (Call ℕ)
calls = sends 1 ∷ sends 2 ∷ receives ∷ sends 3 ∷ closes ∷ sends 4 ∷ []

run_fifo_example :
    ((run (start 2) calls).accepted
      ≡ (run (start 2) calls).delivered ++ (run (start 2) calls).queue.messages)
    × (length (run (start 2) calls).queue.messages ≤ 2)
run_fifo_example = run_fifo 2 calls

queue_refines_log_example :
    responses (new_outbound_queue 2) calls
    ≡ log_responses 2 (record { sent = []; got = 0; is_shut = false }) calls
queue_refines_log_example = queue_refines_log 2 calls

accepted_delivered_example :
    (rest : List ℕ) × ((run (run (start 2) calls) (receives ∷ closes ∷ receives ∷ [])).delivered
      ≡ (run (start 2) calls).accepted ++ rest)
accepted_delivered_example = accepted_delivered 2 calls (receives ∷ closes ∷ receives ∷ []) two_wait
  where
    two_wait : length (run (start 2) calls).queue.messages ≤ 2
    two_wait = (run_fifo 2 calls).1

abbrev no_keys : Recent String Bool
no_keys = empty

no_keys-unknown : is_known "a" no_keys ≡ false
unfolding lookup
no_keys-unknown = refl

remember-lasts_example :
    is_known "a" (remember_all 3 (("b", true) ∷ ("c", false) ∷ []) (remember 3 "a" true no_keys))
    ≡ true
remember-lasts_example =
    remember-lasts 3 "a" true (("b", true) ∷ ("c", false) ∷ []) no_keys (omega arith)
      no_keys-unknown (empty-Inv 3)

remember-Inv_example : Inv 1 (remember 1 "b" true (remember 1 "a" true no_keys))
remember-Inv_example =
    remember-Inv 1 "b" true (remember 1 "a" true no_keys) (omega arith)
      (remember-Inv 1 "a" true no_keys (omega arith) (empty-Inv 1))

exit_zero_iff_example :
    (((standby_exit_status (some (sentinel canceled)) shutdown).0 ≡ 0)
      ↔ (some (sentinel canceled) ≡ none))
    × (((standby_exit_status (some (sentinel canceled)) shutdown).1 ≡ "")
        ↔ (some (sentinel canceled) ≡ none))
exit_zero_iff_example = exit_zero_iff (some (sentinel canceled)) shutdown
