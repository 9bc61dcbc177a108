-- ===== src/Backoff/Delays.antt =====
-- The delays in closed form.
use oz_agent_worker.Prelude.{
  ℕ, zero, suc, ◌*◌, ◌^◌, ◌≡◌, refl, sym, ap, ◌∙◌, Bool, true, false, List, [], ◌∷◌, ◌++◌, min,
  arith,
}
use native.Mathlib.Nat.{mul_assoc, pow-suc}
use oz_agent_worker.Worker.Cancel.{
  initial_cancellation_retry_delay, max_cancellation_retry_delay, retry_cancellation,
}
use oz_agent_worker.Backoff.{
  initial_reconnect_delay, max_reconnect_delay, connection_closed, Round, dial_failed, served,
  run_loop, run,
}

-- The delay after `n` failures in a row.
abbrev pub delay_after : ℕ → ℕ → ℕ → ℕ
delay_after initial limit n = min (initial * 2 ^ n) limit

next_delay :
    (initial limit n : ℕ)
    → min (delay_after initial limit n * 2) limit ≡ delay_after initial limit (suc n)
next_delay initial limit n =
    let double : initial * 2 ^ suc n ≡ initial * 2 ^ n * 2 =
      ap (λ p. initial * p) (pow-suc 2 n) ∙ sym (mul_assoc initial (2 ^ n) 2) in
    let open_min : min (min (initial * 2 ^ n) limit * 2) limit ≡ min (initial * 2 ^ n * 2) limit =
      omega arith in
    open_min ∙ ap (λ d. min d limit) (sym double)

-- The delays after `k`, ..., `k + n - 1` failures in a row.
unfoldable pub delays_from : ℕ → ℕ → ℕ → ℕ → List ℕ
delays_from initial limit k zero = []
delays_from initial limit k (suc n) =
    delay_after initial limit k ∷ delays_from initial limit (suc k) n

unfoldable pub repeat {ℓ} : {A : Type ℓ} → ℕ → A → List A
repeat zero x = []
repeat (suc n) x = x ∷ repeat n x

run_loop-failures :
    (k n : ℕ) (rounds : List Round)
    → let delay = delay_after initial_reconnect_delay max_reconnect_delay k in
      run_loop delay (repeat n dial_failed ++ served connection_closed ∷ rounds)
      ≡ (record (run rounds) {
        waits = delays_from initial_reconnect_delay max_reconnect_delay k n ++ (run rounds).waits;
      })
unfolding run_loop run delays_from repeat
run_loop-failures k zero rounds = refl
run_loop-failures k (suc n) rounds = ground (
  arith,
  next_delay initial_reconnect_delay max_reconnect_delay k,
  run_loop-failures (suc k) n rounds,
)

-- After `n` failed dials in a row and a connection that is later lost, the loop has waited
-- min(1 s * 2^i, 60 s) for i from 0 to n - 1, and goes on as a new loop would: the delay is reset.
pub reconnect_delays :
    (n : ℕ) (rounds : List Round)
    → run (repeat n dial_failed ++ served connection_closed ∷ rounds) ≡ (record (run rounds) {
      waits = delays_from initial_reconnect_delay max_reconnect_delay 0 n ++ (run rounds).waits;
    })
unfolding run
reconnect_delays n rounds = run_loop-failures 0 n rounds

retry-failures :
    (k n : ℕ) (answers : List Bool)
    → retry_cancellation
        (delay_after initial_cancellation_retry_delay max_cancellation_retry_delay k)
        (repeat n false ++ true ∷ answers)
      ≡ (true, delays_from initial_cancellation_retry_delay max_cancellation_retry_delay k n)
unfolding retry_cancellation delays_from repeat
retry-failures k zero answers = refl
retry-failures k (suc n) answers = ground (
  arith,
  next_delay initial_cancellation_retry_delay max_cancellation_retry_delay k,
  retry-failures (suc k) n answers,
)

-- When the backend refuses a cancellation `n` times and then accepts it, the retry loop has waited
-- min(100 ms * 2^i, 10 s) for i from 0 to n - 1, reports the acceptance, and asks no further.
pub cancellation_delays :
    (n : ℕ) (answers : List Bool)
    → retry_cancellation initial_cancellation_retry_delay (repeat n false ++ true ∷ answers)
      ≡ (true, delays_from initial_cancellation_retry_delay max_cancellation_retry_delay 0 n)
cancellation_delays n answers = retry-failures 0 n answers
