-- ===== src/Outbound/Order.antt =====
-- What the queue of internal/worker/outbound_queue.go promises over any sequence of calls.
pub mod Drain
pub mod Log
use oz_agent_worker.Prelude.{
  ℕ, ◌≤◌, ◌≡◌, refl, sym, ap, ◌∙◌, ◌++◌, append_assoc, true, List, [], ◌∷◌, Option, none, some,
  length, length-append, arith,
}
use oz_agent_worker.Outbound.{
  Queue, SendError, Received, message, blocked, end_of_queue, new_outbound_queue, send, close,
  receive, receive_from,
}

pub data Call {ℓ} (A : Type ℓ) : Type ℓ where
  sends : A → Call A
  closes receives : Call A

-- The queue with the messages whose send returned nil and those the writer has received.
pub record History {ℓ} (A : Type ℓ) : Type ℓ where
  pub queue : Queue A
  pub accepted : List A
  pub delivered : List A

module _ {ℓ} {A : Type ℓ} where
  accept : A → List A → Option SendError → List A
  accept m ms none = ms ++ m ∷ []
  accept m ms (some e) = ms

  deliver : List A → Received A → List A
  deliver ms (message m) = ms ++ m ∷ []
  deliver ms blocked = ms
  deliver ms end_of_queue = ms

  pub step : History A → Call A → History A
  unfolding accept deliver
  step h (sends m) =
      let (q, e) = send m h.queue in record h { queue = q; accepted = accept m h.accepted e }
  step h closes = record h { queue = close h.queue }
  step h receives =
      let (r, q) = receive h.queue in record h { queue = q; delivered = deliver h.delivered r }

  pub run : History A → List (Call A) → History A
  run h [] = h
  run h (c ∷ cs) = run (step h c) cs

  pub start : ℕ → History A
  unfolding new_outbound_queue
  start capacity = record { queue = new_outbound_queue capacity; accepted = []; delivered = [] }

  -- Nothing is lost, made up or reordered, and the buffer keeps within its capacity.
  pub record Inv (capacity : ℕ) (h : History A) : Type ℓ where
    pub fifo : h.accepted ≡ h.delivered ++ h.queue.messages
    pub fits : length h.queue.messages ≤ capacity
    pub fixed : h.queue.capacity ≡ capacity

  receive-Inv :
      (n : ℕ) (h : History A) (ms : List A)
      → h.queue.messages ≡ ms
      → Inv n h
      → (let (r, q) = receive_from ms h.queue in
          Inv n (record h { queue = q; delivered = deliver h.delivered r }))
  unfolding receive_from deliver
  receive-Inv n h [] e v = ground arith
  receive-Inv n h (m ∷ ms) e v = record {
    fifo = v.fifo ∙ ap (◌++◌ h.delivered) e ∙ sym (append_assoc h.delivered (m ∷ []) ms);
    fits = omega (arith, v.fits, ap length e);
    fixed = v.fixed;
  }

  step-Inv : (n : ℕ) (h : History A) (c : Call A) → Inv n h → Inv n (step h c)
  unfolding step send close receive
  step-Inv n h (sends m) v = ground (
    arith,
    append_assoc h.delivered h.queue.messages (m ∷ []),
    length-append h.queue.messages (m ∷ []),
  )
  step-Inv n h closes v = ground arith
  step-Inv n h receives v = receive-Inv n h h.queue.messages refl v

  pub run-Inv : (n : ℕ) (h : History A) (cs : List (Call A)) → Inv n h → Inv n (run h cs)
  unfolding run
  run-Inv n h [] v = v
  run-Inv n h (c ∷ cs) v = run-Inv n (step h c) cs (step-Inv n h c v)

  start-Inv : (n : ℕ) → Inv n (start n)
  unfolding start
  start-Inv n = record { fifo = refl; fits = omega arith; fixed = refl }

  -- The calls since the queue was closed: it stays closed and accepts nothing.
  step_closed :
      (h : History A) (c : Call A)
      → h.queue.closed ≡ true
      → ((step h c).queue.closed ≡ true) × ((step h c).accepted ≡ h.accepted)
  unfolding step send close receive receive_from accept
  step_closed h (sends m) p = ground arith
  step_closed h closes p = ground arith
  step_closed h receives p = ground arith

  close_closed : (h : History A) → (step h closes).queue.closed ≡ true
  unfolding step close
  close_closed h = ground arith

  run_closed :
      (h : History A) (cs : List (Call A))
      → h.queue.closed ≡ true
      → (run h cs).accepted ≡ h.accepted
  unfolding run
  run_closed h [] p = refl
  run_closed h (c ∷ cs) p = let (q, e) = step_closed h c p in run_closed (step h c) cs q ∙ e

  -- Once `close` has been called no further send succeeds, whatever is called later.
  pub close_final :
      (h : History A) (cs : List (Call A)) → (run (step h closes) cs).accepted ≡ h.accepted
  close_final h cs = run_closed (step h closes) cs (close_closed h) ∙ keeps
    where
      keeps : (step h closes).accepted ≡ h.accepted
      keeps = unfold step in refl

  -- The messages whose send succeeded are those received so far and then those still buffered, in
  -- the order in which they were sent, whatever calls were made; the buffer never exceeds its
  -- capacity.
  pub run_fifo :
      (capacity : ℕ) (cs : List (Call A))
      → (let h = run (start capacity) cs in
          (h.accepted ≡ h.delivered ++ h.queue.messages) × (length h.queue.messages ≤ capacity))
  run_fifo n cs = let v = run-Inv n (start n) cs (start-Inv n) in (v.fifo, v.fits)
