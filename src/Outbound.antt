-- ===== src/Outbound.antt =====
-- internal/worker/outbound_queue.go: the queue between the worker and its WebSocket write loop.
-- A mutex makes each call one step. A full channel blocks the sender for at most five seconds:
-- `send` is the step in which the select is decided, with the queue as it is then.
pub mod Order
use oz_agent_worker.Prelude.{
  ℕ, ◌++◌, Bool, true, false, if◌then◌else◌, ◌||◌, List, [], ◌∷◌, Option, none, some, ltb, length,
}

pub data SendError : Type 0 where
  shutting_down send_timeout : SendError

pub record Queue {ℓ} (A : Type ℓ) : Type ℓ where
  pub capacity : ℕ
  pub messages : List A
  pub closed : Bool

-- What a receive from the channel finds.
pub data Received {ℓ} (A : Type ℓ) : Type ℓ where
  message : A → Received A
  blocked end_of_queue : Received A

module _ {ℓ} {A : Type ℓ} where
  unfoldable pub new_outbound_queue : ℕ → Queue A
  new_outbound_queue capacity = record { capacity = capacity; messages = []; closed = false }

  -- The message is buffered if the channel has room.
  unfoldable pub send : A → Queue A → Queue A × Option SendError
  send m q =
      if q.closed
      then (q, some shutting_down)
      else if ltb (length q.messages) q.capacity
      then (record q { messages = q.messages ++ m ∷ [] }, none)
      else (q, some send_timeout)

  -- A second close does nothing: closing a closed channel would panic.
  unfoldable pub close : Queue A → Queue A
  close q = if q.closed then q else record q { closed = true }

  receive_from : List A → Queue A → Received A × Queue A
  receive_from [] q = (if q.closed then end_of_queue else blocked, q)
  receive_from (m ∷ ms) q = (message m, record q { messages = ms })

  -- A receive from `Messages()`: a closed channel first gives what is buffered.
  unfoldable pub receive : Queue A → Received A × Queue A
  unfolding receive_from
  receive q = receive_from q.messages q
