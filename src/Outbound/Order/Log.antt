-- ===== src/Outbound/Order/Log.antt =====
-- The queue as a log: an abstract description that forgets the buffer.
use oz_agent_worker.Prelude.{
  ℕ, zero, suc, ◌-◌, ◌≤◌, ◌≡◌, refl, sym, ap, ◌∙◌, List, [], ◌∷◌, ◌++◌, Bool, true, false, length,
  arith, if◌then◌else◌, ltb, Option, none, some, drop, length-drop, length-append, get_elem?,
  if-rule, both-rule, subst,
}
use oz_agent_worker.Outbound.{
  Queue, new_outbound_queue, send, close, receive, receive_from, Received, message, blocked,
  end_of_queue, SendError, shutting_down, send_timeout,
}
use oz_agent_worker.Outbound.Order.{Call, sends, closes, receives}

-- What a caller sees of a call.
pub data Response {ℓ} (A : Type ℓ) : Type ℓ where
  accepted shut : Response A
  rejected : SendError → Response A
  received : Received A → Response A

-- All messages ever accepted, how many of them were received, and whether the queue was closed.
pub record Log {ℓ} (A : Type ℓ) : Type ℓ where
  pub sent : List A
  pub got : ℕ
  pub is_shut : Bool

module _ {ℓ} {A : Type ℓ} where
  abbrev answer : Option SendError → Response A
  answer none = accepted
  answer (some e) = rejected e

  -- The queue of the code, with what the caller sees.
  unfoldable pub respond : Queue A → Call A → Queue A × Response A
  respond q (sends m) = let r = send m q in (r.0, answer r.1)
  respond q closes = (close q, shut)
  respond q receives = let r = receive q in (r.1, received r.0)

  abbrev next : Log A → Option A → Log A × Response A
  next l (some m) = (record l { got = suc l.got }, received (message m))
  next l none = (l, received (if l.is_shut then end_of_queue else blocked))

  -- The description: a message is accepted while fewer than `capacity` wait, and read in turn.
  unfoldable pub log_step : ℕ → Log A → Call A → Log A × Response A
  log_step capacity l (sends m) =
      if l.is_shut
      then (l, rejected shutting_down)
      else if ltb (length l.sent - l.got) capacity
      then (record l { sent = l.sent ++ m ∷ [] }, accepted)
      else (l, rejected send_timeout)
  log_step capacity l closes = (record l { is_shut = true }, shut)
  log_step capacity l receives = next l (get_elem? l.sent l.got)

  unfoldable pub responses : Queue A → List (Call A) → List (Response A)
  responses q [] = []
  responses q (c ∷ cs) = let r = respond q c in r.1 ∷ responses r.0 cs

  unfoldable pub log_responses : ℕ → Log A → List (Call A) → List (Response A)
  log_responses capacity l [] = []
  log_responses capacity l (c ∷ cs) =
      let r = log_step capacity l c in r.1 ∷ log_responses capacity r.0 cs

  -- The queue buffers the rest of the log.
  record Simulates (capacity : ℕ) (q : Queue A) (l : Log A) : Type ℓ where
    buffered : q.messages ≡ drop l.got l.sent
    same_end : q.closed ≡ l.is_shut
    same_capacity : q.capacity ≡ capacity
    behind : l.got ≤ length l.sent

  drop-snoc :
      (n : ℕ) (xs : List A) (x : A) → n ≤ length xs → drop n (xs ++ x ∷ []) ≡ drop n xs ++ x ∷ []
  drop-snoc zero xs x h = refl
  drop-snoc (suc n) [] x h = ground (arith, h)
  drop-snoc (suc n) (y ∷ xs) x h = drop-snoc n xs x (omega (arith, h))

  drop-nil : (n : ℕ) (xs : List A) → drop n xs ≡ [] → get_elem? xs n ≡ none
  drop-nil zero [] h = refl
  drop-nil zero (x ∷ xs) h = ground (arith, h)
  drop-nil (suc n) [] h = refl
  drop-nil (suc n) (x ∷ xs) h = drop-nil n xs h

  drop-cons :
      (n : ℕ) (xs : List A) (y : A) (ys : List A)
      → drop n xs ≡ y ∷ ys
      → (get_elem? xs n ≡ some y) × (drop (suc n) xs ≡ ys) × (suc n ≤ length xs)
  drop-cons zero [] y ys h = ground (arith, h)
  drop-cons zero (x ∷ xs) y ys h = ground (arith, h)
  drop-cons (suc n) [] y ys h = ground (arith, h)
  drop-cons (suc n) (x ∷ xs) y ys h =
      let r = drop-cons n xs y ys h in (r.0, r.1, omega (arith, r.2))

  Agrees : ℕ → Queue A × Response A → Log A × Response A → Type ℓ
  Agrees capacity r s = Simulates capacity r.0 s.0 × (r.1 ≡ s.1)

  room :
      (n : ℕ) (q : Queue A) (l : Log A)
      → Simulates n q l
      → ltb (length q.messages) q.capacity ≡ ltb (length l.sent - l.got) n
  room n q l v = rw (v.buffered, v.same_capacity, length-drop l.got l.sent) refl

  sends-Agrees :
      (n : ℕ) (q : Queue A) (l : Log A) (m : A)
      → Simulates n q l
      → Agrees n (respond q (sends m)) (log_step n l (sends m))
  unfolding respond log_step send Agrees
  sends-Agrees n q l m v =
      let added = record q { messages = q.messages ++ m ∷ [] } in
      let appended = record l { sent = l.sent ++ m ∷ [] } in
      let same = room n q l v in
      let answered : Queue A × Option SendError → Queue A × Response A = λ r. (r.0, answer r.1) in
      both-rule (Agrees n) answered q.closed l.is_shut (q, some shutting_down)
        (if ltb (length q.messages) q.capacity then (added, none) else (q, some send_timeout))
        (l, rejected shutting_down)
        (if ltb (length l.sent - l.got) n then (appended, accepted) else (l, rejected send_timeout))
        v.same_end (v, refl)
        (both-rule (Agrees n) answered (ltb (length q.messages) q.capacity)
          (ltb (length l.sent - l.got) n) (added, none) (q, some send_timeout) (appended, accepted)
          (l, rejected send_timeout) same
          (
            record {
              buffered =
                  ap (λ ms. ms ++ m ∷ []) v.buffered ∙ sym (drop-snoc l.got l.sent m v.behind);
              same_end = v.same_end;
              same_capacity = v.same_capacity;
              behind = omega (arith, v.behind, length-append l.sent (m ∷ []));
            },
            refl,
          )
          (v, refl))

  closes-Agrees :
      (n : ℕ) (q : Queue A) (l : Log A)
      → Simulates n q l
      → Agrees n (respond q closes) (log_step n l closes)
  unfolding respond log_step close Agrees
  closes-Agrees n q l v =
      let shut_log = record l { is_shut = true } in
      let P = λ (x : Queue A). Simulates n x shut_log × ◌≡◌ {A = Response A} shut shut in
      if-rule P q.closed q (record q { closed = true })
        (λ e. (
          record {
            buffered = v.buffered;
            same_end = e;
            same_capacity = v.same_capacity;
            behind = v.behind;
          },
          refl,
        ))
        (λ e. (
          record {
            buffered = v.buffered;
            same_end = refl;
            same_capacity = v.same_capacity;
            behind = v.behind;
          },
          refl,
        ))

  receives-Agrees :
      (n : ℕ) (q : Queue A) (l : Log A) (ms : List A)
      → q.messages ≡ ms
      → Simulates n q l
      → Agrees n
          (let r = receive_from ms q in (r.1, received r.0))
          (next l (get_elem? l.sent l.got))
  unfolding receive_from Agrees
  receives-Agrees n q l [] e v =
      subst (λ o. Agrees n (q, received (if q.closed then end_of_queue else blocked)) (next l o))
        (sym (drop-nil l.got l.sent (sym v.buffered ∙ e)))
        (v, ap (λ b. received (if b then end_of_queue else blocked)) v.same_end)
  receives-Agrees n q l (m ∷ ms) e v =
      let rest = drop-cons l.got l.sent m ms (sym v.buffered ∙ e) in
      subst (λ o. Agrees n (record q { messages = ms }, received (message m)) (next l o))
        (sym rest.0)
        (
          record {
            buffered = sym rest.1;
            same_end = v.same_end;
            same_capacity = v.same_capacity;
            behind = rest.2;
          },
          refl,
        )

  step-Agrees :
      (n : ℕ) (q : Queue A) (l : Log A) (c : Call A)
      → Simulates n q l
      → Agrees n (respond q c) (log_step n l c)
  unfolding respond log_step receive
  step-Agrees n q l (sends m) v = sends-Agrees n q l m v
  step-Agrees n q l closes v = closes-Agrees n q l v
  step-Agrees n q l receives v = receives-Agrees n q l q.messages refl v

  run-Agrees :
      (n : ℕ) (q : Queue A) (l : Log A) (cs : List (Call A))
      → Simulates n q l
      → responses q cs ≡ log_responses n l cs
  unfolding responses log_responses Agrees
  run-Agrees n q l [] v = refl
  run-Agrees n q l (c ∷ cs) v =
      let r = step-Agrees n q l c v in
      ap (λ x. x ∷ responses (respond q c).0 cs) r.1
      ∙ ap (λ xs. (log_step n l c).1 ∷ xs) (run-Agrees n (respond q c).0 (log_step n l c).0 cs r.0)

  -- To its callers the queue is a log that is appended to and read in turn: after any calls, every
  -- call answers as on the list of all accepted messages with the number of those received.
  pub queue_refines_log :
      (capacity : ℕ) (cs : List (Call A))
      → responses (new_outbound_queue capacity) cs
        ≡ log_responses capacity (record { sent = []; got = 0; is_shut = false }) cs
  unfolding new_outbound_queue
  queue_refines_log capacity cs =
      run-Agrees capacity (new_outbound_queue capacity)
        (record { sent = []; got = 0; is_shut = false }) cs
        (record { buffered = refl; same_end = refl; same_capacity = refl; behind = omega arith })
