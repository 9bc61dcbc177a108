-- ===== src/Outbound/Order/Drain.antt =====
-- Every accepted message is received by the write loop, once it has received often enough.
use oz_agent_worker.Prelude.{
  ℕ, suc, ◌≤◌, ◌≡◌, refl, sym, ap, ◌∙◌, List, [], ◌∷◌, ◌++◌, length, arith, append-nil,
  append_assoc, ltb, Bool-cases, inl, inr,
}
use oz_agent_worker.Outbound.{send, close, receive, receive_from}
use oz_agent_worker.Outbound.Order.{
  Call, sends, closes, receives, History, step, run, deliver, start, run_fifo,
}

module _ {ℓ} {A : Type ℓ} where
  -- The receives among the calls.
  abbrev pub receive_count : List (Call A) → ℕ
  receive_count [] = 0
  receive_count (sends m ∷ cs) = receive_count cs
  receive_count (closes ∷ cs) = receive_count cs
  receive_count (receives ∷ cs) = suc (receive_count cs)

  step-receives :
      (h : History A) (x : A) (xs : List A)
      → h.queue.messages ≡ x ∷ xs
      → ((step h receives).delivered ≡ h.delivered ++ x ∷ [])
        × ((step h receives).queue.messages ≡ xs)
  unfolding step receive receive_from deliver
  step-receives h x xs e = rw (e, step, receive) (refl, refl)

  step-receives_none :
      (h : History A)
      → h.queue.messages ≡ []
      → ((step h receives).delivered ≡ h.delivered) × ((step h receives).queue.messages ≡ [])
  unfolding step receive receive_from deliver
  step-receives_none h e = elim (Bool-cases h.queue.closed) [
    | inl c ↦ rw (e, step, receive, receive_from, c) (refl, refl)
    | inr c ↦ rw (e, step, receive, receive_from, c) (refl, refl)
  ]

  -- A send or a close leaves the messages, with new ones behind them.
  step-sends :
      (h : History A) (m : A)
      → (t : List A) × ((step h (sends m)).queue.messages ≡ h.queue.messages ++ t)
  unfolding step send
  step-sends h m = elim (Bool-cases h.queue.closed) [
    | inl c ↦ ([], rw (step, send, c) (sym (append-nil h.queue.messages)))
    | inr c ↦ elim (Bool-cases (ltb (length h.queue.messages) h.queue.capacity)) [
      | inl b ↦ (m ∷ [], rw (step, send, c, b) refl)
      | inr b ↦ ([], rw (step, send, c, b) (sym (append-nil h.queue.messages)))
    ]
  ]

  step-closes : (h : History A) → (step h closes).queue.messages ≡ h.queue.messages
  unfolding step close
  step-closes h = ground arith

  run_delivers :
      (h : History A) (ms tail : List A) (cs : List (Call A))
      → h.queue.messages ≡ ms ++ tail
      → length ms ≤ receive_count cs
      → (rest : List A) × ((run h cs).delivered ≡ h.delivered ++ (ms ++ rest))
  unfolding run step
  run_delivers h [] tail [] e p = ([], sym (append-nil h.delivered))
  run_delivers h (m ∷ ms) tail [] e p = elim (short p) [ ]
    where
      short : suc (length ms) ≤ 0 → ⊥
      short q = omega (arith, q)
  run_delivers h ms tail (sends m ∷ cs) e p =
      let (t, more) = step-sends h m in
      run_delivers (step h (sends m)) ms (tail ++ t) cs
        (more ∙ ap (λ xs. xs ++ t) e ∙ append_assoc ms tail t) p
  run_delivers h ms tail (closes ∷ cs) e p =
      run_delivers (step h closes) ms tail cs (step-closes h ∙ e) p
  run_delivers h (m ∷ ms) tail (receives ∷ cs) e p =
      let got = step-receives h m (ms ++ tail) e in
      let (rest, d) = run_delivers (step h receives) ms tail cs got.1 (omega (arith, p)) in
      (
        rest,
        d ∙ ap (λ xs. xs ++ (ms ++ rest)) got.0 ∙ append_assoc h.delivered (m ∷ []) (ms ++ rest),
      )
  run_delivers h [] [] (receives ∷ cs) e p =
      let got = step-receives_none h e in
      let (rest, d) = run_delivers (step h receives) [] [] cs got.1 (omega arith) in
      (rest, d ∙ ap (λ xs. xs ++ rest) got.0)
  run_delivers h [] (x ∷ tail) (receives ∷ cs) e p =
      let got = step-receives h x tail e in
      let (rest, d) = run_delivers (step h receives) [] tail cs got.1 (omega arith) in
      (x ∷ rest, d ∙ ap (λ xs. xs ++ rest) got.0 ∙ append_assoc h.delivered (x ∷ []) rest)

-- A message whose send succeeded is received, in its order, once the write loop has received as often
-- as there were messages in the queue, whatever else is called meanwhile, a close included.
pub accepted_delivered {ℓ} :
    {A : Type ℓ} (capacity : ℕ) (before after : List (Call A))
    → length (run (start capacity) before).queue.messages ≤ receive_count after
    → (rest : List A) × ((run (run (start capacity) before) after).delivered
        ≡ (run (start capacity) before).accepted ++ rest)
accepted_delivered capacity before after p =
    let h = run (start capacity) before in
    let (rest, d) =
      run_delivers h h.queue.messages [] after (sym (append-nil h.queue.messages)) p in
    (
      rest,
      d
          ∙ sym (append_assoc h.delivered h.queue.messages rest)
          ∙ ap (λ xs. xs ++ rest) (sym (run_fifo capacity before).0),
    )
