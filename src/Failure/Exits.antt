-- ===== src/Failure/Exits.antt =====
-- The exit status of a standby sandbox: standbyExitStatus of internal/worker/standby.go and the
-- contract of PrewarmExitedMessage in internal/types/messages.go.
use oz_agent_worker.Prelude.{
  ◌≡◌, refl, ap, ◌∙◌, sym, ◌↔◌, false, Option, none, some, String, ◌==◌, string_eq, beq_refl, ◌≢◌,
  arith,
}
use oz_agent_worker.Failure.{
  Reason, unknown, GoError, Source, unset, reason_text, standby_exit_status,
}

reason_text_nonempty : (r : Reason) → (reason_text r == "") ≡ false
unfolding reason_text
reason_text_nonempty unknown = refl
reason_text_nonempty _ = refl

reason_text-ne : (r : Reason) → reason_text r ≢ ""
reason_text-ne r e = cc (reason_text_nonempty r, ap (λ s. s == "") e, beq_refl {A = String} "")

exited_nonzero : (e : GoError) (source : Source) → (standby_exit_status (some e) source).0 ≢ 0
unfolding standby_exit_status
exited_nonzero e source = ground arith

exited_reason :
    (e : GoError) (source : Source)
    → (r : Reason) × ((standby_exit_status (some e) source).1 ≡ reason_text r)
unfolding standby_exit_status
exited_reason e unset = (_, refl)
exited_reason e _ = (_, refl)

-- A standby reports exit code 0 exactly when its backend returned no error, and exactly then its
-- reason is empty.
pub exit_zero_iff :
    (err : Option GoError) (source : Source)
    → (((standby_exit_status err source).0 ≡ 0) ↔ (err ≡ none))
      × (((standby_exit_status err source).1 ≡ "") ↔ (err ≡ none))
exit_zero_iff none source =
    unfold standby_exit_status in ((λ _. refl, λ _. refl), (λ _. refl, λ _. refl))
exit_zero_iff (some e) source =
    let (r, text) = exited_reason e source in
    (
      (λ h. absurd (exited_nonzero e source h), λ h. cc),
      (λ h. absurd (reason_text-ne r (sym text ∙ h)), λ h. cc),
    )
