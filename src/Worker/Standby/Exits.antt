-- ===== src/Worker/Standby/Exits.antt =====
-- Repeated reports of the exit of a standby (internal/worker/standby.go).
use oz_agent_worker.Prelude.{
  ℕ, suc, ◌+◌, ◌<◌, List, [], ◌∷◌, length, subst, ◌≡◌, refl, sym, ap, ◌∙◌, true, false, Option,
  none, some, String, string_eq, Bool-cases, inl, inr, arith,
}
use oz_agent_worker.Assoc.{lookup}
use oz_agent_worker.Recent.{Inv, Behind, is_known, note-Inv}
use oz_agent_worker.Recent.Lasting.{contains_of_Behind, note-Behind, noted-Behind}
use oz_agent_worker.Failure.{GoError, standby_exit_status}
use oz_agent_worker.Worker.Execute.{ExecuteResult}
use oz_agent_worker.Worker.{Worker, StandbyEntry}
use oz_agent_worker.Worker.Standby.{
  standby_exit_cache_size, send_standby_exit, report_watched_standby_exit, reported,
  report_standby_exit, standby_error,
}

-- An exit: the standby's ID, the code and the reason.
abbrev pub StandbyExit : Type 0
StandbyExit = String × ℕ × String

module _ {S : Type 0} where
  send-Inv :
      (id : String) (code : ℕ) (reason : String) (w : Worker S)
      → Inv standby_exit_cache_size w.standby_exits
      → Inv standby_exit_cache_size (send_standby_exit id code reason w).standby_exits
  unfolding send_standby_exit
  send-Inv id code reason w v = elim (Bool-cases (is_known id w.standby_exits)) [
    | inl old ↦ rw old v
    | inr new ↦ rw new (note-Inv standby_exit_cache_size id tt w.standby_exits v)
  ]

  send-again :
      (id : String) (code : ℕ) (reason : String) (w : Worker S)
      → is_known id w.standby_exits ≡ true
      → send_standby_exit id code reason w ≡ w
  unfolding send_standby_exit
  send-again id code reason w k = rw k

  watched-again :
      (id : String) (code : ℕ) (reason : String) (w : Worker S)
      → is_known id w.standby_exits ≡ true
      → report_watched_standby_exit id code reason w ≡ w
  unfolding report_watched_standby_exit
  watched-again id code reason w k = ground (arith, send-again id code reason w k)

  reported-again :
      (id : String) (o : Option StandbyEntry) (err : Option GoError) (w : Worker S)
      → is_known id w.standby_exits ≡ true
      → reported id o err w ≡ w
  unfolding reported
  reported-again id none err w k = refl
  reported-again id (some e) err w k =
      let status = standby_exit_status err e.cancel_source in
      ground (arith, send-again id status.0 status.1 w k)

  -- Exits sent one after the other.
  pub send_exits : List StandbyExit → Worker S → Worker S
  send_exits [] w = w
  send_exits ((id, code, reason) ∷ later) w = send_exits later (send_standby_exit id code reason w)

  send-Behind :
      (n : ℕ) (id k : String) (code : ℕ) (reason : String) (w : Worker S)
      → suc n < standby_exit_cache_size
      → Behind n id w.standby_exits.order
      → Behind (suc n) id (send_standby_exit k code reason w).standby_exits.order
  unfolding send_standby_exit
  send-Behind n id k code reason w p b = elim (Bool-cases (is_known k w.standby_exits)) [
    | inl old ↦ rw old (b.0, b.1, b.2, omega (arith, b.3))
    | inr new ↦ rw new (note-Behind standby_exit_cache_size n id k tt w.standby_exits p b)
  ]

  send_exits-known :
      (n : ℕ) (id : String) (later : List StandbyExit) (w : Worker S)
      → n + length later < standby_exit_cache_size
      → Behind n id w.standby_exits.order
      → Inv standby_exit_cache_size w.standby_exits
      → let r = (send_exits later w).standby_exits in
        Inv standby_exit_cache_size r × (is_known id r ≡ true)
  unfolding send_exits
  send_exits-known n id [] w p b v =
      (v, v.agree id ∙ contains_of_Behind n id w.standby_exits.order b)
  send_exits-known n id ((k, code, reason) ∷ later) w p b v =
      send_exits-known (suc n) id later (send_standby_exit k code reason w) (omega arith)
        (send-Behind n id k code reason w (omega arith) b) (send-Inv k code reason w v)

  sent-Behind :
      (id : String) (code : ℕ) (reason : String) (w : Worker S)
      → is_known id w.standby_exits ≡ false
      → Behind 0 id (send_standby_exit id code reason w).standby_exits.order
  unfolding send_standby_exit
  sent-Behind id code reason w new =
      rw new (noted-Behind standby_exit_cache_size id tt w.standby_exits (omega arith) new)

  -- While the cache of exits is well formed, an exit that was not known and is sent is not reported
  -- again before 4096 further exits are sent: in any worker whose cache is the one that fewer
  -- further exits leave, which is well formed, neither a send, nor the watcher, nor the standby's own
  -- goroutine changes anything for this standby, whatever codes, reasons and results they bring.
  pub exit_reported_once :
      (id : String) (code later_code : ℕ) (reason later_reason : String) (result : ExecuteResult)
      (later : List StandbyExit) (w u : Worker S)
      → Inv standby_exit_cache_size w.standby_exits
      → is_known id w.standby_exits ≡ false
      → length later < 4096
      → u.standby_exits ≡ (send_exits later (send_standby_exit id code reason w)).standby_exits
      → Inv standby_exit_cache_size u.standby_exits
        × (send_standby_exit id later_code later_reason u ≡ u)
        × (report_watched_standby_exit id later_code later_reason u ≡ u)
        × (report_standby_exit id result u ≡ u)
  unfolding report_standby_exit
  exit_reported_once id code later_code reason later_reason result later w u v new near same =
      let sent =
        send_exits-known 0 id later (send_standby_exit id code reason w) (omega arith)
          (sent-Behind id code reason w new) (send-Inv id code reason w v) in
      let k : is_known id u.standby_exits ≡ true = ap (is_known id) same ∙ sent.1 in
      (
        subst (Inv standby_exit_cache_size) (sym same) sent.0,
        send-again id later_code later_reason u k,
        watched-again id later_code later_reason u k,
        reported-again id (lookup id u.standbys) (standby_error result) u k,
      )
