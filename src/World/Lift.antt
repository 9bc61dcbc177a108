-- ===== src/World/Lift.antt =====
-- What a property of the world needs to hold after an event of one goroutine, or of the reader.
use oz_agent_worker.Prelude.{◌≡◌, refl, Option, none, some}
use oz_agent_worker.Worker.{Key}
use oz_agent_worker.World.{
  Reader, idle, admitted, holding, registered, Exec, Phase, Run, World, with_exec,
}
use oz_agent_worker.World.Events.{with_run, when_idle}

module _ {ℓ} {S : Type 0} (P : World S → Type ℓ) where
  pub with_exec_keeps :
      (f : Key → Phase → World S → World S) (o : Option Exec) (w : World S)
      → P w
      → ((x : Exec) → o ≡ some x → P (f x.key x.phase w))
      → P (with_exec f o w)
  with_exec_keeps f none w v h = v
  with_exec_keeps f (some x) w v h = h x refl

  pub with_run_keeps :
      (f : Run → World S → World S) (o : Option Run) (w : World S)
      → P w
      → ((x : Run) → o ≡ some x → P (f x w))
      → P (with_run f o w)
  with_run_keeps f none w v h = v
  with_run_keeps f (some x) w v h = h x refl

  pub when_idle_keeps :
      (r : Reader) (f : World S → World S) (w : World S)
      → P w
      → (r ≡ idle → P (f w))
      → P (when_idle r f w)
  when_idle_keeps idle f w v h = h refl
  when_idle_keeps (admitted k) f w v h = v
  when_idle_keeps (holding k) f w v h = v
  when_idle_keeps (registered k) f w v h = v
