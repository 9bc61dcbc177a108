-- ===== src/TaskArgs/Frame.antt =====
-- The flags of a task against the table of what each of its settings asks for.
use oz_agent_worker.Prelude.{◌≡◌, refl, false, Option, some, List, nat_eq, String, string_eq}
use oz_agent_worker.TaskArgs.{
  AmbientAgentConfig, TaskAugmentOptions, Formats, is_oz, model_flag, computer_use_flags,
  append_config, append_snapshot, resolve_idle_on_complete, augment_args_for_task,
}
use oz_agent_worker.TaskArgs.Table.{Table}

module _ (f : Formats) where
  -- On a harness that is not Oz, the snapshot's model and computer-use model have no effect on the
  -- arguments.
  pub models_for_oz :
      (c : AmbientAgentConfig) (model computer_use_model : Option String) (args : List String)
      (opts : TaskAugmentOptions)
      → is_oz c.harness ≡ false
      → augment_args_for_task f
          (some (some (record c { model_id = model; computer_use_model_id = computer_use_model })))
          args
          opts
        ≡ augment_args_for_task f (some (some c)) args opts
  unfolding augment_args_for_task append_snapshot append_config model_flag computer_use_flags
      resolve_idle_on_complete
  models_for_oz c model computer_use_model args opts h = rw h refl
