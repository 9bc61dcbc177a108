-- ===== src/Tests/Texts.antt =====
-- The theorems on logs, environments, images and arguments at concrete inputs.
use oz_agent_worker.Prelude.{
  ◌≤◌, ◌≡◌, refl, true, false, if◌then◌else◌, none, some, List, [], ◌∷◌, ◌++◌, append-nil, arith,
  length, contains, IsDistinct, string_eq, nat_eq, ◌==◌, ◌⊎◌,
}
use oz_agent_worker.Assoc.{Map, lookup, insert}
use oz_agent_worker.TaskLog.{new_writer, close}
use oz_agent_worker.TaskLog.Stream.{lines_from, kept, concat, write_all, log_lines}
use oz_agent_worker.Env.{Bytes, bytes_eq, merge_env_vars, payload_env}
use oz_agent_worker.Env.Merge.{last_entry, or_else, value_at, keys_of, merge_overrides}
use oz_agent_worker.Redactor.{
  new_redactor, add, redact_with, redacted, patterns_for, max_record_bytes,
}
use oz_agent_worker.Redactor.Bounds.{IsBounded, add_all, redactor-IsBounded}
use oz_agent_worker.Redactor.Coverage.{secret_covered}
use oz_agent_worker.ImageRemapper.{
  Reference, built, new_image_remapper, remap, add_mapping, add_mappings, sort_sources,
  insert_source,
}
use oz_agent_worker.ImageRemapper.Effect.{listed, mapping_effect}
use oz_agent_worker.TaskArgs.{
  pos, AmbientAgentConfig, TaskAugmentOptions, Formats, is_oz, augment_args_for_task,
}
use oz_agent_worker.TaskArgs.Frame.{models_for_oz}

abbrev two_lines : List Bytes
two_lines = (104 ∷ 105 ∷ []) ∷ (33 ∷ 10 ∷ 97 ∷ []) ∷ []

log_lines_example :
    (write_all ((98 ∷ 10 ∷ []) ∷ []) (close (write_all two_lines (new_writer false 3)))).emitted
    ≡ kept (lines_from [] (concat two_lines))
log_lines_example = log_lines 3 two_lines ((98 ∷ 10 ∷ []) ∷ []) (omega arith)

-- A=1, A=2 and B=
abbrev a_one : Bytes
a_one = 65 ∷ 61 ∷ 49 ∷ []

abbrev a_two : Bytes
a_two = 65 ∷ 61 ∷ 50 ∷ []

abbrev b_empty : Bytes
b_empty = 66 ∷ 61 ∷ []

merge_overrides_example :
    IsDistinct (keys_of (merge_env_vars (a_one ∷ b_empty ∷ []) (a_two ∷ [])))
    × (last_entry (65 ∷ []) (merge_env_vars (a_one ∷ b_empty ∷ []) (a_two ∷ []))
        ≡ or_else (last_entry (65 ∷ []) (a_two ∷ [])) (last_entry (65 ∷ []) (a_one ∷ b_empty ∷ [])))
    × (lookup (65 ∷ []) (payload_env (merge_env_vars (a_one ∷ b_empty ∷ []) (a_two ∷ [])) [])
        ≡ value_at
            (or_else
              (last_entry (65 ∷ []) (a_two ∷ []))
              (last_entry (65 ∷ []) (a_one ∷ b_empty ∷ [])))
            none)
merge_overrides_example = merge_overrides (a_one ∷ b_empty ∷ []) (a_two ∷ []) (65 ∷ [])

abbrev unchanged : Bytes → Bytes
unchanged b = b

-- A replacer that masks the whole message.
abbrev mask_all : List Bytes → Bytes → Bytes
mask_all patterns message = redacted

secret_covered_example :
    ((redact_with mask_all
          (120 ∷ [])
          true
          (add_all unchanged unchanged (a_two ∷ []) (add unchanged unchanged a_one new_redactor))
        ≡ redacted)
      ⊎ ((redact_with mask_all (120 ∷ []) true (
              add_all unchanged unchanged (a_two ∷ []) (add unchanged unchanged a_one new_redactor))
            ≡ redacted)
          × (contains
                (patterns_for true
                  (add_all unchanged unchanged
                    (a_two ∷ [])
                    (add unchanged unchanged a_one new_redactor)).secrets)
                a_one
              ≡ true)))
    × (length (
          redact_with mask_all
            (120 ∷ [])
            true
            (add_all unchanged unchanged (a_two ∷ []) (add unchanged unchanged a_one new_redactor)))
        ≤ max_record_bytes)
secret_covered_example =
    secret_covered unchanged unchanged mask_all new_redactor a_one (a_two ∷ []) (120 ∷ []) true
      (omega arith)

redactor-IsBounded_example :
    IsBounded (add_all unchanged unchanged (a_one ∷ a_two ∷ []) new_redactor)
redactor-IsBounded_example = redactor-IsBounded unchanged unchanged (a_one ∷ a_two ∷ [])

-- References of the form name:tag, which keep the colon with the tag.
record Tagged : Type 0 where
  name : Bytes
  tag : Bytes

abbrev before_colon : Bytes → Tagged
before_colon [] = record { name = []; tag = [] }
before_colon (b ∷ bs) =
    let rest = before_colon bs in
    if b == 58 then record { name = []; tag = b ∷ bs } else record rest { name = b ∷ rest.name }

tagged-text : (n : Tagged) → n.name ++ n.tag ≡ (n.name ++ []) ++ n.tag
tagged-text n = ground (arith, append-nil n.name)

instance abbrev tagged_reference : Reference Tagged
tagged_reference = record {
  parse_normalized_named = λ b. some (before_colon b);
  is_name_only = λ n. length n.tag == 0;
  text = λ n. n.name ++ n.tag;
  trim_named = λ n. record n { tag = [] };
  suffix = λ n. n.tag;
  text-trim_named = tagged-text;
}

abbrev mirror : Map Bytes Bytes
mirror = (97 ∷ [], 98 ∷ []) ∷ []

abbrev mirror_table : Map Bytes Tagged
mirror_table = (97 ∷ [], record { name = 98 ∷ []; tag = [] }) ∷ []

mirror-built : new_image_remapper mirror ≡ built mirror_table
unfolding new_image_remapper add_mappings add_mapping sort_sources insert_source lookup insert
mirror-built = refl

mirror-listed : listed (97 ∷ [], 98 ∷ []) mirror ≡ true
unfolding listed
mirror-listed = refl

mapping_effect_example : remap mirror_table (97 ∷ 58 ∷ 49 ∷ []) ≡ 98 ∷ 58 ∷ 49 ∷ []
mapping_effect_example =
    mapping_effect mirror mirror_table (97 ∷ []) (98 ∷ []) (97 ∷ 58 ∷ 49 ∷ [])
      (record { name = 97 ∷ []; tag = [] }) (record { name = 98 ∷ []; tag = [] })
      (record { name = 97 ∷ []; tag = 58 ∷ 49 ∷ [] }) mirror-built mirror-listed refl refl refl refl

abbrev plain_formats : Formats
plain_formats = record {
  trim_space = λ s. s;
  decimal = λ n. "30";
  marshal_servers = λ servers. none;
  marshal_override = λ o. some "{}";
}

abbrev claude_config : AmbientAgentConfig
claude_config = record {
  environment_id = some "env";
  model_id = some "m1";
  profile_id = none;
  skill_spec = some "skill";
  mcp_servers = [];
  computer_use_enabled = none;
  computer_use_model_id = some "m2";
  idle_timeout_minutes = some (pos 30);
  harness = some (record { harness_type = some "claude" });
  inference_providers = none;
  session_sharing = some (record { public_access = some "VIEWER" });
  snapshot_disabled = some true;
  snapshot_upload_timeout_secs = some (pos 30);
  snapshot_script_timeout_secs = none;
  repository_head_overrides = [];
}

abbrev some_options : TaskAugmentOptions
some_options = record { idle_on_complete = "0s"; additional_oz_args = "--debug" ∷ [] }

claude-other : is_oz (some (record { harness_type = some "claude" })) ≡ false
unfolding is_oz
claude-other = refl

models_for_oz_example :
    augment_args_for_task plain_formats
      (some (some (record claude_config { model_id = none; computer_use_model_id = some "m3" })))
      ("run" ∷ [])
      some_options
    ≡ augment_args_for_task plain_formats (some (some claude_config)) ("run" ∷ []) some_options
models_for_oz_example =
    models_for_oz plain_formats claude_config none (some "m3") ("run" ∷ []) some_options
      claude-other
