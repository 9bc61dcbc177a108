-- ===== src/TaskArgs.antt =====
-- The CLI flags of a task: AugmentArgsForTask of internal/common/task_utils.go, and the part of the
-- task's configuration in internal/types/messages.go that it reads. A nil pointer is `none`.
pub mod Table
pub mod Frame
use Prim.Native.String.{◌++◌ as str_append}
use oz_agent_worker.Prelude.{
  ℕ, zero, suc, Bool, true, false, ◌&&◌, ◌||◌, not, if◌then◌else◌, Option, none, some, List, [],
  ◌∷◌, ◌++◌, ◌==◌, String, string_eq, length, nat_eq,
}

-- A Go int: `negsuc n` is the number -(n + 1).
pub data ℤ : Type 0 where
  pos negsuc : ℕ → ℤ

-- `type` of the source.
pub record Harness : Type 0 where
  pub harness_type : Option String

pub record AwsInferenceProvider : Type 0 where
  pub disabled : Bool
  pub role_arn : String
  pub region : String

pub record InferenceProviders : Type 0 where
  pub aws : Option AwsInferenceProvider

pub record SessionSharingConfig : Type 0 where
  pub public_access : Option String

pub record RepositoryHeadRef : Type 0 where
  pub head_type : String
  pub value : String

pub record RepositoryIdentity : Type 0 where
  pub code_forge : String
  pub owner : String
  pub repo : String

pub record RepositoryHeadOverride : Type 0 where
  pub code_forge : String
  pub repo_owner : String
  pub repo_name : String
  pub head : RepositoryHeadRef
  pub clone_from : Option RepositoryIdentity
  pub preserve_origin : Bool

-- `mcp_servers` are names with their JSON text.
pub record AmbientAgentConfig : Type 0 where
  pub environment_id : Option String
  pub model_id : Option String
  pub profile_id : Option String
  pub skill_spec : Option String
  pub mcp_servers : List (String × String)
  pub computer_use_enabled : Option Bool
  pub computer_use_model_id : Option String
  pub idle_timeout_minutes : Option ℤ
  pub harness : Option Harness
  pub inference_providers : Option InferenceProviders
  pub session_sharing : Option SessionSharingConfig
  pub snapshot_disabled : Option Bool
  pub snapshot_upload_timeout_secs : Option ℤ
  pub snapshot_script_timeout_secs : Option ℤ
  pub repository_head_overrides : List RepositoryHeadOverride

pub record TaskAugmentOptions : Type 0 where
  pub idle_on_complete : String
  pub additional_oz_args : List String

-- strings.TrimSpace, `%d`, and json.Marshal, which may fail.
pub record Formats : Type 0 where
  pub trim_space : String → String
  pub decimal : ℕ → String
  pub marshal_servers : List (String × String) → Option String
  pub marshal_override : RepositoryHeadOverride → Option String

-- Harness.IsOz
unfoldable pub is_oz : Option Harness → Bool
is_oz none = true
is_oz (some h) = elim h.harness_type [ none ↦ true | some t ↦ t == "" || t == "oz" ]

unfoldable pub share_access_level_for_emission : String → String
share_access_level_for_emission access =
    if access == "VIEWER" then "view" else if access == "EDITOR" then "edit" else ""

abbrev pub flag_unless_empty : String → String → List String
flag_unless_empty flag value = if value == "" then [] else flag ∷ value ∷ []

module _ (f : Formats) where
  -- A flag for a value that may be missing or blank.
  unfoldable pub trimmed_flag : String → Option String → List String
  trimmed_flag flag none = []
  trimmed_flag flag (some v) = flag_unless_empty flag (f.trim_space v)

  unfoldable pub model_flag : AmbientAgentConfig → List String
  model_flag c = if is_oz c.harness then trimmed_flag "--model" c.model_id else []

  unfoldable pub mcp_flag : List (String × String) → List String
  mcp_flag servers =
      if length servers == 0
      then []
      else elim (f.marshal_servers servers) [ none ↦ [] | some b ↦ "--mcp" ∷ b ∷ [] ]

  abbrev pub computer_use_enabled_or_default : Option Bool → Bool
  computer_use_enabled_or_default none = true
  computer_use_enabled_or_default (some b) = b

  unfoldable pub computer_use_flags : AmbientAgentConfig → List String
  computer_use_flags c =
      if computer_use_enabled_or_default c.computer_use_enabled
      then "--computer-use"
        ∷ (if is_oz c.harness
            then trimmed_flag "--computer-use-model" c.computer_use_model_id
            else [])
      else "--no-computer-use" ∷ []

  bedrock : AwsInferenceProvider → List String
  bedrock aws =
      let role = f.trim_space aws.role_arn in
      if aws.disabled || role == ""
      then []
      else "--bedrock-inference-role"
        ∷ role
        ∷ flag_unless_empty "--bedrock-role-region" (f.trim_space aws.region)

  unfoldable pub bedrock_flags : Option InferenceProviders → List String
  unfolding bedrock
  bedrock_flags none = []
  bedrock_flags (some p) = elim p.aws [ none ↦ [] | some aws ↦ bedrock aws ]

  unfoldable pub harness_flag : Option Harness → List String
  harness_flag none = []
  harness_flag (some h) = trimmed_flag "--harness" h.harness_type

  unfoldable pub public_share : String → List String
  public_share access =
      let level = share_access_level_for_emission access in
      if level == "" then [] else "--share" ∷ str_append "public:" level ∷ []

  unfoldable pub share_flag : Option SessionSharingConfig → List String
  unfolding public_share
  share_flag none = []
  share_flag (some s) = elim s.public_access [ none ↦ [] | some access ↦ public_share access ]

  unfoldable pub no_snapshot_flag : Option Bool → List String
  no_snapshot_flag (some true) = "--no-snapshot" ∷ []
  no_snapshot_flag _ = []

  unfoldable pub seconds_flag : String → Option ℤ → List String
  seconds_flag flag (some (pos (suc n))) = flag ∷ str_append (f.decimal (suc n)) "s" ∷ []
  seconds_flag flag _ = []

  unfoldable pub override_flags : List RepositoryHeadOverride → List String
  override_flags [] = []
  override_flags (o ∷ os) =
      let rest = override_flags os in
      elim (f.marshal_override o) [
        | none ↦ rest
        | some json ↦ "--repository-head-override-json" ∷ json ∷ rest
      ]

  -- repositoryHeadOverrideArgsForTask
  unfoldable pub repository_head_override_args : List RepositoryHeadOverride → List String
  repository_head_override_args [] = []
  repository_head_override_args (o ∷ os) =
      override_flags (o ∷ os) ++ "--remove-repository-origins" ∷ []

  -- The flags of the snapshot, in the order in which they are appended.
  unfoldable pub append_config : AmbientAgentConfig → List String → List String
  append_config c args =
      let args1 = args ++ model_flag c in
      let args2 = args1 ++ trimmed_flag "--profile" c.profile_id in
      let args3 = args2 ++ trimmed_flag "--skill" c.skill_spec in
      let args4 = args3 ++ mcp_flag c.mcp_servers in
      let args5 = args4 ++ computer_use_flags c in
      let args6 = args5 ++ bedrock_flags c.inference_providers in
      let args7 = args6 ++ harness_flag c.harness in
      let args8 = args7 ++ share_flag c.session_sharing in
      let args9 = args8 ++ no_snapshot_flag c.snapshot_disabled in
      let args10 =
        args9 ++ seconds_flag "--snapshot-upload-timeout" c.snapshot_upload_timeout_secs in
      let args11 =
        args10 ++ seconds_flag "--snapshot-script-timeout" c.snapshot_script_timeout_secs in
      let args12 = args11 ++ trimmed_flag "--environment" c.environment_id in
      args12 ++ repository_head_override_args c.repository_head_overrides

  append_snapshot : Option AmbientAgentConfig → List String → List String
  append_snapshot none args = args
  append_snapshot (some c) args = append_config c args

  worker_idle : TaskAugmentOptions → Option String
  worker_idle opts = if opts.idle_on_complete == "" then none else some opts.idle_on_complete

  idle_minutes : Option ℤ → TaskAugmentOptions → Option String
  unfolding worker_idle
  idle_minutes (some (pos n)) opts = some (str_append (f.decimal n) "m")
  idle_minutes _ opts = worker_idle opts

  -- `none` when there is no value.
  unfoldable pub resolve_idle_on_complete :
      Option AmbientAgentConfig → TaskAugmentOptions → Option String
  unfolding idle_minutes worker_idle
  resolve_idle_on_complete none opts = worker_idle opts
  resolve_idle_on_complete (some c) opts = idle_minutes c.idle_timeout_minutes opts

  unfoldable pub idle_flag : Option String → List String
  idle_flag none = "--idle-on-complete" ∷ []
  idle_flag (some v) = "--idle-on-complete" ∷ v ∷ []

  -- By the task's AgentConfigSnapshot, the only field of a task that is read; `none` is no task.
  unfoldable pub augment_args_for_task :
      Option (Option AmbientAgentConfig) → List String → TaskAugmentOptions → List String
  unfolding append_snapshot
  augment_args_for_task none args opts = args
  augment_args_for_task (some snapshot) args opts =
      (append_snapshot snapshot args ++ opts.additional_oz_args)
      ++ idle_flag (resolve_idle_on_complete snapshot opts)
