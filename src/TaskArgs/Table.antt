-- ===== src/TaskArgs/Table.antt =====
-- The table of the flags that a task of internal/common/task_utils.go is to have, apart from its code.
use Prim.Native.String.{◌++◌ as str_append}
use oz_agent_worker.Prelude.{
  Bool, true, false, not, ◌&&◌, if◌then◌else◌, ◌==◌, suc, Option, none, some, List, [], ◌∷◌, ◌++◌,
  nat_eq, String, string_eq,
}
use oz_agent_worker.TaskArgs.{
  ℤ, pos, negsuc, AmbientAgentConfig, TaskAugmentOptions, Formats, InferenceProviders,
  SessionSharingConfig, Harness, RepositoryHeadOverride, is_oz, computer_use_enabled_or_default,
}

-- What is said of one flag: nothing, the flag alone, or the flag with a value.
pub data Setting : Type 0 where
  absent bare : Setting
  valued : String → Setting

-- The settings of flags, in their order on the command line.
abbrev pub Table : Type 0
Table = List (String × Setting)

abbrev pub setting_args : String → Setting → List String
setting_args flag absent = []
setting_args flag bare = flag ∷ []
setting_args flag (valued v) = flag ∷ v ∷ []

abbrev pub command_line : Table → List String
command_line [] = []
command_line ((flag, s) ∷ rows) = setting_args flag s ++ command_line rows

abbrev pub only_if : Bool → Setting → Setting
only_if true s = s
only_if false s = absent

abbrev pub is_given : Setting → Bool
is_given absent = false
is_given bare = true
is_given (valued v) = true

abbrev pub nonempty : String → Setting
nonempty v = if v == "" then absent else valued v

-- The access levels that may be shared publicly.
abbrev pub public_level : String → Setting
public_level access =
    if access == "VIEWER"
    then valued "public:view"
    else if access == "EDITOR"
    then valued "public:edit"
    else absent

abbrev pub public_access : Option SessionSharingConfig → Setting
public_access none = absent
public_access (some s) = elim s.public_access [ none ↦ absent | some a ↦ public_level a ]

abbrev pub no_snapshot : Option Bool → Setting
no_snapshot none = absent
no_snapshot (some b) = only_if b bare

abbrev pub origin_rows : List RepositoryHeadOverride → Table
origin_rows [] = []
origin_rows (o ∷ os) = ("--remove-repository-origins", bare) ∷ []

abbrev pub worker_idle_setting : TaskAugmentOptions → Setting
worker_idle_setting opts =
    if opts.idle_on_complete == "" then bare else valued opts.idle_on_complete

abbrev pub idle_minutes_of : Option AmbientAgentConfig → Option ℤ
idle_minutes_of none = none
idle_minutes_of (some c) = c.idle_timeout_minutes

module _ (f : Formats) where
  -- A text with no blanks around it, where anything is left of it.
  abbrev pub text : Option String → Setting
  text none = absent
  text (some v) = nonempty (f.trim_space v)

  abbrev pub seconds : Option ℤ → Setting
  seconds (some (pos (suc n))) = valued (str_append (f.decimal (suc n)) "s")
  seconds _ = absent

  abbrev pub servers_json : List (String × String) → Setting
  servers_json [] = absent
  servers_json (s ∷ ss) = elim (f.marshal_servers (s ∷ ss)) [ none ↦ absent | some j ↦ valued j ]

  abbrev pub bedrock_role : Option InferenceProviders → Setting
  bedrock_role none = absent
  bedrock_role (some p) = elim p.aws [
    | none ↦ absent
    | some aws ↦ only_if (not aws.disabled) (nonempty (f.trim_space aws.role_arn))
  ]

  abbrev pub bedrock_region : Option InferenceProviders → Setting
  bedrock_region none = absent
  bedrock_region (some p) = elim p.aws [
    | none ↦ absent
    | some aws ↦ nonempty (f.trim_space aws.region)
  ]

  abbrev pub harness_name : Option Harness → Setting
  harness_name none = absent
  harness_name (some h) = text h.harness_type

  abbrev pub override_rows : List RepositoryHeadOverride → Table
  override_rows [] = []
  override_rows (o ∷ os) =
      (
        "--repository-head-override-json",
        (elim (f.marshal_override o) [ none ↦ absent | some j ↦ valued j ]),
      )
      ∷ override_rows os

  -- The flags that a snapshot asks for: models only where the harness is Oz, exactly one of the two
  -- flags on computer use, and a region only beside a role.
  abbrev pub table : AmbientAgentConfig → Table
  table c =
      let oz = is_oz c.harness in
      let computer = computer_use_enabled_or_default f c.computer_use_enabled in
      let role = bedrock_role c.inference_providers in
      ("--model", only_if oz (text c.model_id))
        ∷ ("--profile", text c.profile_id)
        ∷ ("--skill", text c.skill_spec)
        ∷ ("--mcp", servers_json c.mcp_servers)
        ∷ ("--computer-use", only_if computer bare)
        ∷ ("--no-computer-use", only_if (not computer) bare)
        ∷ ("--computer-use-model", only_if (computer && oz) (text c.computer_use_model_id))
        ∷ ("--bedrock-inference-role", role)
        ∷ ("--bedrock-role-region", only_if (is_given role) (bedrock_region c.inference_providers))
        ∷ ("--harness", harness_name c.harness)
        ∷ ("--share", public_access c.session_sharing)
        ∷ ("--no-snapshot", no_snapshot c.snapshot_disabled)
        ∷ ("--snapshot-upload-timeout", seconds c.snapshot_upload_timeout_secs)
        ∷ ("--snapshot-script-timeout", seconds c.snapshot_script_timeout_secs)
        ∷ ("--environment", text c.environment_id)
        ∷ override_rows c.repository_head_overrides
      ++ origin_rows c.repository_head_overrides

  abbrev pub snapshot_table : Option AmbientAgentConfig → Table
  snapshot_table none = []
  snapshot_table (some c) = table c

  -- The minutes of the task, if they are not negative, before the option of the worker; with
  -- neither the flag is alone.
  abbrev pub idle_setting : Option ℤ → TaskAugmentOptions → Setting
  idle_setting (some (pos n)) opts = valued (str_append (f.decimal n) "m")
  idle_setting (some (negsuc n)) opts = worker_idle_setting opts
  idle_setting none opts = worker_idle_setting opts
