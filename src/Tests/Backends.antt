-- ===== src/Tests/Backends.antt =====
-- The theorems on Docker, failure details, environments and dispatch at concrete inputs.
use oz_agent_worker.Prelude.{
  ℕ, zero, suc, ◌<◌, ◌≡◌, refl, subst, Bool, true, false, if◌then◌else◌, none, some, is_some, List,
  [], ◌∷◌, map, String, string_eq, nat_eq, ◌==◌, ltb, length, arith, take, contains,
}
use oz_agent_worker.Assoc.{Map, lookup, insert, delete, lookup-insert, lookup-delete}
use oz_agent_worker.Env.{Bytes, bytes_eq, bytes_beq_iff}
use oz_agent_worker.Env.Merge.{or_else, last_entry}
use oz_agent_worker.Env.Containers.{
  EnvVar, env_strings_to_kubernetes_env, env_slice_from_map, merge_kubernetes_env_vars,
}
use oz_agent_worker.Env.Containers.Overrides.{last_value, merge_kubernetes_env_vars_lem}
use oz_agent_worker.Env.Containers.RoundTrip.{
  IsEnvName, env_strings_to_kubernetes_env-env_slice_from_map,
}
use oz_agent_worker.Env.Metadata.{
  Verdict, validate_metadata_env_conflicts, validate_metadata_env_conflicts_lem,
}
use oz_agent_worker.Command.{command_env, config_entries}
use oz_agent_worker.Command.Concluded.{command_env_lem}
use oz_agent_worker.Docker.Images.{
  Answers, absent, found, if_not_present, prepare_image, pulls, may_pull, Accepts,
  prepare_image_lem,
}
use oz_agent_worker.Docker.Volumes.{
  ok, not_found, call_failed, Engine, IsEngine, is_mounted, prepare_all, clear_dirty, load_or_store,
  inspect_volume, create_volume, populate_volume, prepare_sidecar_volume,
}
use oz_agent_worker.Docker.Volumes.Sound.{mounted_volumes_complete}
use oz_agent_worker.Kubernetes.Details.{
  ObservedJob, ObservedEvent, Utf8, StableSort, max_reason_bytes, KubernetesFailureDetails,
  is_terminal_condition, is_failure_event,
}
use oz_agent_worker.Kubernetes.Details.Texts.{
  IsUtf8, IsLongestValid, bounded_kubernetes_string, bounded_kubernetes_string_lem, trim_invalid,
  trim_invalid_ends,
}
use oz_agent_worker.Kubernetes.Details.Project.{
  project_kubernetes_job, project_conditions, project_kubernetes_condition,
  project_kubernetes_events, project_all, project_event, build_kubernetes_failure_details,
  failure_events,
}
use oz_agent_worker.Kubernetes.Details.Bounds.{
  IsBounded, build_kubernetes_failure_details-IsBounded,
}
use oz_agent_worker.Kubernetes.Details.Bounds.Whole.{untruncated_details}
use oz_agent_worker.Kubernetes.Details.Bounds.Parts.{whole_job, whole_event}

abbrev answers : Answers
answers = record { local = absent; pulled = true; resolved = found "linux/amd64" }

prepare_image_example :
    (pulls (prepare_image "linux/amd64" if_not_present answers).0 ≡ may_pull if_not_present absent)
    × Accepts "linux/amd64" absent
        (found "linux/amd64")
        (prepare_image "linux/amd64" if_not_present answers)
prepare_image_example = prepare_image_lem "linux/amd64" if_not_present answers

-- An Engine that holds, for each volume, whether it is partial, and fails to populate "bad".
abbrev partial_in : String → Map String Bool → Bool
partial_in n e = elim (lookup n e) [ none ↦ false | some b ↦ b ]

abbrev small_engine : Engine (Map String Bool)
small_engine = record {
  volume_inspect = λ n e. (e, if is_some (lookup n e) then ok else not_found);
  volume_create = λ n e. (insert n true e, ok);
  volume_remove = λ n e. (delete n e, ok);
  populate = λ n e. if n == "bad" then (insert n true e, call_failed) else (insert n false e, ok);
  is_partial = partial_in;
}

small_engine-IsEngine : IsEngine small_engine
small_engine-IsEngine = record {
  inspect_keeps = λ n m e. refl;
  remove_clears = λ n e h. ground (arith, lookup-delete n n e, string_eq.beq_iff n n);
  populate_fills = λ n e h. ground (arith, h, lookup-insert n n false e, string_eq.beq_iff n n);
  create_apart = λ n m e h. ground (arith, h, lookup-insert n m true e);
  remove_apart = λ n m e h. ground (arith, h, lookup-delete n m e);
  populate_apart =
      λ n m e h. ground (arith, h, lookup-insert n m true e, lookup-insert n m false e);
}

abbrev volume_calls : List (Bool × String)
volume_calls = (true, "bad") ∷ (true, "tools") ∷ (false, "tools") ∷ []

tools-mounted :
    is_mounted
      (prepare_sidecar_volume small_engine true "tools"
        (prepare_all small_engine volume_calls (record { engine = []; sidecar_volumes = [] }))).1
    ≡ true
unfolding prepare_sidecar_volume prepare_all clear_dirty load_or_store inspect_volume create_volume
    populate_volume lookup insert delete
tools-mounted = refl

mounted_volumes_complete_example :
    small_engine.is_partial "tools"
      (prepare_sidecar_volume small_engine true "tools" (
        prepare_all small_engine volume_calls
          (record { engine = []; sidecar_volumes = [] }))).0.engine
    ≡ false
unfolding lookup insert delete
mounted_volumes_complete_example =
    mounted_volumes_complete small_engine small_engine-IsEngine [] (λ m. refl) volume_calls true
      "tools" tools-mounted

-- Texts of one-byte characters, all valid.
abbrev ascii : Utf8
ascii = record { to_valid = λ v. v; is_valid = λ v. true }

ascii-IsUtf8 : IsUtf8 ascii
ascii-IsUtf8 = record { empty = refl; valid = λ v. refl }

abbrev unsorted : StableSort
unsorted = λ before events. events

abbrev repeat_byte : ℕ → Bytes
repeat_byte zero = []
repeat_byte (suc n) = 114 ∷ repeat_byte n

length-repeat_byte : (n : ℕ) → length (repeat_byte n) ≡ n
length-repeat_byte zero = refl
length-repeat_byte (suc n) = omega (arith, length-repeat_byte n)

abbrev long_reason : Bytes
long_reason = repeat_byte 257

bounded_kubernetes_string_example :
    IsLongestValid ascii max_reason_bytes long_reason
      (bounded_kubernetes_string ascii long_reason).0
    × ((bounded_kubernetes_string ascii long_reason).1 ≡ ltb max_reason_bytes (length long_reason))
bounded_kubernetes_string_example = bounded_kubernetes_string_lem ascii ascii-IsUtf8 long_reason

long_reason-long : max_reason_bytes < length long_reason
long_reason-long = omega (arith, length-repeat_byte 257)

trim_invalid_ends_example :
    trim_invalid ascii max_reason_bytes (take max_reason_bytes long_reason)
    ≡ some (bounded_kubernetes_string ascii long_reason).0
trim_invalid_ends_example = trim_invalid_ends ascii ascii-IsUtf8 long_reason long_reason-long

abbrev seen_job : ObservedJob
seen_job = record {
  name = "oz-run-1";
  uid = "u1";
  conditions =
      record {
        condition_type = "Failed";
        status = "True";
        reason = 66 ∷ [];
        last_transition_time = 5;
      }
      ∷ [];
}

abbrev seen_events : List ObservedEvent
seen_events =
    record {
      event_type = 87 ∷ [];
      reason = 75 ∷ 105 ∷ 108 ∷ 108 ∷ 105 ∷ 110 ∷ 103 ∷ [];
      count = 2;
      series = none;
      first_timestamp = 3;
      last_timestamp = 4;
      event_time = 0;
      creation_timestamp = 1;
    }
    ∷ []

abbrev details : KubernetesFailureDetails
details =
    build_kubernetes_failure_details ascii unsorted "job_watch" (some seen_job) none none
      seen_events

details-whole : details.truncated ≡ false
unfolding build_kubernetes_failure_details project_kubernetes_job project_conditions
    project_kubernetes_condition bounded_kubernetes_string project_kubernetes_events project_all
    project_event is_terminal_condition is_failure_event
details-whole = refl

build_kubernetes_failure_details-IsBounded_example : IsBounded details
build_kubernetes_failure_details-IsBounded_example =
    build_kubernetes_failure_details-IsBounded ascii ascii-IsUtf8 unsorted "job_watch"
      (some seen_job) none none seen_events

untruncated_details_example : details ≡ record {
  observation_source = "job_watch";
  job = some (whole_job ascii seen_job);
  pod = none;
  container = none;
  events = map (whole_event ascii) (failure_events seen_events);
  truncated = false;
}
untruncated_details_example =
    untruncated_details ascii unsorted "job_watch" (some seen_job) none none seen_events
      details-whole

-- A variable: its name and value as bytes.
abbrev var : Bytes → Bytes → EnvVar
var name value = record { name = name; value = value }

merge_kubernetes_env_vars_example :
    last_value
      (65 ∷ [])
      (merge_kubernetes_env_vars (var (65 ∷ []) (49 ∷ []) ∷ []) (var (65 ∷ []) (50 ∷ []) ∷ []))
    ≡ or_else
        (last_value (65 ∷ []) (var (65 ∷ []) (50 ∷ []) ∷ []))
        (last_value (65 ∷ []) (var (65 ∷ []) (49 ∷ []) ∷ []))
merge_kubernetes_env_vars_example =
    merge_kubernetes_env_vars_lem (65 ∷ []) (var (65 ∷ []) (49 ∷ []) ∷ [])
      (var (65 ∷ []) (50 ∷ []) ∷ [])

abbrev as_listed : List Bytes → List Bytes
as_listed keys = keys

abbrev one_var : Map Bytes Bytes
one_var = (65 ∷ [], 61 ∷ 49 ∷ []) ∷ []

one_var-named : (k : Bytes) → is_some (lookup k one_var) ≡ true → IsEnvName k
unfolding lookup contains
one_var-named k h =
    subst IsEnvName ((bytes_beq_iff (65 ∷ []) k).0 (ground (arith, h)))
      (record { filled = refl; plain = refl })

env_slice_round_trip_example :
    last_value (65 ∷ []) (env_strings_to_kubernetes_env (env_slice_from_map as_listed one_var))
    ≡ lookup (65 ∷ []) one_var
env_slice_round_trip_example =
    env_strings_to_kubernetes_env-env_slice_from_map as_listed (λ ks k. refl) one_var one_var-named
      (65 ∷ [])

abbrev as_upper : Bytes → Bytes
as_upper name = name

-- WARP_METADATA_A=1, against A=2.
abbrev task_entries : List Bytes
task_entries =
    (87 ∷ 65 ∷ 82 ∷ 80 ∷ 95 ∷ 77 ∷ 69 ∷ 84 ∷ 65 ∷ 68 ∷ 65 ∷ 84 ∷ 65 ∷ 95 ∷ 65 ∷ 61 ∷ 49 ∷ []) ∷ []

abbrev worker_entries : List Bytes
worker_entries = (65 ∷ 61 ∷ 50 ∷ []) ∷ []

validate_metadata_env_conflicts_example :
    Verdict as_upper task_entries worker_entries
      (65 ∷ [])
      (validate_metadata_env_conflicts as_upper task_entries worker_entries)
validate_metadata_env_conflicts_example =
    validate_metadata_env_conflicts_lem as_upper task_entries worker_entries (65 ∷ [])

command_env_example :
    last_entry (65 ∷ []) (command_env worker_entries one_var task_entries)
    ≡ or_else (last_entry (65 ∷ []) task_entries) (
        or_else
          (last_entry (65 ∷ []) (config_entries one_var))
          (last_entry (65 ∷ []) worker_entries))
command_env_example = command_env_lem worker_entries one_var task_entries (65 ∷ [])
