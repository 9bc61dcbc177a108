-- ===== src/Env/Metadata.antt =====
-- validateMetadataEnvConflicts of internal/worker/metadata_env.go.
use oz_agent_worker.Prelude.{
  Bool, true, false, ◌&&◌, if◌then◌else◌, Option, none, some, List, [], ◌∷◌, ◌==◌, ◌≡◌, refl,
  contains, arith, take, length, map,
}
use oz_agent_worker.Env.{Bytes, bytes_eq, bytes_beq_iff, cut}

-- The bytes of "WARP_METADATA_".
abbrev metadata_env_prefix : Bytes
metadata_env_prefix = 87 ∷ 65 ∷ 82 ∷ 80 ∷ 95 ∷ 77 ∷ 69 ∷ 84 ∷ 65 ∷ 68 ∷ 65 ∷ 84 ∷ 65 ∷ 95 ∷ []

-- strings.HasPrefix with that prefix.
unfoldable pub has_metadata_prefix : Bytes → Bool
has_metadata_prefix name = take (length metadata_env_prefix) name == metadata_env_prefix

-- The first loop: the keys of the map `names`.
unfoldable pub metadata_names : List Bytes → List Bytes
metadata_names [] = []
metadata_names (entry ∷ entries) =
    let rest = metadata_names entries in
    let name = (cut entry).0 in if has_metadata_prefix name then name ∷ rest else rest

-- The names of entries.
abbrev pub names_of : List Bytes → List Bytes
names_of entries = map (λ e. (cut e).0) entries

contains-metadata_names :
    (entries : List Bytes) (k : Bytes)
    → contains (metadata_names entries) k ≡ (contains (names_of entries) k && has_metadata_prefix k)
unfolding metadata_names contains
contains-metadata_names [] k = refl
contains-metadata_names (e ∷ es) k =
    ground (arith, contains-metadata_names es k, bytes_beq_iff (cut e).0 k)

-- `to_upper` is strings.ToUpper; an error carries both names.
module _ (to_upper : Bytes → Bytes) where
  unfoldable pub first_conflict : List Bytes → List Bytes → Option (Bytes × Bytes)
  first_conflict names [] = none
  first_conflict names (entry ∷ entries) =
      let rest = first_conflict names entries in
      let name = (cut entry).0 in
      if contains names (to_upper name) then some (to_upper name, name) else rest

  unfoldable pub validate_metadata_env_conflicts : List Bytes → List Bytes → Option (Bytes × Bytes)
  validate_metadata_env_conflicts task_env configured_env =
      first_conflict (metadata_names task_env) configured_env

  abbrev pub uppers_of : List Bytes → List Bytes
  uppers_of entries = map (λ e. to_upper (cut e).0) entries

  first_conflict-none :
      (names entries : List Bytes) (k : Bytes)
      → first_conflict names entries ≡ none
      → contains names k ≡ true
      → contains (uppers_of entries) k ≡ false
  unfolding first_conflict contains
  first_conflict-none names [] k h c = refl
  first_conflict-none names (e ∷ es) k h c =
      ground (arith, first_conflict-none names es k, bytes_beq_iff (to_upper (cut e).0) k, h)

  first_conflict-some :
      (names entries : List Bytes) (k n : Bytes)
      → first_conflict names entries ≡ some (k, n)
      → (contains names k ≡ true) × (contains (names_of entries) n ≡ true) × (to_upper n ≡ k)
  unfolding first_conflict contains
  first_conflict-some names [] k n h = ground (arith, h)
  first_conflict-some names (e ∷ es) k n h =
      ground (arith, h, first_conflict-some names es k n, bytes_beq_iff (cut e).0 n)

  -- Of a name: no metadata variable of the task has it while a configured one has it in upper case.
  -- Of a refusal with two names: a metadata variable of the task has the first, a configured variable
  -- has the second, which is the first in upper case.
  abbrev pub Verdict : List Bytes → List Bytes → Bytes → Option (Bytes × Bytes) → Type 0
  Verdict task_env configured_env k none =
      ((contains (names_of task_env) k && has_metadata_prefix k)
        && contains (uppers_of configured_env) k)
      ≡ false
  Verdict task_env configured_env k (some (j, n)) =
      ((contains (names_of task_env) j && has_metadata_prefix j) ≡ true)
      × (contains (names_of configured_env) n ≡ true)
      × (to_upper n ≡ j)

  conflict-Verdict :
      (task_env configured_env : List Bytes) (k : Bytes) (o : Option (Bytes × Bytes))
      → first_conflict (metadata_names task_env) configured_env ≡ o
      → Verdict task_env configured_env k o
  conflict-Verdict task_env configured_env k none h = ground (
    arith,
    first_conflict-none (metadata_names task_env) configured_env k h,
    contains-metadata_names task_env k,
  )
  conflict-Verdict task_env configured_env k (some (j, n)) h =
      let found = first_conflict-some (metadata_names task_env) configured_env j n h in
      (ground (arith, found.0, contains-metadata_names task_env j), found.1, found.2)

  -- A task is accepted only if no configured variable has, in upper case, the name of one of its
  -- metadata variables; and one that is refused has such a pair, the two names of the error.
  pub validate_metadata_env_conflicts_lem :
      (task_env configured_env : List Bytes) (k : Bytes)
      → Verdict task_env configured_env k (validate_metadata_env_conflicts task_env configured_env)
  unfolding validate_metadata_env_conflicts
  validate_metadata_env_conflicts_lem task_env configured_env k =
      conflict-Verdict task_env configured_env k
        (first_conflict (metadata_names task_env) configured_env) refl
