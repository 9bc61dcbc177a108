-- ===== src/Env/Containers.antt =====
-- The environment of a container: envSliceFromMap, envStringsToKubernetesEnv and
-- mergeKubernetesEnvVars of internal/worker/kubernetes.go.
pub mod Overrides
pub mod RoundTrip
use oz_agent_worker.Prelude.{
  ℕ, zero, suc, Bool, true, false, if◌then◌else◌, Option, none, some, List, [], ◌∷◌, ◌++◌, ◌==◌,
  ◌≡◌, refl, arith, map, length, contains, is_some, is_empty, nat_eq,
}
use oz_agent_worker.Assoc.{Map, lookup, insert}
use oz_agent_worker.Env.{Bytes, bytes_eq, bytes_beq_iff, equals_sign, entry_at}

-- corev1.EnvVar with a literal value; the merge only copies what else it may hold.
pub record EnvVar : Type 0 where
  pub name : Bytes
  pub value : Bytes

-- strings.Cut(entry, "="): none when there is no `=`.
unfoldable pub cut_found : Bytes → Option (Bytes × Bytes)
cut_found [] = none
cut_found (b ∷ e) =
    let rest = cut_found e in
    if b == equals_sign
    then some ([], e)
    else elim rest [ none ↦ none | some p ↦ some (b ∷ p.0, p.1) ]

unfoldable pub env_strings_to_kubernetes_env : List Bytes → List EnvVar
env_strings_to_kubernetes_env [] = []
env_strings_to_kubernetes_env (entry ∷ entries) =
    let rest = env_strings_to_kubernetes_env entries in
    elim (cut_found entry) [
      | none ↦ rest
      | some p ↦ if is_empty p.0 then rest else record { name = p.0; value = p.1 } ∷ rest
    ]

abbrev pub keys : Map Bytes Bytes → List Bytes
keys [] = []
keys ((k, v) ∷ m) = k ∷ keys m

-- fmt.Sprintf("%s=%s", key, values[key])
abbrev pub entry_of : Map Bytes Bytes → Bytes → Bytes
entry_of values key = key ++ equals_sign ∷ entry_at values key

-- `sort` is sort.Strings.
unfoldable pub env_slice_from_map : (List Bytes → List Bytes) → Map Bytes Bytes → List Bytes
env_slice_from_map sort values = map (entry_of values) (sort (keys values))

-- result[i] = e, for an index in range.
abbrev pub set_at : ℕ → EnvVar → List EnvVar → List EnvVar
set_at i e [] = []
set_at zero e (x ∷ xs) = e ∷ xs
set_at (suc i) e (x ∷ xs) = x ∷ set_at i e xs

-- The loop over `base`: `seen` and `result` after it.
unfoldable pub add_base : List EnvVar → Map Bytes ℕ → List EnvVar → Map Bytes ℕ × List EnvVar
add_base [] seen result = (seen, result)
add_base (e ∷ es) seen result = add_base es (insert e.name (length result) seen) (result ++ e ∷ [])

-- The body of the loop over `override`.
unfoldable pub add_override : Map Bytes ℕ → EnvVar → List EnvVar → List EnvVar
add_override seen e result = elim (lookup e.name seen) [
  | some idx ↦ set_at idx e result
  | none ↦ result ++ e ∷ []
]

unfoldable pub add_overrides : Map Bytes ℕ → List EnvVar → List EnvVar → List EnvVar
add_overrides seen [] result = result
add_overrides seen (e ∷ es) result = add_overrides seen es (add_override seen e result)

unfoldable pub merge_kubernetes_env_vars : List EnvVar → List EnvVar → List EnvVar
merge_kubernetes_env_vars base override =
    let s = add_base base [] [] in add_overrides s.0 override s.1
