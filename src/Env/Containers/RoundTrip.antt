-- ===== src/Env/Containers/RoundTrip.antt =====
-- A map of variables survives its way into a container, as text entries and back.
use oz_agent_worker.Prelude.{
  true, false, if◌then◌else◌, none, some, List, [], ◌∷◌, ◌++◌, ◌≡◌, refl, arith, map, contains,
  is_some, is_empty, nat_eq,
}
use oz_agent_worker.Assoc.{Map, lookup}
use oz_agent_worker.Env.{Bytes, bytes_eq, bytes_beq_iff, equals_sign, entry_at}
use oz_agent_worker.Env.Containers.{
  EnvVar, cut_found, env_strings_to_kubernetes_env, keys, entry_of, env_slice_from_map,
}
use oz_agent_worker.Env.Containers.Overrides.{last_value}

-- A name that an entry can carry: not empty, and without `=`.
pub record IsEnvName (k : Bytes) : Type 0 where
  pub filled : is_empty k ≡ false
  pub plain : contains k equals_sign ≡ false

cut_found-entry :
    (k v : Bytes) → contains k equals_sign ≡ false → cut_found (k ++ equals_sign ∷ v) ≡ some (k, v)
unfolding cut_found contains
cut_found-entry [] v h = refl
cut_found-entry (b ∷ k) v h = ground (arith, cut_found-entry k v)

-- The variables of a list of keys.
abbrev vars_of : Map Bytes Bytes → List Bytes → List EnvVar
vars_of m [] = []
vars_of m (k ∷ ks) = record { name = k; value = entry_at m k } ∷ vars_of m ks

parsed-entries :
    (m : Map Bytes Bytes) (ks : List Bytes)
    → ((k : Bytes) → contains ks k ≡ true → IsEnvName k)
    → env_strings_to_kubernetes_env (map (entry_of m) ks) ≡ vars_of m ks
unfolding env_strings_to_kubernetes_env contains
parsed-entries m [] h = refl
parsed-entries m (k ∷ ks) h =
    let v : IsEnvName k = h k (ground (arith, bytes_beq_iff k k)) in
    rw
      (
        env_strings_to_kubernetes_env,
        cut_found-entry k (entry_at m k) v.plain,
        v.filled,
        parsed-entries m ks (λ j e. h j (ground (arith, e))),
      )
      refl

last-vars_of :
    (n : Bytes) (m : Map Bytes Bytes) (ks : List Bytes)
    → last_value n (vars_of m ks) ≡ (if contains ks n then some (entry_at m n) else none)
unfolding last_value contains
last-vars_of n m [] = refl
last-vars_of n m (k ∷ ks) = ground (arith, last-vars_of n m ks, bytes_beq_iff k n)

contains-keys : (n : Bytes) (m : Map Bytes Bytes) → contains (keys m) n ≡ is_some (lookup n m)
unfolding contains lookup
contains-keys n [] = refl
contains-keys n ((k, v) ∷ m) = ground (arith, contains-keys n m)

-- A map whose keys can be names, turned into sorted entries and read back as the variables of a
-- container, gives for every name the value of the map, and none for a name that is no key.
-- The condition on the sort is that it keeps what the list holds.
pub env_strings_to_kubernetes_env-env_slice_from_map :
    (sort : List Bytes → List Bytes)
    → ((ks : List Bytes) (k : Bytes) → contains (sort ks) k ≡ contains ks k)
    → (m : Map Bytes Bytes) → ((k : Bytes) → is_some (lookup k m) ≡ true → IsEnvName k)
    → (n : Bytes)
    → last_value n (env_strings_to_kubernetes_env (env_slice_from_map sort m)) ≡ lookup n m
unfolding env_slice_from_map entry_at
env_strings_to_kubernetes_env-env_slice_from_map sort keeps m named n =
    let ks = sort (keys m) in
    let names : (k : Bytes) → contains ks k ≡ true → IsEnvName k =
      λ k e. named k (ground (arith, keeps (keys m) k, contains-keys k m, e)) in
    rw (parsed-entries m ks names, last-vars_of n m ks, keeps (keys m) n, contains-keys n m)
      (ground arith)
