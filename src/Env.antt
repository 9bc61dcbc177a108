-- ===== src/Env.antt =====
-- Environment entries `KEY=VALUE`: mergeEnvVars of internal/worker/direct.go, and the Env map of
-- NewDispatchPayload in internal/worker/dispatch_payload.go. An entry is its bytes.
pub mod Merge
pub mod Containers
pub mod Metadata
use oz_agent_worker.Prelude.{
  ℕ, Bool, true, false, ◌&&◌, if◌then◌else◌, is_some, Option, none, some, List, [], ◌∷◌, ◌++◌, ◌==◌,
  Eq, nat_eq, ◌≡◌, ◌↔◌, refl, arith,
}
use oz_agent_worker.Assoc.{Map, lookup, insert}

abbrev pub Bytes : Type 0
Bytes = List ℕ

abbrev pub bytes_beq : Bytes → Bytes → Bool
bytes_beq [] [] = true
bytes_beq [] (b ∷ y) = false
bytes_beq (a ∷ x) [] = false
bytes_beq (a ∷ x) (b ∷ y) = a == b && bytes_beq x y

pub bytes_beq_iff : (x y : Bytes) → (bytes_beq x y ≡ true) ↔ (x ≡ y)
bytes_beq_iff [] [] = ground arith
bytes_beq_iff [] (b ∷ y) = ground arith
bytes_beq_iff (a ∷ x) [] = ground arith
bytes_beq_iff (a ∷ x) (b ∷ y) = ground (arith, bytes_beq_iff x y)

instance abbrev pub bytes_eq : Eq Bytes
bytes_eq = record { beq = bytes_beq; beq_iff = bytes_beq_iff }

-- The byte `=`.
abbrev pub equals_sign : ℕ
equals_sign = 61

-- strings.Cut(entry, "="), without its flag: what stands before the first `=`, and after it.
unfoldable pub cut : Bytes → Bytes × Bytes
cut [] = ([], [])
cut (b ∷ e) = let rest = cut e in if b == equals_sign then ([], e) else (b ∷ rest.0, rest.1)

-- `envMap` and `keys` of mergeEnvVars.
pub record Merged : Type 0 where
  pub env_map : Map Bytes Bytes
  pub keys : List Bytes

-- The body of each of the two loops.
unfoldable pub merge_entry : Bytes → Merged → Merged
merge_entry entry s =
    let key = (cut entry).0 in
    record {
      env_map = insert key entry s.env_map;
      keys = if is_some (lookup key s.env_map) then s.keys else s.keys ++ key ∷ [];
    }

unfoldable pub merge_entries : List Bytes → Merged → Merged
merge_entries [] s = s
merge_entries (entry ∷ entries) s = merge_entries entries (merge_entry entry s)

-- envMap[key], whose zero value is the empty string.
unfoldable pub entry_at : Map Bytes Bytes → Bytes → Bytes
entry_at m key = elim (lookup key m) [ none ↦ [] | some entry ↦ entry ]

unfoldable pub result_of : Map Bytes Bytes → List Bytes → List Bytes
result_of m [] = []
result_of m (key ∷ keys) = entry_at m key ∷ result_of m keys

unfoldable pub merge_env_vars : List Bytes → List Bytes → List Bytes
merge_env_vars base override =
    let s = merge_entries override (merge_entries base (record { env_map = []; keys = [] })) in
    result_of s.env_map s.keys

-- The loop of NewDispatchPayload.
unfoldable pub payload_env : List Bytes → Map Bytes Bytes → Map Bytes Bytes
payload_env [] env = env
payload_env (entry ∷ entries) env =
    let pair = cut entry in payload_env entries (insert pair.0 pair.1 env)
