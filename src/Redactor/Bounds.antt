-- ===== src/Redactor/Bounds.antt =====
-- The redactor's bounds.
use oz_agent_worker.Prelude.{
  ℕ, ◌≤◌, ◌≡◌, some, List, [], ◌∷◌, length, length-append, Option-cases, inl, inr, weight,
  weight-append, arith,
}
use oz_agent_worker.Env.{Bytes}
use oz_agent_worker.Redactor.{
  RedactionPattern, Redactor, new_redactor, max_secret_bytes, max_patterns, narrow, add_new,
  add_variant, insert_sorted, sort_secrets, add_variants, add, variants,
}

abbrev pattern_bytes : RedactionPattern → ℕ
pattern_bytes s = length s.value

-- The byte count is right, and both bounds hold.
pub record IsBounded (r : Redactor) : Type 0 where
  counted : r.bytes ≡ weight pattern_bytes r.secrets
  few : length r.secrets ≤ max_patterns
  small : r.bytes ≤ max_secret_bytes

record SameSize (xs ys : List RedactionPattern) : Type 0 where
  same_length : length xs ≡ length ys
  same_bytes : weight pattern_bytes xs ≡ weight pattern_bytes ys

narrow-SameSize :
    (s : RedactionPattern) (xs ys : List RedactionPattern) → narrow s xs ≡ some ys → SameSize xs ys
unfolding narrow
narrow-SameSize s [] ys h = cc
narrow-SameSize s (x ∷ xs) ys h = elim (Option-cases (narrow s xs)) [
  | inl e ↦ ground (arith, h, e)
  | inr (zs, e) ↦ ground (arith, h, e, narrow-SameSize s xs zs e)
]

insert_sorted-SameSize :
    (s : RedactionPattern) (xs : List RedactionPattern) → SameSize (s ∷ xs) (insert_sorted s xs)
unfolding insert_sorted
insert_sorted-SameSize s [] = ground arith
insert_sorted-SameSize s (x ∷ xs) = ground (arith, insert_sorted-SameSize s xs)

sort-SameSize : (xs : List RedactionPattern) → SameSize xs (sort_secrets xs)
unfolding sort_secrets
sort-SameSize [] = ground arith
sort-SameSize (x ∷ xs) =
    ground (arith, sort-SameSize xs, insert_sorted-SameSize x (sort_secrets xs))

add_new-IsBounded :
    (s : RedactionPattern) (r r' : Redactor) → IsBounded r → add_new s r ≡ some r' → IsBounded r'
unfolding add_new
add_new-IsBounded s r r' v h =
    ground
      (arith, v, length-append r.secrets (s ∷ []), weight-append pattern_bytes r.secrets (s ∷ []))

add_variant-IsBounded :
    (s : RedactionPattern) (r r' : Redactor)
    → IsBounded r
    → add_variant s r ≡ some r'
    → IsBounded r'
unfolding add_variant
add_variant-IsBounded s r r' v h =
    ground (arith, v, add_new-IsBounded s r r' v, narrow-SameSize s r.secrets r'.secrets)

add_variants-IsBounded :
    (ss : List RedactionPattern) (r : Redactor) → IsBounded r → IsBounded (add_variants ss r)
unfolding add_variants
add_variants-IsBounded [] r v = ground (arith, v, sort-SameSize r.secrets)
add_variants-IsBounded (s ∷ ss) r v = elim (Option-cases (add_variant s r)) [
  | inl e ↦ ground (arith, v, e)
  | inr (r', e) ↦ ground (arith, e, add_variants-IsBounded ss r' (add_variant-IsBounded s r r' v e))
]

-- A redactor is built from the empty one by adding values.
unfoldable pub add_all : (Bytes → Bytes) → (Bytes → Bytes) → List Bytes → Redactor → Redactor
add_all query_escape json_escape [] r = r
add_all query_escape json_escape (v ∷ vs) r =
    add_all query_escape json_escape vs (add query_escape json_escape v r)

add-IsBounded :
    (query_escape json_escape : Bytes → Bytes) (v : Bytes) (r : Redactor)
    → IsBounded r
    → IsBounded (add query_escape json_escape v r)
unfolding add
add-IsBounded query_escape json_escape v r b =
    ground (arith, b, add_variants-IsBounded (variants query_escape json_escape v) r b)

add_all-IsBounded :
    (query_escape json_escape : Bytes → Bytes) (vs : List Bytes) (r : Redactor)
    → IsBounded r
    → IsBounded (add_all query_escape json_escape vs r)
unfolding add_all
add_all-IsBounded query_escape json_escape [] r b = b
add_all-IsBounded query_escape json_escape (v ∷ vs) r b =
    add_all-IsBounded query_escape json_escape vs (add query_escape json_escape v r)
      (add-IsBounded query_escape json_escape v r b)

-- Whatever values are added, the redactor holds at most 4096 patterns, whose lengths sum to its
-- byte count, which is at most 1 MiB.
pub redactor-IsBounded :
    (query_escape json_escape : Bytes → Bytes) (vs : List Bytes)
    → IsBounded (add_all query_escape json_escape vs new_redactor)
unfolding new_redactor
redactor-IsBounded query_escape json_escape vs =
    add_all-IsBounded query_escape json_escape vs new_redactor (ground arith)
