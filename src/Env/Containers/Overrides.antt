-- ===== src/Env/Containers/Overrides.antt =====
-- Which variable wins in a container when two lists of variables are merged.
use oz_agent_worker.Prelude.{
  ℕ, zero, suc, true, false, if◌then◌else◌, Option, none, some, List, [], ◌∷◌, ◌++◌, ◌==◌, ◌≡◌,
  refl, sym, arith, length, is_some, nat_eq, Option-cases, Bool-cases, inl, inr, subst, append-nil,
  append_assoc,
}
use oz_agent_worker.Assoc.{Map, lookup, insert, lookup-insert}
use oz_agent_worker.Env.{Bytes, bytes_eq, bytes_beq_iff}
use oz_agent_worker.Env.Merge.{or_else}
use oz_agent_worker.Env.Containers.{
  EnvVar, set_at, add_base, add_override, add_overrides, merge_kubernetes_env_vars,
}

-- The value that a container has for a name: Kubernetes takes the last variable.
unfoldable pub last_value : Bytes → List EnvVar → Option Bytes
last_value n [] = none
last_value n (x ∷ xs) = or_else (last_value n xs) (if x.name == n then some x.value else none)

-- The variable at an index is the last with a name.
abbrev pub IsLast : Bytes → ℕ → List EnvVar → Type 0
IsLast n i [] = ⊥
IsLast n zero (x ∷ xs) = (x.name ≡ n) × (last_value n xs ≡ none)
IsLast n (suc i) (x ∷ xs) = IsLast n i xs

last-snoc :
    (n : Bytes) (e : EnvVar) (xs : List EnvVar)
    → last_value n (xs ++ e ∷ []) ≡ (if e.name == n then some e.value else last_value n xs)
unfolding last_value
last-snoc n e [] = ground arith
last-snoc n e (x ∷ xs) = ground (arith, last-snoc n e xs)

IsLast-some :
    (n : Bytes) (i : ℕ) (xs : List EnvVar) → IsLast n i xs → is_some (last_value n xs) ≡ true
unfolding last_value
IsLast-some n i [] h = elim h [ ]
IsLast-some n zero (x ∷ xs) h = ground (arith, bytes_beq_iff x.name n)
IsLast-some n (suc i) (x ∷ xs) h = ground (arith, IsLast-some n i xs h)

last-set :
    (n : Bytes) (i : ℕ) (e : EnvVar) (xs : List EnvVar)
    → IsLast e.name i xs
    → last_value n (set_at i e xs) ≡ (if e.name == n then some e.value else last_value n xs)
unfolding last_value
last-set n i e [] h = elim h [ ]
last-set n zero e (x ∷ xs) h = ground (arith, bytes_beq_iff x.name n, bytes_beq_iff e.name n)
last-set n (suc i) e (x ∷ xs) h = ground (arith, last-set n i e xs h)

IsLast-set :
    (n : Bytes) (i j : ℕ) (e : EnvVar) (xs : List EnvVar)
    → IsLast e.name i xs
    → IsLast n j xs
    → IsLast n j (set_at i e xs)
IsLast-set n i j e [] h k = elim h [ ]
IsLast-set n zero zero e (x ∷ xs) h k = ground arith
IsLast-set n zero (suc j) e (x ∷ xs) h k = k
IsLast-set n (suc i) zero e (x ∷ xs) h k =
    ground (arith, last-set n i e xs h, IsLast-some e.name i xs h, bytes_beq_iff e.name n)
IsLast-set n (suc i) (suc j) e (x ∷ xs) h k = IsLast-set n i j e xs h k

IsLast-snoc :
    (n : Bytes) (i : ℕ) (e : EnvVar) (xs : List EnvVar)
    → (e.name == n) ≡ false
    → IsLast n i xs
    → IsLast n i (xs ++ e ∷ [])
IsLast-snoc n i e [] h k = elim k [ ]
IsLast-snoc n zero e (x ∷ xs) h k = ground (arith, last-snoc n e xs)
IsLast-snoc n (suc i) e (x ∷ xs) h k = IsLast-snoc n i e xs h k

IsLast-new : (e : EnvVar) (xs : List EnvVar) → IsLast e.name (length xs) (xs ++ e ∷ [])
unfolding last_value
IsLast-new e [] = (refl, refl)
IsLast-new e (x ∷ xs) = IsLast-new e xs

-- `seen` holds the last index of every name it knows.
abbrev pub Tracks : Map Bytes ℕ → List EnvVar → Type 0
Tracks seen result = (n : Bytes) (i : ℕ) → lookup n seen ≡ some i → IsLast n i result

insert-Tracks :
    (e : EnvVar) (seen : Map Bytes ℕ) (result : List EnvVar)
    → Tracks seen result
    → Tracks (insert e.name (length result) seen) (result ++ e ∷ [])
insert-Tracks e seen result h n i k = elim (Bool-cases (e.name == n)) [
  | inl same ↦
      (let found : length result ≡ i =
          ground (arith, lookup-insert e.name n (length result) seen) in
        subst (λ m. IsLast m i (result ++ e ∷ [])) ((bytes_beq_iff e.name n).0 same)
          (subst (λ j. IsLast e.name j (result ++ e ∷ [])) found (IsLast-new e result)))
  | inr differs ↦
      (let found : lookup n seen ≡ some i =
          ground (arith, lookup-insert e.name n (length result) seen) in
        IsLast-snoc n i e result differs (h n i found))
]

add_base-Tracks :
    (es : List EnvVar) (seen : Map Bytes ℕ) (result : List EnvVar)
    → Tracks seen result
    → Tracks (add_base es seen result).0 (add_base es seen result).1
unfolding add_base
add_base-Tracks [] seen result h = h
add_base-Tracks (e ∷ es) seen result h =
    add_base-Tracks es (insert e.name (length result) seen) (result ++ e ∷ [])
      (insert-Tracks e seen result h)

add_base-append :
    (es : List EnvVar) (seen : Map Bytes ℕ) (result : List EnvVar)
    → (add_base es seen result).1 ≡ result ++ es
unfolding add_base
add_base-append [] seen result = sym (append-nil result)
add_base-append (e ∷ es) seen result =
    rw
      (
        add_base-append es (insert e.name (length result) seen) (result ++ e ∷ []),
        append_assoc result (e ∷ []) es,
      )
      refl

add_override-Tracks :
    (e : EnvVar) (seen : Map Bytes ℕ) (result : List EnvVar)
    → Tracks seen result
    → Tracks seen (add_override seen e result)
unfolding add_override
add_override-Tracks e seen result h n i k = elim (Option-cases (lookup e.name seen)) [
  | inl missing ↦
      rw (missing, add_override)
        (IsLast-snoc n i e result (ground (arith, bytes_beq_iff e.name n)) (h n i k))
  | inr (idx, found) ↦
      rw (found, add_override) (IsLast-set n idx i e result (h e.name idx found) (h n i k))
]

add_override-last :
    (n : Bytes) (e : EnvVar) (seen : Map Bytes ℕ) (result : List EnvVar)
    → Tracks seen result
    → last_value n (add_override seen e result)
      ≡ (if e.name == n then some e.value else last_value n result)
unfolding add_override
add_override-last n e seen result h = elim (Option-cases (lookup e.name seen)) [
  | inl missing ↦ rw (missing, add_override) (last-snoc n e result)
  | inr (idx, found) ↦ rw (found, add_override) (last-set n idx e result (h e.name idx found))
]

add_overrides-last :
    (n : Bytes) (es : List EnvVar) (seen : Map Bytes ℕ) (result : List EnvVar)
    → Tracks seen result
    → last_value n (add_overrides seen es result) ≡ or_else (last_value n es) (last_value n result)
unfolding add_overrides last_value
add_overrides-last n [] seen result h = refl
add_overrides-last n (e ∷ es) seen result h = ground (
  arith,
  add_overrides-last n es seen (add_override seen e result) (add_override-Tracks e seen result h),
  add_override-last n e seen result h,
)

-- Merged variables give a container, for every name, the last value of the overriding ones, and
-- that of the base where these have none, however often a name stands in either list.
pub merge_kubernetes_env_vars_lem :
    (n : Bytes) (base override : List EnvVar)
    → last_value n (merge_kubernetes_env_vars base override)
      ≡ or_else (last_value n override) (last_value n base)
unfolding merge_kubernetes_env_vars lookup
merge_kubernetes_env_vars_lem n base override =
    let s = add_base base [] [] in
    subst
      (λ result.
        last_value n (add_overrides s.0 override s.1)
        ≡ or_else (last_value n override) (last_value n result))
      (add_base-append base [] [])
      (add_overrides-last n override s.0 s.1
        (add_base-Tracks base [] [] (λ m i e. ground (arith, e))))
