-- ===== src/Redactor/Coverage.antt =====
-- An added value stays a pattern, or everything is redacted.
use oz_agent_worker.Prelude.{
  ◌<◌, ◌≤◌, ◌≡◌, refl, Bool, true, false, ◌&&◌, ◌||◌, not, some, List, [], ◌∷◌, ◌++◌, length, ◌==◌,
  Option-cases, inl, inr, contains, ◌⊎◌, arith,
}
use oz_agent_worker.Env.{Bytes, bytes_eq, bytes_beq_iff}
use oz_agent_worker.Redactor.{
  RedactionPattern, Redactor, narrow, add_new, add_variant, insert_sorted, sort_secrets,
  add_variants, add, variants, redact_with, redacted, max_record_bytes, patterns_for,
}
use oz_agent_worker.Redactor.Bounds.{add_all}

abbrev matches : Bytes → RedactionPattern → Bool
matches v x = x.value == v && not x.raw_only

-- `v` is a pattern of whole events as of raw lines.
unfoldable covers : Bytes → List RedactionPattern → Bool
covers v [] = false
covers v (x ∷ xs) = matches v x || covers v xs

covers-snoc :
    (v : Bytes) (xs : List RedactionPattern) (s : RedactionPattern)
    → covers v (xs ++ s ∷ []) ≡ (covers v xs || matches v s)
unfolding covers
covers-snoc v [] s = ground arith
covers-snoc v (x ∷ xs) s = ground (arith, covers-snoc v xs s)

covers-insert_sorted :
    (v : Bytes) (s : RedactionPattern) (xs : List RedactionPattern)
    → covers v (insert_sorted s xs) ≡ (matches v s || covers v xs)
unfolding covers insert_sorted
covers-insert_sorted v s [] = ground arith
covers-insert_sorted v s (x ∷ xs) = ground (arith, covers-insert_sorted v s xs)

covers-sort : (v : Bytes) (xs : List RedactionPattern) → covers v (sort_secrets xs) ≡ covers v xs
unfolding covers sort_secrets
covers-sort v [] = refl
covers-sort v (x ∷ xs) =
    ground (arith, covers-sort v xs, covers-insert_sorted v x (sort_secrets xs))

covers-narrow :
    (v : Bytes) (s : RedactionPattern) (xs ys : List RedactionPattern)
    → narrow s xs ≡ some ys
    → (covers v xs || matches v s) ≡ true
    → covers v ys ≡ true
unfolding narrow covers
covers-narrow v s [] ys h c = cc
covers-narrow v s (x ∷ xs) ys h c = elim (Option-cases (narrow s xs)) [
  | inl e ↦ ground (
    arith,
    h,
    c,
    e,
    bytes_beq_iff x.value s.value,
    bytes_beq_iff x.value v,
    bytes_beq_iff s.value v,
  )
  | inr (zs, e) ↦ ground (
    arith,
    h,
    c,
    e,
    bytes_beq_iff x.value s.value,
    bytes_beq_iff x.value v,
    bytes_beq_iff s.value v,
    covers-narrow v s xs zs e,
  )
]

-- Everything is redacted, or the value is covered.
abbrev Safe : Bytes → Redactor → Type 0
Safe v r = (r.overflow || covers v r.secrets) ≡ true

add_variant-Safe :
    (v : Bytes) (s : RedactionPattern) (r r' : Redactor)
    → 0 < length v
    → add_variant s r ≡ some r'
    → (r.overflow || covers v r.secrets || matches v s) ≡ true
    → Safe v r'
unfolding add_variant add_new
add_variant-Safe v s r r' p h c = ground (
  arith,
  h,
  c,
  bytes_beq_iff s.value v,
  covers-snoc v r.secrets s,
  covers-narrow v s r.secrets r'.secrets,
)

-- Everything is redacted, or the replacers replace the value.
abbrev Ready : Bytes → Redactor → Type 0
Ready v r = (r.overflow || (r.has_replacer && covers v r.secrets)) ≡ true

add_variants-Ready :
    (v : Bytes) (ss : List RedactionPattern) (r : Redactor)
    → 0 < length v
    → (r.overflow || covers v r.secrets || covers v ss) ≡ true
    → Ready v (add_variants ss r)
unfolding add_variants covers
add_variants-Ready v [] r p c = ground (arith, c, covers-sort v r.secrets)
add_variants-Ready v (s ∷ ss) r p c = elim (Option-cases (add_variant s r)) [
  | inl e ↦ ground (arith, e)
  | inr (r', e) ↦ ground (arith, e, c, add_variant-Safe v s r r' p e, add_variants-Ready v ss r' p)
]

module _ (query_escape json_escape : Bytes → Bytes) where
  add-Ready_self :
      (v : Bytes) (r : Redactor) → 0 < length v → Ready v (add query_escape json_escape v r)
  unfolding add variants covers
  add-Ready_self v r p =
      ground
        (arith, bytes_beq_iff v v, add_variants-Ready v (variants query_escape json_escape v) r p)

  add-Ready :
      (v w : Bytes) (r : Redactor)
      → 0 < length v
      → Ready v r
      → Ready v (add query_escape json_escape w r)
  unfolding add
  add-Ready v w r p h =
      ground (arith, h, add_variants-Ready v (variants query_escape json_escape w) r p)

  add_all-Ready :
      (v : Bytes) (ws : List Bytes) (r : Redactor)
      → 0 < length v
      → Ready v r
      → Ready v (add_all query_escape json_escape ws r)
  unfolding add_all
  add_all-Ready v [] r p h = h
  add_all-Ready v (w ∷ ws) r p h =
      add_all-Ready v ws (add query_escape json_escape w r) p (add-Ready v w r p h)

  covers-patterns :
      (v : Bytes) (raw_line : Bool) (xs : List RedactionPattern)
      → covers v xs ≡ true
      → contains (patterns_for raw_line xs) v ≡ true
  unfolding covers patterns_for contains
  covers-patterns v raw_line [] h = h
  covers-patterns v raw_line (x ∷ xs) h =
      ground (arith, h, covers-patterns v raw_line xs, bytes_beq_iff x.value v)

  -- Once a nonempty value was added, and whatever is added later, a message comes out as
  -- "[REDACTED]", or as what the replacer makes of it, and the value is then one of the replacer's
  -- patterns, for raw lines and for whole events alike; the result has at most 16 KiB.
  pub secret_covered :
      (replace : List Bytes → Bytes → Bytes) (r : Redactor) (v : Bytes) (later : List Bytes)
      (message : Bytes) (raw_line : Bool)
      → 0 < length v
      → let r' = add_all query_escape json_escape later (add query_escape json_escape v r) in
        let output = redact_with replace message raw_line r' in
        let patterns = patterns_for raw_line r'.secrets in
        ((output ≡ redacted) ⊎ ((output ≡ replace patterns message) × (contains patterns v ≡ true)))
        × (length output ≤ max_record_bytes)
  unfolding redact_with
  secret_covered replace r v later message raw_line p =
      let r' = add_all query_escape json_escape later (add query_escape json_escape v r) in
      ground (
        arith,
        add_all-Ready v later (add query_escape json_escape v r) p (add-Ready_self v r p),
        covers-patterns v raw_line r'.secrets,
      )
