-- ===== src/ImageRemapper/Effect.antt =====
-- Every mapping of a remapper that was built takes effect.
use oz_agent_worker.Prelude.{
  Bool, true, false, ◌&&◌, ◌||◌, if◌then◌else◌, some, List, [], ◌∷◌, ◌++◌, ◌==◌, ◌≡◌, ◌≢◌, ◌⊎◌, inl,
  inr, refl, length, nat_eq, arith, Option-cases,
}
use oz_agent_worker.Assoc.{Map, lookup, lookup-insert}
use oz_agent_worker.Env.{Bytes, bytes_eq, bytes_beq_iff}
use oz_agent_worker.ImageRemapper.{
  Reference, MappingError, Built, built, failed, insert_source, sort_sources, strip, add_mapping,
  add_mappings, new_image_remapper, remap,
}

strip-append : (x y : Bytes) → strip x (x ++ y) ≡ some y
unfolding strip
strip-append [] y = refl
strip-append (a ∷ x) y = ground (arith, strip-append x y)

-- `e` is one of the pairs.
unfoldable pub listed : Bytes × Bytes → List (Bytes × Bytes) → Bool
listed e [] = false
listed e (x ∷ xs) = (x.0 == e.0 && x.1 == e.1) || listed e xs

listed-insert :
    (e x : Bytes × Bytes) (xs : List (Bytes × Bytes))
    → listed e xs ≡ true
    → listed e (insert_source x xs) ≡ true
unfolding listed insert_source
listed-insert e x [] h = cc
listed-insert e x (y ∷ ys) h = ground (arith, h, listed-insert e x ys)

listed-insert_self :
    (e x : Bytes × Bytes) (xs : List (Bytes × Bytes))
    → (x.0 == e.0 && x.1 == e.1) ≡ true
    → listed e (insert_source x xs) ≡ true
unfolding listed insert_source
listed-insert_self e x [] h = ground (arith, h)
listed-insert_self e x (y ∷ ys) h = ground (arith, h, listed-insert_self e x ys)

listed-sort :
    (e : Bytes × Bytes) (xs : List (Bytes × Bytes))
    → listed e xs ≡ true
    → listed e (sort_sources xs) ≡ true
unfolding listed sort_sources
listed-sort e [] h = h
listed-sort e (x ∷ xs) h = ground (
  arith,
  h,
  listed-sort e xs,
  listed-insert e x (sort_sources xs),
  listed-insert_self e x (sort_sources xs),
)

Built-cases :
    {Named : Type 0} (b : Built Named)
    → ((error : MappingError) × (b ≡ failed error)) ⊎ ((m : Map Bytes Named) × (b ≡ built m))
Built-cases (failed error) = inl (error, refl)
Built-cases (built m) = inr (m, refl)

lookup-nonempty :
    {Named : Type 0} (k : Bytes) (m : Map Bytes Named) {to : Named}
    → lookup k m ≡ some to
    → length m ≢ 0
unfolding lookup
lookup-nonempty k [] h = cc
lookup-nonempty k (e ∷ m) h = omega arith

module _ {Named : Type 0} ⦃ref : Reference Named⦄ where
  -- The repository `k` goes to the reference `to`.
  record Sent (k : Bytes) (to : Named) (m : Map Bytes Named) : Type 0 where
    at : lookup k m ≡ some to

  add_mapping-Sent :
      (e : Bytes × Bytes) (m m' : Map Bytes Named) (k : Bytes) (to : Named)
      → add_mapping e m ≡ built m'
      → Sent k to m
      → Sent k to m'
  unfolding add_mapping
  add_mapping-Sent e m m' k to h v = elim (Option-cases (ref.parse_normalized_named e.0)) [
    | inl p ↦ ground (arith, p, h)
    | inr (from, p) ↦ elim (Option-cases (ref.parse_normalized_named e.1)) [
      | inl q ↦ ground (arith, p, q, h)
      | inr (dest, q) ↦ ground (
        arith,
        p,
        q,
        h,
        v,
        lookup-insert (ref.text from) k dest m,
        bytes_beq_iff (ref.text from) k,
      )
    ]
  ]

  add_mapping-Sent_self :
      (e : Bytes × Bytes) (m m' : Map Bytes Named) (from to : Named)
      → ref.parse_normalized_named e.0 ≡ some from
      → ref.parse_normalized_named e.1 ≡ some to
      → add_mapping e m ≡ built m'
      → Sent (ref.text from) to m'
  unfolding add_mapping
  add_mapping-Sent_self e m m' from to p q h = ground (
    arith,
    p,
    q,
    h,
    lookup-insert (ref.text from) (ref.text from) to m,
    bytes_beq_iff (ref.text from) (ref.text from),
  )

  add_mappings-Sent :
      (es : List (Bytes × Bytes)) (m m' : Map Bytes Named) (k : Bytes) (to : Named)
      → add_mappings es m ≡ built m'
      → Sent k to m
      → Sent k to m'
  unfolding add_mappings
  add_mappings-Sent [] m m' k to h v = ground (arith, h, v)
  add_mappings-Sent (e ∷ es) m m' k to h v = elim (Built-cases (add_mapping e m)) [
    | inl (error, p) ↦ ground (arith, p, h)
    | inr (n, p) ↦
        ground (arith, p, h, add_mapping-Sent e m n k to p v, add_mappings-Sent es n m' k to)
  ]

  add_mappings-listed :
      (es : List (Bytes × Bytes)) (m m' : Map Bytes Named) (e : Bytes × Bytes) (from to : Named)
      → add_mappings es m ≡ built m'
      → listed e es ≡ true
      → ref.parse_normalized_named e.0 ≡ some from
      → ref.parse_normalized_named e.1 ≡ some to
      → Sent (ref.text from) to m'
  unfolding add_mappings listed
  add_mappings-listed [] m m' e from to h l p q = cc
  add_mappings-listed (x ∷ es) m m' e from to h l p q = elim (Built-cases (add_mapping x m)) [
    | inl (error, b) ↦ ground (arith, b, h)
    | inr (n, b) ↦ ground (
      arith,
      b,
      h,
      l,
      p,
      q,
      bytes_beq_iff x.0 e.0,
      bytes_beq_iff x.1 e.1,
      add_mapping-Sent_self x m n from to,
      add_mappings-Sent es n m' (ref.text from) to,
      add_mappings-listed es n m' e from to,
    )
  ]

  -- Once the remapper is built from a table, each entry of the table takes effect: an image whose
  -- trimmed name is the source repository becomes the destination's text when the destination has a
  -- tag or digest, and else the destination's text followed by the image's own tag and digest.
  pub mapping_effect :
      (mappings : Map Bytes Bytes) (m : Map Bytes Named) (source dest image : Bytes)
      (from to n : Named)
      → new_image_remapper mappings ≡ built m
      → listed (source, dest) mappings ≡ true
      → ref.parse_normalized_named source ≡ some from
      → ref.parse_normalized_named dest ≡ some to
      → ref.parse_normalized_named image ≡ some n
      → ref.text (ref.trim_named n) ≡ ref.text from
      → remap m image ≡ (if ref.is_name_only to then ref.text to ++ ref.suffix n else ref.text to)
  unfolding new_image_remapper remap
  mapping_effect mappings m source dest image from to n h l p q i t =
      let v =
        add_mappings-listed (sort_sources mappings) [] m (source, dest) from to h
          (listed-sort (source, dest) mappings l) p q in
      ground (
        arith,
        v,
        i,
        t,
        lookup-nonempty (ref.text from) m v.at,
        ref.text-trim_named n,
        strip-append (ref.text (ref.trim_named n)) (ref.suffix n),
      )
