-- ===== src/Recent.antt =====
-- The bounded memory of recent keys that the worker keeps twice: `completedTasks` with
-- `completedExecutions` (internal/worker/worker.go) and `standbyExits` with `standbyExitIDs`
-- (internal/worker/standby.go). A map answers the lookups and a list holds its keys, oldest first;
-- past `cap` keys the oldest is dropped from both.
pub mod Lasting
use oz_agent_worker.Prelude.{
  ℕ, suc, ◌+◌, ◌≤◌, ◌<◌, ◌≡◌, refl, inl, inr, Bool, true, false, if◌then◌else◌, Option, none, some,
  is_some, List, [], ◌∷◌, ◌++◌, Eq, Bool-cases, length, length-append, contains, contains-append,
  contains-singleton, IsDistinct, snoc-IsDistinct, ltb, arith,
}
use oz_agent_worker.Assoc.{
  Map, lookup, insert, delete, lookup-insert, lookup-insert_self, lookup-delete,
  delete-insert_other,
}

pub record Recent {ℓ κ} (K : Type ℓ) (V : Type κ) : Type (ℓ ⊔ κ) where
  pub entries : Map K V
  pub order : List K

-- `k` stands in the list with at most `n` keys behind it.
abbrev pub Behind {ℓ} : {K : Type ℓ} → ℕ → K → List K → Type ℓ
Behind n k ks = (xs : List _) × (ys : List _) × (ks ≡ xs ++ k ∷ ys) × (length ys ≤ n)

module _ {ℓ κ} {K : Type ℓ} {V : Type κ} ⦃e : Eq K⦄ where
  abbrev pub empty : Recent K V
  empty = record { entries = []; order = [] }

  abbrev pub recall : K → Recent K V → Option V
  recall k r = lookup k r.entries

  abbrev pub is_known : K → Recent K V → Bool
  is_known k r = is_some (lookup k r.entries)

  pub drop_oldest : List K → Map K V → Recent K V
  drop_oldest [] m = record { entries = m; order = [] }
  drop_oldest (k ∷ ks) m = record { entries = delete k m; order = ks }

  pub evict : ℕ → Recent K V → Recent K V
  evict cap r = if ltb cap (length r.order) then drop_oldest r.order r.entries else r

  -- The key is appended and the oldest evicted before the write, which is made in any case.
  unfoldable pub remember : ℕ → K → V → Recent K V → Recent K V
  unfolding evict drop_oldest
  remember cap k v r =
      let grown = if is_known k r then r else evict cap (record r { order = r.order ++ k ∷ [] }) in
      record grown { entries = insert k v grown.entries }

  -- The write comes first, and a known key is left alone.
  unfoldable pub note : ℕ → K → V → Recent K V → Recent K V
  unfolding evict drop_oldest
  note cap k v r =
      if is_known k r
      then r
      else evict cap (record { entries = insert k v r.entries; order = r.order ++ k ∷ [] })

  -- The list holds the map's keys, each once, and never more than `cap`.
  pub record Inv (cap : ℕ) (r : Recent K V) : Type (ℓ ⊔ κ) where
    pub bounded : length r.order ≤ cap
    pub distinct : IsDistinct r.order
    pub agree : (k : K) → is_known k r ≡ contains r.order k

  pub empty-Inv : (cap : ℕ) → Inv cap empty
  unfolding lookup contains
  empty-Inv cap = record { bounded = omega arith; distinct = tt; agree = λ k. refl }

  drop_oldest-Inv :
      (cap : ℕ) (ks : List K) (m : Map K V)
      → Inv (suc cap) (record { entries = m; order = ks })
      → Inv cap (drop_oldest ks m)
  unfolding drop_oldest contains
  drop_oldest-Inv cap [] m v = record { bounded = omega arith; distinct = tt; agree = v.agree }
  drop_oldest-Inv cap (k ∷ ks) m v = record {
    bounded = omega (arith, v.bounded);
    distinct = v.distinct.1;
    agree = λ j. ground (arith, lookup-delete k j m, v.agree j, e.beq_iff k j, v.distinct.0);
  }

  evict-Inv : (cap : ℕ) (r : Recent K V) → Inv (suc cap) r → Inv cap (evict cap r)
  unfolding evict
  evict-Inv cap r v = elim (Bool-cases (ltb cap (length r.order))) [
    | inl full ↦ rw full (drop_oldest-Inv cap r.order r.entries v)
    | inr room ↦ rw room (record { bounded = ground arith; distinct = v.distinct; agree = v.agree })
  ]

  grow-Inv :
      (cap : ℕ) (k : K) (w : V) (r : Recent K V)
      → Inv cap r
      → is_known k r ≡ false
      → Inv (suc cap) (record { entries = insert k w r.entries; order = r.order ++ k ∷ [] })
  grow-Inv cap k w r v new = record {
    bounded = omega (arith, length-append r.order (k ∷ []), v.bounded);
    distinct = snoc-IsDistinct r.order k v.distinct (ground (arith, v.agree k));
    agree = λ j. ground (
      arith,
      lookup-insert k j w r.entries,
      contains-append r.order (k ∷ []) j,
      contains-singleton k j,
      v.agree j,
    );
  }

  pub note-Inv : (cap : ℕ) (k : K) (w : V) (r : Recent K V) → Inv cap r → Inv cap (note cap k w r)
  unfolding note
  note-Inv cap k w r v = elim (Bool-cases (is_known k r)) [
    | inl old ↦ rw old v
    | inr new ↦ rw new (evict-Inv cap _ (grow-Inv cap k w r v new))
  ]

  drop_oldest-snoc :
      (k : K) (w : V) (m : Map K V) (ks : List K)
      → contains ks k ≡ false
      → 0 < length ks
      → (let r = drop_oldest (ks ++ k ∷ []) m in record r { entries = insert k w r.entries })
        ≡ drop_oldest (ks ++ k ∷ []) (insert k w m)
  unfolding drop_oldest contains
  drop_oldest-snoc k w m [] h p = absurd (omega arith)
  drop_oldest-snoc k w m (o ∷ os) h p =
      ground (arith, delete-insert_other k o w m, e.beq_iff k o, e.beq_iff o k)

  -- For a new key the two orders of writing agree, since the key dropped is another one.
  pub remember-note :
      (cap : ℕ) (k : K) (w : V) (r : Recent K V)
      → 0 < cap
      → Inv cap r
      → is_known k r ≡ false
      → remember cap k w r ≡ note cap k w r
  unfolding remember note evict
  remember-note cap k w r p v new =
      ground
        (arith, v.agree k, length-append r.order (k ∷ []), drop_oldest-snoc k w r.entries r.order)

  -- Remembering a key in a cache of a positive capacity keeps the invariant: the list holds the
  -- map's keys, each once, and never more than the capacity.
  pub remember-Inv :
      (cap : ℕ) (k : K) (w : V) (r : Recent K V)
      → 0 < cap
      → Inv cap r
      → Inv cap (remember cap k w r)
  unfolding remember
  remember-Inv cap k w r p v = elim (Bool-cases (is_known k r)) [
    | inl old ↦ rw old (record {
      bounded = v.bounded;
      distinct = v.distinct;
      agree =
          λ j. ground (arith, lookup-insert k j w r.entries, v.agree j, v.agree k, e.beq_iff k j);
    })
    | inr new ↦ rw (remember-note cap k w r p v new) (note-Inv cap k w r v)
  ]

  pub recall-remember_self :
      (cap : ℕ) (k : K) (w : V) (r : Recent K V) → recall k (remember cap k w r) ≡ some w
  unfolding remember
  recall-remember_self cap k w r = lookup-insert_self k w _
