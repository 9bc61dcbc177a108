-- ===== src/Recent/Lasting.antt =====
-- How long a key is remembered: until `cap` further keys have come.
use oz_agent_worker.Prelude.{
  ℕ, suc, ◌+◌, ◌<◌, ◌≡◌, refl, ap, inl, inr, ◌∙◌, true, false, List, [], ◌∷◌, ◌++◌, Eq, beq_refl,
  Bool-cases, length, length-append, contains, contains-append, append_assoc, ltb, arith,
}
use oz_agent_worker.Recent.{
  Recent, Inv, Behind, is_known, drop_oldest, evict, remember, note, remember-Inv,
}

module _ {ℓ} {K : Type ℓ} where
  snoc-Behind : (n : ℕ) (k j : K) (ks : List K) → Behind n k ks → Behind (suc n) k (ks ++ j ∷ [])
  snoc-Behind n k j ks (xs, ys, split, near) = (
    xs,
    ys ++ j ∷ [],
    rw split (append_assoc xs (k ∷ ys) (j ∷ [])),
    omega (arith, length-append ys (j ∷ [])),
  )

module _ {ℓ} {K : Type ℓ} ⦃e : Eq K⦄ where
  contains-cons_self : (k : K) (ks : List K) → contains (k ∷ ks) k ≡ true
  unfolding contains
  contains-cons_self k ks = rw (beq_refl k)

  pub contains_of_Behind : (n : ℕ) (k : K) (ks : List K) → Behind n k ks → contains ks k ≡ true
  contains_of_Behind n k ks (xs, ys, split, near) =
      ground (
        arith,
        ap (λ l. contains l k) split,
        contains-append xs (k ∷ ys) k,
        contains-cons_self k ys,
      )

module _ {ℓ κ} {K : Type ℓ} {V : Type κ} ⦃e : Eq K⦄ where
  drop_oldest-Behind :
      (n : ℕ) (k : K) (ks : List K) (m : List (K × V))
      → suc n < length ks
      → Behind n k ks
      → Behind n k (drop_oldest ks m).order
  unfolding drop_oldest
  drop_oldest-Behind n k [] m p b = absurd (omega arith)
  drop_oldest-Behind n k (x ∷ ks) m p ([], ys, split, near) =
      absurd (omega (arith, ap length split))
  drop_oldest-Behind n k (x ∷ ks) m p (z ∷ xs, ys, split, near) = (xs, ys, cc, near)

  evict-Behind :
      (cap n : ℕ) (k : K) (r : Recent K V)
      → n < cap
      → Behind n k r.order
      → Behind n k (evict cap r).order
  unfolding evict
  evict-Behind cap n k r p b = elim (Bool-cases (ltb cap (length r.order))) [
    | inl full ↦ rw full (drop_oldest-Behind n k r.order r.entries (ground arith) b)
    | inr room ↦ rw room b
  ]

  remember-Behind :
      (cap n : ℕ) (k j : K) (w : V) (r : Recent K V)
      → suc n < cap
      → Behind n k r.order
      → Behind (suc n) k (remember cap j w r).order
  unfolding remember
  remember-Behind cap n k j w r p b = elim (Bool-cases (is_known j r)) [
    | inl old ↦ rw old (b.0, b.1, b.2, omega (arith, b.3))
    | inr new ↦ rw new (evict-Behind cap (suc n) k _ p (snoc-Behind n k j r.order b))
  ]

  pub note-Behind :
      (cap n : ℕ) (k j : K) (w : V) (r : Recent K V)
      → suc n < cap
      → Behind n k r.order
      → Behind (suc n) k (note cap j w r).order
  unfolding note
  note-Behind cap n k j w r p b = elim (Bool-cases (is_known j r)) [
    | inl old ↦ rw old (b.0, b.1, b.2, omega (arith, b.3))
    | inr new ↦ rw new (evict-Behind cap (suc n) k _ p (snoc-Behind n k j r.order b))
  ]

  pub noted-Behind :
      (cap : ℕ) (k : K) (w : V) (r : Recent K V)
      → 0 < cap
      → is_known k r ≡ false
      → Behind 0 k (note cap k w r).order
  unfolding note
  noted-Behind cap k w r p new = rw new (evict-Behind cap 0 k _ p (r.order, [], refl, omega arith))

  pub remember_all : ℕ → List (K × V) → Recent K V → Recent K V
  remember_all cap [] r = r
  remember_all cap ((k, w) ∷ rest) r = remember_all cap rest (remember cap k w r)

  remember_all-Behind :
      (cap n : ℕ) (k : K) (later : List (K × V)) (r : Recent K V)
      → n + length later < cap
      → Behind n k r.order
      → Inv cap r
      → is_known k (remember_all cap later r) ≡ true
  unfolding remember_all
  remember_all-Behind cap n k [] r p b v = v.agree k ∙ contains_of_Behind n k r.order b
  remember_all-Behind cap n k ((j, w) ∷ rest) r p b v =
      remember_all-Behind cap (suc n) k rest (remember cap j w r) (omega arith)
        (remember-Behind cap n k j w r (omega arith) b) (remember-Inv cap j w r (omega arith) v)

  fresh-Behind :
      (cap : ℕ) (k : K) (w : V) (r : Recent K V)
      → 0 < cap
      → is_known k r ≡ false
      → Behind 0 k (remember cap k w r).order
  unfolding remember
  fresh-Behind cap k w r p new = rw new (
      evict-Behind cap 0 k (record r { order = r.order ++ k ∷ [] }) p
        (r.order, [], refl, omega arith))

  -- In a cache of capacity `cap` whose invariant holds, a key that was not known and is then
  -- remembered is still known after any list of further keys shorter than `cap`.
  pub remember-lasts :
      (cap : ℕ) (k : K) (w : V) (later : List (K × V)) (r : Recent K V)
      → length later < cap
      → is_known k r ≡ false
      → Inv cap r
      → is_known k (remember_all cap later (remember cap k w r)) ≡ true
  remember-lasts cap k w later r p new v =
      remember_all-Behind cap 0 k later (remember cap k w r) (omega arith)
        (fresh-Behind cap k w r (omega arith) new) (remember-Inv cap k w r (omega arith) v)
