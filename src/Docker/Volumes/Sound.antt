-- ===== src/Docker/Volumes/Sound.antt =====
-- No task mounts a sidecar volume with a part of its contents.
use oz_agent_worker.Prelude.{
  Bool, true, false, not, if◌then◌else◌, List, [], ◌∷◌, ◌==◌, String, string_eq, ◌≡◌, sym, ◌∙◌,
  arith, if-rule,
}
use oz_agent_worker.Assoc.{Map, lookup-insert}
use oz_agent_worker.Docker.Volumes.{
  Call, ok, not_found, call_failed, is_ok, is_removed, Engine, IsEngine, Volumes, VolumeResult,
  populated, gate_failed, remove_failed, create_failed, populate_failed, is_mounted, is_dirty,
  load_or_store, mark, clear_dirty, populate_volume, create_volume, inspect_volume,
  prepare_sidecar_volume, prepare_all,
}

module _ {E : Type 0} (d : Engine E) (v : IsEngine d) where
  -- Only a dirty volume can be partial; the volume `n` may be exempt.
  abbrev Sound : (E × Map String Bool) → Type 0
  Sound s = (m : String) → is_dirty m s.1 ≡ false → d.is_partial m s.0 ≡ false

  abbrev pub IsSound : Volumes E → Type 0
  IsSound s = Sound (s.engine, s.sidecar_volumes)

  -- The other volumes, in a state of the Engine.
  abbrev Apart : String → Map String Bool → E → Type 0
  Apart n flags e =
      (m : String) → (n == m) ≡ false → is_dirty m flags ≡ false → d.is_partial m e ≡ false

  -- A result is sound, and complete when it is to be mounted.
  abbrev Delivers : String → Volumes E × VolumeResult → Type 0
  Delivers n r = IsSound r.0 × (is_mounted r.1 ≡ true → d.is_partial n r.0.engine ≡ false)

  dirty-mark :
      (n m : String) (b : Bool) (e : E) (s : Volumes E)
      → is_dirty m (mark n b e s).sidecar_volumes
        ≡ (if n == m then b else is_dirty m s.sidecar_volumes)
  dirty-mark n m b e s = ground (arith, lookup-insert n m b s.sidecar_volumes)

  dirty-load :
      (n m : String) (flags : Map String Bool)
      → is_dirty m (load_or_store n flags) ≡ is_dirty m flags
  unfolding load_or_store
  dirty-load n m flags = ground (arith, lookup-insert n m false flags, string_eq.beq_iff n m)

  -- A clean mark is right on a complete volume.
  mark-clean :
      (n : String) (e : E) (s : Volumes E)
      → Apart n s.sidecar_volumes e
      → d.is_partial n e ≡ false
      → IsSound (mark n false e s)
  mark-clean n e s h k m c = ground (arith, dirty-mark n m false e s, h m, string_eq.beq_iff n m)

  Apart-remove :
      (n : String) (flags : Map String Bool) (e : E)
      → Apart n flags e
      → Apart n flags (d.volume_remove n e).0
  Apart-remove n flags e h m c k = v.remove_apart n m e c ∙ h m c k

  Apart-populate :
      (n : String) (flags : Map String Bool) (e : E)
      → Apart n flags e
      → Apart n flags (d.populate n e).0
  Apart-populate n flags e h m c k = v.populate_apart n m e c ∙ h m c k

  Apart-create :
      (n : String) (s : Volumes E)
      → IsSound s
      → Apart n
          (mark n true (d.volume_create n s.engine).0 s).sidecar_volumes
          (d.volume_create n s.engine).0
  Apart-create n s h m c k =
      v.create_apart n m s.engine c
      ∙ h m (ground (arith, dirty-mark n m true (d.volume_create n s.engine).0 s))

  still-dirty :
      (n : String) (flags : Map String Bool) (e : E)
      → is_dirty n flags ≡ true
      → Apart n flags e
      → Sound (e, flags)
  still-dirty n flags e h k m c = ground (arith, k m, string_eq.beq_iff n m)

  abbrev Clears : String → Volumes E × Bool → Type 0
  Clears n r = IsSound r.0 × (r.1 ≡ true → is_dirty n r.0.sidecar_volumes ≡ false)

  clear_dirty-IsSound : (n : String) (s : Volumes E) → IsSound s → Clears n (clear_dirty d n s)
  unfolding clear_dirty
  clear_dirty-IsSound n s h =
      let r = d.volume_remove n s.engine in
      let apart = Apart-remove n s.sidecar_volumes s.engine (λ m c k. h m k) in
      if-rule (Clears n) (not (is_dirty n s.sidecar_volumes)) (s, true) _
        (λ e. (h, λ x. ground (arith, e)))
        (λ e.
          if-rule (Clears n) (is_removed r.1) (mark n false r.0 s, true)
            (record s { engine = r.0 }, false)
            (λ f. (
              mark-clean n r.0 s apart (v.remove_clears n s.engine f),
              λ x. ground (arith, dirty-mark n n false r.0 s, string_eq.beq_iff n n),
            ))
            (λ f. (
              still-dirty n s.sidecar_volumes r.0 (ground (arith, e)) apart,
              λ x. ground (arith, x),
            )))

  populate_volume-Delivers :
      (n : String) (s : Volumes E)
      → Apart n s.sidecar_volumes s.engine
      → is_dirty n s.sidecar_volumes ≡ true
      → Delivers n (populate_volume d n s)
  unfolding populate_volume
  populate_volume-Delivers n s h k =
      let r = d.populate n s.engine in
      let cleanup = d.volume_remove n r.0 in
      let filled = Apart-populate n s.sidecar_volumes s.engine h in
      let cleaned = Apart-remove n s.sidecar_volumes r.0 filled in
      if-rule (Delivers n) (is_ok r.1) (mark n false r.0 s, populated) _
        (λ e.
          let whole = v.populate_fills n s.engine e in
          (mark-clean n r.0 s filled whole, λ x. whole))
        (λ e.
          if-rule (Delivers n) (is_removed cleanup.1) (mark n false cleanup.0 s, populate_failed)
            (record s { engine = cleanup.0 }, populate_failed)
            (λ f.
              (mark-clean n cleanup.0 s cleaned (v.remove_clears n r.0 f), λ x. ground (arith, x)))
            (λ f. (still-dirty n s.sidecar_volumes cleanup.0 k cleaned, λ x. ground (arith, x))))

  create_volume-Delivers :
      (n : String) (s : Volumes E) → IsSound s → Delivers n (create_volume d n s)
  unfolding create_volume
  create_volume-Delivers n s h =
      let r = d.volume_create n s.engine in
      let dirty = mark n true r.0 s in
      let apart = Apart-create n s h in
      let is : is_dirty n dirty.sidecar_volumes ≡ true =
        ground (arith, dirty-mark n n true r.0 s, string_eq.beq_iff n n) in
      if-rule (Delivers n) (is_ok r.1) (populate_volume d n dirty) (dirty, create_failed)
        (λ e. populate_volume-Delivers n dirty apart is)
        (λ e. (still-dirty n dirty.sidecar_volumes r.0 is apart, λ x. ground (arith, x)))

  inspect_volume-Delivers :
      (n : String) (s : Volumes E) (c : Call)
      → IsSound s
      → is_dirty n s.sidecar_volumes ≡ false
      → Delivers n (inspect_volume d n s c)
  unfolding inspect_volume
  inspect_volume-Delivers n s ok h k = (h, λ e. h n k)
  inspect_volume-Delivers n s not_found h k = create_volume-Delivers n s h
  inspect_volume-Delivers n s call_failed h k = (h, λ e. ground (arith, e))

  prepare-Delivers :
      (acquired : Bool) (n : String) (s : Volumes E)
      → IsSound s
      → Delivers n (prepare_sidecar_volume d acquired n s)
  unfolding prepare_sidecar_volume
  prepare-Delivers acquired n s h =
      let t = record s { sidecar_volumes = load_or_store n s.sidecar_volumes } in
      let k : IsSound t = λ m c. h m (sym (dirty-load n m s.sidecar_volumes) ∙ c) in
      let c = clear_dirty d n t in
      let cleared = clear_dirty-IsSound n t k in
      let r = d.volume_inspect n c.0.engine in
      let u = record c.0 { engine = r.0 } in
      let seen : IsSound u = λ m x. v.inspect_keeps n m c.0.engine ∙ cleared.0 m x in
      if-rule (Delivers n) (not acquired) (t, gate_failed) _ (λ e. (k, λ x. ground (arith, x)))
        (λ e.
          if-rule (Delivers n) (not c.1) (c.0, remove_failed) (inspect_volume d n u r.1)
            (λ f. (cleared.0, λ x. ground (arith, x)))
            (λ f. inspect_volume-Delivers n u r.1 seen (cleared.1 (ground (arith, f)))))

  prepare_all-IsSound :
      (calls : List (Bool × String)) (s : Volumes E) → IsSound s → IsSound (prepare_all d calls s)
  unfolding prepare_all
  prepare_all-IsSound [] s h = h
  prepare_all-IsSound ((acquired, n) ∷ calls) s h =
      prepare_all-IsSound calls (prepare_sidecar_volume d acquired n s).0
        (prepare-Delivers acquired n s h).0

-- However the calls of the Engine succeed or fail, and whatever volumes were prepared before, a volume
-- that a task mounts is never one that exists without all of its contents, when at the start no
-- volume was.
pub mounted_volumes_complete :
    {E : Type 0} (d : Engine E)
    → IsEngine d
    → (e : E) → ((m : String) → d.is_partial m e ≡ false)
    → (calls : List (Bool × String)) (acquired : Bool) (n : String)
    → let s = prepare_all d calls (record { engine = e; sidecar_volumes = [] }) in
      is_mounted (prepare_sidecar_volume d acquired n s).1 ≡ true
      → d.is_partial n (prepare_sidecar_volume d acquired n s).0.engine ≡ false
mounted_volumes_complete d v e fresh calls acquired n =
    let s = prepare_all d calls (record { engine = e; sidecar_volumes = [] }) in
    (prepare-Delivers d v acquired n s (prepare_all-IsSound d v calls _ (λ m h. fresh m))).1
