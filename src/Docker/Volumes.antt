-- ===== src/Docker/Volumes.antt =====
-- prepareSidecarVolume of internal/worker/docker.go. The gate of a volume is held from its
-- acquisition to the return, so that a call is one step; logs and the texts of errors are left out.
pub mod Sound
use oz_agent_worker.Prelude.{
  Bool, true, false, not, if◌then◌else◌, Option, none, some, is_some, List, [], ◌∷◌, ◌==◌, String,
  string_eq, ◌≡◌,
}
use oz_agent_worker.Assoc.{Map, lookup, insert}

-- An answer of the Docker Engine: no error, cerrdefs.IsNotFound, or another error.
pub data Call : Type 0 where
  ok not_found call_failed : Call

abbrev pub is_ok : Call → Bool
is_ok ok = true
is_ok _ = false

-- The Engine, on a state `E` of its own, and `populate`. `is_partial` says of a volume that it exists
-- without all of its contents.
pub record Engine (E : Type 0) : Type 0 where
  pub volume_inspect : String → E → E × Call
  pub volume_create : String → E → E × Call
  pub volume_remove : String → E → E × Call
  pub populate : String → E → E × Call
  pub is_partial : String → E → Bool

abbrev pub is_removed : Call → Bool
is_removed call_failed = false
is_removed _ = true

-- What the code relies on: an inspection changes nothing, a removal without an error, or with the one
-- that there is no such volume, leaves none, a population without an error is complete, and no call
-- touches another volume.
pub record IsEngine {E : Type 0} (d : Engine E) : Type 0 where
  pub inspect_keeps :
      (n m : String) (e : E) → d.is_partial m (d.volume_inspect n e).0 ≡ d.is_partial m e
  pub remove_clears :
      (n : String) (e : E)
      → is_removed (d.volume_remove n e).1 ≡ true
      → d.is_partial n (d.volume_remove n e).0 ≡ false
  pub populate_fills :
      (n : String) (e : E)
      → is_ok (d.populate n e).1 ≡ true
      → d.is_partial n (d.populate n e).0 ≡ false
  pub create_apart :
      (n m : String) (e : E)
      → (n == m) ≡ false
      → d.is_partial m (d.volume_create n e).0 ≡ d.is_partial m e
  pub remove_apart :
      (n m : String) (e : E)
      → (n == m) ≡ false
      → d.is_partial m (d.volume_remove n e).0 ≡ d.is_partial m e
  pub populate_apart :
      (n m : String) (e : E)
      → (n == m) ≡ false
      → d.is_partial m (d.populate n e).0 ≡ d.is_partial m e

-- The Engine's state, and `sidecarVolumes`: the `dirty` flag of each volume.
pub record Volumes (E : Type 0) : Type 0 where
  pub engine : E
  pub sidecar_volumes : Map String Bool

pub data VolumeResult : Type 0 where
  reused populated : VolumeResult
  gate_failed remove_failed inspect_failed create_failed populate_failed : VolumeResult

-- A nil error: the volume will be mounted.
abbrev pub is_mounted : VolumeResult → Bool
is_mounted reused = true
is_mounted populated = true
is_mounted _ = false

abbrev pub flag : Option Bool → Bool
flag none = false
flag (some b) = b

abbrev pub is_dirty : String → Map String Bool → Bool
is_dirty n m = flag (lookup n m)

-- LoadOrStore
unfoldable pub load_or_store : String → Map String Bool → Map String Bool
load_or_store n m = if is_some (lookup n m) then m else insert n false m

abbrev pub mark : {E : Type 0} → String → Bool → E → Volumes E → Volumes E
mark n b e s = record { engine = e; sidecar_volumes = insert n b s.sidecar_volumes }

module _ {E : Type 0} (d : Engine E) where
  -- removeIncompleteSidecarVolume for a dirty volume; the flag says that there was no error.
  unfoldable pub clear_dirty : String → Volumes E → Volumes E × Bool
  clear_dirty n s =
      let r = d.volume_remove n s.engine in
      if not (is_dirty n s.sidecar_volumes)
      then (s, true)
      else if is_removed r.1
      then (mark n false r.0 s, true)
      else (record s { engine = r.0 }, false)

  unfoldable pub populate_volume : String → Volumes E → Volumes E × VolumeResult
  populate_volume n s =
      let r = d.populate n s.engine in
      let cleanup = d.volume_remove n r.0 in
      if is_ok r.1
      then (mark n false r.0 s, populated)
      else if is_removed cleanup.1
      then (mark n false cleanup.0 s, populate_failed)
      else (record s { engine = cleanup.0 }, populate_failed)

  unfoldable pub create_volume : String → Volumes E → Volumes E × VolumeResult
  create_volume n s =
      let r = d.volume_create n s.engine in
      let dirty = mark n true r.0 s in
      let rest = populate_volume n dirty in if is_ok r.1 then rest else (dirty, create_failed)

  unfoldable pub inspect_volume : String → Volumes E → Call → Volumes E × VolumeResult
  inspect_volume n s ok = (s, reused)
  inspect_volume n s not_found = create_volume n s
  inspect_volume n s call_failed = (s, inspect_failed)

  -- `acquired` says that the gate was acquired.
  unfoldable pub prepare_sidecar_volume : Bool → String → Volumes E → Volumes E × VolumeResult
  prepare_sidecar_volume acquired n s =
      let s = record s { sidecar_volumes = load_or_store n s.sidecar_volumes } in
      let c = clear_dirty n s in
      let r = d.volume_inspect n c.0.engine in
      let rest = inspect_volume n (record c.0 { engine = r.0 }) r.1 in
      if not acquired then (s, gate_failed) else if not c.1 then (c.0, remove_failed) else rest

  unfoldable pub prepare_all : List (Bool × String) → Volumes E → Volumes E
  prepare_all [] s = s
  prepare_all ((acquired, n) ∷ calls) s = prepare_all calls (prepare_sidecar_volume acquired n s).0
