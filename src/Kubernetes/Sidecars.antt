-- ===== src/Kubernetes/Sidecars.antt =====
-- validateTaskSidecars of internal/worker/kubernetes.go, and the same checks in prepareSidecars of
-- internal/worker/docker.go, which reserve no path.
use oz_agent_worker.Prelude.{
  Bool, true, false, if◌then◌else◌, Option, none, some, List, [], ◌∷◌, ◌==◌, String, string_eq, ◌≡◌,
  ◌↔◌, refl, contains, arith, map,
}

pub record SidecarMount : Type 0 where
  pub image : String
  pub mount_path : String
  pub read_write : Bool

pub data SidecarError : Type 0 where
  empty_image empty_mount_path reserved_path duplicate_path : SidecarError

-- The loop: `seen` has the mount paths so far.
unfoldable pub validate_sidecars : List String → List SidecarMount → Option SidecarError
validate_sidecars seen [] = none
validate_sidecars seen (s ∷ ss) =
    let rest = validate_sidecars (s.mount_path ∷ seen) ss in
    if s.image == ""
    then some empty_image
    else if s.mount_path == ""
    then some empty_mount_path
    else if s.mount_path == "/workspace"
    then some reserved_path
    else if contains seen s.mount_path
    then some duplicate_path
    else rest

unfoldable pub validate_task_sidecars : List SidecarMount → Option SidecarError
validate_task_sidecars sidecars = validate_sidecars [] sidecars

abbrev pub paths : List SidecarMount → List String
paths ss = map (λ s. s.mount_path) ss

-- What each accepted sidecar has, next to the paths in use.
abbrev pub AllMountable : List SidecarMount → Type 0
AllMountable [] = Unit
AllMountable (s ∷ ss) =
    (s.image == "" ≡ false)
    × (s.mount_path == "" ≡ false)
    × (s.mount_path == "/workspace" ≡ false)
    × (contains (paths ss) s.mount_path ≡ false)
    × AllMountable ss

abbrev Fresh : List String → List SidecarMount → Type 0
Fresh seen ss = (p : String) → contains seen p ≡ true → contains (paths ss) p ≡ false

accepted-AllMountable :
    (seen : List String) (ss : List SidecarMount)
    → validate_sidecars seen ss ≡ none
    → AllMountable ss × Fresh seen ss
unfolding validate_sidecars contains
accepted-AllMountable seen [] h = (tt, λ p k. refl)
accepted-AllMountable seen (s ∷ ss) h =
    let path = s.mount_path in
    let rest : validate_sidecars (path ∷ seen) ss ≡ none = ground (arith, h) in
    let r = accepted-AllMountable (path ∷ seen) ss rest in
    (
      (
        ground (arith, h),
        ground (arith, h),
        ground (arith, h),
        r.1 path (ground (arith, string_eq.beq_iff path path)),
        r.0,
      ),
      λ p c. ground (arith, h, c, string_eq.beq_iff path p, r.1 p (ground (arith, c))),
    )

AllMountable-accepted :
    (seen : List String) (ss : List SidecarMount)
    → AllMountable ss
    → Fresh seen ss
    → validate_sidecars seen ss ≡ none
unfolding validate_sidecars contains
AllMountable-accepted seen [] h k = refl
AllMountable-accepted seen (s ∷ ss) h k =
    let path = s.mount_path in
    let unseen : contains seen path ≡ false = ground (arith, k path, string_eq.beq_iff path path) in
    ground (
      arith,
      h,
      unseen,
      AllMountable-accepted (path ∷ seen) ss h.4
          (λ p c. ground (arith, c, h.3, k p, string_eq.beq_iff path p)),
    )

-- The sidecars of a task are accepted just when each has an image and a mount path, none is mounted on
-- the workspace, and no two have the same path.
pub validate_task_sidecars_iff :
    (sidecars : List SidecarMount)
    → (validate_task_sidecars sidecars ≡ none) ↔ AllMountable sidecars
unfolding validate_task_sidecars contains
validate_task_sidecars_iff sidecars = (
  λ h. (accepted-AllMountable [] sidecars h).0,
  λ h. AllMountable-accepted [] sidecars h (λ p c. ground (arith, c)),
)
