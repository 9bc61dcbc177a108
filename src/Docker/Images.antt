-- ===== src/Docker/Images.antt =====
-- prepareImage of internal/worker/docker.go: which image is used under which pull policy.
-- The texts of errors, logs and setup events are left out.
use oz_agent_worker.Prelude.{
  if-rule, Bool, true, false, if◌then◌else◌, List, [], ◌∷◌, ◌==◌, String, string_eq, ◌≡◌, refl, ap,
}

-- What the Docker Engine is asked.
pub data EngineCall : Type 0 where
  image_inspect image_pull : EngineCall

-- An inspection: the platform of the image, or an error, which may say that there is none.
pub data Inspection : Type 0 where
  found : String → Inspection
  absent inspect_error : Inspection

-- The answers of the Engine: to the first inspection, to the pull with its stream, and to the
-- inspection after it.
pub record Answers : Type 0 where
  pub local : Inspection
  pub pulled : Bool
  pub resolved : Inspection

pub data ImageResult : Type 0 where
  ready : ImageResult
  wrong_platform not_local inspect_failed pull_failed pulled_inspect_failed : ImageResult

pub data PullPolicy : Type 0 where
  always if_not_present never : PullPolicy

-- An empty or unknown policy is Always.
unfoldable pub normalize_docker_pull_policy : String → PullPolicy
normalize_docker_pull_policy policy =
    if policy == "Always"
    then always
    else if policy == "IfNotPresent"
    then if_not_present
    else if policy == "Never"
    then never
    else always

-- `platform` is the one of the backend.
unfoldable pub validate_image_platform : String → String → ImageResult
validate_image_platform platform image = if image == platform then ready else wrong_platform

-- The end of pullImage.
unfoldable pub after_pull : String → Inspection → ImageResult
after_pull platform (found image) = validate_image_platform platform image
after_pull platform absent = pulled_inspect_failed
after_pull platform inspect_error = pulled_inspect_failed

unfoldable pub pull_image : String → Answers → List EngineCall × ImageResult
pull_image platform a =
    if a.pulled
    then (image_pull ∷ image_inspect ∷ [], after_pull platform a.resolved)
    else (image_pull ∷ [], pull_failed)

abbrev pub first_call : EngineCall → List EngineCall × ImageResult → List EngineCall × ImageResult
first_call c r = (c ∷ r.0, r.1)

unfoldable pub pull_if_not_present : String → Answers → Inspection → List EngineCall × ImageResult
pull_if_not_present platform a (found image) =
    (image_inspect ∷ [], validate_image_platform platform image)
pull_if_not_present platform a absent = first_call image_inspect (pull_image platform a)
pull_if_not_present platform a inspect_error = (image_inspect ∷ [], inspect_failed)

unfoldable pub use_local_image_only : String → Inspection → List EngineCall × ImageResult
use_local_image_only platform (found image) =
    (image_inspect ∷ [], validate_image_platform platform image)
use_local_image_only platform absent = (image_inspect ∷ [], not_local)
use_local_image_only platform inspect_error = (image_inspect ∷ [], inspect_failed)

unfoldable pub prepare_image : String → PullPolicy → Answers → List EngineCall × ImageResult
prepare_image platform never a = use_local_image_only platform a.local
prepare_image platform if_not_present a = pull_if_not_present platform a a.local
prepare_image platform always a = pull_image platform a

-- Whether the registry was asked.
abbrev pub pulls : List EngineCall → Bool
pulls [] = false
pulls (image_pull ∷ cs) = true
pulls (image_inspect ∷ cs) = pulls cs

-- The inspection that the image in use has: after the pull when there was one.
abbrev pub image_of : List EngineCall → Inspection → Inspection → Inspection
image_of calls local resolved = if pulls calls then resolved else local

-- When the registry may be asked, by the policy and the first inspection.
abbrev pub may_pull : PullPolicy → Inspection → Bool
may_pull always i = true
may_pull if_not_present absent = true
may_pull if_not_present (found image) = false
may_pull if_not_present inspect_error = false
may_pull never i = false

-- An accepted image is one for the platform.
abbrev pub Accepted : ImageResult → Inspection → String → Type 0
Accepted ready i platform = i ≡ found platform
Accepted _ i platform = Unit

abbrev pub Accepts : String → Inspection → Inspection → List EngineCall × ImageResult → Type 0
Accepts platform local resolved r = Accepted r.1 (image_of r.0 local resolved) platform

validate-Accepted :
    (platform image : String)
    → Accepted (validate_image_platform platform image) (found image) platform
unfolding validate_image_platform
validate-Accepted platform image =
    if-rule (λ r. Accepted r (found image) platform) (image == platform) ready wrong_platform
      (λ e. ap found ((string_eq.beq_iff image platform).0 e)) (λ e. tt)

after_pull-Accepted :
    (platform : String) (i : Inspection) → Accepted (after_pull platform i) i platform
unfolding after_pull
after_pull-Accepted platform (found image) = validate-Accepted platform image
after_pull-Accepted platform absent = tt
after_pull-Accepted platform inspect_error = tt

abbrev Pulled : String → Inspection → Inspection → List EngineCall × ImageResult → Type 0
Pulled platform local resolved r = Accepts platform local resolved r × (pulls r.0 ≡ true)

pull_image-Accepts :
    (platform : String) (a : Answers) (local : Inspection)
    → Pulled platform local a.resolved (pull_image platform a)
unfolding pull_image
pull_image-Accepts platform a local =
    if-rule (Pulled platform local a.resolved) a.pulled
      (image_pull ∷ image_inspect ∷ [], after_pull platform a.resolved)
      (image_pull ∷ [], pull_failed) (λ e. (after_pull-Accepted platform a.resolved, refl))
      (λ e. (tt, refl))

pull_if_not_present-Accepts :
    (platform : String) (a : Answers) (i : Inspection)
    → (pulls (pull_if_not_present platform a i).0 ≡ may_pull if_not_present i)
      × Accepts platform i a.resolved (pull_if_not_present platform a i)
unfolding pull_if_not_present
pull_if_not_present-Accepts platform a (found image) = (refl, validate-Accepted platform image)
pull_if_not_present-Accepts platform a absent =
    let pulled = pull_image-Accepts platform a absent in (pulled.1, pulled.0)
pull_if_not_present-Accepts platform a inspect_error = (refl, tt)

use_local_image_only-Accepts :
    (platform : String) (a : Answers) (i : Inspection)
    → (pulls (use_local_image_only platform i).0 ≡ false)
      × Accepts platform i a.resolved (use_local_image_only platform i)
unfolding use_local_image_only
use_local_image_only-Accepts platform a (found image) = (refl, validate-Accepted platform image)
use_local_image_only-Accepts platform a absent = (refl, tt)
use_local_image_only-Accepts platform a inspect_error = (refl, tt)

-- The registry is asked under the policy Always, under IfNotPresent just when the image is known to be
-- absent, not when its inspection fails, and never under Never; and an image that is accepted, pulled
-- or local, is always one for the platform of the backend.
pub prepare_image_lem :
    (platform : String) (policy : PullPolicy) (a : Answers)
    → (pulls (prepare_image platform policy a).0 ≡ may_pull policy a.local)
      × Accepts platform a.local a.resolved (prepare_image platform policy a)
unfolding prepare_image
prepare_image_lem platform always a =
    let pulled = pull_image-Accepts platform a a.local in (pulled.1, pulled.0)
prepare_image_lem platform if_not_present a = pull_if_not_present-Accepts platform a a.local
prepare_image_lem platform never a = use_local_image_only-Accepts platform a a.local
