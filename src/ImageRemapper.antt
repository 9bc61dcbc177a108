-- ===== src/ImageRemapper.antt =====
-- The image mappings of internal/common/image_remapping.go. The package distribution/reference is
-- not under the repository: `Reference` is the part of it that the code calls. A text is its bytes.
pub mod Effect
use oz_agent_worker.Prelude.{
  ℕ, Bool, true, false, ◌&&◌, ◌||◌, not, if◌then◌else◌, is_some, Option, none, some, List, [], ◌∷◌,
  ◌++◌, ◌==◌, nat_eq, ltb, leb, length, ◌≡◌,
}
use oz_agent_worker.Assoc.{Map, lookup, insert}
use oz_agent_worker.Env.{Bytes, bytes_eq}

-- ParseNormalizedNamed, IsNameOnly, String and TrimNamed. The text of a reference is the text of
-- its trimmed name followed by its tag and digest.
pub record Reference (Named : Type 0) : Type 0 where
  pub parse_normalized_named : Bytes → Option Named
  pub is_name_only : Named → Bool
  pub text : Named → Bytes
  pub trim_named : Named → Named
  pub suffix : Named → Bytes
  pub text-trim_named : (n : Named) → text n ≡ text (trim_named n) ++ suffix n

pub data MappingError : Type 0 where
  invalid_source : Bytes → MappingError
  tagged_source : Bytes → MappingError
  duplicate_source : Bytes → MappingError
  invalid_destination : Bytes → MappingError

pub data Built (Named : Type 0) : Type 0 where
  built : Map Bytes Named → Built Named
  failed : MappingError → Built Named

-- The order of sort.Strings.
unfoldable pub bytes_leb : Bytes → Bytes → Bool
bytes_leb [] y = true
bytes_leb (a ∷ x) [] = false
bytes_leb (a ∷ x) (b ∷ y) = ltb a b || (a == b && bytes_leb x y)

unfoldable pub insert_source : Bytes × Bytes → List (Bytes × Bytes) → List (Bytes × Bytes)
insert_source e [] = e ∷ []
insert_source e (x ∷ xs) =
    let rest = insert_source e xs in if bytes_leb e.0 x.0 then e ∷ x ∷ xs else x ∷ rest

unfoldable pub sort_sources : List (Bytes × Bytes) → List (Bytes × Bytes)
sort_sources [] = []
sort_sources (e ∷ es) = insert_source e (sort_sources es)

-- strings.TrimPrefix.
unfoldable pub strip : Bytes → Bytes → Option Bytes
strip [] y = some y
strip (a ∷ x) [] = none
strip (a ∷ x) (b ∷ y) = if a == b then strip x y else none

abbrev pub trim_prefix : Bytes → Bytes → Bytes
trim_prefix text prefix = elim (strip prefix text) [ none ↦ text | some rest ↦ rest ]

module _ {Named : Type 0} ⦃ref : Reference Named⦄ where
  -- One round of the loop of NewImageRemapper.
  unfoldable pub add_mapping : Bytes × Bytes → Map Bytes Named → Built Named
  add_mapping e repositories = elim (ref.parse_normalized_named e.0) [
    | none ↦ failed (invalid_source e.0)
    | some from ↦
        if not (ref.is_name_only from)
        then failed (tagged_source e.0)
        else if is_some (lookup (ref.text from) repositories)
        then failed (duplicate_source e.0)
        else elim (ref.parse_normalized_named e.1) [
          | none ↦ failed (invalid_destination e.0)
          | some to ↦ built (insert (ref.text from) to repositories)
        ]
  ]

  unfoldable pub add_mappings : List (Bytes × Bytes) → Map Bytes Named → Built Named
  add_mappings [] repositories = built repositories
  add_mappings (e ∷ es) repositories = elim (add_mapping e repositories) [
    | failed error ↦ failed error
    | built repositories' ↦ add_mappings es repositories'
  ]

  unfoldable pub new_image_remapper : Map Bytes Bytes → Built Named
  new_image_remapper mappings = add_mappings (sort_sources mappings) []

  -- Remap on a remapper that is not nil.
  unfoldable pub remap : Map Bytes Named → Bytes → Bytes
  remap repositories image =
      if length repositories == 0 then image else elim (ref.parse_normalized_named image) [
        | none ↦ image
        | some from ↦
            (let repository = ref.text (ref.trim_named from) in
              elim (lookup repository repositories) [
                | none ↦ image
                | some to ↦
                    if not (ref.is_name_only to)
                    then ref.text to
                    else ref.text to ++ trim_prefix (ref.text from) repository
              ])
      ]
