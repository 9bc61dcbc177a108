-- ===== src/Redactor.antt =====
-- The redactor of task logs, internal/tasktelemetry/log/redaction.go: the patterns that `add`
-- collects within its bounds, and what redactWith makes of a message. A text is its bytes.
pub mod Bounds
pub mod Coverage
use oz_agent_worker.Prelude.{
  ℕ, zero, suc, ◌+◌, Bool, true, false, ◌&&◌, ◌||◌, not, if◌then◌else◌, Option, none, some, List,
  [], ◌∷◌, ◌++◌, ◌==◌, length, leb, ltb, nat_eq,
}
use oz_agent_worker.Env.{Bytes, bytes_eq}

pub record RedactionPattern : Type 0 where
  pub value : Bytes
  pub raw_only : Bool

-- `bytes` is the sum of the patterns' lengths; the replacers are built from `secrets` when a
-- message is redacted, and `has_replacer` is false until the first pattern was added.
pub record Redactor : Type 0 where
  pub secrets : List RedactionPattern
  pub bytes : ℕ
  pub overflow : Bool
  pub has_replacer : Bool

unfoldable pub new_redactor : Redactor
new_redactor = record { secrets = []; bytes = 0; overflow = false; has_replacer = false }

abbrev pub max_secret_bytes : ℕ
max_secret_bytes = 1048576

abbrev pub max_patterns : ℕ
max_patterns = 4096

-- The search for an existing pattern of the same value, whose `rawOnly` is then narrowed.
unfoldable pub narrow : RedactionPattern → List RedactionPattern → Option (List RedactionPattern)
narrow s [] = none
narrow s (x ∷ xs) =
    let rest = narrow s xs in
    if x.value == s.value
    then some (record x { raw_only = x.raw_only && s.raw_only } ∷ xs)
    else elim rest [ none ↦ none | some ys ↦ some (x ∷ ys) ]

-- One variant of the loop in `add`; `none` when the loop returns for want of room.
unfoldable pub add_new : RedactionPattern → Redactor → Option Redactor
add_new s r =
    if leb max_patterns (length r.secrets) || ltb max_secret_bytes (r.bytes + length s.value)
    then none
    else some (record r { bytes = r.bytes + length s.value; secrets = r.secrets ++ s ∷ [] })

unfoldable pub add_variant : RedactionPattern → Redactor → Option Redactor
add_variant s r =
    let fresh = add_new s r in
    if length s.value == 0
    then some r
    else elim (narrow s r.secrets) [ some xs ↦ some (record r { secrets = xs }) | none ↦ fresh ]

-- sort.Slice by descending length; ties keep their order here.
unfoldable pub insert_sorted : RedactionPattern → List RedactionPattern → List RedactionPattern
insert_sorted s [] = s ∷ []
insert_sorted s (x ∷ xs) =
    let rest = insert_sorted s xs in
    if ltb (length s.value) (length x.value) then x ∷ rest else s ∷ x ∷ xs

unfoldable pub sort_secrets : List RedactionPattern → List RedactionPattern
sort_secrets [] = []
sort_secrets (x ∷ xs) = insert_sorted x (sort_secrets xs)

-- The loop over the variants, then the sort and the replacers.
unfoldable pub add_variants : List RedactionPattern → Redactor → Redactor
add_variants [] r = record r { secrets = sort_secrets r.secrets; has_replacer = true }
add_variants (s ∷ ss) r = elim (add_variant s r) [
  | none ↦ record r { overflow = true }
  | some r' ↦ add_variants ss r'
]

-- strings.FieldsFunc at '\n' and '\r'; `u` is the field being read.
unfoldable pub fields : Bytes → Bytes → List Bytes
fields u [] = if length u == 0 then [] else u ∷ []
fields u (b ∷ p) =
    if b == 10 || b == 13
    then (let rest = fields [] p in if length u == 0 then rest else u ∷ rest)
    else fields (u ++ b ∷ []) p

unfoldable pub fragments : List Bytes → List RedactionPattern
fragments [] = []
fragments (f ∷ fs) = record { value = f; raw_only = true } ∷ fragments fs

-- `query_escape` is url.QueryEscape and `json_escape` the text that json.Marshal puts between its
-- quotes.
module _ (query_escape json_escape : Bytes → Bytes) where
  unfoldable pub variants : Bytes → List RedactionPattern
  variants v =
      record { value = v; raw_only = false }
      ∷ record { value = query_escape v; raw_only = false }
      ∷ record { value = json_escape v; raw_only = false }
      ∷ fragments (fields [] v)

  unfoldable pub add : Bytes → Redactor → Redactor
  add v r =
      if length v == 0
      then r
      else if ltb max_secret_bytes (length v)
      then record r { overflow = true }
      else add_variants (variants v) r

-- The text "[REDACTED]".
abbrev pub redacted : Bytes
redacted = 91 ∷ 82 ∷ 69 ∷ 68 ∷ 65 ∷ 67 ∷ 84 ∷ 69 ∷ 68 ∷ 93 ∷ []

abbrev pub max_record_bytes : ℕ
max_record_bytes = 16384

unfoldable pub patterns_for : Bool → List RedactionPattern → List Bytes
patterns_for raw_line [] = []
patterns_for raw_line (s ∷ ss) =
    let rest = patterns_for raw_line ss in
    if raw_line || not s.raw_only then s.value ∷ rest else rest

-- `replace` is the replacer that strings.NewReplacer makes of the patterns, each replaced by
-- "[REDACTED]". The buffer refuses what does not fit the record budget.
unfoldable pub redact_with : (List Bytes → Bytes → Bytes) → Bytes → Bool → Redactor → Bytes
redact_with replace message raw_line r =
    let output =
      if r.has_replacer then replace (patterns_for raw_line r.secrets) message else message in
    if r.overflow || ltb 65536 (length message) || ltb max_record_bytes (length output)
    then redacted
    else output
