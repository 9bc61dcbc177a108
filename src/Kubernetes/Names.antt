-- ===== src/Kubernetes/Names.antt =====
-- Names and labels of Kubernetes objects, from internal/worker/kubernetes.go. A text is its code
-- points; what is written is ASCII, so its bytes too. `to_lower` is unicode.ToLower.
pub mod Labels
use oz_agent_worker.Prelude.{
  ℕ, ◌-◌, Bool, true, false, ◌&&◌, ◌||◌, if◌then◌else◌, List, [], ◌∷◌, ◌++◌, map, leb, ltb, ◌==◌,
  nat_eq, length, take, drop, trim, trim_right, is_empty,
}

abbrev pub Text : Type 0
Text = List ℕ

abbrev pub is_letter_or_digit : ℕ → Bool
is_letter_or_digit r = (leb b'a' r && leb r b'z') || (leb b'0' r && leb r b'9')

abbrev pub is_dash : ℕ → Bool
is_dash r = r == b'-'

-- A character of the cutset "-_.".
abbrev pub is_separator : ℕ → Bool
is_separator r = r == b'-' || r == b'_' || r == b'.'

abbrev pub name_char : ℕ → ℕ
name_char r = if is_letter_or_digit r then r else b'-'

abbrev pub label_char : ℕ → ℕ
label_char r = if is_letter_or_digit r || is_separator r then r else b'-'

abbrev pub unknown_label : Text
unknown_label = b'u' ∷ b'n' ∷ b'k' ∷ b'n' ∷ b'o' ∷ b'w' ∷ b'n' ∷ []

abbrev pub or_default : Text → Text → Text
or_default fallback s = if is_empty s then fallback else s

abbrev pub exec_fallback : Text
exec_fallback = b'e' ∷ b'x' ∷ b'e' ∷ b'c' ∷ []

abbrev pub run_fallback : Text
run_fallback = b'r' ∷ b'u' ∷ b'n' ∷ []

-- "oz-task-" and "-exec-"
abbrev pub job_prefix : Text
job_prefix = b'o' ∷ b'z' ∷ b'-' ∷ b't' ∷ b'a' ∷ b's' ∷ b'k' ∷ b'-' ∷ []

abbrev pub job_separator : Text
job_separator = b'-' ∷ b'e' ∷ b'x' ∷ b'e' ∷ b'c' ∷ b'-' ∷ []

abbrev pub task_job_exec_id_suffix_len : ℕ
task_job_exec_id_suffix_len = 8

abbrev pub max_label_length : ℕ
max_label_length = 63

-- The value after the trim, cut to 63 and trimmed at the right again.
unfoldable pub cut_label : Text → Text
cut_label s =
    if ltb max_label_length (length s) then trim_right is_separator (take max_label_length s) else s

module _ (to_lower : ℕ → ℕ) where
  unfoldable pub sanitize_kubernetes_name_fragment : Text → Text
  sanitize_kubernetes_name_fragment value = trim is_dash (map (λ r. name_char (to_lower r)) value)

  unfoldable pub last_kubernetes_id_fragment : Text → ℕ → Text
  last_kubernetes_id_fragment id n =
      let sanitized = sanitize_kubernetes_name_fragment id in
      if ltb n (length sanitized)
      then trim is_dash (drop (length sanitized - n) sanitized)
      else sanitized

  -- The cap on the run fragment: 63 less the lengths of the other parts, and at least 0, as
  -- subtraction on ℕ gives it.
  unfoldable pub run_fragment : Text → ℕ → Text
  run_fragment run_id max_run_len =
      let sanitized = sanitize_kubernetes_name_fragment run_id in
      or_default run_fallback (
        if ltb max_run_len (length sanitized)
        then trim is_dash (take max_run_len sanitized)
        else sanitized)

  unfoldable pub kubernetes_task_job_name : Text → Text → Text
  kubernetes_task_job_name run_id execution_id =
      let exec_fragment =
        or_default exec_fallback
          (last_kubernetes_id_fragment execution_id task_job_exec_id_suffix_len) in
      let max_run_len =
        max_label_length - length job_prefix - length job_separator - length exec_fragment in
      job_prefix ++ (run_fragment run_id max_run_len ++ (job_separator ++ exec_fragment))

  unfoldable pub sanitize_kubernetes_label_value : Text → Text
  sanitize_kubernetes_label_value value =
      or_default unknown_label
        (cut_label (trim is_separator (map (λ r. label_char (to_lower r)) value)))
