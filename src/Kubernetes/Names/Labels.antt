-- ===== src/Kubernetes/Names/Labels.antt =====
-- Every generated name is a valid Kubernetes label.
use native.Mathlib.Nat.{le_trans}
use oz_agent_worker.Prelude.{
  Bool-cases, inl, inr, ℕ, suc, ◌+◌, ◌-◌, ◌≤◌, ◌<◌, ◌≡◌, refl, Bool, true, false, ◌||◌, [], ◌∷◌,
  ◌++◌, map, ltb, nat_eq, length, length-append, take, drop, length-take-le, length-drop, all,
  all-append, all-take, all-drop, trim, trim_left, is_empty, starts_outside, ends_outside,
  trim_right-ends, trim_left-starts, trim_right-starts, trim_right-all, trim_left-all,
  length-trim_right, length-trim_left, ends-append, arith,
}
use oz_agent_worker.Kubernetes.Names.{
  Text, is_letter_or_digit, is_dash, is_separator, name_char, label_char, unknown_label, or_default,
  exec_fallback, job_prefix, job_separator, max_label_length, sanitize_kubernetes_name_fragment,
  last_kubernetes_id_fragment, run_fragment, kubernetes_task_job_name, cut_label,
  sanitize_kubernetes_label_value,
}

abbrev pub is_name_char : ℕ → Bool
is_name_char r = is_letter_or_digit r || is_dash r

abbrev pub is_label_char : ℕ → Bool
is_label_char r = is_letter_or_digit r || is_separator r

-- A DNS-1123 label: lower-case letters, digits and dashes, no dash at an end, 1 to 63 characters.
pub record IsDnsLabel (s : Text) : Type 0 where
  chars : all is_name_char s ≡ true
  starts : starts_outside is_dash s ≡ true
  ends : ends_outside is_dash s ≡ true
  nonempty : 0 < length s
  short : length s ≤ 63

-- A label value of this code: as above, with `_` and `.` inside.
pub record IsLabelValue (s : Text) : Type 0 where
  chars : all is_label_char s ≡ true
  starts : starts_outside is_separator s ≡ true
  ends : ends_outside is_separator s ≡ true
  nonempty : 0 < length s
  short : length s ≤ 63

-- A fragment that is a label but may be empty or long.
record IsFragment (s : Text) : Type 0 where
  chars : all is_name_char s ≡ true
  starts : starts_outside is_dash s ≡ true
  ends : ends_outside is_dash s ≡ true

all-map-name_char :
    (to_lower : ℕ → ℕ) (s : Text) → all is_name_char (map (λ r. name_char (to_lower r)) s) ≡ true
all-map-name_char to_lower [] = refl
all-map-name_char to_lower (r ∷ s) = ground (arith, all-map-name_char to_lower s)

all-map-label_char :
    (to_lower : ℕ → ℕ) (s : Text) → all is_label_char (map (λ r. label_char (to_lower r)) s) ≡ true
all-map-label_char to_lower [] = refl
all-map-label_char to_lower (r ∷ s) = ground (arith, all-map-label_char to_lower s)

trim-IsFragment : (s : Text) → all is_name_char s ≡ true → IsFragment (trim is_dash s)
trim-IsFragment s h = record {
  chars =
      trim_right-all is_dash is_name_char (trim_left is_dash s)
        (trim_left-all is_dash is_name_char s h);
  starts = trim_right-starts is_dash (trim_left is_dash s) (trim_left-starts is_dash s);
  ends = trim_right-ends is_dash (trim_left is_dash s);
}

length-trim : (p : ℕ → Bool) (s : Text) → length (trim p s) ≤ length s
length-trim p s = omega (arith, length-trim_right p (trim_left p s), length-trim_left p s)

-- The exec fragment is never empty and never longer than 8.
record IsExec (s : Text) : Type 0 where
  fragment : IsFragment s
  some_char : is_empty s ≡ false
  fits : length s ≤ 8

is_empty-append : (xs ys : Text) → is_empty ys ≡ false → is_empty (xs ++ ys) ≡ false
is_empty-append [] ys h = h
is_empty-append (x ∷ xs) ys h = refl

joined-IsDnsLabel :
    (run exec : Text)
    → IsFragment run
    → IsExec exec
    → length run + length exec ≤ 49
    → IsDnsLabel (job_prefix ++ (run ++ (job_separator ++ exec)))
joined-IsDnsLabel run exec u v h =
    let rest = job_separator ++ exec in
    record {
      chars = ground (arith, u, v, all-append is_name_char run rest);
      starts = refl;
      ends =
          ends-append is_dash job_prefix (run ++ rest)
            (ends-append is_dash run rest
              (ends-append is_dash job_separator exec v.fragment.ends v.some_char) refl)
            (is_empty-append run rest refl);
      nonempty = omega arith;
      short = omega (arith, length-append run rest);
    }

take-starts :
    (p : ℕ → Bool) (n : ℕ) (s : Text)
    → starts_outside p s ≡ true
    → starts_outside p (take (suc n) s) ≡ true
take-starts p n [] h = refl
take-starts p n (x ∷ s) h = h

-- What the trim makes of a value before it is cut.
record IsTrimmed (s : Text) : Type 0 where
  chars : all is_label_char s ≡ true
  starts : starts_outside is_separator s ≡ true
  ends : ends_outside is_separator s ≡ true

leb_of_not_ltb : (n m : ℕ) → ltb n m ≡ false → m ≤ n
leb_of_not_ltb n m h = ground arith

cut-IsTrimmed : (s : Text) → IsTrimmed s → IsTrimmed (cut_label s) × (length (cut_label s) ≤ 63)
unfolding cut_label
cut-IsTrimmed s v =
    let t = take max_label_length s in
    elim (Bool-cases (ltb max_label_length (length s))) [
      | inl e ↦ rw e (
        record {
          chars = trim_right-all is_separator is_label_char t (all-take is_label_char 63 s v.chars);
          starts = trim_right-starts is_separator t (take-starts is_separator 62 s v.starts);
          ends = trim_right-ends is_separator t;
        },
        le_trans (length-trim_right is_separator t) (length-take-le 63 s),
      )
      | inr e ↦ rw e (v, leb_of_not_ltb 63 (length s) e)
    ]

default-IsLabelValue :
    (s : Text) → IsTrimmed s → length s ≤ 63 → IsLabelValue (or_default unknown_label s)
default-IsLabelValue [] v h = ground arith
default-IsLabelValue (x ∷ s) v h = ground arith

module _ (to_lower : ℕ → ℕ) where
  sanitize-IsFragment : (s : Text) → IsFragment (sanitize_kubernetes_name_fragment to_lower s)
  unfolding sanitize_kubernetes_name_fragment
  sanitize-IsFragment s =
      trim-IsFragment (map (λ r. name_char (to_lower r)) s) (all-map-name_char to_lower s)

  last-IsFragment : (id : Text) (n : ℕ) → IsFragment (last_kubernetes_id_fragment to_lower id n)
  unfolding last_kubernetes_id_fragment
  last-IsFragment id n =
      let s = sanitize_kubernetes_name_fragment to_lower id in
      let v = sanitize-IsFragment id in
      ground (
        arith,
        v,
        trim-IsFragment (drop (length s - n) s) (all-drop is_name_char (length s - n) s v.chars),
      )

  length-last : (id : Text) (n : ℕ) → length (last_kubernetes_id_fragment to_lower id n) ≤ n
  unfolding last_kubernetes_id_fragment
  length-last id n =
      let s = sanitize_kubernetes_name_fragment to_lower id in
      ground (arith, length-trim is_dash (drop (length s - n) s), length-drop (length s - n) s)

  run-IsFragment : (id : Text) (n : ℕ) → IsFragment (run_fragment to_lower id n)
  unfolding run_fragment
  run-IsFragment id n =
      let s = sanitize_kubernetes_name_fragment to_lower id in
      let v = sanitize-IsFragment id in
      ground (arith, v, trim-IsFragment (take n s) (all-take is_name_char n s v.chars))

  length-run : (id : Text) (n : ℕ) → 3 ≤ n → length (run_fragment to_lower id n) ≤ n
  unfolding run_fragment
  length-run id n h =
      let s = sanitize_kubernetes_name_fragment to_lower id in
      ground (arith, length-trim is_dash (take n s), length-take-le n s)

  suffix-IsExec :
      (id : Text) → IsExec (or_default exec_fallback (last_kubernetes_id_fragment to_lower id 8))
  suffix-IsExec id = ground (arith, last-IsFragment id 8, length-last id 8)

  -- The name of a task's Job is a DNS-1123 label of at most 63 characters, whatever the run and
  -- execution IDs are, empty ones and ones of any characters included.
  pub job_name-IsDnsLabel :
      (run_id execution_id : Text)
      → IsDnsLabel (kubernetes_task_job_name to_lower run_id execution_id)
  unfolding kubernetes_task_job_name
  job_name-IsDnsLabel run_id execution_id =
      let exec = or_default exec_fallback (last_kubernetes_id_fragment to_lower execution_id 8) in
      let n = 63 - 8 - 6 - length exec in
      let v = suffix-IsExec execution_id in
      joined-IsDnsLabel (run_fragment to_lower run_id n) exec (run-IsFragment run_id n) v
        (omega (arith, v.fits, length-run run_id n))

  -- A sanitized label value has only lower-case letters, digits, dashes, underscores and dots, begins
  -- and ends with a letter or digit, and has 1 to 63 characters, whatever the value is.
  pub sanitized-IsLabelValue :
      (value : Text) → IsLabelValue (sanitize_kubernetes_label_value to_lower value)
  unfolding sanitize_kubernetes_label_value
  sanitized-IsLabelValue value =
      let s = map (λ r. label_char (to_lower r)) value in
      let left = trim_left is_separator s in
      let v = cut-IsTrimmed (trim is_separator s) (record {
        chars =
            trim_right-all is_separator is_label_char left
              (trim_left-all is_separator is_label_char s (all-map-label_char to_lower value));
        starts = trim_right-starts is_separator left (trim_left-starts is_separator s);
        ends = trim_right-ends is_separator left;
      }) in
      default-IsLabelValue (cut_label (trim is_separator s)) v.0 v.1
