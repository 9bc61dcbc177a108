-- ===== src/Kubernetes/Details/Texts.antt =====
-- boundedKubernetesString: a text of at most 256 bytes, cut between two characters.
use oz_agent_worker.Prelude.{
  ℕ, zero, suc, ◌-◌, ◌≤◌, ◌<◌, Option, none, some, ◌∙◌, subst, ◌≡◌, refl, ap, Bool, true, false,
  not, if◌then◌else◌, List, [], ◌∷◌, take, length, length-take-le, ltb, arith, Bool-cases, inl, inr,
}
use oz_agent_worker.Env.{Bytes}
use oz_agent_worker.Kubernetes.Details.{Utf8, max_reason_bytes}

module _ (utf8 : Utf8) where
  -- The loop: the text without its last bytes, down to the first valid one, the empty text at last.
  unfoldable pub cut_invalid : ℕ → Bytes → Bytes
  cut_invalid zero value = []
  cut_invalid (suc n) value =
      let shorter = cut_invalid n value in
      if utf8.is_valid (take (suc n) value) then take (suc n) value else shorter

  -- The loop as it is written, for at most `fuel` rounds.
  unfoldable pub trim_invalid : ℕ → Bytes → Option Bytes
  trim_invalid zero value = if utf8.is_valid value then some value else none
  trim_invalid (suc fuel) value =
      let shorter = trim_invalid fuel (take (length value - 1) value) in
      if utf8.is_valid value then some value else shorter

  unfoldable pub bounded_kubernetes_string : Bytes → Bytes × Bool
  bounded_kubernetes_string value =
      let value = utf8.to_valid value in
      if not (ltb max_reason_bytes (length value))
      then (value, false)
      else (cut_invalid max_reason_bytes value, true)

-- What the code relies on of Go's texts.
pub record IsUtf8 (utf8 : Utf8) : Type 0 where
  pub empty : utf8.is_valid [] ≡ true
  pub valid : (v : Bytes) → utf8.is_valid (utf8.to_valid v) ≡ true

take-prefix : {A : Type 0} → (n : ℕ) (xs : List A) → take (length (take n xs)) xs ≡ take n xs
take-prefix zero xs = refl
take-prefix (suc n) [] = refl
take-prefix (suc n) (x ∷ xs) = ap (λ ys. x ∷ ys) (take-prefix n xs)

take-all : {A : Type 0} → (xs : List A) → take (length xs) xs ≡ xs
take-all [] = refl
take-all (x ∷ xs) = ap (λ ys. x ∷ ys) (take-all xs)

length-take_all : {A : Type 0} → (m : ℕ) (xs : List A) → length (take m xs) ≤ length xs
length-take_all zero xs = omega arith
length-take_all (suc m) [] = omega arith
length-take_all (suc m) (x ∷ xs) = omega (arith, length-take_all m xs)

ltb-le : (m n : ℕ) → ltb m n ≡ false → n ≤ m
ltb-le m n h = ground arith

length-take_mono :
    {A : Type 0} → (m n : ℕ) (xs : List A) → m ≤ n → length (take m xs) ≤ length (take n xs)
length-take_mono zero n xs h = omega arith
length-take_mono (suc m) zero xs h = omega (arith, h)
length-take_mono (suc m) (suc n) [] h = omega arith
length-take_mono (suc m) (suc n) (x ∷ xs) h =
    omega (arith, length-take_mono m n xs (omega (arith, h)))

take-take : {A : Type 0} → (k n : ℕ) (xs : List A) → k ≤ n → take k (take n xs) ≡ take k xs
take-take zero n xs h = refl
take-take (suc k) zero xs h = ground (arith, h)
take-take (suc k) (suc n) [] h = refl
take-take (suc k) (suc n) (x ∷ xs) h = ap (λ ys. x ∷ ys) (take-take k n xs (omega (arith, h)))

length-take : {A : Type 0} → (n : ℕ) (xs : List A) → n ≤ length xs → length (take n xs) ≡ n
length-take zero xs h = refl
length-take (suc n) [] h = omega (arith, h)
length-take (suc n) (x ∷ xs) h = omega (arith, length-take n xs (omega (arith, h)))

if-some :
    {A : Type 0} (b : Bool) (x y : A) → (if b then some x else some y) ≡ some (if b then x else y)
if-some true x y = refl
if-some false x y = refl

-- The longest of the valid prefixes of `text` with at most `n` bytes.
pub record IsLongestValid (utf8 : Utf8) (n : ℕ) (text kept : Bytes) : Type 0 where
  pub bounded : length kept ≤ n
  pub valid : utf8.is_valid kept ≡ true
  pub prefix : take (length kept) text ≡ kept
  pub longest :
      (m : ℕ) → m ≤ n → utf8.is_valid (take m text) ≡ true → length (take m text) ≤ length kept

module _ (utf8 : Utf8) (v : IsUtf8 utf8) where
  cut_invalid-IsLongestValid :
      (n : ℕ) (text : Bytes) → IsLongestValid utf8 n text (cut_invalid utf8 n text)
  unfolding cut_invalid
  cut_invalid-IsLongestValid zero text = record {
    bounded = omega arith;
    valid = v.empty;
    prefix = refl;
    longest = λ m h k. omega (arith, length-take_mono m 0 text h);
  }
  cut_invalid-IsLongestValid (suc n) text = elim (Bool-cases (utf8.is_valid (take (suc n) text))) [
    | inl e ↦
        rw (e, cut_invalid)
          (record {
            bounded = length-take-le (suc n) text;
            valid = e;
            prefix = take-prefix (suc n) text;
            longest = λ m h k. length-take_mono m (suc n) text h;
          })
    | inr e ↦
        (let r = cut_invalid-IsLongestValid n text in
          rw (e, cut_invalid)
            (record {
              bounded = omega (arith, r.bounded);
              valid = r.valid;
              prefix = r.prefix;
              longest = λ m h k. r.longest m (ground (arith, e)) k;
            }))
  ]

  cut_invalid-take :
      (k n : ℕ) (text : Bytes) → k ≤ n → cut_invalid utf8 k (take n text) ≡ cut_invalid utf8 k text
  unfolding cut_invalid
  cut_invalid-take zero n text h = refl
  cut_invalid-take (suc k) n text h =
      rw (take-take (suc k) n text h, cut_invalid-take k n text (omega (arith, h))) refl

  trim_invalid-cut :
      (n : ℕ) (value : Bytes)
      → length value ≡ n
      → trim_invalid utf8 n value ≡ some (cut_invalid utf8 n value)
  unfolding trim_invalid cut_invalid
  trim_invalid-cut zero [] h = ground (arith, v.empty)
  trim_invalid-cut zero (b ∷ value) h = ground (arith, h)
  trim_invalid-cut (suc n) value h =
      let whole : take (suc n) value ≡ value =
        subst (λ k. take k value ≡ value) h (take-all value) in
      let rest : length value - 1 ≡ n = omega (arith, h) in
      rw
        (
          whole,
          rest,
          trim_invalid-cut n (take n value) (length-take n value (omega (arith, h))),
          cut_invalid-take n n value (omega arith),
        )
        (if-some (utf8.is_valid value) value (cut_invalid utf8 n value))

  -- The loop that makes a text of more than 256 bytes valid ends, within 256 rounds, with the text
  -- that is kept.
  pub trim_invalid_ends :
      (text : Bytes)
      → max_reason_bytes < length (utf8.to_valid text)
      → trim_invalid utf8 max_reason_bytes (take max_reason_bytes (utf8.to_valid text))
        ≡ some (bounded_kubernetes_string utf8 text).0
  unfolding bounded_kubernetes_string
  trim_invalid_ends text h =
      let value = utf8.to_valid text in
      let long : ltb max_reason_bytes (length value) ≡ true = ground (arith, h) in
      rw (long, bounded_kubernetes_string)
        (trim_invalid-cut max_reason_bytes (take max_reason_bytes value)
            (length-take max_reason_bytes value (omega (arith, h)))
          ∙ ap some (cut_invalid-take max_reason_bytes max_reason_bytes value (omega arith)))

  -- A text is bounded to its longest prefix of whole characters within 256 bytes, after invalid bytes
  -- are replaced, and it is marked as truncated just when it had more bytes than that.
  pub bounded_kubernetes_string_lem :
      (text : Bytes)
      → IsLongestValid utf8 max_reason_bytes
          (utf8.to_valid text)
          (bounded_kubernetes_string utf8 text).0
        × ((bounded_kubernetes_string utf8 text).1
            ≡ ltb max_reason_bytes (length (utf8.to_valid text)))
  unfolding bounded_kubernetes_string
  bounded_kubernetes_string_lem text =
      let value = utf8.to_valid text in
      elim (Bool-cases (ltb max_reason_bytes (length value))) [
        | inl e ↦
            rw (e, bounded_kubernetes_string)
              (cut_invalid-IsLongestValid max_reason_bytes value, refl)
        | inr e ↦
            rw (e, bounded_kubernetes_string)
              (
                record {
                  bounded = ltb-le max_reason_bytes (length value) e;
                  valid = v.valid text;
                  prefix = take-all value;
                  longest = λ m h k. length-take_all m value;
                },
                refl,
              )
      ]
