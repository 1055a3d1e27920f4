-- ===== src/Fields/Crontab/Grammar.antt =====
-- The values that `make_validation` accepts, described by the delimiters in the order of their strength.
use vstutils.Base.{
  ℕ, suc, ◌≡◌, ◌≢◌, refl, ◌↔◌, inl, inr, Bool, true, false, ◌&&◌, ◌||◌, List, [], ◌∷◌, ◌==◌,
  text_eq, if◌then◌else◌, Bool-cases, false_ne_true, text_beq_iff, length, ◌<◌, All-and, All, all,
  arith,
}
use vstutils.Base.Text.{Text, codes, has_char}
use vstutils.Base.Split.{
  split, Lacks, split_lacking, split-Lacks, split-Lacks_other, lt-length-split,
}
use vstutils.Fields.Crontab.Numbers.{is_number, lowest, highest, is_one_of-intervals}
use vstutils.Fields.Crontab.Defs.{
  Interval, minute, hour, day, month, weekday, intervals, is_one_of, Check, passed, failed, stuck,
  and_then, check_each, is_digits, check_step, check_span, check_parts, check_value,
  make_validation, rounds, Fault, invalid, invalid_delimiter, invalid_time_range, not_unpacked,
}

-- A star, or a number in the bounds of the interval.
abbrev pub is_atom : Interval → Text → Bool
is_atom i v = v == codes "*" || is_number (lowest i) (highest i) v

-- One atom, or two around a dash.
abbrev pub is_span_of : Interval → List Text → Bool
is_span_of i (a ∷ []) = is_atom i a
is_span_of i (a ∷ b ∷ []) = is_atom i a && is_atom i b
is_span_of i _ = false

abbrev pub is_span : Interval → Text → Bool
is_span i v = is_span_of i (split b'-' v)

module _ (is_digit : ℕ → Bool) where
  -- A span, or a span with digits behind a slash.
  abbrev pub is_step_of : Interval → List Text → Bool
  is_step_of i (a ∷ []) = is_span i a
  is_step_of i (a ∷ d ∷ []) = is_digits is_digit d && is_span i a
  is_step_of i _ = false

  abbrev pub is_step : Interval → Text → Bool
  is_step i v = is_step_of i (split b'/' v)

  -- Steps between commas.
  abbrev pub is_listing : Interval → Text → Bool
  is_listing i v = all (is_step i) (split b',' v)

-- The check ends, and passes just where the test holds.
abbrev pub Answers : Check → Bool → Type 0
Answers c b = (c ≢ stuck) × ((c ≡ passed) ↔ (b ≡ true))

failed-Answers : (c : Check) (b : Bool) → c ≢ stuck → c ≢ passed → b ≡ false → Answers c b
failed-Answers c b h k e = (h, (λ p. absurd (k p), λ p. absurd (false_ne_true e p)))

if-Answers : (b : Bool) (f : Fault) → Answers (if b then passed else failed f) b
if-Answers b f = ground arith

single-Answers : {c : Check} {b : Bool} → Answers c b → Answers c (b && true)
single-Answers {c} {b} h = ground arith

pub and_then-Answers :
    (c d : Check) (a b : Bool) → Answers c a → Answers d b → Answers (and_then c d) (a && b)
and_then-Answers passed d a b h k = ground (arith, h.1.0 refl)
and_then-Answers (failed f) d a b h k = ground arith
and_then-Answers stuck d a b h k = absurd (h.0 refl)

check_each-Answers :
    (check : Text → Check) (test : Text → Bool) (P : Text → Type 0)
    → ((t : Text) → P t → Answers (check t) (test t))
    → (ts : List Text) → All P ts
    → Answers (check_each check ts) (all test ts)
check_each-Answers check test P h [] k = ground arith
check_each-Answers check test P h (t ∷ ts) k =
    and_then-Answers (check t) (check_each check ts) (test t) (all test ts) (h t k.0)
      (check_each-Answers check test P h ts k.1)

abbrev bad_values : List Text
bad_values = codes "" ∷ codes "-" ∷ codes "/" ∷ codes "," ∷ []

one_of_false :
    (test : Text → Bool) (v : Text) (ts : List Text)
    → is_one_of v ts ≡ true
    → All (λ t. test t ≡ false) ts
    → test v ≡ false
one_of_false test v [] e h = cc
one_of_false test v (t ∷ ts) e h = elim (Bool-cases (v == t)) [
  | inl same ↦ rw ((text_beq_iff v t).0 same) h.0
  | inr other ↦ one_of_false test v ts (rw other at e) h.1
]

-- The tests of the whole value agree with a description that accepts the star and none of the four.
value-Answers :
    (is_digit : ℕ → Bool) (again : Text → Check) (i : Interval) (test : Text → Bool) (v : Text)
    → test (codes "*") ≡ true
    → All (λ t. test t ≡ false) bad_values
    → ((v == codes "*") ≡ false → Answers (check_parts is_digit again i v) (test v))
    → Answers (check_value is_digit again i v) (test v)
unfolding check_value
value-Answers is_digit again i test v star bad parts = elim (Bool-cases (v == codes "*")) [
  | inl e ↦ rw (e, (text_beq_iff v (codes "*")).0 e, star) (λ p. cc, (λ _. refl, λ _. refl))
  | inr n ↦ elim (Bool-cases (is_one_of v bad_values)) [
    | inl e ↦
        rw (n, e)
          (failed-Answers (failed invalid) (test v) (λ p. cc) (λ p. cc)
            (one_of_false test v bad_values e bad))
    | inr m ↦ rw (n, m) (parts n)
  ]
]

bad_atoms : (i : Interval) → All (λ t. is_atom i t ≡ false) bad_values
unfolding intervals
bad_atoms minute = (refl, (refl, (refl, (refl, tt))))
bad_atoms hour = (refl, (refl, (refl, (refl, tt))))
bad_atoms day = (refl, (refl, (refl, (refl, tt))))
bad_atoms month = (refl, (refl, (refl, (refl, tt))))
bad_atoms weekday = (refl, (refl, (refl, (refl, tt))))

bad_spans : (i : Interval) → All (λ t. is_span i t ≡ false) bad_values
unfolding split
bad_spans i = ground (arith, bad_atoms i)

module _ (is_digit : ℕ → Bool) where
  bad_steps : (i : Interval) → All (λ t. is_step is_digit i t ≡ false) bad_values
  unfolding split
  bad_steps i = ground (arith, bad_atoms i)

  bad_listings : (i : Interval) → All (λ t. is_listing is_digit i t ≡ false) bad_values
  unfolding split
  bad_listings i = ground (arith, bad_atoms i)

  abbrev LacksAll : Text → Type 0
  LacksAll v = Lacks b',' v × (Lacks b'/' v × Lacks b'-' v)

  atom-Answers :
      (again : Text → Check) (i : Interval) (v : Text)
      → LacksAll v
      → Answers (check_value is_digit again i v) (is_atom i v)
  unfolding check_parts
  atom-Answers again i v (c, (s, d)) =
      value-Answers is_digit again i (is_atom i) v refl (bad_atoms i) (λ n.
        rw (n, c, s, d, is_one_of-intervals i v)
          (if-Answers (is_number (lowest i) (highest i) v) (invalid_time_range i)))

  star_span : (i : Interval) → is_span i (codes "*") ≡ true
  unfolding split
  star_span i = refl

  star_step : (i : Interval) → is_step is_digit i (codes "*") ≡ true
  unfolding split
  star_step i = refl

  star_listing : (i : Interval) → is_listing is_digit i (codes "*") ≡ true
  unfolding split
  star_listing i = refl

  validation-Answers :
      (n : ℕ) (i : Interval) (test : Text → Bool) (v : Text)
      → test (codes "*") ≡ true
      → All (λ t. test t ≡ false) bad_values
      → ((v == codes "*") ≡ false
          → Answers (check_parts is_digit (make_validation is_digit n i) i v) (test v))
      → Answers (make_validation is_digit (suc n) i v) (test v)
  unfolding make_validation
  validation-Answers n i = value-Answers is_digit (make_validation is_digit n i) i

  atom_validation :
      (n : ℕ) (i : Interval) (v : Text)
      → LacksAll v
      → Answers (make_validation is_digit (suc n) i v) (is_atom i v)
  unfolding make_validation
  atom_validation n i v h = atom-Answers (make_validation is_digit n i) i v h

  not_unpacked-Answers : Answers (failed not_unpacked) false
  not_unpacked-Answers = failed-Answers (failed not_unpacked) false (λ p. cc) (λ p. cc) refl

  span_parts :
      (n : ℕ) (i : Interval) (ts : List Text)
      → 1 < length ts
      → All LacksAll ts
      → Answers (check_span (make_validation is_digit (suc n) i) ts) (is_span_of i ts)
  unfolding check_span
  span_parts n i [] lt h = not_unpacked-Answers
  span_parts n i (a ∷ []) lt h = absurd (omega arith)
  span_parts n i (a ∷ b ∷ []) lt h =
      and_then-Answers (make_validation is_digit (suc n) i a) (make_validation is_digit (suc n) i b)
        (is_atom i a) (is_atom i b) (atom_validation n i a h.0) (atom_validation n i b h.1.0)
  span_parts n i (a ∷ b ∷ c ∷ ts) lt h = not_unpacked-Answers

  parts-LacksAll : (v : Text) → Lacks b',' v → Lacks b'/' v → All LacksAll (split b'-' v)
  parts-LacksAll v c s =
      All-and (Lacks b',') (λ t. Lacks b'/' t × Lacks b'-' t) (split b'-' v)
        (split-Lacks_other b',' b'-' v c)
        (All-and (Lacks b'/') (Lacks b'-') (split b'-' v) (split-Lacks_other b'/' b'-' v s)
          (split-Lacks b'-' v))

  span-Answers :
      (n : ℕ) (i : Interval) (v : Text)
      → Lacks b',' v
      → Lacks b'/' v
      → Answers (make_validation is_digit (suc (suc n)) i v) (is_span i v)
  unfolding check_parts
  span-Answers n i v c s = elim (Bool-cases (has_char b'-' v)) [
    | inl d ↦ validation-Answers (suc n) i (is_span i) v (star_span i) (bad_spans i) λ _.
        rw (c, s, d)
          (span_parts n i (split b'-' v) (lt-length-split b'-' v d) (parts-LacksAll v c s))
    | inr d ↦ rw (split_lacking b'-' v d) (atom_validation (suc n) i v (c, (s, d)))
  ]

  step_parts :
      (n : ℕ) (i : Interval) (ts : List Text)
      → 1 < length ts
      → All (λ t. Lacks b',' t × Lacks b'/' t) ts
      → Answers
          (check_step is_digit (make_validation is_digit (suc (suc n)) i) i ts)
          (is_step_of is_digit i ts)
  unfolding check_step
  step_parts n i [] lt h = not_unpacked-Answers
  step_parts n i (a ∷ []) lt h = absurd (omega arith)
  step_parts n i (a ∷ d ∷ []) lt h = elim (Bool-cases (is_digits is_digit d)) [
    | inl e ↦ rw e (span-Answers n i a h.0.0 h.0.1)
    | inr e ↦ rw e (failed-Answers (failed (invalid_delimiter i)) false (λ p. cc) (λ p. cc) refl)
  ]
  step_parts n i (a ∷ b ∷ c ∷ ts) lt h = not_unpacked-Answers

  step-Answers :
      (n : ℕ) (i : Interval) (v : Text)
      → Lacks b',' v
      → Answers (make_validation is_digit (suc (suc (suc n))) i v) (is_step is_digit i v)
  unfolding check_parts
  step-Answers n i v c = elim (Bool-cases (has_char b'/' v)) [
    | inl s ↦
        validation-Answers (suc (suc n)) i (is_step is_digit i) v (star_step i) (bad_steps i) λ _.
          rw (c, s)
            (step_parts n i (split b'/' v) (lt-length-split b'/' v s) (
              All-and (Lacks b',') (Lacks b'/') (split b'/' v) (split-Lacks_other b',' b'/' v c)
                (split-Lacks b'/' v)))
    | inr s ↦ rw (split_lacking b'/' v s) (span-Answers (suc n) i v c s)
  ]

  listing-Answers :
      (n : ℕ) (i : Interval) (v : Text)
      → Answers (make_validation is_digit (suc (suc (suc (suc n)))) i v) (is_listing is_digit i v)
  unfolding check_parts
  listing-Answers n i v = elim (Bool-cases (has_char b',' v)) [
    | inl c ↦
        validation-Answers (suc (suc (suc n))) i (is_listing is_digit i) v (star_listing i)
          (bad_listings i)
          λ _. rw c (
            check_each-Answers (make_validation is_digit (suc (suc (suc n))) i) (is_step is_digit i)
              (Lacks b',') (λ t k. step-Answers n i t k) (split b',' v) (split-Lacks b',' v))
    | inr c ↦ rw (split_lacking b',' v c) (single-Answers (step-Answers (suc n) i v c))
  ]

  -- With four rounds the check of a value always ends, and it passes just the lists, between commas,
  -- of atoms or of two atoms around a dash, each alone or with digits behind a slash; an atom is a star
  -- or a number in the bounds of the interval.
  pub make_validation_lem :
      (i : Interval) (v : Text)
      → (make_validation is_digit rounds i v ≢ stuck)
        × ((make_validation is_digit rounds i v ≡ passed) ↔ (is_listing is_digit i v ≡ true))
  make_validation_lem i v = listing-Answers 0 i v
