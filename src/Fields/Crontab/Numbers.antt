-- ===== src/Fields/Crontab/Numbers.antt =====
-- The numbers that a column of a crontab allows, described by their digits and bounds.
use vstutils.Base.{
  ℕ, zero, suc, ◌+◌, ◌*◌, ◌/◌, ◌%◌, ◌<◌, ◌≡◌, refl, ap, inl, inr, Bool, false, true, ◌&&◌, ◌||◌, [],
  ◌∷◌, map, ◌==◌, text_eq, leb, ltb, Bool-cases, arith, ◌∙◌,
}
use vstutils.Base.Text.{Text}
use vstutils.Fields.Crontab.Defs.{
  Interval, minute, hour, day, month, weekday, str, range_from, intervals, is_one_of,
}

abbrev is_between : ℕ → ℕ → ℕ → Bool
is_between low high n = leb low n && leb n high

-- One or two digits, without a leading zero, whose value is in the bounds. The value of `c` and `d` is
-- ten times `c` and `d`, less what the digits have of the code of zero.
abbrev pub is_number : (first last : ℕ) → Text → Bool
is_number first last (c ∷ []) = is_between b'0' b'9' c && is_between (b'0' + first) (b'0' + last) c
is_number first last (c ∷ d ∷ []) =
    is_between b'1' b'9' c
    && is_between b'0' b'9' d
    && is_between (11 * b'0' + first) (11 * b'0' + last) (10 * c + d)
is_number first last _ = false

abbrev pub lowest : Interval → ℕ
lowest minute = 0
lowest hour = 0
lowest day = 1
lowest month = 1
lowest weekday = 0

abbrev pub highest : Interval → ℕ
highest minute = 59
highest hour = 23
highest day = 31
highest month = 12
highest weekday = 6

-- The spelling of a number is its one digit, or its two.
str-cases :
    (P : Text → Type 0) (n : ℕ)
    → (n < 10 → P ((b'0' + n) ∷ []))
    → (leb 10 n ≡ true → P ((b'0' + n / 10) ∷ (b'0' + n % 10) ∷ []))
    → P (str n)
unfolding str
str-cases P n one two = elim (Bool-cases (ltb n 10)) [
  | inl small ↦ rw small (one (ground (arith, small)))
  | inr large ↦ rw large (two (ground (arith, large)))
]

is_number-one : (n : ℕ) (v : Text) → n < 100 → (v == str n) ≡ is_number n n v
is_number-one n [] h = str-cases (λ t. ([] == t) ≡ false) n (λ k. refl) (λ k. refl)
is_number-one n (c ∷ []) h =
    str-cases (λ t. ((c ∷ []) == t) ≡ is_number n n (c ∷ [])) n (λ l. ground arith)
      (λ l. ground arith)
is_number-one n (c ∷ d ∷ []) h =
    str-cases (λ t. ((c ∷ d ∷ []) == t) ≡ is_number n n (c ∷ d ∷ [])) n (λ k. ground arith)
      (λ k. ground arith)
is_number-one n (c ∷ d ∷ e ∷ v) h =
    str-cases (λ t. ((c ∷ d ∷ e ∷ v) == t) ≡ false) n (λ l. ground arith) (λ l. ground arith)

is_number-next :
    (n last : ℕ) (v : Text)
    → n < last
    → last < 100
    → (v == str n || is_number (n + 1) last v) ≡ is_number n last v
is_number-next n last [] h k = str-cases (λ t. ([] == t || false) ≡ false) n (λ k. refl) (λ k. refl)
is_number-next n last (c ∷ []) h k =
    str-cases (λ t. ((c ∷ []) == t || is_number (n + 1) last (c ∷ [])) ≡ is_number n last (c ∷ []))
      n (λ k. ground arith) (λ k. ground arith)
is_number-next n last (c ∷ d ∷ []) h k =
    str-cases
      (λ t.
        ((c ∷ d ∷ []) == t || is_number (n + 1) last (c ∷ d ∷ [])) ≡ is_number n last (c ∷ d ∷ []))
      n (λ l. ground arith) (λ l. ground arith)
is_number-next n last (c ∷ d ∷ e ∷ v) h k =
    str-cases (λ t. ((c ∷ d ∷ e ∷ v) == t || false) ≡ false) n (λ l. ground arith)
      (λ l. ground arith)

is_one_of-range :
    (n k : ℕ) (v : Text)
    → n + k < 100
    → is_one_of v (map str (range_from n (suc k))) ≡ is_number n (n + k) v
is_one_of-range n zero v h = ground (arith, is_number-one n v)
is_one_of-range n (suc k) v h =
    let rest : is_one_of v (map str (range_from (n + 1) (suc k)))
        ≡ is_number (n + 1) (n + suc k) v =
      is_one_of-range (n + 1) k v (omega arith) ∙ ap (λ m. is_number (n + 1) m v) (omega arith) in
    ap (λ b. v == str n || b) rest ∙ is_number-next n (n + suc k) v (omega arith) h

-- The code's own lists of choices are the numbers in the bounds.
pub is_one_of-intervals :
    (i : Interval) (v : Text) → is_one_of v (intervals i) ≡ is_number (lowest i) (highest i) v
unfolding intervals
is_one_of-intervals minute v = is_one_of-range 0 59 v (omega arith)
is_one_of-intervals hour v = is_one_of-range 0 23 v (omega arith)
is_one_of-intervals day v = is_one_of-range 1 30 v (omega arith)
is_one_of-intervals month v = is_one_of-range 1 11 v (omega arith)
is_one_of-intervals weekday v = is_one_of-range 0 6 v (omega arith)
